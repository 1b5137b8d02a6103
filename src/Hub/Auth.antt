-- ===== src/Hub/Auth.antt =====
-- `_verify_auth`, `_rebind_by_hostname` and `_enrolment_allowed` of agent_hub/server.py. An absent
-- field of the register frame is the empty text, and `hmac.compare_digest` is equality.
pub mod Possession
pub mod Enrolment
use homepilot_core_public.Base.{
  ℕ, zero, String, Bool, true, false, ◌&&◌, ◌||◌, not, Option, none, some, List, [], ◌∷◌, ◌=ˢ◌,
  ◌==◌, if◌then◌else◌,
}
use homepilot_core_public.Base.Dict.{Dict, lookup}
use homepilot_core_public.Hub.Agents.{
  AgentRow, truthy, equals, get_agent_credential, count_agents, agent_hostname_known,
  get_agent_credentials_by_hostname, rebind_agent_credential,
}
use homepilot_core_public.Hub.Tokens.{TokenStore, consume}
use homepilot_core_public.Hub.Window.{is_open}

-- The database, as far as the checks read and write it.
pub record Repo : Type 0 where
  pub agents : Dict AgentRow
  pub enrolment_window : Option ℕ

pub record Hub : Type 0 where
  pub repo : Option Repo
  pub token_store : TokenStore
  pub auth_token : String

pub record Register : Type 0 where
  pub auth_token : String
  pub agent_id : String
  pub hostname : String

pub data AuthResult : Type 0 where
  per_agent : String → AuthResult
  shared bootstrap : AuthResult

-- The specific reason of a refusal, which `deny` collects.
pub data Denial : Type 0 where
  no_token credential_revoked wrong_host window_closed unknown_token : Denial

pub data Verdict : Type 0 where
  accepted : AuthResult → Verdict
  denied : Denial → Verdict

-- The loop of `_rebind_by_hostname` over the live rows, newest first: the table of the first
-- rebinding that goes through.
unfoldable pub rebind_loop :
    String → String → Dict AgentRow → List (String × AgentRow) → Option (Dict AgentRow)
unfolding rebind_agent_credential
rebind_loop presented claimed agents [] = none
rebind_loop presented claimed agents ((prior, row) ∷ rows) =
    let rest = rebind_loop presented claimed agents rows in
    if not (truthy row.credential_hash)
      || prior =ˢ claimed
      || not (equals row.credential_hash presented)
    then rest
    else if (rebind_agent_credential agents prior claimed).0
    then some (rebind_agent_credential agents prior claimed).1
    else rest

unfoldable pub rebind_by_hostname :
    Dict AgentRow → String → String → String → Option (Dict AgentRow)
unfolding rebind_loop get_agent_credentials_by_hostname
rebind_by_hostname agents presented claimed hostname =
    if hostname =ˢ "" || claimed =ˢ ""
    then none
    else rebind_loop presented claimed agents (get_agent_credentials_by_hostname agents hostname)

-- `None` of the source is `true`.
unfoldable pub enrolment_allowed : ℕ → Option Repo → String → Bool
unfolding agent_hostname_known
enrolment_allowed now none hostname = true
enrolment_allowed now (some repo) hostname =
    count_agents repo.agents == 0
    || not (hostname =ˢ "") && agent_hostname_known repo.agents hostname
    || is_open now repo.enrolment_window

-- The row under the claimed id, when the token is its credential.
abbrev pub holder : String → Option AgentRow → Option AgentRow
holder presented none = none
holder presented (some row) =
    if truthy row.credential_hash && equals row.credential_hash presented then some row else none

-- `bound_host and claimed_hostname and bound_host != claimed_hostname`
abbrev pub host_differs : Option String → String → Bool
host_differs none claimed = false
host_differs (some bound) claimed =
    not (bound =ˢ "") && not (claimed =ˢ "") && not (bound =ˢ claimed)

-- The decision on the row whose credential the token is.
unfoldable pub holder_verdict : AgentRow → Register → Verdict
holder_verdict row request =
    if row.revoked
    then denied credential_revoked
    else if host_differs row.hostname request.hostname
    then denied wrong_host
    else accepted (per_agent request.agent_id)

module _ (hash_token : String → String) (now : ℕ) where
  -- The shared token and the bootstrap tokens.
  unfoldable pub verify_enrolment : Hub → Register → Verdict × Hub
  unfolding enrolment_allowed consume
  verify_enrolment hub request =
      let (spent, store) = consume hash_token now request.auth_token hub.token_store in
      if not (hub.auth_token =ˢ "") && request.auth_token =ˢ hub.auth_token
      then (if enrolment_allowed now hub.repo request.hostname
          then (accepted shared, hub)
          else (denied window_closed, hub))
      else (
        if spent then accepted bootstrap else denied unknown_token,
        record hub { token_store = store },
      )

  -- The checks on the credential that is stored for the agent, where there is a repository.
  unfoldable pub verify_credential : Hub → Repo → Register → Verdict × Hub
  unfolding holder_verdict rebind_by_hostname verify_enrolment
  verify_credential hub repo request =
      let presented = hash_token request.auth_token in
      elim (holder presented (get_agent_credential repo.agents request.agent_id)) [
        | some row ↦ (holder_verdict row request, hub)
        | none ↦ elim (rebind_by_hostname repo.agents presented request.agent_id request.hostname) [
          | some agents ↦ (
            accepted (per_agent request.agent_id),
            record hub { repo = some (record repo { agents = agents }) },
          )
          | none ↦ verify_enrolment hub request
        ]
      ]

  unfoldable pub verify_auth : Hub → Register → Verdict × Hub
  unfolding verify_credential verify_enrolment
  verify_auth hub request =
      if request.auth_token =ˢ "" then (denied no_token, hub) else elim hub.repo [
        | none ↦ verify_enrolment hub request
        | some repo ↦
            if request.agent_id =ˢ ""
            then verify_enrolment hub request
            else verify_credential hub repo request
      ]
