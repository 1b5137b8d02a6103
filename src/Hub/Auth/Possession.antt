-- ===== src/Hub/Auth/Possession.antt =====
-- What an agent that is accepted under its own credential has shown, and what the table holds then.
use homepilot_core_public.Base.{
  ℕ, String, ◌≡◌, refl, ap, ◌∙◌, sym, ◌≢◌, ◌⊎◌, inl, inr, true, false, ◌||◌, not, Option, none,
  some, List, [], ◌∷◌, arith, ◌=ˢ◌, Bool-cases, Option-cases, eq_iff, All,
}
use homepilot_core_public.Base.Dict.{Dict, lookup, NodupKeys}
use homepilot_core_public.Hub.Agents.{
  AgentRow, truthy, equals, get_agent_credentials_by_hostname, rebind_agent_credential,
}
use homepilot_core_public.Hub.Agents.Live.{IsLiveIn, listed-IsLiveIn}
use homepilot_core_public.Hub.Agents.Rename.{HasCredential, rebind_hands_over}
use homepilot_core_public.Hub.Auth.Enrolment.{auth-credential}
use homepilot_core_public.Hub.Auth.{
  Repo, Hub, Register, per_agent, Verdict, accepted, rebind_loop, rebind_by_hostname, host_differs,
  holder, holder_verdict, verify_enrolment, verify_credential, verify_auth,
}

equals-some : (o : Option String) (s : String) → equals o s ≡ true → o ≡ some s
equals-some none s h = absurd (cc)
equals-some (some t) s h = ap some ((eq_iff t s).0 h)

-- A rebinding of the presented credential that went through.
record Rebound (agents : Dict AgentRow) (presented claimed hostname : String)
    (after : Dict AgentRow) : Type 0 where
  prior : String
  row : AgentRow
  live : IsLiveIn hostname agents (prior, row)
  holds : row.credential_hash ≡ some presented
  done : (rebind_agent_credential agents prior claimed).0 ≡ true
  result : (rebind_agent_credential agents prior claimed).1 ≡ after

module _ (agents : Dict AgentRow) (presented claimed hostname : String) where
  rebind_loop-Rebound :
      (rows : List (String × AgentRow)) {after : Dict AgentRow}
      → All (IsLiveIn hostname agents) rows
      → rebind_loop presented claimed agents rows ≡ some after
      → Rebound agents presented claimed hostname after
  unfolding rebind_loop
  rebind_loop-Rebound [] all h = absurd (cc)
  rebind_loop-Rebound ((prior, row) ∷ rows) all h =
      elim (Bool-cases (
        not (truthy row.credential_hash)
        || prior =ˢ claimed
        || not (equals row.credential_hash presented))) [
          | inl passed ↦ rebind_loop-Rebound rows all.1 (rw passed at h)
          | inr tried ↦ elim (Bool-cases (rebind_agent_credential agents prior claimed).0) [
            | inr refused ↦ rebind_loop-Rebound rows all.1 (rw (tried, refused) at h)
            | inl done ↦ record {
              prior = prior;
              row = row;
              live = all.0;
              holds = equals-some row.credential_hash presented (ground arith);
              done = done;
              result = ground arith;
            }
          ]
        ]

  rebind_by_hostname-Rebound :
      {after : Dict AgentRow}
      → NodupKeys agents
      → rebind_by_hostname agents presented claimed hostname ≡ some after
      → Rebound agents presented claimed hostname after
  unfolding rebind_by_hostname
  rebind_by_hostname-Rebound u h =
      rebind_loop-Rebound (get_agent_credentials_by_hostname agents hostname)
        (listed-IsLiveIn agents hostname u) (ground arith)

-- The hash that the hub stores for an agent.
abbrev pub stored_hash : Option AgentRow → Option String
stored_hash none = none
stored_hash (some row) = row.credential_hash

abbrev pub repo_hash : Option Repo → String → Option String
repo_hash none id = none
repo_hash (some repo) id = stored_hash (lookup id repo.agents)

-- What was shown: the claimed id's own credential, or another one that was rebound to it.
data Shown (agents : Dict AgentRow) (presented claimed hostname : String)
    : Dict AgentRow → Type 0 where
  own :
      (row : AgentRow)
      → lookup claimed agents ≡ some row
      → row.credential_hash ≡ some presented
      → row.revoked ≡ false
      → host_differs row.hostname hostname ≡ false
      → Shown agents presented claimed hostname agents
  moved :
      (after : Dict AgentRow)
      → Rebound agents presented claimed hostname after
      → Shown agents presented claimed hostname after

holder-row :
    (presented : String) (o : Option AgentRow) {row : AgentRow}
    → holder presented o ≡ some row
    → (o ≡ some row) × (row.credential_hash ≡ some presented)
holder-row presented none h = absurd (cc)
holder-row presented (some r) {row} h =
    let same : r ≡ row = ground arith in
    (
      ap some same,
      ap (λ x. x.credential_hash) (sym same)
          ∙ equals-some r.credential_hash presented (ground arith),
    )

module _ (hash_token : String → String) (now : ℕ) (hub : Hub) (request : Register) where
  enrolment-not_agent :
      (a : String) → (verify_enrolment hash_token now hub request).0 ≢ accepted (per_agent a)
  unfolding verify_enrolment
  enrolment-not_agent a h = ground arith

  auth-bare :
      (a : String)
      → (request.auth_token =ˢ "") ≡ true
      → (verify_auth hash_token now hub request).0 ≢ accepted (per_agent a)
  unfolding verify_auth
  auth-bare a bare v = ground arith

  auth-unnamed :
      (a : String)
      → (request.auth_token =ˢ "") ≡ false
      → (request.agent_id =ˢ "") ≡ true
      → (verify_auth hash_token now hub request).0 ≡ accepted (per_agent a)
      → (verify_enrolment hash_token now hub request).0 ≡ accepted (per_agent a)
  unfolding verify_auth
  auth-unnamed a given unnamed v = elim (Option-cases hub.repo) [
    | inl bare ↦ ground arith
    | inr (repo, e) ↦ ground arith
  ]

  -- The three ways through `verify_credential`.
  credential-held :
      (repo : Repo) (row : AgentRow)
      → holder (hash_token request.auth_token) (lookup request.agent_id repo.agents) ≡ some row
      → verify_credential hash_token now hub repo request ≡ (holder_verdict row request, hub)
  unfolding verify_credential
  credential-held repo row h = ground arith

  credential-moved :
      (repo : Repo) (after : Dict AgentRow)
      → holder (hash_token request.auth_token) (lookup request.agent_id repo.agents) ≡ none
      → rebind_by_hostname repo.agents
          (hash_token request.auth_token)
          request.agent_id
          request.hostname
        ≡ some after
      → verify_credential hash_token now hub repo request ≡ (
        accepted (per_agent request.agent_id),
        record hub { repo = some (record repo { agents = after }) },
      )
  unfolding verify_credential
  credential-moved repo after h m = ground arith

  credential-enrolment :
      (repo : Repo)
      → holder (hash_token request.auth_token) (lookup request.agent_id repo.agents) ≡ none
      → rebind_by_hostname repo.agents
          (hash_token request.auth_token)
          request.agent_id
          request.hostname
        ≡ none
      → verify_credential hash_token now hub repo request
        ≡ verify_enrolment hash_token now hub request
  unfolding verify_credential
  credential-enrolment repo h m = ground arith

  holder_verdict-live :
      (row : AgentRow) (a : String)
      → holder_verdict row request ≡ accepted (per_agent a)
      → (row.revoked ≡ false)
        × (a ≡ request.agent_id)
        × (host_differs row.hostname request.hostname ≡ false)
  unfolding holder_verdict
  holder_verdict-live row a h = (ground arith, ground arith, ground arith)

  -- What an acceptance shows, and the table that it leaves.
  abbrev ShownBy : Repo → String → Verdict × Hub → Type 0
  ShownBy repo a (v, after_hub) =
      v ≡ accepted (per_agent a)
      → (a ≡ request.agent_id)
        × ((after : Dict AgentRow) × Shown repo.agents (hash_token request.auth_token)
              request.agent_id request.hostname after
            × (repo_hash after_hub.repo ≡ (λ j. stored_hash (lookup j after))))

  credential-ShownBy :
      (repo : Repo) (a : String)
      → NodupKeys repo.agents
      → hub.repo ≡ some repo
      → ShownBy repo a (verify_credential hash_token now hub repo request)
  credential-ShownBy repo a u e =
      let presented = hash_token request.auth_token in
      elim (Option-cases (holder presented (lookup request.agent_id repo.agents))) [
        | inr (row, h) ↦
            let (there, has) = holder-row presented (lookup request.agent_id repo.agents) h in
            rw (credential-held repo row h) (λ v.
              let (live, same, host) = holder_verdict-live row a v in
              (same, (repo.agents, own row there has live host, ap repo_hash e)))
        | inl h ↦
            elim (Option-cases
              (rebind_by_hostname repo.agents presented request.agent_id request.hostname)) [
                | inr (after, m) ↦ rw (credential-moved repo after h m) (λ v. (
                  ground arith,
                  (
                    after,
                    moved after (
                        rebind_by_hostname-Rebound repo.agents presented request.agent_id
                          request.hostname u m),
                    refl,
                  ),
                ))
                | inl m ↦ rw (credential-enrolment repo h m) (λ v. absurd (enrolment-not_agent a v))
              ]
      ]

  auth-ShownBy :
      (repo : Repo) (a : String)
      → NodupKeys repo.agents
      → hub.repo ≡ some repo
      → ShownBy repo a (verify_auth hash_token now hub request)
  auth-ShownBy repo a u e = elim (Bool-cases (request.auth_token =ˢ "")) [
    | inl bare ↦ λ v. absurd (auth-bare a bare v)
    | inr given ↦ elim (Bool-cases (request.agent_id =ˢ "")) [
      | inl unnamed ↦ λ v. absurd (enrolment-not_agent a (auth-unnamed a given unnamed v))
      | inr named ↦
          rw
            (auth-credential hash_token now hub request repo e
              (λ q. absurd (ground (arith, (eq_iff request.auth_token "").1 q)))
              (λ q. absurd (ground (arith, (eq_iff request.agent_id "").1 q))))
            (credential-ShownBy repo a u e)
    ]
  ]

  -- Where the ids of the agents are unique, an agent that is accepted under its own credential is
  -- accepted under the id it claims, and its token is the credential of a row of the table that is not
  -- revoked: the row of that id, on a host that does not differ from the one claimed, or the row of
  -- another agent on the very host that is claimed.
  pub accepted_agent :
      (repo : Repo) (a : String)
      → NodupKeys repo.agents
      → hub.repo ≡ some repo
      → (verify_auth hash_token now hub request).0 ≡ accepted (per_agent a)
      → (a ≡ request.agent_id)
        × ((prior : String) × (row : AgentRow) × (lookup prior repo.agents ≡ some row)
            × (row.credential_hash ≡ some (hash_token request.auth_token))
            × (row.revoked ≡ false)
            × (((prior ≡ a) × (host_differs row.hostname request.hostname ≡ false))
                ⊎ (row.hostname ≡ some request.hostname)))
  accepted_agent repo a u e v =
      let (same, (after, shown, _)) = auth-ShownBy repo a u e v in (same, row_of same shown)
    where
      row_of :
          {after : Dict AgentRow}
          → a ≡ request.agent_id
          → Shown repo.agents
              (hash_token request.auth_token)
              request.agent_id
              request.hostname
              after
          → (prior : String) × (row : AgentRow) × (lookup prior repo.agents ≡ some row)
            × (row.credential_hash ≡ some (hash_token request.auth_token))
            × (row.revoked ≡ false)
            × (((prior ≡ a) × (host_differs row.hostname request.hostname ≡ false))
                ⊎ (row.hostname ≡ some request.hostname))
      row_of same (own row there has live host) =
          (request.agent_id, row, there, has, live, inl (sym same, host))
      row_of same (moved after r) = (
        r.prior,
        r.row,
        r.live.0,
        r.holds,
        ground (arith, r.live.1),
        inr (equals-some r.row.hostname request.hostname (ground (arith, r.live.1))),
      )

  -- Where the ids of the agents are unique, after an agent was accepted under its own credential the
  -- row of the id that it claimed has the hash of its token as the credential.
  pub accepted_agent_holds :
      (repo : Repo) (a : String)
      → NodupKeys repo.agents
      → hub.repo ≡ some repo
      → (verify_auth hash_token now hub request).0 ≡ accepted (per_agent a)
      → repo_hash (verify_auth hash_token now hub request).1.repo request.agent_id
        ≡ some (hash_token request.auth_token)
  accepted_agent_holds repo a u e v =
      let (_, (after, shown, table)) = auth-ShownBy repo a u e v in
      ap (λ f. f request.agent_id) table ∙ held shown
    where
      handed :
          (row : AgentRow) (o : Option AgentRow)
          → HasCredential row o
          → stored_hash o ≡ row.credential_hash
      handed row none h = absurd h
      handed row (some r) h = h.0

      held :
          {after : Dict AgentRow}
          → Shown repo.agents
              (hash_token request.auth_token)
              request.agent_id
              request.hostname
              after
          → stored_hash (lookup request.agent_id after) ≡ some (hash_token request.auth_token)
      held (own row there has live host) = ap stored_hash there ∙ has
      held (moved after r) =
          let (row, there, has, _) =
            rebind_hands_over repo.agents r.prior request.agent_id r.done in
          let same : row ≡ r.row = cc (there, r.live.0) in
          ap (λ t. stored_hash (lookup request.agent_id t)) (sym r.result)
          ∙ handed row
              (lookup request.agent_id
                (rebind_agent_credential repo.agents r.prior request.agent_id).1)
              has
          ∙ ap (λ x. x.credential_hash) same
          ∙ r.holds
