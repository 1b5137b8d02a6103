-- ===== src/Hub/Agents.antt =====
-- The table `agents` as the credential store of the hub: db/repository.py, from
-- `set_agent_credential` to `revoke_agent_credential`. The table is listed under its primary key.
-- Time stamps are counted, and `revoked` tells whether `revoked_at` is set.
pub mod Rename
pub mod Live
use homepilot_core_public.Base.{
  ℕ, zero, suc, String, Bool, true, false, ◌&&◌, ◌||◌, not, Option, none, some, List, [], ◌∷◌, ◌=ˢ◌,
  leb, length, if◌then◌else◌, is_some,
}
use homepilot_core_public.Base.Dict.{Dict, lookup, insert}

pub record AgentRow : Type 0 where
  pub hostname : Option String
  pub credential_hash : Option String
  pub credential_set_at : Option ℕ
  pub revoked : Bool

-- A column as a condition: NULL and the empty text are false.
abbrev pub truthy : Option String → Bool
truthy none = false
truthy (some s) = not (s =ˢ "")

abbrev pub equals : Option String → String → Bool
equals none s = false
equals (some t) s = t =ˢ s

abbrev pub set_agent_credential : ℕ → String → String → String → Dict AgentRow → Dict AgentRow
set_agent_credential now id hostname hash agents =
    insert id
      (record {
        hostname = some hostname;
        credential_hash = some hash;
        credential_set_at = some now;
        revoked = false;
      })
      agents

abbrev pub get_agent_credential : Dict AgentRow → String → Option AgentRow
get_agent_credential agents id = lookup id agents

abbrev pub count_agents : Dict AgentRow → ℕ
count_agents agents = length agents

unfoldable pub any_host : String → Dict AgentRow → Bool
any_host hostname [] = false
any_host hostname ((_, row) ∷ agents) = equals row.hostname hostname || any_host hostname agents

unfoldable pub agent_hostname_known : Dict AgentRow → String → Bool
unfolding any_host
agent_hostname_known agents hostname = if hostname =ˢ "" then false else any_host hostname agents

-- The order of `credential_set_at`, in which NULL comes first.
abbrev pub age_rank : Option ℕ → ℕ
age_rank none = 0
age_rank (some t) = suc t

unfoldable pub place : String × AgentRow → List (String × AgentRow) → List (String × AgentRow)
place p [] = p ∷ []
place p (q ∷ rows) =
    let rest = place p rows in
    if leb (age_rank q.1.credential_set_at) (age_rank p.1.credential_set_at)
    then p ∷ q ∷ rows
    else q ∷ rest

-- `hostname = ? AND credential_hash IS NOT NULL AND revoked_at IS NULL`
abbrev pub is_live_on : String → AgentRow → Bool
is_live_on hostname row =
    equals row.hostname hostname && is_some row.credential_hash && not row.revoked

unfoldable pub live_rows : String → Dict AgentRow → List (String × AgentRow)
unfolding place
live_rows hostname [] = []
live_rows hostname (p ∷ agents) =
    let rest = live_rows hostname agents in if is_live_on hostname p.1 then place p rest else rest

-- Newest credential first.
unfoldable pub get_agent_credentials_by_hostname : Dict AgentRow → String → List (String × AgentRow)
unfolding live_rows
get_agent_credentials_by_hostname agents hostname =
    if hostname =ˢ "" then [] else live_rows hostname agents

-- UPDATE agents SET agent_id = ? WHERE agent_id = ?
unfoldable pub rename : String → String → Dict AgentRow → Dict AgentRow
rename old new [] = []
rename old new ((id, row) ∷ agents) = ((if id =ˢ old then new else id), row) ∷ rename old new agents

-- The two updates of a rebinding onto a row that is there.
abbrev pub copy_credential : AgentRow → AgentRow → AgentRow
copy_credential old row = record row {
  hostname = old.hostname;
  credential_hash = old.credential_hash;
  credential_set_at = old.credential_set_at;
  revoked = false;
}

abbrev pub strip_credential : AgentRow → AgentRow
strip_credential row = record row { credential_hash = none; credential_set_at = none }

-- `rebind_agent_credential` past its first test.
unfoldable pub move_credential :
    String → String → AgentRow → Option AgentRow → Dict AgentRow → Dict AgentRow
unfolding rename
move_credential old new row none agents = rename old new agents
move_credential old new row (some there) agents =
    insert old (strip_credential row) (insert new (copy_credential row there) agents)

unfoldable pub rebind_agent_credential : Dict AgentRow → String → String → Bool × Dict AgentRow
unfolding move_credential
rebind_agent_credential agents old new =
    if old =ˢ "" || new =ˢ "" || old =ˢ new then (false, agents) else elim (lookup old agents) [
      | none ↦ (false, agents)
      | some row ↦
          if truthy row.credential_hash
          then (true, move_credential old new row (lookup new agents) agents)
          else (false, agents)
    ]

-- Whether a row was updated, and the table.
unfoldable pub revoke_agent_credential : Dict AgentRow → String → Bool × Dict AgentRow
revoke_agent_credential agents id = elim (lookup id agents) [
  | none ↦ (false, agents)
  | some row ↦
      if is_some row.credential_hash && not row.revoked
      then (true, insert id (record row { revoked = true }) agents)
      else (false, agents)
]
