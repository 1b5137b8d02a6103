-- ===== src/Hub/Agents/Live.antt =====
-- The rows that `get_agent_credentials_by_hostname` lists.
use homepilot_core_public.Base.{
  String, ◌≡◌, refl, inl, inr, true, none, some, List, [], ◌∷◌, arith, ◌=ˢ◌, leb, Bool-cases,
  eq_iff, All, All-map,
}
use homepilot_core_public.Base.Dict.{Dict, lookup, NodupKeys}
use homepilot_core_public.Hub.Agents.{
  AgentRow, place, is_live_on, live_rows, get_agent_credentials_by_hostname, age_rank,
}

place-All :
    (P : String × AgentRow → Type 0) (p : String × AgentRow) (rows : List (String × AgentRow))
    → P p
    → All P rows
    → All P (place p rows)
unfolding place
place-All P p [] h all = (h, tt)
place-All P p (q ∷ rows) h all =
    elim (Bool-cases (leb (age_rank q.1.credential_set_at) (age_rank p.1.credential_set_at))) [
      | inl newer ↦ rw newer (h, all)
      | inr older ↦ rw older (all.0, place-All P p rows h all.1)
    ]

-- The row stands in the table under its id, and is live on the host.
abbrev pub IsLiveIn : String → Dict AgentRow → String × AgentRow → Type 0
IsLiveIn hostname agents p = (lookup p.0 agents ≡ some p.1) × (is_live_on hostname p.1 ≡ true)

IsLiveIn-cons :
    (hostname k : String) (e : AgentRow) (agents : Dict AgentRow) (p : String × AgentRow)
    → lookup k agents ≡ none
    → IsLiveIn hostname agents p
    → IsLiveIn hostname ((k, e) ∷ agents) p
unfolding lookup
IsLiveIn-cons hostname k e agents p new (l, a) = (ground (arith, eq_iff k p.0), a)

live_rows-IsLiveIn :
    (hostname : String) (agents : Dict AgentRow)
    → NodupKeys agents
    → All (IsLiveIn hostname agents) (live_rows hostname agents)
unfolding live_rows lookup
live_rows-IsLiveIn hostname [] u = tt
live_rows-IsLiveIn hostname ((k, e) ∷ agents) u =
    let rest =
      All-map (IsLiveIn hostname agents) (IsLiveIn hostname ((k, e) ∷ agents))
        (λ p h. IsLiveIn-cons hostname k e agents p u.0 h) (live_rows hostname agents)
        (live_rows-IsLiveIn hostname agents u.1) in
    elim (Bool-cases (is_live_on hostname e)) [
      | inr skipped ↦ rw skipped rest
      | inl live ↦ rw live (
          place-All (IsLiveIn hostname ((k, e) ∷ agents)) (k, e) (live_rows hostname agents)
            (rw ((eq_iff k k).1 refl) refl, live) rest)
    ]

pub listed-IsLiveIn :
    (agents : Dict AgentRow) (hostname : String)
    → NodupKeys agents
    → All (IsLiveIn hostname agents) (get_agent_credentials_by_hostname agents hostname)
unfolding get_agent_credentials_by_hostname
listed-IsLiveIn agents hostname u = elim (Bool-cases (hostname =ˢ "")) [
  | inl unnamed ↦ rw unnamed tt
  | inr named ↦ rw named (live_rows-IsLiveIn hostname agents u)
]
