-- ===== src/Hub/Agents/Rename.antt =====
-- What the table holds after a rebinding.
use homepilot_core_public.Base.{
  String, ◌≡◌, refl, ap, sym, ◌∙◌, ◌≢◌, inl, inr, true, false, Option, none, some, [], ◌∷◌, arith,
  ◌=ˢ◌, if◌then◌else◌, Bool-cases, Option-cases, eq_iff,
}
use homepilot_core_public.Base.Dict.{Dict, lookup, insert, lookup-insert}
use homepilot_core_public.Hub.Agents.{
  AgentRow, rename, move_credential, copy_credential, strip_credential, rebind_agent_credential,
}

pub lookup-rename :
    (old new j : String) (agents : Dict AgentRow)
    → lookup new agents ≡ none
    → lookup j (rename old new agents)
      ≡ (if new =ˢ j then lookup old agents else if old =ˢ j then none else lookup j agents)
unfolding lookup rename
lookup-rename old new j [] h = ground arith
lookup-rename old new j ((id, row) ∷ agents) h =
    let rest = lookup-rename old new j agents (ground arith) in
    let fresh : id =ˢ new ≡ false = ground arith in
    elim (Bool-cases (id =ˢ old)) [
      | inl same ↦ rw same (elim (Bool-cases (new =ˢ j)) [
        | inl hit ↦ rw hit refl
        | inr miss ↦
            let renamed : (id =ˢ j) ≡ (old =ˢ j) = ap (λ k. k =ˢ j) ((eq_iff id old).0 same) in
            rw (miss, renamed) (ground (arith, rest, miss))
      ])
      | inr other ↦ rw other (elim (Bool-cases (new =ˢ j)) [
        | inl hit ↦
            let e = (eq_iff new j).0 hit in
            let differs : (id =ˢ j) ≡ false = ap (λ k. id =ˢ k) (sym e) ∙ fresh in
            rw (hit, differs) (ground (arith, rest, hit))
        | inr miss ↦ elim (Bool-cases (old =ˢ j)) [
          | inl gone ↦
              let e = (eq_iff old j).0 gone in
              let differs : (id =ˢ j) ≡ false = ap (λ k. id =ˢ k) (sym e) ∙ other in
              rw (miss, gone, differs) (ground (arith, rest, miss, gone))
          | inr stays ↦ rw (miss, stays) (ground (arith, rest, miss, stays))
        ]
      ])
    ]

-- The row of the old id has no credential left.
abbrev pub IsStripped : Option AgentRow → Type 0
IsStripped none = Unit
IsStripped (some row) = row.credential_hash ≡ none

-- The credential of `row`, on the host of `row`.
abbrev pub HasCredential : AgentRow → Option AgentRow → Type 0
HasCredential row none = ⊥
HasCredential row (some after) =
    (after.credential_hash ≡ row.credential_hash) × (after.hostname ≡ row.hostname)

module _ (agents : Dict AgentRow) (old new : String) where
  abbrev rebound : Dict AgentRow
  rebound = (rebind_agent_credential agents old new).1

  -- The first test and the row that a rebinding moves.
  rebind-moves :
      (rebind_agent_credential agents old new).0 ≡ true
      → (row : AgentRow) × (lookup old agents ≡ some row)
        × (old ≢ new)
        × (rebound ≡ move_credential old new row (lookup new agents) agents)
  unfolding rebind_agent_credential
  rebind-moves h = elim (Option-cases (lookup old agents)) [
    | inl e ↦ absurd (ground arith)
    | inr (row, e) ↦ (row, e, λ q. ground (arith, (eq_iff old new).1 q), ground arith)
  ]

  pub lookup-move :
      (row : AgentRow) (j : String)
      → lookup old agents ≡ some row
      → old ≢ new
      → (there : Option AgentRow) → lookup new agents ≡ there
      → lookup j (move_credential old new row there agents) ≡ (
          if new =ˢ j
          then (elim there [ none ↦ some row | some t ↦ some (copy_credential row t) ])
          else if old =ˢ j
          then (elim there [ none ↦ none | some _ ↦ some (strip_credential row) ])
          else lookup j agents)
  unfolding move_credential
  lookup-move row j e ne none h = ground (arith, lookup-rename old new j agents h)
  lookup-move row j e ne (some there) h = ground (
    arith,
    lookup-insert old j (strip_credential row) (insert new (copy_credential row there) agents),
    lookup-insert new j (copy_credential row there) agents,
    eq_iff old j,
    eq_iff new j,
  )

  move-HasCredential :
      (row : AgentRow) (there : Option AgentRow)
      → lookup old agents ≡ some row
      → old ≢ new
      → lookup new agents ≡ there
      → HasCredential row (lookup new (move_credential old new row there agents))
        × IsStripped (lookup old (move_credential old new row there agents))
  move-HasCredential row none e ne h =
      let at_new = lookup-move row new e ne none h in
      let at_old = lookup-move row old e ne none h in
      let differ : (new =ˢ old) ≡ false =
        ground (arith, eq_iff new old, (λ (q : old ≡ new). ne q)) in
      (
        rw (at_new, (eq_iff new new).1 refl) (refl, refl),
        rw (at_old, differ, (eq_iff old old).1 refl) tt,
      )
  move-HasCredential row (some there) e ne h =
      let at_new = lookup-move row new e ne (some there) h in
      let at_old = lookup-move row old e ne (some there) h in
      let differ : (new =ˢ old) ≡ false =
        ground (arith, eq_iff new old, (λ (q : old ≡ new). ne q)) in
      (
        rw (at_new, (eq_iff new new).1 refl) (refl, refl),
        rw (at_old, differ, (eq_iff old old).1 refl) refl,
      )

  pub rebind_hands_over :
      (rebind_agent_credential agents old new).0 ≡ true
      → (row : AgentRow) × (lookup old agents ≡ some row)
        × HasCredential row (lookup new rebound)
        × IsStripped (lookup old rebound)
  rebind_hands_over done =
      let (row, e, ne, moved) = rebind-moves done in
      let (has, stripped) = move-HasCredential row (lookup new agents) e ne refl in
      (row, e, rw moved has, rw moved stripped)

  rebind_spares : (j : String) → j ≢ old → j ≢ new → lookup j rebound ≡ lookup j agents
  unfolding rebind_agent_credential
  rebind_spares j ne_old ne_new = elim (Bool-cases (rebind_agent_credential agents old new).0) [
    | inr refused ↦ ground arith
    | inl done ↦
        let (row, e, ne, moved) = rebind-moves done in
        let other_new : (new =ˢ j) ≡ false =
          ground (arith, eq_iff new j, (λ (q : j ≡ new). ne_new q)) in
        let other_old : (old =ˢ j) ≡ false =
          ground (arith, eq_iff old j, (λ (q : j ≡ old). ne_old q)) in
        ap (lookup j) moved
        ∙ lookup-move row j e ne (lookup new agents) refl
        ∙ rw (other_new, other_old) refl
  ]

  -- A rebinding that goes through found a row under the old id. After it the new id has that row's
  -- credential and host name, the row of the old id, if there still is one, has no credential, and
  -- the row of any other id is as it was.
  pub rebind_moves_one :
      (j : String)
      → (rebind_agent_credential agents old new).0 ≡ true
      → j ≢ old
      → j ≢ new
      → ((row : AgentRow) × (lookup old agents ≡ some row)
          × HasCredential row (lookup new rebound)
          × IsStripped (lookup old rebound))
        × (lookup j rebound ≡ lookup j agents)
  rebind_moves_one j done ne_old ne_new = (rebind_hands_over done, rebind_spares j ne_old ne_new)
