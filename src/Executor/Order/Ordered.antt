-- ===== src/Executor/Order/Ordered.antt =====
-- The steps of a sorted order stand behind their dependencies.
use homepilot_core_public.Base.{
  String, ◌≡◌, sym, ◌≢◌, ◌⊎◌, inl, inr, true, false, none, some, List, [], ◌∷◌, arith, ◌=ˢ◌, ◌∈ˢ◌,
  All, All-map, Bool-cases, Option-cases, eq_iff, ∈-cases, subst,
}
use homepilot_core_public.Base.Dict.{Dict, lookup, insert, lookup-insert}
use homepilot_core_public.Artifacts.Spec.{Step}
use homepilot_core_public.Executor.Order.{add_steps, deps_of, steps_of_order}
use homepilot_core_public.Executor.Order.Sound.{IsSorted}

abbrev pub ids_of : List Step → List String
ids_of [] = []
ids_of (s ∷ out) = s.id ∷ ids_of out

module _ (map : Dict Step) where
  -- Each step that is returned is the map's, its id is new, and each of its dependencies is the id of a
  -- step before it or is unknown to the map.
  abbrev pub IsOrdered : List String → List Step → Type 0
  IsOrdered seen [] = Unit
  IsOrdered seen (s ∷ out) =
      (lookup s.id map ≡ some s)
      × (s.id ∈ˢ seen ≡ false)
      × All (λ d. (d ∈ˢ seen ≡ true) ⊎ (lookup d map ≡ none)) s.depends_on
      × IsOrdered (s.id ∷ seen) out

  -- The ids of the steps among the nodes seen are the ids returned so far.
  abbrev Agree : List String → List String → Type 0
  Agree seen ids =
      ((x : String) → x ∈ˢ seen ≡ true → (x ∈ˢ ids ≡ true) ⊎ (lookup x map ≡ none))
      × ((x : String) → x ∈ˢ seen ≡ false → x ∈ˢ ids ≡ false)

  -- Every step stands under its own id.
  abbrev pub IsKeyed : Type 0
  IsKeyed = (k : String) (s : Step) → lookup k map ≡ some s → s.id ≡ k

  deps-known : (n : String) (s : Step) → lookup n map ≡ some s → deps_of map n ≡ s.depends_on
  deps-known n s h = ground (arith, h)

  steps-unknown :
      (n : String) (order : List String)
      → lookup n map ≡ none
      → steps_of_order map (n ∷ order) ≡ steps_of_order map order
  unfolding steps_of_order
  steps-unknown n order h = ground (arith, h)

  steps-known :
      (n : String) (order : List String) (s : Step)
      → lookup n map ≡ some s
      → steps_of_order map (n ∷ order) ≡ s ∷ steps_of_order map order
  unfolding steps_of_order
  steps-known n order s h = ground (arith, h)

  pub IsSorted-IsOrdered :
      (seen order ids : List String)
      → IsKeyed
      → IsSorted map seen order
      → Agree seen ids
      → IsOrdered ids (steps_of_order map order)
  IsSorted-IsOrdered seen [] ids keyed sorted agree = unfold steps_of_order in tt
  IsSorted-IsOrdered seen (n ∷ order) ids keyed (new, all, sorted) (there, fresh) =
      elim (Option-cases (lookup n map)) [
        | inl unknown ↦ rw (steps-unknown n order unknown) (
            IsSorted-IsOrdered (n ∷ seen) order ids keyed sorted (
              λ x h. elim (∈-cases x n seen h) [
                | inl same ↦ inr (subst (λ k. lookup k map ≡ none) same unknown)
                | inr old ↦ there x old
              ],
              λ x h. fresh x (ground (arith, h)),
            ))
        | inr (s, known) ↦
            let id : s.id ≡ n = keyed n s known in
            rw (steps-known n order s known) (
              subst (λ k. lookup k map ≡ some s) (sym id) known,
              subst (λ k. k ∈ˢ ids ≡ false) (sym id) (fresh n new),
              All-map (λ d. d ∈ˢ seen ≡ true) (λ d. (d ∈ˢ ids ≡ true) ⊎ (lookup d map ≡ none)) there
                  s.depends_on (subst (All (λ d. d ∈ˢ seen ≡ true)) (deps-known n s known) all),
              subst (λ k. IsOrdered (k ∷ ids) (steps_of_order map order)) (sym id)
                  (IsSorted-IsOrdered (n ∷ seen) order (n ∷ ids) keyed sorted (
                    λ x h. elim (∈-cases x n seen h) [
                      | inl same ↦ inl (ground (arith, eq_iff n x, same))
                      | inr old ↦ elim (there x old) [
                        | inl m ↦ inl (ground (arith, m))
                        | inr unknown ↦ inr unknown
                      ]
                    ],
                    λ x h. ground (arith, h, fresh x),
                  )),
            )
      ]

  -- Every node of the order that the map knows is the id of a step that is returned.
  pub steps-member :
      (order : List String) (x : String) (s : Step)
      → IsKeyed
      → lookup x map ≡ some s
      → x ∈ˢ order ≡ true
      → x ∈ˢ ids_of (steps_of_order map order) ≡ true
  steps-member [] x s keyed known h = absurd (cc)
  steps-member (n ∷ order) x s keyed known h = elim (Option-cases (lookup n map)) [
    | inl unknown ↦ rw (steps-unknown n order unknown) (elim (∈-cases x n order h) [
      | inl same ↦ absurd (cc (unknown, known, same))
      | inr later ↦ steps-member order x s keyed known later
    ])
    | inr (t, there) ↦ rw (steps-known n order t there) (elim (∈-cases x n order h) [
      | inl same ↦ rw (keyed n t there) (ground (arith, eq_iff n x, same))
      | inr later ↦ ground (arith, steps-member order x s keyed known later)
    ])
  ]

-- The map knows the id of every step, under a step with that id.
pub add_steps-keyed :
    (steps : List Step) (map : Dict Step)
    → ((k : String) (s : Step) → lookup k map ≡ some s → s.id ≡ k)
    → (k : String) (s : Step) → lookup k (add_steps steps map) ≡ some s
    → s.id ≡ k
unfolding add_steps
add_steps-keyed [] map keyed = keyed
add_steps-keyed (t ∷ steps) map keyed = add_steps-keyed steps (insert t.id t map) (λ k s h.
    elim (Bool-cases (t.id =ˢ k)) [
      | inl same ↦
          let e : some t ≡ some s = ground (arith, lookup-insert t.id k t map, same, h) in
          ground (arith, e, eq_iff t.id k, same)
      | inr other ↦ keyed k s (ground (arith, lookup-insert t.id k t map, other, h))
    ])

-- What the map knows it goes on to know.
pub add_steps-known :
    (steps : List Step) (map : Dict Step) (k : String)
    → lookup k map ≢ none
    → lookup k (add_steps steps map) ≢ none
unfolding add_steps
add_steps-known [] map k h = h
add_steps-known (t ∷ steps) map k h =
    add_steps-known steps (insert t.id t map) k
      (λ q. absurd (ground (arith, lookup-insert t.id k t map, q, h)))

pub add_steps-All :
    (steps : List Step) (map : Dict Step)
    → All (λ (s : Step). lookup s.id (add_steps steps map) ≢ none) steps
unfolding add_steps
add_steps-All [] map = tt
add_steps-All (t ∷ steps) map = (
  add_steps-known steps (insert t.id t map) t.id
      (λ q. absurd (ground (arith, lookup-insert t.id t.id t map, q, eq_iff t.id t.id))),
  add_steps-All steps (insert t.id t map),
)
