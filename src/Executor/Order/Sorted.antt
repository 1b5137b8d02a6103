-- ===== src/Executor/Order/Sorted.antt =====
-- `_topological_sort` returns every step behind its dependencies, or names a step of a circle.
use homepilot_core_public.Base.{
  String, ◌≡◌, refl, sym, ◌∙◌, ◌≢◌, ◌⊎◌, inl, inr, true, none, List, [], arith, ◌∈ˢ◌, All, All-map,
  Option-cases, subst,
}
use homepilot_core_public.Base.Dict.{lookup, lookup-empty}
use homepilot_core_public.Artifacts.Spec.{Step}
use homepilot_core_public.Executor.Order.{
  Visit, done, circular, out_of_fuel, Search, step_map, keys, start, steps_of_order, search,
  topological_sort,
}
use homepilot_core_public.Executor.Order.Path.{Leads}
use homepilot_core_public.Executor.Order.Sound.{Outcome, VisitsAll}
use homepilot_core_public.Executor.Order.Acyclic.{
  search-Outcome, search-acyclic, members, keys-lookup,
}
use homepilot_core_public.Executor.Order.Ordered.{
  IsOrdered, ids_of, IsKeyed, IsSorted-IsOrdered, steps-member, add_steps-keyed, add_steps-All,
}

module _ (steps : List Step) where
  step_map-keyed : IsKeyed (step_map steps)
  step_map-keyed = add_steps-keyed steps [] (λ k s h. absurd (cc (lookup-empty {V = Step} k, h)))

  -- The sort either returns a list, and then no step leads to itself by dependencies, or it names a
  -- step that does; it never runs out of fuel.
  pub topological_sort_decides :
      ((out : List Step) × (topological_sort steps ≡ done out)
        × ((n : String) → ¬ Leads (step_map steps) n n))
      ⊎ ((n : String) × (topological_sort steps ≡ circular n) × Leads (step_map steps) n n)
  unfolding topological_sort
  topological_sort_decides = go (search (step_map steps)) refl
    where
      go :
          (v : Visit Search)
          → search (step_map steps) ≡ v
          → ((out : List Step) × (topological_sort steps ≡ done out)
              × ((n : String) → ¬ Leads (step_map steps) n n))
            ⊎ ((n : String) × (topological_sort steps ≡ circular n) × Leads (step_map steps) n n)
      go (done s) e =
          inl (
            steps_of_order (step_map steps) s.order,
            rw e refl,
            search-acyclic (step_map steps) s e,
          )
      go (circular n) e = inr (
        n,
        rw e refl,
        subst (Outcome (step_map steps) (VisitsAll (step_map steps) (keys (step_map steps)) start))
            e (search-Outcome (step_map steps)),
      )
      go out_of_fuel e = absurd (
          subst
            (Outcome (step_map steps) (VisitsAll (step_map steps) (keys (step_map steps)) start)) e
            (search-Outcome (step_map steps)))

  -- Where the list came from.
  sorted_from :
      (out : List Step)
      → topological_sort steps ≡ done out
      → (s : Search) × (search (step_map steps) ≡ done s)
        × (out ≡ steps_of_order (step_map steps) s.order)
  unfolding topological_sort
  sorted_from out h = go (search (step_map steps)) refl
    where
      go :
          (v : Visit Search)
          → search (step_map steps) ≡ v
          → (s : Search) × (search (step_map steps) ≡ done s)
            × (out ≡ steps_of_order (step_map steps) s.order)
      go (done s) e = (s, e, ground (arith, h, e))
      go (circular n) e = absurd (ground (arith, h, e))
      go out_of_fuel e = absurd (ground (arith, h, e))

  -- The list that is returned holds each id once, and each step behind the steps that it depends on; a
  -- dependency that names no step is passed over.
  pub topological_sort-IsOrdered :
      (out : List Step) → topological_sort steps ≡ done out → IsOrdered (step_map steps) [] out
  topological_sort-IsOrdered out h =
      let (s, e, from) = sorted_from out h in
      let map = step_map steps in
      let (inv, _, _) =
        subst (Outcome map (VisitsAll map (keys map) start)) e (search-Outcome map) in
      subst (IsOrdered map []) (sym from) (
        IsSorted-IsOrdered map [] s.order [] step_map-keyed inv.sorted
          ((λ x m. absurd (cc m)), (λ x m. refl)))

  -- Every step of the composite has its id in the list that is returned.
  pub topological_sort_complete :
      (out : List Step)
      → topological_sort steps ≡ done out
      → All (λ s. s.id ∈ˢ ids_of out ≡ true) steps
  topological_sort_complete out h =
      let (s, e, from) = sorted_from out h in
      let map = step_map steps in
      let (inv, _, all) =
        subst (Outcome map (VisitsAll map (keys map) start)) e (search-Outcome map) in
      All-map (λ (t : Step). lookup t.id map ≢ none) (λ t. t.id ∈ˢ ids_of out ≡ true)
        (λ t known.
          subst (λ l. t.id ∈ˢ ids_of l ≡ true) (sym from)
            (elim (Option-cases (lookup t.id map)) [
              | inl unknown ↦ absurd (known unknown)
              | inr (u, there) ↦ steps-member map s.order t.id u step_map-keyed there (
                  sym (inv.same t.id)
                  ∙ members map (keys map) s.visited all t.id (keys-lookup map map t.id known))
            ]))
        steps (add_steps-All steps [])
