-- ===== src/Executor/Order/Acyclic.antt =====
-- A search that returns has met no circle of dependencies.
use homepilot_core_public.Base.{
  suc, String, ◌≡◌, refl, sym, ◌∙◌, ◌≢◌, inl, inr, true, false, ◌||◌, none, List, [], ◌∷◌, arith,
  ◌=ˢ◌, ◌∈ˢ◌, length, All, Bool-cases, ∈-cases, subst,
}
use homepilot_core_public.Base.Dict.{Dict, lookup}
use homepilot_core_public.Base.Visited.{remaining-le-length}
use homepilot_core_public.Artifacts.Spec.{Step}
use homepilot_core_public.Executor.Order.{done, Search, deps_of, visit, keys, start, search}
use homepilot_core_public.Executor.Order.Path.{Leads, one, then_one}
use homepilot_core_public.Executor.Order.Sound.{
  IsSorted, Outcome, VisitsAll, Calls, visit_all-Outcome, visit-Outcome, Inv-start,
}

All-const : {A : Type 0} (P : A → Type 0) → ((x : A) → P x) → (xs : List A) → All P xs
All-const P h [] = tt
All-const P h (x ∷ xs) = (h x, All-const P h xs)

module _ (map : Dict Step) where
  pub search-Outcome : Outcome map (VisitsAll map (keys map) start) (search map)
  unfolding search
  search-Outcome =
      visit_all-Outcome map (visit map (suc (length map))) [] (keys map) start
        (All-const (Calls map (visit map (suc (length map))) [])
          (λ x s e inv.
            visit-Outcome map (suc (length map)) x s
              (rw e (omega (arith, remaining-le-length [] map))) (rw e tt) inv)
          (keys map))
        refl (Inv-start map)

  -- The nodes seen are closed under dependencies, and none of them is on a circle.
  record IsClosed (seen : List String) : Type 0 where
    closed : (x : String) → x ∈ˢ seen ≡ true → (y : String) → Leads map x y → y ∈ˢ seen ≡ true
    acyclic : (x : String) → x ∈ˢ seen ≡ true → ¬ Leads map x x

  pub members :
      (xs ys : List String)
      → All (λ d. d ∈ˢ ys ≡ true) xs
      → (y : String) → y ∈ˢ xs ≡ true
      → y ∈ˢ ys ≡ true
  members [] ys all y h = absurd (cc)
  members (x ∷ xs) ys (first, all) y h = elim (∈-cases y x xs h) [
    | inl same ↦ subst (λ k. k ∈ˢ ys ≡ true) same first
    | inr later ↦ members xs ys all y later
  ]

  below :
      (n : String) (seen : List String)
      → IsClosed seen
      → All (λ d. d ∈ˢ seen ≡ true) (deps_of map n)
      → (y : String) → Leads map n y
      → y ∈ˢ seen ≡ true
  below n seen c all y (one _ dep) = members (deps_of map n) seen all y dep
  below n seen c all y (then_one x _ path dep) =
      c.closed x (below n seen c all x path) y (one y dep)

  IsClosed-cons :
      (n : String) (seen : List String)
      → IsClosed seen
      → n ∈ˢ seen ≡ false
      → All (λ d. d ∈ˢ seen ≡ true) (deps_of map n)
      → IsClosed (n ∷ seen)
  IsClosed-cons n seen c new all = record {
    closed = λ x m y path. elim (∈-cases x n seen m) [
      | inl same ↦ ground (arith, below n seen c all y (subst (λ k. Leads map k y) (sym same) path))
      | inr old ↦ ground (arith, c.closed x old y path)
    ];
    acyclic = λ x m path. elim (∈-cases x n seen m) [
      | inl same ↦
          let seen_n = below n seen c all n (subst (λ k. Leads map k k) (sym same) path) in
          cc (seen_n, new)
      | inr old ↦ c.acyclic x old path
    ];
  }

  sorted-acyclic :
      (seen order : List String)
      → IsSorted map seen order
      → IsClosed seen
      → (x : String) → (x ∈ˢ seen || x ∈ˢ order) ≡ true
      → ¬ Leads map x x
  sorted-acyclic seen [] sorted c x m path = c.acyclic x (ground (arith, m)) path
  sorted-acyclic seen (n ∷ order) (new, all, sorted) c x m path =
      sorted-acyclic (n ∷ seen) order sorted (IsClosed-cons n seen c new all) x (ground (arith, m))
        path

  -- A step with dependencies is in the map.
  pub keys-lookup : (d : Dict Step) (x : String) → lookup x d ≢ none → x ∈ˢ keys d ≡ true
  unfolding lookup
  keys-lookup [] x h = absurd (h refl)
  keys-lookup ((k, s) ∷ d) x h = elim (Bool-cases (k =ˢ x)) [
    | inl same ↦ rw same refl
    | inr other ↦ ground (arith, keys-lookup d x (rw other at h))
  ]

  source : (x y : String) → Leads map x y → lookup x map ≢ none
  source x y (one _ dep) unknown = absurd (ground (arith, unknown, dep))
  source x y (then_one z _ path dep) unknown = source x z path unknown

  -- What the search returns.
  pub search-acyclic : (s : Search) → search map ≡ done s → (n : String) → ¬ Leads map n n
  search-acyclic s e n path =
      let (inv, grows, all) =
        subst (Outcome map (VisitsAll map (keys map) start)) e search-Outcome in
      sorted-acyclic [] s.order inv.sorted
        (record { closed = λ x m y p. absurd (cc (m)); acyclic = λ x m p. absurd (cc (m)) }) n
        (sym (inv.same n)
          ∙ members (keys map) s.visited all n (keys-lookup map n (source n n path)))
        path
