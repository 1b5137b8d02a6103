-- ===== src/Executor/Order/Sound.antt =====
-- What the search keeps, that it ends, and that it fails on a circle only.
use homepilot_core_public.Base.{
  ℕ, zero, suc, ◌<◌, String, ◌≡◌, refl, ap, ◌∙◌, inl, inr, true, false, ◌||◌, List, [], ◌∷◌, ◌++◌,
  arith, ◌=ˢ◌, ◌∈ˢ◌, All, All-map, Bool-cases, eq_iff, ∈-cases, ∈-head, ∈-append_right, subst,
}
use homepilot_core_public.Base.Dict.{Dict}
use mathlib.Core.List.{append_assoc}
use homepilot_core_public.Base.Visited.{IsWithin, remaining, remaining-lt}
use homepilot_core_public.Artifacts.Spec.{Step}
use homepilot_core_public.Executor.Order.{
  Visit, done, circular, out_of_fuel, ◌>>=◌, Search, discard, enter, leave, deps_of, visit_all,
  visit, start,
}
use homepilot_core_public.Executor.Order.Path.{Leads, IsChain, IsChain-Leads}

All-members : (pre xs : List String) → All (λ x. x ∈ˢ (pre ++ xs) ≡ true) xs
All-members pre [] = tt
All-members pre (x ∷ xs) = (
  ∈-append_right x pre (x ∷ xs) (∈-head x xs),
  subst (λ l. All (λ y. y ∈ˢ l ≡ true) xs) (append_assoc pre (x ∷ []) xs)
      (All-members (pre ++ x ∷ []) xs),
)

∈-snoc : (x n : String) (xs : List String) → x ∈ˢ (xs ++ n ∷ []) ≡ (n =ˢ x || x ∈ˢ xs)
∈-snoc x n [] = refl
∈-snoc x n (y ∷ xs) = ground (arith, ∈-snoc x n xs)

discard-absent : (node : String) (xs : List String) → node ∈ˢ xs ≡ false → discard node xs ≡ xs
unfolding discard
discard-absent node [] h = refl
discard-absent node (x ∷ xs) h = ground (arith, discard-absent node xs)

discard-head :
    (node : String) (xs : List String) → node ∈ˢ xs ≡ false → discard node (node ∷ xs) ≡ xs
unfolding discard
discard-head node xs h = ground (arith, discard-absent node xs h, eq_iff node node)

module _ (map : Dict Step) where
  -- Each node is new, and its dependencies come before it.
  abbrev pub IsSorted : List String → List String → Type 0
  IsSorted seen [] = Unit
  IsSorted seen (n ∷ order) =
      (n ∈ˢ seen ≡ false) × All (λ d. d ∈ˢ seen ≡ true) (deps_of map n) × IsSorted (n ∷ seen) order

  IsSorted-snoc :
      (n : String) (seen order : List String)
      → IsSorted seen order
      → (n ∈ˢ seen || n ∈ˢ order) ≡ false
      → All (λ d. (d ∈ˢ seen || d ∈ˢ order) ≡ true) (deps_of map n)
      → IsSorted seen (order ++ n ∷ [])
  IsSorted-snoc n seen [] sorted fresh all = (
    ground (arith, fresh),
    All-map (λ d. (d ∈ˢ seen || d ∈ˢ []) ≡ true) (λ d. d ∈ˢ seen ≡ true) (λ d h. ground (arith, h))
        (deps_of map n) all,
    tt,
  )
  IsSorted-snoc n seen (m ∷ order) (new, below, sorted) fresh all = (
    new,
    below,
    IsSorted-snoc n (m ∷ seen) order sorted (ground (arith, fresh)) (
        All-map (λ d. (d ∈ˢ seen || d ∈ˢ (m ∷ order)) ≡ true)
          (λ d. (d ∈ˢ (m ∷ seen) || d ∈ˢ order) ≡ true) (λ d h. ground (arith, h)) (deps_of map n)
          all),
  )

  pub record Inv (s : Search) : Type 0 where
    pub same : (x : String) → x ∈ˢ s.visited ≡ x ∈ˢ s.order
    pub sorted : IsSorted [] s.order

  -- What a call leaves of the state that it found.
  pub record Grows (s t : Search) : Type 0 where
    pub within : IsWithin s.visited t.visited
    pub still : t.visiting ≡ s.visiting
    pub outside :
        (x : String) → x ∈ˢ t.visited ≡ true → x ∈ˢ s.visiting ≡ true → x ∈ˢ s.visited ≡ true

  Grows-refl : (s : Search) → Grows s s
  Grows-refl s = record { within = λ x h. h; still = refl; outside = λ x h v. h }

  Grows-trans : (s t u : Search) → Grows s t → Grows t u → Grows s u
  Grows-trans s t u g h = record {
    within = λ x m. h.within x (g.within x m);
    still = h.still ∙ g.still;
    outside = λ x m v. g.outside x (h.outside x m (cc (g.still, v))) v;
  }

  -- The outcome of a call: a state with `P`, or a circle.
  abbrev pub Outcome : (Search → Type 0) → Visit Search → Type 0
  Outcome P (done s) = P s
  Outcome P (circular n) = Leads map n n
  Outcome P out_of_fuel = ⊥

  Outcome-map :
      (P Q : Search → Type 0)
      → ((s : Search) → P s → Q s)
      → (v : Visit Search) → Outcome P v
      → Outcome Q v
  Outcome-map P Q h (done s) p = h s p
  Outcome-map P Q h (circular n) p = p
  Outcome-map P Q h out_of_fuel p = p

  pub Outcome-bind :
      (P Q : Search → Type 0) (v : Visit Search) (f : Search → Visit Search)
      → Outcome P v
      → ((s : Search) → P s → Outcome Q (f s))
      → Outcome Q (v >>= f)
  Outcome-bind P Q (done s) f p h = h s p
  Outcome-bind P Q (circular n) f p h = p
  Outcome-bind P Q out_of_fuel f p h = p

  abbrev pub Visits : String → Search → Search → Type 0
  Visits node s t = Inv t × Grows s t × (node ∈ˢ t.visited ≡ true)

  abbrev pub VisitsAll : List String → Search → Search → Type 0
  VisitsAll nodes s t = Inv t × Grows s t × All (λ n. n ∈ˢ t.visited ≡ true) nodes

  -- What is asked of the calls of a loop, whose state has the same `visiting` all along.
  abbrev pub Calls : (String → Search → Visit Search) → List String → String → Type 0
  Calls call visiting node =
      (s : Search) → s.visiting ≡ visiting → Inv s → Outcome (Visits node s) (call node s)

  pub visit_all-Outcome :
      (call : String → Search → Visit Search) (visiting nodes : List String) (s : Search)
      → All (Calls call visiting) nodes
      → s.visiting ≡ visiting
      → Inv s
      → Outcome (VisitsAll nodes s) (visit_all map call nodes s)
  unfolding visit_all
  visit_all-Outcome call visiting [] s calls e inv = (inv, Grows-refl s, tt)
  visit_all-Outcome call visiting (n ∷ nodes) s (first, calls) e inv =
      Outcome-bind (Visits n s) (VisitsAll (n ∷ nodes) s) (call n s) (visit_all map call nodes)
        (first s e inv)
        (λ t (inv', grows, there).
          Outcome-map (VisitsAll nodes t) (VisitsAll (n ∷ nodes) s)
            (λ u (inv'', more, all).
              (inv'', Grows-trans s t u grows more, (more.within n there, all)))
            (visit_all map call nodes t)
            (visit_all-Outcome call visiting nodes t calls (grows.still ∙ e) inv'))

  -- Leaving a node whose dependencies have been visited.
  leave-Visits :
      (node : String) (s t : Search)
      → node ∈ˢ s.visited ≡ false
      → node ∈ˢ s.visiting ≡ false
      → VisitsAll (deps_of map node) (enter node s) t
      → Visits node s (leave node t)
  leave-Visits node s t new out (inv, grows, all) =
      let unseen : node ∈ˢ t.visited ≡ false = elim (Bool-cases (node ∈ˢ t.visited)) [
        | inr fresh ↦ fresh
        | inl seen ↦ absurd (ground (arith, grows.outside node seen (∈-head node s.visiting), new))
      ] in
      (
        record {
          same = λ x. ground (arith, inv.same x, ∈-snoc x node t.order);
          sorted =
              IsSorted-snoc node [] t.order inv.sorted (ground (arith, inv.same node, unseen)) (
                All-map (λ d. d ∈ˢ t.visited ≡ true) (λ d. (d ∈ˢ [] || d ∈ˢ t.order) ≡ true)
                  (λ d h. ground (arith, inv.same d, h)) (deps_of map node) all);
        },
        record {
          within = λ x h. ground (arith, grows.within x h);
          still = ap (discard node) grows.still ∙ discard-head node s.visiting out;
          outside = λ x h v. elim (∈-cases x node t.visited h) [
            | inl same ↦ absurd (ground (arith, (ap (λ k. k ∈ˢ s.visiting) same), out, v))
            | inr seen ↦ grows.outside x seen (ground (arith, v))
          ];
        },
        ∈-head node t.visited,
      )

  -- A node with a dependency is in the map, so visiting it leaves less of the map.
  deeper :
      (fuel : ℕ) (node x : String) (visiting : List String)
      → remaining visiting map < suc fuel
      → node ∈ˢ visiting ≡ false
      → x ∈ˢ deps_of map node ≡ true
      → remaining (node ∷ visiting) map < fuel
  deeper fuel node x visiting lt out dep =
      omega (
        arith,
        remaining-lt node visiting map (λ unknown. absurd (ground (arith, unknown, dep))) out,
      )

  pub visit-Outcome :
      (fuel : ℕ) (node : String) (s : Search)
      → remaining s.visiting map < fuel
      → IsChain map node s.visiting
      → Inv s
      → Outcome (Visits node s) (visit map fuel node s)
  unfolding visit
  visit-Outcome zero node s lt chain inv = absurd (omega arith)
  visit-Outcome (suc fuel) node s lt chain inv = elim (Bool-cases (node ∈ˢ s.visited)) [
    | inl seen ↦ rw seen (inv, Grows-refl s, seen)
    | inr new ↦ elim (Bool-cases (node ∈ˢ s.visiting)) [
      | inl circle ↦ rw (new, circle) (IsChain-Leads map node node s.visiting chain circle)
      | inr out ↦
          let chained : (x : String)
              → x ∈ˢ deps_of map node ≡ true
              → Calls (visit map fuel) (node ∷ s.visiting) x =
            λ x dep u e inv'.
              visit-Outcome fuel x u (rw e (deeper fuel node x s.visiting lt out dep))
                (rw e (dep, chain)) inv' in
          let calls =
            All-map (λ x. x ∈ˢ deps_of map node ≡ true) (Calls (visit map fuel) (node ∷ s.visiting))
              chained (deps_of map node) (All-members [] (deps_of map node)) in
          rw (new, out)
            (Outcome-bind (VisitsAll (deps_of map node) (enter node s)) (Visits node s)
              (visit_all map (visit map fuel) (deps_of map node) (enter node s))
              (λ t. done (leave node t))
              (visit_all-Outcome (visit map fuel) (node ∷ s.visiting) (deps_of map node)
                (enter node s) calls refl (record { same = inv.same; sorted = inv.sorted }))
              (λ t after. leave-Visits node s t new out after))
    ]
  ]

  pub Inv-start : Inv start
  Inv-start = record { same = λ x. refl; sorted = tt }
