-- ===== src/Artifacts/Cascade/Sound.antt =====
-- What `_composite_cascade` returns: it never runs out of fuel, every id that it returns may be
-- approved, and each composite among them has all its steps visited.
use homepilot_core_public.Base.{
  ℕ, zero, suc, ◌<◌, ◌≤◌, String, ◌≡◌, refl, ◌≢◌, ◌⊎◌, inl, inr, true, false, ◌||◌, List, [], ◌∷◌,
  ◌++◌, arith, ◌=ˢ◌, ◌∈ˢ◌, All, All-map, Bool-cases, eq_iff, subst, ∈-cases, ∈-head, ∈-append,
  ∈-append_left, ∈-append_right,
}
use homepilot_core_public.Base.Dict.{Dict}
use homepilot_core_public.Base.Visited.{
  IsWithin, IsWithin-cons, remaining, remaining-lt, remaining_mono, remaining-le-length,
}
use homepilot_core_public.Artifacts.Model.{
  approved, proposed, is_composite, ◌=ᵗ◌, out_of_fuel, eq_of_same, value_error, Result, ok, err,
  ◌>>=◌,
}
use homepilot_core_public.Artifacts.Spec.{Step, extract_composite_steps, extract-raises}
use homepilot_core_public.Artifacts.World.{Doc, Env, read_file}
use homepilot_core_public.Artifacts.World.Reads.{known}
use homepilot_core_public.Artifacts.Cascade.{
  hash_matches, Found, cascade_sub, cascade_step, cascade_steps, composite_cascade, cascade_fuel,
  readable, add_sub, after_read,
}

-- A result that satisfies `P`, or an error other than a lack of fuel.
abbrev pub Ensures : {A : Type 0} → (A → Type 0) → Result A → Type 0
Ensures P (ok a) = P a
Ensures P (err e) = e ≢ out_of_fuel

Ensures-map :
    {A : Type 0} (P Q : A → Type 0)
    → ((a : A) → P a → Q a)
    → (r : Result A) → Ensures P r
    → Ensures Q r
Ensures-map P Q h (ok a) p = h a p
Ensures-map P Q h (err e) p = p

Ensures-bind :
    {A B : Type 0} (P : A → Type 0) (Q : B → Type 0) (m : Result A) (f : A → Result B)
    → Ensures P m
    → ((a : A) → P a → Ensures Q (f a))
    → Ensures Q (m >>= f)
Ensures-bind P Q (ok a) f p h = h a p
Ensures-bind P Q (err e) f p h = p

-- What is read as steps is what the body holds.
readable-Ensures :
    (id : String) (r : Result (List Step))
    → r ≢ err out_of_fuel
    → Ensures (λ steps. r ≡ ok steps) (readable id r)
readable-Ensures id (ok steps) h = refl
readable-Ensures id (err value_error) h = λ q. cc
readable-Ensures id (err e) h = λ q. h (cc)

module _ (env : Env) (files : Dict Doc) where
  -- The artifact is `proposed` and its body is the one that was proposed.
  pub record Approvable (x : String) : Type 0 where
    pub doc : Doc
    pub reads : read_file files x ≡ ok doc
    pub is_proposed : doc.fm.status ≡ proposed
    pub intact : hash_matches env doc ≡ true

  abbrev pub IsApproved : String → Type 0
  IsApproved x = (d : Doc) × (read_file files x ≡ ok d) × (d.fm.status ≡ approved)

  abbrev HasStep : List String → Step → Type 0
  HasStep v s = (s.artifact =ˢ "" || s.artifact ∈ˢ v) ≡ true

  -- Every step of the body names nothing, or an artifact of `v`.
  abbrev pub StepsIn : List String → Doc → Type 0
  StepsIn v d =
      (steps : List Step)
      → extract_composite_steps env.safe_load d.body ≡ ok steps
      → All (λ s. (s.artifact =ˢ "" || s.artifact ∈ˢ v) ≡ true) steps

  abbrev pub IsClosed : List String → String → Type 0
  IsClosed v x = (d : Doc) → read_file files x ≡ ok d → is_composite d.fm.kind ≡ true → StepsIn v d

  -- What a call that began with `v` visited has found.
  pub record IsSound (v : List String) (f : Found) : Type 0 where
    pub grows : IsWithin v f.1
    pub fit : (x : String) → x ∈ˢ f.0 ≡ true → Approvable x
    pub covered :
        (x : String) → x ∈ˢ f.1 ≡ true → (x ∈ˢ v ≡ true) ⊎ (IsApproved x ⊎ (x ∈ˢ f.0 ≡ true))
    pub closed : (x : String) → x ∈ˢ f.0 ≡ true → IsClosed f.1 x

  StepsIn-mono : (v w : List String) (d : Doc) → IsWithin v w → StepsIn v d → StepsIn w d
  StepsIn-mono v w d h s steps e =
      All-map (λ (t : Step). (t.artifact =ˢ "" || t.artifact ∈ˢ v) ≡ true)
        (λ t. (t.artifact =ˢ "" || t.artifact ∈ˢ w) ≡ true) (λ t p. ground (arith, h t.artifact))
        steps (s steps e)

  IsSound-nothing : (v : List String) → IsSound v ([], v)
  IsSound-nothing v = record {
    grows = λ x h. h;
    fit = λ x h. cc;
    covered = λ x h. inl h;
    closed = λ x h. cc;
  }

  -- One call after the other.
  IsSound-append :
      (v : List String) (f g : Found) → IsSound v f → IsSound f.1 g → IsSound v (f.0 ++ g.0, g.1)
  IsSound-append v f g a b = record {
    grows = λ x h. b.grows x (a.grows x h);
    fit = λ x h. elim (∈-append x f.0 g.0 h) [ inl p ↦ a.fit x p | inr p ↦ b.fit x p ];
    covered = λ x h. elim (b.covered x h) [
      | inl p ↦ elim (a.covered x p) [
        | inl q ↦ inl q
        | inr (inl q) ↦ inr (inl q)
        | inr (inr q) ↦ inr (inr (∈-append_left x f.0 g.0 q))
      ]
      | inr (inl p) ↦ inr (inl p)
      | inr (inr p) ↦ inr (inr (∈-append_right x f.0 g.0 p))
    ];
    closed = λ x h. elim (∈-append x f.0 g.0 h) [
      | inl p ↦ λ d e c. StepsIn-mono f.1 g.1 d b.grows (a.closed x p d e c)
      | inr p ↦ b.closed x p
    ];
  }

  -- A sub-artifact that is approved already is only marked as visited.
  IsSound-visit : (sub : String) (v : List String) → IsApproved sub → IsSound v ([], sub ∷ v)
  IsSound-visit sub v done = record {
    grows = λ x h. ground arith;
    fit = λ x h. cc;
    covered = λ x h. elim (∈-cases x sub v h) [ inl e ↦ inr (inl (rw (← e) done)) | inr p ↦ inl p ];
    closed = λ x h. cc;
  }

  -- A sub-artifact that may be approved, before what the call on it has found.
  IsSound-add :
      (sub : String) (v : List String) (f : Found) (d : Doc)
      → read_file files sub ≡ ok d
      → d.fm.status ≡ proposed
      → hash_matches env d ≡ true
      → IsSound (sub ∷ v) f
      → (is_composite d.fm.kind ≡ true → StepsIn f.1 d)
      → IsSound v (sub ∷ f.0, f.1)
  IsSound-add sub v f d e p m s own = record {
    grows = λ x h. s.grows x (ground arith);
    fit = λ x h. elim (∈-cases x sub f.0 h) [
      | inl same ↦ rw (← same) (record { doc = d; reads = e; is_proposed = p; intact = m })
      | inr q ↦ s.fit x q
    ];
    covered = λ x h. elim (s.covered x h) [
      | inl q ↦ elim (∈-cases x sub v q) [
        | inl same ↦ inr (inr (ground (arith, eq_iff sub x)))
        | inr r ↦ inl r
      ]
      | inr (inl q) ↦ inr (inl q)
      | inr (inr q) ↦ inr (inr (ground arith))
    ];
    closed = λ x h. elim (∈-cases x sub f.0 h) [
      | inl same ↦ λ d' e' c.
          let eq : d ≡ d' = cc in
          subst (λ z. is_composite z.fm.kind ≡ true → StepsIn f.1 z) eq own c
      | inr q ↦ s.closed x q
    ];
  }

  -- A key that is visited twice over.
  IsSound-again :
      (sub : String) (v : List String) (f : Found) → IsSound (sub ∷ sub ∷ v) f → IsSound (sub ∷ v) f
  IsSound-again sub v f s = record {
    grows = λ x h. s.grows x (ground arith);
    fit = s.fit;
    covered = λ x h. elim (s.covered x h) [ inl q ↦ inl (ground arith) | inr q ↦ inr q ];
    closed = s.closed;
  }

  -- What a step adds: a sound result that has visited its sub-artifact.
  abbrev Added : String → List String → Found → Type 0
  Added sub v f = IsSound v f × (sub ∈ˢ f.1 ≡ true)

  Added-add :
      (sub : String) (v : List String) (f : Found) (d : Doc)
      → read_file files sub ≡ ok d
      → d.fm.status ≡ proposed
      → hash_matches env d ≡ true
      → IsSound (sub ∷ v) f
      → (is_composite d.fm.kind ≡ true → StepsIn f.1 d)
      → Added sub v (sub ∷ f.0, f.1)
  Added-add sub v f d e p m s own = (IsSound-add sub v f d e p m s own, s.grows sub (∈-head sub v))

  -- What a call on a sub-artifact promises, where `v` already holds it.
  abbrev Deeper : ℕ → (String → Doc → List String → Result Found) → Type 0
  Deeper fuel deeper =
      (sub : String) (d : Doc) (v : List String)
      → read_file files sub ≡ ok d
      → remaining v files < fuel
      → Ensures
          (λ f.
            (is_composite d.fm.kind ≡ true → IsSound (sub ∷ v) f × StepsIn f.1 d)
            × (is_composite d.fm.kind ≡ false → f ≡ ([], v)))
          (deeper sub d v)

  module _ (fuel : ℕ) (deeper : String → Doc → List String → Result Found)
      (promise : Deeper fuel deeper) where
    -- The recursive call on a sub-artifact that is about to be approved.
    add_sub-Ensures :
        (sub : String) (v : List String) (d : Doc)
        → read_file files sub ≡ ok d
        → d.fm.status ≡ proposed
        → hash_matches env d ≡ true
        → remaining (sub ∷ v) files < fuel
        → Ensures (Added sub v) (add_sub sub (deeper sub d (sub ∷ v)))
    add_sub-Ensures sub v d e p m room =
        go (deeper sub d (sub ∷ v)) (promise sub d (sub ∷ v) e room)
      where
        go :
            (r : Result Found)
            → Ensures
                (λ f.
                  (is_composite d.fm.kind ≡ true → IsSound (sub ∷ sub ∷ v) f × StepsIn f.1 d)
                  × (is_composite d.fm.kind ≡ false → f ≡ ([], sub ∷ v)))
                r
            → Ensures (Added sub v) (add_sub sub r)
        go (err x) h = h
        go (ok f) h = elim (Bool-cases (is_composite d.fm.kind)) [
          | inl c ↦ Added-add sub v f d e p m (IsSound-again sub v f (h.0 c).0) (λ _. (h.0 c).1)
          | inr c ↦ Added-add sub v f d e p m (rw (h.1 c) (IsSound-nothing (sub ∷ v))) (λ c'. cc)
        ]

    cascade_sub-Ensures :
        (sub : String) (v : List String)
        → sub ∈ˢ v ≡ false
        → remaining v files ≤ fuel
        → Ensures (Added sub v) (cascade_sub env files (deeper sub) sub (sub ∷ v))
    unfolding cascade_sub
    cascade_sub-Ensures sub v fresh room = go (read_file files sub) refl
      where
        go :
            (r : Result Doc)
            → read_file files sub ≡ r
            → Ensures (Added sub v) (after_read env sub (deeper sub) (sub ∷ v) r)
        go (err x) e = λ q. cc
        go (ok d) e = elim (Bool-cases (d.fm.status =ᵗ approved)) [
          | inl a ↦
              rw a (IsSound-visit sub v (d, e, eq_of_same d.fm.status approved a), ∈-head sub v)
          | inr na ↦ elim (Bool-cases (d.fm.status =ᵗ proposed)) [
            | inl p ↦ elim (Bool-cases (hash_matches env d)) [
              | inl m ↦
                  rw (na, p, m)
                    (add_sub-Ensures sub v d e (eq_of_same d.fm.status proposed p) m
                      (omega (arith, remaining-lt sub v files (known files sub e) fresh)))
              | inr nm ↦ rw (na, p, nm) (λ q. cc)
            ]
            | inr np ↦ rw (na, np) (λ q. cc)
          ]
        ]

    cascade_step-Ensures :
        (s : Step) (v : List String)
        → remaining v files ≤ fuel
        → Ensures (λ f. IsSound v f × HasStep f.1 s) (cascade_step env files deeper s.artifact v)
    unfolding cascade_step
    cascade_step-Ensures s v room = elim (Bool-cases (s.artifact =ˢ "" || s.artifact ∈ˢ v)) [
      | inl skip ↦ rw skip (IsSound-nothing v, skip)
      | inr new ↦ rw new (
          Ensures-map (Added s.artifact v) (λ f. IsSound v f × HasStep f.1 s)
            (λ f h. (h.0, ground (arith, h.1)))
            (cascade_sub env files (deeper s.artifact) s.artifact (s.artifact ∷ v))
            (cascade_sub-Ensures s.artifact v (ground arith) room))
    ]

    cascade_steps-Ensures :
        (steps : List Step) (v : List String)
        → remaining v files ≤ fuel
        → Ensures
            (λ f. IsSound v f × All (HasStep f.1) steps)
            (cascade_steps env files deeper steps v)
    unfolding cascade_steps
    cascade_steps-Ensures [] v room = (IsSound-nothing v, tt)
    cascade_steps-Ensures (s ∷ steps) v room =
        Ensures-bind (λ f. IsSound v f × HasStep f.1 s)
          (λ f. IsSound v f × All (HasStep f.1) (s ∷ steps))
          (cascade_step env files deeper s.artifact v)
          (λ first.
            cascade_steps env files deeper steps first.1 >>= λ rest. ok (first.0 ++ rest.0, rest.1))
          (cascade_step-Ensures s v room)
          λ f h.
            Ensures-bind (λ g. IsSound f.1 g × All (HasStep g.1) steps)
              (λ f. IsSound v f × All (HasStep f.1) (s ∷ steps))
              (cascade_steps env files deeper steps f.1) (λ rest. ok (f.0 ++ rest.0, rest.1))
              (cascade_steps-Ensures steps f.1
                (omega (arith, remaining_mono v f.1 files h.0.grows)))
              λ g k.
                (IsSound-append v f g h.0 k.0, (ground (arith, h.1, k.0.grows s.artifact), k.1))

  -- The promise holds at every fuel.
  composite_cascade-Deeper : (fuel : ℕ) → Deeper fuel (composite_cascade env files fuel)
  unfolding composite_cascade
  composite_cascade-Deeper zero sub d v e room = absurd (omega arith)
  composite_cascade-Deeper (suc fuel) sub d v e room = elim (Bool-cases (is_composite d.fm.kind)) [
    | inr plain ↦ rw plain (λ c. cc, λ _. refl)
    | inl c ↦ rw c (
        Ensures-map (λ f. IsSound (sub ∷ v) f × StepsIn f.1 d)
          (λ f. (true ≡ true → IsSound (sub ∷ v) f × StepsIn f.1 d) × (true ≡ false → f ≡ ([], v)))
          (λ f h. (λ _. h, λ q. cc))
          (readable sub (extract_composite_steps env.safe_load d.body) >>= λ steps.
            cascade_steps env files (composite_cascade env files fuel) steps (sub ∷ v))
          (Ensures-bind (λ steps. extract_composite_steps env.safe_load d.body ≡ ok steps)
            (λ f. IsSound (sub ∷ v) f × StepsIn f.1 d)
            (readable sub (extract_composite_steps env.safe_load d.body))
            (λ steps. cascade_steps env files (composite_cascade env files fuel) steps (sub ∷ v))
            (readable-Ensures sub (extract_composite_steps env.safe_load d.body)
              (extract-raises env.safe_load d.body))
            λ steps eq.
              Ensures-map (λ f. IsSound (sub ∷ v) f × All (HasStep f.1) steps)
                (λ f. IsSound (sub ∷ v) f × StepsIn f.1 d)
                (λ f h. (h.0, λ steps' eq'. let same : steps ≡ steps' = cc in rw same at h.1))
                (cascade_steps env files (composite_cascade env files fuel) steps (sub ∷ v))
                (cascade_steps-Ensures fuel (composite_cascade env files fuel)
                  (composite_cascade-Deeper fuel) steps (sub ∷ v)
                  (omega (arith, remaining_mono v (sub ∷ v) files (IsWithin-cons sub v))))))
  ]

  -- The call that `approve` makes.
  pub composite_cascade-Ensures :
      (id : String) (d : Doc)
      → read_file files id ≡ ok d
      → Ensures
          (λ f.
            (is_composite d.fm.kind ≡ true → IsSound (id ∷ []) f × StepsIn f.1 d)
            × (is_composite d.fm.kind ≡ false → f ≡ ([], [])))
          (composite_cascade env files (cascade_fuel env files) id d [])
  composite_cascade-Ensures id d e =
      composite_cascade-Deeper (cascade_fuel env files) id d [] e
        (omega (arith, remaining-le-length [] files))
