-- ===== src/Executor/Composite/Due.antt =====
-- Which sub-artifacts a rollback is to revoke.
use homepilot_core_public.Base.{
  ◌⊎◌, Option, none, some, eq_iff, String, ◌≡◌, refl, sym, ap, ◌∙◌, ◌≢◌, inl, inr, Bool, true,
  false, List, [], ◌∷◌, ◌=ˢ◌, ◌∈ˢ◌, if◌then◌else◌, arith, All, All-map, Bool-cases, subst, ∈-cases,
  ∈-head,
}
use homepilot_core_public.Artifacts.Model.{ArtifactStatus, applied, approved, ◌=ᵗ◌, eq_of_same}
use homepilot_core_public.Artifacts.Spec.{Step}
use homepilot_core_public.Executor.Composite.{Orchestrator, is_reversible, to_revert, applied_ids}

∈-if :
    (x y : String) (ys : List String) (b : Bool)
    → x ∈ˢ ys ≡ true
    → x ∈ˢ (if b then y ∷ ys else ys) ≡ true
∈-if x y ys false h = h
∈-if x y ys true h = ground (arith, h)

pub same_test : {a b : Bool} → (b ≡ true → a ≡ true) → (a ≡ true → b ≡ true) → a ≡ b
same_test {a} {b} f g = elim (Bool-cases b) [
  | inl right ↦ f right ∙ sym right
  | inr wrong ↦ elim (Bool-cases a) [ inl odd ↦ odd ∙ sym (g odd) | inr also ↦ also ∙ sym wrong ]
]

-- The step names a sub-artifact which the store calls applied or approved.
abbrev pub IsDue : {S : Type 0} → Orchestrator S → S → Step → Type 0
IsDue executor start step =
    (step.artifact ≢ "")
    × ((executor.status start step.artifact ≡ some applied)
        ⊎ (executor.status start step.artifact ≡ some approved))

module _ {S : Type 0} (executor : Orchestrator S) where
  module _ (start : S) where
    due_of :
        {o : Option ArtifactStatus} (s : ArtifactStatus)
        → o ≡ some s
        → is_reversible (some s) ≡ true
        → (o ≡ some applied) ⊎ (o ≡ some approved)
    due_of s e h = elim (Bool-cases (s =ᵗ applied)) [
      | inl same ↦ inl (e ∙ ap some (eq_of_same s applied same))
      | inr other ↦ inr (e ∙ ap some (eq_of_same s approved (ground (arith, h, other))))
    ]

    pub to_revert-IsDue :
        (step : Step) → to_revert executor start step ≡ true → IsDue executor start step
    to_revert-IsDue step h = go (executor.status start step.artifact) refl
      where
        go :
            (o : Option ArtifactStatus)
            → executor.status start step.artifact ≡ o
            → IsDue executor start step
        go none e = absurd (ground (arith, h, e))
        go (some s) e =
            (λ q. ground (arith, (eq_iff step.artifact "").1 q), due_of s e (ground (arith, h, e)))

    pub to_revert-not :
        (step : Step) → to_revert executor start step ≡ false → ¬ IsDue executor start step
    to_revert-not step h (named, inl e) =
        absurd
          (ground (arith, eq_iff step.artifact "", (λ (q : step.artifact ≡ ""). named q), h, e))
    to_revert-not step h (named, inr e) =
        absurd
          (ground (arith, eq_iff step.artifact "", (λ (q : step.artifact ≡ ""). named q), h, e))

    applied_ids-step :
        (step : Step) (steps : List Step)
        → applied_ids executor start (step ∷ steps) ≡ (
            if to_revert executor start step
            then step.artifact ∷ applied_ids executor start steps
            else applied_ids executor start steps)
    unfolding applied_ids
    applied_ids-step step steps = refl

    applied_ids-none : applied_ids executor start [] ≡ []
    unfolding applied_ids
    applied_ids-none = refl

    pub applied_ids-reversible :
        (t : Step) (steps : List Step)
        → t.artifact ∈ˢ applied_ids executor start steps ≡ true
        → to_revert executor start t ≡ true
    applied_ids-reversible t [] h =
        (let empty : t.artifact ∈ˢ [] ≡ true = rw applied_ids-none at h in absurd (cc empty))
    applied_ids-reversible t (s ∷ steps) h = elim (Bool-cases (to_revert executor start s)) [
      | inl there ↦
          elim (∈-cases t.artifact s.artifact (applied_ids executor start steps)
            (rw (applied_ids-step s steps, there) at h)) [
              | inl same ↦
                  subst
                    (λ a.
                      (if a =ˢ "" then false else is_reversible (executor.status start a)) ≡ true)
                    same there
              | inr behind ↦ applied_ids-reversible t steps behind
            ]
      | inr other ↦ applied_ids-reversible t steps (rw (applied_ids-step s steps, other) at h)
    ]

    applied_ids-more :
        (t s : Step) (steps : List Step)
        → t.artifact ∈ˢ applied_ids executor start steps ≡ true
        → t.artifact ∈ˢ applied_ids executor start (s ∷ steps) ≡ true
    applied_ids-more t s steps h = rw (applied_ids-step s steps) (
        ∈-if t.artifact s.artifact (applied_ids executor start steps) (to_revert executor start s)
          h)

    pub applied_ids-All :
        (steps : List Step)
        → All
            (λ t.
              to_revert executor start t ≡ true
              → t.artifact ∈ˢ applied_ids executor start steps ≡ true)
            steps
    applied_ids-All [] = tt
    applied_ids-All (s ∷ steps) = (
      λ h. rw (applied_ids-step s steps, h) (∈-head s.artifact (applied_ids executor start steps)),
      All-map
          (λ (t : Step).
            to_revert executor start t ≡ true
            → t.artifact ∈ˢ applied_ids executor start steps ≡ true)
          (λ t.
            to_revert executor start t ≡ true
            → t.artifact ∈ˢ applied_ids executor start (s ∷ steps) ≡ true)
          (λ t more h. applied_ids-more t s steps (more h)) steps (applied_ids-All steps),
    )
