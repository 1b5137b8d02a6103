-- ===== src/Executor/Composite/Turns.antt =====
-- How one step of a composite turns out.
use homepilot_core_public.Base.{
  String, ◌<>◌, ◌≡◌, refl, ap, ◌∙◌, ◌≢◌, inl, inr, true, false, Option, none, some, List, [], ◌∷◌,
  ◌=ˢ◌, arith, Bool-cases, eq_iff, subst,
}
use homepilot_core_public.Artifacts.Model.{ArtifactStatus, applied, ◌=ᵗ◌, eq_of_same}
use homepilot_core_public.Artifacts.Spec.{Step}
use homepilot_core_public.Executor.Composite.{
  Applied, success, failure, raised, Orchestrator, Report, succeeds, Progress, note, Turn, go_on,
  give_up, fail_step, miss_step, after_apply, try_step, run_step,
}

module _ {S : Type 0} (executor : Orchestrator S) where
  -- A step is through: its sub-artifact was applied before, or is applied now, or is missing and the
  -- step does not halt on an error.
  pub data Passes (step : Step) (w : S) : S → Type 0 where
    was_applied : executor.status w step.artifact ≡ some applied → Passes step w w
    is_applied :
        (s : ArtifactStatus)
        → executor.status w step.artifact ≡ some s
        → s ≢ applied
        → (executor.apply step.artifact w).0 ≡ success
        → Passes step w (executor.apply step.artifact w).1
    is_missing : executor.status w step.artifact ≡ none → step.on_error ≢ "halt" → Passes step w w

  -- All steps are through, one after the other, and each of them names an artifact.
  pub data Ran : List Step → S → S → Type 0 where
    ran_none : (w : S) → Ran [] w w
    ran_step :
        (step : Step) (steps : List Step) (u v w : S)
        → step.artifact ≢ ""
        → Passes step u v
        → Ran steps v w
        → Ran (step ∷ steps) u w

  -- How one step turns out.
  pub data Turned (step : Step) (p : Progress) (w : S) (t : Turn S) : Type 0 where
    passes :
        (p' : Progress) (v : S)
        → t ≡ go_on p' v
        → p'.failed ≡ p.failed
        → step.artifact ≢ ""
        → Passes step w v
        → Turned step p w t
    spoils : (p' : Progress) (v : S) → t ≡ go_on p' v → p'.failed ≡ true → Turned step p w t
    stops : (r : Report) (v : S) → t ≡ give_up r v → succeeds r ≡ false → Turned step p w t

  fail_step-Turned :
      (step : Step) (reason : String) (p q : Progress) (w v : S)
      → Turned step p w (fail_step step reason q v)
  fail_step-Turned step reason p q w v = elim (Bool-cases (step.on_error =ˢ "halt")) [
    | inl halt ↦
        stops (record { execution_log = q.log; failure_reason = some reason }) v (rw halt refl) refl
    | inr other ↦ spoils (record q { failed = true }) v (rw other refl) refl
  ]

  after_apply-Turned :
      (step : Step) (p q : Progress) (w : S) (s : ArtifactStatus) (a : Applied) (v : S)
      → step.artifact ≢ ""
      → q.failed ≡ p.failed
      → executor.status w step.artifact ≡ some s
      → s ≢ applied
      → executor.apply step.artifact w ≡ (a, v)
      → Turned step p w (after_apply step q (a, v))
  after_apply-Turned step p q w s success v named same there fresh e =
      passes (note ("[" <> step.id <> "] OK") q) v refl same named
        (subst (Passes step w) (ap (λ r. r.1) e) (is_applied s there fresh (ap (λ r. r.0) e)))
  after_apply-Turned step p q w s (failure reason) v named same there fresh e =
      fail_step-Turned step _ p (note ("[" <> step.id <> "] FAILED: " <> reason) q) w v
  after_apply-Turned step p q w s (raised x) v named same there fresh e =
      fail_step-Turned step x p (note ("[" <> step.id <> "] ERROR: " <> x) q) w v

  miss_step-Turned :
      (step : Step) (p q : Progress) (w : S)
      → step.artifact ≢ ""
      → q.failed ≡ p.failed
      → executor.status w step.artifact ≡ none
      → Turned step p w (miss_step step q w)
  miss_step-Turned step p q w named same there = elim (Bool-cases (step.on_error =ˢ "halt")) [
    | inl halt ↦
        stops
          (record {
            execution_log = q.log;
            failure_reason = some ("sub-artifact " <> step.artifact <> " not found");
          })
          w (rw halt refl) refl
    | inr other ↦
        passes q w (rw other refl) same named
          (is_missing there (λ h. ground (arith, (eq_iff step.on_error "halt").1 h)))
  ]

  try_step-Turned :
      (step : Step) (p q : Progress) (w : S) (o : Option ArtifactStatus)
      → step.artifact ≢ ""
      → q.failed ≡ p.failed
      → executor.status w step.artifact ≡ o
      → Turned step p w (try_step executor step q w o)
  try_step-Turned step p q w none named same there =
      miss_step-Turned step p
        (note ("[" <> step.id <> "] sub-artifact " <> step.artifact <> " not found") q) w named same
        there
  try_step-Turned step p q w (some s) named same there = elim (Bool-cases (s =ᵗ applied)) [
    | inl before ↦
        passes (note ("[" <> step.id <> "] already applied, skipping") q) w (rw before refl) same
          named (was_applied (there ∙ ap some (eq_of_same s applied before)))
    | inr fresh ↦ rw fresh (
        after_apply-Turned step p q w s (executor.apply step.artifact w).0
          (executor.apply step.artifact w).1 named same there (λ h. ground (arith, h)) refl)
  ]

  pub run_step-Turned :
      (step : Step) (p : Progress) (w : S) → Turned step p w (run_step executor step p w)
  unfolding run_step
  run_step-Turned step p w = elim (Bool-cases (step.artifact =ˢ "")) [
    | inl empty ↦
        spoils
          (record (note ("[" <> step.id <> "] names no artifact, so nothing was run") p) {
            failed = true;
          })
          w (rw empty refl) refl
    | inr named ↦ rw named (
        try_step-Turned step p
          (note ("[" <> step.id <> "] applying sub-artifact " <> step.artifact) p) w
          (executor.status w step.artifact) (λ h. ground (arith, (eq_iff step.artifact "").1 h))
          refl refl)
  ]
