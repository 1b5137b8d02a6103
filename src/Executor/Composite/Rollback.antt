-- ===== src/Executor/Composite/Rollback.antt =====
-- What a rollback that succeeds has done.
use homepilot_core_public.Base.{
  String, ◌<>◌, ◌≡◌, refl, ap, ◌∙◌, ◌≢◌, inl, inr, true, false, List, [], ◌∷◌, ◌++◌, ◌∈ˢ◌, All,
  All-map, Bool-cases, subst,
}
use homepilot_core_public.Base.Text.{Text}
use homepilot_core_public.Artifacts.Model.{ok}
use homepilot_core_public.Artifacts.Spec.{Step, Loaded, extract_composite_steps}
use homepilot_core_public.Executor.Order.{Visit, done, circular, out_of_fuel, topological_sort}
use homepilot_core_public.Executor.Composite.{
  Revoked, outcome, raised, Orchestrator, Report, succeeds, after_revoke, rollback_report, reversed,
  to_revert, applied_ids, revert_steps, run_rollback, execute_ordered, execute_steps, execute,
}
use homepilot_core_public.Executor.Composite.Runs.{execute_read}
use homepilot_core_public.Executor.Composite.Due.{
  IsDue, same_test, to_revert-IsDue, to_revert-not, applied_ids-reversible, applied_ids-All,
}

not_empty : (left : List String) (x : String) → left ++ x ∷ [] ≢ []
not_empty [] x h = absurd (cc h)
not_empty (y ∷ left) x h = absurd (cc h)

module _ {S : Type 0} (executor : Orchestrator S) where
  module _ (start : S) where
    -- The steps are taken one after the other: where the store said at the start that the
    -- sub-artifact is applied or approved, it is revoked now and the answer is that it was rolled
    -- back, and any other step is passed over.
    pub data Undone : List Step → S → S → Type 0 where
      undone_none : (w : S) → Undone [] w w
      undone_step :
          (step : Step) (steps : List Step) (reason : String) (u v w : S)
          → IsDue executor start step
          → executor.revoke step.artifact u ≡ (outcome true reason, v)
          → Undone steps v w
          → Undone (step ∷ steps) u w
      passed_over :
          (step : Step) (steps : List Step) (u w : S)
          → ¬ IsDue executor start step
          → Undone steps u w
          → Undone (step ∷ steps) u w

    revert_steps-none :
        (ids : List String) (acc : List String × List String) (w : S)
        → revert_steps executor ids [] acc w ≡ (acc, w)
    unfolding revert_steps
    revert_steps-none ids acc w = refl

    revert_steps-passed :
        (ids : List String) (step : Step) (steps : List Step) (acc : List String × List String)
        (w : S)
        → step.artifact ∈ˢ ids ≡ false
        → revert_steps executor ids (step ∷ steps) acc w ≡ revert_steps executor ids steps acc w
    unfolding revert_steps
    revert_steps-passed ids step steps acc w h = rw h refl

    abbrev turn : Step → List String × List String → Revoked × S → (List String × List String) × S
    turn step (log, left) answer =
        after_revoke step
          (log ++ ("[" <> step.id <> "] rollback sub-artifact " <> step.artifact) ∷ [], left) answer

    revert_steps-turn :
        (ids : List String) (step : Step) (steps : List Step) (acc : List String × List String)
        (w : S)
        → step.artifact ∈ˢ ids ≡ true
        → revert_steps executor ids (step ∷ steps) acc w
          ≡ revert_steps executor ids steps
              (turn step acc (executor.revoke step.artifact w)).0
              (turn step acc (executor.revoke step.artifact w)).1
    unfolding revert_steps
    revert_steps-turn ids step steps acc w h = rw h refl

    -- The answers that leave nothing in the list of what was not reversed.
    turn-clean :
        (step : Step) (acc : List String × List String) (answer : Revoked × S)
        → (turn step acc answer).0.1 ≡ []
        → (acc.1 ≡ [])
          × (reason : String) × (answer ≡ (outcome true reason, (turn step acc answer).1))
    turn-clean step acc (outcome true reason, v) h = (h, reason, refl)
    turn-clean step acc (outcome false reason, v) h = absurd (not_empty acc.1 step.artifact h)
    turn-clean step acc (raised e, v) h = absurd (not_empty acc.1 step.artifact h)

    revert_steps-Undone :
        (ids : List String) (steps : List Step) (acc : List String × List String) (w : S)
        → All (λ t. t.artifact ∈ˢ ids ≡ to_revert executor start t) steps
        → (revert_steps executor ids steps acc w).0.1 ≡ []
        → (acc.1 ≡ []) × Undone steps w (revert_steps executor ids steps acc w).1
    revert_steps-Undone ids [] acc w agree h =
        let same = revert_steps-none ids acc w in (rw same at h, rw same (undone_none w))
    revert_steps-Undone ids (step ∷ steps) acc w (here, agree) h =
        elim (Bool-cases (to_revert executor start step)) [
          | inl due ↦
              (let answer = executor.revoke step.artifact w in
                let (more, v) = turn step acc answer in
                let same = revert_steps-turn ids step steps acc w (here ∙ due) in
                let (clean, rest) = revert_steps-Undone ids steps more v agree (rw same at h) in
                let (empty, reason, won) = turn-clean step acc answer clean in
                (
                  empty,
                  rw same (
                      undone_step step steps reason w v _ (to_revert-IsDue executor start step due)
                        won rest),
                ))
          | inr other ↦
              (let same = revert_steps-passed ids step steps acc w (here ∙ other) in
                let (empty, rest) = revert_steps-Undone ids steps acc w agree (rw same at h) in
                (
                  empty,
                  rw same
                      (passed_over step steps w _ (to_revert-not executor start step other) rest),
                ))
        ]

    applied_ids-agree :
        (steps : List Step)
        → All
            (λ t. t.artifact ∈ˢ applied_ids executor start steps ≡ to_revert executor start t)
            steps
    applied_ids-agree steps =
        All-map
          (λ (t : Step).
            to_revert executor start t ≡ true
            → t.artifact ∈ˢ applied_ids executor start steps ≡ true)
          (λ t. t.artifact ∈ˢ applied_ids executor start steps ≡ to_revert executor start t)
          (λ t there. same_test there (applied_ids-reversible executor start t steps)) steps
          (applied_ids-All executor start steps)

  rollback_report-clean :
      (r : (List String × List String) × S)
      → succeeds (rollback_report r).0 ≡ true
      → (r.0.1 ≡ []) × ((rollback_report r).1 ≡ r.1)
  rollback_report-clean ((log, []), w) h = (refl, refl)
  rollback_report-clean ((log, x ∷ left), w) h = absurd (cc h)

  run_rollback-Undone :
      (ordered : List Step) (w : S)
      → succeeds (run_rollback executor ordered w).0 ≡ true
      → Undone w (reversed ordered) w (run_rollback executor ordered w).1
  unfolding run_rollback
  run_rollback-Undone ordered w h =
      let backwards = reversed ordered in
      let ids = applied_ids executor w backwards in
      let (clean, same) =
        rollback_report-clean (revert_steps executor ids backwards ([], []) w) h in
      let (_, all) =
        revert_steps-Undone w ids backwards ([], []) w (applied_ids-agree w backwards) clean in
      rw same all

  execute_ordered-Undone :
      (v : Visit (List Step)) (w : S)
      → succeeds (execute_ordered executor true v w).0 ≡ true
      → (ordered : List Step) × (v ≡ done ordered)
        × Undone w (reversed ordered) w (execute_ordered executor true v w).1
  execute_ordered-Undone (done ordered) w h = (ordered, refl, run_rollback-Undone ordered w h)
  execute_ordered-Undone (circular n) w h = absurd (cc h)
  execute_ordered-Undone out_of_fuel w h = absurd (cc h)

  execute_steps-Undone :
      (steps : List Step) (w : S)
      → succeeds (execute_steps executor true steps w).0 ≡ true
      → (ordered : List Step) × (topological_sort steps ≡ done ordered)
        × Undone w (reversed ordered) w (execute_steps executor true steps w).1
  execute_steps-Undone [] w h = absurd (cc h)
  execute_steps-Undone (s ∷ steps) w h = execute_ordered-Undone (topological_sort (s ∷ steps)) w h

  -- A rollback of a composite that is reported as a success has gone through the steps in the
  -- reverse of the sorted order, and has revoked each one whose sub-artifact the store called
  -- applied or approved before the rollback, with the answer that it was rolled back.
  pub execute-Undone :
      (safe_load : Text → Loaded) (body : Text) (w : S) (steps : List Step) (r : Report)
      → extract_composite_steps safe_load body ≡ ok steps
      → (execute executor safe_load true body w).0 ≡ ok r
      → succeeds r ≡ true
      → (ordered : List Step) × (topological_sort steps ≡ done ordered)
        × Undone w (reversed ordered) w (execute executor safe_load true body w).1
  execute-Undone safe_load body w steps r e h won =
      let same = execute_read executor safe_load true body steps w e in
      let kept : r ≡ (execute_steps executor true steps w).0 = cc (h, ap (λ x. x.0) same) in
      rw same (execute_steps-Undone steps w (subst (λ x. succeeds x ≡ true) kept won))
