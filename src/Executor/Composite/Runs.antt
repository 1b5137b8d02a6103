-- ===== src/Executor/Composite/Runs.antt =====
-- What a run that succeeds has done, step by step, and that such a run succeeds.
use homepilot_core_public.Base.{
  ◌<>◌, ◌≡◌, refl, sym, ap, ◌∙◌, ◌≢◌, inl, inr, Bool, true, false, Option, none, some, List, [],
  ◌∷◌, ◌=ˢ◌, ◌∈ˢ◌, arith, All, Bool-cases, eq_iff, subst,
}
use homepilot_core_public.Base.Text.{Text}
use homepilot_core_public.Artifacts.Model.{ArtifactStatus, applied, ◌=ᵗ◌, eq_of_same, ok}
use homepilot_core_public.Artifacts.Spec.{Step, Loaded, extract_composite_steps}
use homepilot_core_public.Executor.Order.{
  step_map, Visit, done, circular, out_of_fuel, topological_sort,
}
use homepilot_core_public.Executor.Order.Sorted.{
  topological_sort-IsOrdered, topological_sort_complete,
}
use homepilot_core_public.Executor.Order.Ordered.{IsOrdered, ids_of}
use homepilot_core_public.Executor.Composite.{
  Applied, success, failure, raised, Orchestrator, Report, succeeds, Progress, note, Turn, go_on,
  after_apply, after_turn, try_step, run_step, report, run_steps, execute_ordered, execute_steps,
  execute,
}
use homepilot_core_public.Executor.Composite.Turns.{
  Passes, was_applied, is_applied, is_missing, Ran, ran_none, ran_step, passes, spoils, stops,
  run_step-Turned,
}

clean_report : (p : Progress) → succeeds (report p) ≡ true → p.failed ≡ false
clean_report p h = ground (arith, h)

module _ {S : Type 0} (executor : Orchestrator S) where
  run_steps-turn :
      (step : Step) (steps : List Step) (p : Progress) (w : S) {t : Turn S}
      → run_step executor step p w ≡ t
      → run_steps executor (step ∷ steps) p w ≡ after_turn (run_steps executor steps) t
  unfolding run_steps
  run_steps-turn step steps p w e = ap (after_turn (run_steps executor steps)) e

  run_steps-none : (p : Progress) (w : S) → run_steps executor [] p w ≡ (report p, w)
  unfolding run_steps
  run_steps-none p w = refl

  -- A run that is reported as a success has not failed before, and puts all its steps through.
  run_steps-Ran :
      (steps : List Step) (p : Progress) (w : S)
      → succeeds (run_steps executor steps p w).0 ≡ true
      → (p.failed ≡ false) × Ran executor steps w (run_steps executor steps p w).1
  run_steps-Ran [] p w h =
      (clean_report p (rw (run_steps-none p w) at h), rw (run_steps-none p w) (ran_none w))
  run_steps-Ran (step ∷ steps) p w h = elim (run_step-Turned executor step p w) [
    | passes p' v e same named through ↦
        (let turn = run_steps-turn step steps p w e in
          let (clean, rest) = run_steps-Ran steps p' v (rw turn at h) in
          (
            sym same ∙ clean,
            rw turn (ran_step step steps w v (run_steps executor steps p' v).1 named through rest),
          ))
    | spoils p' v e failed ↦
        (let (clean, _) = run_steps-Ran steps p' v (rw (run_steps-turn step steps p w e) at h) in
          absurd (cc (failed, clean)))
    | stops r v e failed ↦
        (let stopped : succeeds r ≡ true = rw (run_steps-turn step steps p w e) at h in
          absurd (cc (failed, stopped)))
  ]

  run_step-named :
      (step : Step) (p : Progress) (w : S)
      → step.artifact ≢ ""
      → run_step executor step p w
        ≡ try_step executor step
            (note ("[" <> step.id <> "] applying sub-artifact " <> step.artifact) p)
            w
            (executor.status w step.artifact)
  unfolding run_step
  run_step-named step p w named =
      let given : (step.artifact =ˢ "") ≡ false =
        ground (arith, eq_iff step.artifact "", (λ (q : step.artifact ≡ ""). named q)) in
      rw given refl

  after_apply-success :
      (step : Step) (p : Progress) (r : Applied × S)
      → r.0 ≡ success
      → after_apply step p r ≡ go_on (note ("[" <> step.id <> "] OK") p) r.1
  after_apply-success step p (success, v) h = refl
  after_apply-success step p (failure reason, v) h = absurd (cc h)
  after_apply-success step p (raised e, v) h = absurd (cc h)

  -- The turn that a step takes when it is through.
  Passes-turn :
      (step : Step) (p : Progress) (w v : S)
      → step.artifact ≢ ""
      → Passes executor step w v
      → (p' : Progress) × (run_step executor step p w ≡ go_on p' v) × (p'.failed ≡ p.failed)
  Passes-turn step p w v named through =
      let q = note ("[" <> step.id <> "] applying sub-artifact " <> step.artifact) p in
      let tried = λ (o : Option ArtifactStatus) (e : executor.status w step.artifact ≡ o).
        run_step-named step p w named ∙ ap (try_step executor step q w) e in
      go q through tried
    where
      go :
          (q : Progress) {v : S}
          → Passes executor step w v
          → ((o : Option ArtifactStatus)
              → executor.status w step.artifact ≡ o
              → run_step executor step p w ≡ try_step executor step q w o)
          → (p' : Progress) × (run_step executor step p w ≡ go_on p' v) × (p'.failed ≡ q.failed)
      go q (was_applied there) tried = (
        note ("[" <> step.id <> "] already applied, skipping") q,
        tried (some applied) there,
        refl,
      )
      go q (is_applied s there fresh won) tried =
          let new : (s =ᵗ applied) ≡ false = elim (Bool-cases (s =ᵗ applied)) [
            | inl same ↦ absurd (fresh (eq_of_same s applied same))
            | inr other ↦ other
          ] in
          (
            note ("[" <> step.id <> "] OK") q,
            tried (some s) there
                ∙ rw new (after_apply-success step q (executor.apply step.artifact w) won),
            refl,
          )
      go q (is_missing there goes_on) tried =
          let other : (step.on_error =ˢ "halt") ≡ false =
            ground
              (arith, eq_iff step.on_error "halt", (λ (h : step.on_error ≡ "halt"). goes_on h)) in
          (
            note ("[" <> step.id <> "] sub-artifact " <> step.artifact <> " not found") q,
            tried none there ∙ rw other refl,
            refl,
          )

  Ran-run_steps :
      (steps : List Step) (p : Progress) (w v : S)
      → p.failed ≡ false
      → Ran executor steps w v
      → (succeeds (run_steps executor steps p w).0 ≡ true) × ((run_steps executor steps p w).1 ≡ v)
  Ran-run_steps steps p w v clean (ran_none _) = rw (run_steps-none p w) (rw clean refl, refl)
  Ran-run_steps steps p w v clean (ran_step step rest _ u _ named through ran) =
      let (p', turn, same) = Passes-turn step p w u named through in
      rw (run_steps-turn step rest p w turn) (Ran-run_steps rest p' u v (same ∙ clean) ran)

  execute_ordered-Ran :
      (v : Visit (List Step)) (w : S)
      → succeeds (execute_ordered executor false v w).0 ≡ true
      → (ordered : List Step) × (v ≡ done ordered)
        × Ran executor ordered w (execute_ordered executor false v w).1
  execute_ordered-Ran (done ordered) w h =
      let (_, ran) = run_steps-Ran ordered (record { failed = false; log = [] }) w h in
      (ordered, refl, ran)
  execute_ordered-Ran (circular n) w h = absurd (cc h)
  execute_ordered-Ran out_of_fuel w h = absurd (cc h)

  execute_steps-Ran :
      (steps : List Step) (w : S)
      → succeeds (execute_steps executor false steps w).0 ≡ true
      → (ordered : List Step) × (topological_sort steps ≡ done ordered)
        × Ran executor ordered w (execute_steps executor false steps w).1
  execute_steps-Ran [] w h = absurd (cc h)
  execute_steps-Ran (s ∷ steps) w h = execute_ordered-Ran (topological_sort (s ∷ steps)) w h

  pub execute_read :
      (safe_load : Text → Loaded) (rollback : Bool) (body : Text) (steps : List Step) (w : S)
      → extract_composite_steps safe_load body ≡ ok steps
      → execute executor safe_load rollback body w ≡ (
        ok (execute_steps executor rollback steps w).0,
        (execute_steps executor rollback steps w).1,
      )
  unfolding execute
  execute_read safe_load rollback body steps w e = rw (e, execute) refl

  -- A composite that is reported as run has a spec whose steps are put through in an order of
  -- their dependencies: the list is sorted, holds every id of the spec, and each of its steps
  -- passes (its sub-artifact is applied already, is applied with success, or is missing where the
  -- step does not halt), from the state before to the state that is left.
  pub execute-Ran :
      (safe_load : Text → Loaded) (body : Text) (w : S) (steps : List Step) (r : Report)
      → extract_composite_steps safe_load body ≡ ok steps
      → (execute executor safe_load false body w).0 ≡ ok r
      → succeeds r ≡ true
      → (ordered : List Step) × IsOrdered (step_map steps) [] ordered
        × All (λ s. s.id ∈ˢ ids_of ordered ≡ true) steps
        × Ran executor ordered w (execute executor safe_load false body w).1
  execute-Ran safe_load body w steps r e h won =
      let same = execute_read safe_load false body steps w e in
      let kept : r ≡ (execute_steps executor false steps w).0 = cc (h, ap (λ x. x.0) same) in
      let (ordered, sorted, ran) =
        execute_steps-Ran steps w (subst (λ x. succeeds x ≡ true) kept won) in
      (
        ordered,
        topological_sort-IsOrdered steps ordered sorted,
        topological_sort_complete steps ordered sorted,
        rw same ran,
      )

  -- Where the steps have no circle and pass one after the other in the order of the sort, the
  -- composite is reported as run, and leaves the state that the last step leaves.
  pub Ran-execute :
      (safe_load : Text → Loaded) (body : Text) (w v : S) (s : Step) (steps ordered : List Step)
      → extract_composite_steps safe_load body ≡ ok (s ∷ steps)
      → topological_sort (s ∷ steps) ≡ done ordered
      → Ran executor ordered w v
      → (r : Report) × (execute executor safe_load false body w ≡ (ok r, v)) × (succeeds r ≡ true)
  Ran-execute safe_load body w v s steps ordered e sorted ran =
      let p : Progress = record { failed = false; log = [] } in
      let (won, left) = Ran-run_steps ordered p w v refl ran in
      let same : execute executor safe_load false body w ≡ (
        ok (execute_ordered executor false (topological_sort (s ∷ steps)) w).0,
        (execute_ordered executor false (topological_sort (s ∷ steps)) w).1,
      ) =
        execute_read safe_load false body (s ∷ steps) w e in
      (
        (run_steps executor ordered p w).0,
        same ∙ rw sorted (ap (λ x. (ok (run_steps executor ordered p w).0, x)) left),
        won,
      )
