-- ===== src/Tasks/Ends.antt =====
-- How a run of tasks/runner.py leaves its task.
use homepilot_core_public.Base.{
  ℕ, String, ◌≡◌, ◌≢◌, refl, ◌⊎◌, inl, inr, arith, true, false, Option, none, some, List, [], ◌∷◌,
  Bool-cases, Option-cases, subst,
}
use homepilot_core_public.Base.Text.{Text}
use homepilot_core_public.Artifacts.Model.{applied, is_kb_note, Result, ok, err}
use homepilot_core_public.Artifacts.World.{Doc, World, read_file}
use homepilot_core_public.Artifacts.World.Reads.{status_at}
use homepilot_core_public.Executor.Orchestrate.{
  RunResult, ExecutionResult, RevokeResult, Outcome, raises, returns, State, Parts, apply,
}
use homepilot_core_public.Executor.Orchestrate.Composed.{apply_success}
use homepilot_core_public.Executor.Reconcile.{noted, apply_single}
use homepilot_core_public.Tasks.{
  Task, TaskStatus, running, succeeded, failed as task_failed, get_task, update_rows,
  update_task_status, is_over,
}
use homepilot_core_public.Tasks.Runner.{
  Runner, Config, record_outcome, or_apply_failed, payload, stored_log, set_task, task_error,
  after_apply, after_replay, after_revoke, after_relabel, run_apply, run_replay, run_revoke,
}

-- The task of a row has this status.
abbrev pub task_status : String → List Task → Option TaskStatus
task_status id tasks = elim (get_task id tasks) [ none ↦ none | some t ↦ some t.status ]

pub update-status :
    (now : ℕ) (id : String) (status : TaskStatus) (error : Option String) (json : Option Text)
    (tasks : List Task) (old : TaskStatus)
    → task_status id tasks ≡ some old
    → task_status id (update_task_status now id status error json tasks) ≡ some status
unfolding update_task_status update_rows get_task
update-status now id status error json [] old h = absurd (cc h)
update-status now id status error json (t ∷ tasks) old h =
    ground (arith, update-status now id status error json tasks old)

failed-ne-succeeded :
    (now : ℕ) (id : String) (error : Option String) (json : Option Text) (tasks : List Task)
    (old : TaskStatus)
    → task_status id tasks ≡ some old
    → task_status id (update_task_status now id task_failed error json tasks) ≢ some succeeded
failed-ne-succeeded now id error json tasks old h done =
    let lost = update-status now id task_failed error json tasks old h in absurd (cc (lost, done))

-- The task is over: it succeeded or it failed.
abbrev pub IsSettled : String → List Task → Type 0
IsSettled id tasks =
    (task_status id tasks ≡ some succeeded) ⊎ (task_status id tasks ≡ some task_failed)

module _ {H : Type 0} (config : Config H) where
  set_task-IsSettled :
      (now : ℕ) (id : String) (status old : TaskStatus) (error : Option String) (json : Option Text)
      (r : Runner H)
      → task_status id r.tasks ≡ some old
      → is_over status ≡ true
      → IsSettled id (set_task config now id status error json r).tasks
  unfolding set_task
  set_task-IsSettled now id status old error json r h over =
      ground (arith, update-status now id status error json r.tasks old h)

  record_outcome-IsSettled :
      (now : ℕ) (id : String) (old : TaskStatus) (result : RunResult) (r : Runner H)
      → task_status id r.tasks ≡ some old
      → IsSettled id (record_outcome config now id result r).tasks
  unfolding record_outcome
  record_outcome-IsSettled now id old result r h = elim (Bool-cases result.success) [
    | inl well ↦ rw (record_outcome, well) (set_task-IsSettled now id succeeded old none _ r h refl)
    | inr ill ↦ rw (record_outcome, ill) (set_task-IsSettled now id task_failed old _ _ r h refl)
  ]

  task_error-IsSettled :
      (now : ℕ) (id message : String) (old : TaskStatus) (r : Runner H)
      → task_status id r.tasks ≡ some old
      → IsSettled id (task_error config now id message r).tasks
  unfolding task_error
  task_error-IsSettled now id message old r h =
      set_task-IsSettled now id task_failed old (some message) none r h refl

  after_apply-IsSettled :
      (now : ℕ) (id artifact : String) (tasks : List Task) (old : TaskStatus)
      (o : Outcome ExecutionResult × State H)
      → task_status id tasks ≡ some old
      → IsSettled id (after_apply config now id artifact tasks o).tasks
  unfolding after_apply task_error set_task
  after_apply-IsSettled now id artifact tasks old (returns r, s) h =
      record_outcome-IsSettled now id old r.result (record { tasks = tasks; state = s }) h
  after_apply-IsSettled now id artifact tasks old (raises e, s) h =
      task_error-IsSettled now id (config.str e) old (record { tasks = tasks; state = s }) h

  after_replay-IsSettled :
      (now : ℕ) (id : String) (tasks : List Task) (old : TaskStatus)
      (o : Outcome ExecutionResult × State H)
      → task_status id tasks ≡ some old
      → IsSettled id (after_replay config now id tasks o).tasks
  unfolding after_replay task_error set_task
  after_replay-IsSettled now id tasks old (returns r, s) h =
      record_outcome-IsSettled now id old r.result (record { tasks = tasks; state = s }) h
  after_replay-IsSettled now id tasks old (raises e, s) h =
      task_error-IsSettled now id (config.str e) old (record { tasks = tasks; state = s }) h

  after_revoke-IsSettled :
      (now : ℕ) (id : String) (tasks : List Task) (old : TaskStatus)
      (o : Outcome RevokeResult × State H)
      → task_status id tasks ≡ some old
      → IsSettled id (after_revoke config now id tasks o).tasks
  unfolding after_revoke task_error set_task
  after_revoke-IsSettled now id tasks old (returns o, s) h =
      set_task-IsSettled now id succeeded old none _ (record { tasks = tasks; state = s }) h refl
  after_revoke-IsSettled now id tasks old (raises e, s) h =
      task_error-IsSettled now id (config.str e) old (record { tasks = tasks; state = s }) h

  after_relabel-IsSettled :
      (now : ℕ) (id : String) (r : Runner H) (old : TaskStatus) (p : Result (Unit {0}) × World)
      → task_status id r.tasks ≡ some old
      → IsSettled id (after_relabel config now id r p).tasks
  unfolding after_relabel task_error set_task
  after_relabel-IsSettled now id r old (ok _, w) h =
      set_task-IsSettled now id succeeded old none _ r h refl
  after_relabel-IsSettled now id r old (err e, w) h = task_error-IsSettled now id _ old r h

  -- A run that is not cut off always ends its task, as succeeded or as failed, whatever the executor
  -- does and raises, with or without an executor and a reconciler: no run leaves a task running.
  pub run_settles :
      (now : ℕ) (id artifact user : String) (reason : Option String) (old : TaskStatus)
      (r : Runner H)
      → task_status id r.tasks ≡ some old
      → IsSettled id (run_apply config now id artifact user r).tasks
        × IsSettled id (run_replay config now id artifact r).tasks
        × IsSettled id (run_revoke config now id artifact user reason r).tasks
  unfolding run_apply run_replay run_revoke set_task
  run_settles now id artifact user reason old r h =
      let marked = update-status now id running none none r.tasks old h in
      let r' = set_task config now id running none none r in
      elim (Option-cases config.executor) [
        | inl bare ↦ (
          rw (run_apply, bare) (task_error-IsSettled now id _ running r' marked),
          rw (run_replay, bare) (task_error-IsSettled now id _ running r' marked),
          rw (run_revoke, bare) (after_relabel-IsSettled now id r' running _ marked),
        )
        | inr (parts, e) ↦ (
          rw (run_apply, e) (after_apply-IsSettled now id artifact _ running _ marked),
          rw (run_replay, e) (after_replay-IsSettled now id _ running _ marked),
          rw (run_revoke, e) (after_revoke-IsSettled now id _ running _ marked),
        )
      ]

  abbrev Won : Outcome ExecutionResult × State H → Type 0
  Won o = (a : ExecutionResult) × (o.0 ≡ returns a) × (a.result.success ≡ true)

  -- A task has succeeded where the answer said so, and the state is then the executor's.
  after_apply-Won :
      (now : ℕ) (id artifact : String) (tasks : List Task) (old : TaskStatus)
      (o : Outcome ExecutionResult × State H)
      → task_status id tasks ≡ some old
      → task_status id (after_apply config now id artifact tasks o).tasks ≡ some succeeded
      → Won o × ((after_apply config now id artifact tasks o).state ≡ o.1)
  unfolding after_apply record_outcome task_error set_task
  after_apply-Won now id artifact tasks old (raises e, s) h done =
      absurd (failed-ne-succeeded now id (some (config.str e)) none tasks old h done)
  after_apply-Won now id artifact tasks old (returns b, s) h done =
      elim (Bool-cases b.result.success) [
        | inl well ↦ ((b, refl, well), rw (after_apply, record_outcome, well) refl)
        | inr ill ↦ absurd (
            failed-ne-succeeded now id (some (or_apply_failed config b.result.failure_reason))
              (payload config (stored_log config b.result.execution_log)) tasks old h
              (rw (after_apply, record_outcome, ill) at done))
      ]

  noted-same :
      (parts : Parts H) (id user : String) (o : Outcome ExecutionResult × State H)
      → Won (noted config.env config.hexdigest parts config.str id user o)
      → noted config.env config.hexdigest parts config.str id user o ≡ o
  unfolding noted
  noted-same parts id user (raises e, s) (a, same, well) = absurd (ground arith)
  noted-same parts id user (returns r, s) won = refl

  Won-applied :
      (parts : Parts H) (id user : String) (s : State H) (d : Doc)
      → read_file s.world.files id ≡ ok d
      → is_kb_note d.fm.kind ≡ false
      → Won (apply config.env config.hexdigest parts id user s)
      → status_at (apply config.env config.hexdigest parts id user s).1.world id ≡ some applied
  Won-applied parts id user s d found acts (a, same, well) =
      apply_success config.env config.hexdigest parts config.str (λ t. "") id user s d found acts
        (rw (same, well) refl)

  -- Where the task of an apply has succeeded after its run, the artifact is applied, with and without
  -- a reconciler and whatever the executors do. The artifact is of a kind that acts.
  pub run_apply_applied :
      (now : ℕ) (id artifact user : String) (old : TaskStatus) (r : Runner H) (d : Doc)
      → task_status id r.tasks ≡ some old
      → read_file r.state.world.files artifact ≡ ok d
      → is_kb_note d.fm.kind ≡ false
      → task_status id (run_apply config now id artifact user r).tasks ≡ some succeeded
      → status_at (run_apply config now id artifact user r).state.world artifact ≡ some applied
  unfolding run_apply set_task apply_single task_error
  run_apply_applied now id artifact user old r d h found acts done =
      let marked = update-status now id running none none r.tasks old h in
      let r' = set_task config now id running none none r in
      elim (Option-cases config.executor) [
        | inl bare ↦ absurd (
            failed-ne-succeeded now id
              (some "no executor configured - this instance cannot apply artifacts") none r'.tasks
              running marked (rw (run_apply, bare) at done))
        | inr (parts, e) ↦ elim (Bool-cases config.has_reconciler) [
          | inr alone ↦
              let o = apply config.env config.hexdigest parts artifact user r.state in
              let (won, same) =
                after_apply-Won now id artifact r'.tasks running o marked
                  (rw (run_apply, e, alone) at done) in
              rw (run_apply, e, alone, same)
                (Won-applied parts artifact user r.state d found acts won)
          | inl noting ↦
              let o = apply config.env config.hexdigest parts artifact user r.state in
              let o' = noted config.env config.hexdigest parts config.str artifact user o in
              let (won, same) =
                after_apply-Won now id artifact r'.tasks running o' marked
                  (rw (run_apply, e, noting) at done) in
              let plain = noted-same parts artifact user o won in
              rw (run_apply, e, noting, same, plain)
                (Won-applied parts artifact user r.state d found acts (subst Won plain won))
        ]
      ]
