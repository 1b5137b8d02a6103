-- ===== src/Tasks/Runner.antt =====
-- `TaskRunner` of tasks/runner.py: what a start checks before it makes a task, and what a run writes
-- about it. A start hands its run on to the event loop; a run is one function here, from its first
-- write to its last. The text of an exception and JSON are parameters. A reconciler shares the runner's
-- executor.
use homepilot_core_public.Base.{
  ℕ, ◌-◌, String, Bool, ◌||◌, not, Option, none, some, List, [], ◌∷◌, ◌++◌, ◌=ˢ◌, ltb,
  if◌then◌else◌, length,
}
use homepilot_core_public.Base.Text.{Text, codes, drop}
use homepilot_core_public.Artifacts.Model.{
  ArtifactStatus, approved, applied, failed, ◌=ᵗ◌, Result, ok, err,
}
use homepilot_core_public.Artifacts.World.{World, Env, read_file}
use homepilot_core_public.Artifacts.Transitions.{mark_failed, revoke_artifact}
use homepilot_core_public.Executor.Orchestrate.{
  RunResult, ExecutionResult, RevokeResult, Failure, artifact_error, Outcome, raises, returns,
  State, Parts, apply, replay, revoke,
}
use homepilot_core_public.Executor.Reconcile.{apply_single}
use homepilot_core_public.Tasks.{
  Task, TaskStatus, running, succeeded, failed as task_failed, create_task,
  create_task_if_no_active, get_task, get_active_task, update_task_status,
}

-- The runner's database and what its runs act on.
pub record Runner (H : Type 0) : Type 0 where
  pub tasks : List Task
  pub state : State H

pub record Config (H : Type 0) : Type 0 where
  pub env : Env
  pub hexdigest : Text → Text
  pub executor : Option (Parts H)
  pub has_reconciler : Bool
  pub str : Failure → String
  pub dumps : Text → Text
  pub dumps_revoke : RevokeResult → Text

-- What a start answers or raises: the task that it made, or the one that is active already; a missing
-- artifact, a status that does not allow the run, a run in progress, or a table that disagrees.
pub data Start : Type 0 where
  started : String → Start
  already : Task → Start
  artifact_missing : Start
  bad_status : ArtifactStatus → Start
  in_progress : String → TaskStatus → Start
  no_task : Start

abbrev pub is_one_of : String → String → String → Bool
is_one_of action a b = action =ˢ a || action =ˢ b

module _ {H : Type 0} (config : Config H) where
  abbrev pub created : Option (String × List Task) → Runner H → Start × Runner H
  created none r = (no_task, r)
  created (some (id, tasks)) r = (started id, record r { tasks = tasks })

  -- `full_task or active`
  abbrev pub running_task : String → List Task → Option Task
  running_task artifact tasks = elim (get_active_task artifact tasks) [
    | none ↦ none
    | some t ↦ elim (get_task t.id tasks) [ none ↦ some t | some full ↦ some full ]
  ]

  unfoldable pub start_apply : String → ℕ → String → Runner H → Start × Runner H
  unfolding read_file create_task_if_no_active get_active_task get_task
  start_apply id now artifact r = elim (read_file r.state.world.files artifact) [
    | err e ↦ (artifact_missing, r)
    | ok d ↦
        if not (d.fm.status =ᵗ approved)
        then (bad_status d.fm.status, r)
        else elim (create_task_if_no_active id now artifact "apply" r.tasks) [
          | none ↦ (no_task, r)
          | some (some new, tasks) ↦ (started new, record r { tasks = tasks })
          | some (none, tasks) ↦ elim (running_task artifact r.tasks) [
            | none ↦ (no_task, r)
            | some t ↦ (already t, r)
          ]
        ]
  ]

  -- The rest of `start_revoke` and of `start_replay`. They are one step each here; the source awaits
  -- the check and the insert apart, and takes no lock.
  unfoldable pub start_known :
      (ArtifactStatus → Bool) → String → ℕ → String → String → Runner H → Start × Runner H
  unfolding read_file create_task
  start_known allowed id now artifact action r = elim (read_file r.state.world.files artifact) [
    | err e ↦ (artifact_missing, r)
    | ok d ↦
        if not (allowed d.fm.status)
        then (bad_status d.fm.status, r)
        else created (create_task id now (some artifact) action r.tasks) r
  ]

  unfoldable pub start_revoke : String → ℕ → String → Runner H → Start × Runner H
  unfolding get_active_task start_known
  start_revoke id now artifact r =
      let go =
        start_known (λ s. s =ᵗ approved || s =ᵗ applied || s =ᵗ failed) id now artifact "revoke"
          r in
      elim (get_active_task artifact r.tasks) [
        | none ↦ go
        | some t ↦
            if is_one_of t.action "apply" "replay" then (in_progress t.id t.status, r) else go
      ]

  unfoldable pub start_replay : String → ℕ → String → Runner H → Start × Runner H
  unfolding get_active_task start_known
  start_replay id now artifact r =
      let go = start_known (λ s. s =ᵗ approved || s =ᵗ applied) id now artifact "replay" r in
      elim (get_active_task artifact r.tasks) [
        | none ↦ go
        | some t ↦
            if is_one_of t.action "apply" "replay" || t.action =ˢ "revoke"
            then (in_progress t.id t.status, r)
            else go
      ]

  abbrev pub max_stored_log : ℕ
  max_stored_log = 20000

  -- The end of a log that is too long, which is where a failure is.
  unfoldable pub stored_log : Text → Text
  unfolding drop
  stored_log log =
      if ltb max_stored_log (length log)
      then codes "[earlier output truncated, showing the last 20000 chars]"
        ++ 10 ∷ drop (length log - max_stored_log) log
      else log

  abbrev pub payload : Text → Option Text
  payload [] = none
  payload (c ∷ log) = some (config.dumps (c ∷ log))

  abbrev pub or_apply_failed : Option String → String
  or_apply_failed none = "apply failed"
  or_apply_failed (some reason) = if reason =ˢ "" then "apply failed" else reason

  -- A write to the task, with the run's state.
  unfoldable pub set_task :
      ℕ → String → TaskStatus → Option String → Option Text → Runner H → Runner H
  unfolding update_task_status
  set_task now id status error result_json r = record r {
    tasks = update_task_status now id status error result_json r.tasks;
  }

  unfoldable pub record_outcome : ℕ → String → RunResult → Runner H → Runner H
  unfolding stored_log set_task
  record_outcome now id result r =
      let json = payload (stored_log result.execution_log) in
      if result.success
      then set_task now id succeeded none json r
      else set_task now id task_failed (some (or_apply_failed result.failure_reason)) json r

  -- What is left to do where the run has raised.
  unfoldable pub task_error : ℕ → String → String → Runner H → Runner H
  unfolding set_task
  task_error now id message r = set_task now id task_failed (some message) none r

  unfoldable pub after_apply :
      ℕ → String → String → List Task → Outcome ExecutionResult × State H → Runner H
  unfolding record_outcome mark_failed task_error
  after_apply now id artifact tasks (returns r, s) =
      record_outcome now id r.result (record { tasks = tasks; state = s })
  after_apply now id artifact tasks (raises e, s) =
      let w = (mark_failed config.env artifact (config.str e) [] s.world).1 in
      task_error now id (config.str e) (record { tasks = tasks; state = record s { world = w } })

  -- `_run_apply`
  unfoldable pub run_apply : ℕ → String → String → String → Runner H → Runner H
  unfolding after_apply apply apply_single set_task task_error
  run_apply now id artifact user r =
      let r' = set_task now id running none none r in
      elim config.executor [
        | some parts ↦ after_apply now id artifact r'.tasks (
            if config.has_reconciler
            then apply_single config.env config.hexdigest parts config.str artifact user r'.state
            else apply config.env config.hexdigest parts artifact user r'.state)
        | none ↦
            task_error now id "no executor configured - this instance cannot apply artifacts" r'
      ]

  unfoldable pub after_replay :
      ℕ → String → List Task → Outcome ExecutionResult × State H → Runner H
  unfolding record_outcome task_error
  after_replay now id tasks (returns r, s) =
      record_outcome now id r.result (record { tasks = tasks; state = s })
  after_replay now id tasks (raises e, s) =
      task_error now id (config.str e) (record { tasks = tasks; state = s })

  -- `_run_replay`
  unfoldable pub run_replay : ℕ → String → String → Runner H → Runner H
  unfolding after_replay replay set_task task_error
  run_replay now id artifact r =
      let r' = set_task now id running none none r in
      elim config.executor [
        | some parts ↦
            after_replay now id r'.tasks
              (replay config.env config.hexdigest parts artifact r'.state)
        | none ↦ task_error now id "no executor configured - cannot replay" r'
      ]

  unfoldable pub after_revoke : ℕ → String → List Task → Outcome RevokeResult × State H → Runner H
  unfolding set_task task_error
  after_revoke now id tasks (returns o, s) =
      set_task now id succeeded none (some (config.dumps_revoke o))
        (record { tasks = tasks; state = s })
  after_revoke now id tasks (raises e, s) =
      task_error now id (config.str e) (record { tasks = tasks; state = s })

  -- `lifecycle.revoke`, where there is no executor: no outcome.
  unfoldable pub after_relabel : ℕ → String → Runner H → Result (Unit {0}) × World → Runner H
  unfolding set_task task_error
  after_relabel now id r (ok _, w) =
      set_task now id succeeded none none (record r { state = record r.state { world = w } })
  after_relabel now id r (err e, w) =
      task_error now id (config.str (artifact_error e))
        (record r { state = record r.state { world = w } })

  -- `_run_revoke`
  unfoldable pub run_revoke : ℕ → String → String → String → Option String → Runner H → Runner H
  unfolding after_revoke after_relabel revoke revoke_artifact set_task task_error
  run_revoke now id artifact user reason r =
      let r' = set_task now id running none none r in
      elim config.executor [
        | some parts ↦
            after_revoke now id r'.tasks
              (revoke config.env config.hexdigest parts artifact user reason r'.state)
        | none ↦
            after_relabel now id r' (revoke_artifact config.env artifact user reason r'.state.world)
      ]
