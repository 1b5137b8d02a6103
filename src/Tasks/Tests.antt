-- ===== src/Tasks/Tests.antt =====
-- A runner with an approved artifact, `unit`, and a table with a task that was cancelled.
use homepilot_core_public.Base.{◌≡◌, refl, true, false, none, some, List, [], ◌∷◌}
use homepilot_core_public.Base.Text.{codes}
use homepilot_core_public.Base.Dict.{lookup}
use homepilot_core_public.Artifacts.Model.{
  shell_script, approved, applied, ok, validate_transition, valid_transitions,
}
use homepilot_core_public.Artifacts.Body.{
  drop_start, extract_body, universal_newlines, translate, compute_body_hash, normalize,
  clean_lines, join_lines, split_lines, cons_line, rstrip, is_space, drop_end, push_end,
}
use homepilot_core_public.Artifacts.Spec.{other}
use homepilot_core_public.Artifacts.World.{Doc, Env, read_file}
use homepilot_core_public.Artifacts.World.Reads.{status_at}
use homepilot_core_public.Artifacts.Transitions.{checked_read, mark_applied}
use homepilot_core_public.Executor.Orchestrate.{
  RunResult, Reply, throws, replies, Parts, run_kind, settle_apply, apply,
}
use homepilot_core_public.Executor.Reconcile.{noted, apply_single}
use homepilot_core_public.Tasks.{
  Task, pending, running, succeeded, cancelled, get_task, new_task, cancel_task, update_rows,
  update_task_status, has_active_task, create_task_if_no_active, validate_action,
}
use homepilot_core_public.Tasks.Runner.{
  Runner, Config, set_task, stored_log, record_outcome, after_apply, run_apply, run_replay,
  run_revoke,
}
use homepilot_core_public.Tasks.Ends.{IsSettled, task_status, run_settles, run_apply_applied}
use homepilot_core_public.Tasks.Sound.{IsSound}
use homepilot_core_public.Tasks.Steps.{
  History, stop, more, creates_alone, writes, cancels, History-IsSound,
}

abbrev env : Env
env = record {
  hexdigest = λ t. "full";
  safe_load = λ t. other;
  has_db = true;
  db_works = λ id. true;
  now = λ id. "2025-01-01T00:00:00Z";
}

abbrev unit : Doc
unit = record {
  fm = record {
    id = "unit";
    kind = shell_script;
    intent = "install";
    status = approved;
    mutating = true;
    hash = some "sha256:full";
    idempotence = none;
    target_kind = "host";
    target_vmid = none;
    target_node = none;
    rollback = false;
    replay_safe = none;
    requires_snapshot = none;
    approved_by = none;
    applied_at = none;
    failed_at = none;
    failure_reason = none;
    superseded_by = none;
    rejected_by = none;
    revoked_by = none;
  };
  body = codes "run";
}

abbrev broken : Reply RunResult
broken = throws "no route to host"

abbrev parts : Parts (Unit {0})
parts = record {
  execute = λ kind d s. (broken, s);
  undo = λ kind d s. (broken, s);
  snapshot = λ node vmid name s. (replies tt, s);
}

abbrev config : Config (Unit {0})
config = record {
  env = env;
  hexdigest = λ t. t;
  executor = some parts;
  has_reconciler = true;
  str = λ e. "refused";
  dumps = λ t. t;
  dumps_revoke = λ r. [];
}

abbrev old : Task
old = record {
  id = "t1";
  artifact_id = some "unit";
  action = "apply";
  status = cancelled;
  created_at = 1;
  finished_at = some 2;
  error = none;
  result_json = none;
}

abbrev waiting : Task
waiting = record old { id = "t2"; status = pending; finished_at = none }

abbrev runner : List Task → Runner (Unit {0})
runner tasks = record {
  tasks = tasks;
  state = record {
    world = record {
      files = ("unit", unit) ∷ [];
      mirror = [];
      codes = [];
      audit = [];
      commits = [];
    };
    host = tt;
  };
}

abbrev table : List Task
table = old ∷ waiting ∷ []

waiting_status : task_status "t2" table ≡ some pending
unfolding get_task
waiting_status = refl

second_refused : (create_task_if_no_active "t3" 5 "unit" "apply" table) ≡ some (none, table)
unfolding create_task_if_no_active validate_action has_active_task
second_refused = refl

unit_found : read_file (runner table).state.world.files "unit" ≡ ok unit
unfolding read_file lookup drop_start universal_newlines translate extract_body
unit_found = refl

run_settles_example :
    IsSettled "t2" (run_apply config 7 "t2" "unit" "ann" (runner table)).tasks
    × IsSettled "t2" (run_replay config 7 "t2" "unit" (runner table)).tasks
    × IsSettled "t2" (run_revoke config 7 "t2" "unit" "ann" none (runner table)).tasks
run_settles_example =
    run_settles config 7 "t2" "unit" "ann" none pending (runner table) waiting_status

-- The executor replies with success.
abbrev able : Config (Unit {0})
able = record config {
  executor = some (record parts {
    execute = λ kind d s. (
      replies (record { success = true; execution_log = codes "done"; failure_reason = none }),
      s,
    );
  });
}

succeeds :
    task_status "t2" (run_apply able 7 "t2" "unit" "ann" (runner table)).tasks ≡ some succeeded
unfolding run_apply set_task update_task_status update_rows get_task after_apply record_outcome
    stored_log apply_single noted apply read_file lookup drop_start universal_newlines translate
    extract_body run_kind settle_apply mark_applied checked_read validate_transition
    valid_transitions compute_body_hash normalize clean_lines join_lines split_lines cons_line
    rstrip is_space drop_end push_end
succeeds = refl

run_apply_applied_example :
    status_at (run_apply able 7 "t2" "unit" "ann" (runner table)).state.world "unit" ≡ some applied
run_apply_applied_example =
    run_apply_applied able 7 "t2" "unit" "ann" pending (runner table) unit waiting_status unit_found
      refl succeeds

-- An apply on the empty table, a cancel, and a write of its run that comes too late.
abbrev first : List Task
first = new_task "t9" 3 (some "unit") "apply" ∷ []

abbrev stopped : List Task
stopped = (cancel_task 4 "t9" first).1

abbrev late : List Task
late = update_task_status 5 "t9" running none none stopped

inserted : create_task_if_no_active "t9" 3 "unit" "apply" [] ≡ some (some "t9", first)
unfolding create_task_if_no_active validate_action has_active_task
inserted = refl

stopped_too_late : History [] late
stopped_too_late =
    more [] first late (creates_alone "t9" (some "t9") 3 "unit" "apply" [] first inserted) (
      more first stopped late (cancels 4 "t9" first)
        (more stopped late late (writes 5 "t9" running none none stopped refl) (stop late)))

History-IsSound_example : IsSound late
History-IsSound_example = History-IsSound [] late stopped_too_late tt
