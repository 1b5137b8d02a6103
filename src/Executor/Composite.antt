-- ===== src/Executor/Composite.antt =====
-- `execute` of executor/composite.py. The orchestrator, which applies and revokes a sub-artifact, and
-- the store that it reads are functions on a state `S`, parameters; the store holds a known status in
-- every file, and the orchestrator has a store. The log is the list of its lines, and names a step
-- by its id as given.
pub mod Turns
pub mod Runs
pub mod Due
pub mod Rollback
use homepilot_core_public.Base.{
  String, ◌<>◌, Bool, true, false, ◌||◌, Option, none, some, List, [], ◌∷◌, ◌++◌, ◌=ˢ◌, ◌∈ˢ◌,
  if◌then◌else◌,
}
use homepilot_core_public.Base.Text.{Text}
use homepilot_core_public.Artifacts.Model.{
  ArtifactStatus, applied, approved, ◌=ᵗ◌, Result, ok, err, value_error,
}
use homepilot_core_public.Artifacts.Spec.{Step, Loaded, extract_composite_steps}
use homepilot_core_public.Executor.Order.{Visit, done, circular, out_of_fuel, topological_sort}

-- What `apply` returns, or raises.
pub data Applied : Type 0 where
  success : Applied
  failure raised : String → Applied

-- What `revoke` returns, `rolled_back` and `reason`, or raises.
pub data Revoked : Type 0 where
  outcome : Bool → String → Revoked
  raised : String → Revoked

pub record Orchestrator (S : Type 0) : Type 0 where
  pub status : S → String → Option ArtifactStatus
  pub apply : String → S → Applied × S
  pub revoke : String → S → Revoked × S

-- The dictionary that is returned: no `failure_reason` stands for success.
pub record Report : Type 0 where
  pub execution_log : List String
  pub failure_reason : Option String

abbrev pub succeeds : Report → Bool
succeeds report = elim report.failure_reason [ none ↦ true | some _ ↦ false ]

-- `failed` and `log_lines`.
pub record Progress : Type 0 where
  pub failed : Bool
  pub log : List String

abbrev pub note : String → Progress → Progress
note line p = record p { log = p.log ++ line ∷ [] }

-- The step is marked as failed, or the run is given up.
pub data Turn (S : Type 0) : Type 0 where
  go_on : Progress → S → Turn S
  give_up : Report → S → Turn S

abbrev pub report : Progress → Report
report p = record {
  execution_log = p.log;
  failure_reason =
      if p.failed then some "one or more steps did not run or did not succeed" else none;
}

-- The sub-artifacts to revoke, by what the store says before the first of them is.
abbrev pub is_reversible : Option ArtifactStatus → Bool
is_reversible none = false
is_reversible (some s) = s =ᵗ applied || s =ᵗ approved

abbrev pub joined : List String → String
joined [] = ""
joined (x ∷ []) = x
joined (x ∷ y ∷ xs) = x <> ", " <> joined (y ∷ xs)

unfoldable pub reversed : List Step → List Step
reversed [] = []
reversed (s ∷ steps) = reversed steps ++ s ∷ []

module _ {S : Type 0} where
  -- The log and the artifacts that were not reversed, after one answer.
  abbrev pub after_revoke :
      Step → List String × List String → Revoked × S → (List String × List String) × S
  after_revoke step (log, left) (outcome true reason, w) =
      ((log ++ ("[" <> step.id <> "] reversed: " <> reason) ∷ [], left), w)
  after_revoke step (log, left) (outcome false reason, w) = (
    (log ++ ("[" <> step.id <> "] NOT reversed: " <> reason) ∷ [], left ++ step.artifact ∷ []),
    w,
  )
  after_revoke step (log, left) (raised e, w) = (
    (
      log ++ ("[" <> step.id <> "] rollback failed (best-effort): " <> e) ∷ [],
      left ++ step.artifact ∷ [],
    ),
    w,
  )

  abbrev pub rollback_report : (List String × List String) × S → Report × S
  rollback_report ((log, []), w) = (record { execution_log = log; failure_reason = none }, w)
  rollback_report ((log, x ∷ left), w) = (
    record {
      execution_log = log;
      failure_reason = some ("these sub-artifacts were not reversed: " <> joined (x ∷ left));
    },
    w,
  )

  abbrev pub refusal : String → String → S → Report × S
  refusal log reason w = (record { execution_log = log ∷ []; failure_reason = some reason }, w)

  abbrev pub fail_step : Step → String → Progress → S → Turn S
  fail_step step reason p w =
      if step.on_error =ˢ "halt"
      then give_up (record { execution_log = p.log; failure_reason = some reason }) w
      else go_on (record p { failed = true }) w

  -- A step whose sub-artifact is missing does not count as failed where the run goes on.
  abbrev pub miss_step : Step → Progress → S → Turn S
  miss_step step p w =
      if step.on_error =ˢ "halt"
      then give_up
          (record {
            execution_log = p.log;
            failure_reason = some ("sub-artifact " <> step.artifact <> " not found");
          })
          w
      else go_on p w

  abbrev pub after_apply : Step → Progress → Applied × S → Turn S
  after_apply step p (success, w) = go_on (note ("[" <> step.id <> "] OK") p) w
  after_apply step p (failure reason, w) =
      fail_step step ("sub-artifact " <> step.artifact <> " failed")
        (note ("[" <> step.id <> "] FAILED: " <> reason) p) w
  after_apply step p (raised e, w) =
      fail_step step e (note ("[" <> step.id <> "] ERROR: " <> e) p) w

  -- The rest of the loop, unless the run was given up.
  abbrev pub after_turn : (Progress → S → Report × S) → Turn S → Report × S
  after_turn rest (go_on p w) = rest p w
  after_turn rest (give_up r w) = (r, w)

module _ {S : Type 0} (executor : Orchestrator S) where
  abbrev pub try_step : Step → Progress → S → Option ArtifactStatus → Turn S
  try_step step p w none =
      miss_step step (note ("[" <> step.id <> "] sub-artifact " <> step.artifact <> " not found") p)
        w
  try_step step p w (some s) =
      if s =ᵗ applied
      then go_on (note ("[" <> step.id <> "] already applied, skipping") p) w
      else after_apply step p (executor.apply step.artifact w)

  unfoldable pub run_step : Step → Progress → S → Turn S
  run_step step p w =
      if step.artifact =ˢ ""
      then go_on
          (record (note ("[" <> step.id <> "] names no artifact, so nothing was run") p) {
            failed = true;
          })
          w
      else try_step step (note ("[" <> step.id <> "] applying sub-artifact " <> step.artifact) p) w
          (executor.status w step.artifact)

  -- The loop over the ordered steps, and what stands behind it.
  unfoldable pub run_steps : List Step → Progress → S → Report × S
  unfolding run_step
  run_steps [] p w = (report p, w)
  run_steps (step ∷ steps) p w = after_turn (run_steps steps) (run_step step p w)

  abbrev pub to_revert : S → Step → Bool
  to_revert w step =
      if step.artifact =ˢ "" then false else is_reversible (executor.status w step.artifact)

  unfoldable pub applied_ids : S → List Step → List String
  applied_ids w [] = []
  applied_ids w (step ∷ steps) =
      let rest = applied_ids w steps in if to_revert w step then step.artifact ∷ rest else rest

  unfoldable pub revert_steps :
      List String → List Step → List String × List String → S → (List String × List String) × S
  revert_steps ids [] acc w = (acc, w)
  revert_steps ids (step ∷ steps) (log, left) w =
      let line = "[" <> step.id <> "] rollback sub-artifact " <> step.artifact in
      let (acc, v) = after_revoke step (log ++ line ∷ [], left) (executor.revoke step.artifact w) in
      let reverted = revert_steps ids steps acc v in
      let passed = revert_steps ids steps (log, left) w in
      if step.artifact ∈ˢ ids then reverted else passed

  unfoldable pub run_rollback : List Step → S → Report × S
  unfolding reversed applied_ids revert_steps
  run_rollback ordered w =
      let backwards = reversed ordered in
      rollback_report (revert_steps (applied_ids w backwards) backwards ([], []) w)

  abbrev pub execute_ordered : Bool → Visit (List Step) → S → Report × S
  execute_ordered rollback (done ordered) w =
      if rollback
      then run_rollback ordered w
      else run_steps ordered (record { failed = false; log = [] }) w
  execute_ordered rollback (circular node) w =
      let message = "Circular dependency detected involving: " <> node in refusal message message w
  execute_ordered rollback out_of_fuel w = refusal "" "" w

  abbrev pub execute_steps : Bool → List Step → S → Report × S
  execute_steps rollback [] w = refusal "No ```yaml composite-spec``` block found" "missing spec" w
  execute_steps rollback (s ∷ steps) w = execute_ordered rollback (topological_sort (s ∷ steps)) w

  -- `except ValueError: steps = []`; another exception of the loader leaves `execute`.
  unfoldable pub execute : (Text → Loaded) → Bool → Text → S → Result Report × S
  unfolding extract_composite_steps topological_sort run_steps run_rollback
  execute safe_load rollback body w = elim (extract_composite_steps safe_load body) [
    | ok steps ↦ (let (r, v) = execute_steps rollback steps w in (ok r, v))
    | err value_error ↦ (let (r, v) = execute_steps rollback [] w in (ok r, v))
    | err e ↦ (err e, w)
  ]
