-- ===== src/Executor/Orchestrate.antt =====
-- `ArtifactExecutor` of executor/orchestrator.py: apply, replay and revoke. The state is the artifacts'
-- and whatever else, a host or a cluster. What the executors of the kinds do, forwards and as a
-- rollback, and the snapshot call are parameters on that state; what they raise is a text. A kind's
-- own text in a reason is left out.
pub mod Snapshot
pub mod Guard
pub mod Applies
pub mod Replays
pub mod Revokes
pub mod Composed
use homepilot_core_public.Base.{
  ℕ, String, ◌<>◌, Bool, true, false, ◌&&◌, ◌||◌, not, Option, none, some, List, [], ◌∷◌, ◌++◌,
  ◌=ˢ◌, if◌then◌else◌,
}
use homepilot_core_public.Base.Text.{Text, codes}
use homepilot_core_public.Artifacts.Model.{
  ArtifactKind, ArtifactStatus, approved, applied, ◌=ᵗ◌, is_kb_note, Idempotence, replay_only,
  Frontmatter, Error, Result, ok, err,
}
use homepilot_core_public.Artifacts.World.{
  Doc, World, Env, Details, no_details, because, with_snapshot, reversal, read_file, log_audit,
}
use homepilot_core_public.Artifacts.Cascade.{hash_matches}
use homepilot_core_public.Artifacts.Transitions.{mark_applied, mark_failed, revoke_artifact}
use homepilot_core_public.Executor.Reversal.{kind_can_roll_back}
use homepilot_core_public.Executor.Orchestrate.Snapshot.{snapshot_name_for}

-- The reply of an executor.
pub record RunResult : Type 0 where
  pub success : Bool
  pub execution_log : Text
  pub failure_reason : Option String

pub record ExecutionResult : Type 0 where
  pub result : RunResult
  pub snapshot_id : Option Text

pub record RevokeResult : Type 0 where
  pub rolled_back : Bool
  pub reason : Text
  pub execution_log : Text

-- What an operation raises: an error of the store or of a transition, or a refusal of its own.
pub data Failure : Type 0 where
  artifact_error : Error → Failure
  not_approved cannot_replay : ArtifactStatus → Failure
  tampered not_replay_safe is_replay_only : Failure

pub data Outcome (A : Type 0) : Type 0 where
  raises : Failure → Outcome A
  returns : A → Outcome A

-- The result of a call into other code: an exception's text, or a reply.
pub data Reply (A : Type 0) : Type 0 where
  throws : String → Reply A
  replies : A → Reply A

pub record State (H : Type 0) : Type 0 where
  pub world : World
  pub host : H

-- The parts that the orchestrator calls, those of the kinds in one function each. A snapshot is
-- taken of a node's guest under a name.
pub record Parts (H : Type 0) : Type 0 where
  pub execute : ArtifactKind → Doc → State H → Reply RunResult × State H
  pub undo : ArtifactKind → Doc → State H → Reply RunResult × State H
  pub snapshot : String → ℕ → Text → State H → Reply (Unit {0}) × State H

abbrev pub is_snapshottable : String → Bool
is_snapshottable kind = kind =ˢ "vm" || kind =ˢ "lxc"

abbrev pub is_false : Option Bool → Bool
is_false none = false
is_false (some b) = not b

abbrev pub is_only_once : Option Idempotence → Bool
is_only_once (some replay_only) = true
is_only_once _ = false

abbrev pub or_unknown : Option String → String
or_unknown none = "unknown"
or_unknown (some reason) = if reason =ˢ "" then "unknown" else reason

abbrev pub kb_result : String → ExecutionResult
kb_result log = record {
  result = record { success = true; execution_log = codes log; failure_reason = none };
  snapshot_id = none;
}

-- The snapshot that was taken, if any, and what the run gave.
pub record Run : Type 0 where
  pub snapshot_id : Option Text
  pub reply : Reply RunResult

abbrev pub text_of : Option String → String
text_of none = ""
text_of (some t) = t

module _ {H : Type 0} (env : Env) (hexdigest : Text → Text) (parts : Parts H) where
  abbrev pub on_world : (World → World) → State H → State H
  on_world f s = record s { world = f s.world }

  -- A transition of the lifecycle, and what stands behind it where it does not raise.
  abbrev pub then_on :
      {A : Type 0} → Result (Unit {0}) × World → (World → World) → A → State H → Outcome A × State H
  then_on (err e, w) more a s = (raises (artifact_error e), record s { world = w })
  then_on (ok _, w) more a s = (returns a, record s { world = more w })

  -- `_maybe_snapshot`: the name of the snapshot, none where none is wanted.
  unfoldable pub maybe_snapshot : Frontmatter → State H → Reply (Option Text) × State H
  unfolding snapshot_name_for
  maybe_snapshot fm s =
      if is_false fm.requires_snapshot then (replies none, s) else elim fm.target_vmid [
        | none ↦ (throws "the target names no vmid", s)
        | some vmid ↦
            if text_of fm.target_node =ˢ ""
            then (throws "the target names no node", s)
            else (let name = snapshot_name_for hexdigest (codes fm.id) in
                let (reply, s') = parts.snapshot (text_of fm.target_node) vmid name s in
                (
                  elim reply [ throws reason ↦ throws reason | replies _ ↦ replies (some name) ],
                  s',
                ))
      ]

  -- The executor of the kind, behind the snapshot.
  abbrev pub dispatch : Doc → Option Text → State H → Run × State H
  dispatch d snapshot_id s =
      let (reply, s') = parts.execute d.fm.kind d s in
      (record { snapshot_id = snapshot_id; reply = reply }, s')

  abbrev pub dispatch_after : Doc → Reply (Option Text) × State H → Run × State H
  dispatch_after d (throws reason, s) = (record { snapshot_id = none; reply = throws reason }, s)
  dispatch_after d (replies snapshot_id, s) = dispatch d snapshot_id s

  -- The `try` of `apply` and `replay`.
  unfoldable pub run_kind : Doc → State H → Run × State H
  unfolding maybe_snapshot
  run_kind d s =
      if d.fm.mutating && is_snapshottable d.fm.target_kind
      then dispatch_after d (maybe_snapshot d.fm s)
      else dispatch d none s

  -- `mark_failed`, the row of the audit, and the answer.
  abbrev pub fail_run :
      String
      → String
      → String
      → Details
      → String
      → ExecutionResult
      → State H
      → Outcome ExecutionResult × State H
  fail_run id action user details reason answer s =
      then_on (mark_failed env id reason answer.result.execution_log s.world)
        (log_audit env action id (some user) details) answer s

  abbrev pub thrown : String → String → Option Text → ExecutionResult
  thrown what reason snapshot_id = record {
    result = record {
      success = false;
      execution_log = codes (what <> reason);
      failure_reason = some reason;
    };
    snapshot_id = snapshot_id;
  }

  abbrev pub snapshot_details : Option Text → Details
  snapshot_details none = no_details
  snapshot_details (some name) = with_snapshot name

  -- The run failed without an exception.
  abbrev pub fail_reply :
      String → String → String → ExecutionResult → State H → Outcome ExecutionResult × State H
  fail_reply id action user answer s =
      fail_run id action user (because (text_of answer.result.failure_reason))
        (or_unknown answer.result.failure_reason) answer s

  -- What `apply` does with the answer of the run.
  unfoldable pub settle_apply :
      String → String → Option Text → Reply RunResult → State H → Outcome ExecutionResult × State H
  unfolding mark_applied mark_failed log_audit
  settle_apply id user snapshot_id (throws reason) s =
      fail_run id "apply_failed" user (because reason) reason
        (thrown "Executor error: " reason snapshot_id) s
  settle_apply id user snapshot_id (replies result) s =
      let answer : ExecutionResult = record { result = result; snapshot_id = snapshot_id } in
      if result.success
      then then_on (mark_applied env id result.execution_log s.world)
          (log_audit env "apply" id (some user) (snapshot_details snapshot_id)) answer s
      else fail_reply id "apply_failed" user answer s

  unfoldable pub apply : String → String → State H → Outcome ExecutionResult × State H
  unfolding read_file run_kind settle_apply
  apply id user s = elim (read_file s.world.files id) [
    | err e ↦ (raises (artifact_error e), s)
    | ok d ↦
        if is_kb_note d.fm.kind
        then (returns (kb_result "kb-note auto-applied on propose"), s)
        else if not (d.fm.status =ᵗ approved)
        then (raises (not_approved d.fm.status), s)
        else if not (hash_matches env d)
        then (raises tampered, s)
        else (let (run, s') = run_kind d s in settle_apply id user run.snapshot_id run.reply s')
  ]

  -- What `replay` does with the answer, for an artifact that was approved before, or was applied.
  unfoldable pub settle_replay :
      Bool → String → Option Text → Reply RunResult → State H → Outcome ExecutionResult × State H
  unfolding mark_applied mark_failed log_audit
  settle_replay first id snapshot_id (throws reason) s =
      fail_run id "replay_failed" "replay" (because reason) reason
        (thrown "Replay error: " reason snapshot_id) s
  settle_replay true id snapshot_id (replies result) s =
      let answer : ExecutionResult = record { result = result; snapshot_id = snapshot_id } in
      if result.success
      then then_on (mark_applied env id result.execution_log s.world)
          (log_audit env "replay" id (some "replay") no_details) answer s
      else fail_reply id "replay_failed" "replay" answer s
  settle_replay false id snapshot_id (replies result) s = (
    returns (record { result = result; snapshot_id = snapshot_id }),
    on_world
        (if result.success
          then log_audit env "replay" id (some "replay") no_details
          else log_audit env "replay_failed" id (some "replay")
              (because (text_of result.failure_reason)))
        s,
  )

  unfoldable pub replay : String → State H → Outcome ExecutionResult × State H
  unfolding read_file run_kind settle_replay
  replay id s = elim (read_file s.world.files id) [
    | err e ↦ (raises (artifact_error e), s)
    | ok d ↦
        if is_kb_note d.fm.kind
        then (returns (kb_result "kb-note: no-op replay"), s)
        else if is_false d.fm.replay_safe && d.fm.status =ᵗ applied
        then (raises not_replay_safe, s)
        else if is_only_once d.fm.idempotence && d.fm.status =ᵗ applied
        then (raises is_replay_only, s)
        else if not (d.fm.status =ᵗ approved || d.fm.status =ᵗ applied)
        then (raises (cannot_replay d.fm.status), s)
        else if not (hash_matches env d)
        then (raises tampered, s)
        else (let (run, s') = run_kind d s in
            settle_replay (d.fm.status =ᵗ approved) id run.snapshot_id run.reply s')
  ]

  abbrev pub not_reversed : Text → RevokeResult
  not_reversed reason = record { rolled_back = false; reason = reason; execution_log = [] }

  -- `result.get("failure_reason") or result.get("execution_log") or "no reason given"`
  abbrev pub why_not : RunResult → Text
  why_not result =
      if text_of result.failure_reason =ˢ ""
      then elim result.execution_log [ [] ↦ codes "no reason given" | c ∷ log ↦ c ∷ log ]
      else codes (text_of result.failure_reason)

  abbrev pub rollback_result : Reply RunResult → RevokeResult
  rollback_result (throws reason) = not_reversed (codes ("rollback failed: " <> reason))
  rollback_result (replies result) =
      if result.success
      then record {
        rolled_back = true;
        reason = codes "rollback executed";
        execution_log = result.execution_log;
      }
      else not_reversed (codes "rollback did not run: " ++ why_not result)

  -- `_run_rollback`
  unfoldable pub run_rollback : Doc → State H → RevokeResult × State H
  unfolding kind_can_roll_back
  run_rollback d s =
      if kind_can_roll_back d.fm.kind
      then (let (reply, s') = parts.undo d.fm.kind d s in (rollback_result reply, s'))
      else (not_reversed (codes "kind has no rollback path"), s)

  -- What a revoke does to the host.
  unfoldable pub reverse : Doc → State H → RevokeResult × State H
  unfolding run_rollback kind_can_roll_back
  reverse d s =
      if is_kb_note d.fm.kind
      then (not_reversed (codes "no rollback for this artifact"), s)
      else if d.fm.rollback
      then run_rollback d s
      else if kind_can_roll_back d.fm.kind
      then (not_reversed (codes "the artifact carries no rollback section"), s)
      else (not_reversed (codes "kind cannot reverse itself"), s)

  unfoldable pub revoke : String → String → Option String → State H → Outcome RevokeResult × State H
  unfolding read_file reverse revoke_artifact log_audit
  revoke id user reason s = elim (read_file s.world.files id) [
    | err e ↦ (raises (artifact_error e), s)
    | ok d ↦
        (let (outcome, s') = reverse d s in
          then_on (revoke_artifact env id user reason s'.world)
            (log_audit env "revoke" id (some user) (
              reversal reason (if outcome.rolled_back then "reversed" else "relabelled")
                outcome.reason))
            outcome s')
  ]
