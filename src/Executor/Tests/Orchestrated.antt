-- ===== src/Executor/Tests/Orchestrated.antt =====
-- Runs of the orchestrator on one artifact, `unit`, which changes a guest of a node and can be rolled
-- back. The host is the list of what was done to it.
use homepilot_core_public.Base.{
  String, ◌≡◌, refl, inl, inr, true, none, some, List, [], ◌∷◌, ◌++◌, arith,
}
use homepilot_core_public.Base.Text.{Text, codes}
use homepilot_core_public.Base.Dict.{lookup}
use homepilot_core_public.Artifacts.Model.{
  ArtifactKind, shell_script, ArtifactStatus, approved, applied, revoked, proposed, ok,
}
use homepilot_core_public.Artifacts.Body.{
  drop_start, extract_body, universal_newlines, translate, compute_body_hash,
}
use homepilot_core_public.Artifacts.Spec.{other}
use homepilot_core_public.Artifacts.World.{Doc, Env, read_file}
use homepilot_core_public.Artifacts.World.Reads.{status_at}
use homepilot_core_public.Artifacts.Cascade.{hash_matches}
use homepilot_core_public.Executor.Orchestrate.{
  RunResult, Reply, throws, replies, State, Parts, RevokeResult, returns, apply, replay, revoke,
  run_kind, maybe_snapshot,
}
use homepilot_core_public.Executor.Orchestrate.Guard.{
  MayRun, MayReplay, with_executors, apply_guarded, replay_guarded,
}
use homepilot_core_public.Executor.Orchestrate.Applies.{ended, went_well, apply_ends}
use homepilot_core_public.Executor.Orchestrate.Replays.{replay_keeps_applied}
use homepilot_core_public.Executor.Orchestrate.Revokes.{Reversed, revoke_answers}

abbrev env : Env
env = record {
  hexdigest = λ t. "full";
  safe_load = λ t. other;
  has_db = true;
  db_works = λ id. true;
  now = λ id. "2025-01-01T00:00:00Z";
}

abbrev unit : ArtifactStatus → Doc
unit status = record {
  fm = record {
    id = "unit";
    kind = shell_script;
    intent = "install";
    status = status;
    mutating = true;
    hash = some "sha256:full";
    idempotence = none;
    target_kind = "vm";
    target_vmid = some 100;
    target_node = some "pve";
    rollback = true;
    replay_safe = none;
    requires_snapshot = none;
    approved_by = none;
    applied_at = none;
    failed_at = none;
    failure_reason = none;
    superseded_by = none;
    rejected_by = none;
    revoked_by = none;
  };
  body = codes "run";
}

abbrev done : String → State (List String) → State (List String)
done what s = record s { host = s.host ++ what ∷ [] }

abbrev well : Reply RunResult
well = replies (record { success = true; execution_log = codes "fine"; failure_reason = none })

abbrev parts : Parts (List String)
parts = record {
  execute = λ kind d s. (well, done "ran" s);
  undo = λ kind d s. (well, done "undone" s);
  snapshot = λ node vmid name s. (replies tt, done "snapshot" s);
}

abbrev start : ArtifactStatus → State (List String)
start status = record {
  world = record {
    files = ("unit", unit status) ∷ [];
    mirror = [];
    codes = [];
    audit = [];
    commits = [];
  };
  host = [];
}

abbrev hex : Text → Text
hex t = codes "0123456789"

applied_host : (apply env hex parts "unit" "ann" (start approved)).1.host ≡ "snapshot" ∷ "ran" ∷ []
unfolding apply lookup
applied_host = refl

reversed_host : (revoke env hex parts "unit" "ann" none (start applied)).1.host ≡ "undone" ∷ []
unfolding revoke lookup
reversed_host = refl

unit_found :
    (status : ArtifactStatus) → read_file (start status).world.files "unit" ≡ ok (unit status)
unfolding read_file lookup drop_start universal_newlines translate extract_body
unit_found status = refl

kept_file :
    (status : ArtifactStatus)
    → read_file (run_kind env hex parts (unit status) (start status)).1.world.files "unit"
      ≡ ok (unit status)
unfolding run_kind maybe_snapshot read_file lookup drop_start universal_newlines translate
    extract_body
kept_file status = refl

abbrev never : ArtifactKind → Doc → State (List String) → Reply RunResult × State (List String)
never kind d s = (throws "no", s)

status_found :
    (status : ArtifactStatus) (d : Doc)
    → read_file (start status).world.files "unit" ≡ ok d
    → d.fm.status ≡ status
status_found status d h = ground (arith, unit_found status, h)

not_granted : ¬ (
    (d : Doc) × (read_file (start proposed).world.files "unit" ≡ ok d)
    × (d.fm.status ≡ approved)
    × MayRun env hex parts d (start proposed))
not_granted (d, found, granted, may) = absurd (ground (arith, status_found proposed d found))

gone : ¬ (
    (d : Doc) × (read_file (start revoked).world.files "unit" ≡ ok d)
    × MayReplay env hex parts never (start revoked) d.fm
    × MayRun env hex parts d (start revoked))
gone (d, found, inl granted, may) = absurd (ground (arith, status_found revoked d found))
gone (d, found, inr again, may) = absurd (ground (arith, status_found revoked d found))

sealed : hash_matches env (unit approved) ≡ true
unfolding compute_body_hash
sealed = refl

abbrev reply : RevokeResult
reply = record {
  rolled_back = true;
  reason = codes "rollback executed";
  execution_log = codes "fine";
}

undone :
    revoke env hex parts "unit" "ann" none (start applied)
    ≡ (returns reply, (revoke env hex parts "unit" "ann" none (start applied)).1)
unfolding revoke lookup
undone = refl

-- A proposed artifact does not run.
apply_guarded_example :
    apply env hex (with_executors env hex parts never) "unit" "ann" (start proposed)
    ≡ apply env hex parts "unit" "ann" (start proposed)
apply_guarded_example = apply_guarded env hex parts never (start proposed) "unit" "ann" not_granted

replay_guarded_example :
    replay env hex (with_executors env hex parts never) "unit" (start revoked)
    ≡ replay env hex parts "unit" (start revoked)
replay_guarded_example = replay_guarded env hex parts never (start revoked) "unit" gone

apply_ends_example :
    status_at (apply env hex parts "unit" "ann" (start approved)).1.world "unit"
    ≡ some (ended (went_well (run_kind env hex parts (unit approved) (start approved)).0.reply))
apply_ends_example =
    apply_ends env hex parts "unit" "ann" (start approved) (unit approved) (unit_found approved)
      refl refl sealed (kept_file approved)

replay_keeps_applied_example :
    status_at (replay env hex parts "unit" (start applied)).1.world "unit" ≡ some applied
replay_keeps_applied_example =
    replay_keeps_applied env hex parts "unit" (start applied) (unit applied) (unit_found applied)
      refl (kept_file applied)

revoke_answers_example :
    (status_at (revoke env hex parts "unit" "ann" none (start applied)).1.world "unit"
      ≡ some revoked)
    × (reply.rolled_back ≡ true → Reversed env hex parts (unit applied) (start applied))
revoke_answers_example =
    revoke_answers env hex parts "unit" "ann" none (start applied)
      (revoke env hex parts "unit" "ann" none (start applied)).1 (unit applied) reply
      (unit_found applied) undone
