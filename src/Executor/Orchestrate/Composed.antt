-- ===== src/Executor/Orchestrate/Composed.antt =====
-- The orchestrator in the place that executor/composite.py leaves for it: the steps of a composite are
-- applied and revoked by `ArtifactExecutor` of executor/orchestrator.py.
use homepilot_core_public.Base.{
  String, ◌<>◌, ◌≡◌, refl, ◌≢◌, eq_iff, ◌∙◌, ap, ◌⊎◌, inl, inr, arith, true, false, Option, none,
  some, if◌then◌else◌, Bool-cases,
}
use homepilot_core_public.Base.Text.{Text, codes}
use homepilot_core_public.Artifacts.Model.{
  applied, is_kb_note, ◌=ᵗ◌, approved, Result, ok, err, Result-cases,
}
use homepilot_core_public.Artifacts.World.{Doc, World, Env, because, log_audit, read_file}
use homepilot_core_public.Artifacts.World.Reads.{status_at}
use homepilot_core_public.Artifacts.Spec.{Step}
use homepilot_core_public.Executor.Composite.{
  Applied, success, failure, raised, Revoked, outcome, Orchestrator,
}
use homepilot_core_public.Executor.Composite.Turns.{Passes, was_applied, is_applied, is_missing}
use homepilot_core_public.Artifacts.Cascade.{hash_matches}
use homepilot_core_public.Artifacts.Transitions.{checked_read, mark_applied, mark_failed}
use homepilot_core_public.Artifacts.Transitions.Status.{status-record_change}
use homepilot_core_public.Executor.Orchestrate.Applies.{status-log_audit}
use homepilot_core_public.Executor.Orchestrate.{
  ExecutionResult, RevokeResult, Failure, Outcome, raises, returns, State, Parts, Reply, throws,
  replies, RunResult, then_on, settle_apply, run_kind, text_of, or_unknown, thrown, apply, revoke,
}

mark_applied-status :
    (env : Env) (id : String) (log : Text) (w : World)
    → (mark_applied env id log w).0 ≡ ok tt
    → status_at (mark_applied env id log w).1 id ≡ some applied
unfolding mark_applied
mark_applied-status env id log w h = elim (Result-cases (checked_read env id applied w)) [
  | inl (e, r) ↦ absurd (ground arith)
  | inr (d, r) ↦
      rw (mark_applied, r)
        (status-record_change env id id _ _ _ _ _ _ w ∙ rw ((eq_iff id id).1 refl) refl)
]

module _ {H : Type 0} (env : Env) (hexdigest : Text → Text) (parts : Parts H)
    (str : Failure → String) (plain : Text → String) where
  abbrev pub applied_as : Outcome ExecutionResult → Applied
  applied_as (raises e) = raised (str e)
  applied_as (returns r) =
      if r.result.success then success else failure (text_of r.result.failure_reason)

  abbrev pub revoked_as : Outcome RevokeResult → Revoked
  revoked_as (raises e) = raised (str e)
  revoked_as (returns r) = outcome r.rolled_back (plain r.reason)

  abbrev pub orchestrator : Orchestrator (State H)
  orchestrator = record {
    status = λ s id. status_at s.world id;
    apply = λ id s. (
      applied_as (apply env hexdigest parts id "composite" s).0,
      (apply env hexdigest parts id "composite" s).1,
    );
    revoke = λ id s. (
      revoked_as
          (revoke env hexdigest parts id "composite-rollback" (some "composite rollback") s).0,
      (revoke env hexdigest parts id "composite-rollback" (some "composite rollback") s).1,
    );
  }

  then_on-success :
      (p : Result (Unit {0}) × World) (more : World → World) (a : ExecutionResult) (s : State H)
      → applied_as (then_on env hexdigest parts p more a s).0 ≡ success
      → (p.0 ≡ ok tt)
        × (a.result.success ≡ true)
        × ((then_on env hexdigest parts p more a s).1.world ≡ more p.1)
  then_on-success (err e, w) more a s h = absurd (ground arith)
  then_on-success (ok _, w) more a s h = (refl, ground arith, refl)

  settle-success :
      (id user : String) (snapshot_id : Option Text) (reply : Reply RunResult) (s : State H)
      → applied_as (settle_apply env hexdigest parts id user snapshot_id reply s).0 ≡ success
      → status_at (settle_apply env hexdigest parts id user snapshot_id reply s).1.world id
        ≡ some applied
  unfolding settle_apply
  settle-success id user snapshot_id (throws reason) s h =
      let (gone, won, world) =
        then_on-success (mark_failed env id reason (codes ("Executor error: " <> reason)) s.world)
          (log_audit env "apply_failed" id (some user) (because reason))
          (thrown env hexdigest parts "Executor error: " reason snapshot_id) s h in
      absurd (ground (arith, won))
  settle-success id user snapshot_id (replies result) s h = elim (Bool-cases result.success) [
    | inr ill ↦
        let (gone, won, world) =
          then_on-success
            (mark_failed env id (or_unknown result.failure_reason) result.execution_log s.world)
            (log_audit env "apply_failed" id (some user) (because (text_of result.failure_reason)))
            (record {
              result = record {
                success = false;
                execution_log = result.execution_log;
                failure_reason = result.failure_reason;
              };
              snapshot_id = snapshot_id;
            })
            s (rw (settle_apply, ill) at h) in
        absurd (ground (arith, won, ill))
    | inl well ↦
        let (gone, won, world) = then_on-success _ _ _ s (rw (settle_apply, well) at h) in
        rw (settle_apply, well)
          (ap (λ (v : World). status_at v id) world
            ∙ status-log_audit env _ id _ _ _ id
            ∙ mark_applied-status env id result.execution_log s.world gone)
  ]

  -- Where the orchestrator reports success on an artifact of a kind that acts, the artifact is
  -- applied.
  pub apply_success :
      (id user : String) (s : State H) (d : Doc)
      → read_file s.world.files id ≡ ok d
      → is_kb_note d.fm.kind ≡ false
      → applied_as (apply env hexdigest parts id user s).0 ≡ success
      → status_at (apply env hexdigest parts id user s).1.world id ≡ some applied
  unfolding apply
  apply_success id user s d found acts h = elim (Bool-cases (d.fm.status =ᵗ approved)) [
    | inr other ↦ absurd (ground (arith, rw (apply, found, acts, other) at h))
    | inl granted ↦ elim (Bool-cases (hash_matches env d)) [
      | inr altered ↦ absurd (ground (arith, rw (apply, found, acts, granted, altered) at h))
      | inl sealed ↦
          let (run, s') = run_kind env hexdigest parts d s in
          rw (apply, found, acts, granted, sealed)
            (settle-success id user run.snapshot_id run.reply s'
              (rw (apply, found, acts, granted, sealed) at h))
    ]
  ]

  -- A step of a composite that is through, with this orchestrator, leaves its sub-artifact applied, or
  -- there is none and the step does not halt, where the sub-artifact is of a kind that acts.
  pub Passes-applied :
      (step : Step) (u v : State H)
      → ((d : Doc) → read_file u.world.files step.artifact ≡ ok d → is_kb_note d.fm.kind ≡ false)
      → Passes orchestrator step u v
      → (status_at v.world step.artifact ≡ some applied)
        ⊎ ((status_at u.world step.artifact ≡ none) × (step.on_error ≢ "halt"))
  Passes-applied step u _ acts (was_applied at) = inl at
  Passes-applied step u _ acts (is_missing none_there on) = inr (none_there, on)
  Passes-applied step u _ acts (is_applied s there fresh won) =
      elim (Result-cases (read_file u.world.files step.artifact)) [
        | inl (e, r) ↦ absurd (ground arith)
        | inr (d, r) ↦ inl (apply_success step.artifact "composite" u d r (acts d r) won)
      ]
