-- ===== src/Executor/Orchestrate/Applies.antt =====
-- How an apply of executor/orchestrator.py ends.
use homepilot_core_public.Base.{
  String, ◌≡◌, refl, ◌∙◌, ap, inl, inr, arith, Bool, true, false, Option, some, if◌then◌else◌,
  Bool-cases, eq_iff,
}
use homepilot_core_public.Base.Text.{Text}
use homepilot_core_public.Artifacts.Model.{
  ArtifactStatus, approved, applied, failed, is_kb_note, ◌=ᵗ◌, Result, ok, err, validate_transition,
}
use homepilot_core_public.Artifacts.World.{Doc, World, Env, Details, read_file, log_audit}
use homepilot_core_public.Artifacts.World.Reads.{status_at, status_of, files-log_audit}
use homepilot_core_public.Artifacts.Cascade.{hash_matches}
use homepilot_core_public.Artifacts.Transitions.{checked_read, mark_applied, mark_failed}
use homepilot_core_public.Artifacts.Transitions.Status.{status-record_change}
use homepilot_core_public.Executor.Orchestrate.{
  RunResult, Reply, throws, replies, State, Parts, run_kind, settle_apply, apply, then_on,
}

module _ (env : Env) where
  pub status-log_audit :
      (action id : String) (user : Option String) (info : Details) (w : World) (j : String)
      → status_at (log_audit env action id user info w) j ≡ status_at w j
  status-log_audit action id user info w j =
      ap (λ files. status_of (read_file files j)) (files-log_audit env action id user info w)

  -- The transitions of a run that is over go through on an approved artifact.
  pub mark_applied-ok :
      (id : String) (log : Text) (w : World) (d : Doc)
      → read_file w.files id ≡ ok d
      → d.fm.status ≡ approved
      → ((mark_applied env id log w).0 ≡ ok tt)
        × (status_at (mark_applied env id log w).1 id ≡ some applied)
  unfolding mark_applied checked_read validate_transition
  mark_applied-ok id log w d found granted =
      let checked : checked_read env id applied w ≡ ok d = ground arith in
      (
        rw (mark_applied, checked) refl,
        rw (mark_applied, checked)
            (status-record_change env id id _ _ _ _ _ _ w ∙ rw ((eq_iff id id).1 refl) refl),
      )

  pub mark_failed-ok :
      (id reason : String) (log : Text) (w : World) (d : Doc)
      → read_file w.files id ≡ ok d
      → d.fm.status ≡ approved
      → ((mark_failed env id reason log w).0 ≡ ok tt)
        × (status_at (mark_failed env id reason log w).1 id ≡ some failed)
  unfolding mark_failed checked_read validate_transition
  mark_failed-ok id reason log w d found granted =
      let checked : checked_read env id failed w ≡ ok d = ground arith in
      (
        rw (mark_failed, checked) refl,
        rw (mark_failed, checked)
            (status-record_change env id id _ _ _ _ _ _ w ∙ rw ((eq_iff id id).1 refl) refl),
      )

-- The artifact is applied where the run went well, and failed otherwise.
abbrev pub ended : Bool → ArtifactStatus
ended success = if success then applied else failed

-- The executor replied, and with success.
abbrev pub went_well : Reply RunResult → Bool
went_well (throws reason) = false
went_well (replies result) = result.success

module _ {H : Type 0} (env : Env) (hexdigest : Text → Text) (parts : Parts H) where
  then_on-status :
      {A : Type 0} (id j action user : String) (info : Details) (p : Result (Unit {0}) × World)
      (a : A) (s : State H)
      → p.0 ≡ ok tt
      → status_at
          (then_on env hexdigest parts p (log_audit env action id (some user) info) a s).1.world
          j
        ≡ status_at p.1 j
  then_on-status id j action user info (err e, w) a s h = absurd (cc h)
  then_on-status id j action user info (ok _, w) a s h =
      status-log_audit env action id (some user) info w j

  settle-status :
      (id user : String) (snapshot_id : Option Text) (reply : Reply RunResult) (s : State H)
      (d : Doc)
      → read_file s.world.files id ≡ ok d
      → d.fm.status ≡ approved
      → status_at (settle_apply env hexdigest parts id user snapshot_id reply s).1.world id
        ≡ some (ended (went_well reply))
  unfolding settle_apply
  settle-status id user snapshot_id (throws reason) s d found granted =
      let (through, at) = mark_failed-ok env id reason _ s.world d found granted in
      then_on-status id id _ _ _ _ _ s through ∙ at
  settle-status id user snapshot_id (replies result) s d found granted =
      elim (Bool-cases result.success) [
        | inl well ↦
            let (through, at) =
              mark_applied-ok env id result.execution_log s.world d found granted in
            rw (settle_apply, well) (then_on-status id id _ _ _ _ _ s through ∙ at)
        | inr ill ↦
            let (through, at) =
              mark_failed-ok env id _ result.execution_log s.world d found granted in
            rw (settle_apply, ill) (then_on-status id id _ _ _ _ _ s through ∙ at)
      ]

  -- An apply of an approved artifact that matches its hash ends it: it is applied where the executor
  -- of its kind replied with success, and failed where that replied without, or the executor or the
  -- snapshot before it threw. The artifact is of a kind that acts, and its own file is as it was when
  -- the run is over.
  pub apply_ends :
      (id user : String) (s : State H) (d : Doc)
      → read_file s.world.files id ≡ ok d
      → is_kb_note d.fm.kind ≡ false
      → d.fm.status ≡ approved
      → hash_matches env d ≡ true
      → read_file (run_kind env hexdigest parts d s).1.world.files id ≡ ok d
      → status_at (apply env hexdigest parts id user s).1.world id
        ≡ some (ended (went_well (run_kind env hexdigest parts d s).0.reply))
  unfolding apply
  apply_ends id user s d found acts granted sealed kept =
      let (run, s') = run_kind env hexdigest parts d s in
      let is_approved : d.fm.status =ᵗ approved ≡ true = ground arith in
      rw (apply, found, acts, is_approved, sealed)
        (settle-status id user run.snapshot_id run.reply s' d kept granted)
