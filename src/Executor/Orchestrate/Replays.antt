-- ===== src/Executor/Orchestrate/Replays.antt =====
-- What a replay of executor/orchestrator.py leaves of an applied artifact.
use homepilot_core_public.Base.{
  String, ◌≡◌, refl, ◌∙◌, inl, inr, arith, true, false, ◌&&◌, ◌||◌, Option, some, Bool-cases,
}
use homepilot_core_public.Base.Text.{Text}
use homepilot_core_public.Artifacts.Model.{
  approved, applied, failed, conflict, is_kb_note, ◌=ᵗ◌, ok, err, validate_transition,
}
use homepilot_core_public.Artifacts.World.{Doc, World, Env, read_file}
use homepilot_core_public.Artifacts.World.Reads.{status_at}
use homepilot_core_public.Artifacts.Cascade.{hash_matches}
use homepilot_core_public.Artifacts.Transitions.{checked_read, mark_failed}
use homepilot_core_public.Executor.Orchestrate.{
  RunResult, Reply, throws, replies, State, Parts, run_kind, settle_replay, replay, is_false,
  is_only_once,
}
use homepilot_core_public.Executor.Orchestrate.Applies.{status-log_audit}

module _ (env : Env) where
  -- An applied artifact cannot be marked as failed.
  mark_failed-conflict :
      (id reason : String) (log : Text) (w : World) (d : Doc)
      → read_file w.files id ≡ ok d
      → d.fm.status ≡ applied
      → mark_failed env id reason log w ≡ (err (conflict applied failed), w)
  unfolding mark_failed checked_read validate_transition
  mark_failed-conflict id reason log w d found done =
      let checked : checked_read env id failed w ≡ err (conflict applied failed) = ground arith in
      rw (mark_failed, checked) refl

module _ {H : Type 0} (env : Env) (hexdigest : Text → Text) (parts : Parts H) where
  settle-applied :
      (id : String) (snapshot_id : Option Text) (reply : Reply RunResult) (s : State H) (d : Doc)
      → read_file s.world.files id ≡ ok d
      → d.fm.status ≡ applied
      → status_at (settle_replay env hexdigest parts false id snapshot_id reply s).1.world id
        ≡ some applied
  unfolding settle_replay
  settle-applied id snapshot_id (throws reason) s d found done =
      rw (mark_failed-conflict env id reason _ s.world d found done) (rw found (rw done refl))
  settle-applied id snapshot_id (replies result) s d found done = elim (Bool-cases result.success) [
    | inl well ↦
        rw (settle_replay, well)
          (status-log_audit env _ id _ _ s.world id ∙ rw found (rw done refl))
    | inr ill ↦
        rw (settle_replay, ill) (status-log_audit env _ id _ _ s.world id ∙ rw found (rw done refl))
  ]

  -- A replay leaves an applied artifact applied, on every branch: a refusal, a success, a failure, and
  -- an executor that throws, provided that its own file is as it was when the run is over.
  pub replay_keeps_applied :
      (id : String) (s : State H) (d : Doc)
      → read_file s.world.files id ≡ ok d
      → d.fm.status ≡ applied
      → read_file (run_kind env hexdigest parts d s).1.world.files id ≡ ok d
      → status_at (replay env hexdigest parts id s).1.world id ≡ some applied
  unfolding replay
  replay_keeps_applied id s d found done kept =
      let at : status_at s.world id ≡ some applied = rw found (rw done refl) in
      let (run, s') = run_kind env hexdigest parts d s in
      let other : d.fm.status =ᵗ approved ≡ false = ground arith in
      let known : d.fm.status =ᵗ approved || d.fm.status =ᵗ applied ≡ true = ground arith in
      elim (Bool-cases (is_kb_note d.fm.kind)) [
        | inl kb ↦ rw (replay, found, kb) at
        | inr acts ↦ elim (Bool-cases (is_false d.fm.replay_safe && d.fm.status =ᵗ applied)) [
          | inl unsafe ↦ rw (replay, found, acts, unsafe) at
          | inr safe ↦ elim (Bool-cases (is_only_once d.fm.idempotence && d.fm.status =ᵗ applied)) [
            | inl once ↦ rw (replay, found, acts, safe, once) at
            | inr often ↦ elim (Bool-cases (hash_matches env d)) [
              | inr altered ↦ rw (replay, found, acts, safe, often, known, altered) at
              | inl sealed ↦
                  rw (replay, found, acts, safe, often, known, sealed, other)
                    (settle-applied id run.snapshot_id run.reply s' d kept done)
            ]
          ]
        ]
      ]
