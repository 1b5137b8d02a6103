-- ===== src/Executor/Orchestrate/Revokes.antt =====
-- What a revoke of executor/orchestrator.py answers.
use homepilot_core_public.Base.{
  String, ◌≡◌, refl, sym, ◌∙◌, ap, inl, inr, arith, true, Option, some, Bool-cases, eq_iff,
}
use homepilot_core_public.Base.Text.{Text}
use homepilot_core_public.Artifacts.Model.{revoked, is_kb_note, Result, ok, err, Result-cases}
use homepilot_core_public.Artifacts.World.{Doc, World, Env, read_file}
use homepilot_core_public.Artifacts.World.Reads.{status_at}
use homepilot_core_public.Artifacts.Transitions.{checked_read, revoke_artifact}
use homepilot_core_public.Artifacts.Transitions.Status.{status-record_change}
use homepilot_core_public.Executor.Reversal.{kind_can_roll_back}
use homepilot_core_public.Executor.Orchestrate.{
  RunResult, RevokeResult, Outcome, returns, replies, State, Parts, run_rollback, reverse, revoke,
  then_on,
}
use homepilot_core_public.Executor.Orchestrate.Guard.{Reply-cases}
use homepilot_core_public.Executor.Orchestrate.Applies.{status-log_audit}

revoke_artifact-status :
    (env : Env) (id user : String) (reason : Option String) (w : World)
    → (revoke_artifact env id user reason w).0 ≡ ok tt
    → status_at (revoke_artifact env id user reason w).1 id ≡ some revoked
unfolding revoke_artifact
revoke_artifact-status env id user reason w h =
    elim (Result-cases (checked_read env id revoked w)) [
      | inl (e, r) ↦ absurd (ground arith)
      | inr (d, r) ↦
          rw (revoke_artifact, r)
            (status-record_change env id id _ _ _ _ _ _ w ∙ rw ((eq_iff id id).1 refl) refl)
    ]

module _ {H : Type 0} (env : Env) (hexdigest : Text → Text) (parts : Parts H) where
  -- The rollback of the kind ran on this artifact, and replied that it succeeded.
  abbrev pub Reversed : Doc → State H → Type 0
  Reversed d s =
      (d.fm.rollback ≡ true)
      × (kind_can_roll_back d.fm.kind ≡ true)
      × ((result : RunResult) × ((parts.undo d.fm.kind d s).0 ≡ replies result)
          × (result.success ≡ true))

  run_rollback-Reversed :
      (d : Doc) (s : State H)
      → d.fm.rollback ≡ true
      → (run_rollback env hexdigest parts d s).0.rolled_back ≡ true
      → Reversed d s
  unfolding run_rollback
  run_rollback-Reversed d s claimed h = elim (Bool-cases (kind_can_roll_back d.fm.kind)) [
    | inl can ↦ elim (Reply-cases (parts.undo d.fm.kind d s).0) [
      | inl (reason, threw) ↦ absurd (ground arith)
      | inr (result, replied) ↦ (claimed, can, (result, replied, ground arith))
    ]
    | inr cannot ↦ absurd (ground arith)
  ]

  reverse-Reversed :
      (d : Doc) (s : State H)
      → (reverse env hexdigest parts d s).0.rolled_back ≡ true
      → Reversed d s
  unfolding reverse
  reverse-Reversed d s h = elim (Bool-cases (is_kb_note d.fm.kind)) [
    | inl kb ↦ absurd (ground arith)
    | inr acts ↦ elim (Bool-cases d.fm.rollback) [
      | inl claimed ↦ run_rollback-Reversed d s claimed (ground arith)
      | inr plain ↦ absurd (ground arith)
    ]
  ]

  -- What stands behind a transition that has gone through.
  then_on-returns :
      {A : Type 0} (p : Result (Unit {0}) × World) (more : World → World) (a b : A) (s s' : State H)
      → then_on env hexdigest parts p more a s ≡ (returns b, s')
      → (p.0 ≡ ok tt) × (a ≡ b) × (s'.world ≡ more p.1)
  then_on-returns {A = A} (err e, w) more a b s s' h = absurd (ground arith)
  then_on-returns {A = A} (ok _, w) more a b s s' h =
      (refl, ground arith, ap (λ (p : Outcome A × State H). p.1.world) (sym h))

  -- A revoke that returns leaves the artifact revoked, and says that the change was rolled back only
  -- where the artifact has a rollback, its kind can reverse itself, and the rollback has run on it
  -- and replied that it succeeded.
  pub revoke_answers :
      (id user : String) (reason : Option String) (s s' : State H) (d : Doc) (r : RevokeResult)
      → read_file s.world.files id ≡ ok d
      → revoke env hexdigest parts id user reason s ≡ (returns r, s')
      → (status_at s'.world id ≡ some revoked) × (r.rolled_back ≡ true → Reversed d s)
  unfolding revoke
  revoke_answers id user reason s s' d r found h =
      let (outcome, t) = reverse env hexdigest parts d s in
      let (gone, same, world) =
        then_on-returns (revoke_artifact env id user reason t.world) _ outcome r t s'
          (rw (revoke, found) at h) in
      (
        ap (λ (v : World). status_at v id) world
            ∙ status-log_audit env _ id _ _ (revoke_artifact env id user reason t.world).1 id
            ∙ revoke_artifact-status env id user reason t.world gone,
        λ rolled. reverse-Reversed d s (ap (λ (x : RevokeResult). x.rolled_back) same ∙ rolled),
      )
