-- ===== src/Artifacts/Machine/Runs.antt =====
-- What holds of every sequence of operations.
use homepilot_core_public.Base.{
  String, ◌≡◌, refl, ◌≢◌, ◌⊎◌, inl, inr, true, some, List, [], ◌∷◌, ◌++◌, arith, Bool-cases,
}
use homepilot_core_public.Artifacts.Model.{
  ArtifactStatus, approved, rejected, applied, superseded, revoked, ◌=ᵗ◌, eq_of_same,
  valid_transitions,
}
use homepilot_core_public.Artifacts.World.{World, Env}
use homepilot_core_public.Artifacts.World.Reads.{status_at}
use homepilot_core_public.Artifacts.Machine.{Op, step, run, moves}
use homepilot_core_public.Artifacts.Machine.Moves.{step_moves}
use homepilot_core_public.Artifacts.Machine.Unique.{IsUnique, step-IsUnique}

-- The states that no transition leaves.
abbrev pub IsFinal : ArtifactStatus → Type 0
IsFinal s = (s ≡ rejected) ⊎ ((s ≡ superseded) ⊎ (s ≡ revoked))

final-stays : (s t : ArtifactStatus) → IsFinal s → moves s t ≡ true → t ≡ s
unfolding valid_transitions
final-stays s t f m = ground arith

applied-from : (s : ArtifactStatus) → moves s applied ≡ true → (s ≡ approved) ⊎ (s ≡ applied)
unfolding valid_transitions
applied-from s m = ground arith

module _ (env : Env) where
  -- Where no name has two files, one operation on any artifact leaves the status of each artifact as it
  -- is, moves it along VALID_TRANSITIONS, or takes it from approved or failed back to proposed.
  pub step_allowed :
      (op : Op) (w : World) (x : String) (s : ArtifactStatus)
      → IsUnique w
      → status_at w x ≡ some s
      → (t : ArtifactStatus) × (status_at (step env op w) x ≡ some t) × (moves s t ≡ true)
  step_allowed op w x s u h = step_moves env op w u x s h

  -- A store without two files of one name stays so under every sequence of operations.
  pub run-IsUnique : (ops : List Op) (w : World) → IsUnique w → IsUnique (run env ops w)
  unfolding run
  run-IsUnique [] w u = u
  run-IsUnique (op ∷ ops) w u = run-IsUnique ops (step env op w) (step-IsUnique env op w u)

  -- Where no name has two files, a rejected, superseded or revoked artifact keeps its status under
  -- every sequence of operations.
  pub final_forever :
      (ops : List Op) (w : World) (x : String) (s : ArtifactStatus)
      → IsUnique w
      → IsFinal s
      → status_at w x ≡ some s
      → status_at (run env ops w) x ≡ some s
  unfolding run
  final_forever [] w x s u f h = h
  final_forever (op ∷ ops) w x s u f h =
      let (t, e, m) = step_moves env op w u x s h in
      final_forever ops (step env op w) x s (step-IsUnique env op w u) f
        (cc (e, final-stays s t f m))

  -- Where no name has two files, an artifact that is applied after a sequence of operations, and was
  -- not before, was approved in between: some first part of the sequence leads to a state in which it
  -- is approved.
  pub applied_was_approved :
      (ops : List Op) (w : World) (x : String) (s : ArtifactStatus)
      → IsUnique w
      → status_at w x ≡ some s
      → s ≢ applied
      → status_at (run env ops w) x ≡ some applied
      → (before : List Op) × (after : List Op) × (before ++ after ≡ ops)
        × (status_at (run env before w) x ≡ some approved)
  unfolding run
  applied_was_approved [] w x s u h ne done = absurd (ground arith)
  applied_was_approved (op ∷ ops) w x s u h ne done =
      let (t, e, m) = step_moves env op w u x s h in
      elim (Bool-cases (t =ᵗ applied)) [
        | inl now ↦
            let was : s ≡ approved = ground (arith, applied-from s, eq_of_same t applied now) in
            ([], op ∷ ops, refl, cc (h, was))
        | inr later ↦
            let (before, after, split, found) =
              applied_was_approved ops (step env op w) x t (step-IsUnique env op w u) e
                (λ q. ground (arith, q)) done in
            (op ∷ before, after, cc split, found)
      ]
