-- ===== src/Artifacts/Machine.antt =====
-- The state machine of artifacts/transitions.py as a whole: every operation on every artifact, in
-- any order. An operation that raises leaves the state that it returns.
pub mod Moves
pub mod Unique
pub mod Runs
use homepilot_core_public.Base.{String, Option, Bool, ◌&&◌, ◌||◌, List, [], ◌∷◌}
use homepilot_core_public.Base.Text.{Text}
use homepilot_core_public.Artifacts.Model.{
  ArtifactStatus, proposed, approved, failed, ◌=ᵗ◌, valid_transitions, allows,
}
use homepilot_core_public.Artifacts.World.{World, Env}
use homepilot_core_public.Artifacts.Transitions.{
  approve_artifact, reject_artifact, mark_applied, mark_failed, supersede_artifact, revoke_artifact,
}
use homepilot_core_public.Artifacts.Invalidate.{edit_artifact}

-- The calls of the manager.
pub data Op : Type 0 where
  approve reject : String → String → Option String → Option String → Op
  edit : String → Op
  apply : String → Text → Op
  fail : String → String → Text → Op
  supersede : String → String → Op
  revoke : String → String → Option String → Op

unfoldable pub step : Env → Op → World → World
step env (approve id user reason role) w = (approve_artifact env id user reason role w).1
step env (reject id user reason role) w = (reject_artifact env id user reason role w).1
step env (edit id) w = (edit_artifact env id w).1
step env (apply id log) w = (mark_applied env id log w).1
step env (fail id reason log) w = (mark_failed env id reason log w).1
step env (supersede old new) w = (supersede_artifact env old new w).1
step env (revoke id user reason) w = (revoke_artifact env id user reason w).1

unfoldable pub run : Env → List Op → World → World
run env [] w = w
run env (op ∷ ops) w = run env ops (step env op w)

-- The moves that one operation can make: the table's, and the edit's back to `proposed`.
abbrev pub moves : ArtifactStatus → ArtifactStatus → Bool
moves s t =
    s =ᵗ t || allows (valid_transitions s) t || (s =ᵗ approved || s =ᵗ failed) && t =ᵗ proposed
