-- ===== src/Artifacts/Lifecycle.antt =====
-- `approve` and `reject` of artifacts/lifecycle.py: the transition, and then the approval code goes.
-- The webhook events are not modelled.
pub mod Codes
use homepilot_core_public.Base.{String, Option, none}
use homepilot_core_public.Artifacts.Model.{Result, ok, err}
use homepilot_core_public.Artifacts.World.{World, Env, Action, clear_approval_code}
use homepilot_core_public.Artifacts.Transitions.{approve_artifact, reject_artifact}

module _ (env : Env) where
  -- What stands behind a transition that has not raised.
  abbrev pub then_clear : String → Result (Unit {0}) × World → Result (Unit {0}) × World
  then_clear id (err e, w) = (err e, w)
  then_clear id (ok _, w) = (ok tt, clear_approval_code env id w)

  unfoldable pub lifecycle_approve : String → String → Option String → Action (Unit {0})
  unfolding clear_approval_code
  lifecycle_approve id user reason w = then_clear id (approve_artifact env id user reason none w)

  unfoldable pub lifecycle_reject : String → String → Option String → Action (Unit {0})
  unfolding clear_approval_code
  lifecycle_reject id user reason w = then_clear id (reject_artifact env id user reason none w)
