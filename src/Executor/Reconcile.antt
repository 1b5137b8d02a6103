-- ===== src/Executor/Reconcile.antt =====
-- `apply_single` of reconciler/apply.py, which puts a row into the audit where the executor refuses.
-- The text of an exception is a parameter, and the answer is the executor's.
use homepilot_core_public.Base.{String, Bool, true, false, some, if◌then◌else◌}
use homepilot_core_public.Base.Text.{Text}
use homepilot_core_public.Artifacts.World.{Env, because, log_audit}
use homepilot_core_public.Executor.Orchestrate.{
  ExecutionResult, Failure, artifact_error, Outcome, raises, returns, State, Parts, on_world, apply,
}

-- An ExecutorError, of which TamperError is one.
abbrev is_executor_error : Failure → Bool
is_executor_error (artifact_error e) = false
is_executor_error _ = true

module _ {H : Type 0} (env : Env) (hexdigest : Text → Text) (parts : Parts H)
    (str : Failure → String) where
  unfoldable pub noted :
      String → String → Outcome ExecutionResult × State H → Outcome ExecutionResult × State H
  unfolding log_audit
  noted id user (returns r, s) = (returns r, s)
  noted id user (raises e, s) = (
    raises e,
    if is_executor_error e
        then on_world env hexdigest parts
            (log_audit env "apply_failed" id (some user) (because (str e))) s
        else s,
  )

  unfoldable pub apply_single : String → String → State H → Outcome ExecutionResult × State H
  unfolding apply noted
  apply_single id user s = noted id user (apply env hexdigest parts id user s)
