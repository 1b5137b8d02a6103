-- ===== src/Tasks/Exclusive.antt =====
-- When `start_apply` of tasks/runner.py starts a run.
use homepilot_core_public.Base.{ℕ, String, ◌≡◌, ◌≢◌, true, false, some, List, [], ◌∷◌, ◌++◌, All}
use homepilot_core_public.Artifacts.Model.{approved}
use homepilot_core_public.Tasks.{Task, is_active_for, has_active_task, new_task}
use homepilot_core_public.Tasks.Runner.{
  Runner, Config, Start, started, already, artifact_missing, bad_status, in_progress, no_task,
}

-- The row is not active on the artifact.
abbrev pub Idle : String → Task → Type 0
Idle artifact t = is_active_for artifact t ≡ false

-- What a start answers, the table before it and the one behind it.
abbrev pub Answers : String → ℕ → String → List Task → List Task → Start → Type 0
Answers id now artifact ts us (started new) =
    All (Idle artifact) ts × (new ≡ id) × (us ≡ ts ++ new_task id now (some artifact) "apply" ∷ [])
Answers id now artifact ts us (already t) = (has_active_task artifact ts ≡ true) × (us ≡ ts)
Answers id now artifact ts us artifact_missing = us ≡ ts
Answers id now artifact ts us (bad_status status) = (status ≢ approved) × (us ≡ ts)
Answers id now artifact ts us (in_progress x status) = ⊥
Answers id now artifact ts us no_task = us ≡ ts

module _ {H : Type 0} (config : Config H) (id : String) (now : ℕ) (artifact : String)
    (r : Runner H) where
  abbrev Good : Start × Runner H → Type 0
  Good o = Answers id now artifact r.tasks o.1.tasks o.0
