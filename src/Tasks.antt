-- ===== src/Tasks.antt =====
-- tasks/repository.py: the table of the tasks, oldest first. The ids that `uuid4` draws and the clock
-- are arguments, `created_at` and `finished_at` are numbers of seconds. A ValueError is `none`.
pub mod Runner
pub mod Ends
pub mod Exclusive
pub mod Sound
pub mod Steps
mod Tests
use homepilot_core_public.Base.{
  ℕ, suc, String, Bool, true, false, ◌&&◌, ◌||◌, not, Option, none, some, List, [], ◌∷◌, ◌++◌, ◌=ˢ◌,
  ◌∈ˢ◌, ltb, is_some, if◌then◌else◌, length,
}
use homepilot_core_public.Base.Text.{Text}

-- The statuses that the code writes.
pub data TaskStatus : Type 0 where
  pending running succeeded failed cancelled : TaskStatus

pub record Task : Type 0 where
  pub id : String
  pub artifact_id : Option String
  pub action : String
  pub status : TaskStatus
  pub created_at : ℕ
  pub finished_at : Option ℕ
  pub error : Option String
  pub result_json : Option Text

abbrev pub artifactless_actions : List String
artifactless_actions = "provision" ∷ "install_agent" ∷ "create_guest_template" ∷ "tailnet_join" ∷ []

abbrev pub valid_actions : List String
valid_actions = "apply" ∷ "revoke" ∷ "replay" ∷ artifactless_actions

-- `_validate_action` returns.
unfoldable pub validate_action : String → Option String → Bool
validate_action action artifact_id =
    action ∈ˢ valid_actions
    && (if action ∈ˢ artifactless_actions then not (is_some artifact_id) else is_some artifact_id)

-- `status IN ('pending', 'running')`
abbrev pub is_active : TaskStatus → Bool
is_active pending = true
is_active running = true
is_active _ = false

-- `artifact_id = ?`, which no NULL answers.
abbrev pub is_for : String → Option String → Bool
is_for artifact none = false
is_for artifact (some a) = a =ˢ artifact

abbrev pub is_active_for : String → Task → Bool
is_active_for artifact t = is_for artifact t.artifact_id && is_active t.status

abbrev pub new_task : String → ℕ → Option String → String → Task
new_task id now artifact_id action = record {
  id = id;
  artifact_id = artifact_id;
  action = action;
  status = pending;
  created_at = now;
  finished_at = none;
  error = none;
  result_json = none;
}

unfoldable pub has_active_task : String → List Task → Bool
has_active_task artifact [] = false
has_active_task artifact (t ∷ tasks) = is_active_for artifact t || has_active_task artifact tasks

unfoldable pub create_task :
    String → ℕ → Option String → String → List Task → Option (String × List Task)
unfolding validate_action
create_task id now artifact_id action tasks =
    if validate_action action artifact_id
    then some (id, tasks ++ new_task id now artifact_id action ∷ [])
    else none

-- The id of the task that was created, if it was.
unfoldable pub create_task_if_no_active :
    String → ℕ → String → String → List Task → Option (Option String × List Task)
unfolding validate_action has_active_task
create_task_if_no_active id now artifact action tasks =
    if not (validate_action action (some artifact))
    then none
    else if has_active_task artifact tasks
    then some (none, tasks)
    else some (some id, tasks ++ new_task id now (some artifact) action ∷ [])

unfoldable pub get_task : String → List Task → Option Task
get_task id [] = none
get_task id (t ∷ tasks) = let rest = get_task id tasks in if t.id =ˢ id then some t else rest

-- An UPDATE of the rows with an id that pass a test.
unfoldable pub update_rows : String → (Task → Bool) → (Task → Task) → List Task → List Task
update_rows id where_ set [] = []
update_rows id where_ set (t ∷ tasks) =
    let rest = update_rows id where_ set tasks in
    (if t.id =ˢ id && where_ t then set t else t) ∷ rest

abbrev pub is_over : TaskStatus → Bool
is_over succeeded = true
is_over failed = true
is_over _ = false

abbrev pub updated : ℕ → TaskStatus → Option String → Option Text → Task → Task
updated now status error result_json t = record t {
  status = status;
  finished_at = if is_over status then some now else none;
  error = error;
  result_json = result_json;
}

unfoldable pub update_task_status :
    ℕ → String → TaskStatus → Option String → Option Text → List Task → List Task
unfolding update_rows
update_task_status now id status error result_json tasks =
    update_rows id (λ t. true) (updated now status error result_json) tasks

-- A row cancelled.
abbrev pub cancel_row : ℕ → Task → Task
cancel_row now t = record t { status = cancelled; finished_at = some now }

unfoldable pub cancel_task : ℕ → String → List Task → Option Task × List Task
unfolding get_task update_rows
cancel_task now id tasks = elim (get_task id tasks) [
  | none ↦ (none, tasks)
  | some t ↦
      if not (is_active t.status)
      then (some t, tasks)
      else (let tasks' = update_rows id (λ t. is_active t.status) (cancel_row now) tasks in
          (get_task id tasks', tasks'))
]

abbrev pub is_cancelled : TaskStatus → Bool
is_cancelled cancelled = true
is_cancelled _ = false

unfoldable pub record_cancel_outcome :
    String → Option Text → Option String → List Task → Option Task × List Task
unfolding get_task update_rows
record_cancel_outcome id result_json error tasks =
    let tasks' =
      update_rows id (λ t. is_cancelled t.status)
        (λ t. record t { result_json = result_json; error = error }) tasks in
    (get_task id tasks', tasks')

-- Of two rows the newer one, the first where they are of the same second.
abbrev pub newer : Task → Option Task → Task
newer t none = t
newer t (some u) = if ltb t.created_at u.created_at then u else t

unfoldable pub get_active_task : String → List Task → Option Task
get_active_task artifact [] = none
get_active_task artifact (t ∷ tasks) =
    let rest = get_active_task artifact tasks in
    if is_active_for artifact t then some (newer t rest) else rest

unfoldable pub orphan : ℕ → Task → Task
orphan now t =
    if is_active t.status
    then record t { status = failed; error = some "orphaned_after_restart"; finished_at = some now }
    else t

-- The table, and the number of the rows that it changed.
unfoldable pub fail_orphaned_tasks : ℕ → List Task → List Task × ℕ
unfolding orphan
fail_orphaned_tasks now [] = ([], 0)
fail_orphaned_tasks now (t ∷ tasks) =
    let (rest, n) = fail_orphaned_tasks now tasks in
    (orphan now t ∷ rest, if is_active t.status then suc n else n)

-- `WHERE artifact_id = ?`, or none.
unfoldable pub scoped : Option String → List Task → List Task
scoped none tasks = tasks
scoped (some a) [] = []
scoped (some a) (t ∷ tasks) =
    let rest = scoped (some a) tasks in if is_for a t.artifact_id then t ∷ rest else rest

unfoldable pub count_tasks : Option String → List Task → ℕ
unfolding scoped
count_tasks artifact tasks = length (scoped artifact tasks)
