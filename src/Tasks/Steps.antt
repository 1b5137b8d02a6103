-- ===== src/Tasks/Steps.antt =====
-- The table of the tasks over time: the statements of tasks/repository.py that write to it, in any
-- order and for any task. Nothing is said of who runs them, so the runs, the starts and the cancels
-- of several requests and processes may interleave between any two.
use homepilot_core_public.Base.{ℕ, String, ◌≡◌, false, Option, some, List}
use homepilot_core_public.Base.Text.{Text}
use homepilot_core_public.Tasks.{
  Task, TaskStatus, is_cancelled, create_task, create_task_if_no_active, update_task_status,
  cancel_task, record_cancel_outcome, fail_orphaned_tasks,
}
use homepilot_core_public.Tasks.Sound.{
  IsSound, create-IsSound, create_if-IsSound, write-IsSound, cancel-IsSound, note-IsSound,
  orphans-IsSound,
}

-- A task inserted, with or without the test for an active one, a status written, which is never
-- `cancelled`, a cancel, the outcome of a cancel, or the sweep of a restart.
pub data Step : List Task → List Task → Type 0 where
  creates :
      (id x : String) (now : ℕ) (artifact_id : Option String) (action : String) (ts us : List Task)
      → create_task id now artifact_id action ts ≡ some (x, us)
      → Step ts us
  creates_alone :
      (id : String) (x : Option String) (now : ℕ) (artifact action : String) (ts us : List Task)
      → create_task_if_no_active id now artifact action ts ≡ some (x, us)
      → Step ts us
  writes :
      (now : ℕ) (id : String) (status : TaskStatus) (error : Option String) (json : Option Text)
      (ts : List Task)
      → is_cancelled status ≡ false
      → Step ts (update_task_status now id status error json ts)
  cancels : (now : ℕ) (id : String) (ts : List Task) → Step ts (cancel_task now id ts).1
  notes :
      (id : String) (json : Option Text) (error : Option String) (ts : List Task)
      → Step ts (record_cancel_outcome id json error ts).1
  restarts : (now : ℕ) (ts : List Task) → Step ts (fail_orphaned_tasks now ts).0

Step-IsSound : (ts us : List Task) → Step ts us → IsSound ts → IsSound us
Step-IsSound ts us (creates id x now artifact_id action _ _ made) s =
    create-IsSound id now artifact_id action ts us x made s
Step-IsSound ts us (creates_alone id x now artifact action _ _ made) s =
    create_if-IsSound id now artifact action ts us x made s
Step-IsSound ts _ (writes now id status error json _ h) s =
    write-IsSound now id status error json ts h s
Step-IsSound ts _ (cancels now id _) s = cancel-IsSound now id ts s
Step-IsSound ts _ (notes id json error _) s = note-IsSound id json error ts s
Step-IsSound ts _ (restarts now _) s = orphans-IsSound now ts s

-- Any number of steps.
pub data History : List Task → List Task → Type 0 where
  stop : (ts : List Task) → History ts ts
  more : (ts us vs : List Task) → Step ts us → History us vs → History ts vs

-- Whatever is inserted, written, cancelled, noted and swept, in any order: in a table that is reached
-- from a sound one, such as the empty one, the action of each task has the artifact id that it
-- needs, and none where it takes none, and a finish time stands exactly in the rows of the tasks
-- that are neither pending nor running.
pub History-IsSound : (ts us : List Task) → History ts us → IsSound ts → IsSound us
History-IsSound ts _ (stop _) s = s
History-IsSound ts us (more _ vs _ step rest) s =
    History-IsSound vs us rest (Step-IsSound ts vs step s)
