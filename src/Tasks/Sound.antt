-- ===== src/Tasks/Sound.antt =====
-- What every write of tasks/repository.py keeps of the rows of the table.
use homepilot_core_public.Base.{
  ℕ, String, ◌≡◌, refl, inl, inr, arith, Bool, true, false, ◌&&◌, not, Option, none, some, List, [],
  ◌∷◌, ◌++◌, ◌=ˢ◌, if◌then◌else◌, if-holds, Bool-cases, Option-cases, All, is_some, subst,
}
use homepilot_core_public.Base.Text.{Text}
use homepilot_core_public.Tasks.{
  Task, TaskStatus, pending, running, succeeded, failed, cancelled, is_active, is_cancelled,
  is_over, validate_action, new_task, create_task, create_task_if_no_active, has_active_task,
  get_task, update_rows, updated, update_task_status, cancel_task, cancel_row,
  record_cancel_outcome, orphan, fail_orphaned_tasks,
}

-- The action has the artifact id that it needs, and the time at which the task was over is there
-- exactly where it is not active.
abbrev pub IsKept : Task → Type 0
IsKept t =
    (validate_action t.action t.artifact_id ≡ true)
    × (is_some t.finished_at ≡ not (is_active t.status))

abbrev pub IsSound : List Task → Type 0
IsSound tasks = All IsKept tasks

snoc-IsSound : (ts : List Task) (new : Task) → IsSound ts → IsKept new → IsSound (ts ++ new ∷ [])
snoc-IsSound [] new h p = (p, tt)
snoc-IsSound (t ∷ ts) new h p = (h.0, snoc-IsSound ts new h.1 p)

update-IsSound :
    (id : String) (where_ : Task → Bool) (set : Task → Task) (ts : List Task)
    → ((t : Task) → IsKept t → IsKept (set t))
    → IsSound ts
    → IsSound (update_rows id where_ set ts)
unfolding update_rows
update-IsSound id where_ set [] keeps s = tt
update-IsSound id where_ set (t ∷ ts) keeps s = (
  if-holds IsKept (t.id =ˢ id && where_ t) (set t) t (λ _. keeps t s.0) (λ _. s.0),
  update-IsSound id where_ set ts keeps s.1,
)

finish_time :
    (now : ℕ) (status : TaskStatus)
    → is_cancelled status ≡ false
    → is_some (if is_over status then some now else none) ≡ not (is_active status)
finish_time now pending h = refl
finish_time now running h = refl
finish_time now succeeded h = refl
finish_time now failed h = refl
finish_time now cancelled h = absurd (cc h)

pub write-IsSound :
    (now : ℕ) (id : String) (status : TaskStatus) (error : Option String) (json : Option Text)
    (ts : List Task)
    → is_cancelled status ≡ false
    → IsSound ts
    → IsSound (update_task_status now id status error json ts)
unfolding update_task_status
write-IsSound now id status error json ts h s =
    update-IsSound id (λ t. true) (updated now status error json) ts
      (λ t kept. (kept.0, finish_time now status h)) s

pub cancel-IsSound :
    (now : ℕ) (id : String) (ts : List Task) → IsSound ts → IsSound (cancel_task now id ts).1
unfolding cancel_task
cancel-IsSound now id ts s = elim (Option-cases (get_task id ts)) [
  | inl missing ↦ rw (cancel_task, missing) s
  | inr (t, found) ↦ elim (Bool-cases (is_active t.status)) [
    | inr over ↦ rw (cancel_task, found, over) s
    | inl live ↦
        rw (cancel_task, found, live)
          (update-IsSound id (λ u. is_active u.status) (cancel_row now) ts
            (λ t kept. (kept.0, refl)) s)
  ]
]

pub note-IsSound :
    (id : String) (json : Option Text) (error : Option String) (ts : List Task)
    → IsSound ts
    → IsSound (record_cancel_outcome id json error ts).1
unfolding record_cancel_outcome
note-IsSound id json error ts s =
    update-IsSound id (λ t. is_cancelled t.status)
      (λ t. record t { result_json = json; error = error }) ts (λ t kept. kept) s

pub orphans-IsSound :
    (now : ℕ) (ts : List Task) → IsSound ts → IsSound (fail_orphaned_tasks now ts).0
unfolding fail_orphaned_tasks orphan
orphans-IsSound now [] s = tt
orphans-IsSound now (t ∷ ts) s = (
  if-holds IsKept (is_active t.status)
      (record t { status = failed; error = some "orphaned_after_restart"; finished_at = some now })
      t (λ _. (s.0.0, refl)) (λ _. s.0),
  orphans-IsSound now ts s.1,
)

pub create-IsSound :
    (id : String) (now : ℕ) (artifact_id : Option String) (action : String) (ts us : List Task)
    (x : String)
    → create_task id now artifact_id action ts ≡ some (x, us)
    → IsSound ts
    → IsSound us
unfolding create_task
create-IsSound id now artifact_id action ts us x made s =
    elim (Bool-cases (validate_action action artifact_id)) [
      | inr invalid ↦ absurd (ground arith)
      | inl valid ↦
          let new = new_task id now artifact_id action in
          let same : ts ++ new ∷ [] ≡ us = ground arith in
          subst IsSound same (snoc-IsSound ts new s (valid, refl))
    ]

pub create_if-IsSound :
    (id : String) (now : ℕ) (artifact action : String) (ts us : List Task) (x : Option String)
    → create_task_if_no_active id now artifact action ts ≡ some (x, us)
    → IsSound ts
    → IsSound us
unfolding create_task_if_no_active
create_if-IsSound id now artifact action ts us x made s =
    elim (Bool-cases (validate_action action (some artifact))) [
      | inr invalid ↦ absurd (ground arith)
      | inl valid ↦ elim (Bool-cases (has_active_task artifact ts)) [
        | inl busy ↦ let same : ts ≡ us = ground arith in subst IsSound same s
        | inr free ↦
            let new = new_task id now (some artifact) action in
            let same : ts ++ new ∷ [] ≡ us = ground arith in
            subst IsSound same (snoc-IsSound ts new s (valid, refl))
      ]
    ]
