-- ===== src/Artifacts/Machine/Unique.antt =====
-- Each operation keeps one file to a name.
use homepilot_core_public.Base.{String, inl, inr, Option, List, [], ◌∷◌, Bool-cases}
use homepilot_core_public.Base.Text.{Text}
use homepilot_core_public.Base.Dict.{NodupKeys, NodupKeys-insert}
use homepilot_core_public.Artifacts.Model.{
  ◌=ᵗ◌, proposed, Frontmatter, Result, ok, err, Result-cases,
}
use homepilot_core_public.Artifacts.World.{
  Doc, World, Env, Event, Details, read_file, write_file, log_audit,
}
use homepilot_core_public.Artifacts.World.Reads.{
  files-log_audit, files-sync_to_db, files-clear_approval_code,
}
use homepilot_core_public.Artifacts.Cascade.{hash_matches}
use homepilot_core_public.Artifacts.Transitions.{
  commit, record_change, carry, approve_cascaded, approve_all, approve_checks, approve_artifact,
  checked_read, reject_artifact, mark_applied, mark_failed, supersede_artifact, revoke_artifact,
}
use homepilot_core_public.Artifacts.Invalidate.{is_terminal, edit_artifact}
use homepilot_core_public.Artifacts.Invalidate.Edit.{edit_takes_back, edit_idle, edit-missing}
use homepilot_core_public.Artifacts.Machine.{
  Op, approve, reject, edit, apply, fail, supersede, revoke, step,
}

abbrev pub IsUnique : World → Type 0
IsUnique w = NodupKeys w.files

abbrev Keeps : (World → World) → Type 0
Keeps f = (w : World) → IsUnique w → IsUnique (f w)

module _ (env : Env) where
  record_change-IsUnique :
      (id : String) (fm : Frontmatter) (body : Text) (e : Event) (action : String)
      (user : Option String) (info : Details)
      → Keeps (record_change env id fm body e action user info)
  unfolding record_change write_file
  record_change-IsUnique id fm body e action user info w h =
      let v = write_file id fm body e w in
      rw
        (
          files-sync_to_db env id fm (log_audit env action id user info v),
          files-log_audit env action id user info v,
        )
        (NodupKeys-insert id (record { fm = fm; body = body }) w.files h)

  carry-IsUnique :
      (user : String) (reason role : Option String) (via sub : String) (r : Result Doc)
      → Keeps (carry env user reason role via sub r)
  unfolding carry
  carry-IsUnique user reason role via sub (err e) w h = h
  carry-IsUnique user reason role via sub (ok d) w h = elim (Bool-cases (d.fm.status =ᵗ proposed)) [
    | inl p ↦
        rw p
          (rw (files-clear_approval_code env sub) (record_change-IsUnique sub _ d.body _ _ _ _ w h))
    | inr np ↦ rw np h
  ]

  approve_all-IsUnique :
      (user : String) (reason role : Option String) (via : String) (subs : List String)
      → Keeps (approve_all env user reason role via subs)
  unfolding approve_all approve_cascaded
  approve_all-IsUnique user reason role via [] w h = h
  approve_all-IsUnique user reason role via (s ∷ subs) w h =
      approve_all-IsUnique user reason role via subs _
        (carry-IsUnique user reason role via s (read_file w.files s) w h)

  commit-IsUnique :
      {A : Type 0} (r : Result A) (change : A → World → World)
      → ((a : A) → Keeps (change a))
      → Keeps (λ w. (commit r change w).1)
  commit-IsUnique (err e) change k w h = h
  commit-IsUnique (ok a) change k w h = k a w h

  edit-IsUnique : (id : String) → Keeps (λ w. (edit_artifact env id w).1)
  edit-IsUnique id w h = elim (Result-cases (read_file w.files id)) [
    | inl (e, r) ↦ rw (edit-missing env id w e r) h
    | inr (d, r) ↦ elim (Bool-cases (is_terminal d.fm.status)) [
      | inl t ↦ rw (edit_idle env id w h d r (inl t)) h
      | inr live ↦ elim (Bool-cases (hash_matches env d)) [
        | inl m ↦ rw (edit_idle env id w h d r (inr m)) h
        | inr changed ↦ (edit_takes_back env id w h d r live changed).4
      ]
    ]
  ]

  pub step-IsUnique : (op : Op) → Keeps (step env op)
  unfolding step approve_artifact reject_artifact mark_applied mark_failed supersede_artifact
      revoke_artifact
  step-IsUnique (edit id) w h = edit-IsUnique id w h
  step-IsUnique (approve id user reason role) w h =
      commit-IsUnique (approve_checks env id w) _
        (λ checked v k.
          approve_all-IsUnique user reason role id checked.1 _
            (record_change-IsUnique id _ checked.0.body _ _ _ _ v k))
        w h
  step-IsUnique (reject id user reason role) w h =
      commit-IsUnique (checked_read env id _ w) _ (λ d. record_change-IsUnique id _ _ _ _ _ _) w h
  step-IsUnique (apply id log) w h =
      commit-IsUnique (checked_read env id _ w) _ (λ d. record_change-IsUnique id _ _ _ _ _ _) w h
  step-IsUnique (fail id reason log) w h =
      commit-IsUnique (checked_read env id _ w) _ (λ d. record_change-IsUnique id _ _ _ _ _ _) w h
  step-IsUnique (supersede old new) w h =
      commit-IsUnique (checked_read env old _ w) _ (λ d. record_change-IsUnique old _ _ _ _ _ _) w h
  step-IsUnique (revoke id user reason) w h =
      commit-IsUnique (checked_read env id _ w) _ (λ d. record_change-IsUnique id _ _ _ _ _ _) w h
