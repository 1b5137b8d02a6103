-- ===== src/Artifacts/Lifecycle/Codes.antt =====
-- What an approval does to the rows of approval codes.
use homepilot_core_public.Base.{
  String, ◌≡◌, refl, ap, ◌∙◌, ◌⊎◌, inl, inr, Option, none, some, List, [], ◌∷◌, Bool-cases, arith,
}
use homepilot_core_public.Base.Text.{Text}
use homepilot_core_public.Base.Dict.{lookup, lookup-remove}
use homepilot_core_public.Artifacts.Model.{proposed, ◌=ᵗ◌, Frontmatter, Result, ok, err}
use homepilot_core_public.Artifacts.World.{
  Doc, World, Env, Event, approve, Details, cascaded_from, read_file, write_file, log_audit,
  sync_to_db, clear_approval_code,
}
use homepilot_core_public.Artifacts.Transitions.{
  approved_frontmatter, cascaded_reason, nonempty, approval_details, commit, record_change, carry,
  approve_cascaded, approve_all, approve_checks, approve_artifact,
}
use homepilot_core_public.Artifacts.Lifecycle.{then_clear, lifecycle_approve}

-- The code of an artifact is the one it was, or is gone.
abbrev pub Keeps : String → World → World → Type 0
Keeps j w v = (lookup j v.codes ≡ none) ⊎ (lookup j v.codes ≡ lookup j w.codes)

Keeps-trans : (j : String) (u v w : World) → Keeps j u v → Keeps j v w → Keeps j u w
Keeps-trans j u v w (inl gone) (inl then_gone) = inl then_gone
Keeps-trans j u v w (inl gone) (inr same) = inl (same ∙ gone)
Keeps-trans j u v w (inr kept) (inl gone) = inl gone
Keeps-trans j u v w (inr kept) (inr same) = inr (same ∙ kept)

module _ (env : Env) (j : String) where
  codes-record_change :
      (id : String) (fm : Frontmatter) (body : Text) (e : Event) (action : String)
      (user : Option String) (info : Details) (w : World)
      → (record_change env id fm body e action user info w).codes ≡ w.codes
  unfolding record_change write_file log_audit sync_to_db
  codes-record_change id fm body e action user info w = ground arith

  Keeps-clear : (id : String) (w : World) → Keeps j w (clear_approval_code env id w)
  unfolding clear_approval_code
  Keeps-clear id w = ground (arith, lookup-remove id j w.codes)

  module _ (user : String) (reason role : Option String) (via : String) where
    Keeps-carry :
        (sub : String) (r : Result Doc) (w : World)
        → Keeps j w (carry env user reason role via sub r w)
    unfolding carry
    Keeps-carry sub (err e) w = inr refl
    Keeps-carry sub (ok d) w = elim (Bool-cases (d.fm.status =ᵗ proposed)) [
      | inl waiting ↦
          (let reason' = some (cascaded_reason (nonempty reason) via) in
            let fm = approved_frontmatter user (env.now sub) (nonempty role) reason' d.fm in
            let v =
              record_change env sub fm d.body approve "approve" (some user) (cascaded_from via) w in
            rw waiting (
              Keeps-trans j w v (clear_approval_code env sub v)
                (inr (
                  ap (lookup j) (
                    codes-record_change sub fm d.body approve "approve" (some user)
                      (cascaded_from via) w)))
                (Keeps-clear sub v)))
      | inr settled ↦ rw settled (inr refl)
    ]

    Keeps-approve_all :
        (subs : List String) (w : World) → Keeps j w (approve_all env user reason role via subs w)
    unfolding approve_all approve_cascaded
    Keeps-approve_all [] w = inr refl
    Keeps-approve_all (sub ∷ subs) w =
        let v = approve_cascaded env user reason role via sub w in
        Keeps-trans j w v (approve_all env user reason role via subs v)
          (Keeps-carry sub (read_file w.files sub) w) (Keeps-approve_all subs v)

  Keeps-approve :
      (id user : String) (reason role : Option String) (w : World)
      → Keeps j w (approve_artifact env id user reason role w).1
  unfolding approve_artifact
  Keeps-approve id user reason role w = go (approve_checks env id w)
    where
      go :
          (checks : Result (Doc × List String))
          → Keeps j w
              (commit checks
                (λ checked w.
                  let (d, cascade) = checked in
                  let fm =
                    approved_frontmatter user (env.now id) (nonempty role) (nonempty reason) d.fm in
                  approve_all env user reason role id cascade (
                    record_change env id fm d.body approve "approve"
                      (some user)
                      (approval_details (nonempty role) cascade)
                      w))
                w).1
      go (err e) = inr refl
      go (ok (d, cascade)) =
          let fm = approved_frontmatter user (env.now id) (nonempty role) (nonempty reason) d.fm in
          let info = approval_details (nonempty role) cascade in
          let v = record_change env id fm d.body approve "approve" (some user) info w in
          Keeps-trans j w v (approve_all env user reason role id cascade v)
            (inr (
              ap (lookup j)
                (codes-record_change id fm d.body approve "approve" (some user) info w)))
            (Keeps-approve_all user reason role id cascade v)

  Keeps-then_clear :
      (id : String) (w : World) (r : Result (Unit {0}) × World)
      → Keeps j w r.1
      → Keeps j w (then_clear env id r).1
  Keeps-then_clear id w (err e, v) h = h
  Keeps-then_clear id w (ok _, v) h =
      Keeps-trans j w v (clear_approval_code env id v) h (Keeps-clear id v)

  -- An approval changes no code row and adds none: the row of an artifact stays or goes.
  pub Keeps-lifecycle_approve :
      (id user : String) (reason : Option String) (w : World)
      → Keeps j w (lifecycle_approve env id user reason w).1
  unfolding lifecycle_approve
  Keeps-lifecycle_approve id user reason w =
      Keeps-then_clear id w (approve_artifact env id user reason none w)
        (Keeps-approve id user reason none w)
