-- ===== src/Artifacts/Invalidate.antt =====
-- `edit` and `_cascade_invalidate` of artifacts/transitions.py. The set `visited` is part of the
-- state that the recursion passes along; the fuel bounds its depth, and `none` means that it ran out.
pub mod Lower
pub mod Edit
pub mod Ends
pub mod Listing
pub mod Sound
pub mod TakenBack
use homepilot_core_public.Base.{
  ℕ, zero, suc, String, ◌<>◌, Bool, true, false, ◌||◌, Option, none, some, List, [], ◌∷◌, ◌=ˢ◌,
  ◌∈ˢ◌, ◌==◌, if◌then◌else◌, length,
}
use homepilot_core_public.Base.Text.{Text, codes, is_infix}
use homepilot_core_public.Artifacts.Model.{
  ArtifactStatus, approved, proposed, rejected, applied, failed, superseded, revoked, ◌=ᵗ◌,
  Frontmatter, terminal_edit, out_of_fuel, ok, err,
}
use homepilot_core_public.Artifacts.Body.{compute_body_hash}
use homepilot_core_public.Artifacts.World.{
  Doc, World, Env, Action, edit, because, read_file, write_file, log_audit, sync_to_db,
  list_composites,
}
use homepilot_core_public.Artifacts.Cascade.{hash_matches}

-- `edited_id in cbody`
unfoldable pub mentions : String → Text → Bool
unfolding is_infix
mentions id body = is_infix (codes id) body

-- `visited` and the shared state.
pub record Walk : Type 0 where
  pub visited : List String
  pub world : World

infixl 5 ◌>>?◌
abbrev pub ◌>>?◌ : Option Walk → (Walk → Option Walk) → Option Walk
none >>? f = none
some s >>? f = f s

-- The states in which `edit` refuses.
abbrev pub is_terminal : ArtifactStatus → Bool
is_terminal applied = true
is_terminal superseded = true
is_terminal revoked = true
is_terminal rejected = true
is_terminal _ = false

module _ (env : Env) where
  -- The approved composite goes back to `proposed`; its frontmatter is the listed one.
  unfoldable pub invalidate : String → String → Frontmatter → Text → World → World
  unfolding write_file log_audit sync_to_db
  invalidate edited cid listed cbody w =
      let cfm : Frontmatter = record listed { status = proposed; approved_by = none } in
      sync_to_db env cid cfm (
        log_audit env "invalidate" cid none (because ("sub-artifact " <> edited <> " edited"))
          (write_file cid cfm cbody edit w))

  -- One round of the loop over the approved composites.
  unfoldable pub invalidate_candidate :
      (String → Walk → Option Walk) → String → String → Frontmatter → Walk → Option Walk
  unfolding read_file mentions invalidate
  invalidate_candidate deeper edited cid listed s =
      if cid =ˢ edited || cid ∈ˢ s.visited then some s else elim (read_file s.world.files cid) [
        | err e ↦ some s
        | ok d ↦
            if mentions edited d.body
            then deeper cid (record s { world = invalidate edited cid listed d.body s.world })
            else some s
      ]

  unfoldable pub invalidate_loop :
      (String → Walk → Option Walk) → String → List (String × Frontmatter) → Walk → Option Walk
  unfolding invalidate_candidate
  invalidate_loop deeper edited [] s = some s
  invalidate_loop deeper edited ((cid, listed) ∷ rest) s =
      invalidate_candidate deeper edited cid listed s >>? invalidate_loop deeper edited rest

  unfoldable pub cascade_invalidate : ℕ → String → Walk → Option Walk
  unfolding invalidate_loop list_composites
  cascade_invalidate zero edited s = none
  cascade_invalidate (suc fuel) edited s =
      let walk =
        invalidate_loop (cascade_invalidate fuel) edited (list_composites approved s.world.files)
          (record s { visited = edited ∷ s.visited }) in
      if edited ∈ˢ s.visited then some s else walk

  -- The edited frontmatter: an approval, or a failure, is taken back.
  unfoldable pub edited_frontmatter : Doc → Frontmatter
  unfolding compute_body_hash
  edited_frontmatter d =
      let fm : Frontmatter = record d.fm { hash = some (compute_body_hash env.hexdigest d.body) } in
      if d.fm.status =ᵗ approved || d.fm.status =ᵗ failed
      then record fm { status = proposed; approved_by = none }
      else fm

  abbrev pub edit_fuel : World → ℕ
  edit_fuel w = suc (length w.files)

  -- The state after the edited file was written and the composites were taken back.
  unfoldable pub edit_written : String → Doc → World → Option Walk
  unfolding edited_frontmatter write_file cascade_invalidate
  edit_written id d w =
      let written = write_file id (edited_frontmatter d) d.body edit w in
      cascade_invalidate (edit_fuel written) id (record { visited = []; world = written })

  unfoldable pub edit_artifact : String → Action (Unit {0})
  edit_artifact id w = elim (read_file w.files id) [
    | err e ↦ (err e, w)
    | ok d ↦
        if is_terminal d.fm.status
        then (err (terminal_edit d.fm.status), w)
        else if hash_matches env d
        then (ok tt, w)
        else elim (edit_written id d w) [
          | none ↦ (err out_of_fuel, w)
          | some s ↦ (ok tt, sync_to_db env id (edited_frontmatter d) s.world)
        ]
  ]
