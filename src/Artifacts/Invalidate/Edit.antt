-- ===== src/Artifacts/Invalidate/Edit.antt =====
-- `edit`: it never runs out of fuel, and an edit takes back every approval that rests on the body.
use homepilot_core_public.Base.{
  String, ◌≡◌, refl, sym, subst, ◌≢◌, ◌⊎◌, inl, inr, true, false, Option, none, some, arith,
  if◌then◌else◌, eq_iff, [],
}
use homepilot_core_public.Base.Dict.{NodupKeys, NodupKeys-insert}
use homepilot_core_public.Base.Visited.{remaining-le-length}
use homepilot_core_public.Artifacts.Model.{
  proposed, Error, terminal_edit, out_of_fuel, Result, ok, err, Result-cases,
}
use homepilot_core_public.Artifacts.World.{Doc, World, Env, edit, read_file, write_file, sync_to_db}
use homepilot_core_public.Artifacts.World.Reads.{
  as_read, read-write, known, status_of, status_at, files-sync_to_db, read_file-ne-out_of_fuel,
}
use homepilot_core_public.Artifacts.Cascade.{hash_matches}
use homepilot_core_public.Artifacts.Invalidate.{
  Walk, is_terminal, edited_frontmatter, edit_fuel, edit_written, edit_artifact,
}
use homepilot_core_public.Artifacts.Invalidate.Lower.{Lower, kept, lowered, Lowered, Settled}
use homepilot_core_public.Artifacts.Invalidate.Sound.{Goes, stays-insert}
use homepilot_core_public.Artifacts.Invalidate.Ends.{cascade_invalidate-Goes}

module _ (env : Env) (id : String) (w : World) (d : Doc) where
  -- The state as `edit` has written it.
  abbrev written : World
  written = write_file id (edited_frontmatter env d) d.body edit w

  edited-status : is_terminal d.fm.status ≡ false → (edited_frontmatter env d).status ≡ proposed
  unfolding edited_frontmatter
  edited-status h = ground arith

  edit_written-Goes :
      NodupKeys w.files
      → read_file w.files id ≡ ok d
      → is_terminal d.fm.status ≡ false
      → Goes
          (λ t.
            Lowered written t.world
            × ((c : String) → Settled id t.world c)
            × NodupKeys t.world.files)
          (edit_written env id d w)
  unfolding edit_written write_file
  edit_written-Goes u e h =
      cascade_invalidate-Goes env (edit_fuel env written) id written
        (NodupKeys-insert id _ w.files u) (stays-insert id id _ w.files (known w.files id e))
        (λ d' r a. ground (
          arith,
          read-write id id (edited_frontmatter env d) d.body edit w,
          (eq_iff id id).1 refl,
          edited-status h,
        ))
        (omega (arith, remaining-le-length [] written.files))

module _ (env : Env) (id : String) (w : World) (unique : NodupKeys w.files) where
  abbrev after : World
  after = (edit_artifact env id w).1

  -- Where no name has two files, an edit never runs out of fuel: the invalidation of composites that
  -- mention each other, in a ring or otherwise, comes to an end.
  pub edit_ends : (edit_artifact env id w).0 ≢ err out_of_fuel
  unfolding edit_artifact
  edit_ends h = elim (Result-cases (read_file w.files id)) [
    | inl (e, r) ↦ ground (arith, read_file-ne-out_of_fuel w.files id)
    | inr (d, r) ↦ ground (arith, edit_written-Goes env id w d unique r)
  ]

  -- What an edit that goes through has brought about.
  abbrev pub TakenBack : Result (Unit {0}) × World → Type 0
  TakenBack (r, v) =
      (r ≡ ok tt)
      × (status_at v id ≡ some proposed)
      × ((c : String) → Settled id v c)
      × ((x : String) → x ≢ id → Lower (read_file w.files x) (read_file v.files x))
      × NodupKeys v.files

  edit_done :
      (d : Doc) (t : Walk)
      → read_file w.files id ≡ ok d
      → is_terminal d.fm.status ≡ false
      → hash_matches env d ≡ false
      → edit_written env id d w ≡ some t
      → edit_artifact env id w ≡ (ok tt, sync_to_db env id (edited_frontmatter env d) t.world)
  unfolding edit_artifact
  edit_done d t e live changed h = ground arith

  -- The documents after the walk, as those before the edit.
  Lower-other :
      (d : Doc) (t : World) (x : String)
      → Lowered (written env id w d) t
      → x ≢ id
      → Lower (read_file w.files x) (read_file t.files x)
  Lower-other d t x low ne =
      let same : read_file (written env id w d).files x ≡ read_file w.files x =
        ground (arith, read-write id x (edited_frontmatter env d) d.body edit w, eq_iff id x) in
      rw same at (low x)

  proposed_after :
      (d : Doc) (t : World)
      → is_terminal d.fm.status ≡ false
      → Lowered (written env id w d) t
      → status_at t id ≡ some proposed
  proposed_after d t live low = go (read_file t.files id) refl (low id)
    where
      before :
          read_file (written env id w d).files id ≡ ok (as_read (edited_frontmatter env d) d.body)
      before =
          ground (
            arith,
            read-write id id (edited_frontmatter env d) d.body edit w,
            (eq_iff id id).1 refl,
          )

      go :
          (r : Result Doc)
          → read_file t.files id ≡ r
          → Lower (read_file (written env id w d).files id) r
          → status_of r ≡ some proposed
      go r e (kept q) = ground (arith, before, q, edited-status env id w d live)
      go r e (lowered d1 d2 p q o n) = ground (arith, q, n)

  -- An edit of a body that differs from its hash, in a state that may be edited, puts the artifact
  -- back to `proposed`; no approved composite mentions it any more; and any other artifact either
  -- keeps its document or goes from `approved` (or `proposed`) to `proposed`.
  pub edit_takes_back :
      (d : Doc)
      → read_file w.files id ≡ ok d
      → is_terminal d.fm.status ≡ false
      → hash_matches env d ≡ false
      → TakenBack (edit_artifact env id w)
  edit_takes_back d e live changed =
      go (edit_written env id d w) refl (edit_written-Goes env id w d unique e live)
    where
      go :
          (o : Option Walk)
          → edit_written env id d w ≡ o
          → Goes
              (λ t.
                Lowered (written env id w d) t.world
                × ((c : String) → Settled id t.world c)
                × NodupKeys t.world.files)
              o
          → TakenBack (edit_artifact env id w)
      go none h g = absurd g
      go (some t) h g =
          let fs = files-sync_to_db env id (edited_frontmatter env d) t.world in
          subst TakenBack (sym (edit_done d t e live changed h)) (
            refl,
            rw fs (proposed_after d t.world live g.0),
            rw fs g.1,
            rw fs (λ x ne. Lower-other d t.world x g.0 ne),
            rw fs g.2,
          )

  -- An edit of a terminal artifact is refused, and an edit of another artifact whose body matches its
  -- hash goes through; both leave the state as it was. (The names of the files are assumed unique.)
  pub edit_idle :
      (d : Doc)
      → read_file w.files id ≡ ok d
      → (is_terminal d.fm.status ≡ true) ⊎ (hash_matches env d ≡ true)
      → edit_artifact env id w
        ≡ (if is_terminal d.fm.status then err (terminal_edit d.fm.status) else ok tt, w)
  unfolding edit_artifact
  edit_idle d e why = ground arith

pub edit-missing :
    (env : Env) (id : String) (w : World) (e : Error)
    → read_file w.files id ≡ err e
    → edit_artifact env id w ≡ (err e, w)
unfolding edit_artifact
edit-missing env id w e r = ground arith
