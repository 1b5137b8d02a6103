-- ===== src/Artifacts/Invalidate/TakenBack.antt =====
-- What `edit` has brought about when it goes through, one fact at a time.
use homepilot_core_public.Base.{String, ◌≡◌, ◌≢◌, true, false, some}
use homepilot_core_public.Base.Dict.{NodupKeys}
use homepilot_core_public.Artifacts.Model.{proposed, approved, is_composite, ok}
use homepilot_core_public.Artifacts.World.{Doc, World, Env, read_file}
use homepilot_core_public.Artifacts.World.Reads.{status_at}
use homepilot_core_public.Artifacts.Cascade.{hash_matches}
use homepilot_core_public.Artifacts.Invalidate.{is_terminal, mentions, edit_artifact}
use homepilot_core_public.Artifacts.Invalidate.Lower.{Lower}
use homepilot_core_public.Artifacts.Invalidate.Edit.{edit_takes_back}

module _ (env : Env) (id : String) (w : World) (unique : NodupKeys w.files) (d : Doc)
    (reads : read_file w.files id ≡ ok d) (live : is_terminal d.fm.status ≡ false)
    (changed : hash_matches env d ≡ false) where
  -- Where no name has two files, an edit goes through on an artifact that is not terminal and whose
  -- body differs from its hash, and the artifact is proposed after it.
  pub edit_reopens :
      ((edit_artifact env id w).0 ≡ ok tt)
      × (status_at (edit_artifact env id w).1 id ≡ some proposed)
  edit_reopens =
      let (done, reopened, _, _, _) = edit_takes_back env id w unique d reads live changed in
      (done, reopened)

  -- Where no name has two files, after an edit of an artifact that is not terminal and whose body
  -- differs from its hash, no other composite that is approved mentions the edited artifact.
  pub edit_settles :
      (c : String) (e : Doc)
      → read_file (edit_artifact env id w).1.files c ≡ ok e
      → e.fm.status ≡ approved
      → is_composite e.fm.kind ≡ true
      → c ≢ id
      → mentions id e.body ≡ false
  edit_settles = (edit_takes_back env id w unique d reads live changed).2

  -- Where no name has two files, an edit of an artifact that is not terminal and whose body differs
  -- from its hash leaves what is read of any other artifact as it was, or takes that artifact's status
  -- from approved or proposed to proposed.
  pub edit_lowers :
      (x : String)
      → x ≢ id
      → Lower (read_file w.files x) (read_file (edit_artifact env id w).1.files x)
  edit_lowers = (edit_takes_back env id w unique d reads live changed).3
