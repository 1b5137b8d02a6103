-- ===== src/Artifacts/World/Reads.antt =====
-- What a read sees after a write, and the status that a read shows.
use homepilot_core_public.Base.{String, ◌≡◌, ◌≢◌, Option, none, some, arith, ◌=ˢ◌, if◌then◌else◌}
use homepilot_core_public.Base.Text.{Text}
use homepilot_core_public.Base.Dict.{Dict, lookup, insert, lookup-insert}
use homepilot_core_public.Artifacts.Model.{
  ArtifactStatus, Frontmatter, Result, ok, err, out_of_fuel,
}
use homepilot_core_public.Artifacts.Body.{extract_body, universal_newlines}
use homepilot_core_public.Artifacts.World.{
  Doc, World, Env, Event, Details, read_file, write_file, log_audit, sync_to_db,
  clear_approval_code,
}

-- The document as it is read back.
abbrev pub as_read : Frontmatter → Text → Doc
as_read fm body = record { fm = fm; body = extract_body (universal_newlines body) }

pub read-insert :
    (id j : String) (d : Doc) (files : Dict Doc)
    → read_file (insert id d files) j
      ≡ (if id =ˢ j then ok (as_read d.fm d.body) else read_file files j)
unfolding read_file
read-insert id j d files = ground (arith, lookup-insert id j d files)

-- A read sees the last write of its file, and other files as they were.
pub read-write :
    (id j : String) (fm : Frontmatter) (body : Text) (e : Event) (w : World)
    → read_file (write_file id fm body e w).files j
      ≡ (if id =ˢ j then ok (as_read fm body) else read_file w.files j)
unfolding write_file
read-write id j fm body e w = read-insert id j (record { fm = fm; body = body }) w.files

-- What can be read is there.
pub known :
    (files : Dict Doc) (sub : String) {d : Doc}
    → read_file files sub ≡ ok d
    → lookup sub files ≢ none
unfolding read_file
known files sub e h = ground arith

pub read_file-ne-out_of_fuel :
    (files : Dict Doc) (id : String) → read_file files id ≢ err out_of_fuel
unfolding read_file
read_file-ne-out_of_fuel files id h = ground arith

abbrev pub status_of : Result Doc → Option ArtifactStatus
status_of (ok d) = some d.fm.status
status_of (err _) = none

-- The status of an artifact, or `none` where there is no file.
abbrev pub status_at : World → String → Option ArtifactStatus
status_at w j = status_of (read_file w.files j)

module _ (env : Env) where
  pub files-log_audit :
      (action id : String) (user : Option String) (info : Details) (w : World)
      → (log_audit env action id user info w).files ≡ w.files
  unfolding log_audit
  files-log_audit action id user info w = ground arith

  pub files-sync_to_db :
      (id : String) (fm : Frontmatter) (w : World) → (sync_to_db env id fm w).files ≡ w.files
  unfolding sync_to_db
  files-sync_to_db id fm w = ground arith

  pub files-clear_approval_code :
      (id : String) (w : World) → (clear_approval_code env id w).files ≡ w.files
  unfolding clear_approval_code
  files-clear_approval_code id w = ground arith
