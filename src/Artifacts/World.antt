-- ===== src/Artifacts/World.antt =====
-- artifacts/store.py, artifacts/file_store.py and the two tables of db/repository.py that the
-- transition manager writes: the state that the operations share. A file is its frontmatter and
-- its body as written; reading it translates the ends of the lines and drops the newlines in front
-- of the body. The insert of an audit row is taken to succeed. The files are listed in
-- the order of the list, which the operations here keep. Locking, git and YAML are not modelled.
pub mod Reads
use homepilot_core_public.Base.{
  ℕ, String, Bool, ◌&&◌, Option, none, some, List, [], ◌∷◌, ◌++◌, if◌then◌else◌,
}
use homepilot_core_public.Base.Text.{Text}
use homepilot_core_public.Base.Dict.{Dict, lookup, insert, remove}
use homepilot_core_public.Artifacts.Model.{
  ArtifactKind, ArtifactStatus, is_composite, ◌=ᵗ◌, Frontmatter, not_found, Result, ok, err,
}
use homepilot_core_public.Artifacts.Body.{extract_body, universal_newlines}
use homepilot_core_public.Artifacts.Spec.{Loaded}

pub record Doc : Type 0 where
  pub fm : Frontmatter
  pub body : Text

-- The label of the git commit that a write makes.
pub data Event : Type 0 where
  propose approve reject edit apply fail supersede revoke : Event

pub data Details : Type 0 where
  no_details : Details
  by_role : String → List String → Details
  cascaded_to : List String → Details
  cascaded_from : String → Details
  because : String → Details
  about_proposal : ArtifactKind → String → Details
  with_snapshot : Text → Details
  reversal : Option String → String → Text → Details

pub record AuditRow : Type 0 where
  pub action : String
  pub artifact : String
  pub user : Option String
  pub details : Details

-- A row of artifact_approval_codes.
pub record CodeRow : Type 0 where
  pub code : Text
  pub failed_attempts : ℕ
  pub locked : Bool

pub record World : Type 0 where
  pub files : Dict Doc
  pub mirror : Dict Frontmatter
  pub codes : Dict CodeRow
  pub audit : List AuditRow
  pub commits : List (Event × String)

-- What the operations take from elsewhere: SHA-256, the YAML loader, whether there is a database
-- and at which artifacts its writes fail, and the time at which each artifact is stamped.
pub record Env : Type 0 where
  pub hexdigest : Text → String
  pub safe_load : Text → Loaded
  pub has_db : Bool
  pub db_works : String → Bool
  pub now : String → String

-- An operation that may raise, with the state that it leaves.
abbrev pub Action : Type 0 → Type 0
Action A = World → Result A × World

-- `store.read`: what `path.exists()` and the parse give.
unfoldable pub read_file : Dict Doc → String → Result Doc
read_file files id = elim (lookup id files) [
  | none ↦ err (not_found id)
  | some d ↦ ok (record d { body = extract_body (universal_newlines d.body) })
]

-- `file_store.write`, which is `store.write`.
unfoldable pub write_file : String → Frontmatter → Text → Event → World → World
write_file id fm body event w = record w {
  files = insert id (record { fm = fm; body = body }) w.files;
  commits = w.commits ++ (event, id) ∷ [];
}

-- `_audit`, behind which stands `ArtifactLifecycle._log_audit`. The insert is taken to succeed.
unfoldable pub log_audit : Env → String → String → Option String → Details → World → World
log_audit env action id user details w =
    if env.has_db
    then record w {
      audit =
          w.audit ++ record { action = action; artifact = id; user = user; details = details } ∷ [];
    }
    else w

-- `_sync_to_db`: a failed write is logged and passed over.
unfoldable pub sync_to_db : Env → String → Frontmatter → World → World
sync_to_db env id fm w =
    if env.has_db && env.db_works id then record w { mirror = insert id fm w.mirror } else w

-- `clear_approval_code`, guarded as at its callers.
unfoldable pub clear_approval_code : Env → String → World → World
clear_approval_code env id w =
    if env.has_db && env.db_works id then record w { codes = remove id w.codes } else w

-- `store.list(status, kind=composite)`, with each artifact's key.
unfoldable pub list_composites : ArtifactStatus → Dict Doc → List (String × Frontmatter)
list_composites status [] = []
list_composites status ((id, d) ∷ files) =
    let rest = list_composites status files in
    if d.fm.status =ᵗ status && is_composite d.fm.kind then (id, d.fm) ∷ rest else rest
