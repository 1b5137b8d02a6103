-- ===== src/Artifacts/Transitions.antt =====
-- `ArtifactTransitionManager` of artifacts/transitions.py, but for `edit`, which stands in
-- Artifacts/Invalidate. The lock of a file spans an operation, so each runs without interleaving.
pub mod Status
pub mod Applied
pub mod Approve
use homepilot_core_public.Base.{
  String, ◌<>◌, Option, none, some, List, [], ◌∷◌, ◌=ˢ◌, if◌then◌else◌,
}
use homepilot_core_public.Base.Text.{Text}
use homepilot_core_public.Artifacts.Model.{
  ArtifactStatus, approved, proposed, rejected, applied, failed, superseded, revoked, ◌=ᵗ◌,
  Decision, Frontmatter, hash_mismatch, Result, ok, err, ◌>>=◌, ◌>>◌, guard, validate_transition,
}
use homepilot_core_public.Artifacts.Body.{compute_body_hash, append_log}
use homepilot_core_public.Artifacts.World.{
  Doc, World, Env, Action, Event, approve, reject, apply, fail, supersede, revoke, Details,
  no_details, by_role, cascaded_to, cascaded_from, read_file, write_file, log_audit, sync_to_db,
  clear_approval_code,
}
use homepilot_core_public.Artifacts.Cascade.{hash_matches, composite_cascade, cascade_fuel}

-- An absent or empty text is dropped by the source's `if role:` and `if reason:`.
abbrev pub nonempty : Option String → Option String
nonempty none = none
nonempty (some s) = if s =ˢ "" then none else some s

-- `details` of `approve`.
abbrev pub approval_details : Option String → List String → Details
approval_details none [] = no_details
approval_details none (x ∷ xs) = cascaded_to (x ∷ xs)
approval_details (some r) cascade = by_role r cascade

-- `details` of `reject`.
abbrev role_details : Option String → Details
role_details none = no_details
role_details (some r) = by_role r []

abbrev pub cascaded_reason : Option String → String → String
cascaded_reason none via = "cascaded from composite " <> via
cascaded_reason (some r) via = r <> " (cascaded from composite " <> via <> ")"

-- An operation that reads, decides whether it may go on, and only then changes the state.
abbrev pub commit : {A : Type 0} → Result A → (A → World → World) → Action (Unit {0})
commit (err e) change w = (err e, w)
commit (ok a) change w = (ok tt, change a w)

-- `fm["status"]` and `fm["approved_by"]`, set.
abbrev pub approved_frontmatter :
    String → String → Option String → Option String → Frontmatter → Frontmatter
approved_frontmatter user at role reason fm = record fm {
  status = approved;
  approved_by = some (record { user = user; at = at; role = role; reason = reason });
}

-- `if partial_log:`
abbrev pub with_partial_log : Text → Text → Text
with_partial_log body [] = body
with_partial_log body (c ∷ log) = append_log body (c ∷ log)

module _ (env : Env) where
  -- The file is written, the row of the audit is added, and the mirror follows.
  unfoldable pub record_change :
      String → Frontmatter → Text → Event → String → Option String → Details → World → World
  unfolding write_file log_audit sync_to_db
  record_change id fm body event action user details w =
      sync_to_db env id fm (log_audit env action id user details (write_file id fm body event w))

  -- What `approve` checks before it writes: the document, and the sub-artifacts to carry along.
  unfoldable pub approve_checks : String → World → Result (Doc × List String)
  unfolding validate_transition
  approve_checks id w = do
    d ← read_file w.files id
    validate_transition d.fm.status approved
    guard (hash_matches env d) (hash_mismatch id)
    found ← composite_cascade env w.files (cascade_fuel env w.files) id d []
    ok (d, found.0)

  -- `_approve_cascaded`, on what its `read` gave.
  unfoldable pub carry :
      String → Option String → Option String → String → String → Result Doc → World → World
  unfolding record_change clear_approval_code
  carry user reason role via sub (err e) w = w
  carry user reason role via sub (ok d) w =
      let reason' = some (cascaded_reason (nonempty reason) via) in
      let fm = approved_frontmatter user (env.now sub) (nonempty role) reason' d.fm in
      if d.fm.status =ᵗ proposed
      then clear_approval_code env sub
          (record_change sub fm d.body approve "approve" (some user) (cascaded_from via) w)
      else w

  -- `_approve_cascaded`
  unfoldable pub approve_cascaded :
      String → Option String → Option String → String → String → World → World
  unfolding carry
  approve_cascaded user reason role via sub w =
      carry user reason role via sub (read_file w.files sub) w

  -- `for sub_id in cascade`
  unfoldable pub approve_all :
      String → Option String → Option String → String → List String → World → World
  unfolding approve_cascaded
  approve_all user reason role via [] w = w
  approve_all user reason role via (sub ∷ subs) w =
      approve_all user reason role via subs (approve_cascaded user reason role via sub w)

  unfoldable pub approve_artifact :
      String → String → Option String → Option String → Action (Unit {0})
  unfolding approve_checks record_change approve_all
  approve_artifact id user reason role w =
      commit (approve_checks id w)
        (λ checked w.
          let (d, cascade) = checked in
          let fm = approved_frontmatter user (env.now id) (nonempty role) (nonempty reason) d.fm in
          approve_all user reason role id cascade (
            record_change id fm d.body approve "approve" (some user)
              (approval_details (nonempty role) cascade) w))
        w

  -- The start of the other transitions: read, and check the move to `target`.
  unfoldable pub checked_read : String → ArtifactStatus → World → Result Doc
  unfolding validate_transition
  checked_read id target w = do
    d ← read_file w.files id
    validate_transition d.fm.status target
    ok d

  unfoldable pub reject_artifact :
      String → String → Option String → Option String → Action (Unit {0})
  unfolding checked_read record_change
  reject_artifact id user reason role w =
      commit (checked_read id rejected w)
        (λ d.
          let decision : Decision = record {
            user = user;
            at = env.now id;
            role = nonempty role;
            reason = nonempty reason;
          } in
          record_change id (record d.fm { status = rejected; rejected_by = some decision }) d.body
            reject "reject" (some user) (role_details (nonempty role)))
        w

  unfoldable pub mark_applied : String → Text → Action (Unit {0})
  unfolding checked_read record_change append_log compute_body_hash
  mark_applied id execution_log w =
      commit (checked_read id applied w)
        (λ d.
          let body = append_log d.body execution_log in
          record_change id
            (record d.fm {
              status = applied;
              applied_at = some (env.now id);
              hash = some (compute_body_hash env.hexdigest body);
            })
            body apply "apply" none no_details)
        w

  unfoldable pub mark_failed : String → String → Text → Action (Unit {0})
  unfolding checked_read record_change append_log compute_body_hash
  mark_failed id reason partial_log w =
      commit (checked_read id failed w)
        (λ d.
          let body = with_partial_log d.body partial_log in
          record_change id
            (record d.fm {
              status = failed;
              failed_at = some (env.now id);
              failure_reason = some reason;
              hash = some (compute_body_hash env.hexdigest body);
            })
            body fail "fail" none no_details)
        w

  unfoldable pub supersede_artifact : String → String → Action (Unit {0})
  unfolding checked_read record_change
  supersede_artifact old new w =
      commit (checked_read old superseded w)
        (λ d.
          record_change old (record d.fm { status = superseded; superseded_by = some new }) d.body
            supersede "supersede" none no_details)
        w

  unfoldable pub revoke_artifact : String → String → Option String → Action (Unit {0})
  unfolding checked_read record_change
  revoke_artifact id user reason w =
      commit (checked_read id revoked w)
        (λ d.
          let decision : Decision = record {
            user = user;
            at = env.now id;
            role = none;
            reason = nonempty reason;
          } in
          record_change id (record d.fm { status = revoked; revoked_by = some decision }) d.body
            revoke "revoke" (some user) no_details)
        w
