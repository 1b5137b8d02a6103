-- ===== src/Artifacts/Propose.antt =====
-- `validate_propose_spec` of artifacts/validator.py and `propose` of artifacts/lifecycle.py. The
-- webhook event and the index of notes are not modelled.
pub mod Approvable
use homepilot_core_public.Base.{
  ℕ, String, Bool, true, false, not, ◌&&◌, ◌||◌, Option, none, some, List, [], ◌∷◌, ◌=ˢ◌, ◌∈ˢ◌,
  if◌then◌else◌, length, leb, is_some,
}
use homepilot_core_public.Base.Text.{Text, codes, is_infix}
use homepilot_core_public.Base.Dict.{lookup, insert}
use homepilot_core_public.Artifacts.Model.{
  ArtifactKind, ansible_playbook, proxmox_api_sequence, http_sequence, composite, shell_script,
  host_provision, guest_network, kb_note, is_kb_note, proposed, applied, Idempotence, via_precheck,
  declared_natural, replay_only, Frontmatter, Flaw, invalid_id, already_exists, invalid_kind,
  empty_body, invalid_target, needs_target, needs_idempotence, invalid_idempotence, invalid_intent,
  needs_producer, invalid_spec, no_steps, step_without_id, duplicate_step, step_without_artifact,
  irreversible_kind, no_rollback_section, no_snapshot, literal_credential, bad_expression,
  refused_proposal, value_error, Result, ok, err, guard, ◌>>=◌, ◌>>◌,
}
use homepilot_core_public.Artifacts.Body.{compute_body_hash}
use homepilot_core_public.Artifacts.Spec.{Step, extract_composite_steps}
use homepilot_core_public.Artifacts.World.{
  World, Env, Event, propose, apply, Action, about_proposal, write_file, log_audit,
}
use homepilot_core_public.Artifacts.Codes.{ensure_approval_code}
use homepilot_core_public.Artifacts.Id.{validate_artifact_id}
use homepilot_core_public.Executor.Reversal.{derive_rollback, kind_can_roll_back}
use homepilot_core_public.Artifacts.Proposal.{
  Checks, GivenTarget, Proposal, Target, absent, accepted, accepted_partly, check_idempotence,
  check_steps, check_target, claims, empty, flaw, given, idempotence_of, kind_of, recorded, require,
  some_steps, target_kind_of, vmid_of, node_of, validate_target,
}

-- A nonempty text.
abbrev pub has_text : String → Bool
has_text t = not (t =ˢ "")

abbrev pub is_empty : {A : Type 0} → List A → Bool
is_empty [] = true
is_empty (x ∷ xs) = false

-- The row after `upsert_artifact`, which leaves the columns of a proposal that do not change later.
abbrev pub upserted : Option Frontmatter → Frontmatter → Frontmatter
upserted none fm = fm
upserted (some row) fm = record row {
  status = fm.status;
  hash = fm.hash;
  approved_by = fm.approved_by;
  applied_at = fm.applied_at;
  failed_at = fm.failed_at;
  failure_reason = fm.failure_reason;
  superseded_by = fm.superseded_by;
  rejected_by = fm.rejected_by;
  revoked_by = fm.revoked_by;
}

abbrev pub may_hold_secrets : ArtifactKind → Bool
may_hold_secrets host_provision = true
may_hold_secrets shell_script = true
may_hold_secrets _ = false

abbrev pub event_of : ArtifactKind → Event
event_of kind = if is_kb_note kind then apply else propose

module _ (env : Env) where
  unfoldable pub upsert_artifact : String → Frontmatter → World → World
  upsert_artifact id fm w =
      if env.db_works id
      then record w { mirror = insert id (upserted (lookup id w.mirror) fm) w.mirror }
      else w

  -- What `propose` does with the database, whose errors it passes over.
  unfoldable pub mirror_proposal : (ℕ → ℕ) → String → Frontmatter → World → World
  unfolding upsert_artifact ensure_approval_code
  mirror_proposal choice id fm w =
      if env.has_db then (ensure_approval_code env choice id (upsert_artifact id fm w)).1 else w

  abbrev pub after_validate : (ℕ → ℕ) → Proposal → Result Frontmatter → Action String
  after_validate choice spec (err e) w = (err e, w)
  after_validate choice spec (ok fm) w = (
    ok spec.id,
    log_audit env "propose" spec.id (some spec.user) (about_proposal fm.kind fm.intent)
        (mirror_proposal choice spec.id fm (write_file spec.id fm spec.body (event_of fm.kind) w)),
  )

module _ (env : Env) (checks : Checks) where
  -- The specs that a kind's body must hold.
  unfoldable pub check_body : ArtifactKind → Text → Result (Unit {0})
  unfolding check_steps extract_composite_steps
  check_body composite body = some_steps (extract_composite_steps env.safe_load body)
  check_body host_provision body = accepted (checks.parse_host_provision body)
  check_body guest_network body = accepted_partly (checks.parse_guest_network body)
  check_body _ body = ok tt

  unfoldable pub check_rollback : ArtifactKind → Option Bool → Text → Result (Unit {0})
  unfolding derive_rollback kind_can_roll_back
  check_rollback kind claimed body =
      if is_kb_note kind
      then ok tt
      else if claims claimed && not (derive_rollback checks.is_word kind body)
      then require (kind_can_roll_back kind) irreversible_kind >> flaw no_rollback_section
      else ok tt

  unfoldable pub check_snapshot : ArtifactKind → Option Bool → GivenTarget → Result (Unit {0})
  check_snapshot kind claimed target =
      let host = target_kind_of target in
      require (is_kb_note kind || not (claims claimed) || host =ˢ "vm" || host =ˢ "lxc") no_snapshot

  unfoldable pub proposed_frontmatter : ArtifactKind → Option Idempotence → Proposal → Frontmatter
  unfolding compute_body_hash derive_rollback
  proposed_frontmatter kind mode spec = record {
    id = spec.id;
    kind = kind;
    intent = spec.intent;
    status = if is_kb_note kind then applied else proposed;
    mutating = not (is_kb_note kind);
    hash = some (compute_body_hash env.hexdigest spec.body);
    idempotence = recorded spec.target mode;
    target_kind = target_kind_of spec.target;
    target_vmid = vmid_of spec.target;
    target_node = node_of spec.target;
    rollback =
        if is_kb_note kind
        then claims spec.rollback
        else derive_rollback checks.is_word kind spec.body;
    replay_safe = spec.replay_safe;
    requires_snapshot = spec.requires_snapshot;
    approved_by = none;
    applied_at = if is_kb_note kind then some (env.now spec.id) else none;
    failed_at = none;
    failure_reason = none;
    superseded_by = none;
    rejected_by = none;
    revoked_by = none;
  }

  unfoldable pub validate_propose_spec : Proposal → World → Result Frontmatter
  unfolding validate_artifact_id kind_of check_target check_idempotence check_body check_rollback
      check_snapshot proposed_frontmatter
  validate_propose_spec spec w = do
    require (validate_artifact_id checks.is_decimal (codes spec.id)) invalid_id
    require (not (is_some (lookup spec.id w.files))) already_exists
    kind ← kind_of spec.kind
    require (not (is_empty spec.body)) empty_body
    check_target kind spec.target
    mode ← check_idempotence kind spec.idempotence
    require (has_text spec.intent && leb (length (codes spec.intent)) 200) invalid_intent
    require (has_text spec.session && has_text spec.agent && has_text spec.user) needs_producer
    check_body kind spec.body
    check_rollback kind spec.rollback spec.body
    check_snapshot kind spec.requires_snapshot spec.target
    require (not (may_hold_secrets kind) || is_empty (checks.literal_secrets spec.body))
        literal_credential
    require (is_empty (checks.expression_errors (proposed_frontmatter kind mode spec) spec.body))
        bad_expression
    ok (proposed_frontmatter kind mode spec)

  unfoldable pub propose_artifact : (ℕ → ℕ) → Proposal → Action String
  unfolding validate_propose_spec mirror_proposal write_file log_audit
  propose_artifact choice spec w = after_validate env choice spec (validate_propose_spec spec w) w
