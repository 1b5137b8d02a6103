-- ===== src/Artifacts/Propose/Approvable.antt =====
-- A proposal that goes through can be approved.
use homepilot_core_public.Base.{
  inl, inr, ℕ, String, ◌≡◌, refl, sym, ap, ◌∙◌, ◌≢◌, true, false, not, ◌&&◌, ◌||◌, Option, some, [],
  ◌∷◌, arith, eq_iff, subst, Bool-cases, leb, length, is_some,
}
use homepilot_core_public.Base.Text.{Text, codes}
use homepilot_core_public.Base.Dict.{lookup}
use homepilot_core_public.Artifacts.Model.{
  ArtifactKind, is_kb_note, is_composite, proposed, approved, Idempotence, Frontmatter, Result, ok,
  err, ◌>>=◌, ◌>>◌, Result-cases, invalid_id, already_exists, empty_body, invalid_intent,
  needs_producer, literal_credential, bad_expression, validate_transition, valid_transitions,
}
use homepilot_core_public.Artifacts.Body.{
  is_newline, drop_start, extract_body, compute_body_hash, universal_newlines-same, has_return,
}
use homepilot_core_public.Artifacts.World.{World, Env, Doc, about_proposal, read_file, write_file}
use homepilot_core_public.Artifacts.World.Reads.{as_read, read-write, files-log_audit, status_at}
use homepilot_core_public.Artifacts.Cascade.{hash_matches, composite_cascade}
use homepilot_core_public.Artifacts.Transitions.{approve_checks, approve_artifact}
use homepilot_core_public.Artifacts.Transitions.Approve.{status-approve}
use homepilot_core_public.Artifacts.Codes.{ensure_approval_code, set_approval_code}
use homepilot_core_public.Artifacts.Id.{validate_artifact_id}
use homepilot_core_public.Executor.Reversal.{starts}
use homepilot_core_public.Artifacts.Propose.{
  check_body, check_rollback, check_snapshot, proposed_frontmatter, validate_propose_spec, has_text,
  is_empty, may_hold_secrets, event_of, upsert_artifact, mirror_proposal, after_validate,
  propose_artifact,
}
use homepilot_core_public.Artifacts.Proposal.{
  Proposal, Checks, require, kind_of, check_target, check_idempotence,
}

-- What an operation returns satisfies `P`, where it returns.
abbrev Yields : {A : Type 0} → (A → Type 0) → Result A → Type 0
Yields P (err e) = Unit
Yields P (ok a) = P a

Yields-then :
    {A : Type 0} (P : A → Type 0) (g : Result (Unit {0})) (r : Result A)
    → Yields P r
    → Yields P (g >> r)
Yields-then P (err e) r h = tt
Yields-then P (ok _) r h = h

Yields-bind :
    {A B : Type 0} (P : B → Type 0) (r : Result A) (f : A → Result B)
    → ((a : A) → r ≡ ok a → Yields P (f a))
    → Yields P (r >>= f)
Yields-bind P (err e) f h = tt
Yields-bind P (ok a) f h = h a refl

kind_of-kb_note :
    (k : String) (kind : ArtifactKind)
    → kind_of k ≡ ok kind
    → is_kb_note kind ≡ true
    → k ≡ "kb-note"
unfolding kind_of
kind_of-kb_note k kind h note = ground (arith, eq_iff k "kb-note", h, note)

kind_of-composite :
    (k : String) (kind : ArtifactKind)
    → kind_of k ≡ ok kind
    → is_composite kind ≡ true
    → k ≡ "composite"
unfolding kind_of
kind_of-composite k kind h found = ground (arith, eq_iff k "composite", h, found)

drop_start-starts : (t : Text) → starts is_newline t ≡ false → extract_body t ≡ t
unfolding extract_body drop_start
drop_start-starts [] h = refl
drop_start-starts (c ∷ t) h = rw h refl

-- An artifact that reads back as proposed, with the hash of its body, and that is no composite passes
-- the checks of an approval.
approve_checks-single :
    (env : Env) (id : String) (w : World) (d : Doc)
    → read_file w.files id ≡ ok d
    → d.fm.status ≡ proposed
    → hash_matches env d ≡ true
    → is_composite d.fm.kind ≡ false
    → approve_checks env id w ≡ ok (d, [])
unfolding approve_checks composite_cascade validate_transition valid_transitions
approve_checks-single env id w d reads waiting intact single =
    rw (approve_checks, reads, waiting, intact, single) refl

module _ (env : Env) (checks : Checks) (spec : Proposal) where
  -- The frontmatter of the proposal, for the kind that it names.
  abbrev IsOf : Frontmatter → Type 0
  IsOf fm =
      (kind : ArtifactKind) × (mode : Option Idempotence) × (kind_of spec.kind ≡ ok kind)
      × (fm ≡ proposed_frontmatter env checks kind mode spec)

  validate-IsOf : (w : World) → Yields IsOf (validate_propose_spec env checks spec w)
  unfolding validate_propose_spec
  validate-IsOf w =
      Yields-then IsOf (require (validate_artifact_id checks.is_decimal (codes spec.id)) invalid_id)
        _
        (Yields-then IsOf (require (not (is_some (lookup spec.id w.files))) already_exists) _ (
          Yields-bind IsOf (kind_of spec.kind) _ (λ kind known.
            Yields-then IsOf (require (not (is_empty spec.body)) empty_body) _ (
              Yields-then IsOf (check_target kind spec.target) _ (
                Yields-bind IsOf (check_idempotence kind spec.idempotence) _
                  (λ mode _. checked kind mode known))))))
    where
      checked :
          (kind : ArtifactKind) (mode : Option Idempotence)
          → kind_of spec.kind ≡ ok kind
          → Yields IsOf (do
            require (has_text spec.intent && leb (length (codes spec.intent)) 200) invalid_intent
            require
                (has_text spec.session && has_text spec.agent && has_text spec.user)
                needs_producer
            check_body env checks kind spec.body
            check_rollback env checks kind spec.rollback spec.body
            check_snapshot env checks kind spec.requires_snapshot spec.target
            require
                (not (may_hold_secrets kind) || is_empty (checks.literal_secrets spec.body))
                literal_credential
            require
                (is_empty (
                  checks.expression_errors
                    (proposed_frontmatter env checks kind mode spec)
                    spec.body))
                bad_expression
            ok (proposed_frontmatter env checks kind mode spec))
      checked kind mode known =
          let fm = proposed_frontmatter env checks kind mode spec in
          let last : Yields IsOf (ok fm) = (kind, mode, known, refl) in
          let intent = has_text spec.intent && leb (length (codes spec.intent)) 200 in
          let producer = has_text spec.session && has_text spec.agent && has_text spec.user in
          let bare = not (may_hold_secrets kind) || is_empty (checks.literal_secrets spec.body) in
          let sound = is_empty (checks.expression_errors fm spec.body) in
          Yields-then IsOf (require intent invalid_intent) _ (
            Yields-then IsOf (require producer needs_producer) _ (
              Yields-then IsOf (check_body env checks kind spec.body) _ (
                Yields-then IsOf (check_rollback env checks kind spec.rollback spec.body) _ (
                  Yields-then IsOf
                    (check_snapshot env checks kind spec.requires_snapshot spec.target) _
                    (Yields-then IsOf (require bare literal_credential) _
                      (Yields-then IsOf (require sound bad_expression) (ok fm) last))))))

  -- What of the frontmatter an approval reads.
  IsOf-ready :
      (fm : Frontmatter)
      → IsOf fm
      → spec.kind ≢ "kb-note"
      → spec.kind ≢ "composite"
      → starts is_newline spec.body ≡ false
      → has_return spec.body ≡ false
      → (fm.status ≡ proposed)
        × (hash_matches env (as_read fm spec.body) ≡ true)
        × (is_composite fm.kind ≡ false)
  unfolding proposed_frontmatter
  IsOf-ready fm (kind, mode, known, same) mutating alone flush clean =
      let note : is_kb_note kind ≡ false = elim (Bool-cases (is_kb_note kind)) [
        | inl odd ↦ absurd (mutating (kind_of-kb_note spec.kind kind known odd))
        | inr other ↦ other
      ] in
      let single : is_composite kind ≡ false = elim (Bool-cases (is_composite kind)) [
        | inl odd ↦ absurd (alone (kind_of-composite spec.kind kind known odd))
        | inr other ↦ other
      ] in
      let body =
        ap extract_body (universal_newlines-same spec.body clean)
        ∙ drop_start-starts spec.body flush in
      subst
        (λ f.
          (f.status ≡ proposed)
          × (hash_matches env (as_read f spec.body) ≡ true)
          × (is_composite f.kind ≡ false))
        (sym same)
        (
          rw note refl,
          rw body (
              (eq_iff (compute_body_hash env.hexdigest spec.body)
                  (compute_body_hash env.hexdigest spec.body)).1
                refl),
          single,
        )

  module _ (choice : ℕ → ℕ) (w : World) where
    files-mirror :
        (id : String) (fm : Frontmatter) (v : World)
        → (mirror_proposal env choice id fm v).files ≡ v.files
    unfolding mirror_proposal upsert_artifact ensure_approval_code set_approval_code
    files-mirror id fm v = ground arith

    abbrev next : World
    next = (propose_artifact env checks choice spec w).1

    -- The file of a proposal that went through, as it is read back.
    read-propose :
        (fm : Frontmatter)
        → validate_propose_spec env checks spec w ≡ ok fm
        → read_file next.files spec.id ≡ ok (as_read fm spec.body)
    unfolding propose_artifact
    read-propose fm valid =
        let id = spec.id in
        let written = write_file id fm spec.body (event_of fm.kind) w in
        let row = about_proposal fm.kind fm.intent in
        let mirrored = mirror_proposal env choice id fm written in
        ap (λ r. read_file (after_validate env choice spec r w).1.files id) valid
        ∙ ap (λ files. read_file files id)
            (files-log_audit env "propose" id (some spec.user) row mirrored
              ∙ files-mirror id fm written)
        ∙ read-write id id fm spec.body (event_of fm.kind) w
        ∙ rw ((eq_iff id id).1 refl) refl

    -- Take a proposal that goes through, neither a note nor a composite, whose body starts with no
    -- newline and holds no carriage return. The call of approve that follows it, whoever approves and
    -- for whatever reason, leaves its artifact approved.
    pub propose-approve :
        (user : String) (reason role : Option String)
        → (propose_artifact env checks choice spec w).0 ≡ ok spec.id
        → spec.kind ≢ "kb-note"
        → spec.kind ≢ "composite"
        → starts is_newline spec.body ≡ false
        → has_return spec.body ≡ false
        → status_at
            (approve_artifact env spec.id user reason role
              (propose_artifact env checks choice spec w).1).1
            spec.id
          ≡ some approved
    unfolding propose_artifact
    propose-approve user reason role through mutating alone flush clean =
        elim (Result-cases (validate_propose_spec env checks spec w)) [
          | inl (e, refused) ↦ absurd (ground (arith, refused, through))
          | inr (fm, valid) ↦
              (let of_spec = subst (Yields IsOf) valid (validate-IsOf w) in
                let (waiting, intact, single) = IsOf-ready fm of_spec mutating alone flush clean in
                let d = as_read fm spec.body in
                let checked =
                  approve_checks-single env spec.id next d (read-propose fm valid) waiting intact
                    single in
                status-approve env spec.id next user reason role spec.id checked
                ∙ rw ((eq_iff spec.id spec.id).1 refl) refl)
        ]
