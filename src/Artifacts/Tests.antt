-- ===== src/Artifacts/Tests.antt =====
-- Runs of the artifact manager on a small store: a composite `stack` with one step, `unit_a`, both
-- proposed, an approved composite `parent` that mentions `note`, and an approved `note`.
mod Proposals
use homepilot_core_public.Base.{
  ℕ, ◌↔◌, if-holds, String, ◌≡◌, refl, ◌≢◌, ◌⊎◌, true, false, none, some, List, [], ◌∷◌, ◌++◌, ◌==◌,
  eq_iff, if◌then◌else◌, length, arith, inr, All,
}
use homepilot_core_public.Base.Text.{Text, codes}
use homepilot_core_public.Base.Dict.{lookup, insert}
use homepilot_core_public.Artifacts.Model.{
  ArtifactKind, shell_script, composite, kb_note, ArtifactStatus, proposed, approved, failed,
  applied, revoked, Frontmatter, ok, err, conflict, out_of_fuel,
}
use homepilot_core_public.Artifacts.Body.{
  is_space, push_end, drop_end, drop_start, cons_line, split_lines, join_lines, rstrip, clean_lines,
  normalize, compute_body_hash, extract_body, universal_newlines, translate, append_log,
}
use homepilot_core_public.Artifacts.Spec.{Step, steps, extract_composite_steps}
use homepilot_core_public.Artifacts.World.{Doc, World, Env, read_file}
use homepilot_core_public.Artifacts.World.Reads.{status_at}
use homepilot_core_public.Artifacts.Cascade.{hash_matches, composite_cascade}
use homepilot_core_public.Artifacts.Transitions.{
  approve_artifact, approve_checks, mark_applied, revoke_artifact,
}
use homepilot_core_public.Artifacts.Transitions.Approve.{
  IsStepApproved, approve_intact, approve_closes, approve_ends,
}
use homepilot_core_public.Artifacts.Transitions.Applied.{mark_applied_seals}
use homepilot_core_public.Artifacts.Invalidate.{
  edit_artifact, edit_written, cascade_invalidate, edited_frontmatter, mentions,
}
use homepilot_core_public.Artifacts.Invalidate.Lower.{Lower}
use homepilot_core_public.Artifacts.Invalidate.Edit.{edit_ends, edit_idle}
use homepilot_core_public.Artifacts.Invalidate.TakenBack.{edit_reopens, edit_settles, edit_lowers}
use homepilot_core_public.Artifacts.Body.Trailing.{hash-append_blank}
use homepilot_core_public.Artifacts.Codes.{
  generate_code, verify_code, format_for_display, code_alphabet,
}
use homepilot_core_public.Artifacts.Codes.Relay.{Relays, generate_code-relayed, has_char}
use homepilot_core_public.Artifacts.Machine.{Op, step, run, moves}
use homepilot_core_public.Artifacts.Machine.Unique.{IsUnique}
use homepilot_core_public.Artifacts.Machine.Runs.{
  step_allowed, run-IsUnique, final_forever, applied_was_approved,
}

digest : Text → String
digest t = if length t == 0 then "blank" else "full"

abbrev one_step : List Step
one_step = record { id = "a"; artifact = "unit_a"; on_error = "abort"; depends_on = [] } ∷ []

abbrev sample_env : Env
sample_env = record {
  hexdigest = λ t. digest t;
  safe_load = λ t. steps one_step;
  has_db = true;
  db_works = λ id. true;
  now = λ id. "2025-01-01T00:00:00Z";
}

abbrev sample_fm : String → ArtifactKind → ArtifactStatus → String → Frontmatter
sample_fm id kind status hash = record {
  id = id;
  kind = kind;
  intent = "install";
  status = status;
  mutating = true;
  hash = some hash;
  idempotence = none;
  target_kind = "host";
  target_vmid = none;
  target_node = none;
  rollback = false;
  replay_safe = none;
  requires_snapshot = none;
  approved_by = none;
  applied_at = none;
  failed_at = none;
  failure_reason = none;
  superseded_by = none;
  rejected_by = none;
  revoked_by = none;
}

abbrev full : String
full = "sha256:full"

abbrev stack_doc : Doc
stack_doc = record {
  fm = sample_fm "stack" composite proposed full;
  body = codes "```yaml composite-spec\nsteps: []\n```\n";
}

abbrev unit_doc : Doc
unit_doc = record { fm = sample_fm "unit_a" shell_script proposed full; body = codes "echo a\n" }

abbrev note_doc : Doc
note_doc = record {
  fm = sample_fm "note" kb_note approved "sha256:blank";
  body = codes "changed\n";
}

abbrev parent_doc : Doc
parent_doc = record {
  fm = sample_fm "parent" composite approved full;
  body = codes "artifact: note\n";
}

abbrev other_doc : Doc
other_doc = record {
  fm = sample_fm "other" composite approved full;
  body = codes "artifact: unit_b\n";
}

abbrev sample : World
sample = record {
  files =
      ("stack", stack_doc)
      ∷ ("unit_a", unit_doc)
      ∷ ("parent", parent_doc)
      ∷ ("note", note_doc)
      ∷ ("other", other_doc)
      ∷ [];
  mirror = [];
  codes = [];
  audit = [];
  commits = [];
}

abbrev approved_run : World
approved_run = (approve_artifact sample_env "stack" "ada" none none sample).1

stack_approves : (approve_artifact sample_env "stack" "ada" none none sample).0 ≡ ok tt
unfolding approve_artifact approve_checks composite_cascade drop_end split_lines compute_body_hash
    normalize join_lines clean_lines rstrip is_space extract_body drop_start universal_newlines
    translate digest lookup insert read_file push_end cons_line
stack_approves = refl

unit_status : status_at sample "unit_a" ≡ some proposed
unfolding read_file lookup extract_body drop_start universal_newlines translate
unit_status = refl

unit_status_after : status_at approved_run "unit_a" ≡ some approved
unfolding approve_artifact approve_checks composite_cascade drop_end split_lines compute_body_hash
    normalize join_lines clean_lines rstrip is_space extract_body drop_start universal_newlines
    translate digest lookup insert read_file push_end cons_line
unit_status_after = refl

stack_status_after : status_at approved_run "stack" ≡ some approved
unfolding approve_artifact approve_checks composite_cascade drop_end split_lines compute_body_hash
    normalize join_lines clean_lines rstrip is_space extract_body drop_start universal_newlines
    translate digest lookup insert read_file push_end cons_line
stack_status_after = refl

stack_read : read_file sample.files "stack" ≡ ok stack_doc
unfolding read_file lookup extract_body drop_start universal_newlines translate
stack_read = refl

stack_steps : extract_composite_steps sample_env.safe_load stack_doc.body ≡ ok one_step
unfolding extract_composite_steps
stack_steps = refl

note_read : read_file sample.files "note" ≡ ok note_doc
unfolding read_file lookup extract_body drop_start universal_newlines translate
note_read = refl

unit_read : read_file sample.files "unit_a" ≡ ok unit_doc
unfolding read_file lookup extract_body drop_start universal_newlines translate
unit_read = refl

note_changed : hash_matches sample_env note_doc ≡ false
unfolding drop_end split_lines compute_body_hash normalize join_lines clean_lines rstrip is_space
    extract_body drop_start universal_newlines translate digest lookup insert read_file push_end
    cons_line
note_changed = refl

unit_unchanged : hash_matches sample_env unit_doc ≡ true
unfolding drop_end split_lines compute_body_hash normalize join_lines clean_lines rstrip is_space
    extract_body drop_start universal_newlines translate digest lookup insert read_file push_end
    cons_line
unit_unchanged = refl

note_missing :
    (approve_artifact sample_env "note" "ada" none none sample).0 ≡ err (conflict approved approved)
unfolding approve_artifact approve_checks composite_cascade drop_end split_lines compute_body_hash
    normalize join_lines clean_lines rstrip is_space extract_body drop_start universal_newlines
    translate digest lookup insert read_file push_end cons_line
note_missing = refl

sample-IsUnique : IsUnique sample
unfolding lookup
sample-IsUnique = (refl, (refl, (refl, (refl, (refl, tt)))))

approve_intact_example :
    (d : Doc) × (read_file sample.files "unit_a" ≡ ok d)
    × ((d.fm.status ≡ proposed) ⊎ ((◌≡◌ {A = String} "stack" "unit_a") × (d.fm.status ≡ failed)))
    × (hash_matches sample_env d ≡ true)
    × (status_at approved_run "unit_a" ≡ some approved)
approve_intact_example =
    approve_intact sample_env "stack" sample "ada" none none "unit_a"
      (λ q. absurd (ground (arith, q, unit_status, unit_status_after)))

approve_closes_example :
    All (IsStepApproved sample_env "stack" sample "ada" none none approved_run) one_step
approve_closes_example =
    approve_closes sample_env "stack" sample "ada" none none stack_approves "stack" stack_doc
      stack_read (λ q. absurd (ground arith)) stack_status_after refl one_step stack_steps

approve_ends_example :
    (approve_artifact sample_env "stack" "ada" none none sample).0 ≢ err out_of_fuel
approve_ends_example = approve_ends sample_env "stack" sample "ada" none none

parent_status : status_at sample "parent" ≡ some approved
unfolding read_file lookup extract_body drop_start universal_newlines translate
parent_status = refl

abbrev edited_run : World
edited_run = (edit_artifact sample_env "note" sample).1

other_after : read_file edited_run.files "other" ≡ ok other_doc
unfolding edit_artifact edit_written cascade_invalidate edited_frontmatter mentions drop_end
    split_lines compute_body_hash normalize join_lines clean_lines rstrip is_space extract_body
    drop_start universal_newlines translate digest lookup insert read_file push_end cons_line
other_after = refl

parent_status_after : status_at edited_run "parent" ≡ some proposed
unfolding edit_artifact edit_written cascade_invalidate edited_frontmatter mentions drop_end
    split_lines compute_body_hash normalize join_lines clean_lines rstrip is_space extract_body
    drop_start universal_newlines translate digest lookup insert read_file push_end cons_line
parent_status_after = refl

edit_ends_example : (edit_artifact sample_env "note" sample).0 ≢ err out_of_fuel
edit_ends_example = edit_ends sample_env "note" sample sample-IsUnique

edit_settles_example : mentions "note" other_doc.body ≡ false
edit_settles_example =
    edit_settles sample_env "note" sample sample-IsUnique note_doc note_read refl note_changed
      "other" other_doc other_after refl refl
      (λ q. absurd (ground (arith, (eq_iff "other" "note").1 q)))

abbrev ops : List Op
ops =
    Op.approve "stack" "ada" none none
    ∷ Op.apply "stack" (codes "done")
    ∷ Op.revoke "stack" "ada" none
    ∷ []

abbrev to_applied : List Op
to_applied = Op.approve "stack" "ada" none none ∷ Op.apply "stack" (codes "done") ∷ []

stack_applied : status_at (run sample_env to_applied sample) "stack" ≡ some applied
unfolding approve_artifact approve_checks composite_cascade drop_end split_lines compute_body_hash
    normalize join_lines clean_lines rstrip is_space extract_body drop_start universal_newlines
    translate digest lookup insert read_file push_end cons_line run step mark_applied append_log
stack_applied = refl

stack_revoked : status_at (run sample_env ops sample) "stack" ≡ some revoked
unfolding approve_artifact approve_checks composite_cascade drop_end split_lines compute_body_hash
    normalize join_lines clean_lines rstrip is_space extract_body drop_start universal_newlines
    translate digest lookup insert read_file push_end cons_line run step mark_applied append_log
    revoke_artifact
stack_revoked = refl

stack_status : status_at sample "stack" ≡ some proposed
unfolding read_file lookup extract_body drop_start universal_newlines translate
stack_status = refl

step_allowed_example :
    (t : ArtifactStatus) × (status_at (step sample_env (Op.edit "note") sample) "parent" ≡ some t)
    × (moves approved t ≡ true)
step_allowed_example =
    step_allowed sample_env (Op.edit "note") sample "parent" approved sample-IsUnique parent_status

abbrev revoked_run : World
revoked_run = run sample_env ops sample

final_forever_example : status_at (run sample_env ops revoked_run) "stack" ≡ some revoked
final_forever_example =
    final_forever sample_env ops revoked_run "stack" revoked
      (run-IsUnique sample_env ops sample sample-IsUnique) (inr (inr refl)) stack_revoked

applied_was_approved_example :
    (before : List Op) × (after : List Op) × (before ++ after ≡ to_applied)
    × (status_at (run sample_env before sample) "stack" ≡ some approved)
applied_was_approved_example =
    applied_was_approved sample_env to_applied sample "stack" proposed sample-IsUnique stack_status
      (λ q. absurd (ground arith)) stack_applied

abbrev applied_run : World
applied_run = (mark_applied sample_env "note" (codes "done") sample).1

-- Draws that alternate between two characters.
abbrev draws : ℕ → ℕ
draws n = if n == 0 then 65 else 66

draws_inside : (n : ℕ) → has_char (draws n) code_alphabet ≡ true
unfolding has_char
draws_inside n =
    if-holds (λ c. has_char c code_alphabet ≡ true) (n == 0) 65 66 (λ _. refl) (λ _. refl)

abbrev lower_case : Text
lower_case = codes "abbbb-bbbbb"

generate_code-relayed_example :
    ((verify_code lower_case (generate_code draws) ≡ true)
      ↔ Relays (generate_code draws) lower_case)
    × Relays (generate_code draws) (format_for_display (generate_code draws))
generate_code-relayed_example = generate_code-relayed draws lower_case draws_inside
