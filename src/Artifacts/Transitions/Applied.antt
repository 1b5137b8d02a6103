-- ===== src/Artifacts/Transitions/Applied.antt =====
-- `mark_applied` seals what it writes: the stored hash is that of the body as it is read back.
use homepilot_core_public.Base.{
  ℕ, String, ◌≡◌, refl, ap, ◌∙◌, ◌≢◌, inl, inr, true, false, none, some, [], ◌∷◌, arith, Bool-cases,
  Option-cases, eq_iff,
}
use homepilot_core_public.Base.Text.{Text}
use homepilot_core_public.Base.Dict.{lookup}
use homepilot_core_public.Artifacts.Model.{Frontmatter, approved, applied, ok, validate_transition}
use homepilot_core_public.Artifacts.Body.{
  is_newline, push_end, drop_end, drop_start, append_log, extract_body, compute_body_hash,
  universal_newlines, universal_newlines-same, has_return,
}
use homepilot_core_public.Artifacts.World.{Doc, World, Env, apply, no_details, read_file}
use homepilot_core_public.Artifacts.World.Reads.{as_read}
use homepilot_core_public.Artifacts.Cascade.{hash_matches}
use homepilot_core_public.Artifacts.Transitions.{checked_read, record_change, mark_applied, commit}
use homepilot_core_public.Artifacts.Transitions.Status.{read-record_change}

-- A text that begins with a newline, or with another character, or is empty.
extract-head : (b : Text) (c : ℕ) (r : Text) → extract_body b ≡ c ∷ r → is_newline c ≡ false
unfolding extract_body drop_start
extract-head [] c r h = absurd (cc)
extract-head (x ∷ b) c r h = elim (Bool-cases (is_newline x)) [
  | inl nl ↦ extract-head b c r (ground arith)
  | inr plain ↦ ground arith
]

push_end-head :
    (c : ℕ) (r : Text) → is_newline c ≡ false → (t : Text) × (push_end is_newline c r ≡ c ∷ t)
unfolding push_end
push_end-head c [] h = ([], rw h)
push_end-head c (x ∷ r) h = (x ∷ r, refl)

-- A log put behind a body that was read, and is not empty, is read back as it was written.
extract-append_log :
    (b body log : Text)
    → extract_body b ≡ body
    → body ≢ []
    → extract_body (append_log body log) ≡ append_log body log
unfolding append_log drop_end
extract-append_log b [] log h ne = absurd (ne refl)
extract-append_log b (c ∷ r) log h ne =
    let plain = extract-head b c r h in
    let (t, e) = push_end-head c (drop_end is_newline r) plain in
    rw e (unfold extract_body drop_start in rw plain)

read_body :
    (env : Env) (w : World) (id : String) {d : Doc}
    → read_file w.files id ≡ ok d
    → (b : Text) × (extract_body b ≡ d.body)
unfolding read_file
read_body env w id {d} h = elim (Option-cases (lookup id w.files)) [
  | inl e ↦ absurd (ground arith)
  | inr (raw, e) ↦ (universal_newlines raw.body, ground arith)
]

module _ (env : Env) (id : String) (log : Text) (w : World) (d : Doc) where
  abbrev sealed : Frontmatter
  sealed = record d.fm {
    status = applied;
    applied_at = some (env.now id);
    hash = some (compute_body_hash env.hexdigest (append_log d.body log));
  }

  checked_applied :
      read_file w.files id ≡ ok d → d.fm.status ≡ approved → checked_read env id applied w ≡ ok d
  unfolding checked_read validate_transition
  checked_applied h a = ground arith

  -- `mark_applied` goes through on an approved artifact whose body is not empty, with a log that
  -- brings no carriage return; what is read
  -- afterwards is applied, holds the body with the log appended, and matches its hash.
  pub mark_applied_seals :
      read_file w.files id ≡ ok d
      → d.fm.status ≡ approved
      → d.body ≢ []
      → has_return (append_log d.body log) ≡ false
      → ((mark_applied env id log w).0 ≡ ok tt)
        × ((e : Doc) × (read_file (mark_applied env id log w).1.files id ≡ ok e)
            × (e.fm.status ≡ applied)
            × (e.body ≡ append_log d.body log)
            × (hash_matches env e ≡ true))
  unfolding mark_applied
  mark_applied_seals h a ne clean =
      let (b, eb) = read_body env w id h in
      let same =
        ap extract_body (universal_newlines-same (append_log d.body log) clean)
        ∙ extract-append_log b d.body log eb ne in
      let after =
        read-record_change env id id sealed (append_log d.body log) apply "apply" none no_details
          w in
      let sees : read_file
            (record_change env id sealed (append_log d.body log) apply "apply" none no_details
              w).files
            id
          ≡ ok (as_read sealed (append_log d.body log)) =
        ground (arith, eq_iff id id) in
      rw (checked_applied h a, commit)
        (
          refl,
          (
            as_read sealed (append_log d.body log),
            sees,
            refl,
            same,
            rw same (
                ground (
                  arith,
                  eq_iff (compute_body_hash env.hexdigest (append_log d.body log))
                      (compute_body_hash env.hexdigest (append_log d.body log)),
                )),
          ),
        )
