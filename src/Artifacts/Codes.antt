-- ===== src/Artifacts/Codes.antt =====
-- artifacts/approval_code.py and the rows of artifact_approval_codes in db/repository.py. A code is
-- a list of code points. `secrets.choice` is a parameter, the character of each draw, and
-- `hmac.compare_digest` is the test for equality. A write that the database refuses raises: `none`.
pub mod Relay
use homepilot_core_public.Base.{
  ℕ, zero, suc, ◌+◌, ◌-◌, ◌/◌, String, Bool, true, false, ◌&&◌, ◌||◌, Option, none, some, List, [],
  ◌∷◌, ◌++◌, ◌==◌, leb, if◌then◌else◌, length,
}
use homepilot_core_public.Base.Text.{Text, codes, same_text}
use homepilot_core_public.Base.Dict.{lookup, insert}
use homepilot_core_public.Artifacts.World.{World, Env, CodeRow}

abbrev pub code_alphabet : Text
code_alphabet = codes "ABCDEFGHJKMNPQRSTVWXYZ23456789"

abbrev pub code_length : ℕ
code_length = 10

abbrev pub lock_threshold : ℕ
lock_threshold = 5

-- The characters of the draws from the `n`th on, `k` of them.
unfoldable pub drawn : (ℕ → ℕ) → ℕ → ℕ → Text
drawn choice n zero = []
drawn choice n (suc k) = choice n ∷ drawn choice (suc n) k

abbrev pub generate_code : (ℕ → ℕ) → Text
generate_code choice = drawn choice 0 code_length

-- "[A-Za-z0-9]"
abbrev pub is_lower : ℕ → Bool
is_lower c = leb 97 c && leb c 122

abbrev pub is_upper : ℕ → Bool
is_upper c = leb 65 c && leb c 90

abbrev pub is_digit : ℕ → Bool
is_digit c = leb 48 c && leb c 57

abbrev pub is_alnum : ℕ → Bool
is_alnum c = is_upper c || is_lower c || is_digit c

-- `upper` of a letter or digit.
abbrev pub to_upper : ℕ → ℕ
to_upper c = if is_lower c then c - 32 else c

unfoldable pub normalize_code : Text → Text
normalize_code [] = []
normalize_code (c ∷ raw) =
    let rest = normalize_code raw in if is_alnum c then to_upper c ∷ rest else rest

unfoldable pub verify_code : Text → Text → Bool
unfolding normalize_code same_text
verify_code candidate stored = same_text (normalize_code candidate) stored

-- `code[:n] + "-" + code[n:]`
unfoldable pub split_at : ℕ → Text → Text
split_at zero code = 45 ∷ code
split_at (suc n) [] = 45 ∷ []
split_at (suc n) (c ∷ code) = c ∷ split_at n code

unfoldable pub format_for_display : Text → Text
unfolding split_at
format_for_display code = let mid = length code / 2 in if mid == 0 then code else split_at mid code

-- The row of a code that was just stored.
abbrev pub fresh_row : Text → CodeRow
fresh_row code = record { code = code; failed_attempts = 0; locked = false }

abbrev pub count_failure : ℕ → CodeRow → CodeRow
count_failure threshold row =
    let attempts = row.failed_attempts + 1 in
    record row {
      failed_attempts = attempts;
      locked = if leb threshold attempts then true else row.locked;
    }

module _ (env : Env) where
  -- An INSERT or UPDATE of the row of an artifact.
  abbrev pub put_row : {A : Type 0} → String → CodeRow → A → World → Option A × World
  put_row id row answer w =
      if env.db_works id
      then (some answer, record w { codes = insert id row w.codes })
      else (none, w)

  unfoldable pub set_approval_code : String → Text → World → Option (Unit {0}) × World
  set_approval_code id code w = put_row id (fresh_row code) tt w

  -- One step here; the source reads the row and writes the count back with an `await` in between.
  unfoldable pub record_failed_approval : String → ℕ → World → Option (ℕ × Bool) × World
  record_failed_approval id threshold w = elim (lookup id w.codes) [
    | none ↦ (some (0, false), w)
    | some row ↦
        (let counted = count_failure threshold row in
          put_row id counted (counted.failed_attempts, counted.locked) w)
  ]

  unfoldable pub reset_approval_lock : String → World → Option Bool × World
  reset_approval_lock id w = elim (lookup id w.codes) [
    | none ↦ if env.db_works id then (some false, w) else (none, w)
    | some row ↦ put_row id (record row { failed_attempts = 0; locked = false }) true w
  ]

  abbrev pub stored_code : Text → Option (Unit {0}) × World → Option Text × World
  stored_code code (none, w) = (none, w)
  stored_code code (some _, w) = (some code, w)

  unfoldable pub ensure_approval_code : (ℕ → ℕ) → String → World → Option Text × World
  unfolding drawn set_approval_code
  ensure_approval_code choice id w = elim (lookup id w.codes) [
    | none ↦ (let code = generate_code choice in stored_code code (set_approval_code id code w))
    | some row ↦ (some row.code, w)
  ]
