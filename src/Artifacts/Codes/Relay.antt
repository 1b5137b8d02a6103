-- ===== src/Artifacts/Codes/Relay.antt =====
-- Which texts a stored code verifies.
use homepilot_core_public.Base.{
  ℕ, zero, suc, ◌+◌, ◌-◌, ◌/◌, ◌≡◌, refl, ◌↔◌, inl, inr, Bool, true, false, ◌&&◌, ◌||◌, [], ◌∷◌,
  ◌==◌, length, All, Bool-cases, arith, subst,
}
use homepilot_core_public.Base.Text.{Text, same_text-eq, same_text_refl}
use homepilot_core_public.Artifacts.Codes.{
  code_alphabet, drawn, generate_code, is_lower, is_upper, is_digit, is_alnum, normalize_code,
  verify_code, split_at, format_for_display,
}

-- A code as people pass it on: its characters in order, a letter perhaps in lower case, with
-- characters other than letters and digits anywhere.
pub data Relays : Text → Text → Type 0 where
  relayed_end : Relays [] []
  as_stored :
      (c : ℕ) (code raw : Text) → is_alnum c ≡ true → Relays code raw → Relays (c ∷ code) (c ∷ raw)
  in_lower_case :
      (c : ℕ) (code raw : Text)
      → is_upper c ≡ true
      → Relays code raw
      → Relays (c ∷ code) ((c + 32) ∷ raw)
  grouped : (c : ℕ) (code raw : Text) → is_alnum c ≡ false → Relays code raw → Relays code (c ∷ raw)

-- The characters of a stored code: capitals and digits.
abbrev pub is_canonical : ℕ → Bool
is_canonical c = is_upper c || is_digit c

back : (c : ℕ) → is_lower c ≡ true → c - 32 + 32 ≡ c
back c h = ground arith

high : (c : ℕ) → is_lower c ≡ true → is_upper (c - 32) ≡ true
high c h = ground arith

normalize_code-Relays : (raw : Text) → Relays (normalize_code raw) raw
unfolding normalize_code
normalize_code-Relays [] = relayed_end
normalize_code-Relays (c ∷ raw) = elim (Bool-cases (is_alnum c)) [
  | inl inside ↦ elim (Bool-cases (is_lower c)) [
    | inl low ↦
        rw (inside, low)
          (subst (λ d. Relays ((c - 32) ∷ normalize_code raw) (d ∷ raw)) (back c low)
            (in_lower_case (c - 32) (normalize_code raw) raw (high c low)
              (normalize_code-Relays raw)))
    | inr other ↦
        rw (inside, other) (as_stored c (normalize_code raw) raw inside (normalize_code-Relays raw))
  ]
  | inr outside ↦
      rw outside (grouped c (normalize_code raw) raw outside (normalize_code-Relays raw))
]

Relays-normalize_code :
    (code raw : Text)
    → All (λ c. is_canonical c ≡ true) code
    → Relays code raw
    → normalize_code raw ≡ code
unfolding normalize_code
Relays-normalize_code code raw fine relayed_end = refl
Relays-normalize_code code raw fine (as_stored c code' raw' inside r) =
    ground (arith, Relays-normalize_code code' raw' fine.1 r)
Relays-normalize_code code raw fine (in_lower_case c code' raw' high r) =
    ground (arith, Relays-normalize_code code' raw' fine.1 r)
Relays-normalize_code code raw fine (grouped c _ raw' outside r) =
    rw outside (Relays-normalize_code code raw' fine r)

-- A text is accepted for a code exactly where it passes the code on.
verify_code-Relays :
    (code raw : Text)
    → All (λ c. is_canonical c ≡ true) code
    → (verify_code raw code ≡ true) ↔ Relays code raw
unfolding verify_code
verify_code-Relays code raw fine = (
  λ h.
      subst (λ c. Relays c raw) (same_text-eq (normalize_code raw) code h)
        (normalize_code-Relays raw),
  λ r. rw (Relays-normalize_code code raw fine r) (same_text_refl code),
)

as_is : (code : Text) → All (λ c. is_canonical c ≡ true) code → Relays code code
as_is [] fine = relayed_end
as_is (c ∷ code) fine = as_stored c code code (ground (arith, fine.0)) (as_is code fine.1)

split_at-Relays :
    (n : ℕ) (code : Text) → All (λ c. is_canonical c ≡ true) code → Relays code (split_at n code)
unfolding split_at
split_at-Relays zero code fine = grouped 45 code code refl (as_is code fine)
split_at-Relays (suc n) [] fine = grouped 45 [] [] refl relayed_end
split_at-Relays (suc n) (c ∷ code) fine =
    as_stored c code (split_at n code) (ground (arith, fine.0)) (split_at-Relays n code fine.1)

format-Relays :
    (code : Text) → All (λ c. is_canonical c ≡ true) code → Relays code (format_for_display code)
unfolding format_for_display
format-Relays code fine = elim (Bool-cases (length code / 2 == 0)) [
  | inl short ↦ rw short (as_is code fine)
  | inr long ↦ rw long (split_at-Relays (length code / 2) code fine)
]

unfoldable pub has_char : ℕ → Text → Bool
has_char c [] = false
has_char c (x ∷ xs) = x == c || has_char c xs

all_canonical : Text → Bool
all_canonical [] = true
all_canonical (x ∷ xs) = is_canonical x && all_canonical xs

has_char-canonical :
    (c : ℕ) (xs : Text) → has_char c xs ≡ true → all_canonical xs ≡ true → is_canonical c ≡ true
unfolding has_char all_canonical
has_char-canonical c [] h fine = absurd (cc h)
has_char-canonical c (x ∷ xs) h fine = ground (arith, has_char-canonical c xs)

drawn-canonical :
    (choice : ℕ → ℕ)
    → ((n : ℕ) → has_char (choice n) code_alphabet ≡ true)
    → (n k : ℕ) → All (λ c. is_canonical c ≡ true) (drawn choice n k)
unfolding drawn all_canonical
drawn-canonical choice draws n zero = tt
drawn-canonical choice draws n (suc k) = (
  has_char-canonical (choice n) code_alphabet (draws n) refl,
  drawn-canonical choice draws (suc n) k,
)

-- A generated code, where each draw gives a character of the alphabet, is verified by a text
-- exactly where the text relays it: the same characters in order, letters in either case, with
-- characters other than letters and digits anywhere. The displayed form relays it.
pub generate_code-relayed :
    (choice : ℕ → ℕ) (raw : Text)
    → ((n : ℕ) → has_char (choice n) code_alphabet ≡ true)
    → ((verify_code raw (generate_code choice) ≡ true) ↔ Relays (generate_code choice) raw)
      × Relays (generate_code choice) (format_for_display (generate_code choice))
generate_code-relayed choice raw draws =
    let fine = drawn-canonical choice draws 0 10 in
    (verify_code-Relays (generate_code choice) raw fine, format-Relays (generate_code choice) fine)
