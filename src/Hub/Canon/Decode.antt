-- ===== src/Hub/Canon/Decode.antt =====
-- The reader gives back what was written.
use homepilot_core_public.Base.{
  ℕ, zero, suc, ◌+◌, ◌≤◌, ◌<◌, ◌≡◌, refl, sym, ap, ◌∙◌, Bool, true, false, some, [], ◌∷◌, ◌++◌, not,
  length, All, arith,
}
use homepilot_core_public.Base.Text.{Text}
use homepilot_core_public.Hub.Canon.{
  Json, null, boolean, number, text, array, object, Elements, no_elements, element, Members,
  no_members, member, escape_char, escape, canon_str, write, write_elements, more_elements,
  write_members, more_members,
}
use homepilot_core_public.Hub.Canon.Read.{
  IsWritten, AreWritten, AllWritten, is_numeric, read_char, next_is, read_str, read_number,
  read_value, read_elements, read_more, read_members, read_more_members,
}

read_char-escape : (c : ℕ) (rest : Text) → read_char (escape_char c rest) ≡ some (c, rest)
unfolding read_char escape_char
read_char-escape c rest = ground arith

escape-unquoted : (c : ℕ) (rest : Text) → next_is 34 (escape_char c rest) ≡ false
unfolding escape_char
escape-unquoted c rest = ground arith

read_str-escape :
    (n : ℕ) (t rest : Text) → length t < n → read_str n (escape t (34 ∷ rest)) ≡ some (t, rest)
unfolding read_str escape
read_str-escape zero t rest h = absurd (omega (arith, h))
read_str-escape (suc n) [] rest h = refl
read_str-escape (suc n) (c ∷ t) rest h =
    rw
      (
        escape-unquoted c (escape t (34 ∷ rest)),
        read_char-escape c (escape t (34 ∷ rest)),
        read_str-escape n t rest (omega (arith, h)),
      )
      refl

-- No number goes on at the start of the text.
abbrev ends : Text → Bool
ends [] = true
ends (c ∷ t) = not (is_numeric c)

read_number-append :
    (n rest : Text)
    → All (λ c. is_numeric c ≡ true) n
    → ends rest ≡ true
    → read_number (n ++ rest) ≡ (n, rest)
unfolding read_number
read_number-append [] [] fine h = refl
read_number-append [] (c ∷ rest) fine h = ground (arith, h)
read_number-append (c ∷ n) rest fine h = rw (read_number-append n rest fine.1 h, fine.0) refl

-- The fuel for the reader.
mutual
  size : Json → ℕ
  size null = 1
  size (boolean b) = 1
  size (number n) = 1
  size (text t) = 2 + length t
  size (array vs) = 2 + size_elements vs
  size (object ms) = 2 + size_members ms

  size_elements : Elements → ℕ
  size_elements no_elements = 1
  size_elements (element v vs) = 1 + size v + size_elements vs

  size_members : Members → ℕ
  size_members no_members = 1
  size_members (member k v ms) = 2 + length k + size v + size_members ms

size-pos : (v : Json) → 1 ≤ size v
unfolding size
size-pos null = omega arith
size-pos (boolean b) = omega arith
size-pos (number n) = omega arith
size-pos (text t) = omega arith
size-pos (array vs) = omega arith
size-pos (object ms) = omega arith

size_elements-pos : (vs : Elements) → 1 ≤ size_elements vs
unfolding size
size_elements-pos no_elements = omega arith
size_elements-pos (element v vs) = omega arith

size_members-pos : (ms : Members) → 1 ≤ size_members ms
unfolding size
size_members-pos no_members = omega arith
size_members-pos (member k v ms) = omega arith

starts_value : (v : Json) (rest : Text) → IsWritten v → next_is 93 (write v rest) ≡ false
unfolding write IsWritten canon_str
starts_value null rest h = refl
starts_value (boolean true) rest h = refl
starts_value (boolean false) rest h = refl
starts_value (number []) rest h = absurd h
starts_value (number (c ∷ n)) rest h = ground (arith, h.0)
starts_value (text t) rest h = refl
starts_value (array vs) rest h = refl
starts_value (object ms) rest h = refl

more_elements-ends : (vs : Elements) (rest : Text) → ends (more_elements vs (93 ∷ rest)) ≡ true
unfolding write
more_elements-ends no_elements rest = refl
more_elements-ends (element v vs) rest = refl

more_members-ends : (ms : Members) (rest : Text) → ends (more_members ms (125 ∷ rest)) ≡ true
unfolding write
more_members-ends no_members rest = refl
more_members-ends (member k v ms) rest = refl

mutual
  unfolding write read_value size IsWritten canon_str

  read_value-write :
      (n : ℕ) (v : Json) (rest : Text)
      → size v ≤ n
      → IsWritten v
      → ends rest ≡ true
      → read_value n (write v rest) ≡ some (v, rest)
  read_value-write zero v rest h fine e = absurd (omega (arith, h, size-pos v))
  read_value-write (suc n) null rest h fine e = refl
  read_value-write (suc n) (boolean true) rest h fine e = refl
  read_value-write (suc n) (boolean false) rest h fine e = refl
  read_value-write (suc n) (number []) rest h fine e = absurd fine
  read_value-write (suc n) (number (c ∷ m)) rest h fine e =
      ground (arith, read_number-append (c ∷ m) rest fine e, fine.0)
  read_value-write (suc n) (text t) rest h fine e =
      rw (read_str-escape n t rest (omega (arith, h))) refl
  read_value-write (suc n) (array vs) rest h fine e =
      rw (read_elements-write n vs rest (omega (arith, h)) fine) refl
  read_value-write (suc n) (object ms) rest h fine e =
      rw (read_members-write n ms rest (omega (arith, h)) fine) refl

  read_elements-write :
      (n : ℕ) (vs : Elements) (rest : Text)
      → size_elements vs ≤ n
      → AreWritten vs
      → read_elements n (write_elements vs (93 ∷ rest)) ≡ some (vs, 93 ∷ rest)
  read_elements-write zero vs rest h fine = absurd (omega (arith, h, size_elements-pos vs))
  read_elements-write (suc n) no_elements rest h fine = refl
  read_elements-write (suc n) (element v vs) rest h fine =
      rw
        (
          starts_value v (more_elements vs (93 ∷ rest)) fine.0,
          read_value-write n v (more_elements vs (93 ∷ rest)) (omega (arith, h)) fine.0
              (more_elements-ends vs rest),
          read_more-write n vs rest (omega (arith, h)) fine.1,
        )
        refl

  read_more-write :
      (n : ℕ) (vs : Elements) (rest : Text)
      → size_elements vs ≤ n
      → AreWritten vs
      → read_more n (more_elements vs (93 ∷ rest)) ≡ some (vs, 93 ∷ rest)
  read_more-write zero vs rest h fine = absurd (omega (arith, h, size_elements-pos vs))
  read_more-write (suc n) no_elements rest h fine = refl
  read_more-write (suc n) (element v vs) rest h fine =
      rw
        (
          read_value-write n v (more_elements vs (93 ∷ rest)) (omega (arith, h)) fine.0
              (more_elements-ends vs rest),
          read_more-write n vs rest (omega (arith, h)) fine.1,
        )
        refl

  read_members-write :
      (n : ℕ) (ms : Members) (rest : Text)
      → size_members ms ≤ n
      → AllWritten ms
      → read_members n (write_members ms (125 ∷ rest)) ≡ some (ms, 125 ∷ rest)
  read_members-write zero ms rest h fine = absurd (omega (arith, h, size_members-pos ms))
  read_members-write (suc n) no_members rest h fine = refl
  read_members-write (suc n) (member k v ms) rest h fine =
      rw
        (
          read_str-escape n k (58 ∷ write v (more_members ms (125 ∷ rest))) (omega (arith, h)),
          read_value-write n v (more_members ms (125 ∷ rest)) (omega (arith, h)) fine.0
              (more_members-ends ms rest),
          read_more_members-write n ms rest (omega (arith, h)) fine.1,
        )
        refl

  read_more_members-write :
      (n : ℕ) (ms : Members) (rest : Text)
      → size_members ms ≤ n
      → AllWritten ms
      → read_more_members n (more_members ms (125 ∷ rest)) ≡ some (ms, 125 ∷ rest)
  read_more_members-write zero ms rest h fine = absurd (omega (arith, h, size_members-pos ms))
  read_more_members-write (suc n) no_members rest h fine = refl
  read_more_members-write (suc n) (member k v ms) rest h fine =
      rw
        (
          read_str-escape n k (58 ∷ write v (more_members ms (125 ∷ rest))) (omega (arith, h)),
          read_value-write n v (more_members ms (125 ∷ rest)) (omega (arith, h)) fine.0
              (more_members-ends ms rest),
          read_more_members-write n ms rest (omega (arith, h)) fine.1,
        )
        refl

-- Two values with the same text are the same.
pub write-injective : (v w : Json) → IsWritten v → IsWritten w → write v [] ≡ write w [] → v ≡ w
write-injective v w hv hw e =
    let n = size v + size w in
    let left = read_value-write n v [] (omega arith) hv refl in
    let right = read_value-write n w [] (omega arith) hw refl in
    let both : some (v, []) ≡ some (w, []) = sym left ∙ ap (read_value n) e ∙ right in cc both
