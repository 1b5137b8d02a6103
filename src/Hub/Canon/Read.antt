-- ===== src/Hub/Canon/Read.antt =====
-- A reader of the canonical text.
use homepilot_core_public.Base.{
  ℕ, zero, suc, ◌+◌, ◌*◌, ◌-◌, Bool, true, false, ◌||◌, ◌&&◌, Option, none, some, [], ◌∷◌, ◌==◌,
  ltb, leb, if◌then◌else◌, All, ◌≡◌,
}
use homepilot_core_public.Base.Text.{Text}
use homepilot_core_public.Hub.Canon.{
  Json, null, boolean, number, text, array, object, Elements, no_elements, element, Members,
  no_members, member,
}

-- What `str` and `repr` write of a finite number: digits, signs, the point and the exponent.
abbrev pub is_numeric : ℕ → Bool
is_numeric c = leb 48 c && leb c 57 || c == 45 || c == 43 || c == 46 || c == 101

-- Every number is a text of numeric characters, one at least.
unfoldable mutual
  pub IsWritten : Json → Type 0
  IsWritten (number []) = ⊥
  IsWritten (number (c ∷ n)) = All (λ d. is_numeric d ≡ true) (c ∷ n)
  IsWritten (array vs) = AreWritten vs
  IsWritten (object ms) = AllWritten ms
  IsWritten null = Unit
  IsWritten (boolean b) = Unit
  IsWritten (text t) = Unit

  pub AreWritten : Elements → Type 0
  AreWritten no_elements = Unit
  AreWritten (element v vs) = IsWritten v × AreWritten vs

  pub AllWritten : Members → Type 0
  AllWritten no_members = Unit
  AllWritten (member k v ms) = IsWritten v × AllWritten ms

abbrev pub hex_value : ℕ → ℕ
hex_value d = if ltb d 58 then d - 48 else d - 87

-- The character behind a backslash, of those that are written with one letter.
abbrev pub letter_value : ℕ → ℕ
letter_value c = if c == 110 then 10 else if c == 114 then 13 else if c == 116 then 9 else c

-- The read part, and what stands behind it.
abbrev pub Reading : Type 0 → Type 0
Reading A = Option (A × Text)

abbrev pub then_read : {A B : Type 0} → Reading A → (A → Text → Reading B) → Reading B
then_read none f = none
then_read (some (a, t)) f = f a t

abbrev pub put : ℕ → Reading Text → Reading Text
put c none = none
put c (some (s, t)) = some (c ∷ s, t)

-- The two digits behind "\u00".
read_hex : Text → Reading ℕ
read_hex (_ ∷ _ ∷ h ∷ l ∷ t) = some (hex_value h * 16 + hex_value l, t)
read_hex _ = none

read_escape : Text → Reading ℕ
unfolding read_hex
read_escape [] = none
read_escape (d ∷ t) = if d == 117 then read_hex t else some (letter_value d, t)

unfoldable pub read_char : Text → Reading ℕ
unfolding read_escape
read_char [] = none
read_char (c ∷ t) = if c == 92 then read_escape t else some (c, t)

abbrev pub tail_of : Text → Text
tail_of [] = []
tail_of (c ∷ t) = t

-- `c` is the next character.
abbrev pub next_is : ℕ → Text → Bool
next_is c [] = false
next_is c (d ∷ t) = d == c

-- The text up to the quote.
unfoldable pub read_str : ℕ → Text → Reading Text
unfolding read_char
read_str zero t = none
read_str (suc n) t =
    let rest = then_read (read_char t) (λ c r. put c (read_str n r)) in
    if next_is 34 t then some ([], tail_of t) else rest

unfoldable pub read_number : Text → Text × Text
read_number [] = ([], [])
read_number (c ∷ t) =
    let (n, rest) = read_number t in if is_numeric c then (c ∷ n, rest) else ([], c ∷ t)

abbrev pub drop_three : Text → Text
drop_three (_ ∷ _ ∷ _ ∷ t) = t
drop_three _ = []

-- A key, a colon and a value, by the reader of values.
abbrev pub read_member : ℕ → (Text → Reading Json) → Text → Reading (Text × Json)
read_member n read t =
    then_read (read_str n (tail_of t))
      (λ k r. then_read (read (tail_of r)) (λ v r'. some ((k, v), r')))

unfoldable mutual
  unfolding read_str read_number

  pub read_value : ℕ → Text → Reading Json
  read_value zero t = none
  read_value (suc n) t =
      let str = then_read (read_str n (tail_of t)) (λ s r. some (text s, r)) in
      let vs = then_read (read_elements n (tail_of t)) (λ vs r. some (array vs, tail_of r)) in
      let ms = then_read (read_members n (tail_of t)) (λ ms r. some (object ms, tail_of r)) in
      let (number_text, after_number) = read_number t in
      if next_is 110 t
      then some (null, drop_three (tail_of t))
      else if next_is 116 t
      then some (boolean true, drop_three (tail_of t))
      else if next_is 102 t
      then some (boolean false, tail_of (drop_three (tail_of t)))
      else if next_is 34 t
      then str
      else if next_is 91 t
      then vs
      else if next_is 123 t
      then ms
      else some (number number_text, after_number)

  pub read_elements : ℕ → Text → Reading Elements
  read_elements zero t = none
  read_elements (suc n) t =
      let found =
        then_read (read_value n t)
          (λ v r. then_read (read_more n r) (λ vs r'. some (element v vs, r'))) in
      if next_is 93 t then some (no_elements, t) else found

  pub read_more : ℕ → Text → Reading Elements
  read_more zero t = none
  read_more (suc n) t =
      let found =
        then_read (read_value n (tail_of t))
          (λ v r. then_read (read_more n r) (λ vs r'. some (element v vs, r'))) in
      if next_is 93 t then some (no_elements, t) else found

  pub read_members : ℕ → Text → Reading Members
  read_members zero t = none
  read_members (suc n) t =
      let found =
        then_read (read_member n (read_value n) t)
          (λ kv r. then_read (read_more_members n r) (λ ms r'. some (member kv.0 kv.1 ms, r'))) in
      if next_is 125 t then some (no_members, t) else found

  pub read_more_members : ℕ → Text → Reading Members
  read_more_members zero t = none
  read_more_members (suc n) t =
      let found =
        then_read (read_member n (read_value n) (tail_of t))
          (λ kv r. then_read (read_more_members n r) (λ ms r'. some (member kv.0 kv.1 ms, r'))) in
      if next_is 125 t then some (no_members, t) else found
