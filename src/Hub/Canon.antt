-- ===== src/Hub/Canon.antt =====
-- `_canon_str`, `_canon` and `canonical_bytes` of agent_hub/replay.py: the text of a frame over which
-- the MAC is computed. A number is the text that `str` and `repr` give for it, and the UTF-8 encoding
-- of the text is left out. Each function writes in front of a text that follows.
pub mod Read
pub mod Decode
pub mod Frames
use homepilot_core_public.Base.{
  ℕ, ◌+◌, ◌/◌, ◌%◌, String, Bool, true, false, Option, none, some, List, [], ◌∷◌, ◌++◌, ◌==◌, ltb,
  if◌then◌else◌,
}
use homepilot_core_public.Base.Text.{Text, codes}

mutual
  pub data Json : Type 0 where
    null : Json
    boolean : Bool → Json
    number : Text → Json
    text : Text → Json
    array : Elements → Json
    object : Members → Json

  pub data Elements : Type 0 where
    no_elements : Elements
    element : Json → Elements → Elements

  pub data Members : Type 0 where
    no_members : Members
    member : Text → Json → Members → Members

-- The digit of `f"{o:04x}"`.
abbrev pub hex_digit : ℕ → ℕ
hex_digit d = if ltb d 10 then d + 48 else d + 87

-- What `_canon_str` appends for a character.
unfoldable pub escape_char : ℕ → Text → Text
escape_char c rest =
    if c == 34
    then 92 ∷ 34 ∷ rest
    else if c == 92
    then 92 ∷ 92 ∷ rest
    else if c == 10
    then 92 ∷ 110 ∷ rest
    else if c == 13
    then 92 ∷ 114 ∷ rest
    else if c == 9
    then 92 ∷ 116 ∷ rest
    else if ltb c 32
    then 92 ∷ 117 ∷ 48 ∷ 48 ∷ hex_digit (c / 16) ∷ hex_digit (c % 16) ∷ rest
    else c ∷ rest

unfoldable pub escape : Text → Text → Text
unfolding escape_char
escape [] rest = rest
escape (c ∷ t) rest = escape_char c (escape t rest)

-- `_canon_str`
unfoldable pub canon_str : Text → Text → Text
unfolding escape
canon_str t rest = 34 ∷ escape t (34 ∷ rest)

-- `sorted(value)` compares texts by their code points.
unfoldable pub text_less : Text → Text → Bool
text_less [] [] = false
text_less [] (y ∷ ys) = true
text_less (x ∷ xs) [] = false
text_less (x ∷ xs) (y ∷ ys) =
    let rest = text_less xs ys in if ltb x y then true else if x == y then rest else false

unfoldable pub insert_member : Text → Json → Members → Members
unfolding text_less
insert_member k v no_members = member k v no_members
insert_member k v (member j u ms) =
    let rest = insert_member k v ms in
    if text_less j k then member j u rest else member k v (member j u ms)

-- The value with the keys of each dictionary in order.
unfoldable mutual
  unfolding insert_member

  pub ordered : Json → Json
  ordered null = null
  ordered (boolean b) = boolean b
  ordered (number n) = number n
  ordered (text t) = text t
  ordered (array vs) = array (ordered_elements vs)
  ordered (object ms) = object (ordered_members ms)

  pub ordered_elements : Elements → Elements
  ordered_elements no_elements = no_elements
  ordered_elements (element v vs) = element (ordered v) (ordered_elements vs)

  pub ordered_members : Members → Members
  ordered_members no_members = no_members
  ordered_members (member k v ms) = insert_member k (ordered v) (ordered_members ms)

-- The text of a value whose keys are in order; `more_` is what stands behind a first part.
unfoldable mutual
  unfolding canon_str

  pub write : Json → Text → Text
  write null rest = 110 ∷ 117 ∷ 108 ∷ 108 ∷ rest
  write (boolean true) rest = 116 ∷ 114 ∷ 117 ∷ 101 ∷ rest
  write (boolean false) rest = 102 ∷ 97 ∷ 108 ∷ 115 ∷ 101 ∷ rest
  write (number n) rest = n ++ rest
  write (text t) rest = canon_str t rest
  write (array vs) rest = 91 ∷ write_elements vs (93 ∷ rest)
  write (object ms) rest = 123 ∷ write_members ms (125 ∷ rest)

  pub write_elements : Elements → Text → Text
  write_elements no_elements rest = rest
  write_elements (element v vs) rest = write v (more_elements vs rest)

  pub more_elements : Elements → Text → Text
  more_elements no_elements rest = rest
  more_elements (element v vs) rest = 44 ∷ write v (more_elements vs rest)

  pub write_members : Members → Text → Text
  write_members no_members rest = rest
  write_members (member k v ms) rest = canon_str k (58 ∷ write v (more_members ms rest))

  pub more_members : Members → Text → Text
  more_members no_members rest = rest
  more_members (member k v ms) rest = 44 ∷ canon_str k (58 ∷ write v (more_members ms rest))

abbrev pub canon : Json → Text
canon v = write (ordered v) []

unfoldable pub same_key : Text → Text → Bool
same_key [] [] = true
same_key [] (y ∷ ys) = false
same_key (x ∷ xs) [] = false
same_key (x ∷ xs) (y ∷ ys) = let rest = same_key xs ys in if x == y then rest else false

-- `{k: v for k, v in frame.items() if k != "mac"}`
unfoldable pub without_mac : Members → Members
unfolding same_key
without_mac no_members = no_members
without_mac (member k v ms) =
    let rest = without_mac ms in if same_key k (codes "mac") then rest else member k v rest

unfoldable pub canonical_bytes : Members → Text
unfolding without_mac ordered write
canonical_bytes frame = canon (object (without_mac frame))
