-- ===== src/Artifacts/Body.antt =====
-- `compute_body_hash` of artifacts/models.py, and the execution log that `mark_applied` and
-- `mark_failed` of artifacts/transitions.py append. SHA-256 is a parameter.
pub mod Trailing
use Prim.Native.Nat.{ℕ}
use homepilot_core_public.Base.{
  String, ◌<>◌, ◌≡◌, refl, arith, Bool, true, false, ◌&&◌, ◌||◌, List, [], ◌∷◌, ◌++◌, map, ◌==◌,
  leb, if◌then◌else◌,
}
use homepilot_core_public.Base.Text.{Text, codes}

abbrev pub newline : ℕ
newline = 10

-- `str.isspace`, the code points that `str.rstrip()` and `str.strip()` drop.
unfoldable pub is_space : ℕ → Bool
is_space c =
    leb 9 c && leb c 13
    || leb 28 c && leb c 32
    || c == 133
    || c == 160
    || c == 5760
    || leb 8192 c && leb c 8202
    || c == 8232
    || c == 8233
    || c == 8239
    || c == 8287
    || c == 12288

abbrev pub is_newline : ℕ → Bool
is_newline c = c == newline

module _ {ℓ} {A : Type ℓ} (p : A → Bool) where
  unfoldable pub push_end : A → List A → List A
  push_end x [] = if p x then [] else x ∷ []
  push_end x (y ∷ ys) = x ∷ y ∷ ys

  -- Without the longest tail of elements that pass `p`: `rstrip`, or a loop that pops.
  unfoldable pub drop_end : List A → List A
  unfolding push_end
  drop_end [] = []
  drop_end (x ∷ xs) = push_end x (drop_end xs)

  -- Without the longest head: `lstrip`.
  unfoldable pub drop_start : List A → List A
  drop_start [] = []
  drop_start (x ∷ xs) = if p x then drop_start xs else x ∷ xs

unfoldable pub cons_line : ℕ → List Text → List Text
cons_line c [] = (c ∷ []) ∷ []
cons_line c (l ∷ ls) = (c ∷ l) ∷ ls

-- `body.split("\n")`
unfoldable pub split_lines : Text → List Text
unfolding cons_line
split_lines [] = [] ∷ []
split_lines (c ∷ cs) =
    let rest = split_lines cs in if is_newline c then [] ∷ rest else cons_line c rest

-- `"\n".join(lines)`
unfoldable pub join_lines : List Text → Text
join_lines [] = []
join_lines (l ∷ []) = l
join_lines (l ∷ m ∷ ls) = l ++ (newline ∷ join_lines (m ∷ ls))

abbrev pub is_blank : Text → Bool
is_blank [] = true
is_blank (_ ∷ _) = false

-- `line.rstrip()`
unfoldable pub rstrip : Text → Text
rstrip = drop_end is_space

-- The lines that are hashed: right-stripped, with no blank line at the end.
unfoldable pub clean_lines : Text → List Text
clean_lines body = drop_end is_blank (map rstrip (split_lines body))

-- `normalized`
unfoldable pub normalize : Text → Text
normalize body = join_lines (clean_lines body ++ [] ∷ [])

module _ (hexdigest : Text → String) where
  unfoldable pub compute_body_hash : Text → String
  compute_body_hash body = "sha256:" <> hexdigest (normalize body)

-- `body.rstrip("\n") + "\n\n## Execution log\n\n" + log + "\n"`
unfoldable pub append_log : Text → Text → Text
unfolding drop_end
append_log body log =
    drop_end is_newline body ++ codes "\n\n## Execution log\n\n" ++ log ++ newline ∷ []

-- `body.lstrip("\n")`, which `ArtifactStore._extract_body` applies to what it reads back.
unfoldable pub extract_body : Text → Text
unfolding drop_start
extract_body = drop_start is_newline

abbrev pub carriage_return : ℕ
carriage_return = 13

-- The text, after a carriage return or not.
unfoldable pub translate : Bool → Text → Text
translate after [] = []
translate after (c ∷ cs) =
    let rest = translate (c == carriage_return) cs in
    if c == carriage_return
    then newline ∷ rest
    else if after && is_newline c
    then rest
    else c ∷ rest

-- What `Path.read_text` makes of the ends of the lines: each of "\r\n" and "\r" is read as "\n".
unfoldable pub universal_newlines : Text → Text
unfolding translate
universal_newlines = translate false

unfoldable pub has_return : Text → Bool
has_return [] = false
has_return (c ∷ cs) = c == carriage_return || has_return cs

translate-same : (t : Text) → has_return t ≡ false → translate false t ≡ t
unfolding translate has_return
translate-same [] h = refl
translate-same (c ∷ t) h = ground (arith, translate-same t)

-- A text without a carriage return is read as it was written.
pub universal_newlines-same : (t : Text) → has_return t ≡ false → universal_newlines t ≡ t
unfolding universal_newlines
universal_newlines-same t h = translate-same t h
