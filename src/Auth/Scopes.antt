-- ===== src/Auth/Scopes.antt =====
-- auth/scopes.py, and the scopes of auth/tokens.py. A text is its list of code points, a set that is
-- sorted at once is the sorted list without repetitions, and `None` is `none`.

pub mod Mint
use homepilot_core_public.Base.{
  ℕ, Bool, true, false, ◌||◌, not, Option, none, some, List, [], ◌∷◌, map, ◌==◌, ltb, if◌then◌else◌,
}
use homepilot_core_public.Base.Text.{Text, codes, same_text}
use homepilot_core_public.Artifacts.Spec.{strip}

abbrev pub scope_read : Text
scope_read = codes "read"

abbrev pub scope_write : Text
scope_write = codes "write"

abbrev pub scope_admin : Text
scope_admin = codes "admin"

abbrev pub star : Text
star = codes "*"

-- ROLE_SCOPES.get(role)
unfoldable pub role_scopes : Text → Option (List Text)
unfolding same_text
role_scopes role =
    if same_text role (codes "viewer")
    then some (scope_read ∷ [])
    else if same_text role (codes "operator")
    then some (scope_read ∷ scope_write ∷ [])
    else if same_text role (codes "admin")
    then some (scope_read ∷ scope_write ∷ scope_admin ∷ [])
    else none

unfoldable pub scopes_for_role : Option Text → List Text
unfolding role_scopes
scopes_for_role none = []
scopes_for_role (some role) = elim (role_scopes role) [ some ss ↦ ss | none ↦ [] ]

-- `x in xs`
unfoldable pub has : Text → List Text → Bool
unfolding same_text
has x [] = false
has x (y ∷ ys) = same_text y x || has x ys

abbrev pub is_nil {ℓ} : {A : Type ℓ} → List A → Bool
is_nil [] = true
is_nil (x ∷ xs) = false

abbrev put_char : ℕ → List Text → List Text
put_char c [] = (c ∷ []) ∷ []
put_char c (part ∷ parts) = (c ∷ part) ∷ parts

-- `text.split(",")`
unfoldable pub split_commas : Text → List Text
split_commas [] = [] ∷ []
split_commas (c ∷ t) = let rest = split_commas t in if c == 44 then [] ∷ rest else put_char c rest

-- `[s.strip() for s in parts if s.strip()]`
unfoldable pub stripped_parts : List Text → List Text
unfolding strip
stripped_parts [] = []
stripped_parts (part ∷ parts) =
    let rest = stripped_parts parts in if is_nil (strip part) then rest else strip part ∷ rest

unfoldable pub less_text : Text → Text → Bool
less_text [] [] = false
less_text [] (y ∷ ys) = true
less_text (x ∷ xs) [] = false
less_text (x ∷ xs) (y ∷ ys) = if x == y then less_text xs ys else ltb x y

unfoldable pub insert_sorted : Text → List Text → List Text
unfolding same_text less_text
insert_sorted x [] = x ∷ []
insert_sorted x (y ∷ ys) =
    let rest = insert_sorted x ys in
    if same_text y x then y ∷ ys else if less_text x y then x ∷ y ∷ ys else y ∷ rest

-- `sorted({*parts})`
unfoldable pub sorted_set : List Text → List Text
unfolding insert_sorted
sorted_set [] = []
sorted_set (x ∷ xs) = insert_sorted x (sorted_set xs)

unfoldable pub parts_of : Text → List Text
unfolding split_commas stripped_parts
parts_of t = stripped_parts (split_commas t)

-- Every admin token reads and writes.
unfoldable pub with_admin : List Text → List Text
unfolding has sorted_set
with_admin parts =
    if has scope_admin parts
    then sorted_set (scope_read ∷ scope_write ∷ scope_admin ∷ parts)
    else parts

unfoldable pub normalize_text : Text → List Text
unfolding strip same_text with_admin has parts_of
normalize_text scope =
    let stripped = strip scope in
    if has stripped (codes "all" ∷ codes "full" ∷ star ∷ [])
    then star ∷ []
    else if same_text (codes "read_only") stripped
    then scope_read ∷ []
    else with_admin (parts_of stripped)

unfoldable pub normalize_option : Option Text → List Text
unfolding normalize_text
normalize_option none = []
normalize_option (some scope) = if is_nil scope then [] else normalize_text scope

unfoldable pub normalize_scope : Option Text → Option Text → List Text
unfolding role_scopes normalize_option
normalize_scope scope none = normalize_option scope
normalize_scope scope (some role) = elim (role_scopes role) [
  | some ss ↦ ss
  | none ↦ normalize_option scope
]

-- `[p for p in parts if p not in _MINTABLE_ATOMS]`
unfoldable pub unknown_parts : List Text → List Text
unfolding has
unknown_parts [] = []
unknown_parts (p ∷ ps) =
    let rest = unknown_parts ps in
    if has p (scope_read ∷ scope_write ∷ scope_admin ∷ []) then rest else p ∷ rest

abbrev or_empty : Option Text → Text
or_empty none = []
or_empty (some t) = t

-- The scopes a mint would store, `none` for a ValueError.
unfoldable pub validate_scope : Option Text → Option (List Text)
unfolding strip has normalize_scope unknown_parts parts_of
validate_scope scope =
    let raw = strip (or_empty scope) in
    if is_nil raw
    then none
    else if has raw (codes "all" ∷ codes "full" ∷ star ∷ codes "read_only" ∷ [])
    then some (normalize_scope (some raw) none)
    else if not (is_nil (unknown_parts (parts_of raw))) || is_nil (parts_of raw)
    then none
    else some (normalize_scope (some raw) none)

unfoldable pub scope_allows : Option Text → Text → Option Text → Bool
unfolding normalize_scope has
scope_allows scope action role =
    let normalized = normalize_scope scope role in
    if is_nil normalized then false else if has star normalized then true else has action normalized
