-- ===== src/Auth/Scopes/Mint.antt =====
-- What the scopes of auth/tokens.py come to: an admin scope holds the ones below it, and what a mint
-- accepts is of use.
use homepilot_core_public.Base.{
  ◌≡◌, refl, sym, ◌∙◌, inl, inr, arith, Bool, true, false, not, Option, none, some, List, [], ◌∷◌,
  ◌++◌, ◌||◌, if◌then◌else◌, Bool-cases, if-holds, Option-cases,
}
use homepilot_core_public.Base.Text.{Text, codes, same_text, same_text-eq, same_text_refl}
use homepilot_core_public.Artifacts.Body.{drop_end}
use homepilot_core_public.Artifacts.Spec.{strip}
use homepilot_core_public.Auth.Scopes.{
  normalize_option, scope_read, scope_write, scope_admin, star, has, is_nil, role_scopes,
  insert_sorted, sorted_set, with_admin, normalize_text, normalize_scope, parts_of, unknown_parts,
  validate_scope, scope_allows,
}

has-insert_sorted :
    (x y : Text) (ys : List Text) → has x (insert_sorted y ys) ≡ (same_text y x || has x ys)
unfolding has insert_sorted
has-insert_sorted x y [] = refl
has-insert_sorted x y (z ∷ zs) = elim (Bool-cases (same_text z y)) [
  | inl same ↦ rw same (rw (same_text-eq z y same) ground arith)
  | inr other ↦ rw other ground (arith, has-insert_sorted x y zs)
]

has-sorted_set : (x : Text) (xs : List Text) → has x (sorted_set xs) ≡ has x xs
unfolding has sorted_set
has-sorted_set x [] = refl
has-sorted_set x (y ∷ ys) =
    ground (arith, has-insert_sorted x y (sorted_set ys), has-sorted_set x ys)

-- What holds of the scopes of an admin.
abbrev pub HoldsLower : List Text → Type 0
HoldsLower n = has scope_admin n ≡ true → (has scope_read n ≡ true) × (has scope_write n ≡ true)

-- The scopes that an admin token is given, and what they hold.
abbrev ladder : List Text
ladder = scope_read ∷ scope_write ∷ scope_admin ∷ []

has-ladder :
    (x : Text) (parts : List Text)
    → has x ladder ≡ true
    → has x (sorted_set (ladder ++ parts)) ≡ true
unfolding has
has-ladder x parts h = has-sorted_set x (ladder ++ parts) ∙ ground arith

with_admin-HoldsLower : (parts : List Text) → HoldsLower (with_admin parts)
unfolding with_admin has same_text
with_admin-HoldsLower parts =
    if-holds HoldsLower (has scope_admin parts) (sorted_set (ladder ++ parts)) parts
      (λ held h. (has-ladder scope_read parts refl, has-ladder scope_write parts refl))
      (λ missing h. ground arith)

role_scopes-HoldsLower : (role : Text) (ss : List Text) → role_scopes role ≡ some ss → HoldsLower ss
unfolding role_scopes has same_text
role_scopes-HoldsLower role ss e h = ground arith

star-HoldsLower : HoldsLower (star ∷ [])
unfolding has same_text
star-HoldsLower h = ground arith

read-HoldsLower : HoldsLower (scope_read ∷ [])
unfolding has same_text
read-HoldsLower h = ground arith

normalize_text-HoldsLower : (scope : Text) → HoldsLower (normalize_text scope)
unfolding normalize_text
normalize_text-HoldsLower scope =
    if-holds HoldsLower (has (strip scope) (codes "all" ∷ codes "full" ∷ star ∷ [])) (star ∷ [])
      (if same_text (codes "read_only") (strip scope)
        then scope_read ∷ []
        else with_admin (parts_of (strip scope)))
      (λ whole. star-HoldsLower)
      (λ other.
        if-holds HoldsLower (same_text (codes "read_only") (strip scope)) (scope_read ∷ [])
          (with_admin (parts_of (strip scope))) (λ short. read-HoldsLower)
          (λ listed. with_admin-HoldsLower (parts_of (strip scope))))

nil-HoldsLower : HoldsLower []
unfolding has
nil-HoldsLower h = ground arith

normalize_option-HoldsLower : (scope : Option Text) → HoldsLower (normalize_option scope)
unfolding normalize_option
normalize_option-HoldsLower none h = nil-HoldsLower h
normalize_option-HoldsLower (some scope) h =
    if-holds HoldsLower (is_nil scope) [] (normalize_text scope) (λ empty. nil-HoldsLower)
      (λ written. normalize_text-HoldsLower scope) h

pub normalize_scope-HoldsLower :
    (scope role : Option Text) → HoldsLower (normalize_scope scope role)
unfolding normalize_scope
normalize_scope-HoldsLower scope none = normalize_option-HoldsLower scope
normalize_scope-HoldsLower scope (some role) = elim (Option-cases (role_scopes role)) [
  | inl unknown ↦ rw (normalize_scope, unknown) (normalize_option-HoldsLower scope)
  | inr (ss, e) ↦ rw (normalize_scope, e) (role_scopes-HoldsLower role ss e)
]

unknown-nil :
    (x : Text) (parts : List Text)
    → is_nil (unknown_parts parts) ≡ true
    → has x parts ≡ true
    → has x ladder ≡ true
unfolding unknown_parts has
unknown-nil x [] u h = ground arith
unknown-nil x (p ∷ ps) u h = elim (Bool-cases (same_text p x)) [
  | inl same ↦ rw (sym (same_text-eq p x same)) ground arith
  | inr other ↦ ground (arith, unknown-nil x ps)
]

-- Every scope is the superuser's or one of the ladder's.
abbrev pub IsKnown : List Text → Type 0
IsKnown n = (x : Text) → has x n ≡ true → has x (star ∷ ladder) ≡ true

-- The superuser scope, or the scope of the call itself.
abbrev is_granted : List Text → Text → Bool
is_granted n action = if is_nil n then false else if has star n then true else has action n

-- Some call is allowed, and only the ladder's.
abbrev IsUseful : List Text → Type 0
IsUseful n =
    ((action : Text) × (has action ladder ≡ true) × (is_granted n action ≡ true)) × IsKnown n

-- What a token with this scope and no role may do: some call of the ladder, and no call off it but
-- the superuser's.
abbrev pub IsUsable : Text → Type 0
IsUsable scope =
    ((action : Text) × (has action ladder ≡ true) × (scope_allows (some scope) action none ≡ true))
    × IsKnown (normalize_scope (some scope) none)

granted-has : (n : List Text) (action : Text) → has action n ≡ true → is_granted n action ≡ true
unfolding has
granted-has [] action h = ground arith
granted-has (x ∷ xs) action h = ground arith

IsKnown-with_admin :
    (parts : List Text) → is_nil (unknown_parts parts) ≡ true → IsKnown (with_admin parts)
unfolding with_admin has
IsKnown-with_admin parts u =
    if-holds IsKnown (has scope_admin parts) (sorted_set (ladder ++ parts)) parts
      (λ held x h.
        ground (arith, unknown-nil x parts u, sym (has-sorted_set x (ladder ++ parts)) ∙ h))
      (λ missing x h. ground (arith, unknown-nil x parts u h))

has_first : (p : Text) (ps : List Text) → has p (with_admin (p ∷ ps)) ≡ true
unfolding with_admin has
has_first p ps =
    if-holds (λ n. has p n ≡ true) (has scope_admin (p ∷ ps)) (sorted_set (ladder ++ p ∷ ps))
      (p ∷ ps) (λ held. has-sorted_set p (ladder ++ p ∷ ps) ∙ ground (arith, same_text_refl p))
      (λ missing. ground (arith, same_text_refl p))

IsUseful-parts :
    (parts : List Text)
    → is_nil (unknown_parts parts) ≡ true
    → is_nil parts ≡ false
    → IsUseful (with_admin parts)
unfolding unknown_parts has
IsUseful-parts [] u written = ground arith
IsUseful-parts (p ∷ ps) u written = (
  (
    p,
    unknown-nil p (p ∷ ps) u (ground (arith, same_text_refl p)),
    granted-has (with_admin (p ∷ ps)) p (has_first p ps),
  ),
  IsKnown-with_admin (p ∷ ps) u,
)

star-IsUseful : IsUseful (star ∷ [])
unfolding has same_text
star-IsUseful = ((scope_read, refl, refl), λ x h. ground arith)

read-IsUseful : IsUseful (scope_read ∷ [])
unfolding has same_text
read-IsUseful = ((scope_read, refl, refl), λ x h. ground arith)

-- A mint that goes through, and not for a shorthand, has checked the parts.
mint_checks :
    (empty short unknown missing : Bool) (v ps : List Text)
    → (if empty
        then none
        else if short
        then some v
        else if not unknown || missing
        then none
        else some v)
      ≡ some ps
    → short ≡ false
    → (unknown ≡ true) × (missing ≡ false)
mint_checks empty short unknown missing v ps e long = ground arith

not_short :
    (t : Text)
    → has t (codes "all" ∷ codes "full" ∷ star ∷ []) ≡ false
    → same_text (codes "read_only") t ≡ false
    → has t (codes "all" ∷ codes "full" ∷ star ∷ codes "read_only" ∷ []) ≡ false
unfolding has
not_short t other listed = ground arith

normalize_text-IsUseful :
    (scope : Text) (ps : List Text)
    → validate_scope (some scope) ≡ some ps
    → IsUseful (normalize_text scope)
unfolding validate_scope normalize_text
normalize_text-IsUseful scope ps e =
    if-holds IsUseful (has (strip scope) (codes "all" ∷ codes "full" ∷ star ∷ [])) (star ∷ [])
      (if same_text (codes "read_only") (strip scope)
        then scope_read ∷ []
        else with_admin (parts_of (strip scope)))
      (λ whole. star-IsUseful)
      (λ other.
        if-holds IsUseful (same_text (codes "read_only") (strip scope)) (scope_read ∷ [])
          (with_admin (parts_of (strip scope))) (λ short. read-IsUseful)
          (λ listed.
            IsUseful-parts (parts_of (strip scope))
              (mint_checks _ _ _ _ _ ps e (not_short (strip scope) other listed)).0
              (mint_checks _ _ _ _ _ ps e (not_short (strip scope) other listed)).1))

no_scope : validate_scope (some []) ≡ none
unfolding validate_scope strip drop_end
no_scope = refl

-- A scope that a mint accepts is of use: a token that stores it as it was given, with no role, may
-- make some call of the ladder read, write, admin, and its scopes are the superuser's or the ladder's.
pub mint-IsUsable :
    (scope : Text) (ps : List Text) → validate_scope (some scope) ≡ some ps → IsUsable scope
unfolding scope_allows normalize_scope
mint-IsUsable [] ps e = absurd (ground (arith, no_scope, e))
mint-IsUsable (c ∷ scope) ps e = normalize_text-IsUseful (c ∷ scope) ps e
