-- ===== src/Base/Visited.antt =====
-- Searches that keep a list of visited keys: how many entries of a dictionary are still unvisited.
use Prim.Native.Nat.{ℕ, ◌+◌, ◌≤◌, ◌<◌}
use Prim.Native.String.{String}
use mathlib.Core.Path.{◌≡◌, refl}
use mathlib.Core.Logic.{◌≢◌, inl, inr}
use mathlib.Core.Bool.{true, false}
use mathlib.Core.Option.{none}
use mathlib.Core.List.{List, [], ◌∷◌}
use native.Mathlib.Omega.{arith}
use text.Mathlib.TextEquality.{eq_iff}
use homepilot_core_public.Base.Tests.{◌=ˢ◌, if◌then◌else◌, Bool-cases}
use homepilot_core_public.Base.Lists.{◌∈ˢ◌, length}
use homepilot_core_public.Base.Dict.{Dict, lookup, insert}

-- Every visited key stays visited.
abbrev pub IsWithin : List String → List String → Type 0
IsWithin v w = (x : String) → x ∈ˢ v ≡ true → x ∈ˢ w ≡ true

pub IsWithin-cons : (k : String) (v : List String) → IsWithin v (k ∷ v)
IsWithin-cons k v x h = ground arith

module _ {ℓ} {V : Type ℓ} where
  unfoldable pub remaining : List String → Dict V → ℕ
  remaining v [] = 0
  remaining v ((k, _) ∷ d) = (if k ∈ˢ v then 0 else 1) + remaining v d

  pub remaining-le-length : (v : List String) (d : Dict V) → remaining v d ≤ length d
  unfolding remaining
  remaining-le-length v [] = omega arith
  remaining-le-length v ((k, w) ∷ d) = ground (arith, remaining-le-length v d)

  -- The more is visited, the less remains.
  pub remaining_mono :
      (v w : List String) (d : Dict V) → IsWithin v w → remaining w d ≤ remaining v d
  unfolding remaining
  remaining_mono v w [] h = omega arith
  remaining_mono v w ((k, _) ∷ d) h = ground (arith, h k, remaining_mono v w d h)

  -- Visiting one more key of the dictionary leaves less.
  pub remaining-lt :
      (k : String) (v : List String) (d : Dict V)
      → lookup k d ≢ none
      → k ∈ˢ v ≡ false
      → remaining (k ∷ v) d < remaining v d
  unfolding remaining lookup
  remaining-lt k v [] h fresh = absurd (h refl)
  remaining-lt k v ((j, w) ∷ d) h fresh = elim (Bool-cases (j =ˢ k)) [
    | inl same ↦
        ground (arith, eq_iff j k, eq_iff k j, remaining_mono v (k ∷ v) d (λ x h. ground arith))
    | inr other ↦ ground (arith, eq_iff j k, eq_iff k j, remaining-lt k v d)
  ]

  -- Writing a key that is there changes no key.
  pub remaining-insert :
      (k : String) (x : V) (v : List String) (d : Dict V)
      → lookup k d ≢ none
      → remaining v (insert k x d) ≡ remaining v d
  unfolding remaining lookup insert
  remaining-insert k x v [] h = absurd (h refl)
  remaining-insert k x v ((j, w) ∷ d) h = ground (arith, remaining-insert k x v d)

  pub length-insert :
      (k : String) (x : V) (d : Dict V) → lookup k d ≢ none → length (insert k x d) ≡ length d
  unfolding lookup insert
  length-insert k x [] h = absurd (h refl)
  length-insert k x ((j, w) ∷ d) h = ground (arith, length-insert k x d)
