-- ===== src/Base/Lists.antt =====
-- Lists measured by native numbers, membership and predicates by recursion.
use Prim.Native.Nat.{ℕ, suc, ◌+◌}
use Prim.Native.String.{String}
use mathlib.Core.Path.{◌≡◌, refl}
use mathlib.Core.Bool.{Bool, true, false, ◌||◌}
use mathlib.Core.List.{List, [], ◌∷◌, ◌++◌}
use mathlib.Core.Logic.{◌⊎◌, inr}
use text.Mathlib.TextEquality.{eq_iff}
use native.Mathlib.Omega.{arith}
use text.Mathlib.Text.{◌==◌}

module _ {ℓ} {A : Type ℓ} where
  abbrev pub length : List A → ℕ
  length [] = 0
  length (x ∷ xs) = suc (length xs)

  pub length-append : (xs ys : List A) → length (xs ++ ys) ≡ length xs + length ys
  length-append [] ys = omega arith
  length-append (x ∷ xs) ys = omega (arith, length-append xs ys)

-- Every element satisfies `P`.
abbrev pub All {ℓ κ} : {A : Type ℓ} → (A → Type κ) → List A → Type κ
All P [] = Unit
All P (x ∷ xs) = P x × All P xs

pub All-append {ℓ κ} :
    {A : Type ℓ} (P : A → Type κ) (xs ys : List A) → All P xs → All P ys → All P (xs ++ ys)
All-append P [] ys hx hy = hy
All-append P (x ∷ xs) ys hx hy = (hx.0, All-append P xs ys hx.1 hy)

pub All-map {ℓ κ} :
    {A : Type ℓ} (P Q : A → Type κ) → ((x : A) → P x → Q x) → (xs : List A) → All P xs → All Q xs
All-map P Q f [] h = tt
All-map P Q f (x ∷ xs) h = (f x h.0, All-map P Q f xs h.1)

-- `x in xs` for texts.
infix 50 ◌∈ˢ◌
abbrev pub ◌∈ˢ◌ : String → List String → Bool
k ∈ˢ [] = false
k ∈ˢ (x ∷ xs) = x == k || k ∈ˢ xs

pub ∈-head : (x : String) (v : List String) → x ∈ˢ (x ∷ v) ≡ true
∈-head x v = rw (eq_iff x x).1 refl

pub ∈-cases : (x y : String) (v : List String) → x ∈ˢ (y ∷ v) ≡ true → (y ≡ x) ⊎ (x ∈ˢ v ≡ true)
∈-cases x y v h = ground (arith, eq_iff y x)

pub ∈-append :
    (x : String) (v w : List String) → x ∈ˢ (v ++ w) ≡ true → (x ∈ˢ v ≡ true) ⊎ (x ∈ˢ w ≡ true)
∈-append x [] w h = inr h
∈-append x (y ∷ v) w h = ground (arith, ∈-append x v w)

pub ∈-append_left : (x : String) (v w : List String) → x ∈ˢ v ≡ true → x ∈ˢ (v ++ w) ≡ true
∈-append_left x [] w h = cc
∈-append_left x (y ∷ v) w h = ground (arith, ∈-append_left x v w)

pub ∈-append_right : (x : String) (v w : List String) → x ∈ˢ w ≡ true → x ∈ˢ (v ++ w) ≡ true
∈-append_right x [] w h = h
∈-append_right x (y ∷ v) w h = ground (arith, ∈-append_right x v w h)
