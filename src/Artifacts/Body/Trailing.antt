-- ===== src/Artifacts/Body/Trailing.antt =====
-- White space at the end of a body does not change its hash.
use homepilot_core_public.Base.{
  ℕ, ◌≡◌, ◌≢◌, refl, sym, ap, ◌∙◌, inl, inr, Bool, true, false, List, [], ◌∷◌, ◌++◌, map, arith,
  Bool-cases, All, String,
}
use mathlib.Core.List.{append_assoc, append-nil, map-append}
use homepilot_core_public.Base.Text.{Text}
use homepilot_core_public.Artifacts.Body.{
  is_space, is_newline, push_end, drop_end, cons_line, split_lines, is_blank, rstrip, clean_lines,
  normalize, compute_body_hash,
}

pub drop_end-snoc {ℓ} :
    {A : Type ℓ} (p : A → Bool) (xs : List A) (x : A)
    → p x ≡ true
    → drop_end p (xs ++ x ∷ []) ≡ drop_end p xs
unfolding drop_end
drop_end-snoc p [] x h = rw h
drop_end-snoc p (y ∷ xs) x h = ap (push_end p y) (drop_end-snoc p xs x h)

cons_line-append :
    (d : ℕ) (ls ms : List Text) → ls ≢ [] → cons_line d (ls ++ ms) ≡ cons_line d ls ++ ms
unfolding cons_line
cons_line-append d [] ms h = absurd (h refl)
cons_line-append d (l ∷ ls) ms h = refl

pub split-ne-nil : (b : Text) → split_lines b ≢ []
unfolding split_lines cons_line
split-ne-nil [] = λ e. cc
split-ne-nil (d ∷ b) =
    λ e. elim (Bool-cases (is_newline d)) [ inl nl ↦ ground arith | inr plain ↦ ground arith ]

split-snoc_newline :
    (b : Text) (c : ℕ) → is_newline c ≡ true → split_lines (b ++ c ∷ []) ≡ split_lines b ++ [] ∷ []
unfolding split_lines
split-snoc_newline [] c h = rw h
split-snoc_newline (d ∷ b) c h = elim (Bool-cases (is_newline d)) [
  | inl nl ↦ rw nl (ap (λ (ls : List Text). [] ∷ ls) (split-snoc_newline b c h))
  | inr plain ↦ rw plain (
      ap (cons_line d) (split-snoc_newline b c h)
      ∙ cons_line-append d (split_lines b) ([] ∷ []) (split-ne-nil b))
]

push_line : ℕ → List Text → List Text
push_line d [] = push_end is_space d [] ∷ []
push_line d (l ∷ ls) = push_end is_space d l ∷ ls

map-cons_line : (d : ℕ) (ls : List Text) → map rstrip (cons_line d ls) ≡ push_line d (map rstrip ls)
unfolding cons_line push_line rstrip drop_end
map-cons_line d [] = refl
map-cons_line d (l ∷ ls) = refl

rstrip-space : (c : ℕ) → is_space c ≡ true → rstrip (c ∷ []) ≡ rstrip []
unfolding rstrip drop_end
rstrip-space c s = rw s

strip-snoc :
    (b : Text) (c : ℕ)
    → is_space c ≡ true
    → is_newline c ≡ false
    → map rstrip (split_lines (b ++ c ∷ [])) ≡ map rstrip (split_lines b)
unfolding split_lines
strip-snoc [] c s n = rw n (ap (λ (l : Text). l ∷ []) (rstrip-space c s))
strip-snoc (d ∷ b) c s n = elim (Bool-cases (is_newline d)) [
  | inl nl ↦ rw nl (ap (λ ls. rstrip [] ∷ ls) (strip-snoc b c s n))
  | inr plain ↦ rw plain (
      map-cons_line d (split_lines (b ++ c ∷ []))
      ∙ ap (push_line d) (strip-snoc b c s n)
      ∙ sym (map-cons_line d (split_lines b)))
]

rstrip-nil : is_blank (rstrip []) ≡ true
unfolding rstrip drop_end
rstrip-nil = refl

clean-snoc : (b : Text) (c : ℕ) → is_space c ≡ true → clean_lines (b ++ c ∷ []) ≡ clean_lines b
unfolding clean_lines
clean-snoc b c s = elim (Bool-cases (is_newline c)) [
  | inr plain ↦ ap (drop_end is_blank) (strip-snoc b c s plain)
  | inl nl ↦
      ap (drop_end is_blank)
        (ap (map rstrip) (split-snoc_newline b c nl) ∙ map-append rstrip (split_lines b) ([] ∷ []))
      ∙ drop_end-snoc is_blank (map rstrip (split_lines b)) (rstrip []) (rstrip-nil)
]

clean-append :
    (b ws : Text) → All (λ c. is_space c ≡ true) ws → clean_lines (b ++ ws) ≡ clean_lines b
clean-append b [] h = ap clean_lines (append-nil b)
clean-append b (c ∷ ws) h =
    ap clean_lines (sym (append_assoc b (c ∷ []) ws))
    ∙ clean-append (b ++ c ∷ []) ws h.1
    ∙ clean-snoc b c h.0

-- White space, newlines among it, behind a body leaves its hash as it is, whatever the hash function.
pub hash-append_blank :
    (hexdigest : Text → String) (b ws : Text)
    → All (λ c. is_space c ≡ true) ws
    → compute_body_hash hexdigest (b ++ ws) ≡ compute_body_hash hexdigest b
unfolding compute_body_hash normalize
hash-append_blank hexdigest b ws h = rw (clean-append b ws h)
