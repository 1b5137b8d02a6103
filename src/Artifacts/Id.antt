-- ===== src/Artifacts/Id.antt =====
-- `validate_artifact_id` of artifacts/models.py. Which characters `\d` matches is a parameter.
use homepilot_core_public.Base.{
  ℕ, ◌+◌, ◌-◌, Bool, true, false, ◌&&◌, ◌||◌, List, [], ◌∷◌, length, leb, ◌==◌, if◌then◌else◌,
}
use homepilot_core_public.Base.Text.{Text, take, drop}

abbrev pub hyphen : ℕ
hyphen = 45

-- "[a-z0-9-]"
abbrev pub is_slug_char : ℕ → Bool
is_slug_char c = leb 97 c && leb c 122 || leb 48 c && leb c 57 || c == hyphen

-- "[a-f0-9]"
abbrev pub is_hex : ℕ → Bool
is_hex c = leb 97 c && leb c 102 || leb 48 c && leb c 57

unfoldable pub every : (ℕ → Bool) → Text → Bool
every p [] = true
every p (c ∷ t) = p c && every p t

-- "[a-z0-9-]{1,60}"
unfoldable pub is_slug : Text → Bool
unfolding every
is_slug t = every is_slug_char t && leb 1 (length t) && leb (length t) 60

-- "-[a-f0-9]{6}"
unfoldable pub is_suffix : Text → Bool
unfolding every
is_suffix [] = false
is_suffix (c ∷ t) = c == hyphen && every is_hex t && length t == 6

-- "[a-z0-9-]{1,60}(-[a-f0-9]{6})?"
unfoldable pub is_slug_suffixed : Text → Bool
unfolding is_slug is_suffix take drop
is_slug_suffixed t = let n = length t - 7 in is_slug t || is_slug (take n t) && is_suffix (drop n t)

-- "$" stands at the end, or before a newline that ends the text.
unfoldable pub before_end : Text → Text
before_end [] = []
before_end (c ∷ []) = if c == 10 then [] else c ∷ []
before_end (c ∷ d ∷ t) = c ∷ before_end (d ∷ t)

abbrev pub starts_with_hyphen : Text → Bool
starts_with_hyphen [] = false
starts_with_hyphen (c ∷ t) = c == hyphen

module _ (is_decimal : ℕ → Bool) where
  -- "\d{n}-" for each `n` of a list, and what is left.
  unfoldable pub after_date : List ℕ → Text → Bool
  unfolding every take drop is_slug_suffixed before_end
  after_date [] t = is_slug_suffixed (before_end t)
  after_date (n ∷ ns) t =
      let rest = after_date ns (drop (n + 1) t) in
      every is_decimal (take n t) && starts_with_hyphen (drop n t) && rest

  unfoldable pub validate_artifact_id : Text → Bool
  unfolding after_date
  validate_artifact_id t = after_date (4 ∷ 2 ∷ 2 ∷ []) t
