-- ===== src/Artifacts/Spec.antt =====
-- `extract_composite_steps` of artifacts/models.py: the search for the fenced block, whose text is
-- handed to the YAML loader, a parameter.
use homepilot_core_public.Base.{
  String, ◌≢◌, arith, Bool, false, ◌||◌, Option, none, some, List, [], ◌∷◌, ◌==◌, if◌then◌else◌,
}
use homepilot_core_public.Base.Text.{Text, codes}
use homepilot_core_public.Artifacts.Model.{Result, ok, err, value_error, yaml_error, out_of_fuel}
use homepilot_core_public.Artifacts.Body.{is_space, is_newline, drop_start, rstrip}

-- One step of a composite. An absent `id` or `artifact` is the empty text, and an absent `on_error`
-- is "halt".
pub record Step : Type 0 where
  pub id : String
  pub artifact : String
  pub on_error : String
  pub depends_on : List String

-- What the loader does: it returns a mapping with `steps` or anything else, or it raises
-- `ValueError` (a bad timestamp) or `YAMLError`, which is no `ValueError`.
pub data Loaded : Type 0 where
  steps : List Step → Loaded
  other raises_value_error raises_yaml_error : Loaded

strip_prefix : Text → Text → Option Text
strip_prefix [] t = some t
strip_prefix (p ∷ ps) [] = none
strip_prefix (p ∷ ps) (c ∷ cs) = if p == c then strip_prefix ps cs else none

-- `\s+`
spaces : Text → Option Text
unfolding drop_start is_space
spaces [] = none
spaces (c ∷ cs) = if is_space c then some (drop_start is_space cs) else none

-- `\s*\n`, with the white space behind the last newline of the run, which `strip` drops.
line_end : Bool → Text → Option Text
unfolding is_space
line_end seen [] = if seen then some [] else none
line_end seen (c ∷ cs) =
    let rest = line_end (seen || is_newline c) cs in
    if is_space c then rest else if seen then some (c ∷ cs) else none

-- "(.*?)```"
before_fence : Text → Option Text
unfolding strip_prefix
before_fence [] = none
before_fence (c ∷ cs) =
    let rest = before_fence cs in
    elim (strip_prefix (codes "```") (c ∷ cs)) [
      | some _ ↦ some []
      | none ↦ elim rest [ none ↦ none | some t ↦ some (c ∷ t) ]
    ]

infixl 5 ◌>>?◌
abbrev ◌>>?◌ : Option Text → (Text → Option Text) → Option Text
none >>? f = none
some t >>? f = f t

match_block : Text → Option Text
unfolding strip_prefix spaces line_end before_fence
match_block t =
    strip_prefix (codes "```yaml") t
    >>? spaces
    >>? strip_prefix (codes "composite-spec")
    >>? line_end false
    >>? before_fence

search_block : Text → Option Text
unfolding match_block
search_block [] = none
search_block (c ∷ cs) =
    let rest = search_block cs in elim (match_block (c ∷ cs)) [ some t ↦ some t | none ↦ rest ]

-- `content.strip()`
unfoldable pub strip : Text → Text
unfolding drop_start is_space rstrip
strip t = rstrip (drop_start is_space t)

abbrev steps_of : Loaded → Result (List Step)
steps_of (steps ss) = ok ss
steps_of other = ok []
steps_of raises_value_error = err value_error
steps_of raises_yaml_error = err yaml_error

module _ (safe_load : Text → Loaded) where
  unfoldable pub extract_composite_steps : Text → Result (List Step)
  unfolding search_block strip
  extract_composite_steps body = elim (search_block body) [
    | none ↦ ok []
    | some content ↦ steps_of (safe_load (strip content))
  ]

  -- The search takes no fuel.
  pub extract-raises : (body : Text) → extract_composite_steps body ≢ err out_of_fuel
  unfolding extract_composite_steps
  extract-raises body = ground arith
