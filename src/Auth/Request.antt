-- ===== src/Auth/Request.antt =====
-- auth/deps.py: `require_token` and `require_scope`, with `get_token_by_prefix` and
-- `touch_token_last_used` of db/repository.py, and `resolve_api_token_tier` of mcp/server.py on a
-- database that answers. SHA-256, `datetime.fromisoformat` (`none` where it raises) and the names of
-- the users are parameters; the clock is a number of the same kind as an expiry.

pub mod Granted
pub mod Mcp
use homepilot_core_public.Base.{
  ℕ, ◌+◌, Bool, true, false, ◌&&◌, ◌||◌, not, Option, none, some, List, [], ◌∷◌, map, ◌==◌, leb,
  if◌then◌else◌,
}
use homepilot_core_public.Base.Text.{Text, codes, same_text, take}
use homepilot_core_public.Auth.Scopes.{star, has, is_nil, normalize_scope}
use homepilot_core_public.Auth.Tiers.{mcp_tier_for_token}

-- A row of api_tokens.
pub record TokenRow : Type 0 where
  pub id : Text
  pub user_id : Text
  pub prefix : Text
  pub hash : Text
  pub scope : Option Text
  pub role : Option Text
  pub expires_at : Option Text
  pub last_used_at : Option ℕ

-- What the two functions read of a request, its cookies among them.
pub record Request : Type 0 where
  pub method : Text
  pub authorization : Option Text
  pub hp_token : Option Text
  pub hp_csrf : Option Text
  pub x_csrf_token : Option Text
  pub x_requested_with : Option Text

pub record Principal : Type 0 where
  pub user_id : Text
  pub token_id : Text
  pub display_name : Option Text
  pub scope : Option Text
  pub role : Option Text

pub data Refusal : Type 0 where
  invalid_header missing_credentials invalid_token bad_expiry token_expired : Refusal
  csrf_invalid no_requested_with no_scope insufficient_scope : Refusal

-- A refusal or the caller, and the table after it.
pub data Outcome : Type 0 where
  refused : Refusal → List TokenRow → Outcome
  granted : Principal → List TokenRow → Outcome

-- Truth of an optional text.
abbrev pub is_given : Option Text → Bool
is_given none = false
is_given (some t) = not (is_nil t)

-- `.lower()`, on ASCII.
abbrev to_lower : ℕ → ℕ
to_lower c = if leb 65 c && leb c 90 then c + 32 else c

-- `authorization.split(" ", 1)`: the two parts, where there are two.
unfoldable pub split_space : Text → Option (Text × Text)
split_space [] = none
split_space (c ∷ t) =
    let rest = split_space t in
    if c == 32
    then some ([], t)
    else elim rest [ none ↦ none | some parts ↦ some (c ∷ parts.0, parts.1) ]

unfoldable pub bearer_token : Text → Option Text
unfolding split_space same_text
bearer_token authorization = elim (split_space authorization) [
  | none ↦ none
  | some parts ↦ if same_text (map to_lower parts.0) (codes "bearer") then some parts.1 else none
]

abbrev pub prefix_length : ℕ
prefix_length = 16

unfoldable pub get_token_by_prefix : Text → List TokenRow → Option TokenRow
unfolding same_text
get_token_by_prefix prefix [] = none
get_token_by_prefix prefix (row ∷ rows) =
    let rest = get_token_by_prefix prefix rows in
    if same_text row.prefix prefix then some row else rest

unfoldable pub touch_token_last_used : ℕ → Text → List TokenRow → List TokenRow
unfolding same_text
touch_token_last_used now id [] = []
touch_token_last_used now id (row ∷ rows) =
    let rest = touch_token_last_used now id rows in
    (if same_text row.id id then record row { last_used_at = some now } else row) ∷ rest

-- `request.method in _SAFE_METHODS`
unfoldable pub is_safe : Text → Bool
unfolding has
is_safe method = has method (codes "GET" ∷ codes "HEAD" ∷ codes "OPTIONS" ∷ [])

unfoldable pub is_same : Option Text → Option Text → Bool
unfolding same_text
is_same none none = true
is_same none (some t) = false
is_same (some s) none = false
is_same (some s) (some t) = same_text s t

-- The check of a request with a cookie.
unfoldable pub csrf_refusal : Request → Option Refusal
unfolding is_safe is_same
csrf_refusal req =
    if is_safe req.method
    then none
    else if not (is_given req.hp_csrf) || not (is_same req.x_csrf_token req.hp_csrf)
    then some csrf_invalid
    else if not (is_given req.x_requested_with)
    then some no_requested_with
    else none

module _ (sha256 : Text → Text) (fromisoformat : Text → Option ℕ)
    (display_name : Text → Option Text) (now : ℕ) where
  unfoldable pub expiry_refusal : Option Text → Option Refusal
  expiry_refusal none = none
  expiry_refusal (some text) = if is_nil text then none else elim (fromisoformat text) [
    | none ↦ some bad_expiry
    | some expires ↦ if leb expires now then some token_expired else none
  ]

  unfoldable pub find_token : Text → List TokenRow → Option TokenRow
  unfolding get_token_by_prefix same_text
  find_token raw tokens = elim (get_token_by_prefix (take prefix_length raw) tokens) [
    | none ↦ none
    | some row ↦ if same_text (sha256 raw) row.hash then some row else none
  ]

  unfoldable pub grant : List TokenRow → TokenRow → Outcome
  unfolding touch_token_last_used
  grant tokens row =
      granted
        (record {
          user_id = row.user_id;
          token_id = row.id;
          display_name = display_name row.user_id;
          scope = row.scope;
          role = row.role;
        })
        (touch_token_last_used now row.id tokens)

  abbrev pub refuse_or : Option Refusal → List TokenRow → Outcome → Outcome
  refuse_or none tokens o = o
  refuse_or (some r) tokens o = refused r tokens

  -- The part of `require_token` after the credential is known.
  unfoldable pub check_token : Option Refusal → Text → List TokenRow → Outcome
  unfolding find_token expiry_refusal grant
  check_token csrf raw tokens =
      if is_nil raw then refused missing_credentials tokens else elim (find_token raw tokens) [
        | none ↦ refused invalid_token tokens
        | some row ↦
            refuse_or (expiry_refusal row.expires_at) tokens
              (refuse_or csrf tokens (grant tokens row))
      ]

  unfoldable pub require_token : Request → List TokenRow → Outcome
  unfolding bearer_token check_token csrf_refusal
  require_token req tokens =
      if is_given req.authorization
      then elim req.authorization [
        | none ↦ refused missing_credentials tokens
        | some header ↦ elim (bearer_token header) [
          | none ↦ refused invalid_header tokens
          | some raw ↦ check_token none raw tokens
        ]
      ]
      else elim req.hp_token [
        | none ↦ refused missing_credentials tokens
        | some raw ↦ check_token (csrf_refusal req) raw tokens
      ]

  unfoldable pub scope_refusal : Text → Option Text → Option Text → Option Refusal
  unfolding normalize_scope has
  scope_refusal wanted scope role =
      let normalized = normalize_scope scope role in
      if is_nil normalized
      then some no_scope
      else if has star normalized || has wanted normalized
      then none
      else some insufficient_scope

  -- A route that depends on `require_scope(wanted)`: the table keeps the use that was noted.
  unfoldable pub require_scope : Text → Request → List TokenRow → Outcome
  unfolding require_token scope_refusal
  require_scope wanted req tokens = elim (require_token req tokens) [
    | refused r tokens' ↦ refused r tokens'
    | granted who tokens' ↦
        refuse_or (scope_refusal wanted who.scope who.role) tokens' (granted who tokens')
  ]

  unfoldable pub resolve_api_token_tier : Text → List TokenRow → Option (Text × List TokenRow)
  unfolding find_token expiry_refusal mcp_tier_for_token touch_token_last_used
  resolve_api_token_tier raw tokens = elim (find_token raw tokens) [
    | none ↦ none
    | some row ↦ elim (expiry_refusal row.expires_at) [
      | some r ↦ none
      | none ↦ elim (mcp_tier_for_token row.scope row.role) [
        | none ↦ none
        | some tier ↦ some (tier, touch_token_last_used now row.id tokens)
      ]
    ]
  ]
