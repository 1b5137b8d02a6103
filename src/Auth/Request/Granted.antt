-- ===== src/Auth/Request/Granted.antt =====
-- What a request has shown when auth/deps.py lets it through.
use homepilot_core_public.Base.{
  ℕ, ◌<◌, ◌≡◌, refl, ◌∙◌, ◌⊎◌, inl, inr, arith, true, false, ◌||◌, not, Option, none, some, List,
  [], ◌∷◌, Bool-cases, Option-cases, ap,
}
use homepilot_core_public.Base.Text.{Text, same_text, same_text-eq, take}
use homepilot_core_public.Auth.Scopes.{is_nil, scope_allows}
use homepilot_core_public.Auth.Request.{
  TokenRow, Request, Principal, Refusal, Outcome, refused, granted, is_given, bearer_token,
  prefix_length, get_token_by_prefix, is_safe, is_same, csrf_refusal, expiry_refusal, find_token,
  grant, check_token, require_token, scope_refusal, require_scope,
}

abbrev pub IsIn : TokenRow → List TokenRow → Type 0
IsIn row [] = ⊥
IsIn row (r ∷ rows) = (r ≡ row) ⊎ IsIn row rows

-- A cookie's request that changes something proves that its page could read the cookie.
abbrev pub IsSameSite : Request → Type 0
IsSameSite req =
    (is_safe req.method ≡ true)
    ⊎ ((t : Text) × (req.hp_csrf ≡ some t)
        × (req.x_csrf_token ≡ some t)
        × (is_nil t ≡ false)
        × (is_given req.x_requested_with ≡ true))

-- The credential of a request.
abbrev pub Presents : Request → Text → Type 0
Presents req raw =
    ((h : Text) × (req.authorization ≡ some h) × (bearer_token h ≡ some raw))
    ⊎ ((is_given req.authorization ≡ false) × (req.hp_token ≡ some raw) × IsSameSite req)

csrf_matches :
    (cookie header : Option Text)
    → not (is_given cookie) || not (is_same header cookie) ≡ false
    → (t : Text) × (cookie ≡ some t) × (header ≡ some t) × (is_nil t ≡ false)
unfolding is_same
csrf_matches none header h = absurd (ground arith)
csrf_matches (some t) none h = absurd (ground arith)
csrf_matches (some t) (some s) h =
    (t, refl, ap (λ x. some x) (same_text-eq s t (ground arith)), ground arith)

csrf_refusal-IsSameSite : (req : Request) → csrf_refusal req ≡ none → IsSameSite req
unfolding csrf_refusal
csrf_refusal-IsSameSite req h = elim (Bool-cases (is_safe req.method)) [
  | inl safe ↦ inl safe
  | inr unsafe ↦
      let (t, cookie, header, written) = csrf_matches req.hp_csrf req.x_csrf_token (ground arith) in
      inr (t, cookie, header, written, ground arith)
]

get_token-IsIn :
    (prefix : Text) (tokens : List TokenRow) (row : TokenRow)
    → get_token_by_prefix prefix tokens ≡ some row
    → IsIn row tokens × (row.prefix ≡ prefix)
unfolding get_token_by_prefix
get_token-IsIn prefix [] row h = absurd (cc h)
get_token-IsIn prefix (r ∷ rows) row h = elim (Bool-cases (same_text r.prefix prefix)) [
  | inl same ↦ ground (arith, same_text-eq r.prefix prefix same)
  | inr other ↦ ground (arith, get_token-IsIn prefix rows row)
]

module _ (sha256 : Text → Text) (fromisoformat : Text → Option ℕ) (now : ℕ) where
  abbrev pub NotExpired : Option Text → Type 0
  NotExpired none = Unit
  NotExpired (some text) =
      (is_nil text ≡ true) ⊎ ((e : ℕ) × (fromisoformat text ≡ some e) × (now < e))

  -- The row belongs to the credential, which has not expired.
  abbrev pub Backs : List TokenRow → Text → TokenRow → Type 0
  Backs tokens raw row =
      IsIn row tokens
      × (row.prefix ≡ take prefix_length raw)
      × (sha256 raw ≡ row.hash)
      × NotExpired row.expires_at

  module _ (display_name : Text → Option Text) where
    expiry_refusal-NotExpired :
        (expires_at : Option Text)
        → expiry_refusal sha256 fromisoformat display_name now expires_at ≡ none
        → NotExpired expires_at
    unfolding expiry_refusal
    expiry_refusal-NotExpired none h = tt
    expiry_refusal-NotExpired (some text) h = elim (Option-cases (fromisoformat text)) [
      | inl bad ↦ inl (ground arith)
      | inr (e, read) ↦ elim (Bool-cases (is_nil text)) [
        | inl empty ↦ inl empty
        | inr written ↦ inr (e, read, ground arith)
      ]
    ]

    pub find_token-Backs :
        (raw : Text) (tokens : List TokenRow) (row : TokenRow)
        → find_token sha256 fromisoformat display_name now raw tokens ≡ some row
        → expiry_refusal sha256 fromisoformat display_name now row.expires_at ≡ none
        → Backs tokens raw row
    unfolding find_token
    find_token-Backs raw tokens row found live =
        elim (Option-cases (get_token_by_prefix (take prefix_length raw) tokens)) [
          | inl missing ↦ absurd (ground arith)
          | inr (r, e) ↦
              let same = same_text-eq (sha256 raw) r.hash (ground arith) in
              let is_row : r ≡ row = ground arith in
              (
                (get_token-IsIn (take prefix_length raw) tokens row
                    (e ∙ ap (λ x. some x) is_row)).0,
                (get_token-IsIn (take prefix_length raw) tokens row
                    (e ∙ ap (λ x. some x) is_row)).1,
                same ∙ ap (λ (x : TokenRow). x.hash) is_row,
                expiry_refusal-NotExpired row.expires_at live,
              )
        ]

    -- What `check_token` has found when it lets a request through.
    check_token-granted :
        (csrf : Option Refusal) (raw : Text) (tokens tokens' : List TokenRow) (who : Principal)
        → check_token sha256 fromisoformat display_name now csrf raw tokens ≡ granted who tokens'
        → (csrf ≡ none)
          × ((row : TokenRow) × Backs tokens raw row
              × (grant sha256 fromisoformat display_name now tokens row ≡ granted who tokens'))
    unfolding check_token
    check_token-granted csrf raw tokens tokens' who h =
        elim (Option-cases (find_token sha256 fromisoformat display_name now raw tokens)) [
          | inl missing ↦ absurd (ground arith)
          | inr (row, found) ↦ (
            ground arith,
            (row, find_token-Backs raw tokens row found (ground arith), ground arith),
          )
        ]

    require_token-granted :
        (req : Request) (tokens tokens' : List TokenRow) (who : Principal)
        → require_token sha256 fromisoformat display_name now req tokens ≡ granted who tokens'
        → (raw : Text) × (row : TokenRow) × Presents req raw
          × Backs tokens raw row
          × (grant sha256 fromisoformat display_name now tokens row ≡ granted who tokens')
    unfolding require_token
    require_token-granted req tokens tokens' who h =
        elim (Bool-cases (is_given req.authorization)) [
          | inl given ↦ elim (Option-cases req.authorization) [
            | inl missing ↦ absurd (ground arith)
            | inr (header, e) ↦ elim (Option-cases (bearer_token header)) [
              | inl other ↦ absurd (ground arith)
              | inr (raw, presented) ↦
                  let (none_csrf, (row, backs, same)) =
                    check_token-granted none raw tokens tokens' who (ground arith) in
                  (raw, row, inl (header, e, presented), backs, same)
            ]
          ]
          | inr bare ↦ elim (Option-cases req.hp_token) [
            | inl missing ↦ absurd (ground arith)
            | inr (raw, cookie) ↦
                let (no_refusal, (row, backs, same)) =
                  check_token-granted (csrf_refusal req) raw tokens tokens' who (ground arith) in
                (raw, row, inr (bare, cookie, csrf_refusal-IsSameSite req no_refusal), backs, same)
          ]
        ]

    scope_refusal-scope_allows :
        (wanted : Text) (scope role : Option Text)
        → scope_refusal sha256 fromisoformat display_name now wanted scope role ≡ none
        → scope_allows scope wanted role ≡ true
    unfolding scope_refusal scope_allows
    scope_refusal-scope_allows wanted scope role h = ground arith

    Outcome-cases :
        (o : Outcome)
        → ((r : Refusal) × (rows : List TokenRow) × (o ≡ refused r rows))
          ⊎ ((who : Principal) × (rows : List TokenRow) × (o ≡ granted who rows))
    Outcome-cases (refused r rows) = inl (r, rows, refl)
    Outcome-cases (granted who rows) = inr (who, rows, refl)

    -- A route lets a request through only where the request presents a credential whose row, found by
    -- its prefix, stores the hash of the whole credential, has not expired, and allows the scope of
    -- the route. A credential in a cookie counts only where there is no Authorization header, and,
    -- but for GET, HEAD and OPTIONS, with a CSRF header equal to the CSRF cookie and an
    -- X-Requested-With header.
    pub require_scope-granted :
        (wanted : Text) (req : Request) (tokens tokens' : List TokenRow) (who : Principal)
        → require_scope sha256 fromisoformat display_name now wanted req tokens
          ≡ granted who tokens'
        → (raw : Text) × (row : TokenRow) × Presents req raw
          × Backs tokens raw row
          × (scope_allows row.scope wanted row.role ≡ true)
    unfolding require_scope grant
    require_scope-granted wanted req tokens tokens' who h =
        elim (Outcome-cases (require_token sha256 fromisoformat display_name now req tokens)) [
          | inl (r, rows, e) ↦ absurd (ground arith)
          | inr (caller, rows, e) ↦
              let (raw, row, presents, backs, same) =
                require_token-granted req tokens rows caller e in
              (
                raw,
                row,
                presents,
                backs,
                scope_refusal-scope_allows wanted row.scope row.role (ground arith),
              )
        ]
