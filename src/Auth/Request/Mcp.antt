-- ===== src/Auth/Request/Mcp.antt =====
-- An API token at the MCP server, `resolve_api_token_tier` and the guard of `_handle_tool` in
-- mcp/server.py, next to the same token at the HTTP API, auth/deps.py.
use homepilot_core_public.Base.{
  ℕ, ◌≡◌, refl, sym, ◌∙◌, inl, inr, arith, true, false, Option, none, some, List, [], ◌∷◌,
  Option-cases, All, ap, subst,
}
use homepilot_core_public.Base.Text.{Text}
use homepilot_core_public.Auth.Scopes.{
  scope_read, scope_write, has, is_nil, normalize_scope, scope_allows,
}
use homepilot_core_public.Auth.Tiers.{mcp_tier_for_token, tool_refusal}
use homepilot_core_public.Auth.Tiers.Parity.{tool_scope, is_admitted, tool_refusal-scope_allows}
use homepilot_core_public.Auth.Request.{
  TokenRow, Request, Principal, granted, bearer_token, touch_token_last_used, expiry_refusal,
  find_token, grant, check_token, require_token, scope_refusal, require_scope,
  resolve_api_token_tier,
}
use homepilot_core_public.Auth.Request.Granted.{IsIn, find_token-Backs}

-- No write scope without the read scope.
abbrev pub ReadsToo : TokenRow → Type 0
ReadsToo row =
    has scope_write (normalize_scope row.scope row.role) ≡ true
    → has scope_read (normalize_scope row.scope row.role) ≡ true

All-IsIn :
    (row : TokenRow) (tokens : List TokenRow) → All ReadsToo tokens → IsIn row tokens → ReadsToo row
All-IsIn row [] h at = absurd at
All-IsIn row (r ∷ rows) h (inl e) = subst ReadsToo e h.0
All-IsIn row (r ∷ rows) h (inr at) = All-IsIn row rows h.1 at

module _ (sha256 : Text → Text) (fromisoformat : Text → Option ℕ)
    (display_name : Text → Option Text) (now : ℕ) where
  resolve-found :
      (raw tier : Text) (tokens tokens' : List TokenRow)
      → resolve_api_token_tier sha256 fromisoformat display_name now raw tokens
        ≡ some (tier, tokens')
      → (row : TokenRow) × (find_token sha256 fromisoformat display_name now raw tokens ≡ some row)
        × (expiry_refusal sha256 fromisoformat display_name now row.expires_at ≡ none)
        × (mcp_tier_for_token row.scope row.role ≡ some tier)
        × (touch_token_last_used now row.id tokens ≡ tokens')
  unfolding resolve_api_token_tier
  resolve-found raw tier tokens tokens' h =
      elim (Option-cases (find_token sha256 fromisoformat display_name now raw tokens)) [
        | inl missing ↦ absurd (ground arith)
        | inr (row, e) ↦ (row, e, ground arith, ground arith, ground arith)
      ]

  scope_allows-refusal :
      (wanted : Text) (scope role : Option Text)
      → scope_allows scope wanted role ≡ true
      → scope_refusal sha256 fromisoformat display_name now wanted scope role ≡ none
  unfolding scope_refusal scope_allows
  scope_allows-refusal wanted scope role h = ground arith

  -- The answer for a row.
  abbrev caller : TokenRow → Principal
  caller row = record {
    user_id = row.user_id;
    token_id = row.id;
    display_name = display_name row.user_id;
    scope = row.scope;
    role = row.role;
  }

  bearer-granted :
      (raw header : Text) (req : Request) (tokens : List TokenRow) (row : TokenRow)
      → is_nil raw ≡ false
      → is_nil header ≡ false
      → bearer_token header ≡ some raw
      → req.authorization ≡ some header
      → find_token sha256 fromisoformat display_name now raw tokens ≡ some row
      → expiry_refusal sha256 fromisoformat display_name now row.expires_at ≡ none
      → require_token sha256 fromisoformat display_name now req tokens
        ≡ granted (caller row) (touch_token_last_used now row.id tokens)
  unfolding require_token check_token grant
  bearer-granted raw header req tokens row full head bears shown found live =
      rw (require_token, shown, head, bears, check_token, full, found, live) refl

  require_scope-passes :
      (wanted : Text) (req : Request) (tokens tokens' : List TokenRow) (row : TokenRow)
      → require_token sha256 fromisoformat display_name now req tokens
        ≡ granted (caller row) tokens'
      → scope_allows row.scope wanted row.role ≡ true
      → require_scope sha256 fromisoformat display_name now wanted req tokens
        ≡ granted (caller row) tokens'
  unfolding require_scope
  require_scope-passes wanted req tokens tokens' row passed allowed =
      rw (require_scope, passed, scope_allows-refusal wanted row.scope row.role allowed) refl

  module _ (admin_tools mutating_tools handlers : List Text) where
    -- Where the MCP server lets a tool call through with an API token, an HTTP request with the token
    -- as its bearer passes each route that requires the scope of the tool's level, which is `admin`
    -- for an admin tool, `write` for a mutating one and `read` otherwise, and notes the same use of
    -- the token. It is said of a token that is not empty, a tool that has a handler, and a table
    -- where every token that writes also reads.
    pub resolve-require_scope :
        (name raw header tier : Text) (req : Request) (tokens tokens' : List TokenRow)
        → has name handlers ≡ true
        → All ReadsToo tokens
        → is_nil raw ≡ false
        → is_nil header ≡ false
        → bearer_token header ≡ some raw
        → req.authorization ≡ some header
        → resolve_api_token_tier sha256 fromisoformat display_name now raw tokens
          ≡ some (tier, tokens')
        → tool_refusal admin_tools mutating_tools handlers name (some tier) ≡ none
        → (who : Principal) × (require_scope sha256 fromisoformat display_name now
              (tool_scope admin_tools mutating_tools handlers name)
              req
              tokens
            ≡ granted who tokens')
    resolve-require_scope name raw header tier req tokens tokens' known reads full head bears shown
          resolved let_through =
        let (row, found, live, tiered, touched) = resolve-found raw tier tokens tokens' resolved in
        let at =
          (find_token-Backs sha256 fromisoformat now display_name raw tokens row found live).0 in
        let wanted = tool_scope admin_tools mutating_tools handlers name in
        let admitted : is_admitted admin_tools mutating_tools handlers name
              (mcp_tier_for_token row.scope row.role)
            ≡ true =
          rw (tiered, let_through) refl in
        (
          caller row,
          require_scope-passes wanted req tokens tokens' row
              (bearer-granted raw header req tokens row full head bears shown found live
                ∙ ap (granted (caller row)) touched)
              (sym (
                  tool_refusal-scope_allows admin_tools mutating_tools handlers name row.scope
                    row.role known (All-IsIn row tokens reads at))
                ∙ admitted),
        )
