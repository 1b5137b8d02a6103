-- ===== src/Auth/Tiers/Parity.antt =====
-- The tier of a token and its scopes give the same leave.
use homepilot_core_public.Base.{
  ◌≡◌, refl, inl, inr, arith, Bool, true, false, not, Option, none, some, List, [], ◌∷◌,
  if◌then◌else◌, Bool-cases, is_some,
}
use homepilot_core_public.Base.Text.{Text, same_text}
use homepilot_core_public.Auth.Scopes.{
  scope_read, scope_write, scope_admin, star, has, is_nil, normalize_scope, scope_allows,
}
use homepilot_core_public.Auth.Scopes.Mint.{HoldsLower, normalize_scope-HoldsLower}
use homepilot_core_public.Auth.Tiers.{
  api_scope_to_mcp_tier, strongest, mcp_tier_for_token, is_tier, tool_refusal,
}

module _ (admin_tools mutating_tools handlers : List Text) where
  -- The API scope of the level on which the server's sets put a tool. The route that does the same
  -- may require another one.
  abbrev pub tool_scope : Text → Text
  tool_scope name =
      if has name admin_tools
      then scope_admin
      else if has name mutating_tools
      then scope_write
      else scope_read

  -- A token with this tier, if any, may call the tool.
  abbrev pub is_admitted : Text → Option Text → Bool
  is_admitted name none = false
  is_admitted name (some tier) =
      not (is_some (tool_refusal admin_tools mutating_tools handlers name (some tier)))

  tier_of : List Text → Option Text
  unfolding api_scope_to_mcp_tier strongest
  tier_of n =
      if has star n
      then api_scope_to_mcp_tier scope_admin
      else strongest n (scope_admin ∷ scope_write ∷ scope_read ∷ [])

  tool_refusal-tier_of :
      (name : Text) (n : List Text)
      → has name handlers ≡ true
      → HoldsLower n
      → (has scope_write n ≡ true → has scope_read n ≡ true)
      → is_admitted name (tier_of n) ≡ (if has star n then true else has (tool_scope name) n)
  unfolding tier_of strongest api_scope_to_mcp_tier tool_refusal is_tier same_text
  tool_refusal-tier_of name n known lower below = ground arith

  -- A token may call a tool of the MCP server exactly where its scope allows `admin` if the tool is
  -- in the set of the admin tools, or else `write` if it is in the set of the mutating ones, or else
  -- `read`: for a tool that has a handler, and a token whose write scope comes with the read scope.
  pub tool_refusal-scope_allows :
      (name : Text) (scope role : Option Text)
      → has name handlers ≡ true
      → (has scope_write (normalize_scope scope role) ≡ true
          → has scope_read (normalize_scope scope role) ≡ true)
      → is_admitted name (mcp_tier_for_token scope role) ≡ scope_allows scope (tool_scope name) role
  unfolding mcp_tier_for_token scope_allows tier_of
  tool_refusal-scope_allows name scope role known below =
      elim (Bool-cases (is_nil (normalize_scope scope role))) [
        | inl empty ↦ rw empty refl
        | inr written ↦ rw written (
            tool_refusal-tier_of name (normalize_scope scope role) known
              (normalize_scope-HoldsLower scope role) below)
      ]
