-- ===== src/Auth/Tiers.antt =====
-- `mcp_tier_for_token` of auth/tokens.py with API_SCOPE_TO_MCP_TIER of auth/scopes.py, and the guard
-- of `_handle_tool` in mcp/server.py. The names of the tools are parameters: two sets and a table.
pub mod Parity
use homepilot_core_public.Base.{
  Bool, true, false, ◌&&◌, not, Option, none, some, List, [], ◌∷◌, if◌then◌else◌,
}
use homepilot_core_public.Base.Text.{Text, codes, same_text}
use homepilot_core_public.Auth.Scopes.{
  scope_read, scope_write, scope_admin, star, has, is_nil, normalize_scope, scope_allows,
}

-- API_SCOPE_TO_MCP_TIER
unfoldable pub api_scope_to_mcp_tier : Text → Option Text
unfolding same_text
api_scope_to_mcp_tier scope =
    if same_text scope scope_read
    then some (codes "read_only")
    else if same_text scope scope_write
    then some (codes "full")
    else if same_text scope scope_admin
    then some (codes "admin")
    else none

-- The loop over the scopes, the strongest first.
unfoldable pub strongest : List Text → List Text → Option Text
unfolding has api_scope_to_mcp_tier
strongest normalized [] = none
strongest normalized (scope ∷ scopes) =
    let rest = strongest normalized scopes in
    if has scope normalized then api_scope_to_mcp_tier scope else rest

unfoldable pub mcp_tier_for_token : Option Text → Option Text → Option Text
unfolding normalize_scope has strongest
mcp_tier_for_token scope role =
    let normalized = normalize_scope scope role in
    if is_nil normalized
    then none
    else if has star normalized
    then api_scope_to_mcp_tier scope_admin
    else strongest normalized (scope_admin ∷ scope_write ∷ scope_read ∷ [])

pub data ToolRefusal : Type 0 where
  needs_admin needs_full unknown_tool : ToolRefusal

-- `mcp_scope == tier`, where `mcp_scope` may be None.
unfoldable pub is_tier : Option Text → Text → Bool
unfolding same_text
is_tier none tier = false
is_tier (some t) tier = same_text t tier

module _ (admin_tools mutating_tools handlers : List Text) where
  -- The refusal of a call before its handler runs, if any.
  unfoldable pub tool_refusal : Text → Option Text → Option ToolRefusal
  unfolding has is_tier
  tool_refusal name mcp_scope =
      if has name admin_tools && not (is_tier mcp_scope (codes "admin"))
      then some needs_admin
      else if has name mutating_tools && is_tier mcp_scope (codes "read_only")
      then some needs_full
      else if not (has name handlers)
      then some unknown_tool
      else none
