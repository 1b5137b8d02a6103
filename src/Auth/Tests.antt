-- ===== src/Auth/Tests.antt =====
-- Tokens: `one` may read and write, `two` has expired. A token is its own hash, and a text of a
-- date counts its characters.
use homepilot_core_public.Base.{
  ℕ, ◌≡◌, refl, true, false, Option, none, some, List, [], ◌∷◌, length, All,
}
use homepilot_core_public.Base.Text.{Text, codes, same_text, take}
use homepilot_core_public.Artifacts.Body.{drop_end}
use homepilot_core_public.Auth.Scopes.{
  scope_read, scope_write, scope_admin, has, normalize_text, normalize_scope, normalize_option,
  validate_scope, scope_allows,
}
use homepilot_core_public.Auth.Tiers.{mcp_tier_for_token, tool_refusal}
use homepilot_core_public.Auth.Tiers.Parity.{tool_scope, is_admitted, tool_refusal-scope_allows}
use homepilot_core_public.Auth.Request.{
  TokenRow, Request, Principal, granted, require_scope, require_token, resolve_api_token_tier,
  bearer_token,
}
use homepilot_core_public.Auth.Request.Granted.{Presents, Backs, require_scope-granted}
use homepilot_core_public.Auth.Request.Mcp.{ReadsToo, resolve-require_scope}

admin_and_more :
    normalize_scope (some (codes " admin,read ")) none ≡ scope_admin ∷ scope_read ∷ scope_write ∷ []
unfolding normalize_scope normalize_option normalize_text drop_end
admin_and_more = refl

only_write : normalize_scope (some (codes "write")) none ≡ scope_write ∷ []
unfolding normalize_scope normalize_option normalize_text drop_end
only_write = refl

-- A token that writes and does not read is granted the reading tools, and refused the reading routes.
write_tier : mcp_tier_for_token (some (codes "write")) none ≡ some (codes "full")
unfolding mcp_tier_for_token normalize_scope normalize_option normalize_text drop_end
write_tier = refl

write_refused : scope_allows (some (codes "write")) scope_read none ≡ false
unfolding scope_allows normalize_scope normalize_option normalize_text drop_end
write_refused = refl

ladder_accepted : validate_scope (some (codes "read, write")) ≡ some (scope_read ∷ scope_write ∷ [])
unfolding validate_scope normalize_scope normalize_option normalize_text drop_end
ladder_accepted = refl

abbrev name : Text
name = codes "apply_artifact"

abbrev names : List Text
names = name ∷ []

name_known : has name names ≡ true
unfolding has same_text
name_known = refl

abbrev read_write : Option Text
read_write = some (codes "read,write")

reads_too :
    has scope_write (normalize_scope read_write none) ≡ true
    → has scope_read (normalize_scope read_write none) ≡ true
unfolding normalize_scope normalize_option normalize_text drop_end
reads_too h = refl

tool_refusal-scope_allows_example :
    is_admitted [] names names name (mcp_tier_for_token read_write none)
    ≡ scope_allows read_write (tool_scope [] names names name) none
tool_refusal-scope_allows_example =
    tool_refusal-scope_allows [] names names name read_write none name_known reads_too

abbrev one : TokenRow
one = record {
  id = codes "k1";
  user_id = codes "u1";
  prefix = codes "hp_one";
  hash = codes "hp_one";
  scope = read_write;
  role = none;
  expires_at = some (codes "2030-01-01");
  last_used_at = none;
}

abbrev two : TokenRow
two = record one {
  id = codes "k2";
  prefix = codes "hp_two";
  hash = codes "hp_two";
  expires_at = some (codes "1");
}

abbrev tokens : List TokenRow
tokens = two ∷ one ∷ []

abbrev sha : Text → Text
sha t = t

abbrev read_date : Text → Option ℕ
read_date t = some (length t)

abbrev no_name : Text → Option Text
no_name t = none

abbrev request : Request
request = record {
  method = codes "POST";
  authorization = some (codes "Bearer hp_one");
  hp_token = none;
  hp_csrf = none;
  x_csrf_token = none;
  x_requested_with = none;
}

abbrev who : Principal
who = record {
  user_id = codes "u1";
  token_id = codes "k1";
  display_name = none;
  scope = read_write;
  role = none;
}

abbrev touched : List TokenRow
touched = two ∷ record one { last_used_at = some 5 } ∷ []

let_in : require_scope sha read_date no_name 5 scope_write request tokens ≡ granted who touched
unfolding require_scope require_token normalize_option normalize_text drop_end take
let_in = refl

require_scope-granted_example :
    (raw : Text) × (row : TokenRow) × Presents request raw
    × Backs sha read_date 5 tokens raw row
    × (scope_allows row.scope scope_write row.role ≡ true)
require_scope-granted_example =
    require_scope-granted sha read_date 5 no_name scope_write request tokens touched who let_in

tokens_read : All ReadsToo tokens
tokens_read = (reads_too, (reads_too, tt))

one_tier :
    resolve_api_token_tier sha read_date no_name 5 (codes "hp_one") tokens
    ≡ some (codes "full", touched)
unfolding resolve_api_token_tier normalize_option normalize_text drop_end take
one_tier = refl

bears_one : bearer_token (codes "Bearer hp_one") ≡ some (codes "hp_one")
unfolding bearer_token
bears_one = refl

not_barred : tool_refusal [] names names name (some (codes "full")) ≡ none
unfolding tool_refusal
not_barred = refl

resolve-require_scope_example :
    (caller : Principal) × (require_scope sha read_date no_name 5
        (tool_scope [] names names name)
        request
        tokens
      ≡ granted caller touched)
resolve-require_scope_example =
    resolve-require_scope sha read_date no_name 5 [] names names name (codes "hp_one")
      (codes "Bearer hp_one") (codes "full") request tokens touched name_known tokens_read refl refl
      bears_one refl one_tier not_barred
