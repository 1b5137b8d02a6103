-- ===== src/Claim/Tests.antt =====
-- A fresh instance, claimed from the local network. A code is its own hash.
use homepilot_core_public.Base.{◌≡◌, refl, true, false, none, some, [], ◌∷◌}
use homepilot_core_public.Base.Text.{Text, codes}
use homepilot_core_public.Artifacts.Body.{drop_end}
use homepilot_core_public.Auth.Request.{TokenRow}
use homepilot_core_public.Claim.{
  Instance, ClaimRequest, Fault, no_fault, at_record, omitted, gone, claimed, failed, admin_token,
  fresh_claim, has_admin_credential, is_latched, claim_instance,
}
use homepilot_core_public.Claim.Closed.{set_tokens, run, claim_once}
use homepilot_core_public.Claim.Grounds.{MayClaim, claim_grounds}

abbrev sha : Text → Text
sha t = t

abbrev fresh : Instance
fresh = record {
  row = some (fresh_claim (codes "hpc_1") (codes "hpc_1234"));
  tokens = [];
  code_file = some (codes "hpc_1234");
}

abbrev drawn : TokenRow
drawn = record {
  id = codes "k1";
  user_id = codes "u1";
  prefix = codes "hp_1";
  hash = codes "hp_1234";
  scope = none;
  role = none;
  expires_at = none;
  last_used_at = none;
}

abbrev from_home : Fault → ClaimRequest
from_home fault = record {
  code = none;
  label = codes "admin";
  proxmox = omitted;
  local = true;
  allowed = true;
  fault = fault;
  minted = drawn;
  local_cli = none;
}

abbrev taken : Instance
taken = (claim_instance sha 5 (from_home no_fault) fresh).1

goes_through :
    claim_instance sha 5 (from_home no_fault) fresh ≡ (claimed (admin_token drawn), taken)
unfolding claim_instance drop_end
goes_through = refl

-- A failure behind the mint leaves the admin token, and with it a closed instance that nobody was
-- given the token of.
left_behind : (claim_instance sha 5 (from_home at_record) fresh).1.tokens ≡ admin_token drawn ∷ []
unfolding claim_instance drop_end
left_behind = refl

left_failed : (claim_instance sha 5 (from_home at_record) fresh).0 ≡ failed
unfolding claim_instance drop_end
left_failed = refl

-- The admin token is deleted, and the instance stays closed.
claim_once_example :
    claim_instance sha 9 (from_home no_fault) (run sha (set_tokens [] ∷ []) taken)
    ≡ (gone, run sha (set_tokens [] ∷ []) taken)
claim_once_example =
    claim_once sha 5 9 (from_home no_fault) (from_home no_fault) fresh taken (admin_token drawn)
      (set_tokens [] ∷ []) goes_through

claim_grounds_example :
    (has_admin_credential fresh.tokens ≡ false)
    × (is_latched fresh.row ≡ false)
    × ((from_home no_fault).allowed ≡ true)
    × MayClaim sha (from_home no_fault) fresh
    × (admin_token drawn ≡ admin_token drawn)
    × (has_admin_credential taken.tokens ≡ true)
claim_grounds_example =
    claim_grounds sha 5 (from_home no_fault) fresh taken (admin_token drawn) goes_through
