-- ===== src/Claim.antt =====
-- claim/: how an instance hands out its first admin credential. Here are claim/repository.py on its
-- one row, `ensure_claim_code` of claim/startup.py and `claim_instance` of claim/router.py. SHA-256,
-- the drawn codes and tokens and the clock are parameters or arguments. Of a request it is given
-- whether it comes from the local network, whether the limiter allows it, and how the calls to the
-- Proxmox settings and to the database go. Nobody else writes between the first and the last check
-- of a request.
pub mod Closed
pub mod Grounds
pub mod Trust
mod Tests
use homepilot_core_public.Base.{
  ℕ, Bool, true, false, ◌&&◌, ◌||◌, not, Option, none, some, List, [], ◌∷◌, ◌++◌, is_some,
  if◌then◌else◌,
}
use homepilot_core_public.Base.Text.{Text, codes, same_text}
use homepilot_core_public.Artifacts.Spec.{strip}
use homepilot_core_public.Auth.Scopes.{scope_admin, star, has, is_nil, normalize_scope}
use homepilot_core_public.Auth.Request.{TokenRow}

-- The row of instance_claim.
pub record ClaimRow : Type 0 where
  pub code_prefix : Text
  pub code_hash : Text
  pub claimed_at : Option ℕ
  pub claimed_label : Option Text
  pub minted_token_prefix : Option Text

-- The row, the table of the tokens, and the copy of the code in the data directory.
pub record Instance : Type 0 where
  pub row : Option ClaimRow
  pub tokens : List TokenRow
  pub code_file : Option Text

unfoldable pub has_admin_credential : List TokenRow → Bool
unfolding normalize_scope has
has_admin_credential [] = false
has_admin_credential (t ∷ tokens) =
    let normalized = normalize_scope t.scope t.role in
    let rest = has_admin_credential tokens in
    if has star normalized || has scope_admin normalized then true else rest

abbrev pub fresh_claim : Text → Text → ClaimRow
fresh_claim prefix hash = record {
  code_prefix = prefix;
  code_hash = hash;
  claimed_at = none;
  claimed_label = none;
  minted_token_prefix = none;
}

abbrev pub install_code : Text → Text → Instance → Instance
install_code prefix hash s = record s { row = some (fresh_claim prefix hash) }

-- The latch: whether this call took it.
unfoldable pub claim : ℕ → Text → Instance → Bool × Instance
claim now label s = elim s.row [
  | none ↦ (false, s)
  | some r ↦ if is_some r.claimed_at then (false, s) else (
    true,
    record s { row = some (record r { claimed_at = some now; claimed_label = some label }) },
  )
]

unfoldable pub release : Instance → Instance
release s = elim s.row [
  | none ↦ s
  | some r ↦
      if is_some r.minted_token_prefix
      then s
      else record s { row = some (record r { claimed_at = none; claimed_label = none }) }
]

-- The INSERT OR IGNORE, and the same latch.
unfoldable pub latch_claimed_externally : ℕ → Text → Instance → Bool × Instance
unfolding claim
latch_claimed_externally now label s = elim s.row [
  | none ↦ claim now label (install_code [] [] s)
  | some r ↦ claim now label s
]

unfoldable pub record_minted_token : Text → Instance → Instance
record_minted_token prefix s = elim s.row [
  | none ↦ s
  | some r ↦ record s { row = some (record r { minted_token_prefix = some prefix }) }
]

abbrev pub is_latched : Option ClaimRow → Bool
is_latched none = false
is_latched (some r) = is_some r.claimed_at

unfoldable pub is_claimed : Instance → Bool
unfolding has_admin_credential
is_claimed s = has_admin_credential s.tokens || is_latched s.row

-- The Proxmox half of a request: none of it, half of it, or all of it with a vault to store it, an
-- answer of the live system, and a way to store it.
pub data Proxmox : Type 0 where
  omitted half : Proxmox
  given : Bool → Bool → Bool → Proxmox

-- Where the work after the latch raises.
pub data Fault : Type 0 where
  no_fault at_user at_token at_record : Fault

pub record ClaimRequest : Type 0 where
  pub code : Option Text
  pub label : Text
  pub proxmox : Proxmox
  pub local : Bool
  pub allowed : Bool
  pub fault : Fault
  pub minted : TokenRow
  pub local_cli : Option TokenRow

pub data Answer : Type 0 where
  gone too_many bad_code code_required bad_proxmox failed : Answer
  claimed : TokenRow → Answer

abbrev pub text_of : Option Text → Text
text_of none = []
text_of (some t) = t

-- An admin token: the scope `all`, and no role.
abbrev pub admin_token : TokenRow → TokenRow
admin_token t = record t { scope = some (codes "all"); role = none; expires_at = none }

abbrev pub with_cli : Option TokenRow → List TokenRow → List TokenRow
with_cli none tokens = tokens
with_cli (some t) tokens = tokens ++ admin_token t ∷ []

-- What stands behind the latch, for a Proxmox part that is stored: an exception releases it.
unfoldable pub mint : ClaimRequest → Instance → Answer × Instance
unfolding release record_minted_token
mint req s =
    let stored = record s { tokens = s.tokens ++ admin_token req.minted ∷ [] } in
    elim req.fault [
      | at_user ↦ (failed, release s)
      | at_token ↦ (failed, release s)
      | at_record ↦ (failed, release stored)
      | no_fault ↦
          (let noted = record_minted_token req.minted.prefix stored in
            (
              claimed (admin_token req.minted),
              record noted { tokens = with_cli req.local_cli noted.tokens; code_file = none },
            ))
    ]

abbrev pub is_acceptable : Proxmox → Bool
is_acceptable omitted = true
is_acceptable half = false
is_acceptable (given vault verified saved) = vault && verified

abbrev pub is_stored : Proxmox → Bool
is_stored (given vault verified saved) = saved
is_stored _ = true

module _ (sha256 : Text → Text) where
  abbrev pub is_right : Text → Option ClaimRow → Bool
  is_right code none = false
  is_right code (some r) = same_text (sha256 code) r.code_hash

  -- The refusal of the credential, if it is refused.
  unfoldable pub credential_refusal : ClaimRequest → Instance → Option Answer
  unfolding strip same_text
  credential_refusal req s =
      let presented = strip (text_of req.code) in
      if not (is_nil presented)
      then (if is_right presented s.row then none else some bad_code)
      else if req.local
      then none
      else some code_required

  unfoldable pub claim_instance : ℕ → ClaimRequest → Instance → Answer × Instance
  unfolding is_claimed credential_refusal claim mint release
  claim_instance now req s =
      if is_claimed s
      then (gone, s)
      else if not req.allowed
      then (too_many, s)
      else elim (credential_refusal req s) [
        | some refusal ↦ (refusal, s)
        | none ↦
            if not (is_acceptable req.proxmox)
            then (bad_proxmox, s)
            else if not (claim now req.label s).0
            then (gone, s)
            else if is_stored req.proxmox
            then mint req (claim now req.label s).1
            else (failed, release (claim now req.label s).1)
      ]

  abbrev pub read_code : Option Text → Text
  unfolding strip
  read_code none = []
  read_code (some t) = strip t

  -- `ensure_claim_code`, with the code that it draws where it draws one, and whether the file can be
  -- written: the code to show, and the instance.
  unfoldable pub ensure_claim_code : ℕ → Text → Text → Bool → Instance → Option Text × Instance
  unfolding has_admin_credential latch_claimed_externally same_text
  ensure_claim_code now code prefix writable s =
      let drawn = install_code prefix (sha256 code) s in
      let shown = record drawn { code_file = if writable then some code else drawn.code_file } in
      if has_admin_credential s.tokens
      then (
        none,
        record (latch_claimed_externally now (codes "pre-claim admin credential") s).1 {
          code_file = none;
        },
      )
      else if is_latched s.row
      then (none, record s { code_file = none })
      else elim s.row [
        | none ↦ (some code, shown)
        | some r ↦
            (let existing = read_code s.code_file in
              if not (is_nil existing) && same_text (sha256 existing) r.code_hash
              then (some existing, s)
              else (some code, shown))
      ]
