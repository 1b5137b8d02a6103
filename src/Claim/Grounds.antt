-- ===== src/Claim/Grounds.antt =====
-- What a request that claims an instance has shown: claim/router.py.
use homepilot_core_public.Base.{
  ℕ, ◌≡◌, refl, ◌≢◌, ◌⊎◌, inl, inr, arith, true, false, Option, none, some, List, [], ◌∷◌, ◌++◌,
  Option-cases, ap, sym, ◌∙◌,
}
use homepilot_core_public.Base.Text.{Text, codes, same_text, same_text-eq}
use homepilot_core_public.Artifacts.Spec.{strip}
use homepilot_core_public.Artifacts.Body.{drop_end}
use homepilot_core_public.Auth.Scopes.{star, has, normalize_scope, normalize_option, normalize_text}
use homepilot_core_public.Auth.Request.{TokenRow}
use homepilot_core_public.Claim.{
  ClaimRow, Instance, has_admin_credential, claim, record_minted_token, is_right, text_of,
  is_latched, is_claimed, ClaimRequest, Answer, claimed, bad_code, code_required, Fault, no_fault,
  at_user, at_token, at_record, mint, claim_instance, credential_refusal, admin_token, with_cli,
}

Text-cases : (t : Text) → (t ≡ []) ⊎ ((c : ℕ) × (r : Text) × (t ≡ c ∷ r))
Text-cases [] = inl refl
Text-cases (c ∷ r) = inr (c, r, refl)

pub Fault-cases : (f : Fault) → (f ≡ no_fault) ⊎ (f ≢ no_fault)
Fault-cases no_fault = inl refl
Fault-cases at_user = inr (λ e. absurd (ground arith))
Fault-cases at_token = inr (λ e. absurd (ground arith))
Fault-cases at_record = inr (λ e. absurd (ground arith))

pub mint-no_fault :
    (req : ClaimRequest) (s s' : Instance) (t : TokenRow)
    → mint req s ≡ (claimed t, s')
    → req.fault ≡ no_fault
unfolding mint
mint-no_fault req s s' t h = ground arith

-- The scope `all` is the superuser's.
all_scope : normalize_scope (some (codes "all")) none ≡ star ∷ []
unfolding normalize_scope normalize_option normalize_text drop_end
all_scope = refl

has_admin-snoc :
    (tokens : List TokenRow) (t : TokenRow)
    → has_admin_credential (tokens ++ admin_token t ∷ []) ≡ true
unfolding has_admin_credential has same_text
has_admin-snoc [] t = rw (has_admin_credential, all_scope) refl
has_admin-snoc (u ∷ tokens) t = ground (arith, has_admin-snoc tokens t)

has_admin-append :
    (tokens more : List TokenRow)
    → has_admin_credential tokens ≡ true
    → has_admin_credential (tokens ++ more) ≡ true
unfolding has_admin_credential
has_admin-append [] more h = absurd (cc h)
has_admin-append (t ∷ tokens) more h = ground (arith, has_admin-append tokens more)

noted-tokens : (prefix : Text) (s : Instance) → (record_minted_token prefix s).tokens ≡ s.tokens
unfolding record_minted_token
noted-tokens prefix s = elim (Option-cases s.row) [
  | inl empty ↦ rw (record_minted_token, empty) refl
  | inr (r, e) ↦ rw (record_minted_token, e) refl
]

with_cli-admin :
    (cli : Option TokenRow) (tokens : List TokenRow)
    → has_admin_credential tokens ≡ true
    → has_admin_credential (with_cli cli tokens) ≡ true
with_cli-admin none tokens h = h
with_cli-admin (some t) tokens h = has_admin-append tokens (admin_token t ∷ []) h

mint-admin :
    (req : ClaimRequest) (s s' : Instance) (t : TokenRow)
    → mint req s ≡ (claimed t, s')
    → (t ≡ admin_token req.minted) × (has_admin_credential s'.tokens ≡ true)
unfolding mint
mint-admin req s s' t h =
    let fine = mint-no_fault req s s' t h in
    let stored = record s { tokens = s.tokens ++ admin_token req.minted ∷ [] } in
    let noted = record_minted_token req.minted.prefix stored in
    let made = rw (mint, fine) at h in
    (
      ground (arith, made),
      ap (λ (p : Answer × Instance). has_admin_credential p.1.tokens) (sym made)
          ∙ with_cli-admin req.local_cli noted.tokens (
              ap has_admin_credential (noted-tokens req.minted.prefix stored)
              ∙ has_admin-snoc s.tokens req.minted),
    )

module _ (sha256 : Text → Text) where
  refusal-cases :
      (req : ClaimRequest) (s : Instance) (a : Answer)
      → credential_refusal sha256 req s ≡ some a
      → (a ≡ bad_code) ⊎ (a ≡ code_required)
  unfolding credential_refusal
  refusal-cases req s a h = ground arith

  -- The way of a request that claims the instance.
  pub claimed-path :
      (now : ℕ) (req : ClaimRequest) (s s' : Instance) (t : TokenRow)
      → claim_instance sha256 now req s ≡ (claimed t, s')
      → (is_claimed s ≡ false)
        × (req.allowed ≡ true)
        × (credential_refusal sha256 req s ≡ none)
        × ((claim now req.label s).0 ≡ true)
        × (mint req (claim now req.label s).1 ≡ (claimed t, s'))
  unfolding claim_instance
  claimed-path now req s s' t h = elim (Option-cases (credential_refusal sha256 req s)) [
    | inr (a, e) ↦ absurd (ground (arith, refusal-cases req s a e))
    | inl fine ↦ (ground arith, ground arith, fine, ground arith, ground arith)
  ]

  -- From the local network without a code, or with the code whose hash is stored.
  abbrev pub MayClaim : ClaimRequest → Instance → Type 0
  MayClaim req s =
      ((req.local ≡ true) × (strip (text_of req.code) ≡ []))
      ⊎ ((r : ClaimRow) × (s.row ≡ some r) × (sha256 (strip (text_of req.code)) ≡ r.code_hash))

  right-hash :
      (code : Text) (row : Option ClaimRow)
      → is_right sha256 code row ≡ true
      → (r : ClaimRow) × (row ≡ some r) × (sha256 code ≡ r.code_hash)
  right-hash code none h = absurd (cc h)
  right-hash code (some r) h = (r, refl, same_text-eq (sha256 code) r.code_hash h)

  credential-MayClaim :
      (req : ClaimRequest) (s : Instance) → credential_refusal sha256 req s ≡ none → MayClaim req s
  unfolding credential_refusal
  credential-MayClaim req s h = elim (Text-cases (strip (text_of req.code))) [
    | inl empty ↦ inl (ground (arith, empty), empty)
    | inr (c, t, e) ↦ inr (right-hash (strip (text_of req.code)) s.row (ground (arith, e)))
  ]

  -- A request claims an instance only where no admin token exists and no claim has been taken, the
  -- limiter allows it, and it comes from the local network without a code or presents the code
  -- whose hash is stored. What it is given is the token that was drawn, with the superuser scope,
  -- and the table holds an admin token afterwards.
  pub claim_grounds :
      (now : ℕ) (req : ClaimRequest) (s s' : Instance) (t : TokenRow)
      → claim_instance sha256 now req s ≡ (claimed t, s')
      → (has_admin_credential s.tokens ≡ false)
        × (is_latched s.row ≡ false)
        × (req.allowed ≡ true)
        × MayClaim req s
        × (t ≡ admin_token req.minted)
        × (has_admin_credential s'.tokens ≡ true)
  unfolding is_claimed credential_refusal
  claim_grounds now req s s' t h =
      let path = claimed-path now req s s' t h in
      let (given, admin) = mint-admin req (claim now req.label s).1 s' t path.4 in
      (
        ground (arith, path.0),
        ground (arith, path.0),
        path.1,
        credential-MayClaim req s path.2,
        given,
        admin,
      )
