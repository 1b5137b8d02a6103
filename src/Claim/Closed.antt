-- ===== src/Claim/Closed.antt =====
-- Once an instance is claimed, no request claims it: claim/router.py and claim/repository.py.
use homepilot_core_public.Base.{
  ℕ, ◌≡◌, refl, inl, inr, arith, Bool, true, List, [], ◌∷◌, ◌++◌, is_some, Bool-cases, Option-cases,
  ap, sym, ◌∙◌,
}
use homepilot_core_public.Base.Text.{Text}
use homepilot_core_public.Auth.Request.{TokenRow}
use homepilot_core_public.Claim.Grounds.{Fault-cases, mint-no_fault, claimed-path}
use homepilot_core_public.Claim.{
  Instance, has_admin_credential, claim, latch_claimed_externally, record_minted_token, is_latched,
  is_claimed, ClaimRequest, Answer, gone, claimed, mint, claim_instance, ensure_claim_code,
  admin_token,
}

-- What happens to an instance: a request to claim it, a start, and changes of the table of the tokens
-- that other parts make.
pub data Event : Type 0 where
  request : ℕ → ClaimRequest → Event
  start : ℕ → Text → Text → Bool → Event
  set_tokens : List TokenRow → Event

abbrev pub IsLatched : Instance → Type 0
IsLatched s = is_latched s.row ≡ true

claim-IsLatched :
    (now : ℕ) (label : Text) (s : Instance)
    → (claim now label s).0 ≡ true
    → IsLatched (claim now label s).1
unfolding claim
claim-IsLatched now label s h = elim (Option-cases s.row) [
  | inl empty ↦ absurd (ground arith)
  | inr (r, e) ↦ elim (Bool-cases (is_some r.claimed_at)) [
    | inl taken ↦ absurd (ground arith)
    | inr free ↦ rw (claim, e, free) refl
  ]
]

note-IsLatched :
    (prefix : Text) (s : Instance) → IsLatched s → IsLatched (record_minted_token prefix s)
unfolding record_minted_token
note-IsLatched prefix s h = elim (Option-cases s.row) [
  | inl empty ↦ absurd (ground arith)
  | inr (r, e) ↦ ground (arith, e, h)
]

mint-IsLatched :
    (req : ClaimRequest) (s s' : Instance) (t : TokenRow)
    → mint req s ≡ (claimed t, s')
    → IsLatched s
    → IsLatched s'
unfolding mint
mint-IsLatched req s s' t h latched = elim (Fault-cases req.fault) [
  | inl e ↦
      let stored = record s { tokens = s.tokens ++ admin_token req.minted ∷ [] } in
      ap (λ (p : Answer × Instance). is_latched p.1.row) (sym (rw (mint, e) at h))
      ∙ note-IsLatched req.minted.prefix stored latched
  | inr other ↦ absurd (other (mint-no_fault req s s' t h))
]

module _ (sha256 : Text → Text) where
  abbrev pub after : Event → Instance → Instance
  after (request now req) s = (claim_instance sha256 now req s).1
  after (start now code prefix writable) s = (ensure_claim_code sha256 now code prefix writable s).1
  after (set_tokens tokens) s = record s { tokens = tokens }

  abbrev pub run : List Event → Instance → Instance
  run [] s = s
  run (e ∷ es) s = run es (after e s)

  latched-gone :
      (now : ℕ) (req : ClaimRequest) (s : Instance)
      → IsLatched s
      → claim_instance sha256 now req s ≡ (gone, s)
  unfolding claim_instance is_claimed
  latched-gone now req s h =
      let closed : is_claimed s ≡ true = ground arith in rw (claim_instance, closed) refl

  latch-IsLatched :
      (now : ℕ) (label : Text) (s : Instance)
      → IsLatched s
      → IsLatched (latch_claimed_externally now label s).1
  unfolding latch_claimed_externally claim
  latch-IsLatched now label s h = elim (Option-cases s.row) [
    | inl empty ↦ absurd (ground arith)
    | inr (r, e) ↦
        let taken : is_some r.claimed_at ≡ true = ground arith in
        rw (latch_claimed_externally, e, claim, e, taken) h
  ]

  ensure-IsLatched :
      (now : ℕ) (code prefix : Text) (writable : Bool) (s : Instance)
      → IsLatched s
      → IsLatched (ensure_claim_code sha256 now code prefix writable s).1
  unfolding ensure_claim_code
  ensure-IsLatched now code prefix writable s h =
      elim (Bool-cases (has_admin_credential s.tokens)) [
        | inl admin ↦ rw (ensure_claim_code, admin) (latch-IsLatched now _ s h)
        | inr bare ↦ rw (ensure_claim_code, bare, h) h
      ]

  after-IsLatched : (e : Event) (s : Instance) → IsLatched s → IsLatched (after e s)
  after-IsLatched (request now req) s h =
      ap (λ (p : Answer × Instance). is_latched p.1.row) (latched-gone now req s h) ∙ h
  after-IsLatched (start now code prefix writable) s h =
      ensure-IsLatched now code prefix writable s h
  after-IsLatched (set_tokens tokens) s h = h

  run-IsLatched : (es : List Event) (s : Instance) → IsLatched s → IsLatched (run es s)
  run-IsLatched [] s h = h
  run-IsLatched (e ∷ es) s h = run-IsLatched es (after e s) (after-IsLatched e s h)

  claimed-IsLatched :
      (now : ℕ) (req : ClaimRequest) (s s' : Instance) (t : TokenRow)
      → claim_instance sha256 now req s ≡ (claimed t, s')
      → IsLatched s'
  claimed-IsLatched now req s s' t h =
      let path = claimed-path sha256 now req s s' t h in
      mint-IsLatched req (claim now req.label s).1 s' t path.4
        (claim-IsLatched now req.label s path.3)

  -- An instance is claimed at most once: after a request that claimed it, whatever requests and starts
  -- come and whatever becomes of its tokens, the next request is told that the instance is claimed
  -- and changes nothing, even where every token has been deleted.
  pub claim_once :
      (now now' : ℕ) (req req' : ClaimRequest) (s s' : Instance) (t : TokenRow) (es : List Event)
      → claim_instance sha256 now req s ≡ (claimed t, s')
      → claim_instance sha256 now' req' (run es s') ≡ (gone, run es s')
  claim_once now now' req req' s s' t es h =
      latched-gone now' req' (run es s') (run-IsLatched es s' (claimed-IsLatched now req s s' t h))
