-- ===== src/Claim/Trust.antt =====
-- claim/trust.py: whether a request comes from the local network. The parser of an address and the
-- networks that it is compared with are parameters; a header that is absent is the empty text.
use homepilot_core_public.Base.{
  ◌≡◌, refl, ◌⊎◌, inl, inr, arith, Bool, true, false, ◌&&◌, ◌||◌, not, Option, none, some, [], ◌∷◌,
  ◌∙◌, sym, ap, is_some, if◌then◌else◌,
}
use homepilot_core_public.Base.Text.{Text}
use homepilot_core_public.Artifacts.Spec.{strip}
use homepilot_core_public.Auth.Scopes.{is_nil, split_commas}

-- The headers that a proxy sets.
pub record Forwarding : Type 0 where
  pub x_forwarded_for : Text
  pub x_real_ip : Text
  pub forwarded : Text

abbrev is_forwarded : Forwarding → Bool
is_forwarded h =
    not (is_nil h.x_forwarded_for) || not (is_nil h.x_real_ip) || not (is_nil h.forwarded)

-- The decision, on what has been found out.
abbrev decide : Bool → Bool → Option Text → (Text → Bool) → Text → Bool × Text
decide proxied by_proxy client is_local peer =
    if proxied && not by_proxy
    then (false, peer)
    else if by_proxy
    then elim client [ none ↦ (false, peer) | some c ↦ (is_local c, c) ]
    else (is_local peer, peer)

answered :
    (c : Text) (is_local : Text → Bool) (addr : Text) {P : Type 0}
    → is_local c ≡ true
    → c ≡ addr
    → (is_local addr ≡ true) × (P ⊎ ((true ≡ true) × (some c ≡ some addr)))
answered c is_local addr home same =
    (ap is_local (sym same) ∙ home, inr (refl, ap (λ (x : Text). some x) same))

decide-local :
    (proxied by_proxy : Bool) (client : Option Text) (is_local : Text → Bool) (peer addr : Text)
    → decide proxied by_proxy client is_local peer ≡ (true, addr)
    → (is_local addr ≡ true)
      × (((addr ≡ peer) × (proxied ≡ false)) ⊎ ((by_proxy ≡ true) × (client ≡ some addr)))
decide-local true false client is_local peer addr e = absurd (ground arith)
decide-local false false client is_local peer addr e =
    let same : peer ≡ addr = ap (λ (p : Bool × Text). p.1) e in
    (ap is_local (sym same) ∙ ap (λ (p : Bool × Text). p.0) e, inl (sym same, refl))
decide-local true true none is_local peer addr e = absurd (ground arith)
decide-local false true none is_local peer addr e = absurd (ground arith)
decide-local true true (some c) is_local peer addr e =
    answered c is_local addr (ap (λ (p : Bool × Text). p.0) e) (ap (λ (p : Bool × Text). p.1) e)
decide-local false true (some c) is_local peer addr e =
    answered c is_local addr (ap (λ (p : Bool × Text). p.0) e) (ap (λ (p : Bool × Text). p.1) e)

module _ {A : Type 0} (ip_address : Text → Option A) (in_local in_trusted : A → Bool) where
  -- `_parse`
  unfoldable pub parse : Text → Option A
  unfolding strip
  parse address = ip_address (strip address)

  abbrev pub passes : (A → Bool) → Option A → Bool
  passes p none = false
  passes p (some a) = p a

  unfoldable pub is_local_address : Text → Bool
  unfolding parse
  is_local_address address = passes in_local (parse address)

  abbrev first : Text → Text
  unfolding split_commas
  first t = elim (split_commas t) [ [] ↦ [] | part ∷ parts ↦ part ]

  abbrev if_parsed : Text → Option Text
  unfolding parse
  if_parsed address = if is_some (parse address) then some address else none

  unfoldable pub forwarded_client : Forwarding → Option Text
  unfolding strip first if_parsed
  forwarded_client h =
      if not (is_nil h.x_forwarded_for)
      then if_parsed (strip (first h.x_forwarded_for))
      else if not (is_nil (strip h.x_real_ip))
      then if_parsed (strip h.x_real_ip)
      else none

  -- Whether the request is local, and the address that it is limited by.
  unfoldable pub claim_source : Text → Forwarding → Bool × Text
  unfolding is_local_address forwarded_client
  claim_source peer h =
      decide (is_forwarded h) (passes in_trusted (parse peer)) (forwarded_client h) is_local_address
        peer

  -- A request counts as local only where the address that it is limited by is a local one, and this is
  -- the peer's own address, with no header of a proxy, or what a trusted proxy has put into one.
  pub claim_source-local :
      (peer addr : Text) (h : Forwarding)
      → claim_source peer h ≡ (true, addr)
      → (is_local_address addr ≡ true)
        × (((addr ≡ peer) × (is_forwarded h ≡ false))
            ⊎ ((passes in_trusted (parse peer) ≡ true) × (forwarded_client h ≡ some addr)))
  unfolding claim_source
  claim_source-local peer addr h e =
      decide-local (is_forwarded h) (passes in_trusted (parse peer)) (forwarded_client h)
        is_local_address peer addr e
