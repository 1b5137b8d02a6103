-- ===== src/Provision/Address/Lowest.antt =====
-- The address that is given is the lowest that may be, and no guest holds it.
use homepilot_core_public.Base.{
  ℕ, zero, suc, ◌+◌, ◌-◌, ◌≤◌, ◌<◌, ◌^◌, String, ◌≡◌, refl, ◌≢◌, ◌∙◌, ap, sym, inl, inr, Bool, true,
  false, ◌||◌, Option, none, some, List, [], ◌∷◌, ◌++◌, ◌==◌, arith, All, Bool-cases, Option-cases,
}
use homepilot_core_public.Provision.Address.{
  GuestNetwork, GuestRow, Allocation, given, allocation_error, subnet_exhausted, range, hosts, ◌∈ᵃ◌,
  is_taken, first_free, pick_address, add_claims, row_claims, scan_rows, claimed_addresses,
  pick_from, allocate_address, infra_host_floor,
}

module _ (taken : ℕ → Bool) where
  first_free-found :
      (hs : List ℕ) {a : ℕ} → first_free taken hs ≡ some a → (a ∈ᵃ hs ≡ true) × (taken a ≡ false)
  unfolding first_free
  first_free-found [] h = absurd (cc)
  first_free-found (x ∷ hs) {a} h = elim (Bool-cases (taken x)) [
    | inr free ↦
        let same : some x ≡ some a = rw free at h in
        let e : x ≡ a = cc same in (ground (arith, e), rw (← e) free)
    | inl busy ↦
        let (member, free) = first_free-found hs (rw busy at h) in (ground (arith, member), free)
  ]

  first_free-least :
      (first n : ℕ) {a : ℕ}
      → first_free taken (range first n) ≡ some a
      → (first ≤ a) × ((b : ℕ) → first ≤ b → b < a → taken b ≡ true)
  unfolding first_free range
  first_free-least first zero h = absurd (cc)
  first_free-least first (suc n) {a} h = elim (Bool-cases (taken first)) [
    | inr free ↦
        let same : some first ≡ some a = rw free at h in
        let e : first ≡ a = cc same in (omega arith, λ b lo hi. absurd (omega arith))
    | inl busy ↦
        let (lo, below) = first_free-least (suc first) n (rw busy at h) in
        (
          omega arith,
          λ b from hi. elim (Bool-cases (first == b)) [
            | inl same ↦ let e : first ≡ b = ground arith in rw (← e) busy
            | inr other ↦ below b (ground arith) hi
          ],
        )
  ]

range-first : (first n b : ℕ) → b ∈ᵃ range first n ≡ true → first ≤ b
unfolding range
range-first first zero b h = absurd (cc)
range-first first (suc n) b h = elim (Bool-cases (first == b)) [
  | inl same ↦ ground arith
  | inr other ↦ let later = range-first (suc first) n b (rw other at h) in omega arith
]

-- In every case the hosts are a run of consecutive numbers.
hosts-range : (net : GuestNetwork) → (first : ℕ) × (n : ℕ) × (hosts net ≡ range first n)
unfolding hosts range
hosts-range net = elim (Bool-cases (net.prefixlen == 32)) [
  | inl single ↦ (net.network_address, 1, rw single refl)
  | inr more ↦ elim (Bool-cases (net.prefixlen == 31)) [
    | inl pair ↦ (net.network_address, 2, rw (more, pair) refl)
    | inr wide ↦ (net.network_address + 1, 2 ^ (32 - net.prefixlen) - 2, rw (more, wide) refl)
  ]
]

-- Every host of the subnet below the address that is picked is below the floor, the gateway, or
-- claimed.
pub pick_address_lowest :
    (net : GuestNetwork) (claimed : List ℕ) (floor a b : ℕ)
    → pick_address net claimed floor ≡ some a
    → b ∈ᵃ hosts net ≡ true
    → b < a
    → is_taken net claimed floor b ≡ true
unfolding pick_address
pick_address_lowest net claimed floor a b h member lt =
    let (first, n, e) = hosts-range net in
    (first_free-least (is_taken net claimed floor) first n (rw e at h)).1 b
      (range-first first n b (rw e at member)) lt

member-append : (a : ℕ) (xs ys : List ℕ) → a ∈ᵃ (xs ++ ys) ≡ (a ∈ᵃ xs || a ∈ᵃ ys)
member-append a [] ys = refl
member-append a (x ∷ xs) ys = ground (arith, member-append a xs ys)

-- A scan that goes through has read the row and the rest.
add_claims-given :
    (o : Option (List ℕ)) (rest : Allocation (List ℕ)) (claimed : List ℕ)
    → add_claims o rest ≡ given claimed
    → (claims : List ℕ) × (others : List ℕ) × (o ≡ some claims)
      × (rest ≡ given others)
      × (claims ++ others ≡ claimed)
add_claims-given none rest claimed h = absurd (cc)
add_claims-given (some claims) (given others) claimed h = (claims, others, refl, refl, cc h)
add_claims-given (some claims) allocation_error claimed h = absurd (cc)
add_claims-given (some claims) subnet_exhausted claimed h = absurd (cc)

pick_from-given :
    (net : GuestNetwork) (scan : Allocation (List ℕ)) (a : ℕ)
    → pick_from net scan ≡ given a
    → (claimed : List ℕ) × (scan ≡ given claimed)
      × (pick_address net claimed infra_host_floor ≡ some a)
pick_from-given net allocation_error a h = absurd (cc)
pick_from-given net subnet_exhausted a h = absurd (cc)
pick_from-given net (given claimed) a h =
    elim (Option-cases (pick_address net claimed infra_host_floor)) [
      | inl e ↦ absurd (ground (arith, e))
      | inr (b, e) ↦ (claimed, refl, ground (arith, e))
    ]

module _ (claims_of : String → ℕ → String → Option (List ℕ)) where
  -- The guest's configuration was read, where it had to be, and it does not claim the address.
  abbrev pub IsClear : ℕ → GuestRow → Type 0
  IsClear a row =
      (claims : List ℕ) × (row_claims claims_of row ≡ some claims) × (a ∈ᵃ claims ≡ false)

  scan_rows-IsClear :
      (a : ℕ) (rows : List GuestRow) (claimed : List ℕ)
      → scan_rows claims_of rows ≡ given claimed
      → a ∈ᵃ claimed ≡ false
      → All (IsClear a) rows
  unfolding scan_rows
  scan_rows-IsClear a [] claimed h free = tt
  scan_rows-IsClear a (row ∷ rows) claimed h free =
      let (claims, rest, there, scanned, whole) =
        add_claims-given (row_claims claims_of row) (scan_rows claims_of rows) claimed h in
      let parts : (a ∈ᵃ claims || a ∈ᵃ rest) ≡ false =
        sym (member-append a claims rest) ∙ ap (λ l. a ∈ᵃ l) whole ∙ free in
      (
        (claims, there, ground (arith, parts)),
        scan_rows-IsClear a rows rest scanned (ground (arith, parts)),
      )

  -- An address that is allocated is a host address of the subnet, at least ten above its network
  -- address and not the gateway; the listing was read, and so was the configuration of every guest in
  -- it that is scanned, and none of them claims the address.
  pub allocate_address_free :
      (net : GuestNetwork) (listing : Option (List GuestRow)) (a : ℕ)
      → allocate_address claims_of net listing ≡ given a
      → (a ∈ᵃ hosts net ≡ true)
        × (net.network_address + 10 ≤ a)
        × (a ≢ net.gateway)
        × ((rows : List GuestRow) × (listing ≡ some rows) × All (IsClear a) rows)
  unfolding allocate_address claimed_addresses
  allocate_address_free net none a h = absurd (cc)
  allocate_address_free net (some rows) a h =
      let (claimed, scanned, picked) = pick_from-given net (scan_rows claims_of rows) a h in
      let (member, free) =
        first_free-found (is_taken net claimed 10) (hosts net) (unfold pick_address in picked) in
      (
        member,
        ground (arith, free),
        (λ e. ground (arith, free, e)),
        (rows, refl, scan_rows-IsClear a rows claimed scanned (ground (arith, free))),
      )
