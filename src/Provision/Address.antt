-- ===== src/Provision/Address.antt =====
-- provision/ip_allocation.py: `pick_address`, `claimed_addresses` and `allocate_address`. An address
-- is its number. The guests' configurations are read by the Proxmox client, a parameter, and what a
-- configuration claims on the network is a list.
pub mod Lowest
use homepilot_core_public.Base.{
  ℕ, zero, suc, ◌+◌, ◌-◌, ◌^◌, String, Bool, true, false, ◌&&◌, ◌||◌, not, Option, none, some, List,
  [], ◌∷◌, ◌++◌, ◌==◌, ◌=ˢ◌, ltb, length, if◌then◌else◌,
}

abbrev pub infra_host_floor : ℕ
infra_host_floor = 10

pub record GuestNetwork : Type 0 where
  pub vnet : String
  pub network_address : ℕ
  pub prefixlen : ℕ
  pub gateway : ℕ

-- `first, first + 1, ...`
unfoldable pub range : ℕ → ℕ → List ℕ
range first zero = []
range first (suc n) = first ∷ range (suc first) n

-- `subnet.hosts()`: without the network and the broadcast address, but for prefixes of 31 and 32.
unfoldable pub hosts : GuestNetwork → List ℕ
unfolding range
hosts net =
    if net.prefixlen == 32
    then net.network_address ∷ []
    else if net.prefixlen == 31
    then range net.network_address 2
    else range (net.network_address + 1) (2 ^ (32 - net.prefixlen) - 2)

-- `address in claimed`
infix 50 ◌∈ᵃ◌
abbrev pub ◌∈ᵃ◌ : ℕ → List ℕ → Bool
a ∈ᵃ [] = false
a ∈ᵃ (b ∷ bs) = b == a || a ∈ᵃ bs

-- The tests of the loop: the host is passed over.
abbrev pub is_taken : GuestNetwork → List ℕ → ℕ → ℕ → Bool
is_taken net claimed floor host =
    ltb (host - net.network_address) floor || host == net.gateway || host ∈ᵃ claimed

unfoldable pub first_free : (ℕ → Bool) → List ℕ → Option ℕ
first_free taken [] = none
first_free taken (h ∷ hs) = let rest = first_free taken hs in if taken h then rest else some h

-- `none` stands for `SubnetExhaustedError`.
unfoldable pub pick_address : GuestNetwork → List ℕ → ℕ → Option ℕ
unfolding hosts first_free
pick_address net claimed floor = first_free (is_taken net claimed floor) (hosts net)

-- A row of `/cluster/resources`: an absent field is the empty text or `none`.
pub record GuestRow : Type 0 where
  pub node : String
  pub guest_type : String
  pub vmid : Option ℕ

-- What the Proxmox client raises, or that there is none, is told apart from an exhausted subnet.
pub data Allocation {ℓ} (A : Type ℓ) : Type ℓ where
  given : A → Allocation A
  allocation_error subnet_exhausted : Allocation A

abbrev is_scanned : GuestRow → Bool
is_scanned row = not (row.node =ˢ "") && (row.guest_type =ˢ "qemu" || row.guest_type =ˢ "lxc")

-- One configuration that cannot be read fails the whole scan.
abbrev pub add_claims : Option (List ℕ) → Allocation (List ℕ) → Allocation (List ℕ)
add_claims none rest = allocation_error
add_claims (some claims) (given rest) = given (claims ++ rest)
add_claims (some claims) allocation_error = allocation_error
add_claims (some claims) subnet_exhausted = subnet_exhausted

-- `pick_address` on what the scan gave.
abbrev pub pick_from : GuestNetwork → Allocation (List ℕ) → Allocation ℕ
pick_from net (given claimed) = elim (pick_address net claimed infra_host_floor) [
  | none ↦ subnet_exhausted
  | some address ↦ given address
]
pick_from net allocation_error = allocation_error
pick_from net subnet_exhausted = subnet_exhausted

module _ (claims_of : String → ℕ → String → Option (List ℕ)) where
  -- What a row's guest claims: nothing for a row that is passed over.
  abbrev pub row_claims : GuestRow → Option (List ℕ)
  row_claims row = elim row.vmid [
    | none ↦ some []
    | some vmid ↦ if is_scanned row then claims_of row.node vmid row.guest_type else some []
  ]

  unfoldable pub scan_rows : List GuestRow → Allocation (List ℕ)
  scan_rows [] = given []
  scan_rows (row ∷ rows) = add_claims (row_claims row) (scan_rows rows)

  -- The listing is `none` when there is no client or it could not be read.
  unfoldable pub claimed_addresses : Option (List GuestRow) → Allocation (List ℕ)
  unfolding scan_rows
  claimed_addresses none = allocation_error
  claimed_addresses (some rows) = scan_rows rows

  unfoldable pub allocate_address : GuestNetwork → Option (List GuestRow) → Allocation ℕ
  unfolding claimed_addresses pick_address
  allocate_address net listing = pick_from net (claimed_addresses listing)
