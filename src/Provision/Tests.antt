-- ===== src/Provision/Tests.antt =====
-- A subnet of sixteen addresses from 160 on, with the gateway at 161, and two guests in it.
use homepilot_core_public.Base.{
  ℕ, ◌≤◌, String, ◌≡◌, ◌≢◌, refl, true, Option, none, some, List, [], ◌∷◌, ◌==◌, if◌then◌else◌, All,
}
use homepilot_core_public.Provision.Address.{
  GuestNetwork, GuestRow, given, ◌∈ᵃ◌, hosts, pick_address, allocate_address,
}
use homepilot_core_public.Provision.Address.Lowest.{IsClear, allocate_address_free}

abbrev net : GuestNetwork
net = record { vnet = "innkeep"; network_address = 160; prefixlen = 28; gateway = 161 }

abbrev guest : ℕ → GuestRow
guest vmid = record { node = "pve"; guest_type = "qemu"; vmid = some vmid }

abbrev claims_of : String → ℕ → String → Option (List ℕ)
claims_of node vmid guest_type = if vmid == 7 then none else some (vmid ∷ [])

picks_lowest : pick_address net (170 ∷ []) 10 ≡ some 171
unfolding pick_address
picks_lowest = refl

allocates : allocate_address claims_of net (some (guest 170 ∷ guest 171 ∷ [])) ≡ given 172
unfolding allocate_address
allocates = refl

is_host : 165 ∈ᵃ hosts net ≡ true
unfolding hosts
is_host = refl

allocate_address_free_example :
    (172 ∈ᵃ hosts net ≡ true)
    × (170 ≤ 172)
    × (◌≢◌ {A = ℕ} 172 161)
    × ((rows : List GuestRow) × (some (guest 170 ∷ guest 171 ∷ []) ≡ some rows)
        × All (IsClear claims_of 172) rows)
allocate_address_free_example =
    allocate_address_free claims_of net (some (guest 170 ∷ guest 171 ∷ [])) 172 allocates
