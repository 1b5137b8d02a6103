-- ===== src/Guest/Quota/Budget.antt =====
-- What a decision of `check_provision` means for the guest's machines.
use homepilot_core_public.Base.{
  ℕ, String, ◌≤◌, ◌≡◌, refl, ap, ◌↔◌, true, Option, none, some, List, [], ◌∷◌, ◌++◌, arith, eq_iff,
}
use homepilot_core_public.Base.Dict.{Dict, lookup}
use homepilot_core_public.Guest.Quota.{
  GuestUsage, Quota, Machine, usage_for, over, exceeded_axes, new_machine, check_provision, counts,
  is_none_left, decide, with_machine,
}

-- An amount is within a limit that may be absent.
abbrev Within : ℕ → Option ℕ → Type 0
Within n none = Unit
Within n (some limit) = n ≤ limit

-- A usage is within all four limits of a quota.
abbrev pub WithinQuota : Quota → GuestUsage → Type 0
WithinQuota q u =
    Within u.vms q.max_vms
    × Within u.cores q.max_cores
    × Within u.memory_mb q.max_memory_mb
    × Within u.disk_gb q.max_disk_gb

-- The guest's machines are within the budget, which is so where there is none.
abbrev pub WithinBudget : Option Quota → GuestUsage → Type 0
WithinBudget none u = Unit
WithinBudget (some q) u = WithinQuota q u

over-Within : (axis : String) (n : ℕ) (limit : Option ℕ) → over axis n limit ≡ [] → Within n limit
unfolding over
over-Within axis n none h = tt
over-Within axis n (some limit) h = ground arith

Within-over : (axis : String) (n : ℕ) (limit : Option ℕ) → Within n limit → over axis n limit ≡ []
unfolding over
Within-over axis n none h = refl
Within-over axis n (some limit) h = ground arith

append-empty : {A : Type 0} {xs ys : List A} → xs ++ ys ≡ [] → (xs ≡ []) × (ys ≡ [])
append-empty {xs = []} h = (refl, h)
append-empty {xs = x ∷ xs} h = absurd (cc)

-- Four lists that are empty together.
append-empty₄ :
    {A : Type 0} {xs ys zs us : List A}
    → xs ++ ys ++ zs ++ us ≡ []
    → (xs ≡ []) × (ys ≡ []) × (zs ≡ []) × (us ≡ [])
append-empty₄ h =
    let (abc, d) = append-empty h in
    let (ab, c) = append-empty abc in let (a, b) = append-empty ab in (a, b, c, d)

exceeded-within : (q : Quota) (u : GuestUsage) → exceeded_axes q u ≡ [] → WithinQuota q u
unfolding exceeded_axes
exceeded-within q u h =
    let (a, b, c, d) =
      append-empty₄ {xs = over "machines" u.vms q.max_vms}
        {ys = over "CPU cores" u.cores q.max_cores} {zs = over "memory" u.memory_mb q.max_memory_mb}
        {us = over "disk" u.disk_gb q.max_disk_gb} h in
    (
      over-Within "machines" u.vms q.max_vms a,
      over-Within "CPU cores" u.cores q.max_cores b,
      over-Within "memory" u.memory_mb q.max_memory_mb c,
      over-Within "disk" u.disk_gb q.max_disk_gb d,
    )

within-exceeded : (q : Quota) (u : GuestUsage) → WithinQuota q u → exceeded_axes q u ≡ []
unfolding exceeded_axes
within-exceeded q u (a, b, c, d) =
    rw
      (
        Within-over "machines" u.vms q.max_vms a,
        Within-over "CPU cores" u.cores q.max_cores b,
        Within-over "memory" u.memory_mb q.max_memory_mb c,
        Within-over "disk" u.disk_gb q.max_disk_gb d,
      )
      refl

empty-of_test : (xs : List String) → is_none_left xs ≡ true → xs ≡ []
empty-of_test [] h = refl
empty-of_test (x ∷ xs) h = absurd (cc)

module _ (cn : String) (machines : List Machine) (cores memory_mb disk_gb : ℕ) where
  usage-new :
      usage_for (new_machine cn cores memory_mb disk_gb ∷ machines) cn
      ≡ with_machine (usage_for machines cn) cores memory_mb disk_gb
  unfolding usage_for counts
  usage-new = ground (arith, eq_iff cn cn)

  -- A machine is allowed exactly when, with it in the table, the sums over the guest's machines that
  -- are not absent are within every limit of the guest's quota; no quota sets no limit.
  pub check_provision_lem :
      (quotas : Dict Quota)
      → ((check_provision quotas machines cn cores memory_mb disk_gb).allowed ≡ true)
        ↔ WithinBudget
            (lookup cn quotas)
            (usage_for (new_machine cn cores memory_mb disk_gb ∷ machines) cn)
  unfolding check_provision
  check_provision_lem quotas = rw usage-new (go (lookup cn quotas) refl)
    where
      go :
          (r : Option Quota)
          → lookup cn quotas ≡ r
          → ((decide r (usage_for machines cn) cores memory_mb disk_gb).allowed ≡ true)
            ↔ WithinBudget r (with_machine (usage_for machines cn) cores memory_mb disk_gb)
      go none h = ((λ _. tt), (λ _. refl))
      go (some q) h =
          let u = with_machine (usage_for machines cn) cores memory_mb disk_gb in
          (
            (λ t. exceeded-within q u (empty-of_test (exceeded_axes q u) t)),
            (λ t. ap is_none_left (within-exceeded q u t)),
          )
