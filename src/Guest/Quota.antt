-- ===== src/Guest/Quota.antt =====
-- guest/quota.py: the table guest_quotas, the sums over a guest's machines, and the decision at
-- provision time. A column of a quota that is NULL leaves its axis without limit.
pub mod Budget
use homepilot_core_public.Base.{
  ℕ, String, ◌+◌, Bool, true, false, not, ◌&&◌, Option, none, some, List, [], ◌∷◌, ◌++◌, ◌=ˢ◌, leb,
  ltb, if◌then◌else◌,
}
use homepilot_core_public.Base.Dict.{Dict, lookup, insert, remove}

pub record GuestUsage : Type 0 where
  pub vms : ℕ
  pub cores : ℕ
  pub memory_mb : ℕ
  pub disk_gb : ℕ

pub record QuotaDecision : Type 0 where
  pub allowed : Bool
  pub exceeded : List String

-- A row of guest_quotas, under its `cn`; the time stamps are not modelled.
pub record Quota : Type 0 where
  pub max_vms : Option ℕ
  pub max_cores : Option ℕ
  pub max_memory_mb : Option ℕ
  pub max_disk_gb : Option ℕ

-- The columns of hosts that the sums read. `absent` tells whether `absent_since` is set, and a size
-- that is NULL is left out of its sum.
pub record Machine : Type 0 where
  pub owner : Option String
  pub absent : Bool
  pub cpu_cores : Option ℕ
  pub memory_mb : Option ℕ
  pub disk_gb : Option ℕ

abbrev pub get_quota : Dict Quota → String → Option Quota
get_quota quotas cn = lookup cn quotas

abbrev pub set_quota : Dict Quota → String → Quota → Dict Quota
set_quota quotas cn q = insert cn q quotas

-- The table, and whether a row went.
abbrev pub delete_quota : Dict Quota → String → Dict Quota × Bool
delete_quota quotas cn =
    (remove cn quotas, elim (lookup cn quotas) [ none ↦ false | some _ ↦ true ])

abbrev pub or_zero : Option ℕ → ℕ
or_zero none = 0
or_zero (some n) = n

abbrev pub owned_by : String → Option String → Bool
owned_by cn none = false
owned_by cn (some o) = o =ˢ cn

-- `WHERE owner = ? AND absent_since IS NULL`
unfoldable pub counts : String → Machine → Bool
counts cn m = owned_by cn m.owner && not m.absent

abbrev pub add_machine : Machine → GuestUsage → GuestUsage
add_machine m u = record {
  vms = 1 + u.vms;
  cores = or_zero m.cpu_cores + u.cores;
  memory_mb = or_zero m.memory_mb + u.memory_mb;
  disk_gb = or_zero m.disk_gb + u.disk_gb;
}

unfoldable pub usage_for : List Machine → String → GuestUsage
unfolding counts
usage_for [] cn = record { vms = 0; cores = 0; memory_mb = 0; disk_gb = 0 }
usage_for (m ∷ machines) cn =
    let rest = usage_for machines cn in if counts cn m then add_machine m rest else rest

-- One axis: its name when `amount` is above the limit.
unfoldable pub over : String → ℕ → Option ℕ → List String
over axis amount none = []
over axis amount (some limit) = if ltb limit amount then axis ∷ [] else []

-- The axes that `usage`, after the machine is added, takes over their limits.
unfoldable pub exceeded_axes : Quota → GuestUsage → List String
unfolding over
exceeded_axes q u =
    over "machines" u.vms q.max_vms
    ++ over "CPU cores" u.cores q.max_cores
    ++ over "memory" u.memory_mb q.max_memory_mb
    ++ over "disk" u.disk_gb q.max_disk_gb

-- The machine to be built, as it will stand in the table.
abbrev pub new_machine : String → ℕ → ℕ → ℕ → Machine
new_machine cn cores memory_mb disk_gb = record {
  owner = some cn;
  absent = false;
  cpu_cores = some cores;
  memory_mb = some memory_mb;
  disk_gb = some disk_gb;
}

abbrev pub is_none_left : List String → Bool
is_none_left [] = true
is_none_left (_ ∷ _) = false

abbrev pub with_machine : GuestUsage → ℕ → ℕ → ℕ → GuestUsage
with_machine used cores memory_mb disk_gb = record {
  vms = used.vms + 1;
  cores = used.cores + cores;
  memory_mb = used.memory_mb + memory_mb;
  disk_gb = used.disk_gb + disk_gb;
}

-- The decision on the row of the quota, where there is one.
abbrev pub decide : Option Quota → GuestUsage → ℕ → ℕ → ℕ → QuotaDecision
decide none used cores memory_mb disk_gb = record { allowed = true; exceeded = [] }
decide (some q) used cores memory_mb disk_gb =
    let exceeded = exceeded_axes q (with_machine used cores memory_mb disk_gb) in
    record { allowed = is_none_left exceeded; exceeded = exceeded }

unfoldable pub check_provision : Dict Quota → List Machine → String → ℕ → ℕ → ℕ → QuotaDecision
unfolding exceeded_axes usage_for
check_provision quotas machines cn = decide (get_quota quotas cn) (usage_for machines cn)
