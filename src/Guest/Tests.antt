-- ===== src/Guest/Tests.antt =====
-- A friend with room for one more machine of two cores, and without a limit on the disk.
use homepilot_core_public.Base.{◌≡◌, ◌↔◌, refl, true, none, some, List, [], ◌∷◌}
use homepilot_core_public.Base.Dict.{Dict, lookup}
use homepilot_core_public.Guest.Quota.{Quota, Machine, new_machine, usage_for, check_provision}
use homepilot_core_public.Guest.Quota.Budget.{WithinBudget, check_provision_lem}

abbrev quotas : Dict Quota
quotas =
    (
      "ada",
      record {
        max_vms = some 2;
        max_cores = some 4;
        max_memory_mb = some 4096;
        max_disk_gb = none;
      },
    )
    ∷ []

abbrev machines : List Machine
machines =
    new_machine "ada" 2 2048 20
    ∷ record (new_machine "ada" 8 8192 80) { absent = true }
    ∷ new_machine "bob" 4 4096 40
    ∷ []

allows_two_cores : (check_provision quotas machines "ada" 2 2048 500).allowed ≡ true
unfolding check_provision lookup
allows_two_cores = refl

refuses_three_cores : (check_provision quotas machines "ada" 3 2048 500).exceeded ≡ "CPU cores" ∷ []
unfolding check_provision lookup
refuses_three_cores = refl

check_provision_lem_example :
    ((check_provision quotas machines "ada" 2 2048 500).allowed ≡ true)
    ↔ WithinBudget (lookup "ada" quotas) (usage_for (new_machine "ada" 2 2048 500 ∷ machines) "ada")
check_provision_lem_example = check_provision_lem "ada" machines 2 2048 500 quotas
