-- ===== src/Metrics/Tests.antt =====
-- A rule on the load of `web`, above 90 for 100 seconds: three samples in a row breach, and one does not.
use homepilot_core_public.Base.{
  ℕ, ◌+◌, ◌≤◌, ◌<◌, ◌≡◌, refl, ◌⊎◌, true, none, some, List, [], ◌∷◌, ltb, All,
}
use homepilot_core_public.Metrics.Window.{Sample, Window, breach_window}
use homepilot_core_public.Metrics.Alerts.{
  Rule, Monitor, Metrics, firing, firing_since_of, window_for, evaluate, run_rules,
}
use homepilot_core_public.Metrics.Alerts.Alternation.{IsConsistent, run_rules-IsConsistent}
use homepilot_core_public.Metrics.Alerts.Grounds.{firing_grounds}

abbrev rule : Rule ℕ
rule = record {
  id = "r1";
  metric = "load";
  host_filter = "*";
  comparison = ">";
  threshold = 90;
  for_seconds = 100;
}

abbrev load : List (Sample ℕ)
load = (40, 50) ∷ (100, 95) ∷ (160, 96) ∷ (220, 97) ∷ []

abbrev metrics : Metrics ℕ
metrics = record {
  samples = λ host metric. load;
  hosts_reporting = λ metric since. "web" ∷ [];
  breaches = λ comparison v threshold. ltb threshold v;
  fnmatchcase = λ host glob. true;
}

abbrev quiet : Monitor ℕ
quiet = record { states = λ r h. none; coverage = []; events = [] }

starts_firing : (evaluate ℕ metrics 230 rule "web" quiet).0 ≡ some firing
unfolding evaluate
starts_firing = refl

abbrev breach : Window ℕ
breach = record { newest_ts = 220; newest_value = 97; breach_start = some 100 }

reads_breach : breach_window ℕ (λ v. ltb 90 v) 0 load ≡ some breach
unfolding breach_window
reads_breach = refl

firing_grounds_example :
    (w : Window ℕ) × (start : ℕ) × (window_for ℕ metrics 230 rule "web" ≡ some w)
    × (firing_since_of {V = ℕ} none ≡ none)
    × (start + 100 ≤ w.newest_ts)
    × (230 ≤ w.newest_ts + 300)
    × All (λ s. (s.0 < start) ⊎ (ltb 90 s.1 ≡ true)) load
firing_grounds_example = firing_grounds ℕ 230 rule "web" quiet metrics starts_firing

run_rules-IsConsistent_example :
    IsConsistent ℕ "r1" "web" (run_rules ℕ metrics 230 (rule ∷ []) quiet)
run_rules-IsConsistent_example =
    run_rules-IsConsistent ℕ metrics 230 "r1" "web" (rule ∷ []) quiet (refl, tt)
