-- ===== src/Metrics/Alerts.antt =====
-- metrics/alerts.py: `condition_holds` and `AlertEvaluator`. The clock is read in whole seconds, an
-- alert's `firing_since` is the second that its text shows, and the log of the notifications has the
-- latest first. Glob matching, the comparison with a threshold, and which hosts have reported a
-- metric since a time are parameters.
pub mod Alternation
pub mod Grounds
use homepilot_core_public.Base.{
  ℕ, ◌+◌, ◌-◌, String, Bool, true, false, ◌&&◌, ◌||◌, Option, none, some, List, [], ◌∷◌, ◌++◌, ◌=ˢ◌,
  leb, is_some, length, if◌then◌else◌,
}
use homepilot_core_public.Base.Dict.{Dict, insert}
use homepilot_core_public.Metrics.Window.{Sample, Window, breach_window}

abbrev pub window_coverage_slack_seconds : ℕ
window_coverage_slack_seconds = 90

abbrev pub window_lookback_seconds : ℕ
window_lookback_seconds = 300

abbrev pub sample_freshness_seconds : ℕ
sample_freshness_seconds = 300

-- With `window_start` written out as `now - for_seconds`, and the terms on the side where they are
-- not subtracted.
unfoldable pub condition_holds : Option ℕ → ℕ → ℕ → ℕ → Bool
condition_holds none newest_ts now for_seconds = false
condition_holds (some breach_start) newest_ts now for_seconds =
    leb (breach_start + for_seconds) newest_ts
    && leb (breach_start + for_seconds) (now + window_coverage_slack_seconds)

module _ (V : Type 0) where
  pub record Rule : Type 0 where
    pub id : String
    pub metric : String
    pub host_filter : String
    pub comparison : String
    pub threshold : V
    pub for_seconds : ℕ

  pub record AlertState : Type 0 where
    pub firing_since : Option ℕ
    pub last_value : V

  -- A notification: `starts` tells alert_firing from alert_resolved.
  pub record Event : Type 0 where
    pub starts : Bool
    pub rule_id : String
    pub hostname : String
    pub value : V
    pub since : ℕ

  pub record Monitor : Type 0 where
    pub states : String → String → Option AlertState
    pub coverage : Dict ℕ
    pub events : List Event

  -- The tables that the evaluator reads, and what it is given.
  pub record Metrics : Type 0 where
    pub samples : String → String → List (Sample V)
    pub hosts_reporting : String → ℕ → List String
    pub breaches : String → V → V → Bool
    pub fnmatchcase : String → String → Bool

abbrev pub same_alert : String → String → String → String → Bool
same_alert rule hostname r h = rule =ˢ r && hostname =ˢ h

abbrev pub firing_since_of : {V : Type 0} → Option (AlertState V) → Option ℕ
firing_since_of none = none
firing_since_of (some state) = state.firing_since

-- `transition`
pub data Transition : Type 0 where
  firing resolved : Transition

module _ (V : Type 0) where
  unfoldable pub set_alert_state : String → String → Option ℕ → V → Monitor V → Monitor V
  set_alert_state rule hostname since value m = record m {
    states = λ r h.
        if same_alert rule hostname r h
        then some (record { firing_since = since; last_value = value })
        else m.states r h;
  }

  abbrev pub notify : Event V → Monitor V → Monitor V
  notify e m = record m { events = e ∷ m.events }

  -- `_notify_firing` and `_notify_resolved`: what of the payload the rule does not say already.
  abbrev pub event_for : Bool → Rule V → String → Window V → ℕ → Event V
  event_for starts rule hostname w since = record {
    starts = starts;
    rule_id = rule.id;
    hostname = hostname;
    value = w.newest_value;
    since = since;
  }

  -- The newest sample is within limits.
  unfoldable pub evaluate_within :
      Rule V → String → Window V → Bool → Option ℕ → Monitor V → Option Transition × Monitor V
  unfolding set_alert_state
  evaluate_within rule hostname w fresh none m =
      (none, set_alert_state rule.id hostname none w.newest_value m)
  evaluate_within rule hostname w fresh (some since) m =
      if fresh
      then (
        some resolved,
        notify (event_for false rule hostname w since)
            (set_alert_state rule.id hostname none w.newest_value m),
      )
      else (none, set_alert_state rule.id hostname (some since) w.newest_value m)

  abbrev pub start_firing :
      Rule V → String → Window V → ℕ → Monitor V → Bool → Option Transition × Monitor V
  start_firing rule hostname w start m false =
      (none, set_alert_state rule.id hostname none w.newest_value m)
  start_firing rule hostname w start m true = (
    some firing,
    notify (event_for true rule hostname w start)
        (set_alert_state rule.id hostname (some start) w.newest_value m),
  )

  -- The newest sample breaches.
  unfoldable pub evaluate_breach :
      ℕ
      → Rule V
      → String
      → Window V
      → ℕ
      → Bool
      → Option ℕ
      → Monitor V
      → Option Transition × Monitor V
  unfolding set_alert_state condition_holds
  evaluate_breach now rule hostname w start fresh (some since) m =
      (none, set_alert_state rule.id hostname (some since) w.newest_value m)
  evaluate_breach now rule hostname w start fresh none m =
      start_firing rule hostname w start m
        (fresh && condition_holds (some start) w.newest_ts now rule.for_seconds)

  -- `_evaluate`, on the window that was read.
  unfoldable pub evaluate_window :
      ℕ → Rule V → String → Option (Window V) → Monitor V → Option Transition × Monitor V
  unfolding evaluate_within evaluate_breach
  evaluate_window now rule hostname none m = (none, m)
  evaluate_window now rule hostname (some w) m =
      let since = firing_since_of (m.states rule.id hostname) in
      let fresh = leb now (w.newest_ts + sample_freshness_seconds) in
      elim w.breach_start [
        | none ↦ evaluate_within rule hostname w fresh since m
        | some start ↦ evaluate_breach now rule hostname w start fresh since m
      ]

  -- What `_evaluate` reads.
  abbrev pub window_for : Metrics V → ℕ → Rule V → String → Option (Window V)
  window_for metrics now rule hostname =
      breach_window V (λ v. metrics.breaches rule.comparison v rule.threshold)
        (now - rule.for_seconds - window_lookback_seconds) (metrics.samples hostname rule.metric)

  unfoldable pub evaluate :
      Metrics V → ℕ → Rule V → String → Monitor V → Option Transition × Monitor V
  unfolding evaluate_window breach_window
  evaluate metrics now rule hostname m =
      evaluate_window now rule hostname (window_for metrics now rule hostname) m

  keep_hosts : (String → Bool) → List String → List String
  keep_hosts p [] = []
  keep_hosts p (h ∷ hosts) = let rest = keep_hosts p hosts in if p h then h ∷ rest else rest

  unfoldable pub hosts_for : Metrics V → ℕ → Rule V → List String
  unfolding keep_hosts
  hosts_for metrics now rule =
      let reporting =
        metrics.hosts_reporting rule.metric (now - (rule.for_seconds + sample_freshness_seconds)) in
      if rule.host_filter =ˢ "" || rule.host_filter =ˢ "*"
      then reporting
      else keep_hosts (λ h. metrics.fnmatchcase h rule.host_filter) reporting

  -- `for hostname in hosts`
  unfoldable pub run_hosts : Metrics V → ℕ → Rule V → List String → Monitor V → Monitor V
  unfolding evaluate
  run_hosts metrics now rule [] m = m
  run_hosts metrics now rule (h ∷ hosts) m =
      run_hosts metrics now rule hosts (evaluate metrics now rule h m).1

  -- `run` over the enabled rules; the counts that it returns are left out.
  unfoldable pub run_rules : Metrics V → ℕ → List (Rule V) → Monitor V → Monitor V
  unfolding hosts_for run_hosts
  run_rules metrics now [] m = m
  run_rules metrics now (rule ∷ rules) m =
      let hosts = hosts_for metrics now rule in
      run_rules metrics now rules (
        run_hosts metrics now rule hosts
          (record m { coverage = insert rule.id (length hosts) m.coverage }))
