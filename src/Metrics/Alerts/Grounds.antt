-- ===== src/Metrics/Alerts/Grounds.antt =====
-- What an alert that starts to fire rests on.
use homepilot_core_public.Base.{
  ℕ, ◌+◌, ◌-◌, ◌≤◌, ◌<◌, String, ◌≡◌, refl, ◌≢◌, ◌⊎◌, inl, inr, Bool, true, false, Option, none,
  some, leb, arith, All, Bool-cases, Option-cases, leb→le,
}
use homepilot_core_public.Metrics.Window.{Window, breach_uninterrupted}
use homepilot_core_public.Metrics.Alerts.{
  Rule, Monitor, Metrics, firing, firing_since_of, condition_holds, evaluate_within,
  evaluate_breach, evaluate_window, window_for, evaluate, sample_freshness_seconds,
  window_lookback_seconds,
}

module _ (V : Type 0) (now : ℕ) (rule : Rule V) (hostname : String) (m : Monitor V) where
  within-quiet :
      (w : Window V) (fresh : Bool) (since : Option ℕ)
      → (evaluate_within V rule hostname w fresh since m).0 ≢ some firing
  unfolding evaluate_within
  within-quiet w fresh none h = absurd (ground arith)
  within-quiet w true (some t) h = absurd (ground arith)
  within-quiet w false (some t) h = absurd (ground arith)

  -- The duration holds and the newest sample is fresh.
  abbrev HeldLong : Window V → ℕ → Type 0
  HeldLong w start =
      (start + rule.for_seconds ≤ w.newest_ts) × (now ≤ w.newest_ts + sample_freshness_seconds)

  breach-grounds :
      (w : Window V) (start : ℕ) (since : Option ℕ)
      → (evaluate_breach V now rule hostname w start
          (leb now (w.newest_ts + sample_freshness_seconds))
          since
          m).0
        ≡ some firing
      → (since ≡ none) × HeldLong w start
  unfolding evaluate_breach condition_holds
  breach-grounds w start (some t) h = absurd (ground arith)
  breach-grounds w start none h =
      elim (Bool-cases (leb now (w.newest_ts + sample_freshness_seconds))) [
        | inr stale ↦ absurd (ground arith)
        | inl fresh ↦ elim (Bool-cases (leb (start + rule.for_seconds) w.newest_ts)) [
          | inr short ↦ absurd (ground arith)
          | inl held ↦ (
            refl,
            (
              leb→le (start + rule.for_seconds) w.newest_ts held,
              leb→le now (w.newest_ts + sample_freshness_seconds) fresh,
            ),
          )
        ]
      ]

  window-grounds :
      (o : Option (Window V))
      → (evaluate_window V now rule hostname o m).0 ≡ some firing
      → (w : Window V) × (start : ℕ) × (o ≡ some w)
        × (w.breach_start ≡ some start)
        × (firing_since_of (m.states rule.id hostname) ≡ none)
        × HeldLong w start
  unfolding evaluate_window
  window-grounds none h = absurd (cc)
  window-grounds (some w) h = elim (Option-cases w.breach_start) [
    | inl within ↦ absurd (within-quiet w _ _ (rw within at h))
    | inr (start, breach) ↦
        let (quiet, held) =
          breach-grounds w start (firing_since_of (m.states rule.id hostname)) (rw breach at h) in
        (w, start, refl, breach, quiet, held)
  ]

  -- When an evaluation starts an alert, it was not firing before; a breach has a start such that every
  -- sample of the host and metric from there on breaches the threshold; the newest sample is at least
  -- `for_seconds` behind that start, and at most 300 seconds old.
  pub firing_grounds :
      (metrics : Metrics V)
      → (evaluate V metrics now rule hostname m).0 ≡ some firing
      → (w : Window V) × (start : ℕ) × (window_for V metrics now rule hostname ≡ some w)
        × (firing_since_of (m.states rule.id hostname) ≡ none)
        × (start + rule.for_seconds ≤ w.newest_ts)
        × (now ≤ w.newest_ts + 300)
        × All
            (λ s. (s.0 < start) ⊎ (metrics.breaches rule.comparison s.1 rule.threshold ≡ true))
            (metrics.samples hostname rule.metric)
  unfolding evaluate
  firing_grounds metrics h =
      let (w, start, reads, breach, quiet, (held, fresh)) =
        window-grounds (window_for V metrics now rule hostname) h in
      (
        w,
        start,
        reads,
        quiet,
        held,
        fresh,
        breach_uninterrupted V (λ v. metrics.breaches rule.comparison v rule.threshold)
            (now - rule.for_seconds - window_lookback_seconds)
            (metrics.samples hostname rule.metric) start w reads breach,
      )
