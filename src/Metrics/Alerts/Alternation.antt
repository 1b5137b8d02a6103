-- ===== src/Metrics/Alerts/Alternation.antt =====
-- The notifications about one rule and host alternate, and the state agrees with the last one.
use homepilot_core_public.Base.{
  ℕ, ◌+◌, String, ◌≡◌, refl, ◌∙◌, ap, sym, ◌⊎◌, inl, inr, Bool, true, false, ◌&&◌, not, Option,
  none, some, List, [], ◌∷◌, leb, is_some, arith, eq_iff, length, if◌then◌else◌, Bool-cases,
}
use homepilot_core_public.Base.Dict.{insert}
use homepilot_core_public.Metrics.Window.{Window}
use homepilot_core_public.Metrics.Alerts.{
  Rule, Event, Monitor, Metrics, same_alert, firing_since_of, set_alert_state, notify, event_for,
  start_firing, condition_holds, evaluate_within, evaluate_breach, evaluate_window, window_for,
  evaluate, hosts_for, run_hosts, run_rules, sample_freshness_seconds,
}

module _ (V : Type 0) where
  -- Whether the latest notification about the alert says that it fires.
  abbrev pub is_firing : String → String → List (Event V) → Bool
  is_firing r h [] = false
  is_firing r h (e ∷ es) =
      if same_alert e.rule_id e.hostname r h then e.starts else is_firing r h es

  -- Each notification about the alert says the opposite of the one before, and the first that it fires.
  abbrev pub Alternates : String → String → List (Event V) → Type 0
  Alternates r h [] = Unit
  Alternates r h (e ∷ es) =
      ((same_alert e.rule_id e.hostname r h ≡ false) ⊎ (is_firing r h es ≡ not e.starts))
      × Alternates r h es

  -- The alert fires by its state exactly when it does by its notifications, which alternate.
  abbrev pub IsConsistent : String → String → Monitor V → Type 0
  IsConsistent r h m =
      (is_firing r h m.events ≡ is_some (firing_since_of (m.states r h))) × Alternates r h m.events

  same_names :
      (rule hostname r h : String)
      → same_alert rule hostname r h ≡ true
      → (rule ≡ r) × (hostname ≡ h)
  same_names rule hostname r h e =
      (ground (arith, eq_iff rule r), ground (arith, eq_iff hostname h))

  module _ (r h rule hostname : String) (since : Option ℕ) (value : V) (m : Monitor V) where
    stored-same :
        same_alert rule hostname r h ≡ true
        → is_some (firing_since_of ((set_alert_state V rule hostname since value m).states r h))
          ≡ is_some since
    unfolding set_alert_state
    stored-same same = rw same refl

    stored-other :
        same_alert rule hostname r h ≡ false
        → (set_alert_state V rule hostname since value m).states r h ≡ m.states r h
    unfolding set_alert_state
    stored-other other = rw other refl

    stored-events : (set_alert_state V rule hostname since value m).events ≡ m.events
    unfolding set_alert_state
    stored-events = refl

    -- A state that is stored without a notification keeps whether the alert fires.
    quiet-IsConsistent :
        is_some since ≡ is_some (firing_since_of (m.states rule hostname))
        → IsConsistent r h m
        → IsConsistent r h (set_alert_state V rule hostname since value m)
    quiet-IsConsistent keeps (agrees, alternates) =
        elim (Bool-cases (same_alert rule hostname r h)) [
          | inr other ↦ rw (stored-events, stored-other other) (agrees, alternates)
          | inl same ↦
              let (er, eh) = same_names rule hostname r h same in
              let kept : is_some since ≡ is_some (firing_since_of (m.states r h)) =
                rw (er, eh) at keeps in
              rw stored-events (agrees ∙ sym kept ∙ sym (stored-same same), alternates)
        ]

    -- A notification of the opposite goes with a state that is stored as it says.
    loud-IsConsistent :
        (e : Event V)
        → e.rule_id ≡ rule
        → e.hostname ≡ hostname
        → e.starts ≡ is_some since
        → is_some (firing_since_of (m.states rule hostname)) ≡ not e.starts
        → IsConsistent r h m
        → IsConsistent r h (notify V e (set_alert_state V rule hostname since value m))
    loud-IsConsistent e names hosts starts flips (agrees, alternates) =
        rw (names, hosts, stored-events)
          (elim (Bool-cases (same_alert rule hostname r h)) [
            | inr other ↦ rw (other, stored-other other) (agrees, (inl refl, alternates))
            | inl same ↦
                let (er, eh) = same_names rule hostname r h same in
                let flipped : is_some (firing_since_of (m.states r h)) ≡ not e.starts =
                  rw (er, eh) at flips in
                rw same (starts ∙ sym (stored-same same), (inr (agrees ∙ flipped), alternates))
          ])

  module _ (r h hostname : String) (now : ℕ) (rule : Rule V) (m : Monitor V) where
    within-IsConsistent :
        (w : Window V) (fresh : Bool) (since : Option ℕ)
        → firing_since_of (m.states rule.id hostname) ≡ since
        → IsConsistent r h m
        → IsConsistent r h (evaluate_within V rule hostname w fresh since m).1
    unfolding evaluate_within
    within-IsConsistent w fresh none e c =
        quiet-IsConsistent r h rule.id hostname none w.newest_value m (ap is_some (sym e)) c
    within-IsConsistent w false (some t) e c =
        quiet-IsConsistent r h rule.id hostname (some t) w.newest_value m (ap is_some (sym e)) c
    within-IsConsistent w true (some t) e c =
        loud-IsConsistent r h rule.id hostname none w.newest_value m
          (event_for V false rule hostname w t) refl refl refl (ap is_some e) c

    breach-IsConsistent :
        (w : Window V) (start : ℕ) (fresh : Bool) (since : Option ℕ)
        → firing_since_of (m.states rule.id hostname) ≡ since
        → IsConsistent r h m
        → IsConsistent r h (evaluate_breach V now rule hostname w start fresh since m).1
    unfolding evaluate_breach
    breach-IsConsistent w start fresh (some t) e c =
        quiet-IsConsistent r h rule.id hostname (some t) w.newest_value m (ap is_some (sym e)) c
    breach-IsConsistent w start fresh none e c =
        go (fresh && condition_holds (some start) w.newest_ts now rule.for_seconds)
      where
        go : (b : Bool) → IsConsistent r h (start_firing V rule hostname w start m b).1
        go true =
            loud-IsConsistent r h rule.id hostname (some start) w.newest_value m
              (event_for V true rule hostname w start) refl refl refl (ap is_some e) c
        go false =
            quiet-IsConsistent r h rule.id hostname none w.newest_value m (ap is_some (sym e)) c

    window-IsConsistent :
        (o : Option (Window V))
        → IsConsistent r h m
        → IsConsistent r h (evaluate_window V now rule hostname o m).1
    unfolding evaluate_window
    window-IsConsistent none c = c
    window-IsConsistent (some w) c = go w.breach_start
      where
        since : Option ℕ
        since = firing_since_of (m.states rule.id hostname)

        fresh : Bool
        fresh = leb now (w.newest_ts + sample_freshness_seconds)

        go :
            (b : Option ℕ)
            → IsConsistent r h
                (evaluate_window V now rule hostname (some (record w { breach_start = b })) m).1
        go none = within-IsConsistent (record w { breach_start = none }) fresh since refl c
        go (some start) =
            breach-IsConsistent (record w { breach_start = some start }) start fresh since refl c

  module _ (metrics : Metrics V) (now : ℕ) (r h : String) where
    evaluate-IsConsistent :
        (rule : Rule V) (hostname : String) (m : Monitor V)
        → IsConsistent r h m
        → IsConsistent r h (evaluate V metrics now rule hostname m).1
    unfolding evaluate
    evaluate-IsConsistent rule hostname m c =
        window-IsConsistent r h hostname now rule m (window_for V metrics now rule hostname) c

    run_hosts-IsConsistent :
        (rule : Rule V) (hosts : List String) (m : Monitor V)
        → IsConsistent r h m
        → IsConsistent r h (run_hosts V metrics now rule hosts m)
    unfolding run_hosts
    run_hosts-IsConsistent rule [] m c = c
    run_hosts-IsConsistent rule (x ∷ hosts) m c =
        run_hosts-IsConsistent rule hosts (evaluate V metrics now rule x m).1
          (evaluate-IsConsistent rule x m c)

    -- A cycle over any rules keeps this of every rule and host: the notifications about them start with
    -- one that the alert fires and then say in turn that it is resolved and that it fires, and the
    -- stored state says that it fires exactly when the last notification does.
    pub run_rules-IsConsistent :
        (rules : List (Rule V)) (m : Monitor V)
        → IsConsistent r h m
        → IsConsistent r h (run_rules V metrics now rules m)
    unfolding run_rules
    run_rules-IsConsistent [] m c = c
    run_rules-IsConsistent (rule ∷ rules) m c =
        let hosts = hosts_for V metrics now rule in
        let counted = record m { coverage = insert rule.id (length hosts) m.coverage } in
        run_rules-IsConsistent rules (run_hosts V metrics now rule hosts counted)
          (run_hosts-IsConsistent rule hosts counted c)
