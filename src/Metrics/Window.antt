-- ===== src/Metrics/Window.antt =====
-- `breach_window` of metrics/repository.py, on the samples of one host and metric. What a value is,
-- and whether it breaches the threshold, are parameters.
use homepilot_core_public.Base.{
  ℕ, ◌+◌, ◌≤◌, ◌<◌, ◌≡◌, ap, sym, ◌∙◌, ◌⊎◌, inl, inr, Bool, true, false, ◌&&◌, not, Option, none,
  some, List, [], ◌∷◌, leb, arith, if◌then◌else◌, All, All-map, Bool-cases, Option-cases,
}

module _ (V : Type 0) where
  -- A time stamp and the value.
  abbrev pub Sample : Type 0
  Sample = ℕ × V

  pub record Window : Type 0 where
    pub newest_ts : ℕ
    pub newest_value : V
    pub breach_start : Option ℕ

  abbrev later : Sample → Option Sample → Sample
  later s none = s
  later s (some t) = if leb t.0 s.0 then s else t

  -- ORDER BY ts DESC LIMIT 1
  unfoldable pub newest : List Sample → Option Sample
  newest [] = none
  newest (s ∷ samples) = some (later s (newest samples))

abbrev at_most : ℕ → Option ℕ → ℕ
at_most t none = t
at_most t (some u) = if leb t u then t else u

abbrev at_least : ℕ → Option ℕ → ℕ
at_least t none = t
at_least t (some u) = if leb t u then u else t

abbrev above : Option ℕ → ℕ
above none = 0
above (some t) = t + 1

above-at_least :
    (t : ℕ) (o : Option ℕ)
    → (t < above (some (at_least t o))) × (above o ≤ above (some (at_least t o)))
above-at_least t none = (omega arith, omega arith)
above-at_least t (some u) = (ground arith, ground arith)

module _ (V : Type 0) (p : Sample V → Bool) where
  -- SELECT MAX(ts) ... WHERE p
  unfoldable pub max_ts : List (Sample V) → Option ℕ
  max_ts [] = none
  max_ts (s ∷ samples) = let rest = max_ts samples in if p s then some (at_least s.0 rest) else rest

  -- SELECT MIN(ts) ... WHERE p
  unfoldable pub min_ts : List (Sample V) → Option ℕ
  min_ts [] = none
  min_ts (s ∷ samples) = let rest = min_ts samples in if p s then some (at_most s.0 rest) else rest

  -- No sample that passes `p` lies behind the bound.
  abbrev Below : ℕ → Sample V → Type 0
  Below bound s = (p s ≡ false) ⊎ (s.0 < bound)

  above-step :
      (s : Sample V) (samples : List (Sample V))
      → above (max_ts samples) ≤ above (max_ts (s ∷ samples))
  unfolding max_ts
  above-step s samples = elim (Bool-cases (p s)) [
    | inr out ↦ rw out (omega arith)
    | inl fits ↦ rw fits (above-at_least s.0 (max_ts samples)).1
  ]

  max_ts-Below : (samples : List (Sample V)) → All (Below (above (max_ts samples))) samples
  max_ts-Below [] = tt
  max_ts-Below (s ∷ samples) = (
    head (Bool-cases (p s)),
    All-map (Below (above (max_ts samples))) (Below (above (max_ts (s ∷ samples))))
        (λ x h. elim h [ inl out ↦ inl out | inr lt ↦ inr (omega (arith, above-step s samples)) ])
        samples (max_ts-Below samples),
  )
    where
      head : (p s ≡ true) ⊎ (p s ≡ false) → Below (above (max_ts (s ∷ samples))) s
      head (inr out) = inl out
      head (inl fits) = inr (unfold max_ts in rw fits (above-at_least s.0 (max_ts samples)).0)

  -- The least time stamp is that of a sample that passes `p`, so it has the bound that they have.
  min_ts-bound :
      (floor : ℕ)
      → ((s : Sample V) → p s ≡ true → floor ≤ s.0)
      → (samples : List (Sample V)) (t : ℕ) → min_ts samples ≡ some t
      → floor ≤ t
  unfolding min_ts
  min_ts-bound floor bound [] t h = absurd (cc)
  min_ts-bound floor bound (s ∷ samples) t h = elim (Bool-cases (p s)) [
    | inr out ↦ min_ts-bound floor bound samples t (rw out at h)
    | inl fits ↦ elim (Option-cases (min_ts samples)) [
      | inl e ↦
          let same : some s.0 ≡ some t = rw (fits, e) at h in ground (arith, same, bound s fits)
      | inr (u, e) ↦
          let same : some (at_most s.0 (some u)) ≡ some t = rw (fits, e) at h in
          ground (arith, same, bound s fits, min_ts-bound floor bound samples u e)
    ]
  ]

  -- The greatest one likewise.
  max_ts-bound :
      (floor : ℕ)
      → ((s : Sample V) → p s ≡ true → floor ≤ s.0)
      → (samples : List (Sample V)) (t : ℕ) → max_ts samples ≡ some t
      → floor ≤ t
  unfolding max_ts
  max_ts-bound floor bound [] t h = absurd (cc)
  max_ts-bound floor bound (s ∷ samples) t h = elim (Bool-cases (p s)) [
    | inr out ↦ max_ts-bound floor bound samples t (rw out at h)
    | inl fits ↦ elim (Option-cases (max_ts samples)) [
      | inl e ↦
          let same : some s.0 ≡ some t = rw (fits, e) at h in ground (arith, same, bound s fits)
      | inr (u, e) ↦
          let same : some (at_least s.0 (some u)) ≡ some t = rw (fits, e) at h in
          ground (arith, same, bound s fits, max_ts-bound floor bound samples u e)
    ]
  ]

module _ (V : Type 0) (breaches : V → Bool) (since_ts : ℕ) where
  -- The first time stamp at which the current breach may have begun.
  abbrev floor_ts : Option ℕ → ℕ
  floor_ts none = since_ts
  floor_ts (some last_ok) = last_ok + 1

  unfoldable pub breach_start : List (Sample V) → Option ℕ
  unfolding max_ts min_ts
  breach_start samples =
      let floor = floor_ts (max_ts V (λ s. leb since_ts s.0 && not (breaches s.1)) samples) in
      min_ts V (λ s. leb floor s.0 && breaches s.1) samples

  abbrev window_of : List (Sample V) → Option (Sample V) → Option (Window V)
  window_of samples none = none
  window_of samples (some s) = some (record {
    newest_ts = s.0;
    newest_value = s.1;
    breach_start = if breaches s.1 then breach_start samples else none;
  })

  unfoldable pub breach_window : List (Sample V) → Option (Window V)
  unfolding newest breach_start
  breach_window samples = window_of samples (newest V samples)

  start-bounds :
      (samples : List (Sample V)) (start : ℕ)
      → breach_start samples ≡ some start
      → (since_ts ≤ start)
        × (above (max_ts V (λ s. leb since_ts s.0 && not (breaches s.1)) samples) ≤ start)
  unfolding breach_start
  start-bounds samples start h =
      let bad = λ (s : Sample V). leb since_ts s.0 && not (breaches s.1) in
      let floor = floor_ts (max_ts V bad samples) in
      let low : floor ≤ start =
        min_ts-bound V (λ s. leb floor s.0 && breaches s.1) floor (λ s fits. ground arith) samples
          start h in
      elim (Option-cases (max_ts V bad samples)) [
        | inl e ↦ (rw e at low, rw e (omega arith))
        | inr (t, e) ↦
            let after = max_ts-bound V bad since_ts (λ s fits. ground arith) samples t e in
            let next : t + 1 ≤ start = rw e at low in (omega arith, rw e next)
      ]

  breach_of_window :
      (samples : List (Sample V)) (start : ℕ) (w : Window V)
      → breach_window samples ≡ some w
      → w.breach_start ≡ some start
      → breach_start samples ≡ some start
  unfolding breach_window
  breach_of_window samples start w h b = elim (Option-cases (newest V samples)) [
    | inl e ↦ absurd (ground (arith, ap (window_of samples) e))
    | inr (s, e) ↦
        let same : window_of samples (some s) ≡ some w = ap (window_of samples) (sym e) ∙ h in
        ground (arith, same, b)
  ]

  -- From the start of the breach that the window gives on, every stored sample breaches.
  pub breach_uninterrupted :
      (samples : List (Sample V)) (start : ℕ) (w : Window V)
      → breach_window samples ≡ some w
      → w.breach_start ≡ some start
      → All (λ s. (s.0 < start) ⊎ (breaches s.1 ≡ true)) samples
  unfolding breach_window
  breach_uninterrupted samples start w h b =
      let bad = λ (s : Sample V). leb since_ts s.0 && not (breaches s.1) in
      let (since, clear) = start-bounds samples start (breach_of_window samples start w h b) in
      All-map (Below V bad (above (max_ts V bad samples)))
        (λ s. (s.0 < start) ⊎ (breaches s.1 ≡ true))
        (λ s h. elim h [
          | inr early ↦ inl (omega arith)
          | inl fine ↦ elim (Bool-cases (breaches s.1)) [
            | inl over ↦ inr over
            | inr under ↦ inl (ground arith)
          ]
        ])
        samples (max_ts-Below V bad samples)
