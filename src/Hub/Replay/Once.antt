-- ===== src/Hub/Replay/Once.antt =====
-- A register frame that was accepted is not accepted again, whatever else the hub checks in between.
use homepilot_core_public.Base.{
  ℕ, ◌+◌, ◌*◌, ◌≤◌, ◌<◌, String, ◌≡◌, refl, ◌≢◌, ◌∙◌, ap, inl, inr, true, false, Option, none, some,
  List, [], ◌∷◌, ◌=ˢ◌, leb, ltb, arith, eq_iff, All, Bool-cases, Option-cases, ltb-false,
}
use homepilot_core_public.Base.Int.{ℤ, pos, negsuc}
use homepilot_core_public.Base.Dict.{Dict, lookup, insert, lookup-insert}
use homepilot_core_public.Hub.Replay.{
  replay_window, Seen, prune_bucket, unless_empty, prune_seen, bucket_of, check_and_record,
  Freshness, age, check_stamped, check_register_freshness,
}

-- When the nonce of the agent expires.
abbrev pub nonce_at : String → String → Seen → Option ℕ
nonce_at id nonce seen = lookup nonce (bucket_of (lookup id seen))

lookup-prune_bucket :
    (nonce : String) (now e : ℕ) (bucket : Dict ℕ)
    → lookup nonce bucket ≡ some e
    → now < e
    → lookup nonce (prune_bucket now bucket) ≡ some e
unfolding lookup prune_bucket
lookup-prune_bucket nonce now e [] h lt = absurd (cc)
lookup-prune_bucket nonce now e ((k, v) ∷ bucket) h lt =
    ground (arith, lookup-prune_bucket nonce now e bucket)

lookup-unless_empty :
    (id j nonce : String) (e : ℕ) (bucket : Dict ℕ) (rest : Seen)
    → id =ˢ j ≡ true
    → lookup nonce bucket ≡ some e
    → lookup nonce (bucket_of (lookup j (unless_empty id bucket rest))) ≡ some e
unfolding lookup
lookup-unless_empty id j nonce e [] rest same h = absurd (cc)
lookup-unless_empty id j nonce e (p ∷ bucket) rest same h = rw same h

lookup-unless_other :
    (id j : String) (bucket : Dict ℕ) (rest : Seen)
    → id =ˢ j ≡ false
    → lookup j (unless_empty id bucket rest) ≡ lookup j rest
unfolding lookup
lookup-unless_other id j [] rest other = refl
lookup-unless_other id j (p ∷ bucket) rest other = rw other refl

nonce_at-prune_seen :
    (id nonce : String) (now e : ℕ) (seen : Seen)
    → nonce_at id nonce seen ≡ some e
    → now < e
    → nonce_at id nonce (prune_seen now seen) ≡ some e
unfolding prune_seen lookup
nonce_at-prune_seen id nonce now e [] h lt = h
nonce_at-prune_seen id nonce now e ((k, bucket) ∷ seen) h lt = elim (Bool-cases (k =ˢ id)) [
  | inl same ↦
      lookup-unless_empty k id nonce e (prune_bucket now bucket) (prune_seen now seen) same
        (lookup-prune_bucket nonce now e bucket (rw same at h) lt)
  | inr other ↦
      ap (λ b. lookup nonce (bucket_of b))
        (lookup-unless_other k id (prune_bucket now bucket) (prune_seen now seen) other)
      ∙ nonce_at-prune_seen id nonce now e seen (rw other at h) lt
]

module _ (id nonce : String) (e : ℕ) where
  -- As long as it has not expired, a recorded nonce stays as it is.
  nonce_at-check_and_record :
      (id' nonce' : String) (now : ℕ) (seen : Seen)
      → nonce_at id nonce seen ≡ some e
      → now < e
      → nonce_at id nonce (check_and_record id' nonce' now seen).1 ≡ some e
  unfolding check_and_record
  nonce_at-check_and_record id' nonce' now seen h lt =
      let kept = nonce_at-prune_seen id nonce now e seen h lt in
      let pruned = prune_seen now seen in
      let bucket = bucket_of (lookup id' pruned) in
      ground (
        arith,
        kept,
        eq_iff id' id,
        eq_iff nonce' nonce,
        lookup-insert id' id (insert nonce' (now + replay_window) bucket) pruned,
        lookup-insert nonce' nonce (now + replay_window) bucket,
      )

  refused_again :
      (now : ℕ) (seen : Seen)
      → nonce_at id nonce seen ≡ some e
      → now < e
      → (check_and_record id nonce now seen).0 ≡ false
  unfolding check_and_record
  refused_again now seen h lt =
      let kept = nonce_at-prune_seen id nonce now e seen h lt in ground (arith, kept)

-- Checks that the hub makes one after the other: agent, frame and time.
unfoldable pub run_checks : List (String × Freshness × ℕ) → Seen → Seen
run_checks [] seen = seen
run_checks ((id, frame, now) ∷ checks) seen =
    run_checks checks (check_register_freshness id frame now seen).1

-- The time stamp lies before the time.
abbrev pub IsPast : ℤ → ℕ → Type 0
IsPast (pos t) now = t * 1000000 < now
IsPast (negsuc n) now = Unit

within-window :
    (ts : ℤ) (now later : ℕ)
    → IsPast ts now
    → ltb replay_window (age later ts) ≡ false
    → later < now + replay_window
within-window (negsuc n) now later past h =
    let bound = ltb-false replay_window (later + (n + 1) * 1000000) h in omega arith
within-window (pos t) now later past h = elim (Bool-cases (leb (t * 1000000) later)) [
  | inl behind ↦ ground arith
  | inr ahead ↦ ground arith
]

module _ (id nonce : String) (e : ℕ) where
  nonce_at-check :
      (id' : String) (frame : Freshness) (now : ℕ) (seen : Seen)
      → nonce_at id nonce seen ≡ some e
      → now < e
      → nonce_at id nonce (check_register_freshness id' frame now seen).1 ≡ some e
  unfolding check_register_freshness check_stamped
  nonce_at-check id' frame now seen h lt = elim (Option-cases frame.nonce) [
    | inl bare ↦ ground (arith, h)
    | inr (nonce', n) ↦
        let kept = nonce_at-check_and_record id nonce e id' nonce' now seen h lt in
        elim (Option-cases frame.ts) [
          | inl bare ↦ ground (arith, h)
          | inr (ts, t) ↦ ground (arith, h, kept)
        ]
  ]

  nonce_at-run_checks :
      (checks : List (String × Freshness × ℕ)) (later : ℕ) (seen : Seen)
      → nonce_at id nonce seen ≡ some e
      → later < e
      → All (λ c. c.2 ≤ later) checks
      → nonce_at id nonce (run_checks checks seen) ≡ some e
  unfolding run_checks
  nonce_at-run_checks [] later seen h lt all = h
  nonce_at-run_checks ((id', frame, now) ∷ checks) later seen h lt (first, all) =
      nonce_at-run_checks checks later (check_register_freshness id' frame now seen).1
        (nonce_at-check id' frame now seen h (omega arith)) lt all

recorded :
    (id nonce : String) (now : ℕ) (seen : Seen)
    → (check_and_record id nonce now seen).0 ≡ true
    → nonce_at id nonce (check_and_record id nonce now seen).1 ≡ some (now + replay_window)
unfolding check_and_record
recorded id nonce now seen h =
    let pruned = prune_seen now seen in
    let bucket = bucket_of (lookup id pruned) in
    ground (
      arith,
      eq_iff id id,
      eq_iff nonce nonce,
      lookup-insert id id (insert nonce (now + replay_window) bucket) pruned,
      lookup-insert nonce nonce (now + replay_window) bucket,
    )

accepted_stamped :
    (id nonce : String) (ts : ℤ) (now : ℕ) (seen : Seen)
    → (check_stamped id nonce ts now seen).0 ≡ none
    → nonce_at id nonce (check_stamped id nonce ts now seen).1 ≡ some (now + replay_window)
unfolding check_stamped
accepted_stamped id nonce ts now seen h = ground (arith, recorded id nonce now seen)

refused_stamped :
    (id nonce : String) (ts : ℤ) (now later : ℕ) (seen : Seen)
    → IsPast ts now
    → (later < now + replay_window → (check_and_record id nonce later seen).0 ≡ false)
    → (check_stamped id nonce ts later seen).0 ≢ none
unfolding check_stamped
refused_stamped id nonce ts now later seen past refused h =
    elim (Bool-cases (ltb replay_window (age later ts))) [
      | inl stale ↦ ground arith
      | inr fresh ↦
          let no_record = refused (within-window ts now later past fresh) in
          ground (arith, no_record)
    ]

-- The fields of a frame that is accepted, and what the check then is.
accepted_fields :
    (id : String) (frame : Freshness) (now : ℕ) (seen : Seen)
    → (check_register_freshness id frame now seen).0 ≡ none
    → (nonce : String) × (ts : ℤ) × (frame.ts ≡ some ts)
      × ((time : ℕ) (s : Seen)
          → check_register_freshness id frame time s ≡ check_stamped id nonce ts time s)
unfolding check_register_freshness
accepted_fields id frame now seen h = elim (Option-cases frame.nonce) [
  | inl bare ↦ absurd (ground arith)
  | inr (nonce, n) ↦ elim (Option-cases frame.ts) [
    | inl bare ↦ absurd (ground arith)
    | inr (ts, t) ↦ (nonce, ts, t, λ time s. ground arith)
  ]
]

-- A register frame whose time stamp lies before the time at which it is accepted is refused at every
-- later check of it for the same agent, whatever checks of any frames the hub makes in between, as
-- long as none of them is later than that last check.
pub register_once :
    (id : String) (frame : Freshness) (ts : ℤ) (now : ℕ) (seen : Seen)
    → frame.ts ≡ some ts
    → IsPast ts now
    → (check_register_freshness id frame now seen).0 ≡ none
    → (checks : List (String × Freshness × ℕ)) (later : ℕ) → All (λ c. c.2 ≤ later) checks
    → (check_register_freshness id frame later
        (run_checks checks (check_register_freshness id frame now seen).1)).0
      ≢ none
register_once id frame ts now seen t past accepted checks later all h =
    let (nonce, ts', t', is) = accepted_fields id frame now seen accepted in
    let same : ts ≡ ts' = cc (t, t') in
    let first : (check_stamped id nonce ts' now seen).0 ≡ none = rw (is now seen) at accepted in
    let noted = accepted_stamped id nonce ts' now seen first in
    let after = run_checks checks (check_register_freshness id frame now seen).1 in
    refused_stamped id nonce ts' now later after (rw same at past)
      (λ lt.
        refused_again id nonce (now + replay_window) later after
          (nonce_at-run_checks id nonce (now + replay_window) checks later
            (check_register_freshness id frame now seen).1 (rw (is now seen) noted) lt all)
          lt)
      (rw (is later after) at h)
