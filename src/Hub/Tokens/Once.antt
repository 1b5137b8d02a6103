-- ===== src/Hub/Tokens/Once.antt =====
-- A bootstrap token is good for one registration, before it expires.
use homepilot_core_public.Base.{
  ℕ, ◌≤◌, String, ◌≡◌, refl, ◌↔◌, ◌⊎◌, inl, inr, true, false, Option, none, some, arith, ltb, leb,
  if◌then◌else◌, [], ◌∷◌, Bool-cases, Option-cases, eq_iff, ltb-false,
}
use homepilot_core_public.Base.Dict.{
  Dict, lookup, insert, remove, lookup-remove, lookup-insert, lookup-empty,
}
use homepilot_core_public.Hub.Tokens.{
  TokenStore, verify, spend, consume, map_db, load_rows, load_from_db, prune_db,
}

-- What the table, if there is one, has under a hash.
abbrev db_lookup : String → Option (Dict ℕ) → Option ℕ
db_lookup h none = none
db_lookup h (some table) = lookup h table

-- Neither the cache nor the table knows the hash.
abbrev pub IsForgotten : String → TokenStore → Type 0
IsForgotten h store = (lookup h store.tokens ≡ none) × (db_lookup h store.db ≡ none)

load_rows-forgotten :
    (h : String) (now : ℕ) (rows tokens : Dict ℕ)
    → lookup h rows ≡ none
    → lookup h tokens ≡ none
    → lookup h (load_rows now rows tokens) ≡ none
unfolding load_rows lookup
load_rows-forgotten h now [] tokens r t = t
load_rows-forgotten h now ((k, e) ∷ rows) tokens r t =
    load_rows-forgotten h now rows (if leb e now then tokens else insert k e tokens) (ground arith)
      (ground (arith, lookup-insert k h e tokens))

prune_db-forgotten :
    (h : String) (now : ℕ) (rows : Dict ℕ)
    → lookup h rows ≡ none
    → lookup h (prune_db now rows) ≡ none
unfolding prune_db lookup
prune_db-forgotten h now [] r = refl
prune_db-forgotten h now ((k, e) ∷ rows) r = ground (arith, prune_db-forgotten h now rows)

-- What the hub has when it has been started again: the table, and the cache that is loaded from it.
abbrev pub restart : ℕ → TokenStore → TokenStore
restart now store = load_from_db now (record store { tokens = [] })

restart-IsForgotten :
    (h : String) (now : ℕ) (store : TokenStore)
    → IsForgotten h store
    → IsForgotten h (restart now store)
unfolding load_from_db
restart-IsForgotten h now store f = go store.db f.1
  where
    go :
        (db : Option (Dict ℕ))
        → db_lookup h db ≡ none
        → IsForgotten h (restart now (record store { db = db }))
    go none e = (lookup-empty h, refl)
    go (some rows) e =
        (load_rows-forgotten h now rows [] e (lookup-empty h), prune_db-forgotten h now rows e)

module _ (hash_token : String → String) (token : String) where
  verify-unknown :
      (now : ℕ) (store : TokenStore)
      → lookup (hash_token token) store.tokens ≡ none
      → verify hash_token now token store ≡ (false, store)
  unfolding verify
  verify-unknown now store h = ground arith

  verify-late :
      (now e : ℕ) (store : TokenStore)
      → lookup (hash_token token) store.tokens ≡ some e
      → ltb e now ≡ true
      → (verify hash_token now token store).0 ≡ false
  unfolding verify
  verify-late now e store h late = ground arith

  verify-early :
      (now e : ℕ) (store : TokenStore)
      → lookup (hash_token token) store.tokens ≡ some e
      → ltb e now ≡ false
      → verify hash_token now token store ≡ (true, store)
  unfolding verify
  verify-early now e store h early = ground arith

  forgotten-refused :
      (now : ℕ) (store : TokenStore)
      → IsForgotten (hash_token token) store
      → (consume hash_token now token store).0 ≡ false
  unfolding consume verify
  forgotten-refused now store f = rw (verify-unknown now store f.0) refl

  spend-IsForgotten :
      (store : TokenStore) → IsForgotten (hash_token token) (spend hash_token token store)
  spend-IsForgotten store = (
    ground (
      arith,
      lookup-remove (hash_token token) (hash_token token) store.tokens,
      eq_iff (hash_token token) (hash_token token),
    ),
    go store.db,
  )
    where
      go :
          (db : Option (Dict ℕ))
          → db_lookup (hash_token token) (map_db (remove (hash_token token)) db) ≡ none
      go none = refl
      go (some table) = ground (
        arith,
        lookup-remove (hash_token token) (hash_token token) table,
        eq_iff (hash_token token) (hash_token token),
      )

  consume-cases :
      (now : ℕ) (store : TokenStore)
      → ((consume hash_token now token store).0 ≡ false)
        ⊎ ((e : ℕ) × (lookup (hash_token token) store.tokens ≡ some e)
            × (now ≤ e)
            × (consume hash_token now token store ≡ (true, spend hash_token token store)))
  unfolding consume verify
  consume-cases now store = elim (Option-cases (lookup (hash_token token) store.tokens)) [
    | inl e ↦ inl (rw (verify-unknown now store e) refl)
    | inr (e, h) ↦ elim (Bool-cases (ltb e now)) [
      | inl late ↦ inl (rw (verify-late now e store h late) refl)
      | inr early ↦ inr (e, h, ltb-false e now early, rw (verify-early now e store h early, h) refl)
    ]
  ]

  -- A token is consumed exactly when the cache has its hash with an expiry that has not passed.
  pub consume_lem :
      (now : ℕ) (store : TokenStore)
      → ((consume hash_token now token store).0 ≡ true)
        ↔ ((e : ℕ) × (lookup (hash_token token) store.tokens ≡ some e) × (now ≤ e))
  unfolding consume verify
  consume_lem now store = (
    (λ done. elim (consume-cases now store) [
      | inl refused ↦ absurd (cc)
      | inr (e, h, early, _) ↦ (e, h, early)
    ]),
    (λ (e, h, early). rw (verify-early now e store h (ground arith), h) refl),
  )

  -- A token that was consumed is refused at any later time, by the same hub and by the hub after a
  -- restart that loads the table.
  pub consume_once :
      (now : ℕ) (store : TokenStore)
      → (consume hash_token now token store).0 ≡ true
      → (later restarted : ℕ)
      → ((consume hash_token later token (consume hash_token now token store).1).0 ≡ false)
        × ((consume hash_token later token
              (restart restarted (consume hash_token now token store).1)).0
            ≡ false)
  consume_once now store done later restarted = elim (consume-cases now store) [
    | inl refused ↦ absurd (cc)
    | inr (e, h, early, spent) ↦
        let gone = spend-IsForgotten store in
        rw spent (
          forgotten-refused later (spend hash_token token store) gone,
          forgotten-refused later (restart restarted (spend hash_token token store)) (
              restart-IsForgotten (hash_token token) restarted (spend hash_token token store) gone),
        )
  ]
