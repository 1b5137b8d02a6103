-- ===== src/Hub/Tokens.antt =====
-- `BootstrapTokenStore` of agent_hub/tokens.py: the cache in memory, keyed by the hash of a token,
-- and the table bootstrap_tokens, where there is a database. SHA-256 and the random token are
-- parameters, and time is counted in ticks.
pub mod Once
use homepilot_core_public.Base.{
  ℕ, String, ◌+◌, Bool, true, false, Option, none, some, List, [], ◌∷◌, ◌=ˢ◌, ltb, leb,
  if◌then◌else◌, is_some,
}
use homepilot_core_public.Base.Dict.{Dict, lookup, insert, remove}

pub record TokenStore : Type 0 where
  pub tokens : Dict ℕ
  pub expiry_seconds : ℕ
  pub db : Option (Dict ℕ)

abbrev pub map_db : (Dict ℕ → Dict ℕ) → Option (Dict ℕ) → Option (Dict ℕ)
map_db f none = none
map_db f (some table) = some (f table)

-- The rows of `load_from_db` that have not expired, added to the cache.
unfoldable pub load_rows : ℕ → Dict ℕ → Dict ℕ → Dict ℕ
load_rows now [] tokens = tokens
load_rows now ((h, expires_at) ∷ rows) tokens =
    load_rows now rows (if leb expires_at now then tokens else insert h expires_at tokens)

-- `DELETE ... WHERE expires_at <= now`, which `load_from_db` does row by row.
unfoldable pub prune_db : ℕ → Dict ℕ → Dict ℕ
prune_db now [] = []
prune_db now ((h, expires_at) ∷ rows) =
    let rest = prune_db now rows in if leb expires_at now then rest else (h, expires_at) ∷ rest

unfoldable pub load_from_db : ℕ → TokenStore → TokenStore
unfolding load_rows prune_db
load_from_db now store = elim store.db [
  | none ↦ store
  | some rows ↦ record store {
    tokens = load_rows now rows store.tokens;
    db = some (prune_db now rows);
  }
]

-- `cleanup`
unfoldable pub cleanup : ℕ → Dict ℕ → Dict ℕ
cleanup now [] = []
cleanup now ((h, expires_at) ∷ tokens) =
    let rest = cleanup now tokens in if ltb expires_at now then rest else (h, expires_at) ∷ rest

module _ (hash_token : String → String) where
  -- `create`, on the token that was generated, whose hash no row of the table has yet.
  unfoldable pub create : ℕ → String → TokenStore → TokenStore
  create now token store =
      let expires_at = now + store.expiry_seconds in
      record store {
        tokens = insert (hash_token token) expires_at store.tokens;
        db = map_db (insert (hash_token token) expires_at) store.db;
      }

  -- An expired token is taken out of the cache.
  unfoldable pub verify : ℕ → String → TokenStore → Bool × TokenStore
  verify now token store = elim (lookup (hash_token token) store.tokens) [
    | none ↦ (false, store)
    | some expires_at ↦
        if ltb expires_at now
        then (false, record store { tokens = remove (hash_token token) store.tokens })
        else (true, store)
  ]

  -- Taken out of the cache and the table.
  abbrev pub spend : String → TokenStore → TokenStore
  spend token store = record store {
    tokens = remove (hash_token token) store.tokens;
    db = map_db (remove (hash_token token)) store.db;
  }

  unfoldable pub consume : ℕ → String → TokenStore → Bool × TokenStore
  unfolding verify
  consume now token store =
      let (valid, checked) = verify now token store in
      if valid
      then (if is_some (lookup (hash_token token) checked.tokens)
          then (true, spend token checked)
          else (false, checked))
      else (false, checked)
