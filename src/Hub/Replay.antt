-- ===== src/Hub/Replay.antt =====
-- `NonceCache` of agent_hub/replay.py and `_check_register_freshness` of agent_hub/server.py. The clock
-- counts microseconds, and the time stamp of a frame is in seconds.
pub mod Once
use homepilot_core_public.Base.{
  ℕ, ◌+◌, ◌-◌, ◌*◌, String, Bool, true, false, Option, none, some, List, [], ◌∷◌, ◌=ˢ◌, leb, ltb,
  length, if◌then◌else◌,
}
use homepilot_core_public.Base.Text.{codes}
use homepilot_core_public.Base.Int.{ℤ, pos, negsuc}
use homepilot_core_public.Base.Dict.{Dict, lookup, insert}

-- REPLAY_TS_WINDOW
abbrev pub replay_window : ℕ
replay_window = 300000000

abbrev pub nonce_min_hex_len : ℕ
nonce_min_hex_len = 32

-- `_seen`
abbrev pub Seen : Type 0
Seen = Dict (Dict ℕ)

unfoldable pub prune_bucket : ℕ → Dict ℕ → Dict ℕ
prune_bucket now [] = []
prune_bucket now ((nonce, expires) ∷ bucket) =
    let rest = prune_bucket now bucket in if leb expires now then rest else (nonce, expires) ∷ rest

abbrev pub unless_empty : String → Dict ℕ → Seen → Seen
unless_empty id [] rest = rest
unless_empty id (p ∷ bucket) rest = (id, p ∷ bucket) ∷ rest

unfoldable pub prune_seen : ℕ → Seen → Seen
unfolding prune_bucket
prune_seen now [] = []
prune_seen now ((id, bucket) ∷ seen) =
    unless_empty id (prune_bucket now bucket) (prune_seen now seen)

-- `self._seen.setdefault(agent_id, {})`
abbrev pub bucket_of : Option (Dict ℕ) → Dict ℕ
bucket_of none = []
bucket_of (some bucket) = bucket

abbrev pub expiry_of : Option ℕ → ℕ
expiry_of none = 0
expiry_of (some expires) = expires

unfoldable pub check_and_record : String → String → ℕ → Seen → Bool × Seen
unfolding prune_seen
check_and_record id nonce now seen =
    let pruned = prune_seen now seen in
    let bucket = bucket_of (lookup id pruned) in
    if ltb now (expiry_of (lookup nonce bucket))
    then (false, pruned)
    else (true, insert id (insert nonce (now + replay_window) bucket) pruned)

-- What a register frame carries: `none` for a field that is missing or of another type.
pub record Freshness : Type 0 where
  pub nonce : Option String
  pub ts : Option ℤ

-- `abs(now - ts)`
abbrev pub age : ℕ → ℤ → ℕ
age now (pos t) = if leb (t * 1000000) now then now - t * 1000000 else t * 1000000 - now
age now (negsuc n) = now + (n + 1) * 1000000

pub data Stale : Type 0 where
  short_nonce invalid_ts stale_timestamp duplicate_nonce : Stale

-- The reason of the refusal, or `none`, and the cache.
unfoldable pub check_stamped : String → String → ℤ → ℕ → Seen → Option Stale × Seen
unfolding check_and_record
check_stamped id nonce ts now seen =
    if ltb replay_window (age now ts) then (some stale_timestamp, seen) else (
      if (check_and_record id nonce now seen).0 then none else some duplicate_nonce,
      (check_and_record id nonce now seen).1,
    )

abbrev pub check_ts : String → String → Option ℤ → ℕ → Seen → Option Stale × Seen
check_ts id nonce none now seen = (some invalid_ts, seen)
check_ts id nonce (some ts) now seen = check_stamped id nonce ts now seen

unfoldable pub check_register_freshness : String → Freshness → ℕ → Seen → Option Stale × Seen
unfolding check_stamped
check_register_freshness id frame now seen = elim frame.nonce [
  | none ↦ (some short_nonce, seen)
  | some nonce ↦
      if ltb (length (codes nonce)) nonce_min_hex_len
      then (some short_nonce, seen)
      else check_ts id nonce frame.ts now seen
]
