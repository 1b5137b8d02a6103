-- ===== src/Executor/Orchestrate/Snapshot.antt =====
-- `snapshot_name_for` of executor/orchestrator.py. SHA-256 is a parameter, the text of its digest.
use homepilot_core_public.Base.{
  ℕ, zero, suc, ◌≤◌, arith, leb, leb→le, [], ◌∷◌, ◌++◌, if◌then◌else◌, length, length-append,
  if-holds,
}
use homepilot_core_public.Base.Text.{Text, codes, take}

abbrev pub pve_snapname_max : ℕ
pve_snapname_max = 40

abbrev pub snap_prefix : Text
snap_prefix = codes "hp-pre-"

abbrev pub snap_hash_len : ℕ
snap_hash_len = 7

length-take : (n : ℕ) (t : Text) → length (take n t) ≤ n
unfolding take
length-take zero t = omega arith
length-take (suc n) [] = omega arith
length-take (suc n) (c ∷ t) = omega (arith, length-take n t)

module _ (hexdigest : Text → Text) where
  unfoldable pub snapshot_name_for : Text → Text
  unfolding take
  snapshot_name_for id =
      let candidate = snap_prefix ++ id in
      if leb (length candidate) pve_snapname_max
      then candidate
      else snap_prefix ++ take 25 id ++ 45 ∷ take snap_hash_len (hexdigest id)

  -- A snapshot's name is at most 40 characters long, whatever the id.
  pub snapshot_name-le : (id : Text) → length (snapshot_name_for id) ≤ pve_snapname_max
  unfolding snapshot_name_for
  snapshot_name-le id =
      if-holds (λ t. length t ≤ pve_snapname_max)
        (leb (length (snap_prefix ++ id)) pve_snapname_max) (snap_prefix ++ id)
        (snap_prefix ++ take 25 id ++ 45 ∷ take snap_hash_len (hexdigest id))
        (λ short. leb→le (length (snap_prefix ++ id)) pve_snapname_max short)
        (λ long. omega (
          arith,
          length-append (take 25 id) (45 ∷ take snap_hash_len (hexdigest id)),
          length-take 25 id,
          length-take snap_hash_len (hexdigest id),
        ))
