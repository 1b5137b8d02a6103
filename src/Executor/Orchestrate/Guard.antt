-- ===== src/Executor/Orchestrate/Guard.antt =====
-- What stands between an artifact and the executor of its kind: executor/orchestrator.py.
use homepilot_core_public.Base.{
  ℕ, String, ◌≡◌, refl, ◌≢◌, ◌⊎◌, inl, inr, arith, Bool, true, false, ◌&&◌, ◌||◌, not, some, ◌=ˢ◌,
  Bool-cases, Option-cases,
}
use homepilot_core_public.Base.Text.{Text, codes}
use homepilot_core_public.Artifacts.Model.{
  ArtifactKind, approved, applied, ◌=ᵗ◌, is_kb_note, eq_of_same, Frontmatter, ok, Result-cases,
  replay_only,
}
use homepilot_core_public.Artifacts.World.{Doc, Env, read_file}
use homepilot_core_public.Artifacts.Cascade.{hash_matches}
use homepilot_core_public.Executor.Orchestrate.Snapshot.{snapshot_name_for}
use homepilot_core_public.Executor.Orchestrate.{
  RunResult, Reply, throws, replies, State, Parts, is_snapshottable, is_false, text_of,
  is_only_once, maybe_snapshot, run_kind, apply, replay,
}

pub Reply-cases :
    {A : Type 0} (r : Reply A)
    → ((reason : String) × (r ≡ throws reason)) ⊎ ((a : A) × (r ≡ replies a))
Reply-cases (throws reason) = inl (reason, refl)
Reply-cases (replies a) = inr (a, refl)

module _ {H : Type 0} (env : Env) (hexdigest : Text → Text) (parts : Parts H) where
  -- The artifact wants a snapshot before it runs.
  abbrev pub wants_snapshot : Frontmatter → Bool
  wants_snapshot fm =
      fm.mutating && is_snapshottable fm.target_kind && not (is_false fm.requires_snapshot)

  -- The call for the snapshot of the guest that the target names goes through.
  abbrev pub HasSnapshot : Frontmatter → State H → Type 0
  HasSnapshot fm s =
      (vmid : ℕ) × (fm.target_vmid ≡ some vmid)
      × ((parts.snapshot (text_of fm.target_node) vmid (snapshot_name_for hexdigest (codes fm.id))
            s).0
          ≡ replies tt)

  -- Other executors in place of those of the kinds.
  abbrev pub with_executors : (ArtifactKind → Doc → State H → Reply RunResult × State H) → Parts H
  with_executors execute = record parts { execute = execute }

  unsnapped :
      (fm : Frontmatter) (s : State H)
      → is_false fm.requires_snapshot ≡ false
      → ¬ HasSnapshot fm s
      → (reason : String) × (s' : State H) × (maybe_snapshot env hexdigest parts fm s
          ≡ (throws reason, s'))
  unfolding maybe_snapshot
  unsnapped fm s wanted bare = elim (Option-cases fm.target_vmid) [
    | inl no_vmid ↦ ("the target names no vmid", s, rw (maybe_snapshot, wanted, no_vmid) refl)
    | inr (vmid, e) ↦ elim (Bool-cases (text_of fm.target_node =ˢ "")) [
      | inl no_node ↦ ("the target names no node", s, rw (maybe_snapshot, wanted, e, no_node) refl)
      | inr named ↦
          let name = snapshot_name_for hexdigest (codes fm.id) in
          let taken = parts.snapshot (text_of fm.target_node) vmid name s in
          elim (Reply-cases taken.0) [
            | inl (reason, r) ↦ (reason, taken.1, rw (maybe_snapshot, wanted, e, named, r) refl)
            | inr (_, r) ↦ absurd (bare (vmid, e, r))
          ]
    ]
  ]

  run_kind-unrun :
      (execute : ArtifactKind → Doc → State H → Reply RunResult × State H) (d : Doc) (s : State H)
      → wants_snapshot d.fm ≡ true
      → ¬ HasSnapshot d.fm s
      → run_kind env hexdigest (with_executors execute) d s ≡ run_kind env hexdigest parts d s
  unfolding run_kind
  run_kind-unrun execute d s wanted bare =
      let (reason, s', failed) = unsnapped d.fm s (ground arith) bare in
      let gate : d.fm.mutating && is_snapshottable d.fm.target_kind ≡ true = ground arith in
      rw (run_kind, gate, failed) refl

  -- What an artifact of a kind that acts has to show: the hash that was approved, and the snapshot
  -- that it wants.
  abbrev pub MayRun : Doc → State H → Type 0
  MayRun d s =
      (is_kb_note d.fm.kind ≡ false)
      × (hash_matches env d ≡ true)
      × (wants_snapshot d.fm ≡ true → HasSnapshot d.fm s)

  module _ (execute : ArtifactKind → Doc → State H → Reply RunResult × State H) (s : State H) where
    -- Without its snapshot an artifact that wants one does not run.
    unready :
        (d : Doc)
        → ¬ (wants_snapshot d.fm ≡ true → HasSnapshot d.fm s)
        → run_kind env hexdigest (with_executors execute) d s ≡ run_kind env hexdigest parts d s
    unready d bare = elim (Bool-cases (wants_snapshot d.fm)) [
      | inl wanted ↦ run_kind-unrun execute d s wanted (λ h. bare (λ _. h))
      | inr free ↦ absurd (bare (λ wanted. absurd (ground arith)))
    ]

    -- An apply asks an executor for something only where the artifact is approved, matches the hash
    -- that was approved, and, where it changes a guest and does not forgo its snapshot, the guest's
    -- snapshot has been taken: otherwise the outcome and the state are the same for any executors.
    pub apply_guarded :
        (id user : String)
        → ¬ (
            (d : Doc) × (read_file s.world.files id ≡ ok d) × (d.fm.status ≡ approved) × MayRun d s)
        → apply env hexdigest (with_executors execute) id user s
          ≡ apply env hexdigest parts id user s
    unfolding apply
    apply_guarded id user bare = elim (Result-cases (read_file s.world.files id)) [
      | inl (e, missing) ↦ rw (apply, missing) refl
      | inr (d, found) ↦ elim (Bool-cases (is_kb_note d.fm.kind)) [
        | inl kb ↦ rw (apply, found, kb) refl
        | inr acts ↦ elim (Bool-cases (d.fm.status =ᵗ approved)) [
          | inr other ↦ rw (apply, found, acts, other) refl
          | inl granted ↦ elim (Bool-cases (hash_matches env d)) [
            | inr altered ↦ rw (apply, found, acts, granted, altered) refl
            | inl sealed ↦
                let same = unready d (λ h.
                  bare (d, found, eq_of_same d.fm.status approved granted, (acts, sealed, h))) in
                rw (apply, found, acts, granted, sealed, same) refl
          ]
        ]
      ]
    ]

    -- Approved, or applied and open to a replay.
    abbrev pub MayReplay : Frontmatter → Type 0
    MayReplay fm =
        (fm.status ≡ approved)
        ⊎ ((fm.status ≡ applied)
            × (fm.replay_safe ≢ some false)
            × (fm.idempotence ≢ some replay_only))

    open_to_replay :
        (fm : Frontmatter)
        → is_false fm.replay_safe && fm.status =ᵗ applied ≡ false
        → is_only_once fm.idempotence && fm.status =ᵗ applied ≡ false
        → fm.status =ᵗ approved || fm.status =ᵗ applied ≡ true
        → MayReplay fm
    open_to_replay fm safe often known = elim (Bool-cases (fm.status =ᵗ approved)) [
      | inl granted ↦ inl (eq_of_same fm.status approved granted)
      | inr other ↦
          let again : fm.status =ᵗ applied ≡ true = ground arith in
          inr (
            eq_of_same fm.status applied again,
            λ e. absurd (ground arith),
            λ e. absurd (ground arith),
          )
    ]

    replay_read :
        (id : String) (d : Doc)
        → read_file s.world.files id ≡ ok d
        → ¬ ((d : Doc) × (read_file s.world.files id ≡ ok d) × MayReplay d.fm × MayRun d s)
        → replay env hexdigest (with_executors execute) id s ≡ replay env hexdigest parts id s
    unfolding replay
    replay_read id d found bare = elim (Bool-cases (is_kb_note d.fm.kind)) [
      | inl kb ↦ rw (replay, found, kb) refl
      | inr acts ↦ elim (Bool-cases (is_false d.fm.replay_safe && d.fm.status =ᵗ applied)) [
        | inl unsafe ↦ rw (replay, found, acts, unsafe) refl
        | inr safe ↦ elim (Bool-cases (is_only_once d.fm.idempotence && d.fm.status =ᵗ applied)) [
          | inl once ↦ rw (replay, found, acts, safe, once) refl
          | inr often ↦ elim (Bool-cases (d.fm.status =ᵗ approved || d.fm.status =ᵗ applied)) [
            | inr other ↦ rw (replay, found, acts, safe, often, other) refl
            | inl known ↦ elim (Bool-cases (hash_matches env d)) [
              | inr altered ↦ rw (replay, found, acts, safe, often, known, altered) refl
              | inl sealed ↦
                  let same = unready d (λ h.
                    bare (d, found, open_to_replay d.fm safe often known, (acts, sealed, h))) in
                  rw (replay, found, acts, safe, often, known, sealed, same) refl
            ]
          ]
        ]
      ]
    ]

    -- A replay asks an executor for something only where the artifact is approved, or applied and
    -- neither marked as not safe to replay nor replay-only, and has what an apply asks for besides:
    -- otherwise the outcome and the state are the same for any executors.
    pub replay_guarded :
        (id : String)
        → ¬ ((d : Doc) × (read_file s.world.files id ≡ ok d) × MayReplay d.fm × MayRun d s)
        → replay env hexdigest (with_executors execute) id s ≡ replay env hexdigest parts id s
    unfolding replay
    replay_guarded id bare = elim (Result-cases (read_file s.world.files id)) [
      | inl (e, missing) ↦ rw (replay, missing) refl
      | inr (d, found) ↦ replay_read id d found bare
    ]
