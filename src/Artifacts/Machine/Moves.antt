-- ===== src/Artifacts/Machine/Moves.antt =====
-- One operation moves an artifact along the table, or leaves it where it is.
use homepilot_core_public.Base.{
  String, ◌≡◌, refl, ap, ◌∙◌, ◌≢◌, ◌⊎◌, inl, inr, true, false, ◌||◌, Option, some, arith, ◌=ˢ◌,
  if◌then◌else◌, Bool-cases, Option-cases, eq_iff,
}
use homepilot_core_public.Base.Dict.{NodupKeys}
use homepilot_core_public.Artifacts.Model.{
  ArtifactStatus, proposed, approved, rejected, applied, failed, superseded, revoked, ◌=ᵗ◌,
  valid_transitions, validate_transition, allows, Result, ok, err, Result-cases,
}
use homepilot_core_public.Artifacts.World.{Doc, World, Env, read_file}
use homepilot_core_public.Artifacts.World.Reads.{status_of, status_at}
use homepilot_core_public.Artifacts.Cascade.{hash_matches}
use homepilot_core_public.Artifacts.Transitions.{
  commit, checked_read, reject_artifact, mark_applied, mark_failed, supersede_artifact,
  revoke_artifact, approve_artifact,
}
use homepilot_core_public.Artifacts.Transitions.Status.{status-record_change}
use homepilot_core_public.Artifacts.Transitions.Approve.{approve_intact}
use homepilot_core_public.Artifacts.Invalidate.{is_terminal, edit_artifact}
use homepilot_core_public.Artifacts.Invalidate.Lower.{Lower, kept, lowered}
use homepilot_core_public.Artifacts.Invalidate.Edit.{
  TakenBack, edit_takes_back, edit_idle, edit-missing,
}
use homepilot_core_public.Artifacts.Machine.{
  Op, approve, reject, edit, apply, fail, supersede, revoke, step, moves,
}

-- The status of `x` has moved along.
abbrev pub Moved : World → World → String → Type 0
Moved w v x =
    (s : ArtifactStatus)
    → status_at w x ≡ some s
    → (t : ArtifactStatus) × (status_at v x ≡ some t) × (moves s t ≡ true)

moves_refl : (s : ArtifactStatus) → moves s s ≡ true
moves_refl s = ground arith

moves-allowed : (s t : ArtifactStatus) → allows (valid_transitions s) t ≡ true → moves s t ≡ true
moves-allowed s t h = ground arith

moves-approved : (s : ArtifactStatus) → (s ≡ proposed) ⊎ (s ≡ failed) → moves s approved ≡ true
unfolding valid_transitions
moves-approved s h = ground arith

moves-proposed : (s : ArtifactStatus) → is_terminal s ≡ false → moves s proposed ≡ true
moves-proposed s h = ground arith

Lower-moved :
    (r r' : Result Doc) (s : ArtifactStatus)
    → Lower r r'
    → status_of r ≡ some s
    → (t : ArtifactStatus) × (status_of r' ≡ some t) × (moves s t ≡ true)
Lower-moved r r' s (kept e) h = (s, cc, moves_refl s)
Lower-moved r r' s (lowered d d' p q o n) h = (proposed, ground arith, ground arith)

Moved-refl : (w v : World) (x : String) → status_at v x ≡ status_at w x → Moved w v x
Moved-refl w v x e s h = (s, e ∙ h, moves_refl s)

-- What the changes below have in common: they set the status of one artifact.
abbrev Sets : String → ArtifactStatus → (Doc → World → World) → Type 0
Sets id target change =
    (d : Doc) (v : World) (x : String)
    → status_at (change d v) x ≡ (if id =ˢ x then some target else status_at v x)

module _ (env : Env) where
  checked_read-ok :
      (id : String) (target : ArtifactStatus) (w : World) {d : Doc}
      → checked_read env id target w ≡ ok d
      → (read_file w.files id ≡ ok d) × (allows (valid_transitions d.fm.status) target ≡ true)
  unfolding checked_read validate_transition
  checked_read-ok id target w {d} h = elim (Result-cases (read_file w.files id)) [
    | inl (e, r) ↦ absurd (ground arith)
    | inr (d', r) ↦ (ground arith, ground arith)
  ]

  transition-Moved :
      (id : String) (target : ArtifactStatus) (change : Doc → World → World) (w : World)
      → Sets id target change
      → (x : String) → Moved w (commit (checked_read env id target w) change w).1 x
  transition-Moved id target change w sets x =
      go (checked_read env id target w) (λ d h. checked_read-ok id target w h)
    where
      go :
          (r : Result Doc)
          → ((d : Doc)
              → r ≡ ok d
              → (read_file w.files id ≡ ok d)
                × (allows (valid_transitions d.fm.status) target ≡ true))
          → Moved w (commit r change w).1 x
      go (err e) k s h = Moved-refl w w x refl s h
      go (ok d) k s h = elim (Bool-cases (id =ˢ x)) [
        | inl same ↦ (
          target,
          ground (arith, sets d w x),
          moves-allowed s target (ground (arith, k d refl, eq_iff id x)),
        )
        | inr other ↦ (s, ground (arith, sets d w x), moves_refl s)
      ]

  approve-Moved :
      (id user : String) (reason role : Option String) (w : World) (x : String)
      → Moved w (approve_artifact env id user reason role w).1 x
  approve-Moved id user reason role w x s h =
      elim (Option-cases (status_at (approve_artifact env id user reason role w).1 x)) [
        | inl gone ↦ changed (λ q. cc)
        | inr (t, e) ↦ elim (Bool-cases (s =ᵗ t)) [
          | inl same ↦ (t, e, ground arith)
          | inr other ↦ changed (λ q. ground arith)
        ]
      ]
    where
      changed :
          status_at (approve_artifact env id user reason role w).1 x ≢ status_at w x
          → (t : ArtifactStatus) × (status_at (approve_artifact env id user reason role w).1 x
              ≡ some t)
            × (moves s t ≡ true)
      changed ne =
          let (d, r, was, intact, now) = approve_intact env id w user reason role x ne in
          let is : d.fm.status ≡ s = ground arith in
          (approved, now, moves-approved s (elim was [ inl p ↦ inl (cc) | inr (q, p) ↦ inr (cc) ]))

  edit-Moved :
      (id : String) (w : World)
      → NodupKeys w.files
      → (x : String) → Moved w (edit_artifact env id w).1 x
  edit-Moved id w u x s h = elim (Result-cases (read_file w.files id)) [
    | inl (e, r) ↦
        Moved-refl w (edit_artifact env id w).1 x (ap (status_at_x) (edit-missing env id w e r)) s h
    | inr (d, r) ↦ elim (Bool-cases (is_terminal d.fm.status || hash_matches env d)) [
      | inl idle ↦
          Moved-refl w (edit_artifact env id w).1 x
            (ap status_at_x (edit_idle env id w u d r (either d idle))) s h
      | inr live ↦
          moved_back d r (ground arith)
            (edit_takes_back env id w u d r (ground arith) (ground arith))
    ]
  ]
    where
      status_at_x : Result (Unit {0}) × World → Option ArtifactStatus
      status_at_x p = status_at p.1 x

      either :
          (d : Doc)
          → (is_terminal d.fm.status || hash_matches env d) ≡ true
          → (is_terminal d.fm.status ≡ true) ⊎ (hash_matches env d ≡ true)
      either d k = elim (Bool-cases (is_terminal d.fm.status)) [
        | inl t ↦ inl t
        | inr f ↦ inr (ground arith)
      ]

      moved_back :
          (d : Doc)
          → read_file w.files id ≡ ok d
          → is_terminal d.fm.status ≡ false
          → TakenBack env id w u (edit_artifact env id w)
          → (t : ArtifactStatus) × (status_at (edit_artifact env id w).1 x ≡ some t)
            × (moves s t ≡ true)
      moved_back d r live taken = elim (Bool-cases (id =ˢ x)) [
        | inl same ↦
            let e : id ≡ x = (eq_iff id x).0 same in
            let is : d.fm.status ≡ s = ground arith in
            (proposed, rw (← e) taken.1, moves-proposed s (rw (← is) live))
        | inr other ↦
            Lower-moved (read_file w.files x) (read_file (edit_artifact env id w).1.files x) s
              (taken.3 x (λ e. ground (arith, eq_iff id x))) h
      ]

  -- One operation moves each artifact along the table, or takes its approval or its failure back.
  pub step_moves :
      (op : Op) (w : World) → NodupKeys w.files → (x : String) → Moved w (step env op w) x
  unfolding step
  step_moves (approve id user reason role) w u x = approve-Moved id user reason role w x
  step_moves (edit id) w u x = edit-Moved id w u x
  step_moves (reject id user reason role) w u x =
      unfold reject_artifact in
      transition-Moved id rejected _ w (λ d v x. status-record_change env id x _ d.body _ _ _ _ v) x
  step_moves (apply id log) w u x =
      unfold mark_applied in
      transition-Moved id applied _ w (λ d v x. status-record_change env id x _ _ _ _ _ _ v) x
  step_moves (fail id reason log) w u x =
      unfold mark_failed in
      transition-Moved id failed _ w (λ d v x. status-record_change env id x _ _ _ _ _ _ v) x
  step_moves (supersede old new) w u x =
      unfold supersede_artifact in
      transition-Moved old superseded _ w (λ d v x. status-record_change env old x _ _ _ _ _ _ v) x
  step_moves (revoke id user reason) w u x =
      unfold revoke_artifact in
      transition-Moved id revoked _ w (λ d v x. status-record_change env id x _ _ _ _ _ _ v) x
