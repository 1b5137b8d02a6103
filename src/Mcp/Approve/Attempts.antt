-- ===== src/Mcp/Approve/Attempts.antt =====
-- How many wrong codes a run of calls of the approval tool can try on one artifact.
use homepilot_core_public.Base.{
  ℕ, ◌+◌, ◌-◌, ◌≤◌, String, ◌≡◌, refl, sym, inl, inr, Bool, true, false, ◌&&◌, Option, none, some,
  List, [], ◌∷◌, ◌=ˢ◌, arith, eq_iff, subst, Bool-cases, if-holds, if◌then◌else◌,
}
use homepilot_core_public.Base.Text.{Text}
use homepilot_core_public.Base.Dict.{lookup, insert, lookup-insert}
use homepilot_core_public.Artifacts.Model.{Result, ok, err}
use homepilot_core_public.Artifacts.World.{Doc, World, Env, CodeRow, read_file}
use homepilot_core_public.Artifacts.Lifecycle.Codes.{Keeps, Keeps-lifecycle_approve}
use homepilot_core_public.Artifacts.Codes.{
  lock_threshold, count_failure, put_row, verify_code, record_failed_approval,
}
use homepilot_core_public.Mcp.Approve.{
  Answer, refused, failed, after_approve, after_count, answer_of, operator_approve, try_code,
  is_blank, approve_with_code, Server, check_ratelimit, handle_approve_artifact, blank_code,
  no_store, no_code, is_locked, now_locked, wrong_code, database_error, rate_limited,
}

pub record Call : Type 0 where
  pub now : ℕ
  pub caller : String
  pub artifact : String
  pub code : Option Text

-- The answers that tell the caller that the code was wrong.
abbrev pub tells_wrong : Answer → Bool
tells_wrong (refused wrong_code) = true
tells_wrong (refused now_locked) = true
tells_wrong (refused database_error) = true
tells_wrong _ = false

-- How many calls of a run are told that their code for the artifact was wrong.
unfoldable pub wrong_guesses : Env → String → List Call → Server → ℕ
unfolding handle_approve_artifact
wrong_guesses env id [] s = 0
wrong_guesses env id (call ∷ calls) s =
    let (answer, next) =
      handle_approve_artifact env call.now call.caller call.artifact call.code s in
    let rest = wrong_guesses env id calls next in
    (if call.artifact =ˢ id && tells_wrong answer then 1 else 0) + rest

-- The wrong codes that a row still admits: none where there is no row or it is locked, else what
-- is left up to the threshold, and one at least.
abbrev pub guesses_left : Option CodeRow → ℕ
guesses_left none = 0
guesses_left (some row) = if row.locked then 0 else 1 + (lock_threshold - 1 - row.failed_attempts)

pub guesses_left-le : (row : Option CodeRow) → guesses_left row ≤ lock_threshold
guesses_left-le none = omega arith
guesses_left-le (some row) = ground arith

counted-less :
    (row : CodeRow)
    → row.locked ≡ false
    → 1 + guesses_left (some (count_failure lock_threshold row)) ≤ guesses_left (some row)
counted-less row free = ground (arith, free)

module _ (env : Env) (j : String) where
  abbrev Spends : String → World → Answer × World → Type 0
  Spends id w (answer, v) =
      (if id =ˢ j && tells_wrong answer then 1 else 0) + guesses_left (lookup j v.codes)
      ≤ guesses_left (lookup j w.codes)

  Keeps-left :
      (w v : World)
      → Keeps j w v
      → guesses_left (lookup j v.codes) ≤ guesses_left (lookup j w.codes)
  Keeps-left w v (inl gone) = rw gone (omega arith)
  Keeps-left w v (inr same) = rw same (omega arith)

  Spends-quiet :
      (id : String) (w v : World) (answer : Answer)
      → tells_wrong answer ≡ false
      → guesses_left (lookup j v.codes) ≤ guesses_left (lookup j w.codes)
      → Spends id w (answer, v)
  Spends-quiet id w v answer quiet h = ground (arith, quiet, h)

  answer_of-quiet : (r : Result Doc) → tells_wrong (answer_of r) ≡ false
  answer_of-quiet (ok d) = refl
  answer_of-quiet (err e) = refl

  Spends-after_approve :
      (id : String) (w : World) (r : Result (Unit {0}) × World)
      → Keeps j w r.1
      → Spends id w (after_approve id r)
  Spends-after_approve id w (err e, v) h = Spends-quiet id w v (failed e) refl (Keeps-left w v h)
  Spends-after_approve id w (ok _, v) h =
      Spends-quiet id w v (answer_of (read_file v.files id))
        (answer_of-quiet (read_file v.files id)) (Keeps-left w v h)

  told :
      (id : String) (w v : World) (answer : Option (ℕ × Bool))
      → (if id =ˢ j then 1 else 0) + guesses_left (lookup j v.codes)
        ≤ guesses_left (lookup j w.codes)
      → Spends id w (after_count (answer, v))
  told id w v none h = ground (arith, h)
  told id w v (some (n, true)) h = ground (arith, h)
  told id w v (some (n, false)) h = ground (arith, h)

  charged :
      (id : String) (w : World) (row : CodeRow)
      → lookup id w.codes ≡ some row
      → row.locked ≡ false
      → (if id =ˢ j then 1 else 0)
          + guesses_left (lookup j (insert id (count_failure lock_threshold row) w.codes))
        ≤ guesses_left (lookup j w.codes)
  charged id w row known free =
      rw (lookup-insert id j (count_failure lock_threshold row) w.codes)
        (elim (Bool-cases (id =ˢ j)) [
          | inl same ↦
              (let here : lookup j w.codes ≡ some row =
                  subst (λ k. lookup k w.codes ≡ some row) ((eq_iff id j).0 same) known in
                rw (same, here) (counted-less row free))
          | inr other ↦ rw other (omega arith)
        ])

  module _ (works : env.db_works j ≡ true) where
    elsewhere :
        (id : String) (w : World)
        → env.db_works id ≡ false
        → (if id =ˢ j then 1 else 0) + guesses_left (lookup j w.codes)
          ≤ guesses_left (lookup j w.codes)
    elsewhere id w broken = elim (Bool-cases (id =ˢ j)) [
      | inl same ↦
          (let shut : env.db_works j ≡ false =
              subst (λ k. env.db_works k ≡ false) ((eq_iff id j).0 same) broken in
            absurd (cc (works, shut)))
      | inr other ↦ rw other (omega arith)
    ]

    Spends-count :
        (id : String) (w : World) (row : CodeRow)
        → lookup id w.codes ≡ some row
        → row.locked ≡ false
        → Spends id w (after_count (record_failed_approval env id lock_threshold w))
    unfolding record_failed_approval
    Spends-count id w row known free =
        let counted = count_failure lock_threshold row in
        let answer : ℕ × Bool = (counted.failed_attempts, counted.locked) in
        let same : record_failed_approval env id lock_threshold w
            ≡ put_row env id counted answer w =
          rw (record_failed_approval, known) refl in
        subst (λ r. Spends id w (after_count r)) (sym same)
          (if-holds (λ r. Spends id w (after_count r)) (env.db_works id) _ _
            (λ _.
              told id w (record w { codes = insert id counted w.codes }) (some answer)
                (charged id w row known free))
            (λ broken. told id w w none (elsewhere id w broken)))

    Spends-try_code :
        (id : String) (t : Text) (w : World) (row : Option CodeRow)
        → lookup id w.codes ≡ row
        → Spends id w (try_code env id t w row)
    Spends-try_code id t w none there = Spends-quiet id w w (refused no_code) refl (omega arith)
    Spends-try_code id t w (some row) there =
        if-holds (Spends id w) row.locked _ _
          (λ _. Spends-quiet id w w (refused is_locked) refl (omega arith))
          (λ free.
            if-holds (Spends id w) (verify_code t row.code) _ _
              (λ _. Spends-after_approve id w (operator_approve env id w) (
                Keeps-lifecycle_approve env j id "operator-code via MCP"
                  (some "Approved via MCP approval code") w))
              (λ _. Spends-count id w row there free))

    Spends-approve_with_code :
        (id : String) (code : Option Text) (w : World)
        → Spends id w (approve_with_code env id code w)
    unfolding approve_with_code
    Spends-approve_with_code id none w = Spends-quiet id w w (refused blank_code) refl (omega arith)
    Spends-approve_with_code id (some t) w =
        if-holds (Spends id w) (is_blank t) _ _
          (λ _. Spends-quiet id w w (refused blank_code) refl (omega arith))
          (λ _.
            if-holds (Spends id w) env.has_db _ _
              (λ _. Spends-try_code id t w (lookup id w.codes) refl)
              (λ _. Spends-quiet id w w (refused no_store) refl (omega arith)))

    Spends-handle :
        (now : ℕ) (caller id : String) (code : Option Text) (s : Server)
        → Spends id s.world (
          (handle_approve_artifact env now caller id code s).0,
          (handle_approve_artifact env now caller id code s).1.world,
        )
    unfolding handle_approve_artifact
    Spends-handle now caller id code s =
        if-holds (λ (r : Answer × Server). Spends id s.world (r.0, r.1.world))
          (check_ratelimit now caller s.calls).0 _ _ (λ _. Spends-approve_with_code id code s.world)
          (λ _. Spends-quiet id s.world s.world (refused rate_limited) refl (omega arith))

  -- Where the database takes the writes of an artifact's row, a run of calls of the approval tool,
  -- of which each is over before the next begins, whatever the callers, artifacts and codes, is told no more often that a code for the artifact
  -- was wrong than its row admits at the start: never without a row or with a locked one, and else
  -- five times less the failed attempts so far, or once if that leaves none.
  pub wrong_guesses-le :
      (calls : List Call) (s : Server)
      → env.db_works j ≡ true
      → wrong_guesses env j calls s ≤ guesses_left (lookup j s.world.codes)
  unfolding wrong_guesses
  wrong_guesses-le [] s works = omega arith
  wrong_guesses-le (call ∷ calls) s works =
      let next = (handle_approve_artifact env call.now call.caller call.artifact call.code s).1 in
      omega (
        arith,
        wrong_guesses-le calls next works,
        Spends-handle works call.now call.caller call.artifact call.code s,
      )
