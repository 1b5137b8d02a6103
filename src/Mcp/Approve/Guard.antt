-- ===== src/Mcp/Approve/Guard.antt =====
-- What a call of the approval tool can change.
use homepilot_core_public.Base.{
  ℕ, String, ◌≡◌, refl, ◌⊎◌, inl, inr, Bool, true, false, Option, none, some, Bool-cases, if-holds,
  Option-cases,
}
use homepilot_core_public.Base.Text.{Text}
use homepilot_core_public.Base.Dict.{lookup}
use homepilot_core_public.Artifacts.Model.{Result, ok, err}
use homepilot_core_public.Artifacts.World.{World, Env, CodeRow}
use homepilot_core_public.Artifacts.Codes.{
  lock_threshold, count_failure, put_row, verify_code, record_failed_approval,
}
use homepilot_core_public.Mcp.Approve.{
  Answer, refused, Refusal, after_approve, after_count, operator_approve, try_code, given_code,
  is_blank, approve_with_code, Server, check_ratelimit, handle_approve_artifact, blank_code,
  no_store, no_code, is_locked, now_locked, wrong_code, database_error, rate_limited,
}

-- The call is refused, and of the state at most the code rows change.
abbrev pub IsRefused : World → Answer → World → Type 0
IsRefused w answer v = ((r : Refusal) × (answer ≡ refused r)) × (v ≡ record w { codes = v.codes })

-- The code was right and the row not locked, and the state is that of an approval.
abbrev pub IsGranted : Env → String → Option Text → World → World → Type 0
IsGranted env id code w v =
    (t : Text) × (row : CodeRow) × (code ≡ some t)
    × (lookup id w.codes ≡ some row)
    × (row.locked ≡ false)
    × (verify_code t row.code ≡ true)
    × (v ≡ (operator_approve env id w).1)

after_approve-world : (id : String) (r : Result (Unit {0}) × World) → (after_approve id r).1 ≡ r.1
after_approve-world id (err e, w) = refl
after_approve-world id (ok _, w) = refl

module _ (env : Env) (id : String) where
  abbrev IsGuarded : Option Text → World → Answer × World → Type 0
  IsGuarded code w (answer, v) = IsRefused w answer v ⊎ IsGranted env id code w v

  IsRefused-after_count :
      (w : World) (r : Option (ℕ × Bool) × World)
      → r.1 ≡ record w { codes = r.1.codes }
      → IsRefused w (after_count r).0 (after_count r).1
  IsRefused-after_count w (none, v) h = ((database_error, refl), h)
  IsRefused-after_count w (some (n, true), v) h = ((now_locked, refl), h)
  IsRefused-after_count w (some (n, false), v) h = ((wrong_code, refl), h)

  put_row-codes :
      {A : Type 0} (row : CodeRow) (answer : A) (w : World)
      → (put_row env id row answer w).1 ≡ record w { codes = (put_row env id row answer w).1.codes }
  put_row-codes row answer w = elim (Bool-cases (env.db_works id)) [
    | inl works ↦ rw works refl
    | inr broken ↦ rw broken refl
  ]

  record_failed-codes :
      (threshold : ℕ) (w : World)
      → (record_failed_approval env id threshold w).1
        ≡ record w { codes = (record_failed_approval env id threshold w).1.codes }
  unfolding record_failed_approval
  record_failed-codes threshold w = elim (Option-cases (lookup id w.codes)) [
    | inl unknown ↦ rw (record_failed_approval, unknown) refl
    | inr (row, known) ↦
        (let counted = count_failure threshold row in
          rw (record_failed_approval, known)
            (put_row-codes counted (counted.failed_attempts, counted.locked) w))
  ]

  try_code-IsGuarded :
      (t : Text) (w : World) (row : Option CodeRow)
      → lookup id w.codes ≡ row
      → IsGuarded (some t) w (try_code env id t w row)
  try_code-IsGuarded t w none there = inl ((no_code, refl), refl)
  try_code-IsGuarded t w (some row) there =
      if-holds (IsGuarded (some t) w) row.locked _ _ (λ _. inl ((is_locked, refl), refl))
        (λ free.
          if-holds (IsGuarded (some t) w) (verify_code t row.code) _ _
            (λ right. inr (
              t,
              row,
              refl,
              there,
              free,
              right,
              after_approve-world id (operator_approve env id w),
            ))
            (λ _. inl (
              IsRefused-after_count w (record_failed_approval env id lock_threshold w)
                (record_failed-codes lock_threshold w))))

  given_code-IsGuarded : (t : Text) (w : World) → IsGuarded (some t) w (given_code env id t w)
  given_code-IsGuarded t w =
      if-holds (IsGuarded (some t) w) (is_blank t) _ _ (λ _. inl ((blank_code, refl), refl))
        (λ _.
          if-holds (IsGuarded (some t) w) env.has_db _ _
            (λ _. try_code-IsGuarded t w (lookup id w.codes) refl)
            (λ _. inl ((no_store, refl), refl)))

  approve_with_code-IsGuarded :
      (code : Option Text) (w : World) → IsGuarded code w (approve_with_code env id code w)
  unfolding approve_with_code
  approve_with_code-IsGuarded none w = inl ((blank_code, refl), refl)
  approve_with_code-IsGuarded (some t) w = given_code-IsGuarded t w

-- A call of the approval tool either is refused, and then the files, the mirror, the audit and the
-- commits stay as they were; or the caller gave a text that verifies the stored code of the
-- artifact, whose row is not locked, and the state is the one of an approval in the operator's name.
pub handle_approve-guarded :
    (env : Env) (now : ℕ) (caller id : String) (code : Option Text) (s : Server)
    → IsRefused s.world
        (handle_approve_artifact env now caller id code s).0
        (handle_approve_artifact env now caller id code s).1.world
      ⊎ IsGranted env id code s.world (handle_approve_artifact env now caller id code s).1.world
unfolding handle_approve_artifact
handle_approve-guarded env now caller id code s =
    elim (Bool-cases (check_ratelimit now caller s.calls).0) [
      | inl free ↦ rw free (approve_with_code-IsGuarded env id code s.world)
      | inr busy ↦ rw busy (inl ((rate_limited, refl), refl))
    ]
