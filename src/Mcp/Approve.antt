-- ===== src/Mcp/Approve.antt =====
-- `handle_approve_artifact` of mcp/tools/artifact_tools.py and its rate limit, whose table of calls
-- is a part of the state. Times are whole numbers of a tick of the clock, which the model calls a
-- second.
pub mod Guard
pub mod Attempts
use homepilot_core_public.Base.{
  ℕ, ◌+◌, String, Bool, true, false, Option, none, some, List, [], ◌∷◌, ◌++◌, leb, ltb, length,
  if◌then◌else◌,
}
use homepilot_core_public.Base.Text.{Text}
use homepilot_core_public.Base.Dict.{Dict, lookup, insert}
use homepilot_core_public.Artifacts.Model.{Error, Result, ok, err}
use homepilot_core_public.Artifacts.Spec.{strip}
use homepilot_core_public.Artifacts.World.{Doc, World, Env, CodeRow, read_file}
use homepilot_core_public.Artifacts.Codes.{lock_threshold, verify_code, record_failed_approval}
use homepilot_core_public.Artifacts.Lifecycle.{lifecycle_approve}

-- Why a call is refused, and `refused database_error` where a write raises.
pub data Refusal : Type 0 where
  rate_limited blank_code no_store no_code is_locked now_locked wrong_code database_error : Refusal

-- The artifact that was approved, or what is raised.
pub data Answer : Type 0 where
  granted : Doc → Answer
  refused : Refusal → Answer
  failed : Error → Answer

abbrev pub ratelimit_max : ℕ
ratelimit_max = 10

abbrev pub ratelimit_window : ℕ
ratelimit_window = 60

abbrev pub ratelimit_max_keys : ℕ
ratelimit_max_keys = 10000

-- `[t for t in window if now - t < 60]`
unfoldable pub recent : ℕ → List ℕ → List ℕ
recent now [] = []
recent now (t ∷ window) =
    let rest = recent now window in if ltb now (t + ratelimit_window) then t ∷ rest else rest

abbrev pub calls_of : String → Dict (List ℕ) → List ℕ
calls_of caller calls = elim (lookup caller calls) [ none ↦ [] | some window ↦ window ]

unfoldable pub check_ratelimit : ℕ → String → Dict (List ℕ) → Bool × Dict (List ℕ)
unfolding recent
check_ratelimit now caller calls =
    let kept = if ltb ratelimit_max_keys (length calls) then [] else calls in
    let window = recent now (calls_of caller kept) in
    if leb ratelimit_max (length window)
    then (false, insert caller window kept)
    else (true, insert caller (window ++ now ∷ []) kept)

pub record Server : Type 0 where
  pub world : World
  pub calls : Dict (List ℕ)

abbrev pub is_blank : Text → Bool
is_blank t = elim (strip t) [ [] ↦ true | _ ∷ _ ↦ false ]

-- What is returned of the artifact that was read, or the error of the read.
abbrev pub answer_of : Result Doc → Answer
answer_of (ok d) = granted d
answer_of (err e) = failed e

abbrev pub after_approve : String → Result (Unit {0}) × World → Answer × World
after_approve id (err e, w) = (failed e, w)
after_approve id (ok _, w) = (answer_of (read_file w.files id), w)

abbrev pub after_count : Option (ℕ × Bool) × World → Answer × World
after_count (none, w) = (refused database_error, w)
after_count (some (_, true), w) = (refused now_locked, w)
after_count (some (_, false), w) = (refused wrong_code, w)

module _ (env : Env) where
  abbrev pub operator_approve : String → World → Result (Unit {0}) × World
  operator_approve id w =
      lifecycle_approve env id "operator-code via MCP" (some "Approved via MCP approval code") w

  -- What a code that is not blank meets.
  abbrev pub try_code : String → Text → World → Option CodeRow → Answer × World
  try_code id code w none = (refused no_code, w)
  try_code id code w (some row) =
      if row.locked
      then (refused is_locked, w)
      else if verify_code code row.code
      then after_approve id (operator_approve id w)
      else after_count (record_failed_approval env id lock_threshold w)

  abbrev pub given_code : String → Text → World → Answer × World
  given_code id code w =
      if is_blank code
      then (refused blank_code, w)
      else if env.has_db
      then try_code id code w (lookup id w.codes)
      else (refused no_store, w)

  -- The handler behind the rate limit.
  unfoldable pub approve_with_code : String → Option Text → World → Answer × World
  unfolding verify_code record_failed_approval lifecycle_approve
  approve_with_code id none w = (refused blank_code, w)
  approve_with_code id (some code) w = given_code id code w

  unfoldable pub handle_approve_artifact :
      ℕ → String → String → Option Text → Server → Answer × Server
  unfolding check_ratelimit approve_with_code
  handle_approve_artifact now caller id code s =
      let (free, calls) = check_ratelimit now caller s.calls in
      let (answer, w) = approve_with_code id code s.world in
      if free
      then (answer, record { world = w; calls = calls })
      else (refused rate_limited, record { world = s.world; calls = calls })
