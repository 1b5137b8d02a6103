-- ===== src/Hub/Window.antt =====
-- agent_hub/enrolment_window.py: the window is one expiry in the settings, kept to the second, and
-- the clock counts microseconds. `none` stands for a setting that is missing, empty or unreadable,
-- which `_parse` gives as `None`.
use homepilot_core_public.Base.{
  ℕ, ◌+◌, ◌-◌, ◌*◌, ◌/◌, ◌≤◌, ◌<◌, min, max, ◌≡◌, ◌∙◌, arith, Bool, true, false, Option, none, some,
  ltb, if◌then◌else◌,
}
use homepilot_core_public.Base.Int.{ℤ, pos, negsuc}

abbrev microseconds : ℕ
microseconds = 1000000

abbrev pub max_window_minutes : ℕ
max_window_minutes = 1440

-- `max(1, min(int(minutes), MAX_WINDOW_MINUTES))`
unfoldable pub normalise_minutes : ℤ → ℕ
normalise_minutes (pos n) = max 1 (min n max_window_minutes)
normalise_minutes (negsuc n) = 1

pub record WindowState : Type 0 where
  pub is_open_now : Bool
  pub expires_at : Option ℕ
  pub seconds_remaining : ℕ

-- `status`, where there is a repository.
unfoldable pub window_status : ℕ → Option ℕ → WindowState
window_status now none = record { is_open_now = false; expires_at = none; seconds_remaining = 0 }
window_status now (some expires) =
    if ltb now (expires * microseconds)
    then record {
      is_open_now = true;
      expires_at = some expires;
      seconds_remaining = (expires * microseconds - now) / microseconds;
    }
    else record { is_open_now = false; expires_at = some expires; seconds_remaining = 0 }

abbrev pub is_open : ℕ → Option ℕ → Bool
is_open now setting = (window_status now setting).is_open_now

-- The setting as `open_window` writes it: the whole seconds of the expiry.
unfoldable pub open_window : ℕ → ℤ → Option ℕ
unfolding normalise_minutes
open_window now minutes =
    some ((now + normalise_minutes minutes * 60 * microseconds) / microseconds)

unfoldable pub close_window : Option ℕ
close_window = none

lt→ltb : (a b : ℕ) → a < b → ltb a b ≡ true
lt→ltb a b h = ground arith

le→ltb : (a b : ℕ) → b ≤ a → ltb a b ≡ false
le→ltb a b h = ground arith

minutes-bounds : (m : ℤ) → (1 ≤ normalise_minutes m) × (normalise_minutes m ≤ max_window_minutes)
unfolding normalise_minutes
minutes-bounds (pos n) = (omega arith, omega arith)
minutes-bounds (negsuc n) = (omega arith, omega arith)

pub is_open_lem :
    (later expires : ℕ) → is_open later (some expires) ≡ ltb later (expires * microseconds)
unfolding window_status
is_open_lem later expires = ground arith

whole_seconds : (t : ℕ) → (t < t / 1000000 * 1000000 + 1000000) × (t / 1000000 * 1000000 ≤ t)
whole_seconds t = (omega arith, omega arith)

window_stays_open :
    (now later : ℕ) (minutes : ℤ)
    → later ≤ now + 59 * 1000000
    → is_open later (open_window now minutes) ≡ true
unfolding open_window
window_stays_open now later minutes h =
    let bounds = minutes-bounds minutes in
    let t = now + normalise_minutes minutes * 60 * microseconds in
    let near = whole_seconds t in
    is_open_lem later (t / 1000000) ∙ lt→ltb later (t / 1000000 * 1000000) (omega arith)

window_closes :
    (now later : ℕ) (minutes : ℤ)
    → now + 86400 * 1000000 ≤ later
    → is_open later (open_window now minutes) ≡ false
unfolding open_window
window_closes now later minutes h =
    let bounds = minutes-bounds minutes in
    let t = now + normalise_minutes minutes * 60 * microseconds in
    let near = whole_seconds t in
    is_open_lem later (t / 1000000) ∙ le→ltb later (t / 1000000 * 1000000) (omega arith)

-- A window that was opened for any number of minutes, zero or negative too, is open for 59 seconds
-- and is closed from a day after on.
pub window_bounds :
    (now early late : ℕ) (minutes : ℤ)
    → early ≤ now + 59 * 1000000
    → now + 86400 * 1000000 ≤ late
    → (is_open early (open_window now minutes) ≡ true)
      × (is_open late (open_window now minutes) ≡ false)
window_bounds now early late minutes soon past =
    (window_stays_open now early minutes soon, window_closes now late minutes past)
