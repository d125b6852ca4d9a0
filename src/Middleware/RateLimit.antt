-- ===== src/Middleware/RateLimit.antt =====
-- services/api/internal/middleware/ratelimit.go. The map of windows is a function to Option. Times are
-- the nanoseconds of the readings of time.Now; `none` for the user is a request without a user ID, and
-- the answer to a request is the call of the next handler or 429 with the value of Retry-After.
pub mod Limits
use Prim.Native.Nat.{◌^◌}
use ruskiy.Shared.{
  ℕ, suc, ◌+◌, ◌*◌, ◌-◌, ◌/◌, ltb, leb, if◌then◌else◌, ◌||◌, Bool, true, false, Option, none, some,
  String, str_eq, put, List, [], ◌∷◌,
}

pub record RateLimitConfig : Type 0 where
  pub free_limit_per_min : ℕ
  pub premium_limit_per_min : ℕ
  pub window_duration : ℕ

unfoldable pub default_rate_limit_config : RateLimitConfig
default_rate_limit_config = record {
  free_limit_per_min = 100;
  premium_limit_per_min = 1000;
  window_duration = 60 * 10 ^ 9;
}

pub record UserWindow : Type 0 where
  pub count : ℕ
  pub window_end : ℕ

abbrev pub Windows : Type 0
Windows = String → Option UserWindow

abbrev pub window : ℕ → ℕ → UserWindow
window n t = record { count = n; window_end = t }

pub data Answer : Type 0 where
  served : Answer
  too_many_requests : (retry_after : ℕ) → Answer

unfoldable pub tier_limit : RateLimitConfig → String → ℕ
tier_limit cfg tier =
    if str_eq tier "premium" || str_eq tier "institutional"
    then cfg.premium_limit_per_min
    else cfg.free_limit_per_min

-- The window that the request counts in: a new one when there is none or it has ended.
abbrev pub open_window : RateLimitConfig → ℕ → Option UserWindow → UserWindow
open_window cfg now none = window 0 (now + cfg.window_duration)
open_window cfg now (some win) =
    if ltb win.window_end now then window 0 (now + cfg.window_duration) else win

-- The answer, and the user's window after it. int(remaining.Seconds()) is the whole seconds of the
-- remaining nanoseconds.
unfoldable pub count_request :
    RateLimitConfig → ℕ → String → Option UserWindow → Answer × UserWindow
count_request cfg now tier old =
    let win = open_window cfg now old in
    let n = suc win.count in
    (
      if ltb (tier_limit cfg tier) n
          then too_many_requests ((win.window_end - now) / 10 ^ 9 + 1)
          else served,
      window n win.window_end,
    )

unfoldable pub rate_limit :
    RateLimitConfig → ℕ → Option String → String → Windows → Answer × Windows
unfolding count_request
rate_limit cfg now none tier windows = (served, windows)
rate_limit cfg now (some user) tier windows =
    let (answer, win) = count_request cfg now tier (windows user) in
    (answer, put user (some win) windows)
