-- ===== src/Tests/Streaks.antt =====
-- Inputs for the theorem on the streaks: sessions on the days 3, 5, 6, 6 and 7.
use ruskiy.Shared.{ℕ, List, [], ◌∷◌, ◌≡◌, refl, arith}
use ruskiy.Shared.Int.{ℤ, pos}
use ruskiy.Store.Streak.{get_stats, record_activity, after_sessions}
use ruskiy.Store.Streak.Runs.{Ordered, Shown, get_stats-Shown}

abbrev before_last : List (ℕ × ℤ)
before_last = (6, pos 10) ∷ (6, pos 5) ∷ (5, pos 20) ∷ (3, pos 10) ∷ []

before_last-Ordered : Ordered 7 before_last
before_last-Ordered = (omega arith, (omega arith, (omega arith, (omega arith, tt))))

three_days : (get_stats "l" (after_sessions "l" ((7, pos 10) ∷ before_last))).current_streak ≡ 3
unfolding get_stats record_activity
three_days = refl

get_stats-Shown_example :
    Shown 7
      ((7, pos 10) ∷ before_last)
      (get_stats "l" (after_sessions "l" ((7, pos 10) ∷ before_last)))
get_stats-Shown_example = get_stats-Shown "l" 7 (pos 10) before_last before_last-Ordered
