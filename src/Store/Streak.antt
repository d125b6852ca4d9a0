-- ===== src/Store/Streak.antt =====
-- services/api/internal/store/streak.go: LearnerStats, Get, RecordActivity and UpdateLevel. The table
-- learner_streaks is a function from the learner to the row, a date is the number of its day, and the
-- SQL is written as a function on the row. Errors of the connection are left out.
pub mod Runs
use Prim.Native.Nat.{max}
use ruskiy.Shared.{ℕ, suc, ◌+◌, ◌==◌, if◌then◌else◌, Option, none, some, String, put, List, [], ◌∷◌}
use ruskiy.Shared.Int.{ℤ, pos, ◌+ℤ◌}

pub record LearnerStats : Type 0 where
  pub current_streak : ℕ
  pub longest_streak : ℕ
  pub last_active : Option ℕ
  pub total_sessions : ℕ
  pub total_xp : ℤ
  pub current_level : ℤ

abbrev pub Streaks : Type 0
Streaks = String → Option LearnerStats

-- The stats of a learner without a row.
unfoldable pub get_stats : String → Streaks → LearnerStats
get_stats learner table = elim (table learner) [
  | none ↦ record {
    current_streak = 0;
    longest_streak = 0;
    last_active = none;
    total_sessions = 0;
    total_xp = pos 0;
    current_level = pos 1;
  }
  | some row ↦ row
]

-- The row that is inserted.
abbrev pub first_row : ℕ → ℤ → LearnerStats
first_row today xp = record {
  current_streak = 1;
  longest_streak = 1;
  last_active = some today;
  total_sessions = 1;
  total_xp = xp;
  current_level = pos 1;
}

-- The two CASE expressions; a comparison with NULL is not true.
abbrev pub next_streak : ℕ → LearnerStats → ℕ
next_streak today row = elim row.last_active [
  | none ↦ 1
  | some last ↦
      if suc last == today
      then row.current_streak + 1
      else if last == today
      then row.current_streak
      else 1
]

abbrev pub longest_candidate : ℕ → LearnerStats → ℕ
longest_candidate today row = elim row.last_active [
  | none ↦ 1
  | some last ↦ if suc last == today then row.current_streak + 1 else 1
]

-- ON CONFLICT DO UPDATE
unfoldable pub update_row : ℕ → ℤ → LearnerStats → LearnerStats
update_row today xp row = record {
  current_streak = next_streak today row;
  longest_streak = max row.longest_streak (longest_candidate today row);
  last_active = some today;
  total_sessions = row.total_sessions + 1;
  total_xp = row.total_xp +ℤ xp;
  current_level = row.current_level;
}

unfoldable pub record_activity : (today : ℕ) → String → (xp : ℤ) → Streaks → Streaks
unfolding update_row
record_activity today learner xp table =
    let row : LearnerStats = elim (table learner) [
      | none ↦ first_row today xp
      | some old ↦ update_row today xp old
    ] in
    put learner (some row) table

unfoldable pub update_level : String → ℤ → Streaks → Streaks
update_level learner level table = elim (table learner) [
  | none ↦ table
  | some row ↦ put learner (some (record row { current_level = level })) table
]

-- The table after sessions of a learner on the given days, the latest first, with the points of each.
abbrev pub after_sessions : String → List (ℕ × ℤ) → Streaks
after_sessions learner [] = λ l. none
after_sessions learner ((day, xp) ∷ earlier) =
    record_activity day learner xp (after_sessions learner earlier)
