-- ===== src/Engine/Xp.antt =====
-- services/api/internal/engine/xp.go: experience points and levels. The loop of LevelFromXP takes
-- fuel; `level_fuel` is enough where XPForLevel is at least the level (Xp/Levels).
pub mod Levels
use ruskiy.Shared.{ℕ, zero, suc, ◌+◌, leb, if◌then◌else◌, Bool, true, false}
use ruskiy.Shared.Int.{ℤ, pos, pos_part, leb_ℤ}
use ruskiy.Platform.{Float}
use ruskiy.Model.{ExerciseResult}

module _ {F : Type 0} ⦃fl : Float F⦄ where
  unfoldable pub calculate_xp : ExerciseResult → F → F → ℤ → ℤ
  calculate_xp result difficulty skill_confidence streak_days =
      let base = fl.lit 10 0 in
      let difficulty_multiplier = fl.add (fl.lit 1 0) (fl.mul difficulty (fl.lit 15 1)) in
      let accuracy_bonus = if result.is_correct then fl.lit 1 0 else fl.lit 3 1 in
      let weakness_bonus =
        if fl.lt skill_confidence (fl.lit 5 1) then fl.lit 15 1 else fl.lit 1 0 in
      let streak_bonus =
        fl.fmin (fl.add (fl.lit 1 0) (fl.mul (fl.of_int streak_days) (fl.lit 5 2))) (fl.lit 2 0) in
      let total =
        fl.mul (fl.mul (fl.mul (fl.mul base difficulty_multiplier) accuracy_bonus) weakness_bonus)
          streak_bonus in
      fl.to_int (fl.round total)

abbrev pub level_fuel : ℤ → ℕ
level_fuel total_xp = pos_part total_xp + 1

module _ (F : Type 0) ⦃fl : Float F⦄ where
  -- For a level that is not negative.
  unfoldable pub xp_for_level : ℕ → ℤ
  xp_for_level level =
      if leb level 1
      then pos 100
      else fl.to_int (
          fl.round (
            fl.mul (fl.mul (fl.lit 100 0) (fl.of_int (pos level)))
              (fl.log (fl.add (fl.of_int (pos level)) (fl.lit 1 0)))))

  -- for XPForLevel(level+1) <= totalXP { level++ }
  unfoldable pub climb : ℕ → ℕ → ℤ → ℕ
  climb zero level total_xp = level
  climb (suc fuel) level total_xp = elim (leb_ℤ (xp_for_level (level + 1)) total_xp) [
    | true ↦ climb fuel (level + 1) total_xp
    | false ↦ level
  ]

  unfoldable pub level_from_xp : ℤ → ℕ
  level_from_xp total_xp = climb (level_fuel total_xp) 1 total_xp
