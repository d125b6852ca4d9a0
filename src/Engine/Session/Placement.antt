-- ===== src/Engine/Session/Placement.antt =====
-- services/api/internal/engine/session.go: DeterminePlacementLevel, and the cap on its level in
-- SubmitPlacement of services/api/internal/handler/placement.go with levelOrdinal.
pub mod Laws
use ruskiy.Shared.{
  ℕ, ltb, leb, ◌==◌, not, ◌&&◌, if◌then◌else◌, Bool, true, false, List, [], ◌∷◌, length, count_by,
  Option, none, some, get_elem?, String, str_eq,
}
use ruskiy.Shared.Int.{ℤ, pos, negsuc}
use ruskiy.Platform.{Float}
use ruskiy.Model.{SkillTestResult}

-- levelTotal[lvl] and levelCorrect[lvl]: a missing key reads 0.
unfoldable pub level_total : List SkillTestResult → String → ℕ
level_total results lvl = count_by (λ r. str_eq r.cefr_level lvl) results

unfoldable pub level_correct : List SkillTestResult → String → ℕ
level_correct results lvl = count_by (λ r. str_eq r.cefr_level lvl && r.is_correct) results

-- The levels in the order in which the loop visits them.
abbrev pub levels : List String
levels = "A1" ∷ "A2" ∷ "B1" ∷ "B2" ∷ "C1" ∷ "C2" ∷ []

module _ (F : Type 0) ⦃fl : Float F⦄ where
  -- accuracy >= 0.7
  unfoldable pub passes : List SkillTestResult → String → Bool
  passes results lvl = fl.le (fl.lit 7 1) (
      fl.div (fl.of_int (pos (level_correct results lvl)))
        (fl.of_int (pos (level_total results lvl))))

  unfoldable pub highest_passed : List SkillTestResult → List String → String → String
  highest_passed results [] best = best
  highest_passed results (lvl ∷ lvls) best =
      let skip = highest_passed results lvls best in
      let up = highest_passed results lvls lvl in
      if level_total results lvl == 0 then skip else if passes results lvl then up else best

  unfoldable pub determine_placement_level : List SkillTestResult → String
  unfolding highest_passed
  determine_placement_level results = highest_passed results levels "A1"

unfoldable pub level_ordinal : String → ℕ
level_ordinal level =
    if str_eq level "A1"
    then 1
    else if str_eq level "A2"
    then 2
    else if str_eq level "B1"
    then 3
    else if str_eq level "B2"
    then 4
    else 0

abbrev pub stage_levels : List String
stage_levels = "A1" ∷ "A1" ∷ "A1" ∷ "A2" ∷ "A2" ∷ "B1" ∷ []

-- stageLevels[i], where 0 <= i < len(stageLevels).
abbrev pub stage_level : ℤ → Option String
stage_level (pos i) = get_elem? stage_levels i
stage_level (negsuc _) = none

-- The level that SubmitPlacement stores: the determined level, capped by the stage where the learner
-- stopped.
unfoldable pub cap_level : String → ℤ → String
cap_level determined stopped_stage = elim (stage_level stopped_stage) [
  | none ↦ determined
  | some stage ↦ if ltb (level_ordinal stage) (level_ordinal determined) then stage else determined
]
