-- ===== src/Tests/Memory.antt =====
-- Inputs for the theorems on fsrs.go and xp.go.
use ruskiy.Shared.{ℕ, zero, suc, ◌≤◌, true, none, some, List, [], ◌∷◌, ◌≡◌, refl, arith, ◌↔◌}
use ruskiy.Shared.Int.{pos}
use ruskiy.Model.{LearnerSkillState, ExerciseResult, learning, fossilized}
use ruskiy.Engine.Fsrs.{new_skill_state, is_pass, update_skill_state}
use ruskiy.Engine.Fsrs.Bounds.{InRange, update_skill_state-InRange}
use ruskiy.Engine.Fsrs.History.{Review, practise, failures, fossilized_iff_ten_failures}
use ruskiy.Engine.Xp.{xp_for_level, level_from_xp}
use ruskiy.Engine.Xp.Levels.{Reached, Growing, level_from_xp-Reached}
use ruskiy.Tests.Decimals.{Decimal, dec, decimal_float, decimal_laws}

abbrev fresh_skill : LearnerSkillState Decimal
fresh_skill = record {
  learner_id = "ann";
  skill_id = "verbs";
  confidence = dec 4 1;
  stability = dec 1 0;
  difficulty = dec 5 1;
  last_reviewed = some (pos 0);
  next_review_due = none;
  total_attempts = 3;
  correct_streak = 2;
  error_count = 1;
  error_types = [];
  status = learning;
  reps = 3;
  lapses = 1;
}

update_skill_state-InRange_example :
    InRange decimal_laws
      (update_skill_state fresh_skill (dec 1 0) (some "conceptual") (pos 9))
      (is_pass (dec 1 0))
update_skill_state-InRange_example =
    update_skill_state-InRange decimal_laws fresh_skill (dec 1 0) (some "conceptual") (pos 9)
      (refl, refl)

abbrev slow_answer : ExerciseResult
slow_answer = record {
  id = 1;
  session_id = 1;
  content_id = 1;
  learner_id = "ann";
  response = "";
  correct_answer = "";
  is_correct = true;
  error_type = none;
  response_time_ms = pos 60000;
  hint_level_used = pos 3;
  xp_earned = pos 0;
  timestamp = pos 0;
}

abbrev review_of : Decimal → Review Decimal
review_of score = record { score = score; error_type = none; time = pos 5 }

abbrev three_reviews : List (Review Decimal)
three_reviews = review_of (dec 1 0) ∷ review_of (dec 4 0) ∷ review_of (dec 3 0) ∷ []

fossilized_iff_ten_failures_example :
    ((update_skill_state
        (practise (new_skill_state "ann" "verbs" (pos 0)) three_reviews)
        (dec 1 0)
        none
        (pos 9)).status
      ≡ fossilized)
    ↔ (10 ≤ failures three_reviews)
unfolding is_pass
fossilized_iff_ten_failures_example =
    fossilized_iff_ten_failures "ann" "verbs" (pos 0) three_reviews (dec 1 0) none (pos 9) refl

growing : (bound : ℕ) → Growing Decimal bound
unfolding xp_for_level
growing bound zero h = omega arith
growing bound (suc zero) h = omega arith
growing bound (suc (suc n)) h = grind arith

level_from_xp-Reached_example : Reached Decimal 1 (level_from_xp Decimal (pos 450)) (pos 450)
level_from_xp-Reached_example = level_from_xp-Reached Decimal (pos 450) (growing 453)
