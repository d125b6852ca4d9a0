-- ===== src/Tests/Sessions.antt =====
-- Inputs for the theorems on session.go and placement tests.
use ruskiy.Shared.{
  is_nil, ℕ, suc, ◌+◌, ◌≤◌, ◌<◌, min, leb, length, get_elem?, All, Bool, true, false, Option, none,
  some, String, List, [], ◌∷◌, ◌≡◌, ◌≢◌, refl, arith, ◌⊎◌,
}
use ruskiy.Shared.Int.{pos}
use ruskiy.Model.{LearnerSkillState, ContentAtom, SkillTestResult, learning}
use ruskiy.Engine.Session.Roles.{assign_roles}
use ruskiy.Engine.Session.Select.{SessionConfig, SkillSelection, Unlocked, select_skills, selection}
use ruskiy.Engine.Session.Select.Laws.{Admissible, select_skills-Admissible}
use ruskiy.Engine.Session.Placement.{levels, determine_placement_level}
use ruskiy.Engine.Session.Placement.Laws.{Placed, determine_placement_level-Placed}
use ruskiy.Engine.Session.Build.{build_session}
use ruskiy.Engine.Session.Build.Laws.{ItemsFor, ids, build_session-ItemsFor}
use ruskiy.Tests.Decimals.{Decimal, dec, decimal_float, insertion}

abbrev skill_state : String → ℕ → LearnerSkillState Decimal
skill_state id attempts = record {
  learner_id = "ann";
  skill_id = id;
  confidence = dec 4 1;
  stability = dec 1 0;
  difficulty = dec 5 1;
  last_reviewed = none;
  next_review_due = none;
  total_attempts = attempts;
  correct_streak = 0;
  error_count = 0;
  error_types = [];
  status = learning;
  reps = 0;
  lapses = 0;
}

abbrev two_items : SessionConfig Decimal
two_items = record {
  time_budget_minutes = pos 15;
  max_items = 2;
  review_ratio = dec 6 1;
  difficulty_target = dec 5 1;
}

abbrev due_skills : List (LearnerSkillState Decimal)
due_skills = skill_state "cases" 4 ∷ skill_state "verbs" 0 ∷ []

abbrev all_skills : List (LearnerSkillState Decimal)
all_skills = skill_state "greetings" 1 ∷ due_skills

abbrev only_greetings : Unlocked
only_greetings = some (λ id. ruskiy.Shared.str_eq id "greetings")

select_skills-Admissible_example :
    (length (select_skills insertion due_skills due_skills all_skills two_items only_greetings) ≤ 2)
    × All
        (Admissible only_greetings)
        (select_skills insertion due_skills due_skills all_skills two_items only_greetings)
select_skills-Admissible_example =
    select_skills-Admissible insertion due_skills due_skills all_skills two_items only_greetings

abbrev test_result : String → Bool → SkillTestResult
test_result level good = record { skill_id = "verbs"; is_correct = good; cefr_level = level }

abbrev answers : List SkillTestResult
answers = test_result "A1" true ∷ test_result "B1" false ∷ test_result "B2" true ∷ []

determine_placement_level-Placed_example :
    Placed Decimal answers levels "A1" (determine_placement_level Decimal answers)
determine_placement_level-Placed_example = determine_placement_level-Placed Decimal answers

abbrev pub atom : ℕ → String → ContentAtom Decimal
atom id skill = record {
  id = id;
  exercise_type = none;
  target_skills = skill ∷ [];
  cefr_level = "A1";
  segment_tags = [];
  domain_tags = [];
  difficulty = dec 5 1;
  estimated_time = pos 30;
  quality_score = dec 9 1;
  usage_count = 0;
}

abbrev atoms : List (ContentAtom Decimal)
atoms = atom 7 "cases" ∷ atom 8 "verbs" ∷ atom 9 "cases" ∷ []

-- rand.Intn that always draws 0.
abbrev draw : ℕ → ℕ
draw n = 0

draw_lt : (n : ℕ) → 1 ≤ n → draw n < n
draw_lt n h = h

abbrev draws : ℕ → ℕ → ℕ
draws i n = 0

draws_lt : (i n : ℕ) → 1 ≤ n → draws i n < n
draws_lt i n h = h

abbrev Positive : ContentAtom Decimal → Type 0
Positive c = leb 7 c.id ≡ true

abbrev two_selections : List (SkillSelection Decimal)
two_selections =
    selection (skill_state "cases" 4) (dec 5 0) true
    ∷ selection (skill_state "nouns" 0) (dec 5 0) false
    ∷ []

build_session-ItemsFor_example :
    ItemsFor
      (ids atoms)
      (assign_roles 2)
      3
      0
      two_selections
      (build_session insertion draws (λ i. i) 3 two_selections atoms (7 ∷ []))
build_session-ItemsFor_example =
    build_session-ItemsFor insertion draws (λ i. i) 3 draws_lt two_selections atoms (7 ∷ []) refl
