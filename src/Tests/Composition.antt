-- ===== src/Tests/Composition.antt =====
-- Inputs for the theorems on session_composer.go.
use ruskiy.Shared.{
  ℕ, ◌≤◌, length, get_elem?, Bool, true, false, none, some, List, [], ◌∷◌, ◌≡◌, refl, arith, ◌⊎◌,
}
use ruskiy.Shared.Int.{pos, ◌≤ℤ◌}
use ruskiy.Model.{SessionItemRole, warmup, core, challenge, cooldown}
use ruskiy.Engine.Data.{ContentSelection, ComposedItem, ComposedSession}
use ruskiy.Engine.Composer.Template.{TemplateSlot, build_template, core_slot}
use ruskiy.Engine.Composer.Template.Shape.{Arc}
use ruskiy.Engine.Composer.Template.Result.{build_template-Arc}
use ruskiy.Engine.Composer.Place.{compose_session}
use ruskiy.Engine.Composer.Place.Marks.{count_id}
use ruskiy.Engine.Composer.Place.Conserve.{contents, compose_session_conserves}
use ruskiy.Engine.Composer.Budget.{enforce_time_budget, max_time}
use ruskiy.Engine.Composer.Budget.Laws.{Trimmed, OnlyWarmups, enforce_time_budget-Trimmed}
use ruskiy.Engine.Composer.Adapt.{
  ExerciseAttempt, evaluate_adaptation, is_struggling, is_coasting, last_skill, adapt_for_coasting,
  use_harder, find_harder, harder_match, keep_harder,
}
use ruskiy.Engine.Composer.Adapt.Laws.{
  Eased, Hardened, evaluate_adaptation_eases, evaluate_adaptation_hardens,
}
use ruskiy.Tests.Decimals.{Decimal, dec, decimal_float, insertion}

build_template-Arc_example :
    (t : List (TemplateSlot Decimal)) × (build_template 8 "diaspora" (pos 20) ≡ some t)
    × Arc {F = Decimal} 8 t
build_template-Arc_example = build_template-Arc 8 "diaspora" (pos 20) (omega arith)

abbrev chosen : ℕ → ℕ → ContentSelection Decimal
chosen id tenths = record {
  content = record {
    id = id;
    exercise_type = none;
    target_skills = "cases" ∷ [];
    cefr_level = "A1";
    segment_tags = [];
    domain_tags = [];
    difficulty = dec tenths 1;
    estimated_time = pos 60;
    quality_score = dec 9 1;
    usage_count = 0;
  };
  skill_id = "cases";
  role = core;
  is_review = false;
}

abbrev three : List (ContentSelection Decimal)
three = chosen 4 2 ∷ chosen 5 5 ∷ chosen 6 9 ∷ []

abbrev three_slots : List (TemplateSlot Decimal)
three_slots = core_slot ∷ core_slot ∷ core_slot ∷ []

compose_session_conserves_example :
    (s : ComposedSession Decimal) × (compose_session insertion three (pos 10) "migrant" ≡ some s)
    × (length s.items ≡ 3)
    × ((k : ℕ) → count_id k (contents s.items) ≡ count_id k three)
compose_session_conserves_example =
    compose_session_conserves insertion three (pos 10) "migrant" refl

abbrev item : ℕ → SessionItemRole → ℕ → ComposedItem Decimal
item id role place = record {
  content = chosen id 5;
  role = role;
  position = place;
  hint_level = 0;
  difficulty = dec 5 1;
}

abbrev long_session : ComposedSession Decimal
long_session = record {
  items = item 4 warmup 0 ∷ item 5 core 1 ∷ item 6 challenge 2 ∷ item 7 cooldown 3 ∷ [];
  time_budget = pos 120;
  total_est_time = pos 240;
  segment = "diaspora";
}

enforce_time_budget-Trimmed_example :
    let r = enforce_time_budget long_session in
    Trimmed long_session r
    × ((r.total_est_time ≤ℤ max_time long_session) ⊎ (length r.items ≤ 2) ⊎ OnlyWarmups r)
enforce_time_budget-Trimmed_example = enforce_time_budget-Trimmed long_session

abbrev attempt : Bool → ExerciseAttempt
attempt good = record {
  content_id = "4";
  skill_id = "cases";
  is_correct = good;
  response_time_ms = pos 2000;
  estimated_time_s = pos 60;
}

abbrev three_wrong : List ExerciseAttempt
three_wrong = attempt false ∷ attempt false ∷ attempt false ∷ []

abbrev five_right : List ExerciseAttempt
five_right = attempt true ∷ attempt true ∷ attempt true ∷ attempt true ∷ attempt true ∷ []

struggles : is_struggling three_wrong ≡ true
unfolding is_struggling
struggles = refl

evaluate_adaptation_eases_example :
    (it : ComposedItem Decimal) × (get_elem? long_session.items 1 ≡ some it)
    × Eased
        (last_skill three_wrong)
        0
        long_session
        it
        (evaluate_adaptation long_session three_wrong 0 three)
evaluate_adaptation_eases_example =
    evaluate_adaptation_eases long_session three_wrong 0 three struggles (omega arith)

no_struggle : is_struggling five_right ≡ false
unfolding is_struggling
no_struggle = refl

hardens : (evaluate_adaptation long_session five_right 0 three).1.adapted ≡ true
unfolding evaluate_adaptation is_struggling is_coasting adapt_for_coasting use_harder find_harder
    harder_match keep_harder
hardens = refl

evaluate_adaptation_hardens_example :
    (is_coasting five_right ≡ true)
    × Hardened 0 long_session (evaluate_adaptation long_session five_right 0 three)
evaluate_adaptation_hardens_example =
    evaluate_adaptation_hardens long_session five_right 0 three no_struggle hardens

stays : (evaluate_adaptation long_session five_right 3 three).1.adapted ≡ false
unfolding evaluate_adaptation is_struggling is_coasting adapt_for_coasting use_harder find_harder
    harder_match keep_harder
stays = refl
