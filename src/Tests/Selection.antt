-- ===== src/Tests/Selection.antt =====
-- Inputs for the theorems on content_selector.go.
use ruskiy.Shared.{
  ℕ, ◌≤◌, true, false, none, some, List, [], ◌∷◌, map, length, String, ◌≡◌, ◌≢◌, refl, arith, All,
  has_id, if◌then◌else◌, ltb, not, keep, ◌⊎◌,
}
use mathlib.Core.List.{Perm}
use ruskiy.Shared.Int.{pos}
use ruskiy.Model.{ContentAtom, LearnerProfile, no_role}
use ruskiy.Engine.Data.{ContentSelection, ComposedSession}
use ruskiy.Engine.Composer.Place.{compose_session}
use ruskiy.Engine.Composer.Place.Marks.{count_id}
use ruskiy.Engine.Composer.Place.Conserve.{contents}
use ruskiy.Engine.Selector.Pool.{
  segment_match, filter_content, content_pool, categorize_skills, estimate_item_count,
  i_plus_one_levels,
}
use ruskiy.Engine.Session.Roles.{assign_roles, assign_small, fill}
use ruskiy.Engine.Selector.Pick.{add_selection}
use ruskiy.Engine.Selector.Phases.{constraints, select_with_constraints}
use ruskiy.Engine.Selector.Pool.Laws.{content_pool_lem}
use ruskiy.Engine.Selector.Variety.{type_at, selections_type_match, has_long_run, enforce_variety}
use ruskiy.Engine.Selector.Variety.Laws.{enforce_variety-Perm}
use ruskiy.Engine.Selector.Generate.{ContentSelectorInput, generate_content_set}
use ruskiy.Engine.Selector.Generate.Laws.{Fulfilled, generate_content_set-Valid}
use ruskiy.Engine.Selector.Sessions.{compose_session-generate_content_set}
use ruskiy.Tests.Decimals.{Decimal, dec, decimal_float, insertion, ceil_law}

abbrev atom : ℕ → String → ContentAtom Decimal
atom id exercise_type = record {
  id = id;
  exercise_type = some exercise_type;
  target_skills = "cases" ∷ [];
  cefr_level = "A2";
  segment_tags = [];
  domain_tags = "general" ∷ [];
  difficulty = dec 5 1;
  estimated_time = pos 60;
  quality_score = dec 9 1;
  usage_count = 0;
}

abbrev atoms : List (ContentAtom Decimal)
atoms = atom 4 "cloze" ∷ atom 5 "cloze" ∷ atom 6 "match" ∷ []

abbrev learner : LearnerProfile
learner = record {
  id = "ann";
  user_id = "u2";
  segment = "diaspora";
  domain = "general";
  current_level = "A2";
}

abbrev input : ContentSelectorInput Decimal
input = record {
  learner = learner;
  skills = [];
  content = atoms;
  recently_seen = 5 ∷ [];
  time_budget = pos 2;
  assignment = none;
}

atoms-ids : All (λ (c : ContentAtom Decimal). c.id ≢ 0) atoms
atoms-ids = ((λ e. ground (arith, e)), ((λ e. ground (arith, e)), ((λ e. ground (arith, e)), tt)))

-- Without the content seen recently.
selected_ids :
    map (λ (s : ContentSelection Decimal). s.content.id) (generate_content_set (pos 0) input)
    ≡ 4 ∷ 6 ∷ []
unfolding generate_content_set content_pool segment_match enforce_variety select_with_constraints
    constraints categorize_skills estimate_item_count i_plus_one_levels add_selection assign_roles
    assign_small fill
selected_ids = refl

generate_content_set-Valid_example :
    Fulfilled
      (λ c. (c.id ≢ 0) × (has_id c.id (5 ∷ []) ≡ false))
      input
      (pos 0)
      (generate_content_set (pos 0) input)
generate_content_set-Valid_example =
    generate_content_set-Valid (λ c. c.id ≢ 0) (pos 0) input ceil_law atoms-ids

compose_session-generate_content_set_example :
    (s : ComposedSession Decimal) × (compose_session insertion
        (generate_content_set (pos 0) input)
        (pos 2)
        "diaspora"
      ≡ some s)
    × (length s.items ≡ length (generate_content_set (pos 0) input))
    × ((k : ℕ)
        → (count_id k (contents s.items) ≡ count_id k (generate_content_set (pos 0) input))
          × (count_id k (contents s.items) ≤ 1)
          × ((has_id k (5 ∷ []) ≡ false) ⊎ (count_id k (contents s.items) ≡ 0)))
compose_session-generate_content_set_example =
    compose_session-generate_content_set insertion (pos 0) input (pos 2) "diaspora" ceil_law
      atoms-ids

abbrev selection : ContentAtom Decimal → ContentSelection Decimal
selection c = record { content = c; skill_id = "cases"; role = no_role; is_review = false }

abbrev monotone : List (ContentSelection Decimal)
monotone = map (λ n. selection (atom n "cloze")) (1 ∷ 2 ∷ 3 ∷ 4 ∷ [])

-- A run of four at the end stays.
enforce_variety_tail : has_long_run (enforce_variety monotone) 3 ≡ true
unfolding enforce_variety has_long_run selections_type_match type_at
enforce_variety_tail = refl

enforce_variety-Perm_example :
    Perm monotone (enforce_variety monotone)
    × ((has_long_run monotone 3 ≡ true) ⊎ (enforce_variety monotone ≡ monotone))
enforce_variety-Perm_example = enforce_variety-Perm monotone

content_pool_lem_example : content_pool atoms learner (5 ∷ []) ≡ (
    if ltb (length (filter_content atoms learner (5 ∷ []))) 5
    then keep (λ c. not (has_id c.id (5 ∷ []))) atoms
    else filter_content atoms learner (5 ∷ []))
content_pool_lem_example = content_pool_lem atoms learner (5 ∷ [])
