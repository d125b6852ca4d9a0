-- ===== src/Tests/Requests.antt =====
-- Inputs for the theorems on the handlers of sessions, placement tests and profiles, and on the tables.
use ruskiy.Shared.{
  ◌+◌, Bool, true, false, none, some, String, str_eq_iff, List, [], ◌∷◌, length, get_elem?,
  count_by, All, if◌then◌else◌, ◌≡◌, ◌≢◌, ◌≤◌, refl, arith, ◌⊎◌,
}
use ruskiy.Shared.Int.{pos}
use ruskiy.Model.{
  LearnerProfile, Skill, LearnerSkillState, Session, active, review, ExerciseResult,
  SkillTestResult,
}
use ruskiy.Middleware.Http.{Request, get_user_id}
use ruskiy.Store.Database.{Tables, Postgres}
use ruskiy.Store.Sessions
use ruskiy.Store.Sessions.{
  create_session_items, create_session_with_items, insert_items, insert_item, inserted_session,
}
use ruskiy.Store.Profiles
use ruskiy.Store.Profiles.{domains}
use ruskiy.Store.Content
use ruskiy.Store.Content.{get_by_skills_any}
use ruskiy.Store.Skills.{
  get_learner_skill, upsert_learner_skill, stored_state, put_row, initialize_skills, initial_row,
  threshold, levels_within, cefr_order,
}
use ruskiy.Store.Skills.Laws.{upsert_learner_skill-get_learner_skill}
use ruskiy.Store.Skills.Initial.{or_some, offered, initialize_skills-get_learner_skill}
use ruskiy.Handler.Sessions.{Services, get_state}
use ruskiy.Handler.Sessions.Access.{Owner, Denied, get_state-submit-complete-Owner}
use ruskiy.Handler.Sessions.Submit.{submit}
use ruskiy.Handler.Sessions.Submit.Progress.{
  Requests, Progress, submit_all, all_counted, all_points, submit_all-Progress,
}
use ruskiy.Handler.Sessions.Submit.Lapses.{submit-lapse}
use ruskiy.Handler.Sessions.Complete.{complete}
use ruskiy.Handler.Sessions.Complete.Repeats.{Again, complete_all, complete_all-Again}
use ruskiy.Handler.Placement.{
  stages, all_items, min_passes, generate_placement, submit_placement, stage_items, pick_atom,
}
use ruskiy.Handler.Placement.Settled.{answered_right, Outcome, submit_placement-Outcome}
use ruskiy.Handler.Placement.Letters.{of_stage}
use ruskiy.Handler.Placement.Fits.{Fits, generate_placement-Fits}
use ruskiy.Handler.Learners.{
  CreateProfileRequest, profile, refused as profile_refused, new_profile, create_profile,
  profile_error,
}
use ruskiy.Handler.Learners.Profile.{create_profile-get_by_id}
use ruskiy.Tests.Decimals.{Decimal, dec, decimal_float, decimal_laws, insertion}
use ruskiy.Tests.Sessions.{atom}

abbrev no_order : String → String → Bool
no_order a b = false

abbrev postgres : Postgres Decimal
postgres = record {
  order_by = insertion;
  text_lt = no_order;
  numeric = λ n x. x;
  timestamptz = λ at. at;
}

abbrev services : Services Decimal
services = record {
  pg = postgres;
  fails = λ s. false;
  sorting = insertion;
  intn = λ i n. 0;
  new_id = λ n. 50 + n;
  clock = λ n. pos 9;
  today = 1;
  whole_seconds = λ d. d;
  parse_uuid = λ u. some u;
  classify = none;
}

abbrev request_of : String → Request
request_of user = record {
  method = "POST";
  path = "/";
  authorization = "";
  user_id_header = none;
  user_id_key = some user;
  role_key = none;
  account_tier_key = none;
}

abbrev ann : LearnerProfile
ann = record {
  id = "ann";
  user_id = "u";
  segment = "teen";
  domain = "general";
  current_level = "A1";
}

abbrev cases_skill : Skill
cases_skill = record {
  skill_id = "cases";
  category = "grammar";
  subcategory = "cases";
  cefr_level = "A1";
  prerequisites = [];
}

abbrev cases_state : LearnerSkillState Decimal
cases_state = record {
  learner_id = "ann";
  skill_id = "cases";
  confidence = dec 9 1;
  stability = dec 1 0;
  difficulty = dec 5 1;
  last_reviewed = none;
  next_review_due = none;
  total_attempts = 8;
  correct_streak = 3;
  error_count = 1;
  error_types = [];
  status = review;
  reps = 8;
  lapses = 1;
}

abbrev session_one : Session Decimal
session_one = record {
  id = 1;
  learner_id = "ann";
  status = active;
  current_index = 0;
  total_xp = pos 0;
  started_at = pos 0;
  completed_at = none;
  duration = pos 0;
  accuracy_rate = dec 0 0;
}

abbrev tables : Tables Decimal
tables = record {
  profiles = ann ∷ [];
  skills = cases_skill ∷ [];
  learner_skills = cases_state ∷ [];
  content = atom 7 "cases" ∷ [];
  sessions = session_one ∷ [];
  session_items = [];
  results = [];
  streaks = λ l. none;
}

abbrev wrong_answer : ExerciseResult
wrong_answer = record {
  id = 0;
  session_id = 0;
  content_id = 7;
  learner_id = "ann";
  response = "a";
  correct_answer = "b";
  is_correct = false;
  error_type = none;
  response_time_ms = pos 900;
  hint_level_used = pos 0;
  xp_earned = pos 0;
  timestamp = pos 0;
}

get_state-submit-complete-Owner_example :
    (Denied services tables (get_state services (some 1) (request_of "v") tables)
      ⊎ Owner services (request_of "v") 1 tables)
    × (Denied services tables (submit services (some 1) (some wrong_answer) (request_of "v") tables)
        ⊎ Owner services (request_of "v") 1 tables)
    × (Denied services tables (complete services (some 1) (request_of "v") tables)
        ⊎ Owner services (request_of "v") 1 tables)
get_state-submit-complete-Owner_example =
    get_state-submit-complete-Owner services 1 wrong_answer (request_of "v") tables

abbrev two_requests : Requests Decimal
two_requests = (services, request_of "u", some wrong_answer) ∷ (services, request_of "v", none) ∷ []

submit_all-Progress_example :
    let (answers, t') = submit_all 1 two_requests tables in
    Progress 1 (all_counted answers) (all_points answers) tables t'
submit_all-Progress_example =
    submit_all-Progress 1 two_requests tables (refl, refl, (refl, refl, tt))

submit-lapse_example :
    (submit services (some 1) (some wrong_answer) (request_of "u") tables).1.learner_skills
    ≡ cases_state ∷ []
unfolding Content.get_by_id get_learner_skill
submit-lapse_example =
    submit-lapse decimal_laws services 1 wrong_answer (request_of "u") tables refl
      (λ s e. ground (arith, e))

abbrev two_completions : List (Services Decimal × Request)
two_completions = (services, request_of "u") ∷ (services, request_of "u") ∷ []

complete_all-Again_example :
    let (n, t') = complete_all 1 two_completions tables in Again 1 n session_one tables t'
unfolding Sessions.get_by_id
complete_all-Again_example = complete_all-Again 1 two_completions session_one tables refl

abbrev unstarted : Tables Decimal
unstarted = record tables { learner_skills = [] }

abbrev bob : String
bob = "bob"

bob_ne : bob ≢ "ann"
bob_ne e = absurd (ground (arith, (str_eq_iff "bob" "ann").1 e))

initialize_skills-get_learner_skill_example :
    (t' : Tables Decimal) × (initialize_skills postgres (pos 9) "ann" "B1" unstarted ≡ some t')
    × (get_learner_skill "ann" "cases" t'
        ≡ or_some (get_learner_skill "ann" "cases" unstarted) (
            if offered (levels_within cefr_order (threshold "B1")) unstarted.skills "cases"
            then some (initial_row postgres "ann" (pos 9) "cases")
            else none))
    × (get_learner_skill "bob" "cases" t' ≡ get_learner_skill "bob" "cases" unstarted)
initialize_skills-get_learner_skill_example =
    initialize_skills-get_learner_skill postgres (pos 9) "ann" "B1" unstarted "bob" "cases" refl
      bob_ne

abbrev after_upsert : Tables Decimal
after_upsert = record tables { learner_skills = record cases_state { total_attempts = 9 } ∷ [] }

upsert_learner_skill-get_learner_skill_example :
    get_learner_skill "ann" "cases" after_upsert
    ≡ some (stored_state postgres "ann" (record cases_state { total_attempts = 9 }))
unfolding upsert_learner_skill put_row
upsert_learner_skill-get_learner_skill_example =
    upsert_learner_skill-get_learner_skill postgres "ann"
      (record cases_state { total_attempts = 9 }) "ann" "cases" tables after_upsert refl

abbrev right_result : List SkillTestResult
right_result = record { skill_id = "cases"; is_correct = true; cefr_level = "A1" } ∷ []

submit_placement-Outcome_example :
    let (answer, t') = submit_placement services (some ("ann", right_result, pos 0)) tables in
    (s' : LearnerSkillState Decimal) × (get_learner_skill "ann" "cases" t' ≡ some s')
    × Outcome postgres (answered_right right_result "cases") cases_state s'
unfolding Profiles.get_by_id get_learner_skill
submit_placement-Outcome_example =
    submit_placement-Outcome services "ann" ann tables refl right_result (pos 0) "cases" cases_state
      refl refl refl refl refl refl refl

-- Content for the first two stages.
abbrev letters : Tables Decimal
letters = record tables {
  content = atom 7 "cases" ∷ atom 8 "script.cyrillic.cognates" ∷ atom 9 "vocab.greetings" ∷ [];
}

two_questions : length (all_items services 0 stages letters) ≡ 2
unfolding get_by_skills_any stage_items pick_atom insertion
two_questions = refl

generate_placement-Fits_example :
    (length (all_items services 0 stages letters) ≤ 14)
    × (length (all_items services 0 stages letters) ≡ length (all_items services 0 stages letters))
    × All Fits (all_items services 0 stages letters)
    × (count_by (of_stage 0) (all_items services 0 stages letters) ≤ 1)
    × (get_elem? (min_passes stages) 0 ≡ some 2)
unfolding generate_placement Profiles.get_by_id
generate_placement-Fits_example =
    generate_placement-Fits services "ann" "ann" letters (all_items services 0 stages letters)
      (length (all_items services 0 stages letters)) (min_passes stages) refl

abbrev wish : CreateProfileRequest
wish = record { display_name = "Ann"; segment = "teen"; domain = ""; target_level = "B2" }

abbrev owner : String
owner = "u"

u_ne : owner ≢ ""
u_ne e = absurd (ground (arith, (str_eq_iff "u" "").1 e))

create_profile-get_by_id_example :
    let p = new_profile services "new" "u" wish in
    let result = create_profile services (λ u. true) "new" (some wish) (request_of "u") tables in
    ((wish.segment ≢ "professional")
      × (result.0 ≡ profile 201 p)
      × (Profiles.get_by_id "new" result.1 ≡ some p))
    ⊎ ((wish.segment ≡ "professional")
        × (result ≡ (profile_refused 500 "failed to create profile", tables)))
unfolding get_user_id profile_error
create_profile-get_by_id_example =
    create_profile-get_by_id services (λ u. true) "new" wish (request_of "u") tables u_ne refl refl
      refl refl refl
