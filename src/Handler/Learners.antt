-- ===== src/Handler/Learners.antt =====
-- services/api/internal/handler/profile.go, skills.go and stats.go: ProfileHandler, SkillsHandler and
-- StatsHandler, with the services of Handler/Sessions. The fields of a profile that no code reads
-- (display name, dates, hours) are in the request only as far as they are checked.
pub mod Profile
use Prim.Native.String.{len}
use ruskiy.Shared.{
  ℕ, ltb, not, ◌||◌, if◌then◌else◌, Bool, true, false, Option, none, some, String, str_eq, has,
  List, [], ◌∷◌, length, count_by,
}
use ruskiy.Shared.Int.{ℤ, pos}
use ruskiy.Platform.{Float}
use ruskiy.Model.{
  LearnerProfile, Skill, LearnerSkillState, SkillStatus, new, learning, relearning, review,
  mastered, fossilized,
}
use ruskiy.Engine.Xp.{level_from_xp}
use ruskiy.Middleware.Http.{Request, get_user_id}
use ruskiy.Store.Streak.{LearnerStats}
use ruskiy.Store.Database.{Tables}
use ruskiy.Store.Profiles
use ruskiy.Store.Profiles.{list_by_user_id}
use ruskiy.Store.Skills.{
  get_all, get_by_category, get_learner_skills, get_weakest, initialize_skills,
}
use ruskiy.Handler.Sessions.Submit.{kept_on_error}
use ruskiy.Handler.Sessions.{
  Services, ask, find_profile, list_profiles, find_skills, find_weak, init_skills, insert_profile,
  list_skills,
}
use ruskiy.Handler.Sessions.Submit.{stats_of}

pub record CreateProfileRequest : Type 0 where
  pub display_name : String
  pub segment : String
  pub domain : String
  pub target_level : String

pub record Stats : Type 0 where
  pub streak_days : ℕ
  pub longest_streak : ℕ
  pub total_xp : ℤ
  pub level : ℕ
  pub total_sessions : ℕ
  pub skills_mastered : ℕ
  pub skills_learning : ℕ
  pub total_skills : ℕ
  pub current_level : String
  pub learner_id : String

pub data LearnerAnswer (F : Type 0) : Type 0 where
  refused : (status : ℕ) → (error : String) → LearnerAnswer F
  profile : (status : ℕ) → LearnerProfile → LearnerAnswer F
  profiles : List LearnerProfile → LearnerAnswer F
  skills : List Skill → LearnerAnswer F
  skill_states : List (LearnerSkillState F) → LearnerAnswer F
  stats : Stats → LearnerAnswer F
  zero_stats : LearnerAnswer F

abbrev pub valid_segments : List String
valid_segments = "teen" ∷ "migrant" ∷ "uni_prep" ∷ "kid" ∷ "senior" ∷ "professional" ∷ []

abbrev pub valid_levels : List String
valid_levels = "A1" ∷ "A2" ∷ "B1" ∷ "B2" ∷ "C1" ∷ "C2" ∷ []

-- The error of the checks on a request, in their order; `len` counts bytes.
unfoldable pub profile_error : CreateProfileRequest → Option String
profile_error req =
    if str_eq req.display_name "" || str_eq req.segment "" || str_eq req.target_level ""
    then some "displayName, segment, and targetLevel are required"
    else if ltb 100 (len req.display_name)
    then some "displayName must be 100 characters or fewer"
    else if not (has req.segment valid_segments)
    then some "invalid segment value"
    else if not (has req.target_level valid_levels)
    then some "invalid targetLevel value"
    else none

-- uid, _ := uuid.Parse(userID): the nil UUID on an error.
abbrev pub uuid_or_nil : Option String → String
uuid_or_nil none = "00000000-0000-0000-0000-000000000000"
uuid_or_nil (some u) = u

abbrev pub is_mastered : SkillStatus → Bool
is_mastered mastered = true
is_mastered _ = false

abbrev pub is_learning : SkillStatus → Bool
is_learning learning = true
is_learning review = true
is_learning _ = false

abbrev pub first_of : List LearnerProfile → Option LearnerProfile
first_of [] = none
first_of (p ∷ _) = some p

module _ {F : Type 0} (env : Services F) where
  -- The UUID of the profile is the one that the database gets; `new_uuid` is its text.
  abbrev pub new_profile : (new_uuid user : String) → CreateProfileRequest → LearnerProfile
  new_profile new_uuid user req = record {
    id = new_uuid;
    user_id = uuid_or_nil (env.parse_uuid user);
    segment = req.segment;
    domain = if str_eq req.domain "" then "general" else req.domain;
    current_level = "A1";
  }

  abbrev pub first_profile : Request → Tables F → Option LearnerProfile
  first_profile r t =
      let rows =
        ask env list_profiles []
          (list_by_user_id (uuid_or_nil (env.parse_uuid (get_user_id r))) t) in
      first_of rows

  -- ProfileHandler.Get; `none` is an ID that is no UUID.
  unfoldable pub get_profile : Option String → Request → Tables F → LearnerAnswer F
  unfolding Profiles.get_by_id
  get_profile none r t =
      if str_eq (get_user_id r) ""
      then refused 401 "unauthorized"
      else refused 400 "invalid profile ID"
  get_profile (some id) r t =
      if str_eq (get_user_id r) ""
      then refused 401 "unauthorized"
      else elim (ask env find_profile none (Profiles.get_by_id id t)) [
        | none ↦ refused 404 "profile not found"
        | some p ↦
            if not (str_eq p.user_id (get_user_id r))
            then refused 403 "access denied"
            else profile 200 p
      ]

  unfoldable pub list_by_user : Request → Tables F → LearnerAnswer F
  list_by_user r t =
      if str_eq (get_user_id r) ""
      then refused 401 "unauthorized"
      else if env.fails list_profiles
      then refused 500 "failed to list profiles"
      else profiles (list_by_user_id (uuid_or_nil (env.parse_uuid (get_user_id r))) t)

  unfoldable pub list_all : Tables F → LearnerAnswer F
  list_all t =
      if env.fails list_skills
      then refused 500 "failed to fetch skills"
      else skills (get_all env.pg t)

  unfoldable pub list_by_category : String → Tables F → LearnerAnswer F
  list_by_category category t =
      if str_eq category ""
      then refused 400 "category query parameter required"
      else if env.fails list_skills
      then refused 500 "failed to fetch skills"
      else skills (get_by_category env.pg category t)

  abbrev pub states_or_error :
      Bool → (error : String) → List (LearnerSkillState F) → LearnerAnswer F
  states_or_error failed error states = if failed then refused 500 error else skill_states states

  unfoldable pub learner_skills : Request → Tables F → LearnerAnswer F
  learner_skills r t =
      let found : LearnerAnswer F = elim (first_profile r t) [
        | none ↦ skill_states []
        | some p ↦
            states_or_error (env.fails find_skills) "failed to fetch skill states"
              (get_learner_skills env.pg p.id t)
      ] in
      if str_eq (get_user_id r) "" then refused 401 "unauthorized" else found

module _ {F : Type 0} ⦃fl : Float F⦄ (env : Services F) where
  -- Behind the checks: `has_user` is what the database asks of the row.
  abbrev pub store_profile :
      (has_user : String → Bool) → LearnerProfile → Tables F → LearnerAnswer F × Tables F
  store_profile has_user p t = elim (ask env insert_profile none (Profiles.create has_user p t)) [
    | none ↦ (refused 500 "failed to create profile", t)
    | some t' ↦ (
      profile 201 p,
      kept_on_error (env.fails init_skills)
          (initialize_skills env.pg (env.clock 1) p.id p.current_level t') t',
    )
  ]

  unfoldable pub create_profile :
      (has_user : String → Bool)
      → (new_uuid : String) → Option CreateProfileRequest
      → Request
      → Tables F
      → LearnerAnswer F × Tables F
  unfolding profile_error Profiles.create initialize_skills
  create_profile has_user new_uuid none r t =
      if str_eq (get_user_id r) ""
      then (refused 401 "unauthorized", t)
      else (refused 400 "invalid request body", t)
  create_profile has_user new_uuid (some req) r t =
      if str_eq (get_user_id r) ""
      then (refused 401 "unauthorized", t)
      else elim (profile_error req) [
        | some error ↦ (refused 400 error, t)
        | none ↦ store_profile has_user (new_profile env new_uuid (get_user_id r) req) t
      ]

  unfoldable pub weak_skills : Request → Tables F → LearnerAnswer F
  weak_skills r t =
      let found : LearnerAnswer F = elim (first_profile env r t) [
        | none ↦ skill_states []
        | some p ↦
            states_or_error env (env.fails find_weak) "failed to fetch weak skills"
              (get_weakest env.pg p.id 10 t)
      ] in
      if str_eq (get_user_id r) "" then refused 401 "unauthorized" else found

  abbrev pub stats_for : LearnerProfile → Tables F → Stats
  stats_for p t =
      let row = stats_of env p.id t in
      let states = ask env find_skills [] (get_learner_skills env.pg p.id t) in
      record {
        streak_days = row.current_streak;
        longest_streak = row.longest_streak;
        total_xp = row.total_xp;
        level = level_from_xp F row.total_xp;
        total_sessions = row.total_sessions;
        skills_mastered = count_by (λ s. is_mastered s.status) states;
        skills_learning = count_by (λ s. is_learning s.status) states;
        total_skills = length states;
        current_level = p.current_level;
        learner_id = p.id;
      }

  unfoldable pub learner_stats : Request → Tables F → LearnerAnswer F
  learner_stats r t =
      let found : LearnerAnswer F = elim (first_profile env r t) [
        | none ↦ zero_stats
        | some p ↦ stats (stats_for p t)
      ] in
      if str_eq (get_user_id r) "" then refused 401 "unauthorized" else found
