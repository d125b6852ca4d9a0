-- ===== src/Devserver/Learners.antt =====
-- services/api/cmd/devserver/main.go: /skills, /profiles, /stats, /skills/me and /skills/weak. A user
-- comes as the UUID that the handler parses, the nil UUID on an error.
use ruskiy.Shared.{
  ℕ, ltb, ◌||◌, ◌&&◌, not, if◌then◌else◌, Bool, Option, none, some, String, str_eq, put, List, [],
  ◌∷◌, ◌++◌, map, keep, take, length, count_by,
}
use ruskiy.Shared.Int.{ℤ, pos}
use ruskiy.Platform.{Float, SortSlice}
use ruskiy.Model.{LearnerProfile, Skill, LearnerSkillState, new, is_new}
use ruskiy.Handler.Learners.{is_mastered}
use ruskiy.Devserver.{MemStore, LearnerStats}

pub record ProfileRequest : Type 0 where
  pub segment : String
  pub domain : String

pub record StatsAnswer : Type 0 where
  pub current_level : ℕ
  pub total_xp : ℤ
  pub current_streak : ℕ
  pub total_skills : ℕ
  pub mastered_count : ℕ
  pub learning_count : ℕ

abbrev pub zero_stats : String → LearnerStats
zero_stats learner = record {
  learner_id = learner;
  current_streak = 0;
  longest_streak = 0;
  total_sessions = 0;
  total_xp = pos 0;
  current_level = 1;
}

abbrev pub first_or : {A : Type 0} → A → (String → A) → List String → A
first_or missing f [] = missing
first_or missing f (id ∷ _) = f id

abbrev pub profiles_at : List String → (String → Option LearnerProfile) → List LearnerProfile
profiles_at [] profiles = []
profiles_at (id ∷ ids) profiles = elim (profiles id) [
  | none ↦ profiles_at ids profiles
  | some p ↦ p ∷ profiles_at ids profiles
]

abbrev pub dev_profile : (id user : String) → ProfileRequest → LearnerProfile
dev_profile id user req = record {
  id = id;
  user_id = user;
  segment = req.segment;
  domain = if str_eq req.domain "" then "general" else req.domain;
  current_level = "A1";
}

module _ {F : Type 0} where
  unfoldable pub list_category : String → MemStore F → List Skill
  list_category category s = keep (λ k. str_eq category "" || str_eq k.category category) s.skills

  unfoldable pub list_profiles : (user : String) → MemStore F → List LearnerProfile
  list_profiles user s = profiles_at (s.profiles_by_user user) s.profiles

  unfoldable pub get_profile : (id : String) → MemStore F → Option LearnerProfile
  get_profile id s = s.profiles id

  -- The skills of the first profile of the user.
  unfoldable pub skills_me : (user : String) → MemStore F → List (LearnerSkillState F)
  skills_me user s = first_or [] s.learner_skills (s.profiles_by_user user)

  unfoldable pub stats : (user : String) → MemStore F → StatsAnswer
  unfolding skills_me
  stats user s =
      let found = first_or none s.streaks (s.profiles_by_user user) in
      let row : LearnerStats = elim found [ none ↦ zero_stats "" | some r ↦ r ] in
      let states = skills_me user s in
      record {
        current_level = row.current_level;
        total_xp = row.total_xp;
        current_streak = row.current_streak;
        total_skills = length states;
        mastered_count = count_by (λ k. is_mastered k.status) states;
        learning_count = count_by (λ k. not (is_mastered k.status) && not (is_new k.status)) states;
      }

module _ {F : Type 0} ⦃fl : Float F⦄ where
  abbrev pub dev_skill : (learner : String) → (now : ℤ) → Skill → LearnerSkillState F
  dev_skill learner now k = record {
    learner_id = learner;
    skill_id = k.skill_id;
    confidence = fl.lit 0 1;
    stability = fl.lit 4 1;
    difficulty = fl.lit 3 1;
    last_reviewed = none;
    next_review_due = some now;
    total_attempts = 0;
    correct_streak = 0;
    error_count = 0;
    error_types = [];
    status = new;
    reps = 0;
    lapses = 0;
  }

  unfoldable pub create_profile :
      (id user : String) → (now : ℤ) → ProfileRequest → MemStore F → LearnerProfile × MemStore F
  create_profile id user now req s =
      let p = dev_profile id user req in
      (
        p,
        record s {
          profiles = put id (some p) s.profiles;
          profiles_by_user = put user (s.profiles_by_user user ++ id ∷ []) s.profiles_by_user;
          learner_skills =
              put id (map (λ (k : Skill). dev_skill id now k) s.skills) s.learner_skills;
          streaks = put id (some (zero_stats id)) s.streaks;
        },
      )

  abbrev pub is_weak : LearnerSkillState F → Bool
  is_weak k = not (is_new k.status) && fl.lt k.confidence (fl.lit 5 1)

  unfoldable pub skills_weak : SortSlice → (user : String) → MemStore F → List (LearnerSkillState F)
  unfolding skills_me
  skills_weak sorting user s =
      let sorted =
        sorting.sort (LearnerSkillState F) (λ a b. fl.lt a.confidence b.confidence)
          (keep is_weak (skills_me user s)) in
      if ltb 5 (length sorted) then take 5 sorted else sorted
