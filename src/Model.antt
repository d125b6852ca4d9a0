-- ===== src/Model.antt =====
-- The data of services/api/internal/model that the engine works on: learner.go, skill.go,
-- content.go and session.go. A UUID is the number that its bytes spell, so 0 is the nil UUID; a
-- string type whose values come from outside (level, segment, domain, exercise type, error type) is
-- a String; the roles and the statuses that the engine assigns are data types. The UUID of a learner
-- or of a user is its text. Fields that no modelled code reads (payloads, media, names, creation
-- times) are left out.
use ruskiy.Shared.{ℕ, Bool, true, false, List, [], Option, none, String}
use ruskiy.Shared.Int.{ℤ, pos}
use ruskiy.Platform.{Float}

-- `no_role` is the zero value "", which a freshly made slice holds.
pub data SessionItemRole : Type 0 where
  no_role warmup ramp core relief challenge cooldown : SessionItemRole

abbrev pub is_warmup : SessionItemRole → Bool
is_warmup warmup = true
is_warmup _ = false

abbrev pub is_cooldown : SessionItemRole → Bool
is_cooldown cooldown = true
is_cooldown _ = false

pub data SkillStatus : Type 0 where
  new learning relearning review mastered fossilized : SkillStatus

abbrev pub is_new : SkillStatus → Bool
is_new new = true
is_new _ = false

abbrev pub is_fossilized : SkillStatus → Bool
is_fossilized fossilized = true
is_fossilized _ = false

-- Times are nanoseconds, and `none` is a nil pointer.
pub record LearnerSkillState (F : Type 0) : Type 0 where
  pub learner_id : String
  pub skill_id : String
  pub confidence : F
  pub stability : F
  pub difficulty : F
  pub last_reviewed : Option ℤ
  pub next_review_due : Option ℤ
  pub total_attempts : ℕ
  pub correct_streak : ℕ
  pub error_count : ℕ
  pub error_types : List String
  pub status : SkillStatus
  pub reps : ℕ
  pub lapses : ℕ

pub record ContentAtom (F : Type 0) : Type 0 where
  pub id : ℕ
  pub exercise_type : Option String
  pub target_skills : List String
  pub cefr_level : String
  pub segment_tags : List String
  pub domain_tags : List String
  pub difficulty : F
  pub estimated_time : ℤ
  pub quality_score : F
  pub usage_count : ℕ

pub record LearnerProfile : Type 0 where
  pub id : String
  pub user_id : String
  pub segment : String
  pub domain : String
  pub current_level : String

pub record Skill : Type 0 where
  pub skill_id : String
  pub category : String
  pub subcategory : String
  pub cefr_level : String
  pub prerequisites : List String

pub record ExerciseResult : Type 0 where
  pub id : ℕ
  pub session_id : ℕ
  pub content_id : ℕ
  pub learner_id : String
  pub response : String
  pub correct_answer : String
  pub is_correct : Bool
  pub error_type : Option String
  pub response_time_ms : ℤ
  pub hint_level_used : ℤ
  pub xp_earned : ℤ
  pub timestamp : ℤ

pub record SkillTestResult : Type 0 where
  pub skill_id : String
  pub is_correct : Bool
  pub cefr_level : String

pub data SessionStatus : Type 0 where
  generating active paused completed abandoned : SessionStatus

pub record Session (F : Type 0) : Type 0 where
  pub id : ℕ
  pub learner_id : String
  pub status : SessionStatus
  pub current_index : ℕ
  pub total_xp : ℤ
  pub started_at : ℤ
  pub completed_at : Option ℤ
  pub duration : ℤ
  pub accuracy_rate : F

pub record SessionItem : Type 0 where
  pub id : ℕ
  pub session_id : ℕ
  pub position : ℕ
  pub content_id : ℕ
  pub skill_id : String
  pub role : SessionItemRole
  pub completed : Bool

-- The zero value of ContentAtom.
abbrev pub zero_atom : {F : Type 0} ⦃fl : Float F⦄ → ContentAtom F
zero_atom ⦃fl⦄ = record {
  id = 0;
  exercise_type = none;
  target_skills = [];
  cefr_level = "";
  segment_tags = [];
  domain_tags = [];
  difficulty = fl.lit 0 0;
  estimated_time = pos 0;
  quality_score = fl.lit 0 0;
  usage_count = 0;
}
