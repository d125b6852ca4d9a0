-- ===== src/Devserver.antt =====
-- services/api/cmd/devserver/main.go: the in-memory server. The mutex makes each handler one step, a Go map
-- is a function, but the sessions, which a handler lists, are rows in some order; a body that does not
-- decode leaves the fields that it has not set at zero, and so is not told apart. The payloads of the
-- seeded content, the leaderboard and the teacher's stubs are left out.
pub mod Accounts
pub mod Learners
pub mod Sessions
use ruskiy.Shared.{
  ℕ, zero, suc, ◌+◌, ◌-◌, ◌/◌, ltb, leb, if◌then◌else◌, Bool, true, false, Option, none, some,
  String, List, [], ◌∷◌, set, replicate,
}
use ruskiy.Shared.Int.{ℤ}
use ruskiy.Platform.{Float}
use ruskiy.Model.{
  LearnerProfile, Skill, LearnerSkillState, ContentAtom, Session, SessionItem, SessionItemRole,
  no_role, warmup, ramp, core, relief, cooldown,
}
use ruskiy.Engine.Session.Roles.{fill}

pub record User : Type 0 where
  pub id : String
  pub email : String
  pub password_hash : String
  pub created_at : ℤ
  pub account_type : String
  pub locale : String

pub record ExerciseResult : Type 0 where
  pub content_id : ℕ
  pub response : String
  pub correct_answer : String
  pub is_correct : Bool
  pub response_time_ms : ℤ
  pub hint_level_used : ℤ
  pub xp_earned : ℤ
  pub timestamp : ℤ

pub record LearnerStats : Type 0 where
  pub learner_id : String
  pub current_streak : ℕ
  pub longest_streak : ℕ
  pub total_sessions : ℕ
  pub total_xp : ℤ
  pub current_level : ℕ

-- A missing key reads `none`, or an empty slice.
pub record MemStore (F : Type 0) : Type 0 where
  pub users : String → Option User
  pub email_index : String → Option String
  pub profiles : String → Option LearnerProfile
  pub profiles_by_user : String → List String
  pub skills : List Skill
  pub learner_skills : String → List (LearnerSkillState F)
  pub content : List (ContentAtom F)
  pub sessions : List (Session F)
  pub session_items : ℕ → List SessionItem
  pub results : ℕ → List ExerciseResult
  pub streaks : String → Option LearnerStats

-- NewMemStore, with the skills and the content that Seed sets.
abbrev pub new_mem_store : {F : Type 0} → List Skill → List (ContentAtom F) → MemStore F
new_mem_store skills content = record {
  users = λ k. none;
  email_index = λ k. none;
  profiles = λ k. none;
  profiles_by_user = λ k. [];
  skills = skills;
  learner_skills = λ k. [];
  content = content;
  sessions = [];
  session_items = λ k. [];
  results = λ k. [];
  streaks = λ k. none;
}

module _ {F : Type 0} ⦃fl : Float F⦄ where
  unfoldable pub calculate_xp : Bool → F → ℤ
  calculate_xp is_correct difficulty =
      let diff_mult = fl.add (fl.lit 1 0) (fl.mul difficulty (fl.lit 15 1)) in
      let acc = if is_correct then fl.lit 1 0 else fl.lit 3 1 in
      fl.to_int (fl.round (fl.mul (fl.mul (fl.lit 10 0) diff_mult) acc))

-- The branches of assignRoles.
unfoldable pub assign_few : ℕ → List SessionItemRole → List SessionItemRole
assign_few count roles =
    let r1 = fill (count - 2) 1 core (set roles 0 warmup) in
    if ltb 1 count then set r1 (count - 1) cooldown else r1

unfoldable pub assign_some : ℕ → List SessionItemRole → List SessionItemRole
assign_some count roles =
    set (fill (count - 3) 2 core (set (set roles 0 warmup) 1 ramp)) (count - 1) cooldown

unfoldable pub assign_many : ℕ → List SessionItemRole → List SessionItemRole
assign_many count roles =
    let relief_idx = count / 2 + 1 in
    let r1 = set (set (set roles 0 warmup) 1 warmup) 2 ramp in
    let r2 = fill (relief_idx - 3) 3 core r1 in
    let r3 = if ltb relief_idx count then set r2 relief_idx relief else r2 in
    let r4 = fill (count - 1 - (relief_idx + 1)) (relief_idx + 1) core r3 in
    set r4 (count - 1) cooldown

-- For a count that is not negative.
unfoldable pub assign_roles : ℕ → List SessionItemRole
unfolding assign_few assign_some assign_many
assign_roles zero = []
assign_roles (suc n) =
    let count = suc n in
    let roles = replicate count no_role in
    if leb count 3
    then assign_few count roles
    else if leb count 5
    then assign_some count roles
    else assign_many count roles
