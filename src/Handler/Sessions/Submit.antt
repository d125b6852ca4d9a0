-- ===== src/Handler/Sessions/Submit.antt =====
-- services/api/internal/handler/session.go: SessionHandler.Submit.
pub mod Progress
pub mod Lapses
use ruskiy.Shared.{
  ℕ, ◌+◌, not, if◌then◌else◌, Bool, true, false, Option, none, some, String, str_eq, List, [], ◌∷◌,
}
use ruskiy.Shared.Int.{ℤ, pos, ◌+ℤ◌}
use ruskiy.Platform.{Float}
use ruskiy.Model.{ContentAtom, LearnerSkillState, Session, ExerciseResult}
use ruskiy.Engine.Fsrs.{grade_from_result, update_skill_state}
use ruskiy.Engine.Xp.{calculate_xp}
use ruskiy.Middleware.Http.{Request}
use ruskiy.Store.Streak.{LearnerStats, get_stats}
use ruskiy.Store.Database.{Tables}
use ruskiy.Store.Sessions
use ruskiy.Store.Sessions.{save_result, update_session_state}
use ruskiy.Store.Skills.{get_learner_skill, upsert_learner_skill}
use ruskiy.Store.Content
use ruskiy.Handler.Sessions.{
  Services, Answer, refused, feedback, ask, with_session, find_content, find_skill, save_skill,
  find_streak, insert_result, find_session_again, update_session,
}

-- skillID, "" where there is no content or it has no target skills.
abbrev pub first_skill : {F : Type 0} → Option (ContentAtom F) → String
first_skill none = ""
first_skill (some c) = elim c.target_skills [ [] ↦ "" | s ∷ _ ↦ s ]

abbrev pub first_some : Option String → Option String → Option String
first_some none old = old
first_some (some t) old = some t

-- The tables after a statement whose error is only logged.
abbrev pub kept_on_error : {F : Type 0} → Bool → Option (Tables F) → Tables F → Tables F
kept_on_error true after t = t
kept_on_error false none t = t
kept_on_error false (some t') t = t'

abbrev pub earning : ℤ → ExerciseResult → ExerciseResult
earning xp r = record r { xp_earned = xp }

module _ {F : Type 0} ⦃fl : Float F⦄ where
  abbrev pub confidence_of : Option (LearnerSkillState F) → F
  confidence_of none = fl.lit 0 0
  confidence_of (some s) = s.confidence

  abbrev pub difficulty_of : Option (ContentAtom F) → F
  difficulty_of none = fl.lit 5 1
  difficulty_of (some c) = c.difficulty

  abbrev pub accuracy_after : Session F → Bool → F
  accuracy_after s is_correct =
      let before = fl.mul s.accuracy_rate (fl.of_int (pos s.current_index)) in
      fl.div (if is_correct then fl.add before (fl.lit 1 0) else before)
        (fl.of_int (pos (s.current_index + 1)))

module _ {F : Type 0} ⦃fl : Float F⦄ (env : Services F) where
  -- The error type of the ML service, if it answers.
  unfoldable pub classified : ExerciseResult → Option String
  classified r = if r.is_correct then r.error_type else elim env.classify [
    | none ↦ r.error_type
    | some ask_ml ↦ first_some (ask_ml r.response r.correct_answer) r.error_type
  ]

  -- The fields that the server sets, and the error type.
  abbrev pub received : ℕ → ExerciseResult → ExerciseResult
  received session_id r = record r {
    id = env.new_id 0;
    session_id = session_id;
    timestamp = env.clock 0;
    error_type = classified r;
  }

  abbrev pub content_of : ExerciseResult → Tables F → Option (ContentAtom F)
  content_of r t = ask env find_content none (Content.get_by_id r.content_id t)

  abbrev pub skill_of : ExerciseResult → Tables F → Option (LearnerSkillState F)
  skill_of r t =
      let id = first_skill (content_of r t) in
      if str_eq id "" then none else ask env find_skill none (get_learner_skill r.learner_id id t)

  abbrev pub reviewed : ExerciseResult → LearnerSkillState F → LearnerSkillState F
  reviewed r s = update_skill_state s (grade_from_result r) r.error_type (env.clock 1)

  -- Step 3: the tables with the new state of the skill.
  unfoldable pub review_skill : ExerciseResult → Tables F → Tables F
  review_skill r t = elim (skill_of r t) [
    | none ↦ t
    | some s ↦
        kept_on_error (env.fails save_skill)
          (upsert_learner_skill env.pg r.learner_id (reviewed r s) t) t
  ]

  -- Get answers with zeros where the statement fails.
  abbrev pub stats_of : String → Tables F → LearnerStats
  stats_of learner t =
      if env.fails find_streak then get_stats learner (λ l. none) else get_stats learner t.streaks

  -- Step 4; the tables are those before the skill changes.
  unfoldable pub xp_of : ExerciseResult → Tables F → ℤ
  unfolding calculate_xp
  xp_of r t =
      calculate_xp r (difficulty_of (content_of r t)) (confidence_of (skill_of r t))
        (pos (stats_of r.learner_id t).current_streak)

  -- Step 6.
  unfoldable pub advance : ℕ → ExerciseResult → Tables F → Tables F
  advance id r t = elim (ask env find_session_again none (Sessions.get_by_id id t)) [
    | none ↦ t
    | some s ↦
        if env.fails update_session
        then t
        else update_session_state env.pg id (s.current_index + 1) (s.total_xp +ℤ r.xp_earned)
            (accuracy_after s r.is_correct) t
  ]

  -- Steps 5 and 6, behind the change of the skill.
  unfoldable pub record_result : ℕ → ExerciseResult → Tables F → Answer F × Tables F
  unfolding advance
  record_result id r t = elim (ask env insert_result none (save_result r t)) [
    | none ↦ (refused 500 "failed to save result", t)
    | some t' ↦ (feedback r r.xp_earned, advance id r t')
  ]

  -- Behind the check of the owner.
  unfoldable pub submit_result : ℕ → ExerciseResult → Tables F → Answer F × Tables F
  unfolding review_skill xp_of record_result
  submit_result id body t =
      let r = received id body in record_result id (earning (xp_of r t) r) (review_skill r t)

  unfoldable pub submit :
      Option ℕ → Option ExerciseResult → Request → Tables F → Answer F × Tables F
  unfolding submit_result
  submit none body r t = (refused 400 "invalid session ID", t)
  submit (some id) none r t = (refused 400 "invalid request body", t)
  submit (some id) (some body) r t = with_session env (some id) r t λ id s. submit_result id body t
