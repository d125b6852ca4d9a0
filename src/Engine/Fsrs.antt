-- ===== src/Engine/Fsrs.antt =====
-- services/api/internal/engine/fsrs.go: the schedule of reviews. UpdateSkillState changes its skill in
-- place; here it returns the new state, and the time that time.Now gives is the argument `now`.
pub mod Bounds
pub mod History
use ruskiy.Shared.{
  ℕ, zero, suc, ◌+◌, ◌*◌, leb, not, ◌&&◌, ◌||◌, if◌then◌else◌, Bool, true, false, List, [], ◌∷◌,
  ◌++◌, has, Option, none, some, String, str_eq,
}
use ruskiy.Shared.Int.{ℤ, pos, ◌+ℤ◌, ◌-ℤ◌, ◌*ℤ◌, ltb_ℤ}
use ruskiy.Platform.{Float}
use ruskiy.Model.{
  LearnerSkillState, ExerciseResult, SkillStatus, new, learning, relearning, review, mastered,
  fossilized, is_new,
}

unfoldable pub append_unique : List String → String → List String
append_unique slice item = if has item slice then slice else slice ++ item ∷ []

-- et == t, for an error type that may be absent
abbrev pub is_error : String → Option String → Bool
is_error t none = false
is_error t (some et) = str_eq et t

module _ {F : Type 0} ⦃fl : Float F⦄ where
  abbrev pub initial_stability : F
  initial_stability = fl.lit 4 1

  abbrev pub initial_difficulty : F
  initial_difficulty = fl.lit 3 1

  abbrev pub lapse_factor : F
  lapse_factor = fl.lit 4 1

  abbrev pub fossil_lapse_factor : F
  fossil_lapse_factor = fl.lit 3 1

  abbrev pub min_stability : F
  min_stability = fl.lit 4 1

  abbrev pub max_stability : F
  max_stability = fl.lit 365 0

  abbrev pub desired_retention : F
  desired_retention = fl.lit 9 1

  abbrev pub stability_decay_base : F
  stability_decay_base = fl.lit 9 1

  -- A Grade is its score.
  unfoldable pub is_pass : F → Bool
  is_pass score = fl.le (fl.lit 2 0) score

  unfoldable pub constrain : F → F → F → F
  constrain value lo hi = if fl.lt value lo then lo else if fl.lt hi value then hi else value

  unfoldable pub grade_from_result : ExerciseResult → F
  grade_from_result r =
      let full = fl.lit 4 0 in
      let hinted =
        if ltb_ℤ (pos 0) r.hint_level_used
        then fl.sub full (fl.mul (fl.of_int r.hint_level_used) (fl.lit 5 1))
        else full in
      let timed =
        if ltb_ℤ (pos 10000) r.response_time_ms then fl.sub hinted (fl.lit 5 1) else hinted in
      let score = if fl.lt timed (fl.lit 2 0) then fl.lit 2 0 else timed in
      if r.is_correct then score else fl.lit 1 0

  unfoldable pub new_skill_state : String → String → ℤ → LearnerSkillState F
  new_skill_state learner skill now = record {
    learner_id = learner;
    skill_id = skill;
    confidence = fl.lit 0 0;
    stability = initial_stability;
    difficulty = initial_difficulty;
    last_reviewed = none;
    next_review_due = some now;
    total_attempts = 0;
    correct_streak = 0;
    error_count = 0;
    error_types = [];
    status = new;
    reps = 0;
    lapses = 0;
  }

  unfoldable pub retrievability : F → F → F
  retrievability stability elapsed_days =
      if fl.le elapsed_days (fl.lit 0 0)
      then fl.lit 1 0
      else fl.exp (fl.div (fl.neg elapsed_days) (fl.fmax stability min_stability))

  unfoldable pub error_type_modifier : String → F
  error_type_modifier et =
      if str_eq et "transfer"
      then fl.lit 5 2
      else if str_eq et "overgeneralization"
      then fl.lit 3 2
      else if str_eq et "avoidance"
      then fl.lit 8 2
      else if str_eq et "fossilization"
      then fl.lit 10 2
      else fl.lit 0 0

  unfoldable pub stability_increase_factor : F → F → F → F
  stability_increase_factor difficulty retr score =
      let one = fl.lit 1 0 in
      let difficulty_factor = fl.add one (fl.mul (fl.sub one difficulty) (fl.lit 5 1)) in
      let retrievability_factor = fl.add one (fl.mul (fl.sub one retr) (fl.lit 15 1)) in
      let grade_factor = fl.add (fl.lit 5 1) (fl.div score (fl.lit 4 0)) in
      fl.mul (fl.mul difficulty_factor retrievability_factor) grade_factor

  abbrev pub elapsed_days : Option ℤ → ℤ → F
  elapsed_days none now = fl.lit 0 0
  elapsed_days (some last) now = fl.div (fl.hours (now -ℤ last)) (fl.lit 24 0)

  -- The difficulty update.
  unfoldable pub new_difficulty : F → F → Option String → F
  unfolding constrain
  new_difficulty difficulty score error_type =
      let base = fl.sub difficulty (fl.mul (fl.lit 1 1) (fl.sub score (fl.lit 3 0))) in
      let bumped : F = elim error_type [
        | none ↦ base
        | some et ↦ fl.add base (error_type_modifier et)
      ] in
      constrain bumped (fl.lit 0 0) (fl.lit 1 0)

  abbrev pub new_confidence : F → F → F
  new_confidence retr score =
      constrain (fl.div (fl.mul retr score) (fl.lit 4 0)) (fl.lit 0 0) (fl.lit 1 0)

  -- The branch of a pass with an avoidance error. `s` has its new difficulty.
  unfoldable pub pass_avoidance : LearnerSkillState F → F → F → LearnerSkillState F
  pass_avoidance s retr score =
      let factor = stability_increase_factor s.difficulty retr score in
      let dampened = fl.add (fl.lit 1 0) (fl.mul (fl.sub factor (fl.lit 1 0)) (fl.lit 5 1)) in
      record s {
        correct_streak = s.correct_streak + 1;
        stability = fl.fmin (fl.mul s.stability dampened) max_stability;
        status = if is_new s.status then learning else s.status;
      }

  -- The status after a normal pass, from the new confidence and streak.
  unfoldable pub pass_status : SkillStatus → F → ℕ → SkillStatus
  pass_status status confidence streak =
      if fl.le (fl.lit 9 1) confidence && leb 5 streak
      then mastered
      else if is_new status
      then learning
      else if fl.le (fl.lit 7 1) confidence
      then review
      else status

  -- The branch of a normal pass.
  unfoldable pub pass_normal : LearnerSkillState F → F → F → LearnerSkillState F
  unfolding pass_status
  pass_normal s retr score =
      let factor = stability_increase_factor s.difficulty retr score in
      let confidence' = new_confidence retr score in
      record s {
        stability = fl.fmin (fl.mul s.stability factor) max_stability;
        correct_streak = s.correct_streak + 1;
        confidence = confidence';
        status = pass_status s.status confidence' (s.correct_streak + 1);
      }

  -- The branch of a lapse.
  unfoldable pub lapse : LearnerSkillState F → F → F → Bool → LearnerSkillState F
  lapse s retr score is_fossilization =
      let factor = if is_fossilization then fossil_lapse_factor else lapse_factor in
      record s {
        lapses = s.lapses + 1;
        correct_streak = 0;
        stability = fl.fmax (fl.mul s.stability factor) min_stability;
        confidence = new_confidence retr score;
        status = if leb 5 (s.lapses + 1) && leb 10 s.error_count then fossilized else relearning;
      }

  -- now.Add(time.Duration(days*24) * time.Hour)
  abbrev pub add_days : ℤ → F → ℤ
  add_days now days = now +ℤ fl.to_int (fl.mul days (fl.lit 24 0)) *ℤ pos 3_600_000_000_000

  unfoldable pub next_due : F → Bool → Bool → Bool → ℤ → ℤ
  next_due stability pass is_avoidance is_fossilization now =
      let interval =
        fl.div (fl.mul stability (fl.log desired_retention)) (fl.log stability_decay_base) in
      if not pass || is_fossilization
      then now
      else if is_avoidance
      then add_days now (fl.mul interval (fl.lit 5 1))
      else add_days now interval

  -- The counters and the list of error types.
  unfoldable pub count_review : LearnerSkillState F → Bool → Option String → LearnerSkillState F
  count_review s pass error_type = record s {
    total_attempts = s.total_attempts + 1;
    reps = s.reps + 1;
    error_count = if pass then s.error_count else s.error_count + 1;
    error_types =
        if pass
        then s.error_types
        else elim error_type [ none ↦ s.error_types | some et ↦ append_unique s.error_types et ];
  }

  -- The branches of the stability and status update.
  unfoldable pub review_outcome : LearnerSkillState F → F → Option String → F → LearnerSkillState F
  unfolding pass_avoidance pass_normal lapse
  review_outcome s score error_type retr =
      if is_pass score
      then if is_error "avoidance" error_type
        then pass_avoidance s retr score
        else pass_normal s retr score
      else lapse s retr score (is_error "fossilization" error_type)

  unfoldable pub update_skill_state :
      LearnerSkillState F → F → Option String → ℤ → LearnerSkillState F
  unfolding review_outcome count_review new_difficulty
  update_skill_state s score error_type now =
      let retr = retrievability s.stability (elapsed_days s.last_reviewed now) in
      let s1 = record s { difficulty = new_difficulty s.difficulty score error_type } in
      let s2 = review_outcome s1 score error_type retr in
      let due =
        next_due s2.stability (is_pass score) (is_error "avoidance" error_type)
          (is_error "fossilization" error_type) now in
      let s3 = count_review (record s2 { next_review_due = some due }) (is_pass score) error_type in
      record s3 { last_reviewed = some now }
