-- ===== src/Engine/Fsrs/Bounds.antt =====
-- fsrs.go: the ranges of difficulty, confidence, stability and grades, and the status after a review.
use ruskiy.Shared.{
  ◌≤◌, if_elim, Bool, true, false, Option, String, ◌≡◌, ◌≢◌, ◌⊎◌, inl, inr, arith, Bool-cases,
}
use ruskiy.Shared.Int.{ℤ}
use ruskiy.Platform.{Float, FloatLaws}
use ruskiy.Model.{LearnerSkillState, ExerciseResult, new, relearning, mastered, fossilized}
use ruskiy.Engine.Fsrs.{
  constrain, is_pass, grade_from_result, new_difficulty, new_confidence, pass_avoidance,
  pass_status, pass_normal, lapse, review_outcome, count_review, update_skill_state, max_stability,
  min_stability, is_error, retrievability, elapsed_days,
}

module _ {F : Type 0} ⦃fl : Float F⦄ where
  -- Neither below `lo` nor above `hi`.
  abbrev pub Within : F → F → F → Type 0
  Within lo hi x = (fl.lt x lo ≡ false) × (fl.lt hi x ≡ false)

  abbrev pub Unital : F → Type 0
  Unital = Within (fl.lit 0 0) (fl.lit 1 0)

  module _ (laws : FloatLaws F) where
    open laws use {lt_irrefl, lit_lt, lit_le, fmin_right, fmax_right}

    constrain-Within : (x lo hi : F) → fl.lt hi lo ≡ false → Within lo hi (constrain x lo hi)
    unfolding constrain
    constrain-Within x lo hi h = ground (arith, lt_irrefl lo, lt_irrefl hi)

    zero_le_one : fl.lt (fl.lit 1 0) (fl.lit 0 0) ≡ false
    zero_le_one = lit_lt 1 0 0 0 (omega arith) (omega arith) (omega arith) (omega arith)

    new_difficulty-Unital : (d score : F) (et : Option String) → Unital (new_difficulty d score et)
    unfolding new_difficulty
    new_difficulty-Unital d score et = constrain-Within _ (fl.lit 0 0) (fl.lit 1 0) zero_le_one

    new_confidence-Unital : (retr score : F) → Unital (new_confidence retr score)
    new_confidence-Unital retr score = constrain-Within _ (fl.lit 0 0) (fl.lit 1 0) zero_le_one

    -- The ranges after a review, by its outcome.
    record Ranges (s : LearnerSkillState F) (pass : Bool) : Type 0 where
      pub difficulty : Unital s.difficulty
      pub confidence : Unital s.confidence
      pub stability_le : pass ≡ true → fl.lt max_stability s.stability ≡ false
      pub stability_ge : pass ≡ false → fl.lt s.stability min_stability ≡ false

    abbrev pub InRange : LearnerSkillState F → Bool → Type 0
    InRange s pass =
        Unital s.difficulty
        × Unital s.confidence
        × (((pass ≡ true) × (fl.lt max_stability s.stability ≡ false))
            ⊎ ((pass ≡ false) × (fl.lt s.stability min_stability ≡ false)))

    review_outcome-Ranges :
        (s : LearnerSkillState F) (score : F) (et : Option String) (retr : F)
        → Unital s.difficulty
        → Unital s.confidence
        → Ranges (review_outcome s score et retr) (is_pass score)
    unfolding review_outcome
    review_outcome-Ranges s score et retr d c = elim (Bool-cases (is_pass score)) [
      | inl p ↦ rw p (
          if_elim (λ t. Ranges t true) (is_error "avoidance" et) (pass_avoidance s retr score)
            (pass_normal s retr score)
            (λ _.
              unfold pass_avoidance in
              record {
                difficulty = d;
                confidence = c;
                stability_le = λ _. fmin_right _ _;
                stability_ge = λ e. cc;
              })
            (λ _.
              unfold pass_normal in
              record {
                difficulty = d;
                confidence = new_confidence-Unital retr score;
                stability_le = λ _. fmin_right _ _;
                stability_ge = λ e. cc;
              }))
      | inr p ↦ rw p (
          unfold lapse in
          record {
            difficulty = d;
            confidence = new_confidence-Unital retr score;
            stability_le = λ e. cc;
            stability_ge = λ _. fmax_right _ _;
          })
    ]

    -- After UpdateSkillState, whatever the grade, the error type and the times: the difficulty is
    -- neither below 0 nor above 1; the confidence is neither, if it was neither before; after a pass
    -- the stability is not above MaxStability, and after a lapse not below MinStability.
    pub update_skill_state-InRange :
        (s : LearnerSkillState F) (score : F) (et : Option String) (now : ℤ)
        → Unital s.confidence
        → InRange (update_skill_state s score et now) (is_pass score)
    unfolding update_skill_state count_review
    update_skill_state-InRange s score et now c =
        let d = new_difficulty s.difficulty score et in
        let r =
          review_outcome-Ranges (record s { difficulty = d }) score et
            (retrievability s.stability (elapsed_days s.last_reviewed now))
            (new_difficulty-Unital s.difficulty score et) c in
        (
          r.difficulty,
          r.confidence,
          elim (Bool-cases (is_pass score)) [
            | inl pass ↦ inl (pass, r.stability_le pass)
            | inr fail ↦ inr (fail, r.stability_ge fail)
          ],
        )

    -- GradeFromResult gives a wrong answer a failing grade, and a right one a grade that is not below
    -- 2, however many hints it took and however slow it was.
    grade_from_result_lem :
        (r : ExerciseResult)
        → ((r.is_correct ≡ false) × (is_pass {F = F} (grade_from_result r) ≡ false))
          ⊎ ((r.is_correct ≡ true) × (fl.lt (grade_from_result {F = F} r) (fl.lit 2 0) ≡ false))
    unfolding grade_from_result is_pass
    grade_from_result_lem r = elim (Bool-cases r.is_correct) [
      | inr e ↦
          inl (e, rw e (lit_le 2 0 1 0 (omega arith) (omega arith) (omega arith) (omega arith)))
      | inl e ↦ inr (
        e,
        rw e (
            if_elim (λ x. fl.lt x (fl.lit 2 0) ≡ false) _ (fl.lit 2 0) _ (λ _. lt_irrefl _)
              (λ h. h)),
      )
    ]

  abbrev pub Mastery : LearnerSkillState F → LearnerSkillState F → Option String → Type 0
  Mastery s s' et =
      (s'.status ≢ mastered)
      ⊎ (s.status ≡ mastered)
      ⊎ ((fl.le (fl.lit 9 1) s'.confidence ≡ true)
          × (5 ≤ s'.correct_streak)
          × (is_error "avoidance" et ≡ false))

  review_outcome_ne_new :
      (s : LearnerSkillState F) (score : F) (et : Option String) (retr : F)
      → (review_outcome s score et retr).status ≢ new
  unfolding review_outcome pass_avoidance pass_normal pass_status lapse
  review_outcome_ne_new s score et retr = ground arith

  review_outcome-Mastery :
      (s : LearnerSkillState F) (score : F) (et : Option String) (retr : F)
      → Mastery s (review_outcome s score et retr) et
  unfolding review_outcome pass_avoidance pass_normal pass_status lapse
  review_outcome-Mastery s score et retr = ground arith

  review_outcome-lapse :
      (s : LearnerSkillState F) (score : F) (et : Option String) (retr : F)
      → is_pass score ≡ false
      → let st = (review_outcome s score et retr).status in (st ≡ relearning) ⊎ (st ≡ fossilized)
  unfolding review_outcome lapse
  review_outcome-lapse s score et retr p = ground arith

  -- A review never leaves a skill new. It leaves it mastered only if it was so before, or if the error
  -- is no avoidance, the new confidence is at least 0.9 and the streak at least 5; a failing grade
  -- makes it relearning or fossilized.
  update_skill_state-status :
      (s : LearnerSkillState F) (score : F) (et : Option String) (now : ℤ)
      → let s' = update_skill_state s score et now in
        (s'.status ≢ new)
        × Mastery s s' et
        × ((is_pass score ≡ true) ⊎ (s'.status ≡ relearning) ⊎ (s'.status ≡ fossilized))
  unfolding update_skill_state count_review
  update_skill_state-status s score et now =
      let s1 = record s { difficulty = new_difficulty s.difficulty score et } in
      let retr = retrievability s.stability (elapsed_days s.last_reviewed now) in
      (
        review_outcome_ne_new s1 score et retr,
        review_outcome-Mastery s1 score et retr,
        elim (Bool-cases (is_pass score)) [
          | inl pass ↦ inl pass
          | inr fail ↦ inr (review_outcome-lapse s1 score et retr fail)
        ],
      )
