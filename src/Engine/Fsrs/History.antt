-- ===== src/Engine/Fsrs/History.antt =====
-- fsrs.go over a learner's whole history: the counters of a skill that starts with NewSkillState, and
-- when it becomes fossilized.
use ruskiy.Shared.{
  ℕ, ◌+◌, ◌≤◌, if◌then◌else◌, Bool, false, List, [], ◌∷◌, length, Option, String, ◌≡◌, ◌↔◌, refl,
  arith, ◌∙◌, sym,
}
use ruskiy.Shared.Int.{ℤ}
use ruskiy.Platform.{Float}
use ruskiy.Model.{LearnerSkillState, fossilized}
use ruskiy.Engine.Fsrs.{
  is_pass, pass_avoidance, pass_normal, lapse, review_outcome, count_review, update_skill_state,
  new_skill_state,
}

pub record Review (F : Type 0) : Type 0 where
  pub score : F
  pub error_type : Option String
  pub time : ℤ

module _ {F : Type 0} ⦃fl : Float F⦄ where
  -- The states that a list of reviews leads to, the first review first.
  pub practise : LearnerSkillState F → List (Review F) → LearnerSkillState F
  practise s [] = s
  practise s (r ∷ rs) = practise (update_skill_state s r.score r.error_type r.time) rs

  abbrev pub failures : List (Review F) → ℕ
  failures [] = 0
  failures (r ∷ rs) = (if is_pass r.score then 0 else 1) + failures rs

  -- The passes since the last failure, with `n` before the list.
  abbrev pub streak_from : ℕ → List (Review F) → ℕ
  streak_from n [] = n
  streak_from n (r ∷ rs) = streak_from (if is_pass r.score then n + 1 else 0) rs

  -- What one review does to the counters.
  record Counted (s s' : LearnerSkillState F) (pass : Bool) : Type 0 where
    attempts : s'.total_attempts ≡ s.total_attempts + 1
    reps : s'.reps ≡ s.reps + 1
    lapses : s'.lapses ≡ (if pass then s.lapses else s.lapses + 1)
    errors : s'.error_count ≡ (if pass then s.error_count else s.error_count + 1)
    streak : s'.correct_streak ≡ (if pass then s.correct_streak + 1 else 0)

  update_skill_state-Counted :
      (s : LearnerSkillState F) (score : F) (et : Option String) (now : ℤ)
      → Counted s (update_skill_state s score et now) (is_pass score)
  unfolding update_skill_state count_review review_outcome pass_avoidance pass_normal lapse
  update_skill_state-Counted s score et now = record {
    attempts = ground arith;
    reps = ground arith;
    lapses = ground arith;
    errors = ground arith;
    streak = ground arith;
  }

  -- The counters after a history, over those before it.
  pub record Totals (s s' : LearnerSkillState F) (rs : List (Review F)) : Type 0 where
    pub attempts : s'.total_attempts ≡ s.total_attempts + length rs
    pub reps : s'.reps ≡ s.reps + length rs
    pub lapses : s'.lapses ≡ s.lapses + failures rs
    pub errors : s'.error_count ≡ s.error_count + failures rs
    pub streak : s'.correct_streak ≡ streak_from s.correct_streak rs

  practise-Totals : (s : LearnerSkillState F) (rs : List (Review F)) → Totals s (practise s rs) rs
  unfolding practise
  practise-Totals s [] = record {
    attempts = omega arith;
    reps = omega arith;
    lapses = omega arith;
    errors = omega arith;
    streak = refl;
  }
  practise-Totals s (r ∷ rs) =
      let c = update_skill_state-Counted s r.score r.error_type r.time in
      let t = practise-Totals (update_skill_state s r.score r.error_type r.time) rs in
      record {
        attempts = omega (arith, c.attempts, t.attempts);
        reps = omega (arith, c.reps, t.reps);
        lapses = ground (arith, c.lapses, t.lapses);
        errors = ground (arith, c.errors, t.errors);
        streak = rw (← c.streak) t.streak;
      }

  -- A skill that starts with NewSkillState has, after any history of reviews, attempts and reps equal
  -- to the number of reviews, lapses and errors both equal to the number of failing grades, and a
  -- streak equal to the number of passes since the last failing one.
  new_skill_state-Totals :
      (learner skill : String) (created : ℤ) (rs : List (Review F))
      → let s = practise (new_skill_state learner skill created) rs in
        (s.total_attempts ≡ length rs)
        × (s.reps ≡ length rs)
        × (s.lapses ≡ failures rs)
        × (s.error_count ≡ failures rs)
        × (s.correct_streak ≡ streak_from 0 rs)
  unfolding new_skill_state
  new_skill_state-Totals learner skill created rs =
      let t = practise-Totals (new_skill_state learner skill created) rs in
      (
        omega (arith, t.attempts),
        omega (arith, t.reps),
        omega (arith, t.lapses),
        omega (arith, t.errors),
        t.streak,
      )

  lapse_status :
      (s : LearnerSkillState F) (score : F) (et : Option String) (now : ℤ)
      → is_pass score ≡ false
      → s.lapses ≡ s.error_count
      → ((update_skill_state s score et now).status ≡ fossilized) ↔ (10 ≤ s.error_count)
  unfolding update_skill_state count_review review_outcome lapse
  lapse_status s score et now p e = ground arith

  -- Such a skill is fossilized by a failing grade exactly when ten failing grades came before it, so
  -- at the eleventh one at the earliest, although the code also asks for only five lapses.
  pub fossilized_iff_ten_failures :
      (learner skill : String) (created : ℤ) (rs : List (Review F)) (score : F) (et : Option String)
      (now : ℤ)
      → is_pass score ≡ false
      → let s = practise (new_skill_state learner skill created) rs in
        ((update_skill_state s score et now).status ≡ fossilized) ↔ (10 ≤ failures rs)
  fossilized_iff_ten_failures learner skill created rs score et now p =
      let s = practise (new_skill_state learner skill created) rs in
      let t = new_skill_state-Totals learner skill created rs in
      let (to, from) = lapse_status s score et now p (t.2 ∙ sym t.3) in
      ((λ h. omega (arith, to h, t.3)), (λ h. from (omega (arith, t.3))))
