-- ===== src/Handler/Sessions/Submit/Lapses.antt =====
-- Wrong answers and the enum skill_status of the database.
use ruskiy.Shared.{
  ℕ, ◌+◌, ◌&&◌, leb, Bool, true, false, Option-cases, none, some, ◌≡◌, ◌∙◌, refl, ap, arith, inl,
  inr,
}
use mathlib.Core.Path.{subst}
use ruskiy.Platform.{Float, FloatLaws}
use ruskiy.Model.{LearnerSkillState, ExerciseResult, relearning}
use ruskiy.Engine.Fsrs.{grade_from_result, update_skill_state, is_pass}
use ruskiy.Middleware.Http.{Request}
use ruskiy.Store.Database.{Tables}
use ruskiy.Store.Sessions.{save_result, update_session_state}
use ruskiy.Store.Skills.{upsert_learner_skill}
use ruskiy.Handler.Sessions.{Services, save_skill}
use ruskiy.Handler.Sessions.Access.{with_session_cases}
use ruskiy.Handler.Sessions.Submit.{
  kept_on_error, received, skill_of, reviewed, review_skill, xp_of, advance, earning, record_result,
  submit_result, submit,
}

module _ {F : Type 0} ⦃fl : Float F⦄ (laws : FloatLaws F) where
  -- A lapse that is not the fifth one after ten errors.
  abbrev pub IsLight : LearnerSkillState F → Type 0
  IsLight s = (leb 5 (s.lapses + 1) && leb 10 s.error_count) ≡ false

  wrong_fails : is_pass (fl.lit 1 0) ≡ false
  unfolding is_pass
  wrong_fails = laws.lit_le 2 0 1 0 (omega arith) (omega arith) (omega arith) (omega arith)

  lapse-status :
      (env : Services F) (r : ExerciseResult) (s : LearnerSkillState F)
      → r.is_correct ≡ false
      → IsLight s
      → (reviewed env r s).status ≡ relearning
  unfolding update_skill_state grade_from_result
  lapse-status env r s wrong light = rw (wrong, wrong_fails, light) refl

  not_stored : (b : Bool) (t : Tables F) → kept_on_error b none t ≡ t
  not_stored true t = refl
  not_stored false t = refl

  module _ (env : Services F) where
    review_skill-lapse :
        (r : ExerciseResult) (t : Tables F)
        → r.is_correct ≡ false
        → ((s : LearnerSkillState F) → skill_of env r t ≡ some s → IsLight s)
        → review_skill env r t ≡ t
    unfolding review_skill upsert_learner_skill
    review_skill-lapse r t wrong light = elim (Option-cases (skill_of env r t)) [
      | inl e ↦ rw (e, review_skill) refl
      | inr (s, e) ↦
          rw (e, review_skill)
            (rw (lapse-status env r s wrong (light s e)) (not_stored (env.fails save_skill) t))
    ]

    -- Neither the result nor the counters are in the table learner_skills.
    record_result-skills :
        (id : ℕ) (r : ExerciseResult) (t : Tables F)
        → (record_result env id r t).1.learner_skills ≡ t.learner_skills
    unfolding record_result advance save_result update_session_state
    record_result-skills id r t = ground arith

    -- For every Submit request with a wrong answer: unless the state of the skill has at least four lapses
    -- and ten errors, the table learner_skills is as before, whatever the answer: the update sets
    -- the status relearning, which the database refuses.
    pub submit-lapse :
        (id : ℕ) (body : ExerciseResult) (r : Request) (t : Tables F)
        → body.is_correct ≡ false
        → ((s : LearnerSkillState F) → skill_of env (received env id body) t ≡ some s → IsLight s)
        → (submit env (some id) (some body) r t).1.learner_skills ≡ t.learner_skills
    unfolding submit submit_result
    submit-lapse id body r t wrong light =
        with_session_cases env (λ x. x.1.learner_skills ≡ t.learner_skills) (some id) r t
          (λ i s. submit_result env i body t) (λ status error. refl)
          (λ i s same found owner.
            subst (λ j. (submit_result env j body t).1.learner_skills ≡ t.learner_skills)
              (ground (arith, same))
              (record_result-skills id
                  (earning (xp_of env (received env id body) t) (received env id body))
                  (review_skill env (received env id body) t)
                ∙ ap (λ (u : Tables F). u.learner_skills)
                    (review_skill-lapse (received env id body) t wrong light)))
