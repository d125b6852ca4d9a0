-- ===== src/Handler/Sessions/Submit/Progress.antt =====
-- The counters of a session over its submissions.
use ruskiy.Shared.{
  ℕ, ◌+◌, ◌==◌, Bool, true, false, Option, Option-cases, none, some, List, [], ◌∷◌, ◌≡◌, refl,
  arith, inl, inr,
}
use mathlib.Core.Path.{subst}
use ruskiy.Shared.Int.{ℤ, pos, ◌+ℤ◌, int_laws}
use ruskiy.Platform.{Float}
use ruskiy.Model.{Session, ExerciseResult}
use ruskiy.Middleware.Http.{Request}
use ruskiy.Store.Database.{Tables, query_row-update_where}
use ruskiy.Store.Sessions
use ruskiy.Store.Sessions.{save_result, update_session_state, progressed}
use ruskiy.Store.Skills.{upsert_learner_skill}
use ruskiy.Store.Skills.Laws.{upsert_learner_skill-tables}
use ruskiy.Handler.Sessions.{
  Services, Answer, feedback, ask, find_session_again, update_session, insert_result, save_skill,
}
use ruskiy.Handler.Sessions.Access.{with_session_cases}
use ruskiy.Handler.Sessions.Submit.{
  kept_on_error, received, skill_of, reviewed, review_skill, xp_of, accuracy_after, advance,
  earning, record_result, submit_result, submit,
}

-- How many results an answer stands for, and its points.
abbrev pub counted : {F : Type 0} → Answer F → ℕ
counted (feedback r xp) = 1
counted _ = 0

abbrev pub points : {F : Type 0} → Answer F → ℤ
points (feedback r xp) = xp
points _ = pos 0

module _ {F : Type 0} where
  -- A session and what it is some results later.
  pub record Later (n : ℕ) (xp : ℤ) (s s' : Session F) : Type 0 where
    pub index : s'.current_index ≡ s.current_index + n
    pub total : s'.total_xp ≡ s.total_xp +ℤ xp
    pub status : s'.status ≡ s.status
    pub learner : s'.learner_id ≡ s.learner_id

  -- The same for the session of an ID in the tables.
  abbrev pub Progress : ℕ → ℕ → ℤ → Tables F → Tables F → Type 0
  Progress id n xp t t' =
      (s : Session F)
      → Sessions.get_by_id id t ≡ some s
      → (s' : Session F) × (Sessions.get_by_id id t' ≡ some s') × Later n xp s s'

  Later-none : (s : Session F) → Later 0 (pos 0) s s
  Later-none s = record {
    index = omega arith;
    total = grind int_laws;
    status = refl;
    learner = refl;
  }

  Later-more :
      (m n : ℕ) (x y : ℤ) (a b c : Session F)
      → Later m x a b
      → Later n y b c
      → Later (m + n) (x +ℤ y) a c
  Later-more m n x y a b c p q = record {
    index = omega (arith, p.index, q.index);
    total = grind (int_laws, p.total, q.total);
    status = ground (arith, p.status, q.status);
    learner = ground (arith, p.learner, q.learner);
  }

  kept_on_error-sessions :
      (b : Bool) (after : Option (Tables F)) (t : Tables F)
      → ((t' : Tables F) → after ≡ some t' → t'.sessions ≡ t.sessions)
      → (kept_on_error b after t).sessions ≡ t.sessions
  kept_on_error-sessions true after t h = refl
  kept_on_error-sessions false none t h = refl
  kept_on_error-sessions false (some t') t h = h t' refl

module _ {F : Type 0} ⦃fl : Float F⦄ (env : Services F) where
  review_skill-sessions :
      (r : ExerciseResult) (t : Tables F) → (review_skill env r t).sessions ≡ t.sessions
  unfolding review_skill
  review_skill-sessions r t = elim (Option-cases (skill_of env r t)) [
    | inl e ↦ rw (e, review_skill) refl
    | inr (s, e) ↦
        rw (e, review_skill)
          (kept_on_error-sessions (env.fails save_skill)
            (upsert_learner_skill env.pg r.learner_id (reviewed env r s) t) t
            (λ t' h.
              rw (upsert_learner_skill-tables env.pg r.learner_id (reviewed env r s) t t' h) refl))
  ]

  save_result-sessions :
      (r : ExerciseResult) (t t' : Tables F)
      → ask env insert_result none (save_result r t) ≡ some t'
      → t'.sessions ≡ t.sessions
  unfolding save_result
  save_result-sessions r t t' e = ground (arith, e)

  advance-Progress :
      (id : ℕ) (r : ExerciseResult) (t : Tables F)
      → env.fails find_session_again ≡ false
      → env.fails update_session ≡ false
      → Progress id 1 r.xp_earned t (advance env id r t)
  unfolding advance Sessions.get_by_id update_session_state
  advance-Progress id r t f g s e =
      let s' =
        progressed env.pg (s.current_index + 1) (s.total_xp +ℤ r.xp_earned)
          (accuracy_after s r.is_correct) s in
      (
        s',
        rw (f, e, g, advance) (query_row-update_where (λ x. x.id == id) _ (λ x h. h) t.sessions e),
        record { index = refl; total = refl; status = refl; learner = refl },
      )

  same-Progress : (id : ℕ) (t t' : Tables F) → t'.sessions ≡ t.sessions → Progress id 0 (pos 0) t t'
  unfolding Sessions.get_by_id
  same-Progress id t t' e s found = (s, rw e found, Later-none s)

  record_result-Progress :
      (id : ℕ) (r : ExerciseResult) (t t0 : Tables F)
      → env.fails find_session_again ≡ false
      → env.fails update_session ≡ false
      → t.sessions ≡ t0.sessions
      → let (a, t') = record_result env id r t in Progress id (counted a) (points a) t0 t'
  unfolding record_result Sessions.get_by_id
  record_result-Progress id r t t0 f g e =
      elim (Option-cases (ask env insert_result none (save_result r t))) [
        | inl h ↦ rw (h, record_result) (same-Progress id t0 t e)
        | inr (t1, h) ↦
            rw (h, record_result)
              λ s found.
                advance-Progress id r t1 f g s (rw (save_result-sessions r t t1 h, e) found)
      ]

  submit-Progress :
      (id : ℕ) (body : Option ExerciseResult) (r : Request) (t : Tables F)
      → env.fails find_session_again ≡ false
      → env.fails update_session ≡ false
      → let (a, t') = submit env (some id) body r t in Progress id (counted a) (points a) t t'
  unfolding submit submit_result
  submit-Progress id none r t f g = same-Progress id t t refl
  submit-Progress id (some body) r t f g =
      with_session_cases env (λ x. Progress id (counted x.0) (points x.0) t x.1) (some id) r t
        (λ i s. submit_result env i body t) (λ status error. same-Progress id t t refl)
        (λ i s same found owner.
          let b : ExerciseResult = received env i body in
          subst
            (λ j.
              Progress id (counted (submit_result env j body t).0)
                (points (submit_result env j body t).0) t (submit_result env j body t).1)
            (ground (arith, same))
            (record_result-Progress id
              (earning (xp_of env (received env id body) t) (received env id body))
              (review_skill env (received env id body) t) t f g
              (review_skill-sessions (received env id body) t)))

-- The requests on a session one after the other, each with its own services and body; the answers and the
-- tables.
abbrev pub Requests : Type 0 → Type 1
Requests F = List (Services F × Request × Option ExerciseResult)

module _ {F : Type 0} ⦃fl : Float F⦄ where
  abbrev pub submit_all : ℕ → Requests F → Tables F → List (Answer F) × Tables F
  submit_all id [] t = ([], t)
  submit_all id ((env, r, body) ∷ requests) t =
      let (a, t') = submit env (some id) body r t in
      let (as_, t'') = submit_all id requests t' in (a ∷ as_, t'')

  abbrev pub all_counted : List (Answer F) → ℕ
  all_counted [] = 0
  all_counted (a ∷ as_) = counted a + all_counted as_

  abbrev pub all_points : List (Answer F) → ℤ
  all_points [] = pos 0
  all_points (a ∷ as_) = points a +ℤ all_points as_

  -- The database reads and updates the session in step 6 of each request.
  abbrev pub AllUpdate : Requests F → Type 0
  AllUpdate [] = Unit
  AllUpdate ((env, r, body) ∷ requests) =
      (env.fails find_session_again ≡ false)
      × (env.fails update_session ≡ false)
      × AllUpdate requests

  -- For every sequence of Submit requests on a session that is in the tables, by its owner and by others,
  -- with bodies that decode or do not, in each of which the database reads and updates the session: the
  -- current index has grown by the number of requests that were answered with feedback, the points by
  -- the sum of the points in those answers, and the status and the learner are as before.
  pub submit_all-Progress :
      (id : ℕ) (requests : Requests F) (t : Tables F)
      → AllUpdate requests
      → let (answers, t') = submit_all id requests t in
        Progress id (all_counted answers) (all_points answers) t t'
  submit_all-Progress id [] t h s found = (s, found, Later-none s)
  submit_all-Progress id ((env, r, body) ∷ requests) t (f, g, h) s found =
      let t1 = (submit env (some id) body r t).1 in
      let (s1, found1, later1) = submit-Progress env id body r t f g s found in
      let (s2, found2, later2) = submit_all-Progress id requests t1 h s1 found1 in
      (s2, found2, Later-more _ _ _ _ s s1 s2 later1 later2)
