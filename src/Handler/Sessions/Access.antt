-- ===== src/Handler/Sessions/Access.antt =====
-- Who may see and change a session.
use ruskiy.Shared.{
  ℕ, Bool, Bool-cases, true, Option, Option-cases, none, some, String, str_eq, str_eq_iff, if_elim,
  if◌then◌else◌, ◌≡◌, refl, sym, ap, ◌∙◌, arith, ◌⊎◌, inl, inr,
}
use mathlib.Core.Path.{subst}
use ruskiy.Platform.{Float}
use ruskiy.Model.{LearnerProfile, Session, ExerciseResult}
use ruskiy.Middleware.Http.{Request, get_user_id}
use ruskiy.Store.Database.{Tables}
use ruskiy.Store.Sessions
use ruskiy.Store.Profiles
use ruskiy.Handler.Sessions.{
  Services, Answer, refused, find_profile, ask, same_user, find_owner, owns_session,
  find_session_by, with_session, show_session, get_state,
}
use ruskiy.Handler.Sessions.Submit.{submit, submit_result}
use ruskiy.Handler.Sessions.Complete.{complete, finish}

same_user-eq :
    (a b : Option String) → same_user a b ≡ true → (u : String) × (a ≡ some u) × (b ≡ some u)
same_user-eq (some a) (some b) e = (b, ap some ((str_eq_iff a b).0 e), refl)
same_user-eq (some a) none e = absurd (ground arith)
same_user-eq none b e = absurd (ground arith)

pub ask_some :
    {A : Type 0} (b : Bool) (o : Option A) {a : A} → (if b then none else o) ≡ some a → o ≡ some a
ask_some b o e = ground (arith, e)

module _ {F : Type 0} (env : Services F) where
  -- The user of the request owns the profile that the session belongs to.
  pub record Owner (r : Request) (id : ℕ) (t : Tables F) : Type 0 where
    pub session : Session F
    pub profile : LearnerProfile
    pub found : Sessions.get_by_id id t ≡ some session
    pub has_profile : Profiles.get_by_id session.learner_id t ≡ some profile
    pub same : env.parse_uuid (get_user_id r) ≡ some profile.user_id

  -- A refusal that changes nothing.
  abbrev pub Denied : Tables F → Answer F × Tables F → Type 0
  Denied t result = (status : ℕ) × (error : String) × (result ≡ (refused status error, t))

  pub with_session_cases :
      (P : Answer F × Tables F → Type 0) (id : Option ℕ) (r : Request) (t : Tables F)
      (next : ℕ → Session F → Answer F × Tables F)
      → ((status : ℕ) (error : String) → P (refused status error, t))
      → ((i : ℕ) (s : Session F)
          → id ≡ some i
          → find_session_by env i t ≡ some s
          → owns_session env r s t ≡ true
          → P (next i s))
      → P (with_session env id r t next)
  unfolding with_session
  with_session_cases P none r t next deny ok = deny 400 "invalid session ID"
  with_session_cases P (some i) r t next deny ok = elim (Option-cases (find_session_by env i t)) [
    | inl e ↦ rw (e, with_session) (deny 404 "session not found")
    | inr (s, e) ↦
        rw (e, with_session)
          (if_elim P (owns_session env r s t) (next i s) (refused 403 "access denied", t)
            (λ h. ok i s refl e h) (λ _. deny 403 "access denied"))
  ]

  owns_session-user :
      (r : Request) (s : Session F) (t : Tables F)
      → owns_session env r s t ≡ true
      → (u : String) × (env.parse_uuid (get_user_id r) ≡ some u)
        × (find_owner env s.learner_id t ≡ some u)
  unfolding owns_session
  owns_session-user r s t e = elim (Bool-cases (str_eq (get_user_id r) "")) [
    | inl h ↦ absurd (ground (arith, (rw h at e)))
    | inr h ↦ same_user-eq _ _ (rw h at e)
  ]

  find_owner-profile :
      (learner : String) (t : Tables F) (u : String)
      → find_owner env learner t ≡ some u
      → (p : LearnerProfile) × (Profiles.get_by_id learner t ≡ some p) × (p.user_id ≡ u)
  find_owner-profile learner t u e =
      elim (Option-cases (ask env find_profile none (Profiles.get_by_id learner t))) [
        | inl h ↦ absurd (ground (arith, (rw (h, find_owner) at e)))
        | inr (p, h) ↦ (p, ask_some _ _ h, ground (arith, (rw (h, find_owner) at e)))
      ]

  -- What the check of a request knows.
  pub allowed_session :
      (r : Request) (id : ℕ) (s : Session F) (t : Tables F)
      → find_session_by env id t ≡ some s
      → owns_session env r s t ≡ true
      → Owner r id t
  unfolding find_session_by
  allowed_session r id s t e h =
      let (u, parsed, owner) = owns_session-user r s t h in
      let (p, found, same) = find_owner-profile s.learner_id t u owner in
      record {
        session = s;
        profile = p;
        found = ask_some _ _ e;
        has_profile = found;
        same = parsed ∙ ap some (sym same);
      }

  settled_case :
      (id : ℕ) (r : Request) (t : Tables F) (next : ℕ → Session F → Answer F × Tables F)
      → Denied t (with_session env (some id) r t next) ⊎ Owner r id t
  settled_case id r t next =
      with_session_cases (λ x. Denied t x ⊎ Owner r id t) (some id) r t next
        (λ status error. inl (status, error, refl))
        (λ i s same e h. inr (
          allowed_session r id s t
            (subst (λ n. find_session_by env n t ≡ some s) (ground (arith, same)) e) h))

module _ {F : Type 0} ⦃fl : Float F⦄ (env : Services F) where
  -- For every request on a session: when GetState, Submit with a body, or Complete does more than refuse
  -- with all tables as they were, then the tables have the session and the profile of its learner, and
  -- the user ID that the middleware put in the context is a UUID, the one of that profile's user.
  pub get_state-submit-complete-Owner :
      (id : ℕ) (body : ExerciseResult) (r : Request) (t : Tables F)
      → (Denied env t (get_state env (some id) r t) ⊎ Owner env r id t)
        × (Denied env t (submit env (some id) (some body) r t) ⊎ Owner env r id t)
        × (Denied env t (complete env (some id) r t) ⊎ Owner env r id t)
  unfolding get_state submit complete
  get_state-submit-complete-Owner id body r t = (
    settled_case env id r t (show_session env t),
    settled_case env id r t (λ i s. submit_result env i body t),
    settled_case env id r t (λ i s. finish env i s t),
  )
