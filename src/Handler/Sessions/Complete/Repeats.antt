-- ===== src/Handler/Sessions/Complete/Repeats.antt =====
-- What repeated Complete requests do to the stats of a learner.
use ruskiy.Shared.{
  ℕ, zero, suc, ◌+◌, ◌==◌, Bool-cases, Option-cases, some, String, str_eq_self, if◌then◌else◌, List,
  [], ◌∷◌, ◌≡◌, ◌∙◌, refl, arith, inl, inr,
}
use mathlib.Core.Path.{subst}
use native.Mathlib.Nat.{suc-add}
use ruskiy.Shared.Int.{ℤ, pos, ◌+ℤ◌, int_laws}
use ruskiy.Platform.{Float}
use ruskiy.Model.{Session}
use ruskiy.Middleware.Http.{Request}
use ruskiy.Store.Streak.{Streaks, LearnerStats, get_stats, record_activity, update_level}
use ruskiy.Store.Database.{Tables, query_row-update_where}
use ruskiy.Store.Sessions
use ruskiy.Store.Sessions.{complete_session, completed_at}
use ruskiy.Handler.Sessions.{
  Services, Answer, summary, find_session_by, find_session, record_streak, set_level,
  finish_session,
}
use ruskiy.Handler.Sessions.Access.{with_session_cases, ask_some}
use ruskiy.Handler.Sessions.Complete.{count_session, duration_of, finish, complete}

-- n times the points of a session.
abbrev pub times_xp : ℕ → ℤ → ℤ
times_xp zero xp = pos 0
times_xp (suc n) xp = xp +ℤ times_xp n xp

times_xp-add : (m n : ℕ) (xp : ℤ) → times_xp (m + n) xp ≡ times_xp m xp +ℤ times_xp n xp
times_xp-add zero n xp = grind int_laws
times_xp-add (suc m) n xp = rw suc-add (grind (int_laws, times_xp-add m n xp))

-- How many sessions an answer counts.
abbrev pub summaries : {F : Type 0} → Answer F → ℕ
summaries (summary s) = 1
summaries _ = 0

-- The stats of the learner after `n` more sessions of the same points.
pub record Counted (n : ℕ) (xp : ℤ) (old now : LearnerStats) : Type 0 where
  pub sessions : now.total_sessions ≡ old.total_sessions + n
  pub points : now.total_xp ≡ old.total_xp +ℤ times_xp n xp

Counted-none : (xp : ℤ) (s : LearnerStats) → Counted 0 xp s s
Counted-none xp s = record { sessions = omega arith; points = grind int_laws }

Counted-more :
    (m n : ℕ) (xp : ℤ) (a b c : LearnerStats)
    → Counted m xp a b
    → Counted n xp b c
    → Counted (m + n) xp a c
Counted-more m n xp a b c p q = record {
  sessions = omega (arith, p.sessions, q.sessions);
  points = grind (int_laws, p.points, q.points, times_xp-add m n xp);
}

record_activity-Counted :
    (today : ℕ) (l : String) (xp : ℤ) (table : Streaks)
    → Counted 1 xp (get_stats l table) (get_stats l (record_activity today l xp table))
unfolding get_stats record_activity
record_activity-Counted today l xp table = elim (Option-cases (table l)) [
  | inl e ↦
      rw (e, record_activity, get_stats)
        (rw (str_eq_self l, get_stats) (record { sessions = refl; points = grind int_laws }))
  | inr (row, e) ↦
      rw (e, record_activity, get_stats)
        (rw (str_eq_self l, get_stats) (record { sessions = refl; points = grind int_laws }))
]

update_level-Counted :
    (l : String) (level xp : ℤ) (table : Streaks)
    → Counted 0 xp (get_stats l table) (get_stats l (update_level l level table))
unfolding get_stats update_level
update_level-Counted l level xp table = elim (Option-cases (table l)) [
  | inl e ↦ rw (e, update_level) (Counted-none xp _)
  | inr (row, e) ↦
      rw (e, update_level, get_stats)
        (rw (str_eq_self l, get_stats) (record { sessions = omega arith; points = grind int_laws }))
]

module _ {F : Type 0} where
  -- The session of an ID, with its learner's stats after it was counted `n` more times.
  pub record Again (id n : ℕ) (s : Session F) (t t' : Tables F) : Type 0 where
    pub session : Session F
    pub found : Sessions.get_by_id id t' ≡ some session
    pub total : session.total_xp ≡ s.total_xp
    pub learner : session.learner_id ≡ s.learner_id
    pub stats :
        Counted n s.total_xp (get_stats s.learner_id t.streaks) (get_stats s.learner_id t'.streaks)

  Again-none :
      (id : ℕ) (s : Session F) (t : Tables F) → Sessions.get_by_id id t ≡ some s → Again id 0 s t t
  Again-none id s t e = record {
    session = s;
    found = e;
    total = refl;
    learner = refl;
    stats = Counted-none s.total_xp _;
  }

  Again-more :
      (id m n : ℕ) (s : Session F) (t t1 t2 : Tables F) (a : Again id m s t t1)
      → Again id n a.session t1 t2
      → Again id (m + n) s t t2
  Again-more id m n s t t1 t2 a b =
      let same : Counted n s.total_xp (get_stats s.learner_id t1.streaks)
          (get_stats s.learner_id t2.streaks) =
        subst (λ l. Counted n s.total_xp (get_stats l t1.streaks) (get_stats l t2.streaks))
          a.learner
          (subst
            (λ xp.
              Counted n xp (get_stats a.session.learner_id t1.streaks)
                (get_stats a.session.learner_id t2.streaks))
            a.total b.stats) in
      record {
        session = b.session;
        found = b.found;
        total = b.total ∙ a.total;
        learner = b.learner ∙ a.learner;
        stats = Counted-more m n s.total_xp _ _ _ a.stats same;
      }

module _ {F : Type 0} ⦃fl : Float F⦄ (env : Services F) where
  -- How many sessions a request counts: one, when it is answered with a summary and the database has
  -- recorded the activity.
  abbrev pub counted : Answer F → ℕ
  counted a = if env.fails record_streak then 0 else summaries a

  count_session-Counted :
      (s : Session F) (t : Tables F)
      → Counted
          (if env.fails record_streak then 0 else 1)
          s.total_xp
          (get_stats s.learner_id t.streaks)
          (get_stats s.learner_id (count_session env s t).streaks)
  unfolding count_session
  count_session-Counted s t =
      let active = record_activity env.today s.learner_id s.total_xp t.streaks in
      let once = record_activity-Counted env.today s.learner_id s.total_xp t.streaks in
      elim (Bool-cases (env.fails record_streak)) [
        | inl f ↦ elim (Bool-cases (env.fails set_level)) [
          | inl e ↦ rw (f, e) (Counted-none s.total_xp _)
          | inr e ↦ rw (f, e) (update_level-Counted s.learner_id _ s.total_xp t.streaks)
        ]
        | inr f ↦ elim (Bool-cases (env.fails set_level)) [
          | inl e ↦ rw (f, e) once
          | inr e ↦
              rw (f, e)
                (Counted-more 1 0 s.total_xp _ _ _ once
                  (update_level-Counted s.learner_id _ s.total_xp active))
        ]
      ]

  count_session-sessions :
      (s : Session F) (t : Tables F) → (count_session env s t).sessions ≡ t.sessions
  unfolding count_session
  count_session-sessions s t = ground arith

  -- A refusal counts no session.
  refused-Again :
      (id : ℕ) (s : Session F) (t : Tables F)
      → Sessions.get_by_id id t ≡ some s
      → Again id (if env.fails record_streak then 0 else 0) s t t
  refused-Again id s t e = elim (Bool-cases (env.fails record_streak)) [
    | inl f ↦ rw f (Again-none id s t e)
    | inr f ↦ rw f (Again-none id s t e)
  ]

  finish-Again :
      (id : ℕ) (s : Session F) (t : Tables F)
      → Sessions.get_by_id id t ≡ some s
      → let (a, t') = finish env id s t in Again id (counted a) s t t'
  unfolding finish Sessions.get_by_id complete_session
  finish-Again id s t e =
      let done : Session F =
        completed_at env.pg (env.clock 1) s.total_xp s.accuracy_rate (duration_of env s) s in
      let finished : Tables F =
        complete_session env.pg (env.clock 1) id s.total_xp s.accuracy_rate (duration_of env s) t in
      elim (Bool-cases (env.fails finish_session)) [
        | inl h ↦ rw h (refused-Again id s t e)
        | inr h ↦ rw h (record {
          session = done;
          found =
              rw (count_session-sessions s finished)
                (query_row-update_where (λ x. x.id == id) _ (λ x h2. h2) t.sessions e);
          total = refl;
          learner = refl;
          stats = count_session-Counted s finished;
        })
      ]

  complete-Again :
      (id : ℕ) (s : Session F) (r : Request) (t : Tables F)
      → Sessions.get_by_id id t ≡ some s
      → let (a, t') = complete env (some id) r t in Again id (counted a) s t t'
  unfolding complete find_session_by
  complete-Again id s r t e =
      with_session_cases env (λ x. Again id (counted x.0) s t x.1) (some id) r t
        (λ i s2. finish env i s2 t) (λ status error. refused-Again id s t e)
        (λ i s2 same found owner.
          let found2 : Sessions.get_by_id i t ≡ some s2 =
            ask_some (env.fails find_session) (Sessions.get_by_id i t) found in
          let same_session : s ≡ s2 = ground (arith, same, e, found2) in
          subst (λ j. Again id (counted (finish env j s2 t).0) s t (finish env j s2 t).1)
            (ground (arith, same))
            (subst (λ x. Again id (counted (finish env id x t).0) s t (finish env id x t).1)
              same_session (finish-Again id s t e)))

module _ {F : Type 0} ⦃fl : Float F⦄ where
  -- Complete requests for a session one after the other: how many sessions they count, and the tables.
  abbrev pub complete_all : ℕ → List (Services F × Request) → Tables F → ℕ × Tables F
  complete_all id [] t = (0, t)
  complete_all id ((env, r) ∷ requests) t =
      let (a, t') = complete env (some id) r t in
      let (n, t'') = complete_all id requests t' in (counted env a + n, t'')

  -- For every sequence of Complete requests for a session that is in the tables, whatever its status, by its
  -- owner and by others, with or without errors of the database: with n the number of requests that are
  -- answered with a summary and whose RecordActivity the database executes, the learner of the session
  -- has n more sessions, and n times the points of the session more, than before; the points and
  -- the learner of the session do not change.
  pub complete_all-Again :
      (id : ℕ) (requests : List (Services F × Request)) (s : Session F) (t : Tables F)
      → Sessions.get_by_id id t ≡ some s
      → let (n, t') = complete_all id requests t in Again id n s t t'
  complete_all-Again id [] s t e = Again-none id s t e
  complete_all-Again id ((env, r) ∷ requests) s t e =
      let first = complete-Again env id s r t e in
      Again-more id _ _ s t (complete env (some id) r t).1 _ first
        (complete_all-Again id requests first.session _ first.found)
