-- ===== src/Handler/Sessions.antt =====
-- services/api/internal/handler/session.go: SessionHandler on the tables of the database. `fails s` is
-- whether the database answers the statement `s` of a request with an error; `clock n` is the n-th
-- reading of the clock in a request and `new_id n` its n-th new UUID; the ID of the URL is `none` where it
-- is no UUID, and a body where it does not decode.
pub mod Submit
pub mod Complete
pub mod Generate
pub mod Access
use ruskiy.Shared.{
  ℕ, ◌==◌, if◌then◌else◌, Bool, true, false, Option, none, some, String, str_eq, List, [], ◌∷◌,
}
use ruskiy.Shared.Int.{ℤ}
use ruskiy.Platform.{Float, SortSlice}
use ruskiy.Model.{LearnerProfile, ContentAtom, Session, SessionItem, ExerciseResult}
use ruskiy.Middleware.Http.{Request, get_user_id}
use ruskiy.Store.Database.{Tables, Postgres}
use ruskiy.Store.Sessions
use ruskiy.Store.Sessions.{get_session_items, list_by_learner}
use ruskiy.Store.Profiles
use ruskiy.Store.Profiles.{list_by_user_id}
use ruskiy.Store.Content

-- The statements of the requests.
pub data Statement : Type 0 where
  find_profile list_profiles find_due find_weak find_skills find_skills_again init_skills
        find_unlocked find_by_skills find_by_skills_any find_recent insert_session insert_items
        count_usage find_content find_session find_session_again find_skill save_skill find_streak
        insert_result update_session finish_session record_streak set_level find_items list_sessions
        set_profile_level find_by_skill_anywhere insert_profile list_skills :
      Statement

-- What the handlers take from the database, the packages math/rand, time and uuid, and the ML service:
-- `classify` is `none` where there is no client, and its answer is `none` on an error.
pub record Services (F : Type 0) : Type 1 where
  pub pg : Postgres F
  pub fails : Statement → Bool
  pub sorting : SortSlice
  pub intn : ℕ → ℕ → ℕ
  pub new_id : ℕ → ℕ
  pub clock : ℕ → ℤ
  pub today : ℕ
  pub whole_seconds : ℤ → ℤ
  pub parse_uuid : String → Option String
  pub classify : Option ((response correct_answer : String) → Option String)

pub record SessionSummary (F : Type 0) : Type 0 where
  pub session_id : ℕ
  pub total_exercises : ℕ
  pub correct_count : ℤ
  pub accuracy_rate : F
  pub total_xp : ℤ
  pub skills_practiced : List String
  pub duration : ℤ
  pub streak_days : ℕ

pub record SessionItemWithContent (F : Type 0) : Type 0 where
  pub item : SessionItem
  pub content : Option (ContentAtom F)

pub data Answer (F : Type 0) : Type 0 where
  refused : (status : ℕ) → (error : String) → Answer F
  session_with_items : (status : ℕ) → Session F → List (SessionItemWithContent F) → Answer F
  feedback : ExerciseResult → (xp_earned : ℤ) → Answer F
  summary : SessionSummary F → Answer F
  sessions : List (Session F) → Answer F

-- The answer of the database, or what the code goes on with on an error.
abbrev pub ask : {F : Type 0} {A : Type 0} → Services F → Statement → A → A → A
ask env s on_error answer = if env.fails s then on_error else answer

abbrev pub learners_of : List LearnerProfile → List String
learners_of [] = []
learners_of (p ∷ ps) = p.id ∷ learners_of ps

abbrev pub same_user : Option String → Option String → Bool
same_user (some a) (some b) = str_eq a b
same_user (some a) none = false
same_user none b = false

module _ {F : Type 0} (env : Services F) where
  abbrev pub find_owner : String → Tables F → Option String
  find_owner learner t = elim (ask env find_profile none (Profiles.get_by_id learner t)) [
    | none ↦ none
    | some p ↦ some p.user_id
  ]

  -- verifySessionOwnership returns nil.
  unfoldable pub owns_session : Request → Session F → Tables F → Bool
  unfolding get_user_id
  owns_session r s t =
      if str_eq (get_user_id r) ""
      then false
      else same_user (env.parse_uuid (get_user_id r)) (find_owner s.learner_id t)

  unfoldable pub find_session_by : ℕ → Tables F → Option (Session F)
  find_session_by id t = ask env find_session none (Sessions.get_by_id id t)

  abbrev pub with_content : Tables F → List SessionItem → List (SessionItemWithContent F)
  with_content t [] = []
  with_content t (i ∷ items) =
      record { item = i; content = ask env find_content none (Content.get_by_id i.content_id t) }
      ∷ with_content t items

  -- What GetState, Submit and Complete do first: the session of the URL, or the refusal.
  unfoldable pub with_session :
      Option ℕ → Request → Tables F → (ℕ → Session F → Answer F × Tables F) → Answer F × Tables F
  unfolding find_session_by owns_session
  with_session none r t next = (refused 400 "invalid session ID", t)
  with_session (some id) r t next = elim (find_session_by id t) [
    | none ↦ (refused 404 "session not found", t)
    | some s ↦ if owns_session r s t then next id s else (refused 403 "access denied", t)
  ]

  abbrev pub show_session : Tables F → ℕ → Session F → Answer F × Tables F
  show_session t id s = (
    session_with_items 200 s
        (with_content t (ask env find_items [] (get_session_items env.pg id t))),
    t,
  )

  unfoldable pub get_state : Option ℕ → Request → Tables F → Answer F × Tables F
  unfolding with_session
  get_state id r t = with_session id r t (show_session t)

  abbrev pub sessions_of_first : List String → Tables F → Answer F
  sessions_of_first [] t = sessions []
  sessions_of_first (learner ∷ _) t =
      if env.fails list_sessions
      then refused 500 "failed to fetch sessions"
      else sessions (list_by_learner env.pg learner 20 t)

  unfoldable pub history : Request → Tables F → Answer F
  history r t =
      let user : String = elim (env.parse_uuid (get_user_id r)) [
        | none ↦ "00000000-0000-0000-0000-000000000000"
        | some u ↦ u
      ] in
      if str_eq (get_user_id r) ""
      then refused 401 "unauthorized"
      else sessions_of_first (learners_of (ask env list_profiles [] (list_by_user_id user t))) t
