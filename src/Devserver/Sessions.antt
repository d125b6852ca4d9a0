-- ===== src/Devserver/Sessions.antt =====
-- services/api/cmd/devserver/main.go: /sessions/generate, /sessions/{id}/state, submit, complete and
-- /sessions/history. The ID of a URL that is no UUID is the nil UUID.
pub mod Tally
pub mod Planned
use ruskiy.Shared.{
  ℕ, zero, suc, ◌+◌, ◌%◌, ◌==◌, ltb, leb, ◌||◌, if◌then◌else◌, Bool, true, false, Option, none,
  some, String, str_eq, put, put_at, List, [], ◌∷◌, ◌++◌, keep, get_elem?, length, count_by, has,
}
use ruskiy.Shared.Int.{ℤ, pos, pos_part, ◌+ℤ◌, ◌-ℤ◌, ltb_ℤ, leb_ℤ}
use ruskiy.Platform.{Float}
use ruskiy.Model.{
  ContentAtom, Session, SessionStatus, generating, active, paused, completed, abandoned,
  SessionItem, SessionItemRole, core,
}
use ruskiy.Engine.Session.Build.{session_item}
use ruskiy.Store.Database.{query_row, update_where}
use ruskiy.Devserver.{MemStore, ExerciseResult, LearnerStats, calculate_xp, assign_roles}

pub record SubmitRequest : Type 0 where
  pub content_id : ℕ
  pub response : String
  pub correct_answer : String
  pub is_correct : Bool
  pub response_time_ms : ℤ
  pub hint_level_used : ℤ

abbrev pub is_completed : SessionStatus → Bool
is_completed completed = true
is_completed _ = false

-- The bounds on maxItems, in the order of the code, for content of the given length.
unfoldable pub bound_items : ℤ → ℕ → ℕ
bound_items wanted available =
    let low = if ltb_ℤ wanted (pos 5) then 5 else pos_part wanted in
    let there = if ltb available low then available else low in if ltb 15 there then 15 else there

abbrev pub tally_correct : List ExerciseResult → ℕ
tally_correct rs = count_by (λ r. r.is_correct) rs

abbrev pub result_of : (now : ℤ) → SubmitRequest → (xp : ℤ) → ExerciseResult
result_of now req xp = record {
  content_id = req.content_id;
  response = req.response;
  correct_answer = req.correct_answer;
  is_correct = req.is_correct;
  response_time_ms = req.response_time_ms;
  hint_level_used = req.hint_level_used;
  xp_earned = xp;
  timestamp = now;
}

abbrev pub one_more : (xp : ℤ) → LearnerStats → LearnerStats
one_more xp row = record row {
  total_sessions = row.total_sessions + 1;
  total_xp = row.total_xp +ℤ xp;
  current_streak = row.current_streak + 1;
  longest_streak =
      if ltb row.longest_streak (row.current_streak + 1)
      then row.current_streak + 1
      else row.longest_streak;
}

module _ {F : Type 0} where
  unfoldable pub find_session : ℕ → MemStore F → Option (Session F)
  find_session id s = query_row (λ x. x.id == id) s.sessions

  -- ca.TargetSkills[0]; `none` is the panic of an index out of range.
  abbrev pub first_target : ContentAtom F → Option String
  first_target c = elim c.target_skills [ [] ↦ none | k ∷ _ ↦ some k ]

  -- The loop over the items from the index `i`, for `left` more of them.
  unfoldable pub make_items :
      (new_id : ℕ → ℕ)
      → (session_id : ℕ) → List SessionItemRole
      → List (ContentAtom F)
      → (left i : ℕ) → Option (List SessionItem)
  make_items new_id session_id roles content zero i = some []
  make_items new_id session_id roles content (suc left) i =
      let rest = make_items new_id session_id roles content left (suc i) in
      elim (get_elem? content (i % length content)) [
        | none ↦ none
        | some c ↦ elim (first_target c) [
          | none ↦ none
          | some skill ↦ elim (get_elem? roles i) [
            | none ↦ none
            | some role ↦ elim rest [
              | none ↦ none
              | some items ↦ some (session_item (new_id i) session_id i c.id skill role ∷ items)
            ]
          ]
        ]
      ]

  abbrev pub with_atoms :
      List (ContentAtom F) → List SessionItem → List (SessionItem × Option (ContentAtom F))
  with_atoms content [] = []
  with_atoms content (i ∷ items) =
      (i, query_row (λ c. c.id == i.content_id) content) ∷ with_atoms content items

  -- The state of a session with its items; `none` is the answer 404.
  unfoldable pub state :
      ℕ → MemStore F → Option (Session F × List (SessionItem × Option (ContentAtom F)))
  unfolding find_session
  state id s = elim (find_session id s) [
    | none ↦ none
    | some x ↦ some (x, with_atoms s.content (s.session_items id))
  ]

  abbrev pub copies : Session F → List String → List (Session F)
  copies x [] = []
  copies x (_ ∷ ids) = x ∷ copies x ids

  -- Completed sessions, once for each time that their learner is in the profiles of the user.
  abbrev pub completed_of : List String → List (Session F) → List (Session F)
  completed_of ids [] = []
  completed_of ids (x ∷ xs) =
      (if is_completed x.status then copies x (keep (λ id. str_eq x.learner_id id) ids) else [])
      ++ completed_of ids xs

  unfoldable pub history : (user : String) → MemStore F → List (Session F)
  history user s = completed_of (s.profiles_by_user user) s.sessions

  -- Complete marks the session, and counts it in the stats of its learner.
  abbrev pub completed_at : (whole_seconds : ℤ → ℤ) → (now : ℤ) → Session F → Session F
  completed_at whole_seconds now x = record x {
    status = completed;
    completed_at = some now;
    duration = whole_seconds (now -ℤ x.started_at);
  }

-- maxItems: the budget, 15 minutes where it is not positive, over 1.5 and within its bounds.
unfoldable pub max_items : (F : Type 0) ⦃fl : Float F⦄ → (minutes : ℤ) → (available : ℕ) → ℕ
unfolding bound_items
max_items F ⦃fl⦄ minutes available =
    let budget : ℤ = if leb_ℤ minutes (pos 0) then pos 15 else minutes in
    bound_items (fl.to_int (fl.ceil (fl.div (fl.of_int budget) (fl.lit 15 1)))) available

module _ {F : Type 0} ⦃fl : Float F⦄ where
  abbrev pub new_session : (id : ℕ) → (learner : String) → (now : ℤ) → Session F
  new_session id learner now = record {
    id = id;
    learner_id = learner;
    status = active;
    current_index = 0;
    total_xp = pos 0;
    started_at = now;
    completed_at = none;
    duration = pos 0;
    accuracy_rate = fl.lit 0 0;
  }

  -- `none` is a panic. The session has the first new UUID, and its items the next ones.
  unfoldable pub generate :
      (new_id : ℕ → ℕ)
      → (now : ℤ) → (learner : String) → (minutes : ℤ) → MemStore F
      → Option (Session F × List SessionItem × MemStore F)
  unfolding make_items max_items
  generate new_id now learner minutes s =
      let count = max_items F minutes (length s.content) in
      let session = new_session (new_id 0) learner now in
      elim (make_items (λ i. new_id (suc i)) (new_id 0) (assign_roles count) s.content count 0) [
        | none ↦ none
        | some items ↦ some (
          session,
          items,
          record s {
            sessions = session ∷ s.sessions;
            session_items = put_at (new_id 0) items s.session_items;
          },
        )
      ]

  abbrev pub difficulty_of : Option (ContentAtom F) → F
  difficulty_of none = fl.lit 5 1
  difficulty_of (some c) = c.difficulty

  abbrev pub xp_for : SubmitRequest → MemStore F → ℤ
  xp_for req s =
      calculate_xp req.is_correct
        (difficulty_of (query_row (λ c. c.id == req.content_id) s.content))

  -- The session once the results are those given, the last one with the points `xp`.
  abbrev pub tallied : (xp : ℤ) → List ExerciseResult → Session F → Session F
  tallied xp results x = record x {
    current_index = x.current_index + 1;
    total_xp = x.total_xp +ℤ xp;
    accuracy_rate =
        fl.div (fl.of_int (pos (tally_correct results))) (fl.of_int (pos (length results)));
  }

  -- The answer has the points and whether the response is correct.
  unfoldable pub submit :
      (now : ℤ) → (id : ℕ) → SubmitRequest → MemStore F → (ℤ × Bool) × MemStore F
  unfolding calculate_xp
  submit now id req s =
      let xp = xp_for req s in
      let results = s.results id ++ result_of now req xp ∷ [] in
      (
        (xp, req.is_correct),
        record s {
          results = put_at id results s.results;
          sessions = update_where (λ x. x.id == id) (tallied xp results) s.sessions;
        },
      )

  unfoldable pub count_session :
      Session F → (String → Option LearnerStats) → String → Option LearnerStats
  count_session x streaks = elim (streaks x.learner_id) [
    | none ↦ streaks
    | some row ↦ put x.learner_id (some (one_more x.total_xp row)) streaks
  ]

  -- The completed session, from which the answer is made with the results and the items of the session, and
  -- the store; `none` is the answer 404.
  unfoldable pub complete :
      (whole_seconds : ℤ → ℤ) → (now : ℤ) → (id : ℕ) → MemStore F → Option (Session F × MemStore F)
  unfolding find_session count_session
  complete whole_seconds now id s = elim (find_session id s) [
    | none ↦ none
    | some x ↦ some (
      completed_at whole_seconds now x,
      record s {
        sessions = update_where (λ y. y.id == id) (completed_at whole_seconds now) s.sessions;
        streaks = count_session x s.streaks;
      },
    )
  ]
