-- ===== src/Store/Sessions.antt =====
-- services/api/internal/store/session.go and session_item.go: SessionStore. An INSERT is `none` where the
-- keys of migrations 001 and 004 refuse the row; a transaction that fails leaves the tables as they are.
use ruskiy.Shared.{
  ℕ, ◌==◌, ◌&&◌, ◌||◌, not, if◌then◌else◌, Bool, true, false, Option, none, some, String, str_eq,
  List, [], ◌∷◌, ◌++◌, keep, ltb,
}
use ruskiy.Shared.Int.{ℤ, pos, ltb_ℤ}
use ruskiy.Model.{Session, SessionItem, SessionItemRole, no_role, completed, ExerciseResult}
use ruskiy.Store.Database.{Tables, Postgres, query_row, update_where, exists_where, limit}

-- The enum session_item_role.
abbrev pub is_role : SessionItemRole → Bool
is_role no_role = false
is_role _ = true

-- The enum error_type, where it is not NULL.
abbrev pub is_error_type : Option String → Bool
is_error_type none = true
is_error_type (some t) =
    str_eq t "transfer"
    || str_eq t "overgeneralization"
    || str_eq t "avoidance"
    || str_eq t "fossilization"
    || str_eq t "general"

abbrev pub completed_item : SessionItem → SessionItem
completed_item i = record i { completed = true }

module _ {F : Type 0} where
  abbrev pub has_session : ℕ → Tables F → Bool
  has_session id t = exists_where (λ s. s.id == id) t.sessions

  abbrev pub has_content : ℕ → Tables F → Bool
  has_content id t = exists_where (λ c. c.id == id) t.content

  abbrev pub has_learner : String → Tables F → Bool
  has_learner id t = exists_where (λ p. str_eq p.id id) t.profiles

  abbrev pub has_skill : String → Tables F → Bool
  has_skill id t = exists_where (λ k. str_eq k.skill_id id) t.skills

  abbrev pub with_sessions : List (Session F) → Tables F → Tables F
  with_sessions sessions t = record t { sessions = sessions }

  abbrev pub with_items : List SessionItem → Tables F → Tables F
  with_items items t = record t { session_items = items }

  -- The row that Create inserts: completed_at and duration have their defaults.
  abbrev pub inserted_session : Postgres F → Session F → Session F
  inserted_session pg s = record s {
    started_at = pg.timestamptz s.started_at;
    completed_at = none;
    duration = pos 0;
    accuracy_rate = pg.numeric 3 s.accuracy_rate;
  }

  unfoldable pub create : Postgres F → Session F → Tables F → Option (Tables F)
  create pg s t =
      if not (has_session s.id t) && has_learner s.learner_id t
      then some (with_sessions (t.sessions ++ inserted_session pg s ∷ []) t)
      else none

  unfoldable pub get_by_id : ℕ → Tables F → Option (Session F)
  get_by_id id t = query_row (λ s. s.id == id) t.sessions

  -- The timestamp, which no query reads, is as it was given.
  unfoldable pub save_result : ExerciseResult → Tables F → Option (Tables F)
  save_result r t =
      if not (exists_where (λ o. o.id == r.id) t.results)
        && has_session r.session_id t
        && has_content r.content_id t
        && has_learner r.learner_id t
        && is_error_type r.error_type
      then some (record t { results = t.results ++ r ∷ [] })
      else none

  unfoldable pub insert_item : SessionItem → Tables F → Option (Tables F)
  insert_item item t =
      if not (exists_where (λ o. o.id == item.id) t.session_items)
        && has_session item.session_id t
        && has_content item.content_id t
        && has_skill item.skill_id t
        && is_role item.role
      then some (with_items (t.session_items ++ item ∷ []) t)
      else none

  -- The loop of a transaction.
  unfoldable pub insert_items : List SessionItem → Tables F → Option (Tables F)
  unfolding insert_item
  insert_items [] t = some t
  insert_items (item ∷ items) t = elim (insert_item item t) [
    | none ↦ none
    | some t' ↦ insert_items items t'
  ]

  unfoldable pub create_session_with_items :
      Postgres F → Session F → List SessionItem → Tables F → Option (Tables F)
  unfolding create
  create_session_with_items pg s items t = elim (create pg s t) [
    | none ↦ none
    | some t' ↦ insert_items items t'
  ]

  unfoldable pub create_session_items : List SessionItem → Tables F → Option (Tables F)
  create_session_items items t = insert_items items t

  unfoldable pub get_session_items : Postgres F → ℕ → Tables F → List SessionItem
  get_session_items pg session_id t =
      pg.order_by.sort SessionItem (λ a b. ltb a.position b.position)
        (keep (λ i. i.session_id == session_id) t.session_items)

  unfoldable pub mark_item_completed : ℕ → Tables F → Tables F
  mark_item_completed id t =
      with_items (update_where (λ i. i.id == id) completed_item t.session_items) t

  abbrev pub progressed : Postgres F → ℕ → ℤ → F → Session F → Session F
  progressed pg current_index total_xp accuracy_rate s = record s {
    current_index = current_index;
    total_xp = total_xp;
    accuracy_rate = pg.numeric 3 accuracy_rate;
  }

  unfoldable pub update_session_state : Postgres F → ℕ → ℕ → ℤ → F → Tables F → Tables F
  update_session_state pg id current_index total_xp accuracy_rate t =
      with_sessions
        (update_where (λ s. s.id == id) (progressed pg current_index total_xp accuracy_rate)
          t.sessions)
        t

  abbrev pub completed_at : Postgres F → ℤ → ℤ → F → ℤ → Session F → Session F
  completed_at pg now total_xp accuracy_rate duration s = record s {
    status = completed;
    completed_at = some (pg.timestamptz now);
    total_xp = total_xp;
    accuracy_rate = pg.numeric 3 accuracy_rate;
    duration = duration;
  }

  unfoldable pub complete_session : Postgres F → (now : ℤ) → ℕ → ℤ → F → ℤ → Tables F → Tables F
  complete_session pg now id total_xp accuracy_rate duration t =
      with_sessions
        (update_where (λ s. s.id == id) (completed_at pg now total_xp accuracy_rate duration)
          t.sessions)
        t

  unfoldable pub list_by_learner : Postgres F → String → ℕ → Tables F → List (Session F)
  list_by_learner pg learner n t = limit n (
      pg.order_by.sort (Session F) (λ a b. ltb_ℤ b.started_at a.started_at)
        (keep (λ s. str_eq s.learner_id learner) t.sessions))
