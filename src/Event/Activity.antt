-- ===== src/Event/Activity.antt =====
-- services/api/internal/event/event.go: ActivityEvent with NewActivityEvent, Validate and ValidateJSON, and
-- PublishActivityEvent of broker.go. The UUID, the time stamp and the JSON library are parameters; a
-- nil slice is `none`, and an error is its text.
use ruskiy.Shared.{
  ℕ, if◌then◌else◌, Bool, true, false, Option, none, some, String, str_eq, str_eq_iff, List, ◌≡◌,
  ◌≢◌, refl, arith, ◌⊎◌, inl, inr,
}
use ruskiy.Shared.Int.{ℤ}
use ruskiy.Event.Broker.{Broker, Outcome, error, publish}

abbrev pub topic_learner_activity : String
topic_learner_activity = "learner.activity"

pub record ActivityEvent : Type 0 where
  pub event_id : String
  pub learner_id : String
  pub session_id : String
  pub timestamp : String
  pub event_type : String
  pub content_id : String
  pub skill_ids : Option (List String)
  pub is_correct : Bool
  pub error_type : String
  pub session_position : ℤ

unfoldable pub new_activity_event :
    (uuid now learner_id session_id content_id : String)
    → Option (List String)
    → Bool
    → (error_type : String) → ℤ
    → ActivityEvent
new_activity_event uuid now learner_id session_id content_id skill_ids is_correct error_type
      position =
    record {
      event_id = uuid;
      learner_id = learner_id;
      session_id = session_id;
      timestamp = now;
      event_type = "exercise_completed";
      content_id = content_id;
      skill_ids = skill_ids;
      is_correct = is_correct;
      error_type = error_type;
      session_position = position;
    }

abbrev is_missing : Option (List String) → Bool
is_missing none = true
is_missing (some _) = false

-- The first field that is missing.
unfoldable pub validate : ActivityEvent → Option String
validate e =
    if str_eq e.event_id ""
    then some "missing event_id"
    else if str_eq e.learner_id ""
    then some "missing learner_id"
    else if str_eq e.session_id ""
    then some "missing session_id"
    else if str_eq e.timestamp ""
    then some "missing timestamp"
    else if str_eq e.event_type ""
    then some "missing event_type"
    else if str_eq e.content_id ""
    then some "missing content_id"
    else if is_missing e.skill_ids
    then some "missing skill_ids"
    else if str_eq e.error_type ""
    then some "missing error_type"
    else none

-- json.Unmarshal, with `none` for its error.
unfoldable pub validate_json :
    (unmarshal : String → Option ActivityEvent) → String → String ⊎ ActivityEvent
unfolding validate
validate_json unmarshal text = elim (unmarshal text) [
  | none ↦ inl "invalid JSON"
  | some e ↦ elim (validate e) [ none ↦ inr e | some missing ↦ inl missing ]
]

-- json.Marshal, with `none` for its error, and the hash of hash/fnv.
unfoldable pub publish_activity_event :
    (marshal : ActivityEvent → Option String) (sum32 : String → ℕ)
    → Broker
    → ActivityEvent
    → Outcome (ℕ × ℕ) × Broker
publish_activity_event marshal sum32 b e = elim (marshal e) [
  | none ↦ (error, b)
  | some text ↦ publish sum32 topic_learner_activity e.learner_id text b
]

-- No required field is missing.
record Complete (e : ActivityEvent) : Type 0 where
  event_id : e.event_id ≢ ""
  learner_id : e.learner_id ≢ ""
  session_id : e.session_id ≢ ""
  timestamp : e.timestamp ≢ ""
  event_type : e.event_type ≢ ""
  content_id : e.content_id ≢ ""
  skill_ids : e.skill_ids ≢ none
  error_type : e.error_type ≢ ""

filled : (s : String) → str_eq s "" ≡ false → s ≢ ""
filled s e same = ground (arith, e, (str_eq_iff s "").1 same)

given : (o : Option (List String)) → is_missing o ≡ false → o ≢ none
given none e same = ground (arith, e)
given (some l) e same = ground (arith, same)

next_check :
    (b : Bool) (message : String) (rest : Option String)
    → (if b then some message else rest) ≡ none
    → (b ≡ false) × (rest ≡ none)
next_check true message rest e = absurd (ground (arith, e))
next_check false message rest e = (refl, e)

-- Validate finds nothing missing only in an event that has all required fields.
validate-Complete : (e : ActivityEvent) → validate e ≡ none → Complete e
unfolding validate
validate-Complete e h =
    let (a, h1) = next_check (str_eq e.event_id "") "missing event_id" _ h in
    let (b, h2) = next_check (str_eq e.learner_id "") "missing learner_id" _ h1 in
    let (c, h3) = next_check (str_eq e.session_id "") "missing session_id" _ h2 in
    let (d, h4) = next_check (str_eq e.timestamp "") "missing timestamp" _ h3 in
    let (f, h5) = next_check (str_eq e.event_type "") "missing event_type" _ h4 in
    let (g, h6) = next_check (str_eq e.content_id "") "missing content_id" _ h5 in
    let (i, h7) = next_check (is_missing e.skill_ids) "missing skill_ids" _ h6 in
    let (j, h8) = next_check (str_eq e.error_type "") "missing error_type" _ h7 in
    record {
      event_id = filled e.event_id a;
      learner_id = filled e.learner_id b;
      session_id = filled e.session_id c;
      timestamp = filled e.timestamp d;
      event_type = filled e.event_type f;
      content_id = filled e.content_id g;
      skill_ids = given e.skill_ids i;
      error_type = filled e.error_type j;
    }
