-- ===== src/Tests/Messages.antt =====
-- Inputs for the theorems on the message broker's queue and consumer, the events and the gateway.
use Prim.Native.String.{◌++◌ as ◌<>◌}
use ruskiy.Shared.{
  ℕ, ltb, if◌then◌else◌, true, false, none, some, List, [], ◌∷◌, length, String, ◌≡◌, refl, arith,
  ◌⊎◌,
}
use ruskiy.Shared.Int.{pos}
use ruskiy.Event.Activity.{ActivityEvent, validate}
use ruskiy.Event.Broker.{
  Broker, new_broker, make_record, with_topic, is_processed, publish, consume, kill_broker,
  elect_new_leader, is_broker_alive,
}
use ruskiy.Event.Broker.Queue.{
  Op, send, receive, kill, elect, accepted, refused, quiet, got, run_broker, availabilities,
  run_queue,
}
use ruskiy.Event.Broker.Queue.Shows.{Shows}
use ruskiy.Event.Broker.Queue.Refine.{run_broker-run_queue}
use ruskiy.Event.Broker.Consumer.{Work, run_consumer, start}
use ruskiy.Event.Broker.Consumer.Once.{NeverAgain, succeeded, run_consumer-once}

-- A hash that is constant, and a topic with two partitions.
abbrev hash : String → ℕ
hash key = 1

abbrev two_partitions : Broker
two_partitions =
    with_topic "t"
      (record { partitions = [] ∷ (make_record "k" "v" 0 ∷ []) ∷ []; leader_map = 0 ∷ 1 ∷ [] })
      (new_broker 2)

abbrev ops : List Op
ops =
    send "k" "w"
    ∷ receive "g" 1
    ∷ receive "other" 1
    ∷ kill 1
    ∷ send "k" "x"
    ∷ elect 1
    ∷ send "k" "y"
    ∷ receive "g" 1
    ∷ receive "g" 1
    ∷ receive "g" 1
    ∷ []

answers :
    run_broker hash "t" "g" 1 ops two_partitions
    ≡ accepted
      ∷ got (some ("k", "v"))
      ∷ quiet
      ∷ quiet
      ∷ refused
      ∷ quiet
      ∷ accepted
      ∷ got (some ("k", "w"))
      ∷ got (some ("k", "y"))
      ∷ got none
      ∷ []
unfolding run_broker publish consume kill_broker elect_new_leader new_broker is_broker_alive
answers = refl

two_partitions-Shows : Shows hash "t" "g" 1 2 (("k", "v") ∷ []) two_partitions
unfolding new_broker
two_partitions-Shows = record {
  topic = record { partitions = [] ∷ (make_record "k" "v" 0 ∷ []) ∷ []; leader_map = 0 ∷ 1 ∷ [] };
  part = make_record "k" "v" 0 ∷ [];
  found = refl;
  placed = refl;
  count = refl;
  leaders = refl;
  read = omega arith;
  view = refl;
}

run_broker-run_queue_example :
    run_broker hash "t" "g" 1 ops two_partitions
    ≡ run_queue hash "t" "g" 1 2
        (availabilities hash "t" "g" 1 ops two_partitions)
        ops
        (("k", "v") ∷ [])
run_broker-run_queue_example =
    run_broker-run_queue hash "t" "g" 1 2 ops (("k", "v") ∷ []) two_partitions two_partitions-Shows

-- A consumer whose handler fails at its first call.
abbrev work : Work
work = record {
  sum32 = hash;
  event_id_of = λ text. text;
  dlq_event = λ payload reason. reason <> payload;
  handler = λ n rec. if ltb n 1 then some "no" else none;
}

run_consumer-once_example :
    let c = (run_consumer work "t" "g" 3 2 (start two_partitions)).1 in
    NeverAgain c.calls
    × (c.processed ≡ length c.calls)
    × ((id : String)
        → (id ≡ "") ⊎ ((succeeded id c.calls ≡ false) ⊎ (is_processed "g" id c.broker ≡ true)))
run_consumer-once_example = run_consumer-once "g" work "t" 3 2 two_partitions

abbrev activity : ActivityEvent
activity = record {
  event_id = "e";
  learner_id = "l";
  session_id = "s";
  timestamp = "2026-01-01T00:00:00Z";
  event_type = "exercise_completed";
  content_id = "c";
  skill_ids = some [];
  is_correct = true;
  error_type = "none";
  session_position = pos 0;
}

validate-activity : validate activity ≡ none
unfolding validate
validate-activity = refl
