-- ===== src/Event/Broker/Consumer.antt =====
-- services/api/internal/event/broker.go: RunConsumer. The JSON library, the time stamp of a DLQEvent and
-- the handler are parameters; the handler is told how many calls it had before. `calls` is the history of
-- its calls, the latest first. The pause of a round without a record is left out.
pub mod Once
use Prim.Native.String.{◌++◌ as ◌<>◌}
use ruskiy.Shared.{
  ℕ, zero, suc, ◌+◌, ◌&&◌, not, if◌then◌else◌, Bool, true, false, Option, none, some, String,
  str_eq, List, [], ◌∷◌, length, any,
}
use ruskiy.Event.Broker.{
  Record, Broker, Outcome, ok, error, panic, publish, consume, mark_processed, is_processed,
}

-- A call of the handler: the event ID of the record, and the reason it failed for.
pub record Call : Type 0 where
  pub event_id : String
  pub failure : Option String

pub record Consumer : Type 0 where
  pub broker : Broker
  pub processed : ℕ
  pub calls : List Call

-- What RunConsumer uses of other code. `event_id_of` is the event_id of a JSON object with such a
-- string, and "" for any other text; `dlq_event` is the JSON of a DLQEvent.
pub record Work : Type 0 where
  pub sum32 : String → ℕ
  pub event_id_of : String → String
  pub dlq_event : (payload reason : String) → String
  pub handler : ℕ → Record → Option String

-- `panic` ends the consumer.
abbrev pub and_then :
    Outcome Unit × Consumer → (Consumer → Outcome Unit × Consumer) → Outcome Unit × Consumer
and_then (ok _, c) f = f c
and_then (error, c) f = f c
and_then (panic, c) f = (panic, c)

-- The consumer after a call of the handler.
abbrev pub called : String → Option String → Broker → Consumer → Consumer
called id failure b c = record {
  broker = b;
  processed = c.processed + 1;
  calls = record { event_id = id; failure = failure } ∷ c.calls;
}

abbrev pub with_broker : Broker → Consumer → Consumer
with_broker b c = record { broker = b; processed = c.processed; calls = c.calls }

-- The error of Publish is ignored.
abbrev pub ignored : Outcome (ℕ × ℕ) → Outcome Unit
ignored (ok _) = ok tt
ignored error = ok tt
ignored panic = panic

module _ (w : Work) (name group : String) where
  -- Behind the call of the handler.
  unfoldable pub settle : Record → String → Option String → Consumer → Outcome Unit × Consumer
  settle rec id (some reason) c =
      let (r, after) =
        publish w.sum32 (name <> ".dlq") rec.key (w.dlq_event rec.value reason) c.broker in
      (ignored r, called id (some reason) after c)
  settle rec id none c = (
    ok tt,
    called id none (if str_eq id "" then c.broker else mark_processed group id c.broker) c,
  )

  -- A record from Consume.
  unfoldable pub process : Record → Consumer → Outcome Unit × Consumer
  unfolding settle
  process rec c =
      let id = w.event_id_of rec.value in
      if not (str_eq id "") && is_processed group id c.broker
      then (ok tt, c)
      else settle rec id (w.handler (length c.calls) rec) c

  -- Behind Consume.
  unfoldable pub on_consumed : Outcome (Option Record) → Consumer → Outcome Unit × Consumer
  unfolding process
  on_consumed (ok none) c = (ok tt, c)
  on_consumed (ok (some rec)) c = process rec c
  on_consumed error c = (ok tt, c)
  on_consumed panic c = (panic, c)

  -- The body of the loop over the partitions.
  unfoldable pub poll : ℕ → Consumer → Outcome Unit × Consumer
  unfolding on_consumed
  poll idx c =
      let (r, after) = consume name group idx c.broker in on_consumed r (with_broker after c)

  unfoldable pub poll_partitions : (rounds idx : ℕ) → Consumer → Outcome Unit × Consumer
  unfolding poll
  poll_partitions zero idx c = (ok tt, c)
  poll_partitions (suc rounds) idx c = and_then (poll idx c) (poll_partitions rounds (suc idx))

  -- `turns` is how often the loop starts before the channel `done` is closed.
  unfoldable pub run_consumer : (turns num_partitions : ℕ) → Consumer → Outcome Unit × Consumer
  unfolding poll_partitions
  run_consumer zero num_partitions c = (ok tt, c)
  run_consumer (suc turns) num_partitions c =
      and_then (poll_partitions num_partitions 0 c) (run_consumer turns num_partitions)

abbrev pub start : Broker → Consumer
start b = record { broker = b; processed = 0; calls = [] }
