-- ===== src/Event/Broker/Queue.antt =====
-- What one consumer group sees of one partition of services/api/internal/event/broker.go: a queue, as
-- a specification of Publish, Consume, KillBroker and ElectNewLeader.
pub mod Shows
pub mod Refine
use ruskiy.Shared.{
  ℕ, ltb, ◌==◌, ◌&&◌, not, if◌then◌else◌, Bool, true, false, Option, none, some, String, str_eq,
  List, [], ◌∷◌, ◌++◌, length, get_elem?,
}
use ruskiy.Event.Broker.{
  Record, Broker, Outcome, ok, error, panic, partition_for, publish, consume, kill_broker,
  elect_new_leader,
}

-- What is done on one topic: Publish, Consume for a group and a partition, KillBroker, and
-- ElectNewLeader for a partition.
pub data Op : Type 0 where
  send : (key value : String) → Op
  receive : (group_id : String) (part : ℕ) → Op
  kill : ℕ → Op
  elect : ℕ → Op

-- What the group sees of it; `quiet` is a result for others, `crashed` an index out of range, for all.
pub data Reply : Type 0 where
  accepted refused crashed quiet : Reply
  got : Option (String × String) → Reply

abbrev pub payload : Record → String × String
payload rec = (rec.key, rec.value)

abbrev pub payloads : List Record → List (String × String)
payloads [] = []
payloads (rec ∷ recs) = payload rec ∷ payloads recs

abbrev pub sent : Outcome (ℕ × ℕ) → Reply
sent (ok _) = accepted
sent error = refused
sent panic = crashed

abbrev pub heard : Outcome (Option Record) → Reply
heard (ok none) = got none
heard (ok (some rec)) = got (some (payload rec))
heard error = refused
heard panic = crashed

abbrev pub watched : {A : Type 0} → Outcome A → Reply
watched (ok _) = quiet
watched error = quiet
watched panic = crashed

-- The group's view of the partition `idx` of the topic `name`.
module _ (sum32 : String → ℕ) (name group : String) (idx : ℕ) where
  abbrev pub is_mine : String → ℕ → Bool
  is_mine g i = str_eq g group && (i == idx)

  -- One operation on the broker.
  unfoldable pub broker_step : Op → Broker → Reply × Broker
  broker_step (send key value) b =
      let (r, after) = publish sum32 name key value b in (sent r, after)
  broker_step (receive g i) b =
      let (r, after) = consume name g i b in (if is_mine g i then heard r else watched r, after)
  broker_step (kill id) b = (quiet, kill_broker id b)
  broker_step (elect i) b = let (r, after) = elect_new_leader name i b in (watched r, after)

  unfoldable pub run_broker : List Op → Broker → List Reply
  unfolding broker_step
  run_broker [] b = []
  run_broker (op ∷ ops) b = let (a, after) = broker_step op b in a ∷ run_broker ops after

  -- Whether the leader of the key's partition is alive.
  unfoldable pub is_available : String → Broker → Bool
  is_available key b = elim (b.topics name) [
    | none ↦ false
    | some t ↦ elim (get_elem? t.leader_map (partition_for sum32 key (length t.partitions))) [
      | none ↦ false
      | some leader ↦ not (b.killed_brokers leader)
    ]
  ]

  abbrev pub availability : Op → Broker → Bool
  availability (send key value) b = is_available key b
  availability _ b = true

  abbrev pub availabilities : List Op → Broker → List Bool
  availabilities [] b = []
  availabilities (op ∷ ops) b = availability op b ∷ availabilities ops (broker_step op b).1

  -- The specification. `n` is the number of partitions, and the Boolean says whether a key's partition
  -- has a live leader.
  abbrev pub dequeue : List (String × String) → Reply × List (String × String)
  dequeue [] = (got none, [])
  dequeue (x ∷ q) = (got (some x), q)

  -- The index of a partition.
  abbrev pub checked : (n : ℕ) → ℕ → Reply
  checked n i = if ltb i n then quiet else crashed

  unfoldable pub queue_step :
      ℕ → Bool → Op → List (String × String) → Reply × List (String × String)
  queue_step n up (send key value) q =
      if up
      then (accepted, if partition_for sum32 key n == idx then q ++ (key, value) ∷ [] else q)
      else (refused, q)
  queue_step n up (receive g i) q = if is_mine g i then dequeue q else (checked n i, q)
  queue_step n up (kill id) q = (quiet, q)
  queue_step n up (elect i) q = (checked n i, q)

  unfoldable pub run_queue : ℕ → List Bool → List Op → List (String × String) → List Reply
  unfolding queue_step
  run_queue n ups [] q = []
  run_queue n [] (op ∷ ops) q = []
  run_queue n (up ∷ ups) (op ∷ ops) q =
      let (a, rest) = queue_step n up op q in a ∷ run_queue n ups ops rest
