-- ===== src/Event/Broker.antt =====
-- services/api/internal/event/broker.go. A method is one function from the broker to its result and the
-- broker afterwards; two methods do not interleave, although Publish and Consume release their locks
-- on the way. Maps are functions: a missing topic is `none`, a missing offset is 0 and a missing broker
-- ID is not killed. Time stamps are left out. An index out of range panics.
pub mod Delivery
pub mod Leaders
pub mod Queue
pub mod Consumer
pub mod Lost
use Prim.Native.Nat.{◌%◌}
use ruskiy.Shared.{
  ℕ, zero, suc, ◌+◌, ◌-◌, ltb, leb, ◌==◌, not, if◌then◌else◌, Bool, true, false, Option, none, some,
  String, str_eq, put, put_at, List, [], ◌∷◌, ◌++◌, length, get_elem?, set, replicate, has,
}

pub record Record : Type 0 where
  pub key : String
  pub value : String
  pub offset : ℕ

abbrev pub Partition : Type 0
Partition = List Record

pub record Topic : Type 0 where
  pub partitions : List Partition
  pub leader_map : List ℕ

-- A channel with the size of its buffer.
pub record Subscriber : Type 0 where
  pub buf_size : ℕ
  pub buffer : List Record

pub record Broker : Type 0 where
  pub topics : String → Option Topic
  pub groups : String → ℕ → ℕ
  pub num_brokers : ℕ
  pub killed_brokers : ℕ → Bool
  pub subscribers : String → List Subscriber
  pub idempotency_log : String → List String

pub data Outcome (A : Type 0) : Type 0 where
  ok : A → Outcome A
  error : Outcome A
  panic : Outcome A

unfoldable pub new_broker : ℕ → Broker
new_broker n = record {
  topics = λ name. none;
  groups = λ group part. 0;
  num_brokers = n;
  killed_brokers = λ id. false;
  subscribers = λ name. [];
  idempotency_log = λ group. [];
}

-- leaders[i] = i % replicationFactor, from the index `i`
unfoldable pub spread_leaders : (i rounds replication_factor : ℕ) → List ℕ
spread_leaders i zero factor = []
spread_leaders i (suc rounds) factor = i % factor ∷ spread_leaders (suc i) rounds factor

unfoldable pub new_topic : (num_partitions replication_factor : ℕ) → Topic
unfolding spread_leaders
new_topic n factor = record { partitions = replicate n []; leader_map = spread_leaders 0 n factor }

abbrev pub with_topic : String → Topic → Broker → Broker
with_topic name t b = record {
  topics = put name (some t) b.topics;
  groups = b.groups;
  num_brokers = b.num_brokers;
  killed_brokers = b.killed_brokers;
  subscribers = b.subscribers;
  idempotency_log = b.idempotency_log;
}

-- With no broker, the remainder by the replication factor panics when there is a partition.
unfoldable pub create_topic : String → ℕ → Broker → Outcome Broker
unfolding new_topic
create_topic name n b =
    if b.num_brokers == 0
    then if n == 0 then ok (with_topic name (new_topic 0 0) b) else panic
    else ok (with_topic name (new_topic n b.num_brokers) b)

abbrev pub make_record : String → String → ℕ → Record
make_record key value offset = record { key = key; value = value; offset = offset }

-- partition.append: the offset and the records afterwards.
unfoldable pub append_record : String → String → Partition → ℕ × Partition
append_record key value p = (length p, p ++ make_record key value (length p) ∷ [])

-- A send that never blocks: a full channel drops the record.
unfoldable pub notify : Record → List Subscriber → List Subscriber
notify rec [] = []
notify rec (s ∷ subs) =
    (if ltb (length s.buffer) s.buf_size
      then record { buf_size = s.buf_size; buffer = s.buffer ++ rec ∷ [] }
      else s)
    ∷ notify rec subs

abbrev pub with_published : String → Topic → List Subscriber → Broker → Broker
with_published name t subs b = record {
  topics = put name (some t) b.topics;
  groups = b.groups;
  num_brokers = b.num_brokers;
  killed_brokers = b.killed_brokers;
  subscribers = put name subs b.subscribers;
  idempotency_log = b.idempotency_log;
}

-- The hash of hash/fnv on a key.
module _ (sum32 : String → ℕ) where
  unfoldable pub partition_for : String → ℕ → ℕ
  partition_for key num_partitions = sum32 key % num_partitions

  -- Publish from the check of the leader on.
  unfoldable pub publish_to :
      String → Topic → ℕ → String → String → Broker → Outcome (ℕ × ℕ) × Broker
  unfolding append_record notify
  publish_to name t idx key value b = elim (get_elem? t.leader_map idx) [
    | none ↦ (panic, b)
    | some leader ↦
        if b.killed_brokers leader then (error, b) else elim (get_elem? t.partitions idx) [
          | none ↦ (panic, b)
          | some p ↦
              let (offset, after) = append_record key value p in
              (
                ok (idx, offset),
                with_published name
                    (record { partitions = set t.partitions idx after; leader_map = t.leader_map })
                    (notify (make_record key value offset) (b.subscribers name)) b,
              )
        ]
  ]

  unfoldable pub publish : String → String → String → Broker → Outcome (ℕ × ℕ) × Broker
  unfolding publish_to partition_for
  publish name key value b = elim (b.topics name) [
    | none ↦ (error, b)
    | some t ↦ publish_to name t (partition_for key (length t.partitions)) key value b
  ]

abbrev pub with_groups : (String → ℕ → ℕ) → Broker → Broker
with_groups groups b = record {
  topics = b.topics;
  groups = groups;
  num_brokers = b.num_brokers;
  killed_brokers = b.killed_brokers;
  subscribers = b.subscribers;
  idempotency_log = b.idempotency_log;
}

-- `ok none` is the zero record and false.
unfoldable pub consume : String → String → ℕ → Broker → Outcome (Option Record) × Broker
consume name group idx b = elim (b.topics name) [
  | none ↦ (ok none, b)
  | some t ↦ elim (get_elem? t.partitions idx) [
    | none ↦ (panic, b)
    | some p ↦
        let offset = b.groups group idx in
        elim (get_elem? p offset) [
          | none ↦ (ok none, b)
          | some rec ↦ (
            ok (some rec),
            with_groups (put group (put_at idx (offset + 1) (b.groups group)) b.groups) b,
          )
        ]
  ]
]

abbrev pub received : Outcome (Option Record) → Option Record
received (ok o) = o
received error = none
received panic = none

-- for { rec, ok := b.Consume(...); if !ok { break }; all = append(all, rec) }, for at most `fuel` records.
unfoldable pub consume_partition : (fuel : ℕ) → String → String → ℕ → Broker → List Record × Broker
consume_partition zero name group idx b = ([], b)
consume_partition (suc fuel) name group idx b =
    let (result, after) = consume name group idx b in
    elim (received result) [
      | none ↦ ([], after)
      | some rec ↦
          let (rest, last) = consume_partition fuel name group idx after in (rec ∷ rest, last)
    ]

-- The loop of ConsumeAll over the partitions from `idx`; the records of a partition bound its rounds.
unfoldable pub consume_partitions :
    List Partition → ℕ → String → String → Broker → List Record × Broker
unfolding consume_partition
consume_partitions [] idx name group b = ([], b)
consume_partitions (p ∷ ps) idx name group b =
    let (here, after) = consume_partition (length p) name group idx b in
    let (rest, last) = consume_partitions ps (suc idx) name group after in (here ++ rest, last)

unfoldable pub consume_all : String → String → Broker → List Record × Broker
unfolding consume_partitions
consume_all name group b = elim (b.topics name) [
  | none ↦ ([], b)
  | some t ↦ consume_partitions t.partitions 0 name group b
]

-- All records of a partition, whatever the offsets of the groups.
unfoldable pub read_partition : String → ℕ → Broker → Outcome (List Record)
read_partition name idx b = elim (b.topics name) [
  | none ↦ ok []
  | some t ↦ elim (get_elem? t.partitions idx) [ none ↦ panic | some p ↦ ok p ]
]

unfoldable pub mark_processed : String → String → Broker → Broker
mark_processed group event_id b = record {
  topics = b.topics;
  groups = b.groups;
  num_brokers = b.num_brokers;
  killed_brokers = b.killed_brokers;
  subscribers = b.subscribers;
  idempotency_log =
      let log = b.idempotency_log group in
      put group (if has event_id log then log else event_id ∷ log) b.idempotency_log;
}

unfoldable pub is_processed : String → String → Broker → Bool
is_processed group event_id b = has event_id (b.idempotency_log group)

unfoldable pub processed_count : String → Broker → ℕ
processed_count group b = length (b.idempotency_log group)

abbrev pub sum_sizes : List Partition → ℕ
sum_sizes [] = 0
sum_sizes (p ∷ ps) = length p + sum_sizes ps

unfoldable pub topic_size : String → Broker → ℕ
topic_size name b = elim (b.topics name) [ none ↦ 0 | some t ↦ sum_sizes t.partitions ]

unfoldable pub kill_broker : ℕ → Broker → Broker
kill_broker id b = record {
  topics = b.topics;
  groups = b.groups;
  num_brokers = b.num_brokers;
  killed_brokers = put_at id true b.killed_brokers;
  subscribers = b.subscribers;
  idempotency_log = b.idempotency_log;
}

unfoldable pub is_broker_alive : ℕ → Broker → Bool
is_broker_alive id b = not (b.killed_brokers id)

-- for i := i; i < i+rounds; i++: the first broker (old+i) % n that is alive.
unfoldable pub next_alive : (rounds i old : ℕ) → Broker → Option ℕ
next_alive zero i old b = none
next_alive (suc rounds) i old b =
    let later = next_alive rounds (suc i) old b in
    let candidate = (old + i) % b.num_brokers in
    if is_broker_alive candidate b then some candidate else later

unfoldable pub elect_in : String → Topic → ℕ → Broker → Outcome ℕ × Broker
unfolding next_alive
elect_in name t idx b = elim (get_elem? t.leader_map idx) [
  | none ↦ (panic, b)
  | some old ↦ elim (next_alive (b.num_brokers - 1) 1 old b) [
    | none ↦ (error, b)
    | some candidate ↦ (
      ok candidate,
      with_topic name
          (record { partitions = t.partitions; leader_map = set t.leader_map idx candidate }) b,
    )
  ]
]

unfoldable pub elect_new_leader : String → ℕ → Broker → Outcome ℕ × Broker
unfolding elect_in
elect_new_leader name idx b = elim (b.topics name) [
  | none ↦ (error, b)
  | some t ↦ elect_in name t idx b
]

unfoldable pub subscribe : String → ℕ → Broker → Broker
subscribe name buf_size b = record b {
  subscribers =
      put name (b.subscribers name ++ record { buf_size = buf_size; buffer = [] } ∷ [])
        b.subscribers;
}

-- A missing topic is a nil pointer.
unfoldable pub get_leader : String → ℕ → Broker → Outcome ℕ
get_leader name idx b = elim (b.topics name) [
  | none ↦ panic
  | some t ↦ elim (get_elem? t.leader_map idx) [ none ↦ panic | some leader ↦ ok leader ]
]
