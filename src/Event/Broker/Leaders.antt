-- ===== src/Event/Broker/Leaders.antt =====
-- Publish and ElectNewLeader of broker.go: where a published record goes, and that a partition is
-- available again after an election.
use mathlib.Core.Path.{subst}
use mathlib.Core.Option.{some-injective}
use Prim.Native.Nat.{◌%◌}
use ruskiy.Shared.{
  ℕ, zero, suc, ◌+◌, ◌-◌, true, false, none, some, String, str_eq_self, List, [], ◌∷◌, ◌++◌, length,
  get_elem?, get_elem?-set_self, set, ◌≡◌, refl, ◌∙◌, ap, arith, Bool-cases, inl, inr, Option-cases,
}
use ruskiy.Event.Broker.{
  Partition, Topic, Broker, ok, error, panic, make_record, partition_for, notify, publish_to,
  publish, with_published, with_topic, consume, is_broker_alive, next_alive, elect_in,
  elect_new_leader,
}
use ruskiy.Event.Broker.Delivery.{consume_result}

module _ (sum32 : String → ℕ) where
  pub publish_ok :
      (name key value : String) (t : Topic) (leader : ℕ) (p : Partition) (b : Broker)
      → b.topics name ≡ some t
      → get_elem? t.leader_map (partition_for sum32 key (length t.partitions)) ≡ some leader
      → b.killed_brokers leader ≡ false
      → get_elem? t.partitions (partition_for sum32 key (length t.partitions)) ≡ some p
      → publish sum32 name key value b ≡ (
        ok (partition_for sum32 key (length t.partitions), length p),
        with_published name
            (record {
              partitions =
                  set t.partitions
                    (partition_for sum32 key (length t.partitions))
                    (p ++ make_record key value (length p) ∷ []);
              leader_map = t.leader_map;
            })
            (notify (make_record key value (length p)) (b.subscribers name))
            b,
      )
  unfolding publish publish_to
  publish_ok name key value t leader p b topic lead alive part =
      rw (topic, lead, alive, part, publish, publish_to) refl

is_broker_alive_lem : (c : ℕ) (b : Broker) → is_broker_alive c b ≡ true → b.killed_brokers c ≡ false
unfolding is_broker_alive
is_broker_alive_lem c b h = ground arith

get_elem?-last : {A : Type 0} (xs : List A) (x : A) → get_elem? (xs ++ x ∷ []) (length xs) ≡ some x
get_elem?-last [] x = refl
get_elem?-last (y ∷ xs) x = get_elem?-last xs x

next_alive-alive :
    (rounds i old c : ℕ) (b : Broker)
    → next_alive rounds i old b ≡ some c
    → is_broker_alive c b ≡ true
unfolding next_alive
next_alive-alive zero i old c b h = absurd (ground arith)
next_alive-alive (suc rounds) i old c b h =
    let candidate = (old + i) % b.num_brokers in
    elim (Bool-cases (is_broker_alive candidate b)) [
      | inl alive ↦
          subst (λ x. is_broker_alive x b ≡ true) (some-injective candidate c (rw alive at h)) alive
      | inr dead ↦ next_alive-alive rounds (suc i) old c b (rw dead at h)
    ]

-- The broker after the election of `c`.
abbrev pub elected_leader : String → Topic → ℕ → ℕ → Broker → Broker
elected_leader name t idx c b =
    with_topic name (record { partitions = t.partitions; leader_map = set t.leader_map idx c }) b

module _ (name : String) (idx : ℕ) (t : Topic) (b : Broker) (topic : b.topics name ≡ some t) where
  pub elect_panic : get_elem? t.leader_map idx ≡ none → elect_new_leader name idx b ≡ (panic, b)
  unfolding elect_new_leader elect_in
  elect_panic e = rw (topic, e, elect_new_leader, elect_in) refl

  pub elect_error :
      (old : ℕ)
      → get_elem? t.leader_map idx ≡ some old
      → next_alive (b.num_brokers - 1) 1 old b ≡ none
      → elect_new_leader name idx b ≡ (error, b)
  unfolding elect_new_leader elect_in
  elect_error old e none_ = rw (topic, e, none_, elect_new_leader, elect_in) refl

  pub elect_some :
      (old c : ℕ)
      → get_elem? t.leader_map idx ≡ some old
      → next_alive (b.num_brokers - 1) 1 old b ≡ some c
      → elect_new_leader name idx b ≡ (ok c, elected_leader name t idx c b)
  unfolding elect_new_leader elect_in
  elect_some old c e found = rw (topic, e, found, elect_new_leader, elect_in) refl

  -- What an election that succeeds leaves behind.
  elect_ok :
      (c : ℕ)
      → (elect_new_leader name idx b).0 ≡ ok c
      → (is_broker_alive c b ≡ true)
        × (get_elem? (set t.leader_map idx c) idx ≡ some c)
        × ((elect_new_leader name idx b).1 ≡ elected_leader name t idx c b)
  elect_ok c elected = elim (Option-cases (get_elem? t.leader_map idx)) [
    | inl e ↦ absurd (ground (arith, (rw (elect_panic e) at elected)))
    | inr (old, e) ↦ elim (Option-cases (next_alive (b.num_brokers - 1) 1 old b)) [
      | inl none_ ↦ absurd (ground (arith, (rw (elect_error old e none_) at elected)))
      | inr (d, found) ↦
          let same : d ≡ c = ground (arith, (rw (elect_some old d e found) at elected)) in
          subst
            (λ x.
              (is_broker_alive x b ≡ true)
              × (get_elem? (set t.leader_map idx x) idx ≡ some x)
              × ((elect_new_leader name idx b).1 ≡ elected_leader name t idx x b))
            same
            (
              next_alive-alive (b.num_brokers - 1) 1 old d b found,
              get_elem?-set_self t.leader_map idx d e,
              ap (λ r. r.1) (elect_some old d e found),
            )
    ]
  ]

module _ (sum32 : String → ℕ) where
  -- For every hash, topic, partition of the topic and key that belongs to the partition: when
  -- ElectNewLeader returns a leader, that broker is alive, and a Publish with the key then succeeds and
  -- appends at the end of the partition.
  pub elect_new_leader-publish :
      (name key value : String) (t : Topic) (p : Partition) (c : ℕ) (b : Broker)
      → b.topics name ≡ some t
      → get_elem? t.partitions (partition_for sum32 key (length t.partitions)) ≡ some p
      → (elect_new_leader name (partition_for sum32 key (length t.partitions)) b).0 ≡ ok c
      → (is_broker_alive c b ≡ true)
        × ((publish sum32 name key value
              (elect_new_leader name (partition_for sum32 key (length t.partitions)) b).1).0
            ≡ ok (partition_for sum32 key (length t.partitions), length p))
  elect_new_leader-publish name key value t p c b topic part elected =
      let idx = partition_for sum32 key (length t.partitions) in
      let (alive, leader, after) = elect_ok name idx t b topic c elected in
      let t2 : Topic = record { partitions = t.partitions; leader_map = set t.leader_map idx c } in
      let running : b.killed_brokers c ≡ false = is_broker_alive_lem c b alive in
      (
        alive,
        rw after (
            ap (λ r. r.0)
              (publish_ok sum32 name key value t2 c p (elected_leader name t idx c b)
                (rw (str_eq_self name) refl) leader running part)),
      )

  -- For every hash, topic, live leader and partition that the key belongs to: Publish returns the partition
  -- and the offset at which a group that has read everything before it then consumes that very record.
  publish-consume :
      (name key value group : String) (t : Topic) (leader : ℕ) (p : Partition) (b : Broker)
      → b.topics name ≡ some t
      → get_elem? t.leader_map (partition_for sum32 key (length t.partitions)) ≡ some leader
      → b.killed_brokers leader ≡ false
      → get_elem? t.partitions (partition_for sum32 key (length t.partitions)) ≡ some p
      → b.groups group (partition_for sum32 key (length t.partitions)) ≡ length p
      → ((publish sum32 name key value b).0
          ≡ ok (partition_for sum32 key (length t.partitions), length p))
        × ((consume name group
              (partition_for sum32 key (length t.partitions))
              (publish sum32 name key value b).1).0
            ≡ ok (some (make_record key value (length p))))
  publish-consume name key value group t leader p b topic lead alive part offset =
      let idx = partition_for sum32 key (length t.partitions) in
      let q = p ++ make_record key value (length p) ∷ [] in
      let t2 : Topic = record { partitions = set t.partitions idx q; leader_map = t.leader_map } in
      let done = publish_ok sum32 name key value t leader p b topic lead alive part in
      let after =
        with_published name t2 (notify (make_record key value (length p)) (b.subscribers name)) b in
      rw done (
        refl,
        consume_result name group idx q after
              (t2, rw (str_eq_self name) refl, get_elem?-set_self t.partitions idx q part)
            ∙ ap (λ o. ok o) (rw offset (get_elem?-last p (make_record key value (length p)))),
      )
