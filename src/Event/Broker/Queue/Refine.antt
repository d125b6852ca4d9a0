-- ===== src/Event/Broker/Queue/Refine.antt =====
-- A partition of the broker, as one consumer group sees it, refines the queue.
use mathlib.Core.Path.{subst, ap₂}
use mathlib.Core.Option.{some-injective}
use native.Mathlib.Nat.{mod-lt}
use ruskiy.Shared.{
  ℕ, zero, suc, ◌<◌, ◌≤◌, ◌==◌, ==→eq, not, Bool, Bool-cases, true, false, some, String,
  str_eq_self, List, [], ◌∷◌, ◌++◌, length, length-append, length-set, get_elem?, get_elem?-total,
  get_elem?-set_self, get_elem?-set_ne, lt_of_get_elem?, set, drop, ◌≡◌, ◌≢◌, refl, sym, ◌∙◌, ap,
  arith, inl, inr,
}
use ruskiy.Event.Broker.{
  Record, Partition, Topic, Broker, Outcome, ok, error, make_record, partition_for, notify,
  publish_to, publish, with_published,
}
use ruskiy.Event.Broker.Leaders.{publish_ok}
use ruskiy.Event.Broker.Queue.Shows.{
  Shows, Simulates, kill-Simulates, elect-Simulates, receive-Simulates,
}
use ruskiy.Event.Broker.Queue.{
  Op, send, receive, kill, elect, Reply, payload, payloads, sent, broker_step, run_broker,
  is_available, availability, availabilities, queue_step, run_queue,
}

drop_append :
    {A : Type 0} (xs : List A) (i : ℕ) (x : A)
    → i ≤ length xs
    → drop i (xs ++ x ∷ []) ≡ drop i xs ++ x ∷ []
drop_append [] zero x h = refl
drop_append [] (suc i) x h = absurd (ground (arith, h))
drop_append (y ∷ ys) zero x h = refl
drop_append (y ∷ ys) (suc i) x h = drop_append ys i x (omega arith)

payloads-append :
    (xs : List Record) (r : Record) → payloads (xs ++ r ∷ []) ≡ payloads xs ++ payload r ∷ []
payloads-append [] r = refl
payloads-append (x ∷ xs) r = ap (λ l. payload x ∷ l) (payloads-append xs r)

module _ (sum32 : String → ℕ) (name : String) where
  publish_down :
      (key value : String) (t : Topic) (leader : ℕ) (b : Broker)
      → b.topics name ≡ some t
      → get_elem? t.leader_map (partition_for sum32 key (length t.partitions)) ≡ some leader
      → b.killed_brokers leader ≡ true
      → publish sum32 name key value b ≡ (error, b)
  unfolding publish publish_to
  publish_down key value t leader b e e2 e3 = rw (e, e2, e3, publish, publish_to) refl

  module _ (group : String) (idx : ℕ) where
    module _ (n : ℕ) (key value : String) (q : List (String × String)) where
      abbrev Sends : Bool → Outcome (ℕ × ℕ) × Broker → Type 0
      Sends up r =
          (sent r.0 ≡ (queue_step sum32 name group idx n up (send key value) q).0)
          × Shows sum32 name group idx n (queue_step sum32 name group idx n up (send key value) q).1
              r.1

      send_down : (b : Broker) → Shows sum32 name group idx n q b → Sends false (error, b)
      unfolding queue_step
      send_down b s = (refl, s)

      -- A record at the end of the partition `k`, which may be this one or another.
      after_send : ℕ → Partition → (b : Broker) → Shows sum32 name group idx n q b → Broker
      after_send k p b s =
          with_published name
            (record {
              partitions = set s.topic.partitions k (p ++ make_record key value (length p) ∷ []);
              leader_map = s.topic.leader_map;
            })
            (notify (make_record key value (length p)) (b.subscribers name)) b

      send_here :
          (p : Partition) (b : Broker) (s : Shows sum32 name group idx n q b)
          → get_elem? s.topic.partitions idx ≡ some p
          → Shows sum32 name group idx n (q ++ (key, value) ∷ []) (after_send idx p b s)
      unfolding after_send
      send_here p b s part =
          let o = b.groups group idx in
          let rec = make_record key value (length p) in
          let same : s.part ≡ p = some-injective s.part p (sym s.placed ∙ part) in
          let read : o ≤ length p = subst (λ x. o ≤ length x) same s.read in
          record {
            topic = record {
              partitions = set s.topic.partitions idx (p ++ rec ∷ []);
              leader_map = s.topic.leader_map;
            };
            part = p ++ rec ∷ [];
            found = rw (str_eq_self name) refl;
            placed = get_elem?-set_self s.topic.partitions idx (p ++ rec ∷ []) part;
            count = length-set s.topic.partitions idx (p ++ rec ∷ []) ∙ s.count;
            leaders = s.leaders;
            read = omega (arith, length-append p (rec ∷ []), read);
            view =
                ap payloads (drop_append p o rec read)
                ∙ payloads-append (drop o p) rec
                ∙ ap (λ l. l ++ (key, value) ∷ [])
                    (ap (λ x. payloads (drop o x)) (sym same) ∙ s.view);
          }

      send_elsewhere :
          (k : ℕ) (p : Partition) (b : Broker) (s : Shows sum32 name group idx n q b)
          → idx ≢ k
          → Shows sum32 name group idx n q (after_send k p b s)
      unfolding after_send
      send_elsewhere k p b s apart =
          let new = p ++ make_record key value (length p) ∷ [] in
          record {
            topic = record {
              partitions = set s.topic.partitions k new;
              leader_map = s.topic.leader_map;
            };
            part = s.part;
            found = rw (str_eq_self name) refl;
            placed = get_elem?-set_ne s.topic.partitions k idx new apart ∙ s.placed;
            count = length-set s.topic.partitions k new ∙ s.count;
            leaders = s.leaders;
            read = s.read;
            view = s.view;
          }

      send_up :
          (p : Partition) (b : Broker) (s : Shows sum32 name group idx n q b)
          → get_elem? s.topic.partitions (partition_for sum32 key n) ≡ some p
          → Sends true (
            ok (partition_for sum32 key n, length p),
            after_send (partition_for sum32 key n) p b s,
          )
      unfolding queue_step
      send_up p b s part =
          let k = partition_for sum32 key n in
          elim (Bool-cases (k == idx)) [
            | inl e ↦
                let here : k ≡ idx = ==→eq k idx e in
                rw (e, queue_step)
                  (
                    refl,
                    subst
                        (λ x.
                          Shows sum32 name group idx n (q ++ (key, value) ∷ [])
                            (after_send x p b s))
                        (sym here)
                        (send_here p b s
                          (subst (λ x. get_elem? s.topic.partitions x ≡ some p) here part)),
                  )
            | inr e ↦ rw (e, queue_step) (refl, send_elsewhere k p b s (λ h. ground (arith, e, h)))
          ]

      is_available_lem :
          (leader : ℕ) (b : Broker) (s : Shows sum32 name group idx n q b)
          → get_elem? s.topic.leader_map (partition_for sum32 key n) ≡ some leader
          → is_available sum32 name group idx key b ≡ not (b.killed_brokers leader)
      unfolding is_available
      is_available_lem leader b s lead = rw (s.found, s.count, lead, is_available) refl

      -- The partition of a key is one of the topic's.
      partition_for-lt :
          (b : Broker) → Shows sum32 name group idx n q b → partition_for sum32 key n < n
      unfolding partition_for
      partition_for-lt b s =
          mod-lt (sum32 key)
            (omega (arith, lt_of_get_elem? s.topic.partitions idx s.placed, s.count))

      send-Simulates :
          (b : Broker)
          → Shows sum32 name group idx n q b
          → Simulates sum32 name group idx n (send key value) q b
      unfolding broker_step after_send
      send-Simulates b s =
          let k = partition_for sum32 key n in
          let small = partition_for-lt b s in
          let (leader, lead) =
            get_elem?-total s.topic.leader_map k (omega (arith, small, s.leaders)) in
          let (p, part) = get_elem?-total s.topic.partitions k (omega (arith, small, s.count)) in
          let lead2 : get_elem? s.topic.leader_map
                (partition_for sum32 key (length s.topic.partitions))
              ≡ some leader =
            rw s.count lead in
          let part2 : get_elem? s.topic.partitions
                (partition_for sum32 key (length s.topic.partitions))
              ≡ some p =
            rw s.count part in
          let state = is_available_lem leader b s lead in
          let Goal : Bool → Outcome (ℕ × ℕ) × Broker → Type 0 = Sends in
          elim (Bool-cases (b.killed_brokers leader)) [
            | inl down ↦
                subst (λ up. Goal up (publish sum32 name key value b)) (sym (state ∙ ap not down))
                  (subst (Goal false)
                    (sym (publish_down key value s.topic leader b s.found lead2 down))
                    (send_down b s))
            | inr alive ↦
                let published =
                  publish_ok sum32 name key value s.topic leader p b s.found lead2 alive part2 in
                subst (λ up. Goal up (publish sum32 name key value b)) (sym (state ∙ ap not alive))
                  (subst (Goal true) (sym (rw s.count at published)) (send_up p b s part))
          ]

    step-Simulates :
        (n : ℕ) (op : Op) (q : List (String × String)) (b : Broker)
        → Shows sum32 name group idx n q b
        → Simulates sum32 name group idx n op q b
    step-Simulates n (send key value) q b s = send-Simulates n key value q b s
    step-Simulates n (receive g i) q b s = receive-Simulates sum32 name group idx n g i q b s
    step-Simulates n (kill id) q b s = kill-Simulates sum32 name group idx n id q b s
    step-Simulates n (elect i) q b s = elect-Simulates sum32 name group idx n i q b s

    -- For every partition of a topic with a leader for each of its `n` partitions, and a group that has not
    -- read past the end of the partition: over every sequence of calls on this topic, Publish, Consume of
    -- any group and ElectNewLeader, and of broker failures, the group gets the answers of a queue that
    -- starts with the records it has not read. A Publish is refused exactly when the leader of its
    -- key's partition is down, and is seen by the group exactly when that partition is this one. A
    -- Consume or an election panics exactly when its partition is not one of the `n`; nothing else panics.
    -- Calls on other topics are not among them: a Consume by the group from another topic moves the same offset.
    pub run_broker-run_queue :
        (n : ℕ) (ops : List Op) (q : List (String × String)) (b : Broker)
        → Shows sum32 name group idx n q b
        → run_broker sum32 name group idx ops b
          ≡ run_queue sum32 name group idx n (availabilities sum32 name group idx ops b) ops q
    unfolding run_broker run_queue
    run_broker-run_queue n [] q b s = refl
    run_broker-run_queue n (op ∷ ops) q b s =
        let (same, next) = step-Simulates n op q b s in
        ap₂ (λ (a : Reply) (l : List Reply). a ∷ l) same
          (run_broker-run_queue n ops
            (queue_step sum32 name group idx n (availability sum32 name group idx op b) op q).1
            (broker_step sum32 name group idx op b).1 next)
