-- ===== src/Event/Broker/Queue/Shows.antt =====
-- When a broker shows a queue to a group, and that Consume, KillBroker and ElectNewLeader keep to the queue.
use mathlib.Core.Path.{subst}
use ruskiy.Shared.{
  ℕ, suc, ◌-◌, ◌≤◌, ◌<◌, ◌==◌, ==→eq, ◌&&◌, &&→both, Bool-cases, false, Option, Option-cases, some,
  String, str_eq, str_eq_iff, str_eq_self, List, [], ◌∷◌, length, length-set, get_elem?,
  lt_of_get_elem?, set, drop, ◌≡◌, refl, sym, ◌∙◌, ap, arith, inl, inr, ◌⊎◌,
}
use ruskiy.Event.Broker.{
  Record, Partition, Topic, Broker, Outcome, consume, kill_broker, next_alive, elect_new_leader,
}
use ruskiy.Event.Broker.Delivery.{
  Holds, consume-some, consume-none, next_offset, next_offset_at, drop_cons, get_elem?-none,
  get_elem?-none-length,
}
use ruskiy.Event.Broker.Leaders.{elect_panic, elect_error, elect_some, elected_leader}
use ruskiy.Event.Broker.Queue.{
  Op, receive, kill, elect, quiet, crashed, payload, payloads, heard, watched, checked, broker_step,
  availability, dequeue, queue_step,
}

-- What a Consume leaves behind.
pub consume-after :
    (name g : String) (i : ℕ) (b : Broker)
    → ((consume name g i b).1 ≡ b) ⊎ ((consume name g i b).1 ≡ next_offset g i b)
unfolding consume
consume-after name g i b = elim (Option-cases (b.topics name)) [
  | inl e ↦ inl (rw (e, consume) refl)
  | inr (t, e) ↦ elim (Option-cases (get_elem? t.partitions i)) [
    | inl e2 ↦ inl (rw (e, e2, consume) refl)
    | inr (p, e2) ↦ elim (Option-cases (get_elem? p (b.groups g i))) [
      | inl e3 ↦ inl (rw (e, e2, e3, consume) refl)
      | inr (rec, e3) ↦ inr (rw (e, e2, e3, consume) refl)
    ]
  ]
]

pub other_offset :
    (group g : String) (idx i : ℕ) (b : Broker)
    → (str_eq g group && (i == idx)) ≡ false
    → (next_offset g i b).groups group idx ≡ b.groups group idx
other_offset group g idx i b e = elim (Bool-cases (str_eq g group)) [
  | inl same ↦
      let eq : g ≡ group = (str_eq_iff g group).0 same in
      let far : (i == idx) ≡ false = ground (arith, (rw same at e)) in
      rw (same, far) (ap (λ x. b.groups x idx) eq)
  | inr apart ↦ rw apart refl
]

-- What an election leaves behind.
pub elect-after :
    (name : String) (i : ℕ) (t : Topic) (b : Broker)
    → b.topics name ≡ some t
    → ((elect_new_leader name i b).1 ≡ b)
      ⊎ ((c : ℕ) × ((elect_new_leader name i b).1 ≡ elected_leader name t i c b))
elect-after name i t b e = elim (Option-cases (get_elem? t.leader_map i)) [
  | inl none_ ↦ inl (ap (λ r. r.1) (elect_panic name i t b e none_))
  | inr (old, lead) ↦ elim (Option-cases (next_alive (b.num_brokers - 1) 1 old b)) [
    | inl dead ↦ inl (ap (λ r. r.1) (elect_error name i t b e old lead dead))
    | inr (c, alive) ↦ inr (c, ap (λ r. r.1) (elect_some name i t b e old c lead alive))
  ]
]

module _ (sum32 : String → ℕ) (name group : String) (idx n i : ℕ) where
  checked_in : i < n → checked sum32 name group idx n i ≡ quiet
  checked_in h = ground (arith, h)

  checked_out : n ≤ i → checked sum32 name group idx n i ≡ crashed
  checked_out h = ground (arith, h)

  consume-reply :
      (g : String) (t : Topic) (b : Broker)
      → b.topics name ≡ some t
      → length t.partitions ≡ n
      → watched (consume name g i b).0 ≡ checked sum32 name group idx n i
  unfolding consume
  consume-reply g t b e count = elim (Option-cases (get_elem? t.partitions i)) [
    | inl out ↦
        rw (e, out, consume)
          (sym (checked_out (omega (arith, count, get_elem?-none-length t.partitions i out))))
    | inr (p, part) ↦
        let small = checked_in (omega (arith, count, lt_of_get_elem? t.partitions i part)) in
        elim (Option-cases (get_elem? p (b.groups g i))) [
          | inl end ↦ rw (e, part, end, consume) (sym small)
          | inr (rec, here) ↦ rw (e, part, here, consume) (sym small)
        ]
  ]

  elect-reply :
      (t : Topic) (b : Broker)
      → b.topics name ≡ some t
      → length t.leader_map ≡ n
      → watched (elect_new_leader name i b).0 ≡ checked sum32 name group idx n i
  elect-reply t b e count = elim (Option-cases (get_elem? t.leader_map i)) [
    | inl out ↦
        ap (λ r. watched r.0) (elect_panic name i t b e out)
        ∙ sym (checked_out (omega (arith, count, get_elem?-none-length t.leader_map i out)))
    | inr (old, lead) ↦
        let small = checked_in (omega (arith, count, lt_of_get_elem? t.leader_map i lead)) in
        elim (Option-cases (next_alive (b.num_brokers - 1) 1 old b)) [
          | inl dead ↦ ap (λ r. watched r.0) (elect_error name i t b e old lead dead) ∙ sym small
          | inr (c, alive) ↦
              ap (λ r. watched r.0) (elect_some name i t b e old c lead alive) ∙ sym small
        ]
  ]

module _ (sum32 : String → ℕ) (name : String) where
  module _ (group : String) (idx : ℕ) where
    -- The topic has `n` partitions with a leader each, and `q` is what the group has not read of the partition.
    pub record Shows (n : ℕ) (q : List (String × String)) (b : Broker) : Type 0 where
      pub topic : Topic
      pub part : Partition
      pub found : b.topics name ≡ some topic
      pub placed : get_elem? topic.partitions idx ≡ some part
      pub count : length topic.partitions ≡ n
      pub leaders : length topic.leader_map ≡ n
      pub read : b.groups group idx ≤ length part
      pub view : payloads (drop (b.groups group idx) part) ≡ q

    abbrev pub Simulates : ℕ → Op → List (String × String) → Broker → Type 0
    Simulates n op q b =
        let up = availability sum32 name group idx op b in
        ((broker_step sum32 name group idx op b).0 ≡ (queue_step sum32 name group idx n up op q).0)
        × Shows n (queue_step sum32 name group idx n up op q).1
            (broker_step sum32 name group idx op b).1

    pub kill-Simulates :
        (n id : ℕ) (q : List (String × String)) (b : Broker)
        → Shows n q b
        → Simulates n (kill id) q b
    unfolding broker_step queue_step kill_broker
    kill-Simulates n id q b s = (
      refl,
      record {
        topic = s.topic;
        part = s.part;
        found = s.found;
        placed = s.placed;
        count = s.count;
        leaders = s.leaders;
        read = s.read;
        view = s.view;
      },
    )

    pub elect-Simulates :
        (n i : ℕ) (q : List (String × String)) (b : Broker)
        → Shows n q b
        → Simulates n (elect i) q b
    unfolding broker_step queue_step
    elect-Simulates n i q b s = (
      elect-reply sum32 name group idx n i s.topic b s.found s.leaders,
      elim (elect-after name i s.topic b s.found) [
        | inl e ↦ subst (Shows n q) (sym e) s
        | inr (c, e) ↦ subst (Shows n q) (sym e) (record {
          topic = record {
            partitions = s.topic.partitions;
            leader_map = set s.topic.leader_map i c;
          };
          part = s.part;
          found = rw (str_eq_self name) refl;
          placed = s.placed;
          count = s.count;
          leaders = length-set s.topic.leader_map i c ∙ s.leaders;
          read = s.read;
          view = s.view;
        })
      ],
    )

    -- A group's own Consume.
    receive_mine :
        (n : ℕ) (q : List (String × String)) (b : Broker)
        → Shows n q b
        → (heard (consume name group idx b).0 ≡ (dequeue sum32 name group idx q).0)
          × Shows n (dequeue sum32 name group idx q).1 (consume name group idx b).1
    receive_mine n q b s =
        let held : Holds name idx s.part b = (s.topic, s.found, s.placed) in
        let Result : List (String × String) → Outcome (Option Record) × Broker → Type 0 = λ l r.
          (heard r.0 ≡ (dequeue sum32 name group idx l).0)
          × Shows n (dequeue sum32 name group idx l).1 r.1 in
        elim (Option-cases (get_elem? s.part (b.groups group idx))) [
          | inl end ↦
              let empty : q ≡ [] =
                sym s.view ∙ ap payloads (get_elem?-none s.part (b.groups group idx) end) in
              subst (λ l. Result l (consume name group idx b)) (sym empty)
                (subst (Result []) (sym (consume-none name group idx s.part b held end))
                  (refl, subst (λ l. Shows n l b) empty s))
          | inr (rec, here) ↦
              let rest = drop (suc (b.groups group idx)) s.part in
              let full : q ≡ payload rec ∷ payloads rest =
                sym s.view ∙ ap payloads (drop_cons s.part (b.groups group idx) rec here) in
              subst (λ l. Result l (consume name group idx b)) (sym full)
                (subst (Result (payload rec ∷ payloads rest))
                  (sym (consume-some name group idx s.part rec b held here))
                  (
                    refl,
                    record {
                      topic = s.topic;
                      part = s.part;
                      found = s.found;
                      placed = s.placed;
                      count = s.count;
                      leaders = s.leaders;
                      read = omega (
                        arith,
                        next_offset_at group idx b,
                        lt_of_get_elem? s.part (b.groups group idx) here,
                      );
                      view = ap (λ o. payloads (drop o s.part)) (next_offset_at group idx b);
                    },
                  ))
        ]

    -- Other groups and other partitions.
    receive_other :
        (n : ℕ) (g : String) (i : ℕ) (q : List (String × String)) (b : Broker)
        → (str_eq g group && (i == idx)) ≡ false
        → Shows n q b
        → Shows n q (consume name g i b).1
    receive_other n g i q b e s = elim (consume-after name g i b) [
      | inl same ↦ subst (Shows n q) (sym same) s
      | inr moved ↦
          let keep = other_offset group g idx i b e in
          subst (Shows n q) (sym moved) (record {
            topic = s.topic;
            part = s.part;
            found = s.found;
            placed = s.placed;
            count = s.count;
            leaders = s.leaders;
            read = omega (arith, keep, s.read);
            view = ap (λ o. payloads (drop o s.part)) keep ∙ s.view;
          })
    ]

    pub receive-Simulates :
        (n : ℕ) (g : String) (i : ℕ) (q : List (String × String)) (b : Broker)
        → Shows n q b
        → Simulates n (receive g i) q b
    unfolding broker_step queue_step
    receive-Simulates n g i q b s = elim (Bool-cases (str_eq g group && (i == idx))) [
      | inl e ↦
          let (eg, ei) = &&→both (str_eq g group) (i == idx) e in
          let same_group : g ≡ group = (str_eq_iff g group).0 eg in
          let same_part : i ≡ idx = ==→eq i idx ei in
          rw (e, broker_step, queue_step)
            (subst
              (λ x.
                (heard (consume name x i b).0 ≡ (dequeue sum32 name group idx q).0)
                × Shows n (dequeue sum32 name group idx q).1 (consume name x i b).1)
              (sym same_group)
              (subst
                (λ x.
                  (heard (consume name group x b).0 ≡ (dequeue sum32 name group idx q).0)
                  × Shows n (dequeue sum32 name group idx q).1 (consume name group x b).1)
                (sym same_part) (receive_mine n q b s)))
      | inr e ↦
          rw (e, broker_step, queue_step)
            (
              consume-reply sum32 name group idx n i g s.topic b s.found s.count,
              receive_other n g i q b e s,
            )
    ]
