-- ===== src/Event/Broker/Lost.antt =====
-- Offsets of broker.go that a group keeps by the index of a partition only: what a record of another topic
-- costs it.
use mathlib.Core.Path.{subst}
use mathlib.Core.Option.{some-injective}
use ruskiy.Shared.{
  ℕ, zero, suc, ◌<◌, ◌≤◌, ◌==◌, ==→eq, ◌&&◌, &&→both, Bool-cases, Option, Option-cases, some,
  String, str_eq, str_eq_iff, put, List, [], ◌∷◌, ◌++◌, length, get_elem?, set, get_elem?-set_self,
  get_elem?-set_ne, ◌≡◌, ◌≢◌, refl, sym, ◌∙◌, ap, arith, inl, inr,
}
use ruskiy.Event.Broker.{
  Record, Partition, Topic, Broker, ok, make_record, partition_for, publish_to, publish, consume,
  kill_broker, elect_in, elect_new_leader, mark_processed, subscribe,
}
use ruskiy.Event.Broker.Delivery.{Holds, consume-some, consume_result, next_offset, next_offset_at}
use ruskiy.Event.Broker.Queue.Shows.{consume-after, other_offset, elect-after}

-- The calls that change a broker, but CreateTopic, which puts an empty topic in the place of one.
pub data Call : Type 0 where
  publishes : (topic key value : String) → Call
  consumes : (topic group : String) (part : ℕ) → Call
  elects : (topic : String) (part : ℕ) → Call
  kills : ℕ → Call
  marks : (group event_id : String) → Call
  subscribes : (topic : String) (buf_size : ℕ) → Call

module _ (sum32 : String → ℕ) where
  abbrev pub call : Call → Broker → Broker
  call (publishes topic key value) b = (publish sum32 topic key value b).1
  call (consumes topic group part) b = (consume topic group part b).1
  call (elects topic part) b = (elect_new_leader topic part b).1
  call (kills id) b = kill_broker id b
  call (marks group event_id) b = mark_processed group event_id b
  call (subscribes topic buf_size) b = subscribe topic buf_size b

  abbrev pub run_calls : List Call → Broker → Broker
  run_calls [] b = b
  run_calls (c ∷ calls) b = run_calls calls (call c b)

get_elem?-append :
    {A : Type 0} (xs ys : List A) (i : ℕ) {x : A}
    → get_elem? xs i ≡ some x
    → get_elem? (xs ++ ys) i ≡ some x
get_elem?-append [] ys i e = absurd (ground (arith, e))
get_elem?-append (z ∷ xs) ys zero e = e
get_elem?-append (z ∷ xs) ys (suc i) e = get_elem?-append xs ys i e

publish-groups :
    (sum32 : String → ℕ) (name key value : String) (b : Broker)
    → (publish sum32 name key value b).1.groups ≡ b.groups
unfolding publish publish_to
publish-groups sum32 name key value b = ground arith

elect-groups :
    (name : String) (i : ℕ) (b : Broker) → (elect_new_leader name i b).1.groups ≡ b.groups
unfolding elect_new_leader elect_in
elect-groups name i b = ground arith

-- A record of a partition, by the position in it.
module _ (other : String) (idx o : ℕ) (lost : Record) where
  abbrev At : Topic → Type 0
  At t = (q : Partition) × (get_elem? t.partitions idx ≡ some q) × (get_elem? q o ≡ some lost)

  abbrev Logged : (String → Option Topic) → Type 0
  Logged topics = (t : Topic) × (topics other ≡ some t) × At t

  put-Logged :
      (name : String) (t t' : Topic) (topics : String → Option Topic)
      → topics name ≡ some t
      → (At t → At t')
      → Logged topics
      → Logged (put name (some t') topics)
  put-Logged name t t' topics e keeps (u, found, at_) = elim (Bool-cases (str_eq name other)) [
    | inl same ↦
        let eq : name ≡ other = (str_eq_iff name other).0 same in
        let topic : u ≡ t = some-injective u t (sym found ∙ subst (λ x. topics x ≡ some t) eq e) in
        (t', rw same refl, keeps (subst At topic at_))
    | inr ne ↦ (u, rw ne found, at_)
  ]

  elect-Logged :
      (name : String) (i : ℕ) (b : Broker)
      → Logged b.topics
      → Logged (elect_new_leader name i b).1.topics
  unfolding elect_new_leader
  elect-Logged name i b h = elim (Option-cases (b.topics name)) [
    | inl e ↦ rw (e, elect_new_leader) h
    | inr (t, e) ↦ elim (elect-after name i t b e) [
      | inl same ↦ subst (λ (x : Broker). Logged x.topics) (sym same) h
      | inr (c, after) ↦
          subst (λ (x : Broker). Logged x.topics) (sym after)
            (put-Logged name t
              (record { partitions = t.partitions; leader_map = set t.leader_map i c }) b.topics e
              (λ at_. at_) h)
    ]
  ]

  -- The partition `k` with one record more.
  append-At :
      (t : Topic) (k : ℕ) (p : Partition) (r : Record)
      → get_elem? t.partitions k ≡ some p
      → At t
      → At (record { partitions = set t.partitions k (p ++ r ∷ []); leader_map = t.leader_map })
  append-At t k p r part (q, placed, here) = elim (Bool-cases (idx == k)) [
    | inl e ↦
        let same : idx ≡ k = ==→eq idx k e in
        let eq : q ≡ p =
          some-injective q p
            (sym placed ∙ subst (λ x. get_elem? t.partitions x ≡ some p) (sym same) part) in
        (
          p ++ r ∷ [],
          subst (λ x. get_elem? (set t.partitions k (p ++ r ∷ [])) x ≡ some (p ++ r ∷ []))
              (sym same) (get_elem?-set_self t.partitions k (p ++ r ∷ []) part),
          get_elem?-append p (r ∷ []) o (subst (λ x. get_elem? x o ≡ some lost) eq here),
        )
    | inr ne ↦ (
      q,
      get_elem?-set_ne t.partitions k idx (p ++ r ∷ []) (λ h. ground (arith, ne, h)) ∙ placed,
      here,
    )
  ]

  publish-Logged :
      (sum32 : String → ℕ) (name key value : String) (b : Broker)
      → Logged b.topics
      → Logged (publish sum32 name key value b).1.topics
  unfolding publish publish_to
  publish-Logged sum32 name key value b h = elim (Option-cases (b.topics name)) [
    | inl e ↦ rw (e, publish) h
    | inr (t, e) ↦
        let k = partition_for sum32 key (length t.partitions) in
        elim (Option-cases (get_elem? t.leader_map k)) [
          | inl out ↦ rw (e, out, publish, publish_to) h
          | inr (leader, lead) ↦ elim (Bool-cases (b.killed_brokers leader)) [
            | inl down ↦ rw (e, lead, down, publish, publish_to) h
            | inr alive ↦ elim (Option-cases (get_elem? t.partitions k)) [
              | inl out ↦ rw (e, lead, alive, out, publish, publish_to) h
              | inr (p, part) ↦
                  rw (e, lead, alive, part, publish, publish_to)
                    (put-Logged name t
                      (record {
                        partitions =
                            set t.partitions k (p ++ make_record key value (length p) ∷ []);
                        leader_map = t.leader_map;
                      })
                      b.topics e (append-At t k p (make_record key value (length p)) part) h)
            ]
          ]
        ]
  ]

  -- The group has gone past the record.
  record Past (group : String) (b : Broker) : Type 0 where
    logged : Logged b.topics
    past : o < b.groups group idx

  offset_grows :
      (group g : String) (i : ℕ) (b : Broker)
      → b.groups group idx ≤ (next_offset g i b).groups group idx
  offset_grows group g i b = elim (Bool-cases (str_eq g group && (i == idx))) [
    | inr e ↦ omega (arith, other_offset group g idx i b e)
    | inl e ↦
        let (eg, ei) = &&→both (str_eq g group) (i == idx) e in
        subst (λ x. b.groups x idx ≤ (next_offset g i b).groups x idx) ((str_eq_iff g group).0 eg)
          (subst (λ x. b.groups g x ≤ (next_offset g i b).groups g x) (==→eq i idx ei)
            (omega (arith, next_offset_at g i b)))
  ]

  call-Past :
      (sum32 : String → ℕ) (group : String) (c : Call) (b : Broker)
      → Past group b
      → Past group (call sum32 c b)
  unfolding kill_broker mark_processed subscribe
  call-Past sum32 group (publishes topic key value) b h = record {
    logged = publish-Logged sum32 topic key value b h.logged;
    past = omega (arith, h.past, ap (λ m. m group idx) (publish-groups sum32 topic key value b));
  }
  call-Past sum32 group (consumes topic g i) b h = elim (consume-after topic g i b) [
    | inl same ↦ subst (Past group) (sym same) h
    | inr moved ↦
        subst (Past group) (sym moved)
          (record { logged = h.logged; past = omega (arith, h.past, offset_grows group g i b) })
  ]
  call-Past sum32 group (elects topic i) b h = record {
    logged = elect-Logged topic i b h.logged;
    past = omega (arith, h.past, ap (λ m. m group idx) (elect-groups topic i b));
  }
  call-Past sum32 group (kills id) b h = record { logged = h.logged; past = h.past }
  call-Past sum32 group (marks g id) b h = record { logged = h.logged; past = h.past }
  call-Past sum32 group (subscribes topic n) b h = record { logged = h.logged; past = h.past }

  run_calls-Past :
      (sum32 : String → ℕ) (group : String) (calls : List Call) (b : Broker)
      → Past group b
      → Past group (run_calls sum32 calls b)
  run_calls-Past sum32 group [] b h = h
  run_calls-Past sum32 group (c ∷ calls) b h =
      run_calls-Past sum32 group calls (call sum32 c b) (call-Past sum32 group c b h)

-- For every two different topics and a group that would next read, at one index of a partition, a record of the
-- first topic and the record `lost` of the second one, both at its offset: once it has consumed the
-- record of the first topic, then after any further calls, Publish, Consume of any group and topic,
-- elections, failures, marks and subscriptions, `lost` still stands at its position of the second topic,
-- and a Consume of the group there answers from a later position, so that none returns it.
pub consume_skips_other_topic :
    (sum32 : String → ℕ) (name other group : String) (idx : ℕ) (p q : Partition) (rec lost : Record)
    (calls : List Call) (b : Broker)
    → name ≢ other
    → Holds name idx p b
    → Holds other idx q b
    → get_elem? p (b.groups group idx) ≡ some rec
    → get_elem? q (b.groups group idx) ≡ some lost
    → let b' = run_calls sum32 calls (consume name group idx b).1 in
      (q' : Partition) × Holds other idx q' b'
      × (get_elem? q' (b.groups group idx) ≡ some lost)
      × (m : ℕ) × (b.groups group idx < m)
      × ((consume other group idx b').0 ≡ ok (get_elem? q' m))
consume_skips_other_topic sum32 name other group idx p q rec lost calls b apart held
      (t, found, placed) here waits =
    let o = b.groups group idx in
    let b1 = (consume name group idx b).1 in
    let after : b1 ≡ next_offset group idx b =
      ap (λ r. r.1) (consume-some name group idx p rec b held here) in
    let first : Past other idx o lost group (next_offset group idx b) = record {
      logged = (t, found, (q, placed, waits));
      past = omega (arith, next_offset_at group idx b);
    } in
    let last =
      run_calls-Past other idx o lost sum32 group calls b1
        (subst (Past other idx o lost group) (sym after) first) in
    let (t', found', (q', placed', there)) = last.logged in
    let b' = run_calls sum32 calls b1 in
    (
      q',
      (t', found', placed'),
      there,
      b'.groups group idx,
      last.past,
      consume_result other group idx q' b' (t', found', placed'),
    )
