-- ===== src/Event/Broker/Consumer/Once.antt =====
-- RunConsumer does not hand an event to the handler again that the handler has processed.
use mathlib.Core.Path.{subst}
use Prim.Native.String.{◌++◌ as ◌<>◌}
use ruskiy.Shared.{
  ℕ, zero, suc, ◌&&◌, not, if◌then◌else◌, if_elim, Bool, Bool-cases, true, false, Option,
  Option-cases, none, some, String, str_eq, str_eq_iff, str_eq_self, List, [], ◌∷◌, length, any,
  has, get_elem?, ◌≡◌, refl, sym, ◌∙◌, arith, ◌⊎◌, inl, inr,
}
use ruskiy.Event.Broker.{
  Record, Broker, Outcome, ok, error, panic, publish, publish_to, partition_for, consume,
  mark_processed, is_processed,
}
use ruskiy.Event.Broker.Consumer.{
  Call, Consumer, Work, and_then, called, settle, process, on_consumed, with_broker, poll,
  poll_partitions, run_consumer, start,
}

abbrev pub is_success : String → Call → Bool
is_success id c = str_eq c.event_id id && elim c.failure [ none ↦ true | some _ ↦ false ]

abbrev pub succeeded : String → List Call → Bool
succeeded id calls = any (is_success id) calls

-- No call is for an event that an earlier call succeeded for, but for records without an event ID.
abbrev pub NeverAgain : List Call → Type 0
NeverAgain [] = Unit
NeverAgain (c ∷ earlier) =
    ((c.event_id ≡ "") ⊎ (succeeded c.event_id earlier ≡ false)) × NeverAgain earlier

consume-log :
    (name group : String) (idx : ℕ) (b : Broker)
    → (consume name group idx b).1.idempotency_log ≡ b.idempotency_log
unfolding consume
consume-log name group idx b = elim (Option-cases (b.topics name)) [
  | inl e ↦ rw (e, consume) refl
  | inr (t, e) ↦ elim (Option-cases (get_elem? t.partitions idx)) [
    | inl e2 ↦ rw (e, e2, consume) refl
    | inr (p, e2) ↦ elim (Option-cases (get_elem? p (b.groups group idx))) [
      | inl e3 ↦ rw (e, e2, e3, consume) refl
      | inr (rec, e3) ↦ rw (e, e2, e3, consume) refl
    ]
  ]
]

publish-log :
    (sum32 : String → ℕ) (name key value : String) (b : Broker)
    → (publish sum32 name key value b).1.idempotency_log ≡ b.idempotency_log
unfolding publish publish_to
publish-log sum32 name key value b = elim (Option-cases (b.topics name)) [
  | inl e ↦ rw (e, publish) refl
  | inr (t, e) ↦
      let k = partition_for sum32 key (length t.partitions) in
      elim (Option-cases (get_elem? t.leader_map k)) [
        | inl e2 ↦ rw (e, e2, publish, publish_to) refl
        | inr (leader, e2) ↦ elim (Bool-cases (b.killed_brokers leader)) [
          | inl e3 ↦ rw (e, e2, e3, publish, publish_to) refl
          | inr e3 ↦ elim (Option-cases (get_elem? t.partitions k)) [
            | inl e4 ↦ rw (e, e2, e3, e4, publish, publish_to) refl
            | inr (p, e4) ↦ rw (e, e2, e3, e4, publish, publish_to) refl
          ]
        ]
      ]
]

module _ (group : String) where
  -- Every event that a call succeeded for is in the group's log of processed events.
  pub record Tracked (c : Consumer) : Type 0 where
    pub logged :
        (id : String)
        → (id ≡ "")
          ⊎ ((succeeded id c.calls ≡ false) ⊎ (has id (c.broker.idempotency_log group) ≡ true))
    pub once : NeverAgain c.calls
    pub counted : c.processed ≡ length c.calls

  start-Tracked : (b : Broker) → Tracked (start b)
  start-Tracked b = record { logged = λ id. inr (inl refl); once = tt; counted = refl }

  with_broker-Tracked :
      (b : Broker) (c : Consumer)
      → b.idempotency_log ≡ c.broker.idempotency_log
      → Tracked c
      → Tracked (record { broker = b; processed = c.processed; calls = c.calls })
  with_broker-Tracked b c e t = record {
    logged = λ id. elim (t.logged id) [
      | inl h ↦ inl h
      | inr h ↦ elim h [
        | inl g ↦ inr (inl g)
        | inr g ↦ inr (inr (subst (λ l. has id (l group) ≡ true) (sym e) g))
      ]
    ];
    once = t.once;
    counted = t.counted;
  }

  -- A call that fails, for an event not processed so far.
  failed-Tracked :
      (id reason : String) (b : Broker) (c : Consumer)
      → b.idempotency_log ≡ c.broker.idempotency_log
      → (id ≡ "") ⊎ (succeeded id c.calls ≡ false)
      → Tracked c
      → Tracked (called id (some reason) b c)
  failed-Tracked id reason b c e fresh t = record {
    logged = λ id2. elim ((with_broker-Tracked b c e t).logged id2) [
      | inl h ↦ inl h
      | inr h ↦ elim h [ inl g ↦ inr (inl (ground (arith, g))) | inr g ↦ inr (inr g) ]
    ];
    once = (fresh, t.once);
    counted = omega (arith, t.counted);
  }

  mark_processed_lem :
      (id : String) (b : Broker)
      → (mark_processed group id b).idempotency_log group ≡ (
          if has id (b.idempotency_log group)
          then b.idempotency_log group
          else id ∷ b.idempotency_log group)
  unfolding mark_processed
  mark_processed_lem id b = rw (str_eq_self group) refl

  mark_processed-keeps :
      (id id2 : String) (b : Broker)
      → has id2 (b.idempotency_log group) ≡ true
      → has id2 ((mark_processed group id b).idempotency_log group) ≡ true
  mark_processed-keeps id id2 b h = rw (mark_processed_lem id b) (ground (arith, h))

  mark_processed-marks :
      (id : String) (b : Broker) → has id ((mark_processed group id b).idempotency_log group) ≡ true
  mark_processed-marks id b = rw (mark_processed_lem id b) (ground (arith, str_eq_self id))

  -- A call that succeeds marks its event, unless it has no ID.
  succeeded-Tracked :
      (id : String) (c : Consumer)
      → (id ≡ "") ⊎ (succeeded id c.calls ≡ false)
      → Tracked c
      → Tracked
          (called id none (if str_eq id "" then c.broker else mark_processed group id c.broker) c)
  succeeded-Tracked id c fresh t =
      let after = if str_eq id "" then c.broker else mark_processed group id c.broker in
      record {
        logged = λ id2. elim (Bool-cases (str_eq id id2)) [
          | inl same ↦
              let eq : id ≡ id2 = (str_eq_iff id id2).0 same in
              elim (Bool-cases (str_eq id "")) [
                | inl e ↦ inl (sym eq ∙ (str_eq_iff id "").0 e)
                | inr e ↦ inr (
                    inr (
                      subst (λ x. has x (after.idempotency_log group) ≡ true) eq
                        (rw e (mark_processed-marks id c.broker))))
              ]
          | inr apart ↦ elim (t.logged id2) [
            | inl h ↦ inl h
            | inr h ↦ elim h [
              | inl g ↦ inr (inl (ground (arith, g, apart)))
              | inr g ↦ inr (
                  inr (
                    if_elim (λ b. has id2 (b.idempotency_log group) ≡ true) (str_eq id "") c.broker
                      (mark_processed group id c.broker) (λ _. g)
                      (λ _. mark_processed-keeps id id2 c.broker g)))
            ]
          ]
        ];
        once = (fresh, t.once);
        counted = omega (arith, t.counted);
      }

  module _ (w : Work) (name : String) where
    settle-Tracked :
        (rec : Record) (id : String) (failure : Option String) (c : Consumer)
        → (id ≡ "") ⊎ (succeeded id c.calls ≡ false)
        → Tracked c
        → Tracked (settle w name group rec id failure c).1
    unfolding settle
    settle-Tracked rec id none c fresh t = succeeded-Tracked id c fresh t
    settle-Tracked rec id (some reason) c fresh t =
        failed-Tracked id reason _ c
          (publish-log w.sum32 (name <> ".dlq") rec.key (w.dlq_event rec.value reason) c.broker)
          fresh t

    process-Tracked :
        (rec : Record) (c : Consumer) → Tracked c → Tracked (process w name group rec c).1
    unfolding process is_processed
    process-Tracked rec c t =
        let id = w.event_id_of rec.value in
        let seen = not (str_eq id "") && has id (c.broker.idempotency_log group) in
        if_elim (λ (r : Outcome Unit × Consumer). Tracked r.1) seen (ok tt, c)
          (settle w name group rec id (w.handler (length c.calls) rec) c) (λ _. t)
          (λ e.
            settle-Tracked rec id (w.handler (length c.calls) rec) c
              (elim (t.logged id) [
                | inl h ↦ inl h
                | inr h ↦ elim h [
                  | inl g ↦ inr g
                  | inr g ↦ inl ((str_eq_iff id "").0 (ground (arith, e, g)))
                ]
              ])
              t)

    on_consumed-Tracked :
        (r : Outcome (Option Record)) (c : Consumer)
        → Tracked c
        → Tracked (on_consumed w name group r c).1
    unfolding on_consumed
    on_consumed-Tracked (ok none) c t = t
    on_consumed-Tracked (ok (some rec)) c t = process-Tracked rec c t
    on_consumed-Tracked error c t = t
    on_consumed-Tracked panic c t = t

    poll-Tracked : (idx : ℕ) (c : Consumer) → Tracked c → Tracked (poll w name group idx c).1
    unfolding poll
    poll-Tracked idx c t =
        on_consumed-Tracked (consume name group idx c.broker).0
          (with_broker (consume name group idx c.broker).1 c)
          (with_broker-Tracked (consume name group idx c.broker).1 c
            (consume-log name group idx c.broker) t)

    and_then-Tracked :
        (r : Outcome Unit × Consumer) (f : Consumer → Outcome Unit × Consumer)
        → Tracked r.1
        → ((c : Consumer) → Tracked c → Tracked (f c).1)
        → Tracked (and_then r f).1
    and_then-Tracked (ok _, c) f t h = h c t
    and_then-Tracked (error, c) f t h = h c t
    and_then-Tracked (panic, c) f t h = t

    poll_partitions-Tracked :
        (rounds idx : ℕ) (c : Consumer)
        → Tracked c
        → Tracked (poll_partitions w name group rounds idx c).1
    unfolding poll_partitions
    poll_partitions-Tracked zero idx c t = t
    poll_partitions-Tracked (suc rounds) idx c t =
        and_then-Tracked (poll w name group idx c) (poll_partitions w name group rounds (suc idx))
          (poll-Tracked idx c t) (λ d u. poll_partitions-Tracked rounds (suc idx) d u)

    run_consumer-Tracked :
        (turns num_partitions : ℕ) (c : Consumer)
        → Tracked c
        → Tracked (run_consumer w name group turns num_partitions c).1
    unfolding run_consumer
    run_consumer-Tracked zero n c t = t
    run_consumer-Tracked (suc turns) n c t =
        and_then-Tracked (poll_partitions w name group n 0 c) (run_consumer w name group turns n)
          (poll_partitions-Tracked n 0 c t) (λ d u. run_consumer-Tracked turns n d u)

    -- Over any number of turns on any broker, whatever the handler answers to its calls, and whether or not the
    -- broker panics on the way: RunConsumer hands no record to the handler whose event ID is not empty
    -- and had a call that succeeded before; the number it counts is the number of calls; and every event
    -- that a call succeeded for is processed in the broker's log.
    pub run_consumer-once :
        (turns num_partitions : ℕ) (b : Broker)
        → let c = (run_consumer w name group turns num_partitions (start b)).1 in
          NeverAgain c.calls
          × (c.processed ≡ length c.calls)
          × ((id : String)
              → (id ≡ "")
                ⊎ ((succeeded id c.calls ≡ false) ⊎ (is_processed group id c.broker ≡ true)))
    unfolding is_processed
    run_consumer-once turns n b =
        let t = run_consumer-Tracked turns n (start b) (start-Tracked b) in
        (t.once, t.counted, t.logged)
