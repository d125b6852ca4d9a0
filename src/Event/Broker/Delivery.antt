-- ===== src/Event/Broker/Delivery.antt =====
-- What a consumer group receives: Consume and ConsumeAll of broker.go.
use ruskiy.Shared.{
  ℕ, zero, suc, ◌+◌, ==-self, Option, none, some, String, str_eq_self, put, put_at, List, [], ◌∷◌,
  length, get_elem?, drop, ◌≡◌, refl, ap, ◌≤◌, arith, inl, inr, Option-cases,
}
use ruskiy.Event.Broker.{
  Record, Partition, Topic, Broker, Outcome, ok, consume, consume_partition, received, with_groups,
}

module _ {A : Type 0} where
  pub get_elem?-none : (xs : List A) (i : ℕ) → get_elem? xs i ≡ none → drop i xs ≡ []
  get_elem?-none [] zero h = refl
  get_elem?-none [] (suc i) h = refl
  get_elem?-none (x ∷ xs) zero h = absurd (ground arith)
  get_elem?-none (x ∷ xs) (suc i) h = get_elem?-none xs i h

  pub get_elem?-none-length : (xs : List A) (i : ℕ) → get_elem? xs i ≡ none → length xs ≤ i
  get_elem?-none-length [] i h = omega arith
  get_elem?-none-length (x ∷ xs) zero h = absurd (ground arith)
  get_elem?-none-length (x ∷ xs) (suc i) h = omega (arith, get_elem?-none-length xs i h)

  pub drop_cons :
      (xs : List A) (i : ℕ) (x : A) → get_elem? xs i ≡ some x → drop i xs ≡ x ∷ drop (suc i) xs
  drop_cons [] i x h = absurd (ground arith)
  drop_cons (y ∷ ys) zero x h = ap (λ z. z ∷ ys) (ground (arith, h))
  drop_cons (y ∷ ys) (suc i) x h = drop_cons ys i x h

-- The partition of a topic.
abbrev pub Holds : String → ℕ → Partition → Broker → Type 0
Holds name idx p b = (t : Topic) × (b.topics name ≡ some t) × (get_elem? t.partitions idx ≡ some p)

pub consume-some :
    (name group : String) (idx : ℕ) (p : Partition) (rec : Record) (b : Broker)
    → Holds name idx p b
    → get_elem? p (b.groups group idx) ≡ some rec
    → consume name group idx b ≡ (
      ok (some rec),
      with_groups (put group (put_at idx (b.groups group idx + 1) (b.groups group)) b.groups) b,
    )
unfolding consume
consume-some name group idx p rec b (t, topic, part) next = rw (topic, part, next, consume) refl

pub consume-none :
    (name group : String) (idx : ℕ) (p : Partition) (b : Broker)
    → Holds name idx p b
    → get_elem? p (b.groups group idx) ≡ none
    → consume name group idx b ≡ (ok none, b)
unfolding consume
consume-none name group idx p b (t, topic, part) next = rw (topic, part, next, consume) refl

-- The offset of a group after the read of a record.
abbrev pub next_offset : String → ℕ → Broker → Broker
next_offset group idx b =
    with_groups (put group (put_at idx (b.groups group idx + 1) (b.groups group)) b.groups) b

pub next_offset_at :
    (group : String) (idx : ℕ) (b : Broker)
    → (next_offset group idx b).groups group idx ≡ suc (b.groups group idx)
next_offset_at group idx b = rw (str_eq_self group, ==-self idx) (omega arith)

continue : ℕ → String → String → ℕ → Outcome (Option Record) × Broker → List Record × Broker
continue fuel name group idx (result, after) = elim (received result) [
  | none ↦ ([], after)
  | some rec ↦ let rest = consume_partition fuel name group idx after in (rec ∷ rest.0, rest.1)
]

pub consume_result :
    (name group : String) (idx : ℕ) (p : Partition) (b : Broker)
    → Holds name idx p b
    → (consume name group idx b).0 ≡ ok (get_elem? p (b.groups group idx))
consume_result name group idx p b held = elim (Option-cases (get_elem? p (b.groups group idx))) [
  | inl end ↦ rw (consume-none name group idx p b held end, end) refl
  | inr (rec, here) ↦ rw (consume-some name group idx p rec b held here, here) refl
]
