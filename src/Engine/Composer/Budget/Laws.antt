-- ===== src/Engine/Composer/Budget/Laws.antt =====
-- EnforceTimeBudget of session_composer.go: it ends, keeps the books and the warmups, and stops only
-- where the budget is met or nothing may be removed.
use mathlib.Core.Path.{subst}
use mathlib.Core.Option.{some-injective}
use ruskiy.Shared.{
  ℕ, zero, suc, ◌+◌, ◌-◌, ◌*◌, ◌≤◌, ◌<◌, if◌then◌else◌, true, false, length, get_elem?, set, Option,
  none, some, ◌≡◌, ◌⊎◌, refl, ap, arith, Option-cases, Bool-cases, inl, inr, get_elem?-total, sym,
  ◌∙◌, length-set, get_elem?-set_self, min, &&→both, ltb→lt, lt_of_get_elem?,
}
use ruskiy.Shared.Int.{ℤ, ◌≤ℤ◌, ltb_ℤ, int_laws}
use ruskiy.Platform.{Float}
use ruskiy.Model.{is_warmup}
use ruskiy.Engine.Data.{ComposedItem, ComposedSession, item_time, sum_times}
use ruskiy.Engine.Composer.Items.{IsTimed, sum_times-set}
use ruskiy.Engine.Composer.Budget.{
  shortened, can_shorten, reindex, remove_at, last_removable, remove_item, without_item,
  with_short_cooldown, trim_step, is_over, trim, trim_fuel, max_time, enforce_time_budget,
}
use ruskiy.Engine.Composer.Budget.Remove.{
  count_warmups, length-remove_at, sum_times-remove_at, count_warmups-remove_at, count_warmups-set,
  length-reindex, sum_times-reindex, count_warmups-reindex, last_removable-some,
  last_removable-none,
}

module _ {F : Type 0} where
  abbrev flag : Option (ComposedItem F) → ℕ
  flag none = 0
  flag (some it) = if can_shorten it then 1 else 0

  -- The measure that every round lowers.
  abbrev rank : ComposedSession F → ℕ
  rank s = 2 * length s.items + flag (get_elem? s.items (length s.items - 1))

  flag-le : (o : Option (ComposedItem F)) → flag o ≤ 1
  flag-le none = omega arith
  flag-le (some it) = ground arith

  -- What trimming keeps, and how far it goes.
  pub record Trimmed (s s' : ComposedSession F) : Type 0 where
    pub timed : IsTimed s → IsTimed s'
    pub warmups : count_warmups s'.items ≡ count_warmups s.items
    pub same_budget : s'.time_budget ≡ s.time_budget
    pub fewer : length s'.items ≤ length s.items
    pub left : min 2 (length s.items) ≤ length s'.items

  abbrev pub OnlyWarmups : ComposedSession F → Type 0
  OnlyWarmups s =
      (i : ℕ) (it : ComposedItem F)
      → 0 < i
      → get_elem? s.items i ≡ some it
      → is_warmup it.role ≡ true

  Trimmed-trans : {s t u : ComposedSession F} → Trimmed s t → Trimmed t u → Trimmed s u
  Trimmed-trans a b = record {
    timed = λ h. b.timed (a.timed h);
    warmups = b.warmups ∙ a.warmups;
    same_budget = b.same_budget ∙ a.same_budget;
    fewer = omega arith;
    left = omega arith;
  }

  abbrev Lower : ComposedSession F → ComposedSession F → Type 0
  Lower s s' = Trimmed s s' × (rank s' < rank s)

  can_shorten→lt : (it : ComposedItem F) → can_shorten it ≡ true → 15 < item_time it
  can_shorten→lt it h = ground arith

  flag-shortened : (it : ComposedItem F) → flag (some (shortened it)) ≡ 0
  flag-shortened it = ground arith

  flag_one : (it : ComposedItem F) → can_shorten it ≡ true → flag (some it) ≡ 1
  flag_one it h = rw h

  short_cooldown-Lower :
      (s : ComposedSession F) (i : ℕ) (it : ComposedItem F)
      → i ≡ length s.items - 1
      → get_elem? s.items i ≡ some it
      → can_shorten it ≡ true
      → Lower s (with_short_cooldown s i it)
  short_cooldown-Lower s i it last e c =
      let new = shortened it in
      let out = set s.items i new in
      let size = length-set s.items i new in
      let at_last : get_elem? out (length out - 1) ≡ some new =
        ap (λ n. get_elem? out (n - 1)) size
        ∙ ap (get_elem? out) (sym last)
        ∙ get_elem?-set_self s.items i new e in
      let was : flag (get_elem? s.items (length s.items - 1)) ≡ 1 =
        ap (λ n. flag (get_elem? s.items n)) (sym last) ∙ ap flag e ∙ flag_one it c in
      (
        record {
          timed = λ t. rw t (omega (int_laws, sum_times-set s.items i new e, can_shorten→lt it c));
          warmups = count_warmups-set s.items i new e refl;
          same_budget = refl;
          fewer = omega (arith, size);
          left = omega (arith, size);
        },
        omega (arith, size, was, ap flag at_last, flag-shortened it),
      )

  without_item-Lower :
      (s : ComposedSession F) (i : ℕ) (it : ComposedItem F)
      → 2 < length s.items
      → get_elem? s.items i ≡ some it
      → is_warmup it.role ≡ false
      → Lower s (without_item s i it)
  without_item-Lower s i it big e w =
      let kept = remove_at i s.items in
      let out = reindex 0 kept in
      let size : suc (length out) ≡ length s.items =
        ap suc (length-reindex 0 kept) ∙ length-remove_at s.items i e in
      let times : sum_times out + item_time it ≡ sum_times s.items =
        ap (λ n. n + item_time it) (sum_times-reindex 0 kept) ∙ sum_times-remove_at s.items i e in
      (
        record {
          timed = λ t. rw t (omega (int_laws, times));
          warmups = count_warmups-reindex 0 kept ∙ count_warmups-remove_at s.items i e w;
          same_budget = refl;
          fewer = omega (arith, size);
          left = omega (arith, size);
        },
        omega (arith, size, flag-le (get_elem? out (length out - 1))),
      )

  remove_item-Lower :
      (s : ComposedSession F) (o : Option ℕ) {s' : ComposedSession F}
      → 2 < length s.items
      → last_removable (length s.items - 1) s.items ≡ o
      → remove_item s o ≡ some s'
      → Lower s s'
  unfolding remove_item
  remove_item-Lower s none big e q = cc
  remove_item-Lower s (some i) {s'} big e q =
      let (it, there, w) = last_removable-some (length s.items - 1) s.items e in
      let same : some (without_item s i it) ≡ some s' = rw (there, remove_item) at q in
      subst (Lower s) (some-injective _ _ same) (without_item-Lower s i it big there w)

  trim_step-Lower :
      (s : ComposedSession F) {s' : ComposedSession F}
      → 2 < length s.items
      → trim_step s ≡ some s'
      → Lower s s'
  unfolding trim_step
  trim_step-Lower s {s'} big q =
      let last = length s.items - 1 in
      let (it, there) = get_elem?-total s.items last (omega arith) in
      elim (Bool-cases (can_shorten it)) [
        | inl c ↦
            let same : some (with_short_cooldown s last it) ≡ some s' =
              rw (there, c, trim_step) at q in
            subst (Lower s) (some-injective _ _ same) (short_cooldown-Lower s last it refl there c)
        | inr c ↦
            let same : remove_item s (last_removable last s.items) ≡ some s' =
              rw (there, c, trim_step) at q in
            remove_item-Lower s (last_removable last s.items) big refl same
      ]

  remove_item-stuck :
      (s : ComposedSession F) (o : Option ℕ)
      → last_removable (length s.items - 1) s.items ≡ o
      → remove_item s o ≡ none
      → o ≡ none
  unfolding remove_item
  remove_item-stuck s none e q = refl
  remove_item-stuck s (some i) e q =
      let (it, there, w) = last_removable-some (length s.items - 1) s.items e in
      let absurdity : some (without_item s i it) ≡ none = rw (there, remove_item) at q in cc

  trim_step-stuck :
      (s : ComposedSession F) → 2 < length s.items → trim_step s ≡ none → OnlyWarmups s
  unfolding trim_step
  trim_step-stuck s big q =
      let last = length s.items - 1 in
      let (it, there) = get_elem?-total s.items last (omega arith) in
      elim (Bool-cases (can_shorten it)) [
        | inl c ↦
            let wrong : some (with_short_cooldown s last it) ≡ none =
              rw (there, c, trim_step) at q in
            cc
        | inr c ↦
            let stuck : remove_item s (last_removable last s.items) ≡ none =
              rw (there, c, trim_step) at q in
            let nothing = remove_item-stuck s (last_removable last s.items) refl stuck in
            λ i x p e.
              last_removable-none last s.items (omega arith) nothing i p
                (omega (arith, lt_of_get_elem? s.items i e)) e
      ]

  trim-stop :
      (fuel : ℕ) (m : ℤ) (s : ComposedSession F) → is_over m s ≡ false → trim (suc fuel) m s ≡ s
  unfolding trim
  trim-stop fuel m s e = rw (e, trim)

  trim-stuck :
      (fuel : ℕ) (m : ℤ) (s : ComposedSession F)
      → is_over m s ≡ true
      → trim_step s ≡ none
      → trim (suc fuel) m s ≡ s
  unfolding trim
  trim-stuck fuel m s e q = rw (e, q, trim)

  trim-step :
      (fuel : ℕ) (m : ℤ) (s : ComposedSession F) {s' : ComposedSession F}
      → is_over m s ≡ true
      → trim_step s ≡ some s'
      → trim (suc fuel) m s ≡ trim fuel m s'
  unfolding trim
  trim-step fuel m s e q = rw (e, q, trim)

  Trimmed-refl : (s : ComposedSession F) → Trimmed s s
  Trimmed-refl s = record {
    timed = λ t. t;
    warmups = refl;
    same_budget = refl;
    fewer = omega arith;
    left = omega arith;
  }

  abbrev Ended : ℤ → ComposedSession F → Type 0
  Ended m s = (is_over m s ≡ false) ⊎ OnlyWarmups s

  trim_lem :
      (fuel : ℕ) (m : ℤ) (s : ComposedSession F)
      → rank s < fuel
      → Trimmed s (trim fuel m s) × Ended m (trim fuel m s)
  trim_lem zero m s h = absurd (omega arith)
  trim_lem (suc fuel) m s h =
      let P : ComposedSession F → Type 0 = λ r. Trimmed s r × Ended m r in
      elim (Bool-cases (is_over m s)) [
        | inr e ↦ subst P (sym (trim-stop fuel m s e)) (Trimmed-refl s, inl e)
        | inl e ↦
            let big : 2 < length s.items = ltb→lt 2 (length s.items) (&&→both _ _ e).1 in
            elim (Option-cases (trim_step s)) [
              | inl q ↦
                  subst P (sym (trim-stuck fuel m s e q))
                    (Trimmed-refl s, inr (trim_step-stuck s big q))
              | inr (s', q) ↦
                  let (kept, lower) = trim_step-Lower s big q in
                  let (kept', ended) = trim_lem fuel m s' (omega arith) in
                  subst P (sym (trim-step fuel m s e q)) (Trimmed-trans kept kept', ended)
            ]
      ]

module _ {F : Type 0} ⦃fl : Float F⦄ where
  -- EnforceTimeBudget ends for every session. It keeps the number of warmups, the budget and, if
  -- TotalEstTime was the sum of the items' times, that equation; it leaves at least two items of two
  -- or more; and afterwards the total is within the budget's limit, at most two items are left, or
  -- every item behind the first is a warmup.
  pub enforce_time_budget-Trimmed :
      (s : ComposedSession F)
      → let r = enforce_time_budget s in
        Trimmed s r × ((r.total_est_time ≤ℤ max_time s) ⊎ (length r.items ≤ 2) ⊎ OnlyWarmups r)
  unfolding enforce_time_budget
  enforce_time_budget-Trimmed s =
      let r = trim (trim_fuel s) (max_time s) s in
      let (kept, ended) =
        trim_lem (trim_fuel s) (max_time s) s
          (omega (arith, flag-le (get_elem? s.items (length s.items - 1)))) in
      (kept, elim ended [ inl e ↦ not_over (max_time s) r e | inr w ↦ inr (inr w) ])
    where
      not_over :
          (m : ℤ) (r : ComposedSession F)
          → is_over m r ≡ false
          → (r.total_est_time ≤ℤ m) ⊎ (length r.items ≤ 2) ⊎ OnlyWarmups r
      not_over m r e = elim (Bool-cases (ltb_ℤ m r.total_est_time)) [
        | inr within ↦ inl (ground arith)
        | inl over ↦ inr (inl (ground arith))
      ]
