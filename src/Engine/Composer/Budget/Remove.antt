-- ===== src/Engine/Composer/Budget/Remove.antt =====
-- The parts of a round of EnforceTimeBudget of session_composer.go: which item goes, and what a
-- removal and the new positions do to times and warmups.
use native.Mathlib.Decide.{ℕ_discrete}
use ruskiy.Shared.{
  ◌⊎◌, ℕ, zero, suc, ◌+◌, ◌≤◌, ◌<◌, if◌then◌else◌, true, false, List, [], ◌∷◌, length, get_elem?,
  set, Option, none, some, ◌≡◌, refl, ap, arith, Bool-cases, inl, inr, get_elem?-total,
}
use ruskiy.Model.{is_warmup}
use ruskiy.Engine.Data.{ComposedItem, item_time, sum_times}
use ruskiy.Engine.Composer.Budget.{removable_or, last_removable, reindex, remove_at}

module _ {F : Type 0} where
  abbrev pub count_warmups : List (ComposedItem F) → ℕ
  count_warmups [] = 0
  count_warmups (it ∷ its) = (if is_warmup it.role then 1 else 0) + count_warmups its

  pub length-remove_at :
      (its : List (ComposedItem F)) (i : ℕ) {it : ComposedItem F}
      → get_elem? its i ≡ some it
      → suc (length (remove_at i its)) ≡ length its
  unfolding remove_at
  length-remove_at [] i e = ground arith
  length-remove_at (x ∷ its) zero e = refl
  length-remove_at (x ∷ its) (suc i) e = ap suc (length-remove_at its i e)

  pub sum_times-remove_at :
      (its : List (ComposedItem F)) (i : ℕ) {it : ComposedItem F}
      → get_elem? its i ≡ some it
      → sum_times (remove_at i its) + item_time it ≡ sum_times its
  unfolding remove_at
  sum_times-remove_at [] i e = ground arith
  sum_times-remove_at (x ∷ its) zero e = ground arith
  sum_times-remove_at (x ∷ its) (suc i) e = omega (arith, sum_times-remove_at its i e)

  pub count_warmups-remove_at :
      (its : List (ComposedItem F)) (i : ℕ) {it : ComposedItem F}
      → get_elem? its i ≡ some it
      → is_warmup it.role ≡ false
      → count_warmups (remove_at i its) ≡ count_warmups its
  unfolding remove_at
  count_warmups-remove_at [] i e w = refl
  count_warmups-remove_at (x ∷ its) zero e w = ground arith
  count_warmups-remove_at (x ∷ its) (suc i) e w = omega (arith, count_warmups-remove_at its i e w)

  pub count_warmups-set :
      (its : List (ComposedItem F)) (i : ℕ) (v : ComposedItem F) {it : ComposedItem F}
      → get_elem? its i ≡ some it
      → v.role ≡ it.role
      → count_warmups (set its i v) ≡ count_warmups its
  count_warmups-set [] i v e r = refl
  count_warmups-set (x ∷ its) zero v e r = ground arith
  count_warmups-set (x ∷ its) (suc i) v e r = omega (arith, count_warmups-set its i v e r)

  pub length-reindex : (i : ℕ) (its : List (ComposedItem F)) → length (reindex i its) ≡ length its
  unfolding reindex
  length-reindex i [] = refl
  length-reindex i (it ∷ its) = ap suc (length-reindex (i + 1) its)

  pub sum_times-reindex :
      (i : ℕ) (its : List (ComposedItem F)) → sum_times (reindex i its) ≡ sum_times its
  unfolding reindex
  sum_times-reindex i [] = refl
  sum_times-reindex i (it ∷ its) = ap (λ n. item_time it + n) (sum_times-reindex (i + 1) its)

  pub count_warmups-reindex :
      (i : ℕ) (its : List (ComposedItem F)) → count_warmups (reindex i its) ≡ count_warmups its
  unfolding reindex
  count_warmups-reindex i [] = refl
  count_warmups-reindex i (it ∷ its) = omega (arith, count_warmups-reindex (i + 1) its)

  removable_or-some :
      (o : Option (ComposedItem F)) (i : ℕ) (rest : Option ℕ) {j : ℕ}
      → removable_or o i rest ≡ some j
      → (rest ≡ some j)
        ⊎ ((it : ComposedItem F) × (o ≡ some it) × (is_warmup it.role ≡ false) × (i ≡ j))
  removable_or-some none i rest e = cc
  removable_or-some (some it) i rest e = elim (Bool-cases (is_warmup it.role)) [
    | inl w ↦ inl (ground arith)
    | inr w ↦ inr (it, refl, w, ground arith)
  ]

  removable_or-none :
      (o : Option (ComposedItem F)) (i : ℕ) (rest : Option ℕ) {it : ComposedItem F}
      → o ≡ some it
      → removable_or o i rest ≡ none
      → (is_warmup it.role ≡ true) × (rest ≡ none)
  removable_or-none none i rest q e = cc
  removable_or-none (some it) i rest q e = ground arith

  pub last_removable-some :
      (n : ℕ) (its : List (ComposedItem F)) {i : ℕ}
      → last_removable n its ≡ some i
      → (it : ComposedItem F) × (get_elem? its i ≡ some it) × (is_warmup it.role ≡ false)
  unfolding last_removable
  last_removable-some zero its e = cc
  last_removable-some (suc n) its e =
      elim (removable_or-some (get_elem? its (suc n)) (suc n) (last_removable n its) e) [
        | inl r ↦ last_removable-some n its r
        | inr (it, there, w, same) ↦ (it, rw same at there, w)
      ]

  pub last_removable-none :
      (n : ℕ) (its : List (ComposedItem F))
      → n < length its
      → last_removable n its ≡ none
      → (i : ℕ) {it : ComposedItem F} → 0 < i
      → i ≤ n
      → get_elem? its i ≡ some it
      → is_warmup it.role ≡ true
  unfolding last_removable
  last_removable-none zero its h e i p q m = absurd (omega arith)
  last_removable-none (suc n) its h e i {it} p q m =
      let (x, there) = get_elem?-total its (suc n) h in
      let (w, rest) =
        removable_or-none (get_elem? its (suc n)) (suc n) (last_removable n its) there e in
      elim (ℕ_discrete i (suc n)) [
        | yes same ↦ ground (arith, ap (get_elem? its) same)
        | no other ↦ last_removable-none n its (omega arith) rest i p (omega arith) m
      ]
