-- ===== src/Engine/Composer/Budget.antt =====
-- services/api/internal/engine/session_composer.go: EnforceTimeBudget and adaptAndEnforceBudget. A round of the loop of EnforceTimeBudget is `trim_step`; `none` is its break.
pub mod Remove
pub mod Laws
use ruskiy.Shared.{
  ℕ, zero, suc, ◌+◌, ◌-◌, ◌*◌, ◌==◌, ltb, leb, not, ◌&&◌, if◌then◌else◌, Bool, true, false, List,
  [], ◌∷◌, ◌++◌, length, take, drop, set, get_elem?, Option, none, some,
}
use ruskiy.Shared.Int.{ℤ, pos, ◌-ℤ◌, ltb_ℤ}
use ruskiy.Platform.{Float}
use ruskiy.Model.{SessionItemRole, is_cooldown, is_warmup}
use ruskiy.Engine.Data.{
  ContentSelection, ComposedItem, ComposedSession, item_time, session_total_est_time,
}
use ruskiy.Engine.Composer.Adapt.{ExerciseAttempt, AdaptationResult, evaluate_adaptation}

module _ {F : Type 0} where
  -- The item with EstimatedTime set to 15.
  abbrev pub shortened : ComposedItem F → ComposedItem F
  shortened it =
      let sel = it.content in
      let atom = sel.content in
      record it { content = record sel { content = record atom { estimated_time = pos 15 } } }

  abbrev pub can_shorten : ComposedItem F → Bool
  can_shorten it = if is_cooldown it.role then ltb 15 (item_time it) else false

  -- if session.Items[i].Role != RoleWarmup { removeIdx = i; break }
  abbrev pub removable_or : Option (ComposedItem F) → ℕ → Option ℕ → Option ℕ
  removable_or none i rest = none
  removable_or (some it) i rest = if is_warmup it.role then rest else some i

  -- for i := lastIdx; i >= 1; i--: the last index from 1 on whose item is no warmup
  unfoldable pub last_removable : ℕ → List (ComposedItem F) → Option ℕ
  last_removable zero items = none
  last_removable (suc i) items =
      let rest = last_removable i items in removable_or (get_elem? items (suc i)) (suc i) rest

  -- session.Items[i].Position = i
  unfoldable pub reindex : ℕ → List (ComposedItem F) → List (ComposedItem F)
  reindex i [] = []
  reindex i (it ∷ its) = record it { position = i } ∷ reindex (i + 1) its

  -- append(items[:i], items[i+1:]...)
  unfoldable pub remove_at : ℕ → List (ComposedItem F) → List (ComposedItem F)
  remove_at i [] = []
  remove_at zero (it ∷ its) = its
  remove_at (suc i) (it ∷ its) = it ∷ remove_at i its

  abbrev pub without_item : ComposedSession F → ℕ → ComposedItem F → ComposedSession F
  without_item s i it = record s {
    items = reindex 0 (remove_at i s.items);
    total_est_time = s.total_est_time -ℤ pos (item_time it);
  }

  unfoldable pub remove_item : ComposedSession F → Option ℕ → Option (ComposedSession F)
  remove_item s none = none
  remove_item s (some i) = elim (get_elem? s.items i) [
    | none ↦ none
    | some it ↦ some (without_item s i it)
  ]

  abbrev pub with_short_cooldown : ComposedSession F → ℕ → ComposedItem F → ComposedSession F
  with_short_cooldown s last it = record s {
    items = set s.items last (shortened it);
    total_est_time = s.total_est_time -ℤ pos (item_time it - 15);
  }

  unfoldable pub trim_step : ComposedSession F → Option (ComposedSession F)
  trim_step s =
      let last = length s.items - 1 in
      elim (get_elem? s.items last) [
        | none ↦ none
        | some it ↦
            if can_shorten it
            then some (with_short_cooldown s last it)
            else remove_item s (last_removable last s.items)
      ]

  -- session.TotalEstTime > maxTime && len(session.Items) > 2
  abbrev pub is_over : ℤ → ComposedSession F → Bool
  is_over max_time s = ltb_ℤ max_time s.total_est_time && ltb 2 (length s.items)

  unfoldable pub trim : ℕ → ℤ → ComposedSession F → ComposedSession F
  trim zero max_time s = s
  trim (suc fuel) max_time s = elim (is_over max_time s) [
    | false ↦ s
    | true ↦ elim (trim_step s) [ none ↦ s | some s' ↦ trim fuel max_time s' ]
  ]

  -- An item is removed or, once for each length, a cooldown is shortened: `trim_fuel` rounds do.
  abbrev pub trim_fuel : ComposedSession F → ℕ
  trim_fuel s = 2 * length s.items + 2

module _ {F : Type 0} ⦃fl : Float F⦄ where
  -- int(float64(session.TimeBudget) * 1.15)
  unfoldable pub max_time : ComposedSession F → ℤ
  max_time s = fl.to_int (fl.mul (fl.of_int s.time_budget) (fl.lit 115 2))

  unfoldable pub enforce_time_budget : ComposedSession F → ComposedSession F
  enforce_time_budget s = trim (trim_fuel s) (max_time s) s

  unfoldable pub adapt_and_enforce_budget :
      ComposedSession F
      → List ExerciseAttempt
      → ℕ
      → List (ContentSelection F)
      → ComposedSession F × AdaptationResult
  adapt_and_enforce_budget s results current pool =
      let (s', r) = evaluate_adaptation s results current pool in
      if r.adapted
      then (enforce_time_budget (record s' { total_est_time = session_total_est_time s' }), r)
      else (s', r)
