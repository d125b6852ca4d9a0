-- ===== src/Engine/Composer/Place.antt =====
-- services/api/internal/engine/session_composer.go: placeItems and ComposeSession. The map `used`
-- from an index of sortedByDifficulty to a flag is kept as a flag beside each element.
pub mod Marks
pub mod Conserve
use ruskiy.Shared.{
  ℕ, zero, suc, ◌+◌, ◌*◌, ◌==◌, not, ◌&&◌, if◌then◌else◌, Bool, true, false, List, [], ◌∷◌, ◌++◌,
  length, Option, none, some, String, map,
}
use ruskiy.Shared.Int.{ℤ, pos, ◌*ℤ◌}
use ruskiy.Platform.{Float, SortSlice}
use ruskiy.Model.{SessionItemRole, no_role, warmup, ramp, core, relief, challenge, cooldown}
use ruskiy.Engine.Data.{ContentSelection, ComposedItem, ComposedSession, zero_selection, sum_times}
use ruskiy.Engine.Composer.Template.{TemplateSlot, build_template}

pub record Pools (F : Type 0) : Type 0 where
  pub easy : List (ContentSelection F)
  pub medium : List (ContentSelection F)
  pub hard : List (ContentSelection F)
  pub very_hard : List (ContentSelection F)

-- sortedByDifficulty with the flags of `used`.
abbrev pub Marked : Type 0 → Type 0
Marked F = List (ContentSelection F × Bool)

-- Which pool the pointer `pool` points to; `no_pool` is nil.
pub data PoolName : Type 0 where
  no_pool easy_pool medium_pool hard_pool very_hard_pool : PoolName

module _ {F : Type 0} where
  abbrev pub is_empty : List (ContentSelection F) → Bool
  is_empty [] = true
  is_empty (_ ∷ _) = false

  unfoldable pub choose_pool : SessionItemRole → Pools F → PoolName
  choose_pool warmup p = easy_pool
  choose_pool cooldown p = easy_pool
  choose_pool ramp p = if is_empty p.medium then easy_pool else medium_pool
  choose_pool relief p = if is_empty p.medium then easy_pool else medium_pool
  choose_pool core p = if is_empty p.hard then medium_pool else hard_pool
  choose_pool challenge p = if is_empty p.very_hard then hard_pool else very_hard_pool
  choose_pool no_role p = no_pool

  abbrev pub pick_from :
      List (ContentSelection F)
      → (List (ContentSelection F) → Pools F)
      → Option (ContentSelection F × Pools F)
  pick_from [] rebuild = none
  pick_from (s ∷ ss) rebuild = some (s, rebuild ss)

  -- sel := (*pool)[0]; *pool = (*pool)[1:]
  unfoldable pub pop_pool : PoolName → Pools F → Option (ContentSelection F × Pools F)
  pop_pool no_pool p = none
  pop_pool easy_pool p = pick_from p.easy (λ r. record p { easy = r })
  pop_pool medium_pool p = pick_from p.medium (λ r. record p { medium = r })
  pop_pool hard_pool p = pick_from p.hard (λ r. record p { hard = r })
  pop_pool very_hard_pool p = pick_from p.very_hard (λ r. record p { very_hard = r })

  -- The inner loop that sets used[j] at the first unused element with the picked content's ID.
  unfoldable pub mark_used : ℕ → Marked F → Marked F
  mark_used id [] = []
  mark_used id ((s, true) ∷ rest) = (s, true) ∷ mark_used id rest
  mark_used id ((s, false) ∷ rest) =
      if s.content.id == id then (s, true) ∷ rest else (s, false) ∷ mark_used id rest

  -- The elements whose flag is not set, in order.
  unfoldable pub unused : Marked F → List (ContentSelection F)
  unused [] = []
  unused ((s, true) ∷ rest) = unused rest
  unused ((s, false) ∷ rest) = s ∷ unused rest

  abbrev pub picked_item : ContentSelection F → SessionItemRole → ℕ → ComposedItem F
  picked_item sel r i = record {
    content = sel;
    role = r;
    position = i;
    hint_level = 0;
    difficulty = sel.content.difficulty;
  }

  -- The second pass: an item whose content ID is nil takes the next remaining selection.
  unfoldable pub second_pass :
      List (ComposedItem F) → List (ContentSelection F) → List (ComposedItem F)
  second_pass [] remaining = []
  second_pass (it ∷ its) [] = it ∷ second_pass its []
  second_pass (it ∷ its) (s ∷ remaining) =
      if it.content.content.id == 0
      then record it { content = s; difficulty = s.content.difficulty } ∷ second_pass its remaining
      else it ∷ second_pass its (s ∷ remaining)

module _ {F : Type 0} ⦃fl : Float F⦄ where
  -- The four pools, each in the order of the sorted list.
  unfoldable pub split_pools : List (ContentSelection F) → Pools F
  split_pools [] = record { easy = []; medium = []; hard = []; very_hard = [] }
  split_pools (s ∷ ss) =
      let p = split_pools ss in
      let d = s.content.difficulty in
      if fl.lt d (fl.lit 3 1)
      then record p { easy = s ∷ p.easy }
      else if fl.lt d (fl.lit 6 1)
      then record p { medium = s ∷ p.medium }
      else if fl.lt d (fl.lit 8 1)
      then record p { hard = s ∷ p.hard }
      else record p { very_hard = s ∷ p.very_hard }

  abbrev pub empty_item : SessionItemRole → ℕ → ComposedItem F
  empty_item r i = record {
    content = zero_selection;
    role = r;
    position = i;
    hint_level = 0;
    difficulty = fl.lit 0 0;
  }

  -- One slot of the first pass.
  abbrev pub place_one :
      SessionItemRole
      → ℕ
      → Option (ContentSelection F × Pools F)
      → Pools F
      → Marked F
      → ComposedItem F × Pools F × Marked F
  place_one r i none p used = (empty_item r i, p, used)
  place_one r i (some (sel, p')) p used = (picked_item sel r i, p', mark_used sel.content.id used)

  unfoldable pub first_pass :
      ℕ → List (TemplateSlot F) → Pools F → Marked F → List (ComposedItem F) × Marked F
  unfolding choose_pool pop_pool mark_used
  first_pass i [] p used = ([], used)
  first_pass i (slot ∷ slots) p used =
      let (it, p', used') = place_one slot.role i (pop_pool (choose_pool slot.role p) p) p used in
      let (its, used'') = first_pass (i + 1) slots p' used' in (it ∷ its, used'')

  abbrev pub unmarked : List (ContentSelection F) → Marked F
  unmarked = map (λ s. (s, false))

  unfoldable pub place_items :
      List (ContentSelection F) → List (TemplateSlot F) → List (ComposedItem F)
  unfolding first_pass split_pools second_pass unused
  place_items sorted [] = []
  place_items sorted (slot ∷ slots) =
      let (items, used) = first_pass 0 (slot ∷ slots) (split_pools sorted) (unmarked sorted) in
      second_pass items (unused used)

  abbrev pub session_of : ℤ → String → List (ComposedItem F) → ComposedSession F
  session_of budget_minutes seg items = record {
    items = items;
    time_budget = budget_minutes *ℤ pos 60;
    total_est_time = pos (sum_times items);
    segment = seg;
  }

  module _ (sorting : SortSlice) where
    -- `none` is a panic.
    unfoldable pub compose_session :
        List (ContentSelection F) → ℤ → String → Option (ComposedSession F)
    unfolding place_items
    compose_session [] budget_minutes seg = some (session_of budget_minutes seg [])
    compose_session (s ∷ selections) budget_minutes seg =
        let sorted =
          sorting.sort (ContentSelection F) (λ a b. fl.lt a.content.difficulty b.content.difficulty)
            (s ∷ selections) in
        elim (build_template (length sorted) seg budget_minutes) [
          | none ↦ none
          | some template ↦ some (session_of budget_minutes seg (place_items sorted template))
        ]
