-- ===== src/Engine/Data.antt =====
-- The records of services/api/internal/engine/content_selector.go and session_composer.go that the
-- engine's parts exchange, and the estimate of an item's time that both files write out.
use ruskiy.Shared.{ℕ, suc, ◌+◌, Bool, false, List, [], ◌∷◌, String}
use ruskiy.Shared.Int.{ℤ, pos}
use ruskiy.Platform.{Float}
use ruskiy.Model.{ContentAtom, SessionItemRole, no_role, zero_atom}

pub record ContentSelection (F : Type 0) : Type 0 where
  pub content : ContentAtom F
  pub skill_id : String
  pub role : SessionItemRole
  pub is_review : Bool

pub record ComposedItem (F : Type 0) : Type 0 where
  pub content : ContentSelection F
  pub role : SessionItemRole
  pub position : ℕ
  pub hint_level : ℕ
  pub difficulty : F

pub record ComposedSession (F : Type 0) : Type 0 where
  pub items : List (ComposedItem F)
  pub time_budget : ℤ  -- seconds
  pub total_est_time : ℤ  -- seconds
  pub segment : String

-- `if et <= 0 { et = 30 }`
abbrev pub effective_time : ℤ → ℕ
effective_time (pos (suc n)) = suc n
effective_time _ = 30

-- The zero value of ContentSelection.
abbrev pub zero_selection : {F : Type 0} ⦃fl : Float F⦄ → ContentSelection F
zero_selection = record { content = zero_atom; skill_id = ""; role = no_role; is_review = false }

module _ {F : Type 0} where
  abbrev pub item_time : ComposedItem F → ℕ
  item_time it = effective_time it.content.content.estimated_time

  -- The sum that ComposeSession and SessionTotalEstTime make.
  abbrev pub sum_times : List (ComposedItem F) → ℕ
  sum_times [] = 0
  sum_times (it ∷ its) = item_time it + sum_times its

  unfoldable pub session_total_est_time : ComposedSession F → ℤ
  session_total_est_time s = pos (sum_times s.items)
