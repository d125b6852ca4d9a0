-- ===== src/Engine/Composer/Items.antt =====
-- Writes to the items of a session: what happens to their times and roles.
use ruskiy.Shared.{ℕ, zero, suc, ◌+◌, List, [], ◌∷◌, set, get_elem?, some, ◌≡◌, refl, arith, ap}
use ruskiy.Shared.Int.{pos}
use ruskiy.Model.{SessionItemRole}
use ruskiy.Engine.Data.{ComposedItem, ComposedSession, item_time, sum_times}

module _ {F : Type 0} where
  abbrev pub roles : List (ComposedItem F) → List SessionItemRole
  roles [] = []
  roles (it ∷ its) = it.role ∷ roles its

  -- TotalEstTime is the sum of the items' times.
  abbrev pub IsTimed : ComposedSession F → Type 0
  IsTimed s = s.total_est_time ≡ pos (sum_times s.items)

  pub sum_times-set :
      (its : List (ComposedItem F)) (i : ℕ) (v : ComposedItem F) {old : ComposedItem F}
      → get_elem? its i ≡ some old
      → sum_times (set its i v) + item_time old ≡ sum_times its + item_time v
  sum_times-set [] i v e = ground arith
  sum_times-set (it ∷ its) zero v e = ground arith
  sum_times-set (it ∷ its) (suc i) v e = omega (arith, sum_times-set its i v e)

  pub roles-set :
      (its : List (ComposedItem F)) (i : ℕ) (v : ComposedItem F) {old : ComposedItem F}
      → get_elem? its i ≡ some old
      → v.role ≡ old.role
      → roles (set its i v) ≡ roles its
  roles-set [] i v e r = refl
  roles-set (it ∷ its) zero v e r = ground arith
  roles-set (it ∷ its) (suc i) v e r = ap (◌∷◌ it.role) (roles-set its i v e r)
