-- ===== src/Shared/Lookup.antt =====
-- Go maps: a map with string or integer keys is a function to Option or to its default.
use Prim.Native.Nat.{ℕ}
use Prim.Native.String.{String}
use mathlib.Core.Path.{◌≡◌}
use mathlib.Core.Bool.{Bool, true, false}
use mathlib.Core.List.{List, [], ◌∷◌}
use ruskiy.Shared.Tests.{str_eq, str_eq_self, ◌==◌, if◌then◌else◌}

-- m[k] = v
module _ {ℓ} {V : Type ℓ} where
  abbrev pub put : String → V → (String → V) → String → V
  put k v m j = if str_eq k j then v else m j

  abbrev pub put_at : ℕ → V → (ℕ → V) → ℕ → V
  put_at k v m j = if k == j then v else m j

  pub put_self : (k : String) (v : V) (m : String → V) → put k v m k ≡ v
  put_self k v m = rw (str_eq_self k)

-- A set of strings as a list: membership, and insertion of a new element.
abbrev pub has : String → List String → Bool
has k [] = false
has k (s ∷ ss) = if str_eq s k then true else has k ss

abbrev pub has_id : ℕ → List ℕ → Bool
has_id k [] = false
has_id k (s ∷ ss) = if s == k then true else has_id k ss
