-- ===== src/Platform.antt =====
-- What the Go code takes from the language and its standard library: float64 (with package math),
-- sort.Slice. The code never depends on more of them than these operations; the laws that the proofs
-- use are stated apart.
use Prim.Native.Nat.{◌^◌}
use mathlib.Core.List.{Perm}
use ruskiy.Shared.{ℕ, ◌*◌, ◌<◌, ◌≡◌, false, ltb, leb, Bool, List}
use ruskiy.Shared.Int.{ℤ}

-- float64. `lit m k` is the constant m / 10^k, `to_int` is the conversion int(x), and `hours` is
-- Duration.Hours on a number of nanoseconds.
pub record Float (F : Type 0) : Type 0 where
  pub lit : ℕ → ℕ → F
  pub of_int : ℤ → F
  pub to_int : F → ℤ
  pub neg : F → F
  pub add : F → F → F
  pub sub : F → F → F
  pub mul : F → F → F
  pub div : F → F → F
  pub lt : F → F → Bool
  pub le : F → F → Bool
  pub feq : F → F → Bool
  pub fmin : F → F → F
  pub fmax : F → F → F
  pub fabs : F → F
  pub ceil : F → F
  pub round : F → F
  pub exp : F → F
  pub log : F → F
  pub hours : ℤ → F

-- What the proofs use of float64. Each law holds for every value, NaN included: `<` with NaN is
-- false, and math.Min and math.Max of a NaN are NaN. Constants of at most three digits and three
-- decimals compare as the decimals that they are written as.
pub record FloatLaws (F : Type 0) ⦃fl : Float F⦄ : Type 0 where
  pub lt_irrefl : (x : F) → fl.lt x x ≡ false
  pub lit_lt :
      (m k n j : ℕ)
      → m < 1000
      → n < 1000
      → k < 4
      → j < 4
      → fl.lt (fl.lit m k) (fl.lit n j) ≡ ltb (m * 10 ^ j) (n * 10 ^ k)
  pub lit_le :
      (m k n j : ℕ)
      → m < 1000
      → n < 1000
      → k < 4
      → j < 4
      → fl.le (fl.lit m k) (fl.lit n j) ≡ leb (m * 10 ^ j) (n * 10 ^ k)
  pub fmin_right : (x y : F) → fl.lt y (fl.fmin x y) ≡ false
  pub fmax_right : (x y : F) → fl.lt (fl.fmax x y) y ≡ false

-- sort.Slice on a slice with the test `less`; it is not stable.
pub record SortSlice : Type 1 where
  pub sort : (A : Type 0) → (A → A → Bool) → List A → List A
  pub sort_perm : (A : Type 0) (less : A → A → Bool) (xs : List A) → Perm (sort A less xs) xs
