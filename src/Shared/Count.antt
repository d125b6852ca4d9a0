-- ===== src/Shared/Count.antt =====
-- How many elements of a list pass a test.
use native.Mathlib.Nat.{ℕ_set}
use mathlib.Core.Path.{◌≡◌, refl, ap, ap₂, ◌∙◌}
use mathlib.Core.Logic.{∥∥₁_elim}
use mathlib.Core.Bool.{Bool}
use mathlib.Core.List.{List, [], ◌∷◌, ◌++◌, Perm, Permᴰ}
use Prim.Native.Nat.{ℕ, zero, suc, ◌+◌, ◌≤◌}
use native.Mathlib.Omega.{arith}
use ruskiy.Shared.Tests.{if◌then◌else◌}
use ruskiy.Shared.Lists.{length, take}

module _ {ℓ} {A : Type ℓ} (p : A → Bool) where
  abbrev one : A → ℕ
  one x = if p x then 1 else 0

  abbrev pub count_by : List A → ℕ
  count_by [] = 0
  count_by (x ∷ xs) = (if p x then 1 else 0) + count_by xs

  pub count_by-append : (xs ys : List A) → count_by (xs ++ ys) ≡ count_by xs + count_by ys
  count_by-append [] ys = omega arith
  count_by-append (x ∷ xs) ys = omega (arith, count_by-append xs ys)

  pub count_by-take : (n : ℕ) (xs : List A) → count_by (take n xs) ≤ count_by xs
  count_by-take zero xs = omega arith
  count_by-take (suc n) [] = omega arith
  count_by-take (suc n) (x ∷ xs) = omega (arith, count_by-take n xs)

  pub count_by-perm : {xs ys : List A} → Perm xs ys → count_by xs ≡ count_by ys
  count_by-perm {xs} {ys} q = ∥∥₁_elim q (ℕ_set _ _) same
    where
      same : {as_ bs : List A} → Permᴰ as_ bs → count_by as_ ≡ count_by bs
      same Permᴰ.nil = refl
      same (Permᴰ.cons e r) = ap₂ (λ (x : A) (n : ℕ). one x + n) e (same r)
      same (Permᴰ.swap e e') = omega (arith, ap one e, ap one e')
      same (Permᴰ.trans r r') = same r ∙ same r'

module _ {ℓ} {A : Type ℓ} where
  pub length-perm : {xs ys : List A} → Perm xs ys → length xs ≡ length ys
  length-perm {xs} {ys} q = ∥∥₁_elim q (ℕ_set _ _) same
    where
      same : {as_ bs : List A} → Permᴰ as_ bs → length as_ ≡ length bs
      same Permᴰ.nil = refl
      same (Permᴰ.cons e r) = ap suc (same r)
      same (Permᴰ.swap e e') = refl
      same (Permᴰ.trans r r') = same r ∙ same r'
