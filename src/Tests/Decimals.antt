-- ===== src/Tests/Decimals.antt =====
-- A concrete float64 and sort.Slice for the witnesses: decimals, and insertion sort.
use Prim.Native.Nat.{◌^◌, ◌/◌}
use mathlib.Core.List.{Permᴰ}
use ruskiy.Shared.{
  ℕ, ◌+◌, ◌*◌, ◌-◌, ◌≤◌, ◌≡◌, refl, arith, false, ltb, leb, ◌==◌, if◌then◌else◌, if_elim, Bool,
  List, [], ◌∷◌,
}
use ruskiy.Shared.Int.{ℤ, pos, negsuc, pos_part}
use ruskiy.Platform.{Float, FloatLaws, SortSlice}

-- m / 10^k
pub record Decimal : Type 0 where
  pub digits : ℕ
  pub places : ℕ

abbrev pub dec : ℕ → ℕ → Decimal
dec m k = record { digits = m; places = k }

abbrev pub dec_lt : Decimal → Decimal → Bool
dec_lt a b = ltb (a.digits * 10 ^ b.places) (b.digits * 10 ^ a.places)

abbrev pub dec_le : Decimal → Decimal → Bool
dec_le a b = leb (a.digits * 10 ^ b.places) (b.digits * 10 ^ a.places)

abbrev pub dec_of_int : ℤ → Decimal
dec_of_int (pos n) = dec n 0
dec_of_int (negsuc n) = dec 0 0

abbrev pub dec_sub : Decimal → Decimal → Decimal
dec_sub a b = dec (a.digits * 10 ^ b.places - b.digits * 10 ^ a.places) (a.places + b.places)

abbrev pub dec_div : Decimal → Decimal → Decimal
dec_div a b = dec (a.digits * 10 ^ (b.places + 3) / (b.digits * 10 ^ a.places)) 3

abbrev pub dec_round : ℕ → Decimal → Decimal
dec_round up a = dec ((a.digits + up) / 10 ^ a.places) 0

abbrev pub dec_min : Decimal → Decimal → Decimal
dec_min a b = if dec_lt a b then a else b

abbrev pub dec_max : Decimal → Decimal → Decimal
dec_max a b = if dec_lt a b then b else a

instance abbrev pub decimal_float : Float Decimal
decimal_float = record {
  lit = dec;
  of_int = dec_of_int;
  to_int = λ a. pos (a.digits / 10 ^ a.places);
  neg = λ a. dec 0 0;
  add = λ a b. dec (a.digits * 10 ^ b.places + b.digits * 10 ^ a.places) (a.places + b.places);
  sub = dec_sub;
  mul = λ a b. dec (a.digits * b.digits) (a.places + b.places);
  div = dec_div;
  lt = dec_lt;
  le = dec_le;
  feq = λ a b. (a.digits * 10 ^ b.places) == (b.digits * 10 ^ a.places);
  fmin = dec_min;
  fmax = dec_max;
  fabs = λ a. a;
  ceil = λ a. dec_round (10 ^ a.places - 1) a;
  round = λ a. dec_round (10 ^ a.places / 2) a;
  exp = λ a. dec 1 0;
  log = λ a. dec 1 0;
  hours = λ n. dec 0 0;
}

dec_irrefl : (a : Decimal) → dec_lt a a ≡ false
dec_irrefl a = ground arith

dec_min_right : (a b : Decimal) → dec_lt b (dec_min a b) ≡ false
dec_min_right a b =
    if_elim (λ c. dec_lt b c ≡ false) (dec_lt a b) a b (λ e. ground arith) (λ _. dec_irrefl b)

dec_max_right : (a b : Decimal) → dec_lt (dec_max a b) b ≡ false
dec_max_right a b = if_elim (λ c. dec_lt c b ≡ false) (dec_lt a b) b a (λ _. dec_irrefl b) (λ e. e)

pub decimal_laws : FloatLaws Decimal
decimal_laws = record {
  lt_irrefl = dec_irrefl;
  lit_lt = λ m k n j a b c d. refl;
  lit_le = λ m k n j a b c d. refl;
  fmin_right = dec_min_right;
  fmax_right = dec_max_right;
}

-- Insertion.
abbrev insert : {A : Type 0} → (A → A → Bool) → A → List A → List A
insert less x [] = x ∷ []
insert less x (y ∷ ys) = if less y x then y ∷ insert less x ys else x ∷ y ∷ ys

abbrev insertion_sort : {A : Type 0} → (A → A → Bool) → List A → List A
insertion_sort less [] = []
insertion_sort less (x ∷ xs) = insert less x (insertion_sort less xs)

abbrev Permᴰ_refl : {A : Type 0} (xs : List A) → Permᴰ xs xs
Permᴰ_refl [] = Permᴰ.nil
Permᴰ_refl (x ∷ xs) = Permᴰ.cons refl (Permᴰ_refl xs)

abbrev insert_perm :
    {A : Type 0} (less : A → A → Bool) (x : A) (ys : List A) → Permᴰ (insert less x ys) (x ∷ ys)
insert_perm less x [] = Permᴰ_refl (x ∷ [])
insert_perm less x (y ∷ ys) =
    if_elim (λ l. Permᴰ l (x ∷ y ∷ ys)) (less y x) (y ∷ insert less x ys) (x ∷ y ∷ ys)
      (λ _. Permᴰ.trans (Permᴰ.cons refl (insert_perm less x ys)) (Permᴰ.swap refl refl))
      (λ _. Permᴰ_refl (x ∷ y ∷ ys))

abbrev sort_permᴰ :
    {A : Type 0} (less : A → A → Bool) (xs : List A) → Permᴰ (insertion_sort less xs) xs
sort_permᴰ less [] = Permᴰ.nil
sort_permᴰ less (x ∷ xs) =
    Permᴰ.trans (insert_perm less x (insertion_sort less xs)) (Permᴰ.cons refl (sort_permᴰ less xs))

unfoldable pub insertion : SortSlice
insertion = record { sort = λ A. insertion_sort; sort_perm = λ A less xs. ∣ sort_permᴰ less xs ∣₁ }

-- 40 percent of a number of items, rounded up, is not more than the number.
pub ceil_law :
    (n : ℕ)
    → n ≤ 20
    → pos_part (
        decimal_float.to_int (
          decimal_float.ceil
            (decimal_float.mul (decimal_float.of_int (pos n)) (decimal_float.lit 4 1))))
      ≤ n
ceil_law n h = omega arith
