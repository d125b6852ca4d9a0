-- ===== src/Engine/Composer/Place/Marks.antt =====
-- Counting content IDs in the pools and the flags of placeItems.
use native.Mathlib.Nat.{ℕ_set}
use mathlib.Core.Path.{ap₂}
use mathlib.Core.Logic.{∥∥₁_elim}
use mathlib.Core.List.{Perm, Permᴰ}
use ruskiy.Shared.{
  ℕ, suc, ◌+◌, ◌<◌, ◌==◌, Bool, true, false, List, [], ◌∷◌, length, some, ◌≡◌, ◌≢◌, refl, arith, ap,
  ◌∙◌,
}
use ruskiy.Platform.{Float}
use ruskiy.Engine.Data.{ContentSelection}
use ruskiy.Engine.Composer.Place.{
  Pools, PoolName, Marked, no_pool, easy_pool, medium_pool, hard_pool, very_hard_pool, pop_pool,
  mark_used, unused, split_pools, unmarked,
}

abbrev pub one_if : Bool → ℕ
one_if true = 1
one_if false = 0

module _ {F : Type 0} where
  -- How many selections have the content ID `k`.
  abbrev pub count_id : ℕ → List (ContentSelection F) → ℕ
  count_id k [] = 0
  count_id k (s ∷ ss) = one_if (s.content.id == k) + count_id k ss

  abbrev pub count_pools : ℕ → Pools F → ℕ
  count_pools k p =
      count_id k p.easy + count_id k p.medium + count_id k p.hard + count_id k p.very_hard

  pub count_id-perm :
      {a b : List (ContentSelection F)} (k : ℕ) → Perm a b → count_id k a ≡ count_id k b
  count_id-perm {a} {b} k p = ∥∥₁_elim p (ℕ_set _ _) count
    where
      count : {c d : List (ContentSelection F)} → Permᴰ c d → count_id k c ≡ count_id k d
      count Permᴰ.nil = refl
      count (Permᴰ.cons e q) =
          ap₂ (λ (x : ContentSelection F) (n : ℕ). one_if (x.content.id == k) + n) e (count q)
      count (Permᴰ.swap e e') =
          let one : ContentSelection F → ℕ = λ x. one_if (x.content.id == k) in
          omega (arith, ap one e, ap one e')
      count (Permᴰ.trans q r) = count q ∙ count r

  pub length-perm : {a b : List (ContentSelection F)} → Perm a b → length a ≡ length b
  length-perm {a} {b} p = ∥∥₁_elim p (ℕ_set _ _) same
    where
      same : {c d : List (ContentSelection F)} → Permᴰ c d → length c ≡ length d
      same Permᴰ.nil = refl
      same (Permᴰ.cons _ q) = ap suc (same q)
      same (Permᴰ.swap _ _) = refl
      same (Permᴰ.trans q r) = same q ∙ same r

  -- Taking the head of a pool takes one selection out of the pools.
  pub count_pools-pop :
      (name : PoolName) (p : Pools F) {s : ContentSelection F} {p' : Pools F} (k : ℕ)
      → pop_pool name p ≡ some (s, p')
      → count_pools k p ≡ one_if (s.content.id == k) + count_pools k p'
  unfolding pop_pool
  count_pools-pop no_pool p k e = cc
  count_pools-pop easy_pool p k e = ground arith
  count_pools-pop medium_pool p k e = ground arith
  count_pools-pop hard_pool p k e = ground arith
  count_pools-pop very_hard_pool p k e = ground arith

  abbrev pub count_unused : ℕ → Marked F → ℕ
  count_unused k used = count_id k (unused used)

  -- Where an unused element has the ID, marking takes one of that ID out of the unused ones.
  pub count_unused-mark :
      (id : ℕ) (used : Marked F) (k : ℕ)
      → 0 < count_unused id used
      → count_unused k used ≡ one_if (id == k) + count_unused k (mark_used id used)
  unfolding mark_used unused
  count_unused-mark id [] k h = elim h [ ]
  count_unused-mark id ((s, true) ∷ rest) k h = ground (arith, count_unused-mark id rest k)
  count_unused-mark id ((s, false) ∷ rest) k h = ground (arith, count_unused-mark id rest k)

  pub length-unused-mark :
      (id : ℕ) (used : Marked F)
      → 0 < count_unused id used
      → length (unused used) ≡ suc (length (unused (mark_used id used)))
  unfolding mark_used unused
  length-unused-mark id [] h = elim h [ ]
  length-unused-mark id ((s, true) ∷ rest) h = ground (arith, length-unused-mark id rest)
  length-unused-mark id ((s, false) ∷ rest) h = ground (arith, length-unused-mark id rest)

module _ {F : Type 0} ⦃fl : Float F⦄ where
  pub count_pools-split :
      (ss : List (ContentSelection F)) (k : ℕ) → count_pools k (split_pools ss) ≡ count_id k ss
  unfolding split_pools
  count_pools-split [] k = refl
  count_pools-split (s ∷ ss) k = ground (arith, count_pools-split ss k)

  pub unused-unmarked : (ss : List (ContentSelection F)) → unused (unmarked ss) ≡ ss
  unfolding unused
  unused-unmarked [] = refl
  unused-unmarked (s ∷ ss) = ap (◌∷◌ s) (unused-unmarked ss)

pub one_if_self : (a : ℕ) → one_if (a == a) ≡ 1
one_if_self a = ground arith

pub one_if-ne : (a b : ℕ) → a ≢ b → one_if (a == b) ≡ 0
one_if-ne a b n = ground arith
