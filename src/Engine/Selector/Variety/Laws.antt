-- ===== src/Engine/Selector/Variety/Laws.antt =====
-- enforceVariety only reorders: its swaps, its sweeps and its attempts are permutations.
use ruskiy.Shared.{
  ℕ, zero, suc, ◌+◌, ◌-◌, ◌<◌, leb, if_elim, Bool-cases, true, false, List, [], ◌∷◌, get_elem?,
  get_elem?-drop, set, drop, length, Option-cases, some, String, str_eq, ◌≡◌, refl, sym, ◌∙◌, ap,
  arith, ◌⊎◌, inl, inr,
}
use mathlib.Core.Path.{subst}
use mathlib.Core.Option.{some-injective}
use mathlib.Core.List.{Perm, Permᴰ}
use mathlib.Core.List.Permᴰ
use ruskiy.Engine.Data.{ContentSelection}
use ruskiy.Engine.Selector.Variety.{
  get_exercise_type, type_at, selections_type_match, has_long_run, other_type, swap_with, break_run,
  sweep, attempts, enforce_variety,
}

module _ {ℓ} {A : Type ℓ} where
  -- An element in front and one inside trade places.
  exchange_Permᴰ :
      (v s : A) (xs : List A) (i : ℕ) → get_elem? xs i ≡ some s → Permᴰ (v ∷ xs) (s ∷ set xs i v)
  exchange_Permᴰ v s [] i e = ground arith
  exchange_Permᴰ v s (x ∷ xs) zero e = Permᴰ.swap refl (some-injective x s e)
  exchange_Permᴰ v s (x ∷ xs) (suc i) e =
      Permᴰ.trans (Permᴰ.swap refl refl)
        (Permᴰ.trans (Permᴰ.cons refl (exchange_Permᴰ v s xs i e)) (Permᴰ.swap refl refl))

  swap_Permᴰ :
      (xs : List A) (i j : ℕ) (x s : A)
      → get_elem? xs i ≡ some x
      → get_elem? xs j ≡ some s
      → i < j
      → Permᴰ xs (set (set xs i s) j x)
  swap_Permᴰ [] i j x s e e2 lt = Permᴰ.nil
  swap_Permᴰ (y ∷ xs) i zero x s e e2 lt = absurd (ground (arith, lt))
  swap_Permᴰ (y ∷ xs) zero (suc j) x s e e2 lt =
      subst (λ z. Permᴰ (y ∷ xs) (s ∷ set xs j z)) (some-injective y x e)
        (exchange_Permᴰ y s xs j e2)
  swap_Permᴰ (y ∷ xs) (suc i) (suc j) x s e e2 lt =
      Permᴰ.cons refl (swap_Permᴰ xs i j x s e e2 (omega arith))

module _ {F : Type 0} where
  -- What the loop over j finds stands at its index.
  other_type_lem :
      (t : String) (j : ℕ) (later : List (ContentSelection F)) (k : ℕ) (s : ContentSelection F)
      → other_type t j later ≡ some (k, s)
      → (n : ℕ) × (k ≡ j + n) × (get_elem? later n ≡ some s)
  unfolding other_type
  other_type_lem t j [] k s e = absurd (ground (arith, e))
  other_type_lem t j (x ∷ later) k s e = elim (Bool-cases (str_eq (get_exercise_type x) t)) [
    | inl b ↦
        let (n, ek, es) = other_type_lem t (suc j) later k s (rw (b, other_type) at e) in
        (suc n, omega arith, es)
    | inr b ↦
        let found = some-injective (j, x) (k, s) (rw (b, other_type) at e) in
        (
          0,
          omega (arith, ap (λ (q : ℕ × ContentSelection F). q.0) found),
          ap (λ (q : ℕ × ContentSelection F). some q.1) found,
        )
  ]

  break_run-Permᴰ : (sels : List (ContentSelection F)) (i : ℕ) → Permᴰ sels (break_run sels i)
  unfolding break_run swap_with
  break_run-Permᴰ sels i =
      let found = other_type (type_at sels i) (suc i) (drop (suc i) sels) in
      if_elim (Permᴰ sels) (selections_type_match sels i 3) (swap_with sels i found) sels
        (λ _. elim (Option-cases found) [
          | inl e ↦ rw (e, swap_with) (Permᴰ.refl sels)
          | inr ((k, s), e) ↦
              let (n, ek, es) = other_type_lem (type_at sels i) (suc i) (drop (suc i) sels) k s e in
              elim (Option-cases (get_elem? sels i)) [
                | inl e2 ↦ rw (e, swap_with, e2) (Permᴰ.refl sels)
                | inr (x, e2) ↦
                    rw (e, swap_with, e2)
                      (swap_Permᴰ sels i k x s e2
                        (ap (get_elem? sels) ek ∙ sym (get_elem?-drop (suc i) sels n) ∙ es)
                        (omega arith))
              ]
        ])
        (λ _. Permᴰ.refl sels)

  sweep-Permᴰ : (rounds i : ℕ) (sels : List (ContentSelection F)) → Permᴰ sels (sweep rounds i sels)
  unfolding sweep
  sweep-Permᴰ zero i sels = Permᴰ.refl sels
  sweep-Permᴰ (suc rounds) i sels =
      Permᴰ.trans (break_run-Permᴰ sels i) (sweep-Permᴰ rounds (suc i) (break_run sels i))

  attempts-Permᴰ : (n : ℕ) (sels : List (ContentSelection F)) → Permᴰ sels (attempts n sels)
  unfolding attempts
  attempts-Permᴰ zero sels = Permᴰ.refl sels
  attempts-Permᴰ (suc n) sels =
      let swept = sweep (length sels - 3) 3 sels in
      if_elim (Permᴰ sels) (has_long_run sels 3) (attempts n swept) sels
        (λ _. Permᴰ.trans (sweep-Permᴰ (length sels - 3) 3 sels) (attempts-Permᴰ n swept))
        (λ _. Permᴰ.refl sels)

  pub enforce_variety-Permᴰ : (sels : List (ContentSelection F)) → Permᴰ sels (enforce_variety sels)
  unfolding enforce_variety
  enforce_variety-Permᴰ sels =
      if_elim (Permᴰ sels) (leb (length sels) 3) sels (attempts 10 sels) (λ _. Permᴰ.refl sels)
        (λ _. attempts-Permᴰ 10 sels)

  attempts-quiet :
      (n : ℕ) (sels : List (ContentSelection F))
      → has_long_run sels 3 ≡ false
      → attempts n sels ≡ sels
  unfolding attempts
  attempts-quiet zero sels e = refl
  attempts-quiet (suc n) sels e = rw (e, attempts) refl

  -- enforceVariety returns its selections in some order, and in their own order when no exercise type
  -- stands four times in a row.
  pub enforce_variety-Perm :
      (sels : List (ContentSelection F))
      → Perm sels (enforce_variety sels)
        × ((has_long_run sels 3 ≡ true) ⊎ (enforce_variety sels ≡ sels))
  unfolding enforce_variety
  enforce_variety-Perm sels = (
    ∣ enforce_variety-Permᴰ sels ∣₁,
    elim (Bool-cases (has_long_run sels 3)) [
      | inl e ↦ inl e
      | inr e ↦ inr (
          if_elim (λ l. l ≡ sels) (leb (length sels) 3) sels (attempts 10 sels) (λ _. refl)
            (λ _. attempts-quiet 10 sels e))
    ],
  )
