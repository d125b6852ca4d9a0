-- ===== src/Engine/Composer/Template/Shape.antt =====
-- The shape of the templates of session_composer.go: their number of slots, the first and the last one.
use mathlib.Core.List.{append_assoc, append-nil}
use ruskiy.Shared.{
  ℕ, zero, suc, ◌+◌, ◌-◌, ◌/◌, ◌≤◌, ◌<◌, leb, List, [], ◌∷◌, ◌++◌, length, replicate, some, ◌≡◌,
  refl, arith, length-append, length-replicate, Bool-cases, inl, inr, sym, last?, last?-append,
  last?-append_cons, ◌≢◌,
}
use ruskiy.Platform.{Float}
use ruskiy.Engine.Composer.Template.{
  TemplateSlot, warmup_slot, ramp_slot, core_slot, relief_slot, challenge_slot, cooldown_slot,
  write, standard_head, standard_tail, standard_large, intensive_head, intensive_tail,
  intensive_large,
}

-- A loop that has room for all its rounds writes that many copies.
write_fits {ℓ} :
    {A : Type ℓ} (c n : ℕ) (s : A) (slots : List A)
    → length slots + c ≤ n
    → write c n s slots ≡ slots ++ replicate c s
unfolding write
write_fits zero n s slots h = sym (append-nil slots)
write_fits (suc c) n s slots h = ground (
  arith,
  write_fits c n s (slots ++ s ∷ []),
  length-append slots (s ∷ []),
  append_assoc slots (s ∷ []) (replicate c s),
)

module _ {F : Type 0} ⦃fl : Float F⦄ where
  -- With four or more slots left: core, relief, core and cooldown, and nothing left over.
  standard_tail_lem :
      (n : ℕ) (s2 : List (TemplateSlot F))
      → length s2 + 4 ≤ n
      → let c = n - length s2 - 2 in
        standard_tail n s2
        ≡ (((s2 ++ replicate (c / 2) core_slot) ++ relief_slot ∷ [])
            ++ replicate (c - c / 2) core_slot)
          ++ cooldown_slot ∷ []
  unfolding standard_tail
  standard_tail_lem n s2 h =
      let c = n - length s2 - 2 in
      let s3 = s2 ++ replicate (c / 2) core_slot in
      let s4 = s3 ++ relief_slot ∷ [] in
      ground (
        arith,
        write_fits (c / 2) n core_slot s2,
        length-append s2 (replicate (c / 2) core_slot),
        length-replicate (c / 2) (core_slot {F = F}),
        length-append s3 (relief_slot ∷ []),
        write_fits (c - c / 2) n core_slot s4,
        length-append s4 (replicate (c - c / 2) core_slot),
        length-replicate (c - c / 2) (core_slot {F = F}),
      )

  standard_head_lem :
      (n : ℕ)
      → 4 ≤ n
      → (rest : List (TemplateSlot F)) × (standard_head n ≡ warmup_slot ∷ rest)
        × (length rest ≤ 4)
        × (n < 12 → length rest ≤ 2)
        × (n < 15 → length rest ≤ 3)
  unfolding standard_head
  standard_head_lem n h =
      let two = write_fits 2 n (warmup_slot {F = F}) [] in
      let three = write_fits 3 n (warmup_slot {F = F}) [] in
      let W = warmup_slot {F = F} in
      let R = ramp_slot {F = F} in
      elim (Bool-cases (leb 15 n)) [
        | inl a ↦ (
          W ∷ W ∷ R ∷ R ∷ [],
          ground (arith, three, write_fits 2 n R (W ∷ W ∷ W ∷ [])),
          omega arith,
          ground arith,
          ground arith,
        )
        | inr a ↦ elim (Bool-cases (leb 12 n)) [
          | inl b ↦ (
            W ∷ R ∷ R ∷ [],
            ground (arith, two, write_fits 2 n R (W ∷ W ∷ [])),
            omega arith,
            ground arith,
            ground arith,
          )
          | inr b ↦ (
            W ∷ R ∷ [],
            ground (arith, two, write_fits 1 n R (W ∷ W ∷ [])),
            omega arith,
            ground arith,
            ground arith,
          )
        ]
      ]

  intensive_head_lem :
      (n : ℕ)
      → 6 ≤ n
      → intensive_head {F = F} n ≡ warmup_slot ∷ warmup_slot ∷ ramp_slot ∷ ramp_slot ∷ []
  unfolding intensive_head
  intensive_head_lem n h = ground (
    arith,
    write_fits 2 n (warmup_slot {F = F}) [],
    write_fits 2 n (ramp_slot {F = F}) (replicate 2 warmup_slot),
  )

  -- With six or more slots left the intensive arc has two reliefs and a challenge.
  intensive_tail_lem :
      (n : ℕ) (s2 : List (TemplateSlot F))
      → length s2 + 6 ≤ n
      → let c = n - length s2 - 4 in
        intensive_tail n s2
        ≡ (((s2 ++ replicate (c / 2) core_slot) ++ relief_slot ∷ [])
            ++ replicate (c - c / 2) core_slot)
          ++ relief_slot ∷ challenge_slot ∷ cooldown_slot ∷ []
  unfolding intensive_tail
  intensive_tail_lem n s2 h =
      let c = n - length s2 - 4 in
      let s3 = s2 ++ replicate (c / 2) core_slot in
      let s4 = s3 ++ relief_slot ∷ [] in
      let s5 = s4 ++ replicate (c - c / 2) core_slot in
      let s6 = s5 ++ relief_slot ∷ [] in
      let s7 = s6 ++ challenge_slot ∷ [] in
      ground (
        arith,
        write_fits (c / 2) n core_slot s2,
        length-append s2 (replicate (c / 2) core_slot),
        length-replicate (c / 2) (core_slot {F = F}),
        length-append s3 (relief_slot ∷ []),
        write_fits (c - c / 2) n core_slot s4,
        length-append s4 (replicate (c - c / 2) core_slot),
        length-replicate (c - c / 2) (core_slot {F = F}),
        length-append s5 (relief_slot ∷ []),
        length-append s6 (challenge_slot ∷ []),
        append_assoc s5 (relief_slot ∷ []) (challenge_slot ∷ []),
        append_assoc s5 (relief_slot ∷ challenge_slot ∷ []) (cooldown_slot ∷ []),
      )

  -- A template has one slot for each item, opens with a warmup, and ends as told.
  pub record Arc (n : ℕ) (t : List (TemplateSlot F)) : Type 0 where
    pub size : length t ≡ n
    pub opens : (rest : List (TemplateSlot F)) × (t ≡ warmup_slot ∷ rest)
    pub closes : n ≢ 1 → n ≢ 4 → n ≢ 6 → n ≢ 7 → last? t ≡ some cooldown_slot

  -- The parts of an arc laid end to end.
  abbrev body : List (TemplateSlot F) → ℕ → ℕ → List (TemplateSlot F)
  body s2 a b = ((s2 ++ replicate a core_slot) ++ relief_slot ∷ []) ++ replicate b core_slot

  abbrev arc : List (TemplateSlot F) → ℕ → ℕ → List (TemplateSlot F) → List (TemplateSlot F)
  arc s2 a b end = body s2 a b ++ end

  length-arc :
      (s2 : List (TemplateSlot F)) (a b : ℕ) (end : List (TemplateSlot F))
      → length (arc s2 a b end) ≡ length s2 + a + 1 + b + length end
  length-arc s2 a b end =
      let s3 = s2 ++ replicate a core_slot in
      let s4 = s3 ++ relief_slot ∷ [] in
      omega (
        arith,
        length-append (s4 ++ replicate b core_slot) end,
        length-append s4 (replicate b core_slot),
        length-append s3 (relief_slot ∷ []),
        length-append s2 (replicate a core_slot),
        length-replicate a (core_slot {F = F}),
        length-replicate b (core_slot {F = F}),
      )

  standard_long-Arc : (n : ℕ) → 7 ≤ n → Arc n (standard_large n)
  unfolding standard_large
  standard_long-Arc n h =
      let (rest, e, small, mid, large) = standard_head_lem n (omega arith) in
      let s2 : List (TemplateSlot F) = warmup_slot ∷ rest in
      let fits : length s2 + 4 ≤ n = grind arith in
      let c = n - length s2 - 2 in
      rw (e, standard_tail_lem n s2 fits)
        (record {
          size = omega (arith, length-arc s2 (c / 2) (c - c / 2) (cooldown_slot ∷ []));
          opens = (_, refl);
          closes = λ _ _ _ _. last?-append (body s2 (c / 2) (c - c / 2)) cooldown_slot;
        })

  pub standard_large-Arc : (n : ℕ) → 4 ≤ n → Arc n (standard_large n)
  standard_large-Arc (suc (suc (suc (suc zero)))) h =
      unfold standard_large standard_head standard_tail write in
      record { size = refl; opens = (_, refl); closes = λ _ b _ _. absurd (b refl) }
  standard_large-Arc (suc (suc (suc (suc (suc zero))))) h =
      unfold standard_large standard_head standard_tail write in
      record { size = refl; opens = (_, refl); closes = λ _ _ _ _. refl }
  standard_large-Arc (suc (suc (suc (suc (suc (suc zero)))))) h =
      unfold standard_large standard_head standard_tail write in
      record { size = refl; opens = (_, refl); closes = λ _ _ b _. absurd (b refl) }
  standard_large-Arc (suc (suc (suc (suc (suc (suc (suc k))))))) h =
      standard_long-Arc _ (omega arith)
  standard_large-Arc n h = absurd (omega arith)

  pub intensive_long-Arc : (n : ℕ) → 10 ≤ n → Arc n (intensive_large n)
  unfolding intensive_large
  intensive_long-Arc n h =
      let s2 : List (TemplateSlot F) = warmup_slot ∷ warmup_slot ∷ ramp_slot ∷ ramp_slot ∷ [] in
      let fits : length s2 + 6 ≤ n = omega arith in
      let c = n - length s2 - 4 in
      let end : List (TemplateSlot F) = relief_slot ∷ challenge_slot ∷ cooldown_slot ∷ [] in
      rw (intensive_head_lem n (omega arith), intensive_tail_lem n s2 fits)
        (record {
          size = omega (arith, length-arc s2 (c / 2) (c - c / 2) end);
          opens = (_, refl);
          closes = λ _ _ _ _.
              last?-append_cons (body s2 (c / 2) (c - c / 2)) relief_slot
                (challenge_slot ∷ cooldown_slot ∷ []);
        })
