-- ===== src/Engine/Composer/Template/Result.antt =====
-- buildTemplate of session_composer.go: what holds of the template that it returns.
use ruskiy.Shared.{
  false, str_eq, ℕ, zero, suc, ◌≤◌, leb, ◌&&◌, ◌||◌, if◌then◌else◌, List, [], ◌∷◌, ◌++◌, replicate,
  Option, some, ◌≡◌, refl, arith, length-append, length-replicate, if_elim, inl, inr, last?,
  last?-append, ◌⊎◌, String,
}
use ruskiy.Shared.Int.{ℤ, pos, leb_ℤ}
use ruskiy.Platform.{Float}
use ruskiy.Engine.Composer.Template.{
  TemplateSlot, warmup_slot, core_slot, cooldown_slot, write, standard_head, standard_tail,
  standard_large, intensive_head, intensive_tail, intensive_large, standard_small,
  build_short_template, build_standard_template, build_intensive_template, build_template,
}
use ruskiy.Engine.Composer.Template.Shape.{Arc, standard_large-Arc, intensive_long-Arc}

module _ {F : Type 0} ⦃fl : Float F⦄ where
  intensive_large-Arc : (n : ℕ) → 6 ≤ n → Arc {F = F} n (intensive_large n)
  intensive_large-Arc (suc (suc (suc (suc (suc (suc zero)))))) h =
      unfold intensive_large intensive_head intensive_tail write in
      record { size = refl; opens = (_, refl); closes = λ _ _ b _. absurd (b refl) }
  intensive_large-Arc (suc (suc (suc (suc (suc (suc (suc zero))))))) h =
      unfold intensive_large intensive_head intensive_tail write in
      record { size = refl; opens = (_, refl); closes = λ _ _ _ b. absurd (b refl) }
  intensive_large-Arc (suc (suc (suc (suc (suc (suc (suc (suc zero)))))))) h =
      unfold intensive_large intensive_head intensive_tail write in
      record { size = refl; opens = (_, refl); closes = λ _ _ _ _. refl }
  intensive_large-Arc (suc (suc (suc (suc (suc (suc (suc (suc (suc zero))))))))) h =
      unfold intensive_large intensive_head intensive_tail write in
      record { size = refl; opens = (_, refl); closes = λ _ _ _ _. refl }
  intensive_large-Arc (suc (suc (suc (suc (suc (suc (suc (suc (suc (suc k)))))))))) h =
      intensive_long-Arc _ (omega arith)
  intensive_large-Arc n h = absurd (omega arith)

  abbrev Returns : ℕ → Option (List (TemplateSlot F)) → Type 0
  Returns n r = (t : List (TemplateSlot F)) × (r ≡ some t) × Arc {F = F} n t

  -- A template with `k` core slots between a warmup and a cooldown.
  small-Arc :
      (k : ℕ)
      → Arc {F = F} (suc (suc k)) (warmup_slot ∷ replicate k core_slot ++ (cooldown_slot ∷ []))
  small-Arc k = record {
    size = omega (
      arith,
      length-append (replicate k (core_slot {F = F})) (cooldown_slot ∷ []),
      length-replicate k (core_slot {F = F}),
    );
    opens = (_, refl);
    closes = λ _ _ _ _. last?-append (warmup_slot ∷ replicate k core_slot) cooldown_slot;
  }

  one-Arc : Arc {F = F} 1 (warmup_slot {F = F} ∷ [])
  one-Arc = record { size = refl; opens = (_, refl); closes = λ b _ _ _. absurd (b refl) }

  short-Arc : (n : ℕ) → 1 ≤ n → Returns n (build_short_template n)
  unfolding build_short_template
  short-Arc zero h = absurd (omega arith)
  short-Arc (suc zero) h = (_, refl, one-Arc)
  short-Arc (suc (suc zero)) h = (_, refl, small-Arc 0)
  short-Arc (suc (suc (suc k))) h = (_, refl, small-Arc (suc k))

  standard_small-Arc : (n : ℕ) → 1 ≤ n → Returns n (standard_small n)
  unfolding standard_small
  standard_small-Arc zero h = absurd (omega arith)
  standard_small-Arc (suc zero) h = (_, refl, one-Arc)
  standard_small-Arc (suc (suc k)) h = (_, refl, small-Arc k)

  standard-Arc : (n : ℕ) → 1 ≤ n → Returns n (build_standard_template n)
  unfolding build_standard_template
  standard-Arc n h =
      if_elim (Returns n) (leb n 3) (standard_small n) (some (standard_large n))
        (λ _. standard_small-Arc n h) λ e. (_, refl, standard_large-Arc n (ground arith))

  intensive-Arc : (n : ℕ) → 1 ≤ n → Returns n (build_intensive_template n)
  unfolding build_intensive_template
  intensive-Arc n h =
      if_elim (Returns n) (leb n 5) (build_standard_template n) (some (intensive_large n))
        (λ _. standard-Arc n h) λ e. (_, refl, intensive_large-Arc n (ground arith))

  -- For any positive number of items, segment and budget, buildTemplate returns a template with
  -- exactly one slot for each item, whose first slot is a warmup and whose last is a cooldown unless
  -- the number is 1, 4, 6 or 7.
  pub build_template-Arc :
      (n : ℕ) (segment : String) (budget_minutes : ℤ)
      → 1 ≤ n
      → (t : List (TemplateSlot F)) × (build_template n segment budget_minutes ≡ some t) × Arc n t
  unfolding build_template
  build_template-Arc n segment budget h =
      let short = str_eq segment "migrant" || leb_ℤ budget (pos 5) in
      let long = (str_eq segment "uni_prep" && leb_ℤ (pos 25) budget) || leb_ℤ (pos 30) budget in
      let rest = if long then build_intensive_template n else build_standard_template n in
      if_elim (Returns n) short (build_short_template n) rest (λ _. short-Arc n h)
        λ _.
          if_elim (Returns n) long (build_intensive_template n) (build_standard_template n)
            (λ _. intensive-Arc n h) (λ _. standard-Arc n h)

  abbrev EndsInCore : Option (List (TemplateSlot F)) → Type 0
  EndsInCore r = (t : List (TemplateSlot F)) × (r ≡ some t) × (last? t ≡ some core_slot)

  standard_without_cooldown : (n : ℕ) → (n ≡ 4) ⊎ (n ≡ 6) → EndsInCore (build_standard_template n)
  unfolding build_standard_template standard_large standard_head standard_tail write
  standard_without_cooldown n (inl e) = rw e (_, refl, refl)
  standard_without_cooldown n (inr e) = rw e (_, refl, refl)

  intensive_without_cooldown : (n : ℕ) → (n ≡ 4) ⊎ (n ≡ 6) → EndsInCore (build_intensive_template n)
  unfolding build_intensive_template intensive_large intensive_head intensive_tail write
  intensive_without_cooldown n (inl e) = rw e (standard_without_cooldown 4 (inl refl))
  intensive_without_cooldown n (inr e) = rw e (_, refl, refl)

  -- For 4 or 6 items, a segment other than "migrant" and a budget of more than 5 minutes,
  -- buildTemplate returns a template whose last slot is a core slot, so it has no cooldown.
  template_without_cooldown :
      (n : ℕ) (segment : String) (budget_minutes : ℤ)
      → (n ≡ 4) ⊎ (n ≡ 6)
      → str_eq segment "migrant" ≡ false
      → leb_ℤ budget_minutes (pos 5) ≡ false
      → (t : List (TemplateSlot F)) × (build_template n segment budget_minutes ≡ some t)
        × (last? t ≡ some core_slot)
  unfolding build_template
  template_without_cooldown n segment budget e h h' =
      let long = (str_eq segment "uni_prep" && leb_ℤ (pos 25) budget) || leb_ℤ (pos 30) budget in
      rw (h, h')
        (if_elim EndsInCore long (build_intensive_template n) (build_standard_template n)
          (λ _. intensive_without_cooldown n e) (λ _. standard_without_cooldown n e))
