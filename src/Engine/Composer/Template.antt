-- ===== src/Engine/Composer/Template.antt =====
-- services/api/internal/engine/session_composer.go: buildTemplate and the three templates. A
-- template is written front to back into `slots`, and slots[:idx] is returned: here it is the list
-- written so far, whose length is `idx`. `none` is the panic of a write to slots[0] for n = 0.

pub mod Shape
pub mod Result
use ruskiy.Shared.{
  ℕ, zero, suc, ◌+◌, ◌-◌, ◌/◌, ◌==◌, ltb, leb, ◌&&◌, ◌||◌, if◌then◌else◌, List, [], ◌∷◌, ◌++◌,
  length, replicate, Option, none, some, String, str_eq, Bool,
}
use ruskiy.Shared.Int.{ℤ, pos, leb_ℤ}
use ruskiy.Platform.{Float}
use ruskiy.Model.{SessionItemRole, warmup, ramp, core, relief, challenge, cooldown}

pub record TemplateSlot (F : Type 0) : Type 0 where
  pub role : SessionItemRole
  pub max_difficulty : F
  pub min_difficulty : F

module _ {F : Type 0} ⦃fl : Float F⦄ where
  abbrev pub slot : SessionItemRole → F → F → TemplateSlot F
  slot r hi lo = record { role = r; max_difficulty = hi; min_difficulty = lo }

  abbrev pub warmup_slot : TemplateSlot F
  warmup_slot = slot warmup (fl.lit 3 1) (fl.lit 0 0)

  abbrev pub ramp_slot : TemplateSlot F
  ramp_slot = slot ramp (fl.lit 6 1) (fl.lit 3 1)

  abbrev pub core_slot : TemplateSlot F
  core_slot = slot core (fl.lit 8 1) (fl.lit 3 1)

  abbrev pub relief_slot : TemplateSlot F
  relief_slot = slot relief (fl.lit 4 1) (fl.lit 0 0)

  abbrev pub challenge_slot : TemplateSlot F
  challenge_slot = slot challenge (fl.lit 1 0) (fl.lit 7 1)

  abbrev pub cooldown_slot : TemplateSlot F
  cooldown_slot = slot cooldown (fl.lit 3 1) (fl.lit 0 0)

-- for i := 0; i < count && idx < n; i++ { slots[idx] = s; idx++ }
unfoldable pub write {ℓ} : {A : Type ℓ} → ℕ → ℕ → A → List A → List A
write zero n s slots = slots
write (suc count) n s slots =
    if ltb (length slots) n then write count n s (slots ++ s ∷ []) else slots

-- if test { slots[idx] = s; idx++ }
abbrev pub write_if {ℓ} : {A : Type ℓ} → Bool → A → List A → List A
write_if test s slots = if test then slots ++ s ∷ [] else slots

module _ {F : Type 0} ⦃fl : Float F⦄ where
  unfoldable pub build_short_template : ℕ → Option (List (TemplateSlot F))
  build_short_template zero = none
  build_short_template (suc zero) = some (warmup_slot ∷ [])
  build_short_template (suc (suc zero)) = some (warmup_slot ∷ cooldown_slot ∷ [])
  build_short_template (suc (suc (suc k))) =
      some (warmup_slot ∷ replicate (suc k) core_slot ++ (cooldown_slot ∷ []))

  -- The branch n <= 3 of buildStandardTemplate.
  unfoldable pub standard_small : ℕ → Option (List (TemplateSlot F))
  standard_small zero = none
  standard_small (suc zero) = some (warmup_slot ∷ [])
  standard_small (suc (suc k)) = some (warmup_slot ∷ replicate k core_slot ++ (cooldown_slot ∷ []))

  -- buildStandardTemplate for n > 3: the warmup and ramp items.
  unfoldable pub standard_head : ℕ → List (TemplateSlot F)
  standard_head n =
      let warmup_count : ℕ = if leb 15 n then 3 else 2 in
      let ramp_count : ℕ = if leb 12 n then 2 else 1 in
      write ramp_count n ramp_slot (write warmup_count n warmup_slot [])

  -- The items behind those, from `remaining := n - idx`.
  unfoldable pub standard_tail : ℕ → List (TemplateSlot F) → List (TemplateSlot F)
  standard_tail n s2 =
      let remaining = n - length s2 in
      let core_total : ℕ =
        if ltb (remaining - 2) 2
        then if ltb (remaining - 1) 1 then 1 else remaining - 1
        else remaining - 2 in
      let core1 : ℕ = if ltb (core_total / 2) 1 then 1 else core_total / 2 in
      let core2 = core_total - core1 in
      let s3 = write core1 n core_slot s2 in
      let s4 = write_if (ltb (length s3) (n - 1) && ltb 2 remaining) relief_slot s3 in
      let s5 = write core2 n core_slot s4 in write_if (ltb (length s5) n) cooldown_slot s5

  unfoldable pub standard_large : ℕ → List (TemplateSlot F)
  standard_large n = standard_tail n (standard_head n)

  unfoldable pub build_standard_template : ℕ → Option (List (TemplateSlot F))
  build_standard_template n = if leb n 3 then standard_small n else some (standard_large n)

  -- buildIntensiveTemplate for n > 5: the warmup and ramp items.
  unfoldable pub intensive_head : ℕ → List (TemplateSlot F)
  intensive_head n =
      let warmup_count : ℕ = if ltb n 2 then n else 2 in
      write 2 n ramp_slot (write warmup_count n warmup_slot [])

  -- The items behind those, from `remaining := n - idx`.
  unfoldable pub intensive_tail : ℕ → List (TemplateSlot F) → List (TemplateSlot F)
  intensive_tail n s2 =
      let remaining = n - length s2 in
      let special_count : ℕ = if ltb remaining 6 then 2 else 4 in
      let core_total : ℕ =
        if ltb (remaining - special_count) 2 then 2 else remaining - special_count in
      let core1 = core_total / 2 in
      let core2 = core_total - core1 in
      let s3 = write core1 n core_slot s2 in
      let s4 = write_if (ltb (length s3) (n - 1)) relief_slot s3 in
      let s5 = write core2 n core_slot s4 in
      let s6 = write_if (leb 4 special_count && ltb (length s5) (n - 2)) relief_slot s5 in
      let s7 = write_if (leb 3 special_count && ltb (length s6) (n - 1)) challenge_slot s6 in
      let s8 = write_if (ltb (length s7) n) cooldown_slot s7 in if remaining == 0 then s2 else s8

  unfoldable pub intensive_large : ℕ → List (TemplateSlot F)
  intensive_large n = intensive_tail n (intensive_head n)

  unfoldable pub build_intensive_template : ℕ → Option (List (TemplateSlot F))
  build_intensive_template n =
      if leb n 5 then build_standard_template n else some (intensive_large n)

  unfoldable pub build_template : ℕ → String → ℤ → Option (List (TemplateSlot F))
  build_template n segment budget_minutes =
      if str_eq segment "migrant" || leb_ℤ budget_minutes (pos 5)
      then build_short_template n
      else if (str_eq segment "uni_prep" && leb_ℤ (pos 25) budget_minutes)
          || leb_ℤ (pos 30) budget_minutes
      then build_intensive_template n
      else build_standard_template n
