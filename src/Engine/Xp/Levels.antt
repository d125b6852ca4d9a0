-- ===== src/Engine/Xp/Levels.antt =====
-- xp.go: which level LevelFromXP gives.
use native.Mathlib.Decide.{ℕ_discrete, dec_le}
use ruskiy.Shared.{ℕ, zero, suc, ◌+◌, ◌≤◌, ◌<◌, true, false, ◌≡◌, inl, inr, arith, Bool-cases}
use ruskiy.Shared.Int.{ℤ, pos, pos_part, leb_ℤ, ◌≤ℤ◌}
use ruskiy.Platform.{Float}
use ruskiy.Engine.Xp.{xp_for_level, climb, level_fuel, level_from_xp}

pos_part_mono : (a b : ℤ) → a ≤ℤ b → pos_part a ≤ pos_part b
pos_part_mono a b h = ground arith

module _ (F : Type 0) ⦃fl : Float F⦄ where
  -- The level that the points reach, counted from `low`: all thresholds up to it are met, the next is
  -- not.
  pub record Reached (low level : ℕ) (total_xp : ℤ) : Type 0 where
    pub from : low ≤ level
    pub met : (l : ℕ) → low < l → l ≤ level → leb_ℤ (xp_for_level F l) total_xp ≡ true
    pub next : leb_ℤ (xp_for_level F (level + 1)) total_xp ≡ false

  -- What math.Log and math.Round give for the thresholds up to `bound`: round(100 n ln(n + 1)) is at
  -- least n.
  abbrev pub Growing : ℕ → Type 0
  Growing bound = (n : ℕ) → n ≤ bound → pos n ≤ℤ xp_for_level F n

  climb-Reached :
      (fuel level : ℕ) (total_xp : ℤ)
      → Growing (level + fuel + 1)
      → pos_part total_xp < level + fuel
      → Reached level (climb F fuel level total_xp) total_xp
  unfolding climb
  climb-Reached zero level t grow h = record {
    from = omega arith;
    met = λ l p q. absurd (omega arith);
    next = ground (arith, grow (level + 1) (omega arith));
  }
  climb-Reached (suc fuel) level t grow h =
      elim (Bool-cases (leb_ℤ (xp_for_level F (level + 1)) t)) [
        | inr e ↦
            rw (e, climb)
              (record { from = omega arith; met = λ l p q. absurd (omega arith); next = e })
        | inl e ↦
            let r = climb-Reached fuel (level + 1) t (λ n b. grow n (omega arith)) (omega arith) in
            rw (e, climb)
              (record {
                from = omega (arith, r.from);
                met = λ l p q. elim (ℕ_discrete l (level + 1)) [
                  | yes same ↦ rw same e
                  | no other ↦ r.met l (omega arith) q
                ];
                next = r.next;
              })
      ]

  -- LevelFromXP returns, and with the level that the points reach: it is at least 1, the points meet
  -- the threshold of every level from 2 to it, and they miss the threshold of the next level. The
  -- hypothesis is about math.Log and math.Round, for levels up to three more than the points.
  pub level_from_xp-Reached :
      (total_xp : ℤ)
      → Growing (pos_part total_xp + 3)
      → Reached 1 (level_from_xp F total_xp) total_xp
  unfolding level_from_xp
  level_from_xp-Reached total_xp grow =
      climb-Reached (level_fuel total_xp) 1 total_xp (λ n b. grow n (omega arith)) (omega arith)

  -- More points never give a lower level.
  level_from_xp_mono :
      (few many : ℤ)
      → few ≤ℤ many
      → Growing (pos_part many + 3)
      → level_from_xp F few ≤ level_from_xp F many
  level_from_xp_mono few many le grow =
      let low =
        level_from_xp-Reached few (λ n b. grow n (omega (arith, pos_part_mono few many le))) in
      let high = level_from_xp-Reached many grow in
      elim (dec_le (level_from_xp F few) (level_from_xp F many)) [
        | yes h ↦ h
        | no h ↦
            let met = low.met (level_from_xp F many + 1) (omega (arith, high.from)) (omega arith) in
            let missed = high.next in absurd (ground arith)
      ]
