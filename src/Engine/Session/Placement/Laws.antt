-- ===== src/Engine/Session/Placement/Laws.antt =====
-- DeterminePlacementLevel and the cap in SubmitPlacement: which level a placement test gives.
use ruskiy.Shared.{
  ltb, ◌≤◌, ◌==◌, if◌then◌else◌, true, false, List, [], ◌∷◌, ◌++◌, some, String, ◌≡◌, refl, arith,
  All, if_elim, Bool-cases, inl, inr, ◌⊎◌, min, ap,
}
use ruskiy.Shared.Int.{ℤ}
use ruskiy.Platform.{Float}
use ruskiy.Model.{SkillTestResult}
use ruskiy.Engine.Session.Placement.{
  level_total, levels, passes, highest_passed, determine_placement_level, level_ordinal,
  stage_level, cap_level,
}

-- The last level of the list that the test has a question of.
abbrev pub last_tested : List SkillTestResult → List String → String → String
last_tested results [] best = best
last_tested results (lvl ∷ lvls) best =
    last_tested results lvls (if level_total results lvl == 0 then best else lvl)

module _ (F : Type 0) ⦃fl : Float F⦄ where
  -- The test has no question of the level, or it is passed.
  abbrev pub Cleared : List SkillTestResult → String → Type 0
  Cleared results lvl = ((level_total results lvl == 0) ≡ true) ⊎ (passes F results lvl ≡ true)

  abbrev pub StopsAt : List SkillTestResult → List String → Type 0
  StopsAt results [] = Unit
  StopsAt results (lvl ∷ _) =
      ((level_total results lvl == 0) ≡ false) × (passes F results lvl ≡ false)

  -- The levels fall into a cleared part and a rest that is empty or starts with a failed level, and
  -- `r` is the last tested level of the cleared part, or `best` where that has none.
  abbrev pub Placed : List SkillTestResult → List String → String → String → Type 0
  Placed results lvls best r =
      (below : List String) × (above : List String) × (lvls ≡ below ++ above)
      × All (Cleared results) below
      × StopsAt results above
      × (r ≡ last_tested results below best)

  highest_passed-Placed :
      (results : List SkillTestResult) (lvls : List String) (best : String)
      → Placed results lvls best (highest_passed F results lvls best)
  unfolding highest_passed
  highest_passed-Placed results [] best = ([], [], refl, tt, tt, refl)
  highest_passed-Placed results (lvl ∷ lvls) best =
      elim (Bool-cases (level_total results lvl == 0)) [
        | inl untested ↦
            let (below, above, e, cleared, stop, r) = highest_passed-Placed results lvls best in
            (lvl ∷ below, above, ap (λ l. lvl ∷ l) e, (inl untested, cleared), stop, rw untested r)
        | inr tested ↦ elim (Bool-cases (passes F results lvl)) [
          | inl pass ↦
              let (below, above, e, cleared, stop, r) = highest_passed-Placed results lvls lvl in
              (
                lvl ∷ below,
                above,
                ap (λ l. lvl ∷ l) e,
                (inr pass, cleared),
                stop,
                rw (tested, pass) r,
              )
          | inr fail ↦ ([], lvl ∷ lvls, refl, tt, (tested, fail), rw (tested, fail) refl)
        ]
      ]

  -- For every list of answers, DeterminePlacementLevel returns the last level, from A1 upwards, that the
  -- test has a question of before the first level with less than 70% correct answers, and A1 where there
  -- is none: all levels up to it are untested or passed, and so are the ones above it until the first
  -- failed one.
  pub determine_placement_level-Placed :
      (results : List SkillTestResult)
      → Placed results levels "A1" (determine_placement_level F results)
  unfolding determine_placement_level
  determine_placement_level-Placed results = highest_passed-Placed results levels "A1"

-- For every determined level and every stage of the test, the level that SubmitPlacement stores has
-- the smaller of the two ordinals; a level that levelOrdinal does not know, above B2, is stored as it is, whatever
-- the stage.
cap_level_lem :
    (determined stage : String) (n : ℤ)
    → stage_level n ≡ some stage
    → (level_ordinal (cap_level determined n)
        ≡ min (level_ordinal determined) (level_ordinal stage))
      × ((1 ≤ level_ordinal determined) ⊎ (cap_level determined n ≡ determined))
unfolding cap_level
cap_level_lem determined stage n h =
    let capped = ltb (level_ordinal stage) (level_ordinal determined) in
    rw (h, cap_level)
      (if_elim
        (λ r.
          (level_ordinal r ≡ min (level_ordinal determined) (level_ordinal stage))
          × ((1 ≤ level_ordinal determined) ⊎ (r ≡ determined)))
        capped stage determined (λ lower. (ground arith, inl (ground arith)))
        (λ higher. (ground arith, inr refl)))
