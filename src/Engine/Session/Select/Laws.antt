-- ===== src/Engine/Session/Select/Laws.antt =====
-- SelectSkills of session.go: how many skills it selects, and which ones.
use mathlib.Core.Bool.{Bool-set}
use ruskiy.Shared.{
  ◌≤◌, ◌==◌, ltb, leb, not, ◌&&◌, ◌||◌, if◌then◌else◌, Bool, true, false, List, [], ◌∷◌, ◌++◌,
  length, take, has, String, ◌≡◌, refl, arith, All, All-append, All-take, All-perm_back, if_elim,
  Bool-cases, ◌⊎◌, inl, inr, length-take,
}
use ruskiy.Shared.Int.{ℤ, pos, ◌-ℤ◌, ltb_ℤ, leb_ℤ}
use ruskiy.Platform.{Float, SortSlice}
use ruskiy.Model.{LearnerSkillState}
use ruskiy.Engine.Session.Select.{
  SessionConfig, SkillSelection, clamp_items, default_session_config, Unlocked, is_locked,
  due_priority, add_due, select_due, selected_ids, weak_selection, select_weak, is_fresh,
  select_new, selection, gather_skills, select_skills, review_count,
}

clamp_items_bounds : (n : ℤ) → (5 ≤ clamp_items n) × (clamp_items n ≤ 20)
unfolding clamp_items
clamp_items_bounds n = ground arith

module _ {F : Type 0} ⦃fl : Float F⦄ where
  -- A selected skill whose prerequisites are not met was practised before and is a review; one that is
  -- not selected as a review is new or has fewer than three attempts, and its prerequisites are met.
  abbrev pub is_admissible : Unlocked → SkillSelection F → Bool
  is_admissible unlocked s =
      (not (is_locked unlocked s.skill.skill_id) || (s.is_review && leb 1 s.skill.total_attempts))
      && (s.is_review || is_fresh s.skill)

  abbrev pub Admissible : Unlocked → SkillSelection F → Type 0
  Admissible unlocked s = is_admissible unlocked s ≡ true

  Admissible-prop : (unlocked : Unlocked) (s : SkillSelection F) → IsProp (Admissible unlocked s)
  Admissible-prop unlocked s = Bool-set _ _

  snoc :
      (unlocked : Unlocked) (x : SkillSelection F) (xs : List (SkillSelection F))
      → All (Admissible unlocked) xs
      → Admissible unlocked x
      → All (Admissible unlocked) (xs ++ x ∷ [])
  snoc unlocked x xs h a = All-append (Admissible unlocked) xs (x ∷ []) h (a, tt)

  add_due-Admissible :
      (unlocked : Unlocked) (sk : LearnerSkillState F) (selections : List (SkillSelection F))
      → All (Admissible unlocked) selections
      → All (Admissible unlocked) (add_due unlocked sk selections)
  unfolding add_due
  add_due-Admissible unlocked sk selections h =
      let P = All (Admissible unlocked) in
      let id = sk.skill_id in
      let normal = selections ++ selection sk (due_priority sk) true ∷ [] in
      let late = selections ++ selection sk (fl.sub (due_priority sk) (fl.lit 4 0)) true ∷ [] in
      let practised : List (SkillSelection F) =
        if sk.total_attempts == 0 then selections else late in
      if_elim P (is_locked unlocked id) practised normal
        (λ _.
          if_elim P (sk.total_attempts == 0) selections late (λ _. h)
            λ old.
              snoc unlocked (selection sk (fl.sub (due_priority sk) (fl.lit 4 0)) true) selections h
                (ground arith))
        λ open_. snoc unlocked (selection sk (due_priority sk) true) selections h (ground arith)

  select_due-Admissible :
      (count : ℤ) (unlocked : Unlocked) (due : List (LearnerSkillState F))
      (selections : List (SkillSelection F))
      → All (Admissible unlocked) selections
      → All (Admissible unlocked) (select_due count unlocked due selections)
  unfolding select_due
  select_due-Admissible count unlocked [] selections h = h
  select_due-Admissible count unlocked (sk ∷ due) selections h =
      if_elim (All (Admissible unlocked)) (ltb_ℤ (pos (length selections)) count)
        (select_due count unlocked due (add_due unlocked sk selections)) selections
        (λ _.
          select_due-Admissible count unlocked due (add_due unlocked sk selections)
            (add_due-Admissible unlocked sk selections h))
        (λ _. h)

  select_weak-Admissible :
      (count : ℤ) (unlocked : Unlocked) (weak : List (LearnerSkillState F))
      (selections : List (SkillSelection F)) (selected : List String)
      → All (Admissible unlocked) selections
      → All (Admissible unlocked) (select_weak count unlocked weak selections selected).0
  unfolding select_weak
  select_weak-Admissible count unlocked [] selections selected h = h
  select_weak-Admissible count unlocked (sk ∷ weak) selections selected h =
      elim (Bool-cases (ltb_ℤ (pos (length selections)) count)) [
        | inr full ↦ rw full h
        | inl room ↦
            elim (Bool-cases (has sk.skill_id selected || is_locked unlocked sk.skill_id)) [
              | inl skip ↦
                  rw (room, skip) (select_weak-Admissible count unlocked weak selections selected h)
              | inr keep ↦
                  rw (room, keep)
                    (select_weak-Admissible count unlocked weak
                      (selections ++ weak_selection sk ∷ []) (sk.skill_id ∷ selected)
                      (snoc unlocked (weak_selection sk) selections h (ground arith)))
            ]
      ]

  select_new-Admissible :
      (n : ℤ) (unlocked : Unlocked) (skills : List (LearnerSkillState F))
      (selections : List (SkillSelection F)) (selected : List String)
      → All (Admissible unlocked) selections
      → All (Admissible unlocked) (select_new n unlocked skills selections selected)
  unfolding select_new
  select_new-Admissible n unlocked [] selections selected h = h
  select_new-Admissible n unlocked (sk ∷ skills) selections selected h =
      elim (Bool-cases (ltb_ℤ (pos 0) n)) [
        | inr full ↦ rw full h
        | inl room ↦
            elim (Bool-cases
              (has sk.skill_id selected || is_locked unlocked sk.skill_id || not (is_fresh sk))) [
                | inl skip ↦
                    rw (room, skip) (select_new-Admissible n unlocked skills selections selected h)
                | inr keep ↦
                    rw (room, keep)
                      (select_new-Admissible (n -ℤ pos 1) unlocked skills
                        (selections ++ selection sk (fl.lit 5 0) false ∷ [])
                        (sk.skill_id ∷ selected)
                        (snoc unlocked (selection sk (fl.lit 5 0) false) selections h
                          (ground arith)))
              ]
      ]

  gather_skills-Admissible :
      (due weak all_skills : List (LearnerSkillState F)) (cfg : SessionConfig F)
      (unlocked : Unlocked)
      → All (Admissible unlocked) (gather_skills due weak all_skills cfg unlocked)
  unfolding gather_skills
  gather_skills-Admissible due weak all_skills cfg unlocked =
      let reviews = review_count cfg in
      let s1 = select_due reviews unlocked due [] in
      let ids = selected_ids s1 in
      let weak_result = select_weak reviews unlocked weak s1 ids in
      select_new-Admissible (pos cfg.max_items -ℤ reviews) unlocked all_skills weak_result.0
        weak_result.1
        (select_weak-Admissible reviews unlocked weak s1 ids
          (select_due-Admissible reviews unlocked due [] tt))

  module _ (sorting : SortSlice) where
    -- For every due, weak and complete list of skills and every configuration, SelectSkills returns at
    -- most MaxItems skills. A returned skill whose prerequisites are not met is a review of a skill that
    -- was practised before, and a returned skill that is not a review is new or has fewer than three
    -- attempts.
    pub select_skills-Admissible :
        (due weak all_skills : List (LearnerSkillState F)) (cfg : SessionConfig F)
        (unlocked : Unlocked)
        → (length (select_skills sorting due weak all_skills cfg unlocked) ≤ cfg.max_items)
          × All (Admissible unlocked) (select_skills sorting due weak all_skills cfg unlocked)
    unfolding select_skills
    select_skills-Admissible due weak all_skills cfg unlocked =
        let gathered = gather_skills due weak all_skills cfg unlocked in
        let less : SkillSelection F → SkillSelection F → Bool =
          λ a b. fl.lt b.priority a.priority in
        let sorted = sorting.sort (SkillSelection F) less gathered in
        let all_sorted : All (Admissible unlocked) sorted =
          All-perm_back (Admissible unlocked) (Admissible-prop unlocked)
            (sorting.sort_perm (SkillSelection F) less gathered)
            (gather_skills-Admissible due weak all_skills cfg unlocked) in
        if_elim (λ r. (length r ≤ cfg.max_items) × All (Admissible unlocked) r)
          (ltb cfg.max_items (length sorted)) (take cfg.max_items sorted) sorted
          (λ _. (
            omega (arith, length-take cfg.max_items sorted),
            All-take (Admissible unlocked) cfg.max_items sorted all_sorted,
          ))
          (λ short. (ground arith, all_sorted))

-- For every time budget, zero and negative ones included, DefaultSessionConfig gives a positive
-- budget, which is the given one where that is positive, and a maximal number of items from 5 to 20.
default_session_config-Bounds :
    (F : Type 0) ⦃fl : Float F⦄ (n : ℤ)
    → (leb_ℤ (default_session_config {F = F} n).time_budget_minutes (pos 0) ≡ false)
      × (5 ≤ (default_session_config {F = F} n).max_items)
      × ((default_session_config {F = F} n).max_items ≤ 20)
      × ((leb_ℤ n (pos 0) ≡ true) ⊎ ((default_session_config {F = F} n).time_budget_minutes ≡ n))
unfolding default_session_config
default_session_config-Bounds F ⦃fl⦄ n =
    let budget : ℤ = if leb_ℤ n (pos 0) then pos 15 else n in
    let items = fl.to_int (fl.ceil (fl.div (fl.of_int budget) (fl.lit 15 1))) in
    let bounds = clamp_items_bounds items in
    (
      if_elim (λ b. leb_ℤ b (pos 0) ≡ false) (leb_ℤ n (pos 0)) (pos 15) n (λ _. refl) (λ e. e),
      bounds.0,
      bounds.1,
      elim (Bool-cases (leb_ℤ n (pos 0))) [ inl e ↦ inl e | inr e ↦ inr (rw e refl) ],
    )
