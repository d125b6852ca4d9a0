-- ===== src/Engine/Session/Select.antt =====
-- services/api/internal/engine/session.go: DefaultSessionConfig and SelectSkills. `none` for the set
-- of unlocked skills is the nil map, which turns the check of prerequisites off.
pub mod Laws
use ruskiy.Shared.{
  ℕ, zero, suc, ◌+◌, ◌==◌, ltb, leb, not, ◌&&◌, ◌||◌, if◌then◌else◌, Bool, true, false, List, [],
  ◌∷◌, ◌++◌, length, take, has, Option, none, some, String,
}
use ruskiy.Shared.Int.{ℤ, pos, negsuc, pos_part, ◌-ℤ◌, ltb_ℤ, leb_ℤ}
use ruskiy.Platform.{Float, SortSlice}
use ruskiy.Model.{LearnerSkillState, is_new, is_fossilized}

pub record SessionConfig (F : Type 0) : Type 0 where
  pub time_budget_minutes : ℤ
  pub max_items : ℕ
  pub review_ratio : F
  pub difficulty_target : F

pub record SkillSelection (F : Type 0) : Type 0 where
  pub skill : LearnerSkillState F
  pub priority : F
  pub is_review : Bool

-- if maxItems < 5 { maxItems = 5 }; if maxItems > 20 { maxItems = 20 }
unfoldable pub clamp_items : ℤ → ℕ
clamp_items n = if ltb_ℤ n (pos 5) then 5 else if ltb_ℤ (pos 20) n then 20 else pos_part n

abbrev pub Unlocked : Type 0
Unlocked = Option (String → Bool)

-- unlockedSkillIDs != nil && !unlockedSkillIDs[id]
abbrev pub is_locked : Unlocked → String → Bool
is_locked none id = false
is_locked (some unlocked) id = not (unlocked id)

module _ {F : Type 0} ⦃fl : Float F⦄ where
  unfoldable pub default_session_config : ℤ → SessionConfig F
  unfolding clamp_items
  default_session_config time_budget =
      let budget : ℤ = if leb_ℤ time_budget (pos 0) then pos 15 else time_budget in
      record {
        time_budget_minutes = budget;
        max_items = clamp_items (fl.to_int (fl.ceil (fl.div (fl.of_int budget) (fl.lit 15 1))));
        review_ratio = fl.lit 6 1;
        difficulty_target = fl.lit 5 1;
      }

  unfoldable pub review_count : SessionConfig F → ℤ
  review_count cfg = fl.to_int (fl.ceil (fl.mul (fl.of_int (pos cfg.max_items)) cfg.review_ratio))

  abbrev pub selection : LearnerSkillState F → F → Bool → SkillSelection F
  selection sk p r = record { skill = sk; priority = p; is_review = r }

  abbrev pub due_priority : LearnerSkillState F → F
  due_priority sk =
      let base = fl.sub (fl.lit 10 0) (fl.mul sk.confidence (fl.lit 5 0)) in
      if is_fossilized sk.status then fl.add base (fl.lit 3 0) else base

  -- The body of the loop over the due skills.
  unfoldable pub add_due :
      Unlocked → LearnerSkillState F → List (SkillSelection F) → List (SkillSelection F)
  add_due unlocked sk selections =
      if is_locked unlocked sk.skill_id
      then if sk.total_attempts == 0
        then selections
        else selections ++ selection sk (fl.sub (due_priority sk) (fl.lit 4 0)) true ∷ []
      else selections ++ selection sk (due_priority sk) true ∷ []

  -- for i := 0; i < len(dueSkills) && len(selections) < reviewCount; i++
  unfoldable pub select_due :
      ℤ → Unlocked → List (LearnerSkillState F) → List (SkillSelection F) → List (SkillSelection F)
  select_due count unlocked [] selections = selections
  select_due count unlocked (sk ∷ due) selections =
      if ltb_ℤ (pos (length selections)) count
      then select_due count unlocked due (add_due unlocked sk selections)
      else selections

  abbrev pub selected_ids : List (SkillSelection F) → List String
  selected_ids [] = []
  selected_ids (s ∷ ss) = s.skill.skill_id ∷ selected_ids ss

  abbrev pub weak_selection : LearnerSkillState F → SkillSelection F
  weak_selection sk = selection sk (fl.sub (fl.lit 7 0) (fl.mul sk.confidence (fl.lit 3 0))) true

  -- The loop over the weak skills; `selected` is the set selectedIDs.
  unfoldable pub select_weak :
      ℤ
      → Unlocked
      → List (LearnerSkillState F)
      → List (SkillSelection F)
      → List String
      → List (SkillSelection F) × List String
  select_weak count unlocked [] selections selected = (selections, selected)
  select_weak count unlocked (sk ∷ weak) selections selected =
      let skip = has sk.skill_id selected || is_locked unlocked sk.skill_id in
      let rest =
        select_weak count unlocked weak
          (if skip then selections else selections ++ weak_selection sk ∷ [])
          (if skip then selected else sk.skill_id ∷ selected) in
      if ltb_ℤ (pos (length selections)) count then rest else (selections, selected)

  abbrev pub is_fresh : LearnerSkillState F → Bool
  is_fresh sk = is_new sk.status || ltb sk.total_attempts 3

  -- The loop over all skills for new ones; `new_count` counts down.
  unfoldable pub select_new :
      ℤ
      → Unlocked
      → List (LearnerSkillState F)
      → List (SkillSelection F)
      → List String
      → List (SkillSelection F)
  select_new new_count unlocked [] selections selected = selections
  select_new new_count unlocked (sk ∷ skills) selections selected =
      let skip = has sk.skill_id selected || is_locked unlocked sk.skill_id || not (is_fresh sk) in
      let rest =
        select_new (if skip then new_count else new_count -ℤ pos 1) unlocked skills
          (if skip then selections else selections ++ selection sk (fl.lit 5 0) false ∷ [])
          (if skip then selected else sk.skill_id ∷ selected) in
      if ltb_ℤ (pos 0) new_count then rest else selections

  -- The three loops.
  unfoldable pub gather_skills :
      (due weak all_skills : List (LearnerSkillState F))
      → SessionConfig F
      → Unlocked
      → List (SkillSelection F)
  unfolding select_due select_weak select_new
  gather_skills due weak all_skills cfg unlocked =
      let reviews = review_count cfg in
      let s1 = select_due reviews unlocked due [] in
      let (s2, selected) = select_weak reviews unlocked weak s1 (selected_ids s1) in
      select_new (pos cfg.max_items -ℤ reviews) unlocked all_skills s2 selected

  module _ (sorting : SortSlice) where
    unfoldable pub select_skills :
        (due weak all_skills : List (LearnerSkillState F))
        → SessionConfig F
        → Unlocked
        → List (SkillSelection F)
    unfolding gather_skills
    select_skills due weak all_skills cfg unlocked =
        let sorted =
          sorting.sort (SkillSelection F) (λ a b. fl.lt b.priority a.priority)
            (gather_skills due weak all_skills cfg unlocked) in
        if ltb cfg.max_items (length sorted) then take cfg.max_items sorted else sorted
