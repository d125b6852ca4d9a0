-- ===== src/Engine/Selector/Pool.antt =====
-- services/api/internal/engine/content_selector.go: segmentMatch, filterContent, fallbackContent,
-- categorizeSkills, iPlusOneLevels and estimateItemCount. The set of recently seen content is a list of
-- IDs.
pub mod Laws
use ruskiy.Shared.{
  ℕ, zero, suc, ◌+◌, ◌-◌, ◌/◌, ltb, not, ◌&&◌, ◌||◌, if◌then◌else◌, Bool, true, false, List, [],
  ◌∷◌, length, is_nil, keep, any, has_id, Option, none, some, String, str_eq,
}
use ruskiy.Shared.Int.{ℤ, ltb_ℤ}
use ruskiy.Platform.{Float}
use ruskiy.Model.{ContentAtom, LearnerProfile, LearnerSkillState, is_new}
use ruskiy.Engine.Data.{effective_time}

unfoldable pub segment_match : List String → String → Bool
segment_match tags segment = is_nil tags || any (λ t. str_eq t segment || str_eq t "general") tags

module _ {F : Type 0} where
  unfoldable pub filter_content :
      List (ContentAtom F) → LearnerProfile → List ℕ → List (ContentAtom F)
  filter_content content learner recent =
      keep (λ c. not (has_id c.id recent) && segment_match c.segment_tags learner.segment) content

  -- The test of the first loop of fallbackContent.
  abbrev pub is_adjacent : LearnerProfile → ContentAtom F → Bool
  is_adjacent learner c =
      let has_general = any (λ s. str_eq s "general") c.segment_tags in
      let has_target = any (λ s. str_eq s learner.segment) c.segment_tags in
      is_nil c.segment_tags || has_general || has_target

  unfoldable pub fallback_content :
      List (ContentAtom F) → LearnerProfile → List ℕ → List (ContentAtom F)
  fallback_content content learner recent =
      let result = keep (λ c. not (has_id c.id recent) && is_adjacent learner c) content in
      if ltb (length result) 5 then keep (λ c. not (has_id c.id recent)) content else result

  -- The pool of GenerateContentSet.
  unfoldable pub content_pool :
      List (ContentAtom F) → LearnerProfile → List ℕ → List (ContentAtom F)
  unfolding filter_content fallback_content
  content_pool content learner recent =
      let filtered = filter_content content learner recent in
      if ltb (length filtered) 5 then fallback_content content learner recent else filtered

  -- Due, weak and new skills; `now` is the reading of the clock.
  unfoldable pub categorize_skills :
      ⦃fl : Float F⦄
      → ℤ
      → List (LearnerSkillState F)
      → List (LearnerSkillState F) × List (LearnerSkillState F) × List (LearnerSkillState F)
  categorize_skills now [] = ([], [], [])
  categorize_skills ⦃fl⦄ now (s ∷ skills) =
      let (due, weak, new_) = categorize_skills now skills in
      let is_due : Bool = elim s.next_review_due [ none ↦ false | some t ↦ ltb_ℤ t now ] in
      if is_due
      then (s ∷ due, weak, new_)
      else if is_new s.status || ltb s.total_attempts 3
      then (due, weak, s ∷ new_)
      else if fl.lt s.confidence (fl.lit 5 1)
      then (due, s ∷ weak, new_)
      else (due, weak, new_)

  abbrev pub atom_time : ContentAtom F → ℕ
  atom_time c = effective_time c.estimated_time

  abbrev pub sum_atom_times : List (ContentAtom F) → ℕ
  sum_atom_times [] = 0
  sum_atom_times (c ∷ cs) = atom_time c + sum_atom_times cs

  -- For a budget that is not negative.
  unfoldable pub estimate_item_count : ℕ → List (ContentAtom F) → ℕ
  estimate_item_count budget_seconds [] = 5
  estimate_item_count budget_seconds (c ∷ content) =
      let total = sum_atom_times (c ∷ content) in
      let avg = total / length (c ∷ content) in
      let avg_time = if ltb 0 avg then avg else 30 in
      let count = budget_seconds / avg_time in
      if ltb count 5 then 5 else if ltb 20 count then 20 else count

abbrev pub level_order : List String
level_order = "A1" ∷ "A2" ∷ "B1" ∷ "B2" ∷ "C1" ∷ "C2" ∷ []

-- Comfort and stretch levels for the first entry of `levels` that is `current`, with `below` the entry before.
unfoldable pub levels_from :
    Option String → List String → String → Option (List String × List String)
levels_from below [] current = none
levels_from below (l ∷ levels) current =
    let rest = levels_from (some l) levels current in
    let comfort : List String = elim below [ none ↦ l ∷ [] | some b ↦ b ∷ l ∷ [] ] in
    let stretch : List String = elim levels [ [] ↦ [] | ◌∷◌ above _ ↦ above ∷ [] ] in
    if str_eq l current then some (comfort, stretch) else rest

-- An unknown level counts as the first one.
unfoldable pub i_plus_one_levels : String → List String × List String
unfolding levels_from
i_plus_one_levels current = elim (levels_from none level_order current) [
  | none ↦ ("A1" ∷ [], "A2" ∷ [])
  | some levels ↦ levels
]
