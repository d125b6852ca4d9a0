-- ===== src/Engine/Selector/Generate.antt =====
-- services/api/internal/engine/content_selector.go: GenerateContentSet, from the pool of content to the
-- session roles. The warnings it logs are left out.
pub mod Finish
pub mod Laws
use ruskiy.Shared.{ℕ, zero, suc, ◌*◌, if◌then◌else◌, Bool, List, [], ◌∷◌, length, Option, String}
use ruskiy.Shared.Int.{ℤ, pos, negsuc}
use ruskiy.Platform.{Float}
use ruskiy.Model.{ContentAtom, LearnerProfile, LearnerSkillState, SessionItemRole}
use ruskiy.Engine.Data.{ContentSelection}
use ruskiy.Engine.Session.Roles.{assign_roles}
use ruskiy.Engine.Selector.Pool.{
  content_pool, categorize_skills, estimate_item_count, i_plus_one_levels,
}
use ruskiy.Engine.Selector.Phases.{TeacherAssignment, constraints, select_with_constraints}
use ruskiy.Engine.Selector.Variety.{enforce_variety}

pub record ContentSelectorInput (F : Type 0) : Type 0 where
  pub learner : LearnerProfile
  pub skills : List (LearnerSkillState F)
  pub content : List (ContentAtom F)
  pub recently_seen : List ℕ
  pub time_budget : ℤ  -- minutes
  pub assignment : Option TeacherAssignment

-- Minutes, with the default for a budget that is not positive.
abbrev pub minutes : ℤ → ℕ
minutes (pos (suc n)) = suc n
minutes _ = 15

module _ {F : Type 0} where
  abbrev pub with_role : ContentSelection F → SessionItemRole → ContentSelection F
  with_role s r = record {
    content = s.content;
    skill_id = s.skill_id;
    role = r;
    is_review = s.is_review;
  }

  -- if i < len(roles) { selections[i].Role = roles[i] }
  unfoldable pub set_roles :
      List (ContentSelection F) → List SessionItemRole → List (ContentSelection F)
  set_roles [] roles = []
  set_roles (s ∷ ss) [] = s ∷ ss
  set_roles (s ∷ ss) (r ∷ roles) = with_role s r ∷ set_roles ss roles

  abbrev pub pool_of : ContentSelectorInput F → List (ContentAtom F)
  pool_of input = content_pool input.content input.learner input.recently_seen

  abbrev pub max_items_of : ContentSelectorInput F → ℕ
  max_items_of input = estimate_item_count (minutes input.time_budget * 60) (pool_of input)

  module _ ⦃fl : Float F⦄ where
    -- The steps from categorizeSkills on, for a pool that is not empty.
    unfoldable pub generate_from_pool :
        ℤ → ContentSelectorInput F → List (ContentAtom F) → List (ContentSelection F)
    unfolding set_roles
    generate_from_pool now input pool =
        let (due, weak, new_) = categorize_skills now input.skills in
        let (comfort, stretch) = i_plus_one_levels input.learner.current_level in
        let budget_seconds = minutes input.time_budget * 60 in
        let max_items = estimate_item_count budget_seconds pool in
        let cs = constraints pool comfort stretch max_items budget_seconds in
        let selections =
          enforce_variety (select_with_constraints cs due weak new_ input.assignment).selections in
        set_roles selections (assign_roles (length selections))

    -- `now` is the reading of the clock; an empty pool gives nil.
    unfoldable pub generate_content_set : ℤ → ContentSelectorInput F → List (ContentSelection F)
    unfolding generate_from_pool
    generate_content_set now input = elim (pool_of input) [
      | [] ↦ []
      | ◌∷◌ c pool ↦ generate_from_pool now input (c ∷ pool)
    ]
