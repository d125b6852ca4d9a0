-- ===== src/Engine/Selector/Stats.antt =====
-- services/api/internal/engine/content_selector.go: CalculateStats, and sortByTimeDesc. The statistics
-- are sums over the selections; the sets of levels and skills are lists.
use ruskiy.Shared.{
  ℕ, ◌+◌, ◌≤◌, if◌then◌else◌, Bool, List, [], ◌∷◌, length, any, has, String, str_eq, ◌≡◌, refl,
  arith,
}
use ruskiy.Shared.Int.{ltb_ℤ}
use ruskiy.Platform.{SortSlice}
use ruskiy.Engine.Data.{ContentSelection}
use ruskiy.Engine.Selector.Pool.{atom_time}
use ruskiy.Engine.Selector.Phases.Steps.{sum_selection_times}

pub record ContentStats : Type 0 where
  pub total_items : ℕ
  pub total_time : ℕ  -- seconds
  pub review_count : ℕ
  pub comfort_count : ℕ
  pub stretch_count : ℕ
  pub domain_count : ℕ
  pub general_count : ℕ
  pub assignment_hits : ℕ

abbrev bump : Bool → ℕ → ℕ
bump b n = if b then n + 1 else n

module _ {F : Type 0} where
  -- One round of the loop.
  unfoldable pub count_selection :
      (comfort stretch : List String) (domain : String) (assignment_skills : List String)
      → ContentStats
      → ContentSelection F
      → ContentStats
  count_selection comfort stretch domain assignment_skills st sel = record {
    total_items = st.total_items;
    total_time = st.total_time + atom_time sel.content;
    review_count = bump sel.is_review st.review_count;
    comfort_count = bump (has sel.content.cefr_level comfort) st.comfort_count;
    stretch_count = bump (has sel.content.cefr_level stretch) st.stretch_count;
    domain_count = bump (any (λ d. str_eq d domain) sel.content.domain_tags) st.domain_count;
    general_count = bump (any (λ d. str_eq d "general") sel.content.domain_tags) st.general_count;
    assignment_hits = bump (has sel.skill_id assignment_skills) st.assignment_hits;
  }

  unfoldable pub count_selections :
      (comfort stretch : List String) (domain : String) (assignment_skills : List String)
      → ContentStats
      → List (ContentSelection F)
      → ContentStats
  unfolding count_selection
  count_selections comfort stretch domain assignment_skills st [] = st
  count_selections comfort stretch domain assignment_skills st (sel ∷ sels) =
      count_selections comfort stretch domain assignment_skills
        (count_selection comfort stretch domain assignment_skills st sel) sels

  unfoldable pub calculate_stats :
      List (ContentSelection F)
      → (comfort stretch : List String) (domain : String) (assignment_skills : List String)
      → ContentStats
  unfolding count_selections
  calculate_stats sels comfort stretch domain assignment_skills =
      count_selections comfort stretch domain assignment_skills
        (record {
          total_items = length sels;
          total_time = 0;
          review_count = 0;
          comfort_count = 0;
          stretch_count = 0;
          domain_count = 0;
          general_count = 0;
          assignment_hits = 0;
        })
        sels

  unfoldable pub sort_by_time_desc :
      SortSlice → List (ContentSelection F) → List (ContentSelection F)
  sort_by_time_desc sorting =
      sorting.sort (ContentSelection F)
        (λ a b. ltb_ℤ b.content.estimated_time a.content.estimated_time)

  module _ (comfort stretch : List String) (domain : String) (assignment_skills : List String) where
    abbrev counted : ContentStats → List (ContentSelection F) → ContentStats
    counted = count_selections comfort stretch domain assignment_skills

    count_selections_lem :
        (st : ContentStats) (sels : List (ContentSelection F))
        → ((counted st sels).total_items ≡ st.total_items)
          × ((counted st sels).total_time ≡ st.total_time + sum_selection_times sels)
          × ((counted st sels).review_count ≤ st.review_count + length sels)
          × ((counted st sels).assignment_hits ≤ st.assignment_hits + length sels)
    unfolding count_selections count_selection
    count_selections_lem st [] = (refl, omega arith, omega arith, omega arith)
    count_selections_lem st (sel ∷ sels) =
        let (a, b, c, d) =
          count_selections_lem (count_selection comfort stretch domain assignment_skills st sel)
            sels in
        (a, omega (arith, b), ground (arith, c), ground (arith, d))
