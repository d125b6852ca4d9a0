-- ===== src/Engine/Selector/Phases.antt =====
-- services/api/internal/engine/content_selector.go: selectWithConstraints in its five phases. The
-- second to the fourth phase go over skills with one body; they differ in the arguments `is_review`,
-- `prefer` (when stretch content is preferred) and `counts` (whether stretchAdded is counted).
pub mod Steps
pub mod Laws
use ruskiy.Shared.{
  ℕ, zero, suc, ◌+◌, ◌%◌, ◌==◌, ltb, leb, not, ◌&&◌, ◌||◌, if◌then◌else◌, Bool, true, false, List,
  [], ◌∷◌, ◌++◌, length, has, has_id, Option, none, some, String, str_eq,
}
use ruskiy.Shared.Int.{ℤ, pos, ltb_ℤ}
use ruskiy.Platform.{Float}
use ruskiy.Model.{ContentAtom, LearnerSkillState, no_role}
use ruskiy.Engine.Data.{ContentSelection}
use ruskiy.Engine.Selector.Pool.{atom_time}
use ruskiy.Engine.Selector.Pick.{Selecting, new_selecting, pick_content, add_selection}

pub record TeacherAssignment : Type 0 where
  pub title : String
  pub target_skills : List String
  pub min_exercises : ℤ

-- What the phases of one call share; `time_limit` is int(float64(budgetSeconds)*1.15).
pub record Constraints (F : Type 0) : Type 0 where
  pub content : List (ContentAtom F)
  pub comfort : List String
  pub stretch : List String
  pub max_items : ℕ
  pub time_limit : ℤ
  pub assignment_count : ℤ
  pub stretch_target : ℤ

-- The state with stretchAdded.
abbrev pub Progress : Type 0 → Type 0
Progress F = Selecting F × ℕ

module _ {F : Type 0} where
  module _ (cs : Constraints F) where
    -- Phase 1.
    unfoldable pub assign_phase : List String → Selecting F → Selecting F
    assign_phase [] st = st
    assign_phase (sk ∷ skills) st =
        let picked = pick_content cs.content cs.comfort cs.stretch st sk false false in
        let next : Selecting F = elim picked [ none ↦ st | some sel ↦ add_selection st sel ] in
        let rest = assign_phase skills next in
        if ltb_ℤ (pos (length st.selections)) cs.assignment_count then rest else st

    abbrev pub fits : Selecting F → ContentAtom F → Bool
    fits st c = not (ltb_ℤ cs.time_limit (pos (st.total_time + atom_time c)))

    -- The part of a round behind pickContent.
    unfoldable pub take_picked : Bool → Progress F → Option (ContentSelection F) → Progress F
    take_picked counts p none = p
    take_picked counts (st, added) (some sel) =
        if fits st sel.content
        then (
          add_selection st sel,
          if counts && has sel.content.cefr_level cs.stretch then suc added else added,
        )
        else (st, added)

    -- The body of the loops of the phases 2 to 4.
    unfoldable pub try_skill :
        (is_review counts : Bool) → (Progress F → Bool) → Progress F → String → Progress F
    unfolding take_picked
    try_skill is_review counts prefer (st, added) sk =
        if has sk st.used_skills
        then (st, added)
        else take_picked counts (st, added)
            (pick_content cs.content cs.comfort cs.stretch st sk is_review (prefer (st, added)))

    unfoldable pub skill_phase :
        (is_review counts : Bool)
        → (Progress F → Bool)
        → List (LearnerSkillState F)
        → Progress F
        → Progress F
    unfolding try_skill
    skill_phase is_review counts prefer [] p = p
    skill_phase is_review counts prefer (sk ∷ skills) p =
        let rest =
          skill_phase is_review counts prefer skills
            (try_skill is_review counts prefer p sk.skill_id) in
        if ltb (length p.0.selections) cs.max_items then rest else p

    abbrev pub needs_stretch : Progress F → Bool
    needs_stretch (st, added) = ltb_ℤ (pos added) cs.stretch_target

    -- Phases 2, 3 and 4.
    unfoldable pub due_phase : List (LearnerSkillState F) → Progress F → Progress F
    unfolding skill_phase
    due_phase = skill_phase true true (λ p. needs_stretch p && (length p.0.selections % 3 == 0))

    unfoldable pub weak_phase : List (LearnerSkillState F) → Progress F → Progress F
    unfolding skill_phase
    weak_phase = skill_phase true false (λ p. false)

    unfoldable pub new_phase : List (LearnerSkillState F) → Progress F → Progress F
    unfolding skill_phase
    new_phase = skill_phase false true needs_stretch

    -- `len(allowedLevels) > 0 && !allowedLevels[level]`, negated.
    abbrev pub is_allowed : String → Bool
    is_allowed level =
        has level cs.comfort || has level cs.stretch || (length cs.comfort + length cs.stretch == 0)

    abbrev pub first_skill : ContentAtom F → String
    first_skill c = elim c.target_skills [ [] ↦ "" | ◌∷◌ sk _ ↦ sk ]

    abbrev pub general_selection : ContentAtom F → ContentSelection F
    general_selection c = record {
      content = c;
      skill_id = first_skill c;
      role = no_role;
      is_review = false;
    }

    -- The body of the loop of phase 5.
    unfoldable pub try_fill : Bool → Selecting F → ContentAtom F → Selecting F
    try_fill only_general st c =
        if has_id c.id st.used_content
          || not (is_allowed c.cefr_level)
          || (only_general && not (has "general" c.domain_tags))
        then st
        else if fits st c
        then add_selection st (general_selection c)
        else st

    unfoldable pub fill_pass : Bool → List (ContentAtom F) → Selecting F → Selecting F
    unfolding try_fill
    fill_pass only_general [] st = st
    fill_pass only_general (c ∷ content) st =
        let rest = fill_pass only_general content (try_fill only_general st c) in
        if ltb (length st.selections) cs.max_items then rest else st

    unfoldable pub fill_phase : Selecting F → Selecting F
    unfolding fill_pass
    fill_phase st = fill_pass false cs.content (fill_pass true cs.content st)

    unfoldable pub first_phase : Option TeacherAssignment → Selecting F
    unfolding assign_phase
    first_phase none = new_selecting
    first_phase (some a) = assign_phase a.target_skills new_selecting

    unfoldable pub select_with_constraints :
        (due weak new_ : List (LearnerSkillState F)) → Option TeacherAssignment → Selecting F
    unfolding first_phase due_phase weak_phase new_phase fill_phase
    select_with_constraints due weak new_ assignment =
        let p1 : Progress F = (first_phase assignment, 0) in
        fill_phase (new_phase new_ (weak_phase weak (due_phase due p1))).0

module _ {F : Type 0} ⦃fl : Float F⦄ where
  unfoldable pub constraints :
      List (ContentAtom F)
      → (comfort stretch : List String) → (max_items budget_seconds : ℕ) → Constraints F
  constraints content comfort stretch max_items budget_seconds = record {
    content = content;
    comfort = comfort;
    stretch = stretch;
    max_items = max_items;
    time_limit = fl.to_int (fl.mul (fl.of_int (pos budget_seconds)) (fl.lit 115 2));
    assignment_count = fl.to_int (fl.ceil (fl.mul (fl.of_int (pos max_items)) (fl.lit 4 1)));
    stretch_target = fl.to_int (fl.ceil (fl.mul (fl.of_int (pos max_items)) (fl.lit 2 1)));
  }
