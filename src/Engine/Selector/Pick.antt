-- ===== src/Engine/Selector/Pick.antt =====
-- services/api/internal/engine/content_selector.go: the state of selectWithConstraints and its
-- closures lastExType, pickContent and addSelection. Sets are lists; the map of exercise types is a
-- function.
pub mod Laws
use ruskiy.Shared.{
  ℕ, zero, suc, ◌+◌, ◌-◌, ltb, leb, not, ◌&&◌, ◌||◌, if◌then◌else◌, Bool, true, false, List, [],
  ◌∷◌, ◌++◌, last?, keep, has, has_id, put, Option, none, some, String, str_eq,
}
use ruskiy.Model.{ContentAtom, SessionItemRole, no_role}
use ruskiy.Engine.Data.{ContentSelection}
use ruskiy.Engine.Selector.Pool.{atom_time}

pub record Selecting (F : Type 0) : Type 0 where
  pub selections : List (ContentSelection F)
  pub used_content : List ℕ
  pub used_skills : List String
  pub used_types : String → ℕ
  pub total_time : ℕ

abbrev pub type_of : Option String → String
type_of none = ""
type_of (some t) = t

module _ {F : Type 0} where
  abbrev pub new_selecting : Selecting F
  new_selecting = record {
    selections = [];
    used_content = [];
    used_skills = [];
    used_types = λ t. 0;
    total_time = 0;
  }

  abbrev pub last_ex_type : Selecting F → String
  last_ex_type st = elim (last? st.selections) [
    | none ↦ ""
    | some s ↦ type_of s.content.exercise_type
  ]

  -- contentBySkill[skillID]: content that names the skill twice is there twice.
  abbrev pub for_each_target :
      String → List String → ContentAtom F → List (ContentAtom F) → List (ContentAtom F)
  for_each_target skill_id [] c rest = rest
  for_each_target skill_id (sk ∷ sks) c rest =
      let more = for_each_target skill_id sks c rest in
      if str_eq sk skill_id then c ∷ more else more

  abbrev pub content_by_skill : List (ContentAtom F) → String → List (ContentAtom F)
  content_by_skill [] skill_id = []
  content_by_skill (c ∷ content) skill_id =
      for_each_target skill_id c.target_skills c (content_by_skill content skill_id)

  -- The first candidate that passes a test.
  unfoldable pub first_where :
      (ContentAtom F → Bool) → List (ContentAtom F) → Option (ContentAtom F)
  first_where p [] = none
  first_where p (c ∷ cs) = let rest = first_where p cs in if p c then some c else rest

  abbrev pub is_unused : Selecting F → ContentAtom F → Bool
  is_unused st c = not (has_id c.id st.used_content)

  module _ (content : List (ContentAtom F)) (comfort stretch : List String) where
    unfoldable pub score : Bool → Selecting F → ContentAtom F → ℕ
    score prefer_stretch st c =
        let zone : ℕ =
          if prefer_stretch && has c.cefr_level stretch
          then 10
          else if has c.cefr_level comfort
          then 5
          else if has c.cefr_level stretch
          then 4
          else 0 in
        let variety : ℕ = elim c.exercise_type [
          | none ↦ 0
          | some t ↦ (if str_eq t (last_ex_type st) then 0 else 3) + (3 - st.used_types t)
        ] in
        zone + variety

    -- The loop over the candidates; `none` is bestScore = -1.
    unfoldable pub best_candidate :
        Bool
        → Selecting F
        → List (ContentAtom F)
        → Option (ContentAtom F × ℕ)
        → Option (ContentAtom F × ℕ)
    unfolding score
    best_candidate prefer st [] best = best
    best_candidate prefer st (c ∷ cs) best =
        let s = score prefer st c in
        let better : Bool = elim best [ none ↦ true | some (_, b) ↦ ltb b s ] in
        best_candidate prefer st cs
          (if not (has_id c.id st.used_content) && better then some (c, s) else best)

    unfoldable pub pick_atom : Bool → Selecting F → List (ContentAtom F) → Option (ContentAtom F)
    unfolding best_candidate first_where
    pick_atom prefer st candidates = elim (best_candidate prefer st candidates none) [
      | some (c, _) ↦ some c
      | none ↦
          elim (first_where
            (λ c. is_unused st c && (has c.cefr_level comfort || has c.cefr_level stretch))
            candidates) [ some c ↦ some c | none ↦ first_where (is_unused st) candidates ]
    ]

    unfoldable pub pick_content :
        Selecting F → String → (is_review prefer_stretch : Bool) → Option (ContentSelection F)
    unfolding pick_atom
    pick_content st skill_id is_review prefer_stretch =
        elim (pick_atom prefer_stretch st (content_by_skill content skill_id)) [
          | none ↦ none
          | some c ↦
              some
                (record { content = c; skill_id = skill_id; role = no_role; is_review = is_review })
        ]

  unfoldable pub add_selection : Selecting F → ContentSelection F → Selecting F
  add_selection st sel = record {
    selections = st.selections ++ sel ∷ [];
    used_content = sel.content.id ∷ st.used_content;
    used_skills = sel.skill_id ∷ st.used_skills;
    used_types = elim sel.content.exercise_type [
      | none ↦ st.used_types
      | some t ↦ put t (suc (st.used_types t)) st.used_types
    ];
    total_time = st.total_time + atom_time sel.content;
  }
