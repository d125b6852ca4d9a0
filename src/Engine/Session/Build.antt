-- ===== src/Engine/Session/Build.antt =====
-- services/api/internal/engine/session.go: MatchContent, roleDifficulty and BuildSession. sort.Slice
-- orders its slice in place: when MatchContent has neither content of the skill nor fresh content, that
-- slice is the caller's `available`, so the order that it leaves behind is part of the result.
pub mod Laws
use ruskiy.Shared.{
  is_nil, ℕ, zero, suc, ◌+◌, min, not, ◌&&◌, if◌then◌else◌, Bool, true, false, List, [], ◌∷◌,
  length, get_elem?, keep, any, has, has_id, Option, none, some, String, str_eq,
}
use ruskiy.Platform.{Float, SortSlice}
use ruskiy.Model.{
  SessionItemRole, no_role, warmup, ramp, core, relief, challenge, cooldown, ContentAtom,
  SessionItem,
}
use ruskiy.Engine.Session.Roles.{assign_roles}
use ruskiy.Engine.Session.Select.{SkillSelection}

abbrev pub session_item :
    (id session_id position content_id : ℕ) → String → SessionItemRole → SessionItem
session_item id session_id position content_id skill_id role = record {
  id = id;
  session_id = session_id;
  position = position;
  content_id = content_id;
  skill_id = skill_id;
  role = role;
  completed = false;
}

-- role := model.RoleCore; if i < len(roles) { role = roles[i] }
abbrev pub role_at : List SessionItemRole → ℕ → SessionItemRole
role_at roles i = elim (get_elem? roles i) [ none ↦ core | some r ↦ r ]

module _ {F : Type 0} where
  abbrev pub targets : String → ContentAtom F → Bool
  targets skill_id c = has skill_id c.target_skills

  abbrev pub is_fresh : List ℕ → ContentAtom F → Bool
  is_fresh used c = not (has_id c.id used)

  -- `if len(xs) > 0 { xs } else { ys }`
  abbrev pub or_else : List (ContentAtom F) → List (ContentAtom F) → List (ContentAtom F)
  or_else xs ys = if is_nil xs then ys else xs

  abbrev pub skill_candidates : String → List (ContentAtom F) → List (ContentAtom F)
  skill_candidates skill_id available = or_else (keep (targets skill_id) available) available

  unfoldable pub candidates_of : String → List (ContentAtom F) → List ℕ → List (ContentAtom F)
  candidates_of skill_id available used =
      let candidates = skill_candidates skill_id available in
      or_else (keep (is_fresh used) candidates) candidates

module _ {F : Type 0} ⦃fl : Float F⦄ where
  unfoldable pub role_difficulty : SessionItemRole → F
  role_difficulty warmup = fl.lit 2 1
  role_difficulty ramp = fl.lit 4 1
  role_difficulty core = fl.lit 6 1
  role_difficulty relief = fl.lit 3 1
  role_difficulty challenge = fl.lit 85 2
  role_difficulty cooldown = fl.lit 3 1
  role_difficulty no_role = fl.lit 5 1

  -- The test of sort.Slice: the distance from the target, and the quality where the distances agree.
  unfoldable pub suits_better : F → ContentAtom F → ContentAtom F → Bool
  suits_better target a b =
      let da = fl.fabs (fl.sub a.difficulty target) in
      let db = fl.fabs (fl.sub b.difficulty target) in
      if fl.feq da db then fl.lt b.quality_score a.quality_score else fl.lt da db

  module _ (sorting : SortSlice) (intn : ℕ → ℕ) where
    unfoldable pub ranked : SessionItemRole → List (ContentAtom F) → List (ContentAtom F)
    unfolding role_difficulty suits_better
    ranked role candidates =
        sorting.sort (ContentAtom F) (suits_better (role_difficulty role)) candidates

    -- The chosen content, and `available` as the call leaves it.
    unfoldable pub match_content :
        String
        → SessionItemRole
        → List (ContentAtom F)
        → List ℕ
        → Option (ContentAtom F) × List (ContentAtom F)
    unfolding ranked candidates_of
    match_content skill_id role available used =
        let sorted = ranked role (candidates_of skill_id available used) in
        let aliased =
          is_nil (keep (targets skill_id) available)
          && is_nil (keep (is_fresh used) (skill_candidates skill_id available)) in
        if is_nil (candidates_of skill_id available used) then (none, available) else (
          get_elem? sorted (intn (min 3 (length sorted))),
          if aliased then sorted else available,
        )

  -- The random numbers of rand.Intn and the fresh IDs of uuid.New by the number of the turn.
  module _ (sorting : SortSlice) (intn : ℕ → ℕ → ℕ) (new_id : ℕ → ℕ) (session_id : ℕ) where
    -- The loop of BuildSession from the turn `i`.
    unfoldable pub build_items :
        List SessionItemRole
        → ℕ
        → List (SkillSelection F)
        → List (ContentAtom F)
        → List ℕ
        → List SessionItem
    build_items roles i [] content used = []
    build_items roles i (sel ∷ selections) content used =
        let role = role_at roles i in
        let result = match_content sorting (intn i) sel.skill.skill_id role content used in
        elim result.0 [
          | none ↦ build_items roles (i + 1) selections result.1 used
          | some matched ↦
              session_item (new_id i) session_id i matched.id sel.skill.skill_id role
              ∷ build_items roles (i + 1) selections result.1 (matched.id ∷ used)
        ]

    unfoldable pub build_session :
        List (SkillSelection F) → List (ContentAtom F) → List ℕ → List SessionItem
    unfolding build_items
    build_session selections content recently_used =
        build_items (assign_roles (length selections)) 0 selections content recently_used
