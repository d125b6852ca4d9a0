-- ===== src/Handler/Placement/Letters.antt =====
-- How many questions of a stage GeneratePlacement asks.
use ruskiy.Shared.{
  ℕ, suc, ◌+◌, ◌≤◌, ◌==◌, leb, Bool, Bool-cases, String, if_elim, if◌then◌else◌, List, [], ◌∷◌,
  ◌++◌, length, count_by, count_by-append, arith, inl, inr,
}
use ruskiy.Platform.{Float}
use ruskiy.Model.{ContentAtom}
use ruskiy.Store.Database.{Tables}
use ruskiy.Handler.Sessions.{Services}
use ruskiy.Handler.Placement.{
  PlacementStage, stages, PlacementItem, atoms_for, question, stage_items, all_items,
}

abbrev pub of_stage : {F : Type 0} → ℕ → PlacementItem F → Bool
of_stage k i = i.stage_index == k

-- The skills of the stage `k`, of the stages from `i` on.
abbrev asked : ℕ → List PlacementStage → ℕ → ℕ
asked i [] k = 0
asked i (s ∷ ss) k = (if i == k then length s.skills else 0) + asked (suc i) ss k

module _ {F : Type 0} ⦃fl : Float F⦄ (env : Services F) (k : ℕ) where
  question-count :
      (s : PlacementStage) (i : ℕ) (skill : String) (atoms : List (ContentAtom F))
      → count_by (of_stage k) (question env s i skill atoms) ≤ (if i == k then 1 else 0)
  question-count s i skill [] = omega arith
  question-count s i skill (a ∷ atoms) = omega arith

  stage_items-count :
      (s : PlacementStage) (i : ℕ) (skills : List String) (t : Tables F)
      (items : List (PlacementItem F))
      → count_by (of_stage k) (stage_items env s i skills t items)
        ≤ count_by (of_stage k) items + (if i == k then length skills else 0)
  unfolding stage_items
  stage_items-count s i [] t items = omega arith
  stage_items-count s i (skill ∷ skills) t items =
      let new = question env s i skill (atoms_for env skill s.level t) in
      let rest = stage_items-count s i skills t (items ++ new) in
      let asks = question-count s i skill (atoms_for env skill s.level t) in
      let both = count_by-append (of_stage k) items new in
      if_elim
        (λ xs.
          count_by (of_stage k) xs
          ≤ count_by (of_stage k) items + (if i == k then suc (length skills) else 0))
        (leb s.max_items (length items)) items (stage_items env s i skills t (items ++ new))
        (λ _. omega arith)
        (λ _. elim (Bool-cases (i == k)) [
          | inl e ↦ rw e (omega (arith, both, (rw e at rest), (rw e at asks)))
          | inr e ↦ rw e (omega (arith, both, (rw e at rest), (rw e at asks)))
        ])

  all_items-count :
      (i : ℕ) (ss : List PlacementStage) (t : Tables F)
      → count_by (of_stage k) (all_items env i ss t) ≤ asked i ss k
  all_items-count i [] t = omega arith
  all_items-count i (s ∷ ss) t = omega (
    arith,
    count_by-append (of_stage k) (stage_items env s i s.skills t []) (all_items env (suc i) ss t),
    stage_items-count s i s.skills t [],
    all_items-count (suc i) ss t,
  )

module _ {F : Type 0} ⦃fl : Float F⦄ where
  -- The first stage has one skill.
  pub letters_asked :
      (env : Services F) (t : Tables F) → count_by (of_stage 0) (all_items env 0 stages t) ≤ 1
  letters_asked env t = omega (arith, all_items-count env 0 0 stages t)
