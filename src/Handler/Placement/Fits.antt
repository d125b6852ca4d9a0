-- ===== src/Handler/Placement/Fits.antt =====
-- The questions of GeneratePlacement.
use ruskiy.Shared.{
  ℕ, suc, ◌+◌, ◌≤◌, ◌==◌, ◌&&◌, leb, ltb, Bool, true, Option-cases, none, some, String, str_eq,
  if_elim, if◌then◌else◌, List, [], ◌∷◌, ◌++◌, length, length-append, keep, has, get_elem?, All,
  All-append, All-take, All-perm_back, count_by, ◌≡◌, refl, sym, ap, arith, inl, inr,
}
use mathlib.Core.Bool.{Bool-set}
use mathlib.Core.Path.{subst}
use ruskiy.Platform.{Float}
use ruskiy.Model.{ContentAtom}
use ruskiy.Store.Database.{Tables, Postgres}
use ruskiy.Store.Content.{get_by_skills_any, overlaps, better_content, best_content}
use ruskiy.Store.Profiles
use ruskiy.Handler.Sessions.{
  Services, ask, find_profile, find_by_skills_any, find_by_skill_anywhere,
}
use ruskiy.Handler.Placement.Letters.{of_stage, letters_asked}
use ruskiy.Handler.Placement.{
  min_passes, PlacementStage, stages, PlacementItem, placement_test, best_quality, first_easy,
  pick_atom, atoms_for, question, stage_items, all_items, generate_placement,
}

module _ {F : Type 0} where
  abbrev pub Targets : String → ContentAtom F → Type 0
  Targets skill c = has skill c.target_skills ≡ true

  -- The question is of a stage of the test and asks for one of its skills, which its content targets.
  pub record Fits (i : PlacementItem F) : Type 0 where
    pub of_stage : PlacementStage
    pub index : get_elem? stages i.stage_index ≡ some of_stage
    pub name : i.stage ≡ of_stage.name
    pub skill : has i.skill_id of_stage.skills ≡ true
    pub level : i.cefr_level ≡ of_stage.level
    pub content : Targets i.skill_id i.content

  All-keep :
      (P : ContentAtom F → Type 0) (p : ContentAtom F → Bool)
      → ((c : ContentAtom F) → p c ≡ true → P c)
      → (cs : List (ContentAtom F)) → All P (keep p cs)
  All-keep P p h [] = tt
  All-keep P p h (c ∷ cs) =
      if_elim (All P) (p c) (c ∷ keep p cs) (keep p cs) (λ e. (h c e, All-keep P p h cs))
        (λ _. All-keep P p h cs)

module _ {F : Type 0} ⦃fl : Float F⦄ where
  best_quality-All :
      (P : ContentAtom F → Type 0) (best : ContentAtom F) (cs : List (ContentAtom F))
      → P best
      → All P cs
      → P (best_quality best cs)
  best_quality-All P best [] b h = b
  best_quality-All P best (c ∷ cs) b (hc, h) =
      best_quality-All P (if fl.lt best.quality_score c.quality_score then c else best) cs
        (if_elim P (fl.lt best.quality_score c.quality_score) c best (λ _. hc) (λ _. b)) h

  first_easy-All :
      (P : ContentAtom F → Type 0) (best : ContentAtom F) (cs : List (ContentAtom F))
      → P best
      → All P cs
      → P (first_easy best cs)
  first_easy-All P best [] b h = b
  first_easy-All P best (c ∷ cs) b (hc, h) =
      if_elim P (fl.le c.difficulty (fl.lit 35 2)) c (first_easy best cs) (λ _. hc)
        (λ _. first_easy-All P best cs b h)

  pick_atom-All :
      (P : ContentAtom F → Type 0) (i : ℕ) (a : ContentAtom F) (cs : List (ContentAtom F))
      → All P (a ∷ cs)
      → P (pick_atom i a cs)
  unfolding pick_atom
  pick_atom-All P i a cs (ha, h) =
      let best = best_quality a cs in
      let good = best_quality-All P a cs ha h in
      if_elim P (i == 0 && fl.lt (fl.lit 35 2) best.difficulty && ltb 1 (length (a ∷ cs)))
        (first_easy best (a ∷ cs)) best (λ _. first_easy-All P best (a ∷ cs) good (ha, h))
        (λ _. good)

  best_content-All :
      (pg : Postgres F) (P : ContentAtom F → Type 0) (prop : (c : ContentAtom F) → IsProp (P c))
      (n : ℕ) (cs : List (ContentAtom F))
      → All P cs
      → All P (best_content pg n cs)
  best_content-All pg P prop n cs h =
      All-take P n (pg.order_by.sort (ContentAtom F) better_content cs)
        (All-perm_back P prop (pg.order_by.sort_perm (ContentAtom F) better_content cs) h)

  get_by_skills_any-Targets :
      (pg : Postgres F) (skill level : String) (n : ℕ) (t : Tables F)
      → All (Targets skill) (get_by_skills_any pg (skill ∷ []) level n t)
  unfolding get_by_skills_any
  get_by_skills_any-Targets pg skill level n t =
      if_elim (All (Targets skill)) (str_eq level "") _ _
        (λ _.
          best_content-All pg (Targets skill) (λ c. Bool-set _ _) n _
            (All-keep (Targets skill) (overlaps (skill ∷ [])) (λ c e. ground (arith, e)) t.content))
        (λ _.
          best_content-All pg (Targets skill) (λ c. Bool-set _ _) n _
            (All-keep (Targets skill) _ (λ c e. ground (arith, e)) t.content))

  module _ (env : Services F) where
    atoms_for-Targets :
        (skill level : String) (t : Tables F) → All (Targets skill) (atoms_for env skill level t)
    atoms_for-Targets skill level t =
        if_elim (All (Targets skill)) _ _ _
          (λ _.
            if_elim (All (Targets skill)) (env.fails find_by_skill_anywhere) [] _ (λ _. tt)
              (λ _. get_by_skills_any-Targets env.pg skill "" 3 t))
          (λ _.
            if_elim (All (Targets skill)) (env.fails find_by_skills_any) [] _ (λ _. tt)
              (λ _. get_by_skills_any-Targets env.pg skill level 3 t))

    question-Fits :
        (s : PlacementStage) (i : ℕ) (skill : String) (atoms : List (ContentAtom F))
        → get_elem? stages i ≡ some s
        → has skill s.skills ≡ true
        → All (Targets skill) atoms
        → All Fits (question env s i skill atoms)
    question-Fits s i skill [] at_ here h = tt
    question-Fits s i skill (a ∷ atoms) at_ here h = (
      record {
        of_stage = s;
        index = at_;
        name = refl;
        skill = here;
        level = refl;
        content = pick_atom-All (Targets skill) i a atoms h;
      },
      tt,
    )

    length-question :
        (s : PlacementStage) (i : ℕ) (skill : String) (atoms : List (ContentAtom F))
        → length (question env s i skill atoms) ≤ 1
    length-question s i skill [] = omega arith
    length-question s i skill (a ∷ atoms) = omega arith

    stage_items-Fits :
        (s : PlacementStage) (i : ℕ) (skills : List String) (t : Tables F)
        (items : List (PlacementItem F))
        → get_elem? stages i ≡ some s
        → All (λ k. has k s.skills ≡ true) skills
        → All Fits items
        → All Fits (stage_items env s i skills t items)
          × (length (stage_items env s i skills t items) ≤ length items + length skills)
    unfolding stage_items
    stage_items-Fits s i [] t items at_ h f = (f, omega arith)
    stage_items-Fits s i (skill ∷ skills) t items at_ (here, h) f =
        let atoms = atoms_for env skill s.level t in
        let more = items ++ question env s i skill atoms in
        let (fit, count) = stage_items-Fits s i skills t more at_ h (
          All-append Fits items (question env s i skill atoms) f
            (question-Fits s i skill atoms at_ here (atoms_for-Targets skill s.level t))) in
        if_elim (λ x. All Fits x × (length x ≤ length items + suc (length skills)))
          (leb s.max_items (length items)) items (stage_items env s i skills t more)
          (λ _. (f, omega arith))
          (λ _. (
            fit,
            omega (
              arith,
              count,
              length-append items (question env s i skill atoms),
              length-question s i skill atoms,
            ),
          ))

    -- The stages from an index on, with how many questions they have at most.
    abbrev From : ℕ → List PlacementStage → Type 0
    From i [] = Unit
    From i (s ∷ ss) =
        (get_elem? stages i ≡ some s) × All (λ k. has k s.skills ≡ true) s.skills × From (suc i) ss

    abbrev at_most : List PlacementStage → ℕ
    at_most [] = 0
    at_most (s ∷ ss) = length s.skills + at_most ss

    all_items-Fits :
        (i : ℕ) (ss : List PlacementStage) (t : Tables F)
        → From i ss
        → All Fits (all_items env i ss t) × (length (all_items env i ss t) ≤ at_most ss)
    all_items-Fits i [] t h = (tt, omega arith)
    all_items-Fits i (s ∷ ss) t (at_, here, h) =
        let (fit, count) = stage_items-Fits s i s.skills t [] at_ here tt in
        let (fits, counts) = all_items-Fits (suc i) ss t h in
        (
          All-append Fits (stage_items env s i s.skills t []) (all_items env (suc i) ss t) fit fits,
          omega (
            arith,
            count,
            counts,
            length-append (stage_items env s i s.skills t []) (all_items env (suc i) ss t),
          ),
        )

    stages-From : From 0 stages
    stages-From = (
      refl,
      (refl, tt),
      (
        refl,
        (refl, (refl, tt)),
        (
          refl,
          (refl, (refl, tt)),
          (
            refl,
            (refl, (refl, (refl, tt))),
            (refl, (refl, (refl, (refl, tt))), (refl, (refl, (refl, (refl, tt))), tt)),
          ),
        ),
      ),
    )

    -- When GeneratePlacement answers with a test, it has at most 14 questions, its total is their number, and
    -- each question is of one of the six stages, with the name and the level of the stage, asks for one of
    -- the skills of the stage, and its content targets that skill. At most one question is of the first
    -- stage, for which the test asks for two right answers.
    pub generate_placement-Fits :
        (learner l : String) (t : Tables F) (items : List (PlacementItem F)) (total : ℕ)
        (minimums : List ℕ)
        → generate_placement env (some learner) t ≡ placement_test l items total minimums
        → (length items ≤ 14)
          × (total ≡ length items)
          × All Fits items
          × (count_by (of_stage 0) items ≤ 1)
          × (get_elem? minimums 0 ≡ some 2)
    unfolding generate_placement
    generate_placement-Fits learner l t items total minimums e =
        let (fits, count) = all_items-Fits 0 stages t stages-From in
        elim (Option-cases (ask env find_profile none (Profiles.get_by_id learner t))) [
          | inl h ↦ absurd (ground (arith, (rw (h, generate_placement) at e)))
          | inr (p, h) ↦
              let same : all_items env 0 stages t ≡ items =
                ground (arith, (rw (h, generate_placement) at e)) in
              let same_total : length (all_items env 0 stages t) ≡ total =
                ground (arith, (rw (h, generate_placement) at e)) in
              let same_minimums : min_passes stages ≡ minimums =
                ground (arith, (rw (h, generate_placement) at e)) in
              subst
                (λ xs.
                  (length xs ≤ 14)
                  × (total ≡ length xs)
                  × All Fits xs
                  × (count_by (of_stage 0) xs ≤ 1)
                  × (get_elem? minimums 0 ≡ some 2))
                same
                (
                  count,
                  sym same_total,
                  fits,
                  letters_asked env t,
                  ap (λ (ms : List ℕ). get_elem? ms 0) (sym same_minimums),
                )
        ]
