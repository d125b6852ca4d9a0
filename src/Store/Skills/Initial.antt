-- ===== src/Store/Skills/Initial.antt =====
-- What InitializeSkills inserts.
use ruskiy.Shared.{
  ◌&&◌, Bool, Bool-cases, true, false, Option, none, some, String, str_eq, str_eq_iff, str_eq_self,
  if◌then◌else◌, List, [], ◌∷◌, ◌++◌, length, ◌==◌, has, not, ◌≡◌, ◌≢◌, ◌∙◌, sym, ap, refl, arith,
  inl, inr,
}
use mathlib.Core.Path.{subst}
use ruskiy.Shared.Int.{ℤ}
use ruskiy.Platform.{Float}
use ruskiy.Model.{Skill, LearnerSkillState}
use ruskiy.Store.Database.{Tables, Postgres, query_row, exists_where}
use ruskiy.Store.Skills.{
  is_row, get_learner_skill, new_rows, threshold, levels_within, cefr_order, initial_row,
  initialize_skills, with_learner_skills,
}

abbrev pub or_some : {A : Type 0} → Option A → Option A → Option A
or_some none b = b
or_some (some a) b = some a

module _ {A : Type 0} (p : A → Bool) where
  query_row-append :
      (xs : List A) (x : A)
      → query_row p (xs ++ x ∷ []) ≡ or_some (query_row p xs) (if p x then some x else none)
  query_row-append [] x = refl
  query_row-append (y ∷ ys) x = elim (Bool-cases (p y)) [
    | inl e ↦ rw e refl
    | inr e ↦ rw e (query_row-append ys x)
  ]

  exists_where-query_row : (xs : List A) → exists_where p xs ≡ false → query_row p xs ≡ none
  exists_where-query_row [] e = refl
  exists_where-query_row (y ∷ ys) e = ground (arith, e, exists_where-query_row ys)

  query_row_of_exists_where :
      (xs : List A) → exists_where p xs ≡ true → (x : A) × (query_row p xs ≡ some x)
  query_row_of_exists_where [] e = absurd (ground (arith, e))
  query_row_of_exists_where (y ∷ ys) e = elim (Bool-cases (p y)) [
    | inl h ↦ (y, rw h refl)
    | inr h ↦ let (x, f) = query_row_of_exists_where ys (rw h at e) in (x, rw h f)
  ]

module _ {A : Type 0} where
  or_some-none : (a : Option A) → a ≡ or_some a none
  or_some-none none = refl
  or_some-none (some a) = refl

  or_some-some :
      (a : Option A) (b : A) (c : Option A) → or_some (or_some a (some b)) c ≡ or_some a (some b)
  or_some-some none b c = refl
  or_some-some (some a) b c = refl

  or_some_skip : (a c : Option A) → or_some (or_some a none) c ≡ or_some a c
  or_some_skip none c = refl
  or_some_skip (some a) c = refl

-- A skill of the catalogue with the ID, at one of the levels.
abbrev pub offered : List String → List Skill → String → Bool
offered levels skills id =
    exists_where (λ k. str_eq k.skill_id id && has k.cefr_level levels) skills

module _ {F : Type 0} (row : String → LearnerSkillState F) (levels : List String) (learner : String)
    (of_row : (k : String) → (row k).learner_id ≡ learner)
    (skill_of_row : (k : String) → (row k).skill_id ≡ k) where
  -- What the statement adds for a skill that has no row.
  abbrev added : List Skill → String → Option (LearnerSkillState F)
  added skills id = if offered levels skills id then some (row id) else none

  is_row-row : (l k id : String) → is_row l k (row id) ≡ (str_eq learner l && str_eq id k)
  is_row-row l k id = rw (of_row id, skill_of_row id) refl

  added_skip :
      (k : Skill) (skills : List Skill) (id : String)
      → (str_eq k.skill_id id && has k.cefr_level levels) ≡ false
      → added (k ∷ skills) id ≡ added skills id
  added_skip k skills id e = rw e refl

  kept_row :
      (k : Skill) (skills : List Skill) (rows : List (LearnerSkillState F)) (id : String)
      → has k.cefr_level levels ≡ true
      → exists_where (is_row learner k.skill_id) rows ≡ true
      → or_some (query_row (is_row learner id) rows) (added skills id)
        ≡ or_some (query_row (is_row learner id) rows) (added (k ∷ skills) id)
  kept_row k skills rows id lv e = elim (Bool-cases (str_eq k.skill_id id)) [
    | inl same ↦
        let eq : k.skill_id ≡ id = (str_eq_iff k.skill_id id).0 same in
        let (x, found) =
          query_row_of_exists_where (is_row learner id) rows
            (subst (λ j. exists_where (is_row learner j) rows ≡ true) eq e) in
        rw found refl
    | inr ne ↦
        ap (or_some (query_row (is_row learner id) rows))
          (sym (added_skip k skills id (ground (arith, ne))))
  ]

  new_row :
      (k : Skill) (skills : List Skill) (rows : List (LearnerSkillState F)) (id : String)
      → has k.cefr_level levels ≡ true
      → or_some (query_row (is_row learner id) (rows ++ row k.skill_id ∷ [])) (added skills id)
        ≡ or_some (query_row (is_row learner id) rows) (added (k ∷ skills) id)
  new_row k skills rows id lv =
      let q = query_row (is_row learner id) rows in
      rw
        (
          query_row-append (is_row learner id) rows (row k.skill_id),
          is_row-row learner id k.skill_id,
          str_eq_self learner,
        )
        (elim (Bool-cases (str_eq k.skill_id id)) [
          | inl same ↦
              let eq : k.skill_id ≡ id = (str_eq_iff k.skill_id id).0 same in
              rw (same, lv) (rw eq (or_some-some q (row id) (added skills id)))
          | inr ne ↦ rw ne (or_some_skip q (added skills id))
        ])

  -- The test of the loop.
  abbrev inserts : Skill → List (LearnerSkillState F) → Bool
  inserts k rows =
      has k.cefr_level levels
      && not (exists_where (is_row (row k.skill_id).learner_id (row k.skill_id).skill_id) rows)

  inserts-eq :
      (k : Skill) (rows : List (LearnerSkillState F))
      → inserts k rows
        ≡ (has k.cefr_level levels && not (exists_where (is_row learner k.skill_id) rows))
  inserts-eq k rows = rw (of_row k.skill_id, skill_of_row k.skill_id) refl

  new_rows_insert :
      (k : Skill) (skills : List Skill) (rows : List (LearnerSkillState F))
      → inserts k rows ≡ true
      → new_rows row levels (k ∷ skills) rows
        ≡ new_rows row levels skills (rows ++ row k.skill_id ∷ [])
  unfolding new_rows
  new_rows_insert k skills rows e = rw e refl

  new_rows_skip :
      (k : Skill) (skills : List Skill) (rows : List (LearnerSkillState F))
      → inserts k rows ≡ false
      → new_rows row levels (k ∷ skills) rows ≡ new_rows row levels skills rows
  unfolding new_rows
  new_rows_skip k skills rows e = rw e refl

  new_rows-query :
      (skills : List Skill) (rows : List (LearnerSkillState F)) (id : String)
      → query_row (is_row learner id) (new_rows row levels skills rows)
        ≡ or_some (query_row (is_row learner id) rows) (added skills id)
  unfolding new_rows
  new_rows-query [] rows id = or_some-none (query_row (is_row learner id) rows)
  new_rows-query (k ∷ skills) rows id = elim (Bool-cases (has k.cefr_level levels)) [
    | inl lv ↦ elim (Bool-cases (exists_where (is_row learner k.skill_id) rows)) [
      | inl e ↦
          ap (query_row (is_row learner id))
            (new_rows_skip k skills rows (rw (inserts-eq k rows, lv, e) refl))
          ∙ new_rows-query skills rows id
          ∙ kept_row k skills rows id lv e
      | inr e ↦
          ap (query_row (is_row learner id))
            (new_rows_insert k skills rows (rw (inserts-eq k rows, lv, e) refl))
          ∙ new_rows-query skills (rows ++ row k.skill_id ∷ []) id
          ∙ new_row k skills rows id lv
    ]
    | inr lv ↦
        ap (query_row (is_row learner id))
          (new_rows_skip k skills rows (rw (inserts-eq k rows, lv) refl))
        ∙ new_rows-query skills rows id
        ∙ ap (or_some (query_row (is_row learner id) rows))
            (sym (added_skip k skills id (ground (arith, lv))))
  ]

  other_row :
      (k : Skill) (rows : List (LearnerSkillState F)) (l id : String)
      → l ≢ learner
      → query_row (is_row l id) (rows ++ row k.skill_id ∷ []) ≡ query_row (is_row l id) rows
  other_row k rows l id h =
      let ne : str_eq learner l ≡ false = ground (arith, h, (str_eq_iff learner l).0) in
      rw (query_row-append (is_row l id) rows (row k.skill_id), is_row-row l id k.skill_id, ne)
        (sym (or_some-none (query_row (is_row l id) rows)))

  new_rows-other :
      (skills : List Skill) (rows : List (LearnerSkillState F)) (l id : String)
      → l ≢ learner
      → query_row (is_row l id) (new_rows row levels skills rows) ≡ query_row (is_row l id) rows
  unfolding new_rows
  new_rows-other [] rows l id h = refl
  new_rows-other (k ∷ skills) rows l id h = elim (Bool-cases (inserts k rows)) [
    | inl e ↦
        ap (query_row (is_row l id)) (new_rows_insert k skills rows e)
        ∙ new_rows-other skills (rows ++ row k.skill_id ∷ []) l id h
        ∙ other_row k rows l id h
    | inr e ↦
        ap (query_row (is_row l id)) (new_rows_skip k skills rows e)
        ∙ new_rows-other skills rows l id h
  ]

module _ {F : Type 0} ⦃fl : Float F⦄ where
  -- The tables after InitializeSkills for a learner that has a profile.
  abbrev pub initialized : Postgres F → (now : ℤ) → String → String → Tables F → Tables F
  initialized pg now learner level t =
      with_learner_skills
        (new_rows (initial_row pg learner now) (levels_within cefr_order (threshold level)) t.skills
          t.learner_skills)
        t

  pub initialize_skills-initialized :
      (pg : Postgres F) (now : ℤ) (learner level : String) (t : Tables F)
      → exists_where (λ p. str_eq p.id learner) t.profiles ≡ true
      → initialize_skills pg now learner level t ≡ some (initialized pg now learner level t)
  unfolding initialize_skills
  initialize_skills-initialized pg now learner level t there =
      let rows = (initialized pg now learner level t).learner_skills in
      elim (Bool-cases (length rows == length t.learner_skills)) [
        | inl e ↦ rw (e, initialize_skills) refl
        | inr e ↦ rw (e, there, initialize_skills) refl
      ]

  -- The rows of the learner.
  pub initialized-own :
      (pg : Postgres F) (now : ℤ) (learner level : String) (t : Tables F) (id : String)
      → get_learner_skill learner id (initialized pg now learner level t)
        ≡ or_some (get_learner_skill learner id t) (
            if offered (levels_within cefr_order (threshold level)) t.skills id
            then some (initial_row pg learner now id)
            else none)
  unfolding get_learner_skill
  initialized-own pg now learner level t id =
      new_rows-query (initial_row pg learner now) (levels_within cefr_order (threshold level))
        learner (λ k. refl) (λ k. refl) t.skills t.learner_skills id

  -- InitializeSkills for a learner that has a profile succeeds, and after it, for every skill: the
  -- learner's row that was there is unchanged; where there was none, there is the new row, with
  -- confidence and stability 0, when the catalogue has the skill at a level up to the given one (up to A1
  -- for a level that is not known), and none otherwise; the row of any other learner is as before.
  pub initialize_skills-get_learner_skill :
      (pg : Postgres F) (now : ℤ) (learner level : String) (t : Tables F) (other id : String)
      → exists_where (λ p. str_eq p.id learner) t.profiles ≡ true
      → other ≢ learner
      → (t' : Tables F) × (initialize_skills pg now learner level t ≡ some t')
        × (get_learner_skill learner id t'
            ≡ or_some (get_learner_skill learner id t) (
                if offered (levels_within cefr_order (threshold level)) t.skills id
                then some (initial_row pg learner now id)
                else none))
        × (get_learner_skill other id t' ≡ get_learner_skill other id t)
  unfolding get_learner_skill
  initialize_skills-get_learner_skill pg now learner level t other id there h = (
    initialized pg now learner level t,
    initialize_skills-initialized pg now learner level t there,
    initialized-own pg now learner level t id,
    new_rows-other (initial_row pg learner now) (levels_within cefr_order (threshold level)) learner
        (λ k. refl) (λ k. refl) t.skills t.learner_skills other id h,
  )
