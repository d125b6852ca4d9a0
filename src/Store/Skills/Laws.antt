-- ===== src/Store/Skills/Laws.antt =====
-- What the statements of SkillStore change.
use ruskiy.Shared.{
  Bool-cases, true, false, some, String, str_eq, str_eq_iff, str_eq_self, List, [], ◌∷◌, &&→both,
  ◌≡◌, ◌≢◌, ◌∙◌, if◌then◌else◌, ◌&&◌, sym, refl, arith, ◌⊎◌, inl, inr,
}
use ruskiy.Model.{LearnerSkillState}
use ruskiy.Store.Database.{Tables, Postgres, query_row}
use ruskiy.Store.Skills.{
  is_row, put_row, stored_state, get_learner_skill, upsert_learner_skill, with_learner_skills,
}

module _ {F : Type 0} where
  -- Upsert touches the table learner_skills only.
  pub upsert_learner_skill-tables :
      (pg : Postgres F) (learner : String) (s : LearnerSkillState F) (t t' : Tables F)
      → upsert_learner_skill pg learner s t ≡ some t'
      → t' ≡ with_learner_skills (put_row (stored_state pg learner s) t.learner_skills) t
  unfolding upsert_learner_skill
  upsert_learner_skill-tables pg learner s t t' e = ground (arith, e)

  row_self : (s : LearnerSkillState F) → is_row s.learner_id s.skill_id s ≡ true
  row_self s = rw (str_eq_self s.learner_id, str_eq_self s.skill_id) refl

  query_row-put_row :
      (s : LearnerSkillState F) (rows : List (LearnerSkillState F))
      → query_row (is_row s.learner_id s.skill_id) (put_row s rows) ≡ some s
  unfolding put_row
  query_row-put_row s [] = rw (row_self s) refl
  query_row-put_row s (r ∷ rows) = elim (Bool-cases (is_row s.learner_id s.skill_id r)) [
    | inl e ↦ rw e (rw (row_self s) refl)
    | inr e ↦ rw (e, e) (query_row-put_row s rows)
  ]

  pub is_row-eq :
      (l k : String) (r : LearnerSkillState F)
      → is_row l k r ≡ true
      → (r.learner_id ≡ l) × (r.skill_id ≡ k)
  is_row-eq l k r e =
      let (a, b) = &&→both (str_eq r.learner_id l) (str_eq r.skill_id k) e in
      ((str_eq_iff r.learner_id l).0 a, (str_eq_iff r.skill_id k).0 b)

  is_row-apart :
      (l k l2 k2 : String) (r : LearnerSkillState F)
      → (l2 ≢ l) ⊎ (k2 ≢ k)
      → is_row l k r ≡ true
      → is_row l2 k2 r ≡ false
  is_row-apart l k l2 k2 r apart e = elim (Bool-cases (is_row l2 k2 r)) [
    | inl h ↦
        let (a, b) = is_row-eq l k r e in
        let (a2, b2) = is_row-eq l2 k2 r h in
        elim apart [ inl ne ↦ absurd (ne (sym a2 ∙ a)) | inr ne ↦ absurd (ne (sym b2 ∙ b)) ]
    | inr h ↦ h
  ]

  query_row-put_row_ne :
      (l2 k2 : String) (s : LearnerSkillState F) (rows : List (LearnerSkillState F))
      → (l2 ≢ s.learner_id) ⊎ (k2 ≢ s.skill_id)
      → query_row (is_row l2 k2) (put_row s rows) ≡ query_row (is_row l2 k2) rows
  unfolding put_row
  query_row-put_row_ne l2 k2 s [] apart =
      rw (is_row-apart s.learner_id s.skill_id l2 k2 s apart (row_self s)) refl
  query_row-put_row_ne l2 k2 s (r ∷ rows) apart =
      elim (Bool-cases (is_row s.learner_id s.skill_id r)) [
        | inl e ↦ rw e (
            rw
              (
                is_row-apart s.learner_id s.skill_id l2 k2 s apart (row_self s),
                is_row-apart s.learner_id s.skill_id l2 k2 r apart e,
              )
              refl)
        | inr e ↦ rw (e, query_row-put_row_ne l2 k2 s rows apart) refl
      ]

  pub upsert_learner_skill-own :
      (pg : Postgres F) (learner : String) (s : LearnerSkillState F) (t t' : Tables F)
      → upsert_learner_skill pg learner s t ≡ some t'
      → get_learner_skill learner s.skill_id t' ≡ some (stored_state pg learner s)
  unfolding get_learner_skill
  upsert_learner_skill-own pg learner s t t' e =
      rw (upsert_learner_skill-tables pg learner s t t' e)
        (query_row-put_row (stored_state pg learner s) t.learner_skills)

  pub upsert_learner_skill-other :
      (pg : Postgres F) (learner : String) (s : LearnerSkillState F) (l k : String)
      (t t' : Tables F)
      → upsert_learner_skill pg learner s t ≡ some t'
      → (l ≢ learner) ⊎ (k ≢ s.skill_id)
      → get_learner_skill l k t' ≡ get_learner_skill l k t
  unfolding get_learner_skill
  upsert_learner_skill-other pg learner s l k t t' e apart =
      rw (upsert_learner_skill-tables pg learner s t t' e)
        (query_row-put_row_ne l k (stored_state pg learner s) t.learner_skills apart)

  -- When Upsert succeeds, GetLearnerSkill of the same learner and skill answers with the state that was
  -- given, under the learner of the call and with its numbers and instants rounded as the columns hold
  -- them, and that of any other learner or skill answers as before.
  pub upsert_learner_skill-get_learner_skill :
      (pg : Postgres F) (learner : String) (s : LearnerSkillState F) (l k : String)
      (t t' : Tables F)
      → upsert_learner_skill pg learner s t ≡ some t'
      → get_learner_skill l k t' ≡ (
          if str_eq l learner && str_eq k s.skill_id
          then some (stored_state pg learner s)
          else get_learner_skill l k t)
  upsert_learner_skill-get_learner_skill pg learner s l k t t' e =
      elim (Bool-cases (str_eq l learner)) [
        | inr a ↦ rw a (
            upsert_learner_skill-other pg learner s l k t t' e
              (inl λ q. absurd (ground (arith, a, (str_eq_iff l learner).1 q))))
        | inl a ↦ elim (Bool-cases (str_eq k s.skill_id)) [
          | inr b ↦
              rw (a, b)
                (upsert_learner_skill-other pg learner s l k t t' e
                  (inr λ q. absurd (ground (arith, b, (str_eq_iff k s.skill_id).1 q))))
          | inl b ↦
              rw (a, b, (str_eq_iff l learner).0 a, (str_eq_iff k s.skill_id).0 b)
                (upsert_learner_skill-own pg learner s t t' e)
        ]
      ]
