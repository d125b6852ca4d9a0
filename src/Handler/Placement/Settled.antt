-- ===== src/Handler/Placement/Settled.antt =====
-- The skills of a learner after SubmitPlacement.
use ruskiy.Shared.{
  ◌&&◌, Bool, Bool-cases, true, false, Option, Option-cases, none, some, String, str_eq, str_eq_iff,
  if◌then◌else◌, List, [], ◌∷◌, any, ◌≡◌, ◌∙◌, sym, refl, arith, ◌⊎◌, inl, inr,
}
use mathlib.Core.Path.{subst}
use ruskiy.Shared.Int.{ℤ}
use ruskiy.Platform.{Float}
use ruskiy.Model.{LearnerProfile, LearnerSkillState, learning, SkillTestResult}
use ruskiy.Store.Database.{
  Tables, Postgres, query_row-update_where, exists_where_of_query_row, query_row-holds,
}
use ruskiy.Store.Sessions.{has_learner, has_skill}
use ruskiy.Store.Profiles
use ruskiy.Store.Skills.{
  is_row, get_learner_skill, upsert_learner_skill, initial_row, stored_state, levels_within,
  cefr_order, threshold,
}
use ruskiy.Store.Skills.Laws.{
  is_row-eq, upsert_learner_skill-own, upsert_learner_skill-other, upsert_learner_skill-tables,
}
use ruskiy.Store.Skills.Initial.{or_some, offered, initialized-own, initialize_skills-initialized}
use ruskiy.Handler.Sessions.{
  Services, find_profile, set_profile_level, init_skills, find_skill, save_skill,
}
use ruskiy.Handler.Placement.{
  passed_state, settle, settle_result, settle_all, placed_level, prepare_skills, submit_placement,
}

-- Some result is a correct answer on the skill.
abbrev pub answered_right : List SkillTestResult → String → Bool
answered_right results k = any (λ r. r.is_correct && str_eq r.skill_id k) results

module _ {F : Type 0} ⦃fl : Float F⦄ where
  -- The state that a correct answer leaves; `pg.numeric` rounds 0.5 to the decimals of the column.
  pub record IsPassed (pg : Postgres F) (s : LearnerSkillState F) : Type 0 where
    pub confidence : s.confidence ≡ pg.numeric 3 (fl.lit 5 1)
    pub status : s.status ≡ learning
    pub attempts : s.total_attempts ≡ 1
    pub streak : s.correct_streak ≡ 1

  -- A row is passed where the test holds, and as it was where it does not.
  abbrev pub Outcome : Postgres F → Bool → LearnerSkillState F → LearnerSkillState F → Type 0
  Outcome pg right s s' = ((right ≡ true) × IsPassed pg s') ⊎ ((right ≡ false) × (s' ≡ s))

  -- The tables have the learner's profile, the skill, and the learner's row for it.
  pub record Ready (learner k : String) (s : LearnerSkillState F) (t : Tables F) : Type 0 where
    pub profile : has_learner learner t ≡ true
    pub skill : has_skill k t ≡ true
    pub row : get_learner_skill learner k t ≡ some s

  module _ (env : Services F) (learner : String) (find_ok : env.fails find_skill ≡ false)
      (save_ok : env.fails save_skill ≡ false) where
    upsert-Ready :
        (k j : String) (s x : LearnerSkillState F) (t t' : Tables F)
        → Ready learner k s t
        → upsert_learner_skill env.pg learner (passed_state x) t ≡ some t'
        → x.skill_id ≡ j
        → (s' : LearnerSkillState F) × Ready learner k s' t' × Outcome env.pg (str_eq j k) s s'
    upsert-Ready k j s x t t' h e same =
        let tables = upsert_learner_skill-tables env.pg learner (passed_state x) t t' e in
        let own = upsert_learner_skill-own env.pg learner (passed_state x) t t' e in
        elim (Bool-cases (str_eq j k)) [
          | inl eq ↦
              let at_k : x.skill_id ≡ k = same ∙ (str_eq_iff j k).0 eq in
              (
                stored_state env.pg learner (passed_state x),
                record {
                  profile = rw tables h.profile;
                  skill = rw tables h.skill;
                  row =
                      subst
                        (λ i.
                          get_learner_skill learner i t'
                          ≡ some (stored_state env.pg learner (passed_state x)))
                        at_k own;
                },
                inl (
                  eq,
                  record { confidence = refl; status = refl; attempts = refl; streak = refl },
                ),
              )
          | inr ne ↦ (
            s,
            record {
              profile = rw tables h.profile;
              skill = rw tables h.skill;
              row =
                  upsert_learner_skill-other env.pg learner (passed_state x) learner k t t' e (
                    inr (λ at_k.
                      absurd (ground (arith, ne, (str_eq_iff j k).1 (sym same ∙ sym at_k)))))
                  ∙ h.row;
            },
            inr (ne, refl),
          )
        ]

    unchanged :
        (k : String) (s : LearnerSkillState F) (t : Tables F) (right : Bool)
        → Ready learner k s t
        → right ≡ false
        → (s' : LearnerSkillState F) × Ready learner k s' t × Outcome env.pg right s s'
    unchanged k s t right h e = (s, h, inr (e, refl))

    upsert-succeeds :
        (k j : String) (s x : LearnerSkillState F) (t : Tables F)
        → Ready learner k s t
        → x.skill_id ≡ j
        → upsert_learner_skill env.pg learner (passed_state x) t ≡ none
        → str_eq j k ≡ false
    unfolding upsert_learner_skill
    upsert-succeeds k j s x t h same e = elim (Bool-cases (str_eq j k)) [
      | inl eq ↦
          let at_k : x.skill_id ≡ k = same ∙ (str_eq_iff j k).0 eq in
          let there : has_skill x.skill_id t ≡ true =
            subst (λ i. has_skill i t ≡ true) (sym at_k) h.skill in
          absurd (ground (arith, (rw (there, h.profile) at e)))
      | inr ne ↦ ne
    ]

    found_skill :
        (j : String) (x : LearnerSkillState F) (t : Tables F)
        → get_learner_skill learner j t ≡ some x
        → x.skill_id ≡ j
    unfolding get_learner_skill
    found_skill j x t e =
        (is_row-eq learner j x (query_row-holds (is_row learner j) t.learner_skills e)).1

    settle_result-Ready :
        (r : SkillTestResult) (k : String) (s : LearnerSkillState F) (t : Tables F)
        (unlocked : List String)
        → Ready learner k s t
        → (s' : LearnerSkillState F) × Ready learner k s' (settle_result env learner r t unlocked).0
          × Outcome env.pg (r.is_correct && str_eq r.skill_id k) s s'
    unfolding settle_result settle
    settle_result-Ready r k s t unlocked h = elim (Bool-cases r.is_correct) [
      | inr wrong ↦ rw wrong (unchanged k s t false h refl)
      | inl right ↦ elim (Option-cases (get_learner_skill learner r.skill_id t)) [
        | inl e ↦
            let other : str_eq r.skill_id k ≡ false = elim (Bool-cases (str_eq r.skill_id k)) [
              | inl eq ↦
                  let none_k : get_learner_skill learner k t ≡ none =
                    subst (λ i. get_learner_skill learner i t ≡ none)
                      ((str_eq_iff r.skill_id k).0 eq) e in
                  absurd (ground (arith, none_k, h.row))
              | inr ne ↦ ne
            ] in
            rw (right, find_ok, e, settle_result, settle, other) (unchanged k s t false h refl)
        | inr (x, e) ↦
            let same = found_skill r.skill_id x t e in
            elim (Option-cases (upsert_learner_skill env.pg learner (passed_state x) t)) [
              | inl u ↦
                  let other = upsert-succeeds k r.skill_id s x t h same u in
                  rw (right, find_ok, e, save_ok, u, settle_result, settle, other)
                    (unchanged k s t false h refl)
              | inr (t', u) ↦
                  rw (right, find_ok, e, save_ok, u, settle_result, settle)
                    (upsert-Ready k r.skill_id s x t t' h u same)
            ]
      ]
    ]

    settle_all-Ready :
        (results : List SkillTestResult) (k : String) (s : LearnerSkillState F) (t : Tables F)
        (unlocked : List String)
        → Ready learner k s t
        → (s' : LearnerSkillState F) × Ready learner k s'
            (settle_all env learner results t unlocked).0
          × Outcome env.pg (answered_right results k) s s'
    unfolding settle_all
    settle_all-Ready [] k s t unlocked h = (s, h, inr (refl, refl))
    settle_all-Ready (r ∷ results) k s t unlocked h =
        let step = settle_result env learner r t unlocked in
        let (s1, h1, o1) = settle_result-Ready r k s t unlocked h in
        let (s2, h2, o2) = settle_all-Ready results k s1 step.0 step.1 h1 in
        (
          s2,
          h2,
          elim o1 [
            | inl (e1, p1) ↦ elim o2 [
              | inl (e2, p2) ↦ inl (rw e1 refl, p2)
              | inr (e2, same) ↦ inl (rw e1 refl, subst (IsPassed env.pg) (sym same) p1)
            ]
            | inr (e1, same1) ↦ elim o2 [
              | inl (e2, p2) ↦ inl (rw (e1, e2) refl, p2)
              | inr (e2, same) ↦ inr (rw (e1, e2) refl, same ∙ same1)
            ]
          ],
        )

  -- The row of the learner for the skill once InitializeSkills has run for a level.
  abbrev pub initialized_row :
      (env : Services F)
      → (learner level : String) → Tables F
      → String
      → Option (LearnerSkillState F)
  initialized_row env learner level t k = or_some (get_learner_skill learner k t) (
      if offered (levels_within cefr_order (threshold level)) t.skills k
      then some (initial_row env.pg learner (env.clock 0) k)
      else none)

  module _ (env : Services F) (learner : String) (p : LearnerProfile) (t : Tables F)
      (has_profile : Profiles.get_by_id learner t ≡ some p) where
    leveled_profile :
        (level : String) → has_learner learner (Profiles.update_level learner level t) ≡ true
    unfolding Profiles.update_level Profiles.get_by_id
    leveled_profile level =
        exists_where_of_query_row (λ q. str_eq q.id learner) _
          (query_row-update_where (λ q. str_eq q.id learner) (Profiles.at_level level) (λ q h. h)
            t.profiles has_profile)

    prepared-Ready :
        (level k : String) (s : LearnerSkillState F)
        → env.fails set_profile_level ≡ false
        → env.fails init_skills ≡ false
        → has_skill k t ≡ true
        → initialized_row env learner level t k ≡ some s
        → Ready learner k s (prepare_skills env learner level t)
    unfolding prepare_skills Profiles.update_level get_learner_skill
    prepared-Ready level k s level_ok init_ok skill row =
        let leveled = Profiles.update_level learner level t in
        let own = initialized-own env.pg (env.clock 0) learner level leveled k in
        rw
          (
            level_ok,
            init_ok,
            initialize_skills-initialized env.pg (env.clock 0) learner level leveled
                (leveled_profile level),
          )
          (record { profile = leveled_profile level; skill = skill; row = own ∙ row })

    -- For a learner that has a profile, where the database answers without errors, SubmitPlacement leaves
    -- for every skill of the catalogue for which the learner had a row, or which is offered up to the
    -- determined level: confidence 0.5 as the column holds it, the status learning, one attempt and a
    -- streak of one, when some result is a correct answer on it, whatever the row was; and otherwise
    -- the row that was there, or the new one.
    pub submit_placement-Outcome :
        (results : List SkillTestResult) (stopped_stage : ℤ) (k : String) (s : LearnerSkillState F)
        → env.fails find_profile ≡ false
        → env.fails find_skill ≡ false
        → env.fails save_skill ≡ false
        → env.fails set_profile_level ≡ false
        → env.fails init_skills ≡ false
        → has_skill k t ≡ true
        → initialized_row env learner (placed_level env results stopped_stage) t k ≡ some s
        → let (answer, t') = submit_placement env (some (learner, results, stopped_stage)) t in
          (s' : LearnerSkillState F) × (get_learner_skill learner k t' ≡ some s')
          × Outcome env.pg (answered_right results k) s s'
    unfolding submit_placement
    submit_placement-Outcome results stopped_stage k s profile_ok find_ok save_ok level_ok init_ok
          skill row =
        let level = placed_level env results stopped_stage in
        let (s', h, o) =
          settle_all-Ready env learner find_ok save_ok results k s
            (prepare_skills env learner level t) []
            (prepared-Ready level k s level_ok init_ok skill row) in
        rw (profile_ok, has_profile, submit_placement) (s', h.row, o)
