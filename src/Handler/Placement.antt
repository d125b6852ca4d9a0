-- ===== src/Handler/Placement.antt =====
-- services/api/internal/handler/placement.go: PlacementHandler, with the services of Handler/Sessions. The
-- cap on the level is in Engine/Session/Placement. The names of the stages for the user are left out.
pub mod Settled
pub mod Letters
pub mod Fits
use ruskiy.Shared.{
  ℕ, suc, ◌+◌, ◌==◌, ltb, leb, ◌&&◌, if◌then◌else◌, Bool, true, false, Option, none, some, String,
  List, [], ◌∷◌, ◌++◌, length, is_nil, count_by,
}
use ruskiy.Shared.Int.{ℤ, pos}
use ruskiy.Platform.{Float}
use ruskiy.Model.{ContentAtom, LearnerSkillState, learning, SkillTestResult}
use ruskiy.Engine.Session.Placement.{determine_placement_level, cap_level}
use ruskiy.Store.Database.{Tables}
use ruskiy.Store.Profiles
use ruskiy.Store.Skills.{initialize_skills, get_learner_skill, upsert_learner_skill}
use ruskiy.Store.Content.{get_by_skills_any}
use ruskiy.Handler.Sessions.{
  Services, ask, find_profile, set_profile_level, init_skills, find_skill, save_skill,
  find_by_skills_any, find_by_skill_anywhere,
}
use ruskiy.Handler.Sessions.Submit.{kept_on_error}

pub record PlacementStage : Type 0 where
  pub name : String
  pub skills : List String
  pub level : String
  pub min_pass : ℕ
  pub max_items : ℕ

abbrev pub stage : String → List String → String → (min_pass : ℕ) → PlacementStage
stage name skills level min_pass = record {
  name = name;
  skills = skills;
  level = level;
  min_pass = min_pass;
  max_items = 3;
}

abbrev pub stages : List PlacementStage
stages =
    stage "cyrillic_letters" ("script.cyrillic.cognates" ∷ []) "A1" 2
    ∷ stage "basic_words" ("vocab.greetings" ∷ "vocab.numbers.1_20" ∷ []) "A1" 2
    ∷ stage "basic_grammar"
        ("grammar.cases.nominative.singular" ∷ "grammar.verbs.present.first_conj" ∷ []) "A1" 1
    ∷ stage "elementary"
        ("grammar.cases.accusative.inanimate" ∷ "grammar.cases.prepositional.location"
          ∷ "grammar.verbs.past" ∷ [])
        "A1" 2
    ∷ stage "pre_intermediate"
        ("grammar.cases.genitive.singular" ∷ "grammar.verbs.aspect.intro"
          ∷ "phonetics.vowels.reduction" ∷ [])
        "A2" 2
    ∷ stage "intermediate"
        ("grammar.cases.dative.singular" ∷ "grammar.cases.instrumental.singular"
          ∷ "grammar.verbs.aspect.usage" ∷ [])
        "B1" 2
    ∷ []

pub record PlacementItem (F : Type 0) : Type 0 where
  pub skill_id : String
  pub cefr_level : String
  pub stage : String
  pub stage_index : ℕ
  pub content : ContentAtom F

pub record PlacementResult : Type 0 where
  pub determined_level : String
  pub skill_results : List SkillTestResult
  pub total_correct : ℕ
  pub total_questions : ℕ
  pub unlocked_skills : List String

pub data PlacementAnswer (F : Type 0) : Type 0 where
  refused : (status : ℕ) → (error : String) → PlacementAnswer F
  placement_test :
      (learner : String)
      → List (PlacementItem F)
      → (total : ℕ) → (stage_min_pass : List ℕ) → PlacementAnswer F
  placement_result : PlacementResult → PlacementAnswer F

abbrev pub min_passes : List PlacementStage → List ℕ
min_passes [] = []
min_passes (s ∷ ss) = s.min_pass ∷ min_passes ss

module _ {F : Type 0} ⦃fl : Float F⦄ where
  -- The best of the atoms by quality, the first one of equals.
  abbrev pub best_quality : ContentAtom F → List (ContentAtom F) → ContentAtom F
  best_quality best [] = best
  best_quality best (a ∷ atoms) =
      best_quality (if fl.lt best.quality_score a.quality_score then a else best) atoms

  abbrev pub first_easy : ContentAtom F → List (ContentAtom F) → ContentAtom F
  first_easy best [] = best
  first_easy best (a ∷ atoms) =
      let rest = first_easy best atoms in if fl.le a.difficulty (fl.lit 35 2) then a else rest

  -- The atom for a question, of those that the database answered with.
  unfoldable pub pick_atom :
      (stage_index : ℕ) → ContentAtom F → List (ContentAtom F) → ContentAtom F
  pick_atom stage_index a atoms =
      let best = best_quality a atoms in
      if stage_index == 0 && fl.lt (fl.lit 35 2) best.difficulty && ltb 1 (length (a ∷ atoms))
      then first_easy best (a ∷ atoms)
      else best

  abbrev pub passed_state : LearnerSkillState F → LearnerSkillState F
  passed_state s = record s {
    confidence = fl.lit 5 1;
    status = learning;
    total_attempts = 1;
    correct_streak = 1;
  }

  module _ (env : Services F) where
    abbrev pub atoms_for : String → String → Tables F → List (ContentAtom F)
    atoms_for skill level t =
        let at_level =
          ask env find_by_skills_any [] (get_by_skills_any env.pg (skill ∷ []) level 3 t) in
        if is_nil at_level
        then ask env find_by_skill_anywhere [] (get_by_skills_any env.pg (skill ∷ []) "" 3 t)
        else at_level

    abbrev pub question :
        PlacementStage → ℕ → String → List (ContentAtom F) → List (PlacementItem F)
    question s i skill [] = []
    question s i skill (a ∷ atoms) =
        record {
          skill_id = skill;
          cefr_level = s.level;
          stage = s.name;
          stage_index = i;
          content = pick_atom i a atoms;
        }
        ∷ []

    -- The loop over the skills of a stage.
    unfoldable pub stage_items :
        PlacementStage
        → ℕ
        → List String
        → Tables F
        → List (PlacementItem F)
        → List (PlacementItem F)
    unfolding pick_atom
    stage_items s i [] t items = items
    stage_items s i (skill ∷ skills) t items =
        let rest =
          stage_items s i skills t (items ++ question s i skill (atoms_for skill s.level t)) in
        if leb s.max_items (length items) then items else rest

    abbrev pub all_items : ℕ → List PlacementStage → Tables F → List (PlacementItem F)
    all_items i [] t = []
    all_items i (s ∷ ss) t = stage_items s i s.skills t [] ++ all_items (suc i) ss t

    unfoldable pub generate_placement : Option String → Tables F → PlacementAnswer F
    unfolding stage_items
    generate_placement none t = refused 400 "invalid request body"
    generate_placement (some learner) t =
        let items = all_items 0 stages t in
        elim (ask env find_profile none (Profiles.get_by_id learner t)) [
          | none ↦ refused 400 "learner profile not found"
          | some p ↦ placement_test learner items (length items) (min_passes stages)
        ]

    -- A correct answer on a skill that the learner has.
    unfoldable pub settle : String → String → Tables F → Option (Tables F)
    settle learner skill t = elim (ask env find_skill none (get_learner_skill learner skill t)) [
      | none ↦ none
      | some s ↦ some (
          kept_on_error (env.fails save_skill)
            (upsert_learner_skill env.pg learner (passed_state s) t) t)
    ]

    -- The body of the loop over the results: the tables and the unlocked skills.
    unfoldable pub settle_result :
        String → SkillTestResult → Tables F → List String → Tables F × List String
    unfolding settle
    settle_result learner r t unlocked =
        if r.is_correct
        then elim (settle learner r.skill_id t) [
          | none ↦ (t, unlocked)
          | some t' ↦ (t', unlocked ++ r.skill_id ∷ [])
        ]
        else (t, unlocked)

    unfoldable pub settle_all :
        String → List SkillTestResult → Tables F → List String → Tables F × List String
    unfolding settle_result
    settle_all learner [] t unlocked = (t, unlocked)
    settle_all learner (r ∷ results) t unlocked =
        let (t', unlocked') = settle_result learner r t unlocked in
        settle_all learner results t' unlocked'

    abbrev pub placed_level : List SkillTestResult → (stopped_stage : ℤ) → String
    placed_level results stopped_stage =
        cap_level (determine_placement_level F results) stopped_stage

    -- The profile and the skills at the determined level; the errors are only logged.
    unfoldable pub prepare_skills : String → String → Tables F → Tables F
    prepare_skills learner level t =
        let leveled =
          if env.fails set_profile_level then t else Profiles.update_level learner level t in
        kept_on_error (env.fails init_skills)
          (initialize_skills env.pg (env.clock 0) learner level leveled) leveled

    unfoldable pub submit_placement :
        Option (String × List SkillTestResult × ℤ) → Tables F → PlacementAnswer F × Tables F
    unfolding settle_all prepare_skills
    submit_placement none t = (refused 400 "invalid request body", t)
    submit_placement (some (learner, results, stopped_stage)) t =
        let level = placed_level results stopped_stage in
        let (settled, unlocked) = settle_all learner results (prepare_skills learner level t) [] in
        elim (ask env find_profile none (Profiles.get_by_id learner t)) [
          | none ↦ (refused 400 "learner profile not found", t)
          | some p ↦ (
            placement_result (record {
              determined_level = level;
              skill_results = results;
              total_correct = count_by (λ r. r.is_correct) results;
              total_questions = length results;
              unlocked_skills = unlocked;
            }),
            settled,
          )
        ]
