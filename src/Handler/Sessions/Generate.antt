-- ===== src/Handler/Sessions/Generate.antt =====
-- services/api/internal/handler/session.go: SessionHandler.Generate.
use ruskiy.Shared.{
  is_nil, ℕ, ◌+◌, ◌*◌, ltb, not, if◌then◌else◌, Option, none, some, String, has, has_id, List, [],
  ◌∷◌, ◌++◌, length, map, keep,
}
use ruskiy.Shared.Int.{ℤ, pos, ltb_ℤ}
use ruskiy.Platform.{Float}
use ruskiy.Model.{
  LearnerProfile, Skill, LearnerSkillState, ContentAtom, Session, active, SessionItem,
}
use ruskiy.Engine.Session.Select.{
  SessionConfig, SkillSelection, default_session_config, select_skills,
}
use ruskiy.Engine.Session.Build.{build_session}
use ruskiy.Store.Database.{Tables}
use ruskiy.Store.Sessions
use ruskiy.Store.Sessions.{create_session_items}
use ruskiy.Store.Profiles
use ruskiy.Store.Skills.{
  get_due_for_review, get_weakest, get_learner_skills, initialize_skills, get_unlocked_skills,
}
use ruskiy.Store.Content.{get_by_skills, get_by_skills_any, get_recently_used, increment_usage}
use ruskiy.Handler.Sessions.Submit.{kept_on_error}
use ruskiy.Handler.Sessions.{
  Services, Answer, refused, session_with_items, ask, with_content, find_profile, find_due,
  find_weak, find_skills, find_skills_again, init_skills, find_unlocked, find_by_skills,
  find_by_skills_any, find_recent, insert_session, insert_items, count_usage,
}

pub record GenerateSessionRequest : Type 0 where
  pub learner_id : String
  pub time_budget_minutes : ℤ

-- Between 5 and 60.
unfoldable pub clamp_budget : ℤ → ℤ
clamp_budget n = if ltb_ℤ n (pos 5) then pos 5 else if ltb_ℤ (pos 60) n then pos 60 else n

abbrev pub skill_ids_of : List Skill → List String
skill_ids_of skills = map (λ (k : Skill). k.skill_id) skills

module _ {F : Type 0} where
  abbrev pub selected_skill_ids : List (SkillSelection F) → List String
  selected_skill_ids ss = map (λ (s : SkillSelection F). s.skill.skill_id) ss

  abbrev pub atom_ids : List (ContentAtom F) → List ℕ
  atom_ids cs = map (λ (c : ContentAtom F). c.id) cs

  -- The fallback content that is not among the first.
  unfoldable pub supplement : List (ContentAtom F) → List (ContentAtom F) → List (ContentAtom F)
  supplement first fallback = first ++ keep (λ c. not (has_id c.id (atom_ids first))) fallback

  abbrev pub count_uses : List SessionItem → Tables F → Tables F
  count_uses [] t = t
  count_uses (i ∷ items) t = count_uses items (increment_usage i.content_id t)

module _ {F : Type 0} ⦃fl : Float F⦄ (env : Services F) where
  -- The tables once the learner has skills.
  unfoldable pub ensure_skills : LearnerProfile → Tables F → Tables F
  ensure_skills p t =
      let rows = ask env find_skills [] (get_learner_skills env.pg p.id t) in
      if is_nil rows
      then kept_on_error (env.fails init_skills)
          (initialize_skills env.pg (env.clock 1) p.id p.current_level t) t
      else t

  -- allSkills; `before` are the tables before the skills are initialized.
  unfoldable pub all_skills : LearnerProfile → (before t : Tables F) → List (LearnerSkillState F)
  all_skills p before t =
      let rows = ask env find_skills [] (get_learner_skills env.pg p.id before) in
      if is_nil rows then ask env find_skills_again [] (get_learner_skills env.pg p.id t) else rows

  -- The selected skills. The due and the weak skills are read before the skills are initialized.
  unfoldable pub choose_skills :
      LearnerProfile → SessionConfig F → (before t : Tables F) → List (SkillSelection F)
  unfolding all_skills
  choose_skills p cfg before t =
      let due =
        ask env find_due [] (get_due_for_review env.pg (env.clock 0) p.id cfg.max_items before) in
      let weak = ask env find_weak [] (get_weakest env.pg p.id cfg.max_items before) in
      let unlocked =
        skill_ids_of (ask env find_unlocked [] (get_unlocked_skills env.pg p.id (fl.lit 3 1) t)) in
      select_skills env.sorting due weak (all_skills p before t) cfg (some (λ id. has id unlocked))

  unfoldable pub gather_content :
      LearnerProfile → SessionConfig F → List String → Tables F → List (ContentAtom F)
  unfolding supplement
  gather_content p cfg skill_ids t =
      let first =
        ask env find_by_skills []
          (get_by_skills env.pg skill_ids p.current_level p.segment (cfg.max_items * 3) t) in
      let fallback =
        ask env find_by_skills_any []
          (get_by_skills_any env.pg skill_ids p.current_level (cfg.max_items * 3) t) in
      if ltb (length first) (cfg.max_items * 2) then supplement first fallback else first

  abbrev pub new_session : String → Session F
  new_session learner = record {
    id = env.new_id 0;
    learner_id = learner;
    status = active;
    current_index = 0;
    total_xp = pos 0;
    started_at = env.clock 3;
    completed_at = none;
    duration = pos 0;
    accuracy_rate = fl.lit 0 0;
  }

  -- The IDs of the items follow that of the session.
  unfoldable pub planned_items :
      LearnerProfile → SessionConfig F → List (SkillSelection F) → Tables F → List SessionItem
  unfolding gather_content
  planned_items p cfg selections t =
      build_session env.sorting env.intn (λ i. env.new_id (i + 1)) (env.new_id 0) selections
        (gather_content p cfg (selected_skill_ids selections) t)
        (ask env find_recent [] (get_recently_used env.pg (env.clock 2) p.id 7 t))

  -- CreateSessionItems and the rest, with the session in the tables.
  unfoldable pub store_items : Session F → List SessionItem → Tables F → Answer F × Tables F
  store_items s items t = elim (ask env insert_items none (create_session_items items t)) [
    | none ↦ (refused 500 "failed to create session items", t)
    | some t' ↦
        let counted = if env.fails count_usage then t' else count_uses items t' in
        (session_with_items 201 s (with_content env counted items), counted)
  ]

  -- Behind the selection of skills.
  unfoldable pub create_and_fill : String → List SessionItem → Tables F → Answer F × Tables F
  unfolding store_items
  create_and_fill learner items t =
      let s = new_session learner in
      elim (ask env insert_session none (Sessions.create env.pg s t)) [
        | none ↦ (refused 500 "failed to create session", t)
        | some t' ↦ store_items s items t'
      ]

  -- For a learner that has a profile.
  unfoldable pub generate_for : LearnerProfile → ℤ → Tables F → Answer F × Tables F
  unfolding ensure_skills choose_skills planned_items create_and_fill clamp_budget
  generate_for p minutes t =
      let cfg = default_session_config (clamp_budget minutes) in
      let ready = ensure_skills p t in
      let selections = choose_skills p cfg t ready in
      if is_nil selections
      then (refused 200 "no skills available for session", ready)
      else create_and_fill p.id (planned_items p cfg selections ready) ready

  unfoldable pub generate : Option GenerateSessionRequest → Tables F → Answer F × Tables F
  unfolding generate_for
  generate none t = (refused 400 "invalid request body", t)
  generate (some req) t = elim (ask env find_profile none (Profiles.get_by_id req.learner_id t)) [
    | none ↦ (refused 400 "learner profile not found", t)
    | some p ↦ generate_for p req.time_budget_minutes t
  ]
