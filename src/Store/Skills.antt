-- ===== src/Store/Skills.antt =====
-- services/api/internal/store/skill.go: SkillStore. The key of learner_skills is the learner and the skill.
pub mod Laws
pub mod Initial
use ruskiy.Shared.{
  ℕ, ◌==◌, ◌&&◌, ◌||◌, not, if◌then◌else◌, Bool, true, false, Option, none, some, String, str_eq,
  List, [], ◌∷◌, ◌++◌, keep, any, has, ltb, leb, length,
}
use ruskiy.Shared.Int.{ℤ, ltb_ℤ, leb_ℤ}
use ruskiy.Platform.{Float}
use ruskiy.Model.{
  Skill, LearnerSkillState, SkillStatus, new, learning, relearning, review, mastered, fossilized,
  is_new,
}
use ruskiy.Store.Database.{Tables, Postgres, query_row, exists_where, limit}

-- The place of a value among those of its enum.
abbrev pub rank : List String → String → ℕ
rank [] s = 0
rank (v ∷ vs) s = if str_eq v s then 0 else ruskiy.Shared.suc (rank vs s)

abbrev pub category_rank : Skill → ℕ
category_rank k = rank ("grammar" ∷ "vocabulary" ∷ "phonetics" ∷ "pragmatics" ∷ []) k.category

abbrev pub cefr_rank : Skill → ℕ
cefr_rank k = rank ("A1" ∷ "A2" ∷ "B1" ∷ "B2" ∷ "C1" ∷ "C2" ∷ []) k.cefr_level

-- Before and after on the first column of an ORDER BY, and the order on the rest.
abbrev pub then_by : Bool → Bool → Bool → Bool
then_by before after rest = if before then true else if after then false else rest

abbrev pub by_category : Bool → Skill → Skill → Bool
by_category rest a b =
    then_by (ltb (category_rank a) (category_rank b)) (ltb (category_rank b) (category_rank a)) rest

abbrev pub by_cefr : Bool → Skill → Skill → Bool
by_cefr rest a b = then_by (ltb (cefr_rank a) (cefr_rank b)) (ltb (cefr_rank b) (cefr_rank a)) rest

-- The enum skill_status of migration 001.
abbrev pub is_skill_status : SkillStatus → Bool
is_skill_status relearning = false
is_skill_status _ = true

abbrev pub is_due : ℤ → Option ℤ → Bool
is_due now none = false
is_due now (some due) = leb_ℤ due now

abbrev pub due_before : Option ℤ → Option ℤ → Bool
due_before (some a) (some b) = ltb_ℤ a b
due_before (some a) none = true
due_before none b = false

module _ {F : Type 0} where
  abbrev pub by_subcategory : Postgres F → Bool → Skill → Skill → Bool
  by_subcategory pg rest a b =
      then_by (pg.text_lt a.subcategory b.subcategory) (pg.text_lt b.subcategory a.subcategory) rest

  unfoldable pub get_all : Postgres F → Tables F → List Skill
  get_all pg t =
      pg.order_by.sort Skill (λ a b. by_category (by_subcategory pg (by_cefr false a b) a b) a b)
        t.skills

  unfoldable pub get_by_category : Postgres F → String → Tables F → List Skill
  get_by_category pg category t =
      pg.order_by.sort Skill (λ a b. by_subcategory pg (by_cefr false a b) a b)
        (keep (λ k. str_eq k.category category) t.skills)

  unfoldable pub get_by_cefr : Postgres F → String → Tables F → List Skill
  get_by_cefr pg level t =
      pg.order_by.sort Skill (λ a b. by_category (by_subcategory pg false a b) a b)
        (keep (λ k. str_eq k.cefr_level level) t.skills)

  abbrev pub is_row : String → String → LearnerSkillState F → Bool
  is_row learner skill s = str_eq s.learner_id learner && str_eq s.skill_id skill

  abbrev pub of_learner : String → LearnerSkillState F → Bool
  of_learner learner s = str_eq s.learner_id learner

  unfoldable pub get_learner_skills : Postgres F → String → Tables F → List (LearnerSkillState F)
  get_learner_skills pg learner t =
      pg.order_by.sort (LearnerSkillState F) (λ a b. pg.text_lt a.skill_id b.skill_id)
        (keep (of_learner learner) t.learner_skills)

  unfoldable pub get_learner_skill : String → String → Tables F → Option (LearnerSkillState F)
  get_learner_skill learner skill t = query_row (is_row learner skill) t.learner_skills

  abbrev pub with_learner_skills : List (LearnerSkillState F) → Tables F → Tables F
  with_learner_skills rows t = record t { learner_skills = rows }

  -- An instant, where it is not NULL, as a column holds it.
  abbrev pub stored_time : Postgres F → Option ℤ → Option ℤ
  stored_time pg none = none
  stored_time pg (some at) = some (pg.timestamptz at)

  -- The row with the learner of the call, its numbers and its instants as the columns hold them.
  abbrev pub stored_state : Postgres F → String → LearnerSkillState F → LearnerSkillState F
  stored_state pg learner s = record s {
    learner_id = learner;
    confidence = pg.numeric 3 s.confidence;
    stability = pg.numeric 2 s.stability;
    difficulty = pg.numeric 3 s.difficulty;
    last_reviewed = stored_time pg s.last_reviewed;
    next_review_due = stored_time pg s.next_review_due;
  }

  -- INSERT … ON CONFLICT DO UPDATE
  unfoldable pub put_row :
      LearnerSkillState F → List (LearnerSkillState F) → List (LearnerSkillState F)
  put_row s [] = s ∷ []
  put_row s (r ∷ rows) =
      let rest = put_row s rows in if is_row s.learner_id s.skill_id r then s ∷ rows else r ∷ rest

  -- `none` is an error: the status is not of the enum, or the skill or the learner is not there.
  unfoldable pub upsert_learner_skill :
      Postgres F → String → LearnerSkillState F → Tables F → Option (Tables F)
  unfolding put_row
  upsert_learner_skill pg learner s t =
      if is_skill_status s.status
        && exists_where (λ k. str_eq k.skill_id s.skill_id) t.skills
        && exists_where (λ p. str_eq p.id learner) t.profiles
      then some (with_learner_skills (put_row (stored_state pg learner s) t.learner_skills) t)
      else none

  unfoldable pub get_due_for_review :
      Postgres F → (now : ℤ) → String → ℕ → Tables F → List (LearnerSkillState F)
  get_due_for_review pg now learner n t = limit n (
      pg.order_by.sort (LearnerSkillState F) (λ a b. due_before a.next_review_due b.next_review_due)
        (keep (λ s. of_learner learner s && is_due now s.next_review_due) t.learner_skills))

  -- The rows for the skills at the levels that the learner has no row for: ON CONFLICT DO NOTHING.
  unfoldable pub new_rows :
      (String → LearnerSkillState F)
      → (levels : List String) → List Skill
      → List (LearnerSkillState F)
      → List (LearnerSkillState F)
  new_rows row levels [] rows = rows
  new_rows row levels (k ∷ skills) rows =
      let s = row k.skill_id in
      new_rows row levels skills (
        if has k.cefr_level levels && not (exists_where (is_row s.learner_id s.skill_id) rows)
        then rows ++ s ∷ []
        else rows)

  -- All prerequisites of the skill have a row of the learner that passes the test.
  abbrev pub is_unlocked :
      (LearnerSkillState F → Bool) → String → List (LearnerSkillState F) → Skill → Bool
  is_unlocked good learner rows k = not (
      any (λ prereq. not (exists_where (λ s. is_row learner prereq s && good s) rows))
        k.prerequisites)

  unfoldable pub get_skill_prerequisites : String → Tables F → Option (List String)
  get_skill_prerequisites skill t = elim (query_row (λ k. str_eq k.skill_id skill) t.skills) [
    | none ↦ none
    | some k ↦ some k.prerequisites
  ]

  unfoldable pub get_all_skills_with_prereqs : Postgres F → Tables F → List Skill
  get_all_skills_with_prereqs pg t =
      pg.order_by.sort Skill (λ a b. by_cefr (by_category (by_subcategory pg false a b) a b) a b)
        t.skills

abbrev pub cefr_order : List (String × ℕ)
cefr_order = ("A1", 1) ∷ ("A2", 2) ∷ ("B1", 3) ∷ ("B2", 4) ∷ ("C1", 5) ∷ ("C2", 6) ∷ []

abbrev pub order_of : List (String × ℕ) → String → Option ℕ
order_of [] level = none
order_of ((l, n) ∷ rest) level = if str_eq l level then some n else order_of rest level

-- threshold, ok := cefrOrder[cefrLevel]; if !ok { threshold = 1 }
unfoldable pub threshold : String → ℕ
threshold level = elim (order_of cefr_order level) [ none ↦ 1 | some n ↦ n ]

abbrev pub levels_within : List (String × ℕ) → ℕ → List String
levels_within [] n = []
levels_within ((l, o) ∷ rest) n = if leb o n then l ∷ levels_within rest n else levels_within rest n

module _ {F : Type 0} ⦃fl : Float F⦄ where
  unfoldable pub get_weakest : Postgres F → String → ℕ → Tables F → List (LearnerSkillState F)
  get_weakest pg learner n t = limit n (
      pg.order_by.sort (LearnerSkillState F) (λ a b. fl.lt a.confidence b.confidence)
        (keep (λ s. of_learner learner s && not (is_new s.status)) t.learner_skills))

  -- The row that InitializeSkills inserts for a skill.
  abbrev pub initial_row : Postgres F → String → ℤ → String → LearnerSkillState F
  initial_row pg learner now skill = record {
    learner_id = learner;
    skill_id = skill;
    confidence = fl.lit 0 0;
    stability = fl.lit 0 0;
    difficulty = fl.lit 5 1;
    last_reviewed = none;
    next_review_due = some (pg.timestamptz now);
    total_attempts = 0;
    correct_streak = 0;
    error_count = 0;
    error_types = [];
    status = new;
    reps = 0;
    lapses = 0;
  }

  -- `none` is an error: a row is new and the learner has no profile.
  unfoldable pub initialize_skills :
      Postgres F → (now : ℤ) → String → String → Tables F → Option (Tables F)
  unfolding new_rows threshold
  initialize_skills pg now learner cefr_level t =
      let rows =
        new_rows (initial_row pg learner now) (levels_within cefr_order (threshold cefr_level))
          t.skills t.learner_skills in
      if length rows == length t.learner_skills
        || exists_where (λ p. str_eq p.id learner) t.profiles
      then some (with_learner_skills rows t)
      else none

  unfoldable pub get_unlocked_skills : Postgres F → String → F → Tables F → List Skill
  get_unlocked_skills pg learner confidence_threshold t =
      pg.order_by.sort Skill (λ a b. by_cefr (by_category (by_subcategory pg false a b) a b) a b)
        (keep (is_unlocked (λ s. fl.le confidence_threshold s.confidence) learner t.learner_skills)
          t.skills)
