-- ===== src/Store/Content.antt =====
-- services/api/internal/store/content.go: ContentStore. Search looks into the JSON of the content, which
-- the model leaves out, and is left out too.
use ruskiy.Shared.{
  ℕ, ◌+◌, ◌==◌, ◌&&◌, if◌then◌else◌, Bool, true, false, Option, none, some, String, str_eq, List,
  [], ◌∷◌, map, keep, any, has, has_id, ltb,
}
use ruskiy.Shared.Int.{ℤ, pos, leb_ℤ, ◌-ℤ◌, ◌*ℤ◌}
use ruskiy.Platform.{Float}
use ruskiy.Model.{ContentAtom, ExerciseResult}
use ruskiy.Store.Database.{Tables, Postgres, query_row, update_where, exists_where, limit}

-- SELECT DISTINCT
abbrev pub distinct : List ℕ → List ℕ
distinct [] = []
distinct (x ∷ xs) = if has_id x xs then distinct xs else x ∷ distinct xs

abbrev pub content_ids : List ExerciseResult → List ℕ
content_ids rs = map (λ (r : ExerciseResult). r.content_id) rs

abbrev pub is_exercise : String → Option String → Bool
is_exercise type none = false
is_exercise type (some t) = str_eq t type

module _ {F : Type 0} where
  unfoldable pub get_by_id : ℕ → Tables F → Option (ContentAtom F)
  get_by_id id t = query_row (λ c. c.id == id) t.content

  -- target_skills && $1
  abbrev pub overlaps : List String → ContentAtom F → Bool
  overlaps skill_ids c = any (λ s. has s c.target_skills) skill_ids

  abbrev pub used_once_more : ContentAtom F → ContentAtom F
  used_once_more c = record c { usage_count = c.usage_count + 1 }

  abbrev pub with_content : List (ContentAtom F) → Tables F → Tables F
  with_content content t = record t { content = content }

  unfoldable pub increment_usage : ℕ → Tables F → Tables F
  increment_usage id t = with_content (update_where (λ c. c.id == id) used_once_more t.content) t

  -- The session of a result belongs to the learner.
  abbrev pub is_result_of : String → Tables F → ExerciseResult → Bool
  is_result_of learner t r =
      exists_where (λ s. s.id == r.session_id && str_eq s.learner_id learner) t.sessions

  -- `now` in nanoseconds; the zone has no change of the clock within the days.
  unfoldable pub get_recently_used : Postgres F → (now : ℤ) → String → ℕ → Tables F → List ℕ
  get_recently_used pg now learner days t =
      let cutoff = now -ℤ pos days *ℤ pos 86_400_000_000_000 in
      pg.order_by.sort ℕ ltb (
        distinct (
          content_ids (keep (λ r. is_result_of learner t r && leb_ℤ cutoff r.timestamp) t.results)))

module _ {F : Type 0} ⦃fl : Float F⦄ where
  -- ORDER BY quality_score DESC, usage_count ASC
  abbrev pub better_content : ContentAtom F → ContentAtom F → Bool
  better_content a b =
      if fl.lt b.quality_score a.quality_score
      then true
      else if fl.lt a.quality_score b.quality_score
      then false
      else ltb a.usage_count b.usage_count

  abbrev pub best_content : Postgres F → ℕ → List (ContentAtom F) → List (ContentAtom F)
  best_content pg n content = limit n (pg.order_by.sort (ContentAtom F) better_content content)

  unfoldable pub get_by_skills :
      Postgres F → List String → String → String → ℕ → Tables F → List (ContentAtom F)
  get_by_skills pg skill_ids cefr_level segment n t = best_content pg n (
      keep
        (λ c. overlaps skill_ids c && str_eq c.cefr_level cefr_level && has segment c.segment_tags)
        t.content)

  unfoldable pub get_by_skills_any :
      Postgres F → List String → String → ℕ → Tables F → List (ContentAtom F)
  get_by_skills_any pg skill_ids cefr_level n t =
      if str_eq cefr_level ""
      then best_content pg n (keep (overlaps skill_ids) t.content)
      else best_content pg n
          (keep (λ c. overlaps skill_ids c && str_eq c.cefr_level cefr_level) t.content)

  unfoldable pub get_by_exercise_type :
      Postgres F → String → String → ℕ → Tables F → List (ContentAtom F)
  get_by_exercise_type pg exercise_type cefr_level n t = best_content pg n (
      keep (λ c. is_exercise exercise_type c.exercise_type && str_eq c.cefr_level cefr_level)
        t.content)
