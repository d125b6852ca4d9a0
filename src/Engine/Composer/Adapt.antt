-- ===== src/Engine/Composer/Adapt.antt =====
-- services/api/internal/engine/session_composer.go: EvaluateAdaptation and what it calls. A function
-- that changes the session returns the new session with its result. An index is not negative.
pub mod Search
pub mod Laws
use ruskiy.Shared.{
  ℕ, zero, suc, ◌+◌, ◌-◌, ◌*◌, ◌/◌, ◌==◌, ltb, leb, not, ◌&&◌, ◌||◌, if◌then◌else◌, Bool, true,
  false, List, [], ◌∷◌, length, drop, set, get_elem?, last?, has, Option, none, some, String,
}
use ruskiy.Shared.Int.{ℤ, pos, negsuc, ◌+ℤ◌, ◌-ℤ◌, leb_ℤ}
use ruskiy.Platform.{Float}
use ruskiy.Model.{SessionItemRole, is_cooldown}
use ruskiy.Engine.Data.{ContentSelection, ComposedItem, ComposedSession, item_time, effective_time}

pub record ExerciseAttempt : Type 0 where
  pub content_id : String
  pub skill_id : String
  pub is_correct : Bool
  pub response_time_ms : ℤ
  pub estimated_time_s : ℤ

pub record AdaptationResult : Type 0 where
  pub adapted : Bool
  pub replaced_index : ℕ
  pub reason : String

abbrev pub not_adapted : AdaptationResult
not_adapted = record { adapted = false; replaced_index = 0; reason = "" }

abbrev pub adapted_at : ℕ → String → AdaptationResult
adapted_at i why = record { adapted = true; replaced_index = i; reason = why }

abbrev pub all_incorrect : List ExerciseAttempt → Bool
all_incorrect [] = true
all_incorrect (a ∷ as_) = if a.is_correct then false else all_incorrect as_

-- The last three attempts are incorrect.
unfoldable pub is_struggling : List ExerciseAttempt → Bool
is_struggling results =
    if ltb (length results) 3 then false else all_incorrect (drop (length results - 3) results)

-- estMs > 0 && ResponseTimeMs >= estMs/2, for estMs = EstimatedTimeS * 1000
abbrev pub too_slow : ℤ → ℤ → Bool
too_slow (pos zero) response = false
too_slow (pos (suc s)) response = leb_ℤ (pos (suc s * 1000 / 2)) response
too_slow (negsuc _) response = false

abbrev pub all_fast : List ExerciseAttempt → Bool
all_fast [] = true
all_fast (a ∷ as_) =
    if not a.is_correct
    then false
    else if too_slow a.estimated_time_s a.response_time_ms
    then false
    else all_fast as_

-- The last five attempts are correct and fast.
unfoldable pub is_coasting : List ExerciseAttempt → Bool
is_coasting results =
    if ltb (length results) 5 then false else all_fast (drop (length results - 5) results)

-- results[len(results)-1].SkillID, for results that are not empty.
abbrev pub last_skill : List ExerciseAttempt → String
last_skill results = elim (last? results) [ none ↦ "" | some a ↦ a.skill_id ]

module _ {F : Type 0} where
  -- session.Items[i] = it, with the change of TotalEstTime.
  unfoldable pub replace_item :
      ComposedSession F → ℕ → ComposedItem F → ComposedItem F → ComposedSession F
  replace_item s i old new = record s {
    items = set s.items i new;
    total_est_time = s.total_est_time +ℤ (pos (item_time new) -ℤ pos (item_time old));
  }

module _ {F : Type 0} ⦃fl : Float F⦄ where
  abbrev pub harder_than : Option (ContentSelection F) → ContentSelection F → Bool
  harder_than none cs = true
  harder_than (some best) cs = fl.lt best.content.difficulty cs.content.difficulty

  -- if fits { if best == nil || cs.Content.Difficulty > best.Content.Difficulty { best = cs } }
  abbrev pub keep_harder :
      Bool → Option (ContentSelection F) → ContentSelection F → Option (ContentSelection F)
  keep_harder fits best cs = if fits then if harder_than best cs then some cs else best else best

  abbrev pub is_easier : String → F → ContentSelection F → Bool
  is_easier skill current cs =
      if fl.lt cs.content.difficulty current
      then if fl.lt cs.content.difficulty (fl.lit 4 1)
        then has skill cs.content.target_skills
        else false
      else false

  -- The loop over contentPool of adaptForStruggling, from the match found so far.
  unfoldable pub easier_match :
      String
      → F
      → Option (ContentSelection F)
      → List (ContentSelection F)
      → Option (ContentSelection F)
  easier_match skill current best [] = best
  easier_match skill current best (cs ∷ pool) =
      easier_match skill current (keep_harder (is_easier skill current cs) best cs) pool

  abbrev pub with_content : ComposedItem F → ContentSelection F → ℕ → ℕ → ComposedItem F
  with_content it cs i hint = record {
    content = cs;
    role = it.role;
    position = i;
    hint_level = hint;
    difficulty = cs.content.difficulty;
  }

  abbrev pub use_easier :
      ComposedSession F
      → ℕ
      → ComposedItem F
      → Option (ContentSelection F)
      → ComposedSession F × AdaptationResult
  use_easier s i it none = (
    record s { items = set s.items i (record it { hint_level = 1 }) },
    adapted_at i "hint_added_no_easier_variant",
  )
  use_easier s i it (some cs) =
      (replace_item s i it (with_content it cs i 1), adapted_at i "easier_variant_with_hints")

  unfoldable pub adapt_for_struggling :
      ComposedSession F
      → List ExerciseAttempt
      → ℕ
      → List (ContentSelection F)
      → ComposedSession F × AdaptationResult
  adapt_for_struggling s results current pool = elim (get_elem? s.items (current + 1)) [
    | none ↦ (s, not_adapted)
    | some it ↦
        use_easier s (current + 1) it (easier_match (last_skill results) it.difficulty none pool)
  ]

  -- The loop over contentPool of adaptForCoasting: the hardest one from origDiff+0.15 on.
  unfoldable pub harder_match :
      F → Option (ContentSelection F) → List (ContentSelection F) → Option (ContentSelection F)
  harder_match orig best [] = best
  harder_match orig best (cs ∷ pool) =
      harder_match orig
        (keep_harder (fl.le (fl.add orig (fl.lit 15 2)) cs.content.difficulty) best cs) pool

  -- The loop over the upcoming items: the first one, no cooldown, that has harder content.
  unfoldable pub find_harder :
      ℕ
      → List (ComposedItem F)
      → List (ContentSelection F)
      → Option (ℕ × ComposedItem F × ContentSelection F)
  find_harder i [] pool = none
  find_harder i (it ∷ its) pool =
      let rest = find_harder (i + 1) its pool in
      if is_cooldown it.role
      then rest
      else elim (harder_match it.difficulty none pool) [ none ↦ rest | some cs ↦ some (i, it, cs) ]

  abbrev pub use_harder :
      ComposedSession F
      → Option (ℕ × ComposedItem F × ContentSelection F)
      → ComposedSession F × AdaptationResult
  use_harder s none = (s, not_adapted)
  use_harder s (some (i, it, cs)) =
      (replace_item s i it (with_content it cs i 0), adapted_at i "harder_variant_for_coasting")

  unfoldable pub adapt_for_coasting :
      ComposedSession F → ℕ → List (ContentSelection F) → ComposedSession F × AdaptationResult
  adapt_for_coasting s current pool =
      use_harder s (find_harder (current + 1) (drop (current + 1) s.items) pool)

  unfoldable pub evaluate_adaptation :
      ComposedSession F
      → List ExerciseAttempt
      → ℕ
      → List (ContentSelection F)
      → ComposedSession F × AdaptationResult
  evaluate_adaptation s results current pool =
      if length results == 0 || leb (length s.items) (current + 1)
      then (s, not_adapted)
      else if is_struggling results
      then adapt_for_struggling s results current pool
      else if is_coasting results
      then adapt_for_coasting s current pool
      else (s, not_adapted)
