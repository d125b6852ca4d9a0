-- ===== src/Engine/Selector/Variety.antt =====
-- services/api/internal/engine/content_selector.go: getExerciseType, selectionsTypeMatch, hasLongRun
-- and enforceVariety. The loops over an index i < len(...) are over the rounds that are left.
pub mod Laws
use ruskiy.Shared.{
  ℕ, zero, suc, ◌+◌, ◌-◌, ltb, leb, not, ◌&&◌, if◌then◌else◌, Bool, true, false, List, [], ◌∷◌,
  length, get_elem?, set, drop, Option, none, some, String, str_eq,
}
use ruskiy.Engine.Data.{ContentSelection}
use ruskiy.Engine.Selector.Pick.{type_of}

module _ {F : Type 0} where
  unfoldable pub get_exercise_type : ContentSelection F → String
  get_exercise_type s = type_of s.content.exercise_type

  -- getExerciseType(sels[i]), for an index in range.
  unfoldable pub type_at : List (ContentSelection F) → ℕ → String
  unfolding get_exercise_type
  type_at sels i = elim (get_elem? sels i) [ none ↦ "" | some s ↦ get_exercise_type s ]

  -- for k := 1; k <= runLen; k++, from the last k on
  unfoldable pub run_matches : List (ContentSelection F) → ℕ → ℕ → Bool
  run_matches sels i zero = true
  run_matches sels i (suc k) =
      run_matches sels i k && str_eq (type_at sels (i - suc k)) (type_at sels i)

  unfoldable pub selections_type_match : List (ContentSelection F) → (end_idx run_len : ℕ) → Bool
  unfolding run_matches
  selections_type_match sels end_idx run_len =
      if ltb end_idx run_len then false else run_matches sels end_idx run_len

  unfoldable pub long_run_from : (rounds i max_run : ℕ) → List (ContentSelection F) → Bool
  long_run_from zero i max_run sels = false
  long_run_from (suc rounds) i max_run sels =
      let rest = long_run_from rounds (suc i) max_run sels in
      if selections_type_match sels i max_run then true else rest

  unfoldable pub has_long_run : List (ContentSelection F) → ℕ → Bool
  unfolding long_run_from
  has_long_run sels max_run = long_run_from (length sels - max_run) max_run max_run sels

  -- The loop over j: the elements from the index `j` on are `later`.
  unfoldable pub other_type :
      String → ℕ → List (ContentSelection F) → Option (ℕ × ContentSelection F)
  other_type t j [] = none
  other_type t j (s ∷ later) =
      let rest = other_type t (suc j) later in
      if str_eq (get_exercise_type s) t then rest else some (j, s)

  unfoldable pub swap_with :
      List (ContentSelection F) → ℕ → Option (ℕ × ContentSelection F) → List (ContentSelection F)
  swap_with sels i none = sels
  swap_with sels i (some (j, s)) = elim (get_elem? sels i) [
    | none ↦ sels
    | some x ↦ set (set sels i s) j x
  ]

  -- The body of the loop over i.
  unfoldable pub break_run : List (ContentSelection F) → ℕ → List (ContentSelection F)
  unfolding swap_with other_type
  break_run sels i =
      if selections_type_match sels i 3
      then swap_with sels i (other_type (type_at sels i) (suc i) (drop (suc i) sels))
      else sels

  unfoldable pub sweep : (rounds i : ℕ) → List (ContentSelection F) → List (ContentSelection F)
  unfolding break_run
  sweep zero i sels = sels
  sweep (suc rounds) i sels = sweep rounds (suc i) (break_run sels i)

  unfoldable pub attempts : ℕ → List (ContentSelection F) → List (ContentSelection F)
  unfolding sweep has_long_run
  attempts zero sels = sels
  attempts (suc n) sels =
      let rest = attempts n (sweep (length sels - 3) 3 sels) in
      if has_long_run sels 3 then rest else sels

  unfoldable pub enforce_variety : List (ContentSelection F) → List (ContentSelection F)
  unfolding attempts
  enforce_variety sels = if leb (length sels) 3 then sels else attempts 10 sels
