-- ===== src/Store/Profiles.antt =====
-- services/api/internal/store/profile.go: ProfileStore, on the columns of LearnerProfile. The table is in
-- the order of created_at, which the code sets to the time of the insertion. UpdateOnboardingData
-- writes a column that no code reads and is left out.
use ruskiy.Shared.{
  ◌&&◌, not, if◌then◌else◌, Bool, Option, none, some, String, str_eq, List, [], ◌∷◌, ◌++◌, keep,
  has,
}
use ruskiy.Model.{LearnerProfile}
use ruskiy.Store.Database.{Tables, query_row, update_where, exists_where}

abbrev pub at_level : String → LearnerProfile → LearnerProfile
at_level level p = record p { current_level = level }

-- The enums learner_segment, domain_focus and cefr_level of migration 001.
abbrev pub segments : List String
segments = "toddler" ∷ "kid" ∷ "teen" ∷ "uni_prep" ∷ "migrant" ∷ "senior" ∷ []

abbrev pub domains : List String
domains = "general" ∷ "medical" ∷ "engineering" ∷ "humanities" ∷ "business" ∷ "law" ∷ []

abbrev pub cefr_levels : List String
cefr_levels = "A1" ∷ "A2" ∷ "B1" ∷ "B2" ∷ "C1" ∷ "C2" ∷ []

-- The target level is checked by the handler alone, against the same values.
unfoldable pub in_enums : LearnerProfile → Bool
in_enums p = has p.segment segments && has p.domain domains && has p.current_level cefr_levels

module _ {F : Type 0} where
  abbrev pub with_profiles : List LearnerProfile → Tables F → Tables F
  with_profiles profiles t = record t { profiles = profiles }

  -- `has_user` is whether a user is in the table users.
  unfoldable pub create : (has_user : String → Bool) → LearnerProfile → Tables F → Option (Tables F)
  unfolding in_enums
  create has_user p t =
      if not (exists_where (λ q. str_eq q.id p.id) t.profiles) && has_user p.user_id && in_enums p
      then some (with_profiles (t.profiles ++ p ∷ []) t)
      else none

  unfoldable pub get_by_id : String → Tables F → Option LearnerProfile
  get_by_id id t = query_row (λ p. str_eq p.id id) t.profiles

  unfoldable pub list_by_user_id : String → Tables F → List LearnerProfile
  list_by_user_id user_id t = keep (λ p. str_eq p.user_id user_id) t.profiles

  unfoldable pub update_level : String → String → Tables F → Tables F
  update_level learner level t =
      with_profiles (update_where (λ p. str_eq p.id learner) (at_level level) t.profiles) t
