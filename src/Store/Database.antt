-- ===== src/Store/Database.antt =====
-- The tables that services/api/internal/store reads and writes, and what its SQL leaves to PostgreSQL. A
-- table is the list of its rows; the queries of the stores are functions on it.
use ruskiy.Shared.{
  ℕ, if◌then◌else◌, Bool, true, false, Option, none, some, String, List, [], ◌∷◌, take, ◌≡◌, refl,
  arith, inl, inr, Bool-cases, Option-cases,
}
use mathlib.Core.Path.{subst}
use ruskiy.Shared.Int.{ℤ}
use ruskiy.Platform.{SortSlice}
use ruskiy.Model.{
  LearnerProfile, Skill, LearnerSkillState, ContentAtom, Session, SessionItem, ExerciseResult,
}
use ruskiy.Store.Streak.{Streaks}

pub record Tables (F : Type 0) : Type 0 where
  pub profiles : List LearnerProfile
  pub skills : List Skill
  pub learner_skills : List (LearnerSkillState F)
  pub content : List (ContentAtom F)
  pub sessions : List (Session F)
  pub session_items : List SessionItem
  pub results : List ExerciseResult
  pub streaks : Streaks

-- ORDER BY, the order of the collation, the rounding of a number to the decimals of its column, and of an
-- instant in nanoseconds to the microseconds of a TIMESTAMPTZ.
pub record Postgres (F : Type 0) : Type 1 where
  pub order_by : SortSlice
  pub text_lt : String → String → Bool
  pub numeric : (decimals : ℕ) → F → F
  pub timestamptz : ℤ → ℤ

module _ {A : Type 0} where
  -- The row of QueryRow; `none` is its error ErrNoRows.
  abbrev pub query_row : (A → Bool) → List A → Option A
  query_row p [] = none
  query_row p (x ∷ xs) = let rest = query_row p xs in if p x then some x else rest

  abbrev pub update_where : (A → Bool) → (A → A) → List A → List A
  update_where p f [] = []
  update_where p f (x ∷ xs) = (if p x then f x else x) ∷ update_where p f xs

  abbrev pub exists_where : (A → Bool) → List A → Bool
  exists_where p [] = false
  exists_where p (x ∷ xs) = if p x then true else exists_where p xs

  -- LIMIT $n; no caller passes a negative number.
  abbrev pub limit : ℕ → List A → List A
  limit n xs = take n xs

  -- The row that an update leaves, where it keeps what the query looks for.
  pub query_row-update_where :
      (p : A → Bool) (f : A → A)
      → ((x : A) → p x ≡ true → p (f x) ≡ true)
      → (xs : List A) {x : A} → query_row p xs ≡ some x
      → query_row p (update_where p f xs) ≡ some (f x)
  query_row-update_where p f keeps [] e = ground arith
  query_row-update_where p f keeps (y ∷ ys) {x} e = elim (Bool-cases (p y)) [
    | inl h ↦ let k : p (f y) ≡ true = keeps y h in ground (arith, e, h, k)
    | inr h ↦
        let rest : query_row p ys ≡ some x = ground (arith, e, h) in
        rw (h, h) (query_row-update_where p f keeps ys rest)
  ]

  -- An update of other rows.
  pub query_row-update_where_ne :
      (p q : A → Bool) (f : A → A)
      → ((x : A) → q x ≡ true → p x ≡ false)
      → ((x : A) → q x ≡ true → p (f x) ≡ false)
      → (xs : List A) → query_row p (update_where q f xs) ≡ query_row p xs
  query_row-update_where_ne p q f apart keeps [] = refl
  query_row-update_where_ne p q f apart keeps (y ∷ ys) =
      ground (arith, apart y, keeps y, query_row-update_where_ne p q f apart keeps ys)

  pub exists_where_of_query_row :
      (p : A → Bool) (xs : List A) {x : A} → query_row p xs ≡ some x → exists_where p xs ≡ true
  exists_where_of_query_row p [] e = absurd (ground (arith, e))
  exists_where_of_query_row p (y ∷ ys) {x} e = elim (Bool-cases (p y)) [
    | inl h ↦ rw h refl
    | inr h ↦
        let rest : query_row p ys ≡ some x = ground (arith, e, h) in
        rw h (exists_where_of_query_row p ys rest)
  ]

  pub query_row-holds : (p : A → Bool) (xs : List A) {x : A} → query_row p xs ≡ some x → p x ≡ true
  query_row-holds p [] e = absurd (ground (arith, e))
  query_row-holds p (y ∷ ys) {x} e = elim (Bool-cases (p y)) [
    | inl h ↦ let same : y ≡ x = ground (arith, e, h) in subst (λ z. p z ≡ true) same h
    | inr h ↦ query_row-holds p ys (ground (arith, e, h))
  ]

  pub query_row-update_where-none :
      (p : A → Bool) (f : A → A) (xs : List A)
      → query_row p xs ≡ none
      → query_row p (update_where p f xs) ≡ none
  query_row-update_where-none p f [] e = refl
  query_row-update_where-none p f (y ∷ ys) e = elim (Bool-cases (p y)) [
    | inl h ↦ absurd (ground (arith, (rw h at e)))
    | inr h ↦
        let rest : query_row p ys ≡ none = ground (arith, e, h) in
        rw (h, h) (query_row-update_where-none p f ys rest)
  ]

  -- A row that is found after an update is the update of the row that was found before.
  pub query_row_of_update_where :
      (p : A → Bool) (f : A → A)
      → ((x : A) → p x ≡ true → p (f x) ≡ true)
      → (xs : List A) (x : A) → query_row p (update_where p f xs) ≡ some x
      → (y : A) × (query_row p xs ≡ some y) × (f y ≡ x)
  query_row_of_update_where p f keeps xs x e = elim (Option-cases (query_row p xs)) [
    | inl gone ↦
        let after = query_row-update_where-none p f xs gone in absurd (ground (arith, after, e))
    | inr (y, there) ↦
        let after = query_row-update_where p f keeps xs there in
        (y, there, ground (arith, after, e))
  ]
