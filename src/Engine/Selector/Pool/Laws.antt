-- ===== src/Engine/Selector/Pool/Laws.antt =====
-- The pool of content, and the estimate of the number of items.
use ruskiy.Shared.{
  ℕ, ◌≤◌, ltb, not, ◌&&◌, ◌||◌, if◌then◌else◌, if_elim, Bool, Bool-cases, true, false, List, [],
  ◌∷◌, length, keep, any, has_id, str_eq, ◌≡◌, refl, sym, ap, arith, All, All-map, &&→both, inl,
  inr,
}
use mathlib.Core.Path.{subst}
use ruskiy.Model.{ContentAtom, LearnerProfile}
use ruskiy.Engine.Selector.Pool.{
  segment_match, filter_content, is_adjacent, fallback_content, content_pool, estimate_item_count,
}

any-or :
    {A : Type 0} (p q : A → Bool) (xs : List A) → any (λ x. p x || q x) xs ≡ (any q xs || any p xs)
any-or p q [] = refl
any-or p q (x ∷ xs) = ground (arith, any-or p q xs)

keep-congr :
    {A : Type 0} (p q : A → Bool) → ((x : A) → p x ≡ q x) → (xs : List A) → keep p xs ≡ keep q xs
keep-congr p q h [] = refl
keep-congr p q h (x ∷ xs) = rw (h x, keep-congr p q h xs) refl

keep-All :
    {A : Type 0} (P : A → Type 0) (p : A → Bool) (xs : List A)
    → All P xs
    → All (λ x. P x × (p x ≡ true)) (keep p xs)
keep-All P p [] h = tt
keep-All P p (x ∷ xs) (q, h) =
    if_elim (All (λ y. P y × (p y ≡ true))) (p x) (x ∷ keep p xs) (keep p xs)
      (λ e. ((q, e), keep-All P p xs h)) (λ _. keep-All P p xs h)

module _ {F : Type 0} where
  is_adjacent-segment_match :
      (learner : LearnerProfile) (c : ContentAtom F)
      → is_adjacent learner c ≡ segment_match c.segment_tags learner.segment
  unfolding segment_match
  is_adjacent-segment_match learner c =
      let split = any-or (λ t. str_eq t learner.segment) (λ t. str_eq t "general") c.segment_tags in
      ground (arith, split)

  -- The first loop of fallbackContent keeps what filterContent kept.
  first_loop-filter_content :
      (content : List (ContentAtom F)) (learner : LearnerProfile) (recent : List ℕ)
      → keep (λ c. not (has_id c.id recent) && is_adjacent learner c) content
        ≡ filter_content content learner recent
  unfolding filter_content
  first_loop-filter_content content learner recent =
      keep-congr (λ c. not (has_id c.id recent) && is_adjacent learner c)
        (λ c. not (has_id c.id recent) && segment_match c.segment_tags learner.segment)
        (λ c. ap (λ b. not (has_id c.id recent) && b) (is_adjacent-segment_match learner c)) content

  -- With at least five contents of the learner's segment that were not seen recently, the pool is
  -- these. With fewer, the pool is all content not seen recently, of any segment and any domain:
  -- fallbackContent has no step between.
  pub content_pool_lem :
      (content : List (ContentAtom F)) (learner : LearnerProfile) (recent : List ℕ)
      → content_pool content learner recent ≡ (
          if ltb (length (filter_content content learner recent)) 5
          then keep (λ c. not (has_id c.id recent)) content
          else filter_content content learner recent)
  unfolding content_pool fallback_content
  content_pool_lem content learner recent =
      let same = first_loop-filter_content content learner recent in
      elim (Bool-cases (ltb (length (filter_content content learner recent)) 5)) [
        | inl e ↦ rw (e, fallback_content, same, e) refl
        | inr e ↦ rw e refl
      ]

  -- The pool has content of the input only, and none seen recently.
  pub content_pool-All :
      (P : ContentAtom F → Type 0) (content : List (ContentAtom F)) (learner : LearnerProfile)
      (recent : List ℕ)
      → All P content
      → All (λ c. P c × (has_id c.id recent ≡ false)) (content_pool content learner recent)
  unfolding filter_content
  content_pool-All P content learner recent h =
      let Good : ContentAtom F → Type 0 = λ c. P c × (has_id c.id recent ≡ false) in
      let shown : ContentAtom F → Bool = λ c. not (has_id c.id recent) in
      let matched : ContentAtom F → Bool =
        λ c. shown c && segment_match c.segment_tags learner.segment in
      subst (All Good) (sym (content_pool_lem content learner recent)) (
        if_elim (All Good) (ltb (length (filter_content content learner recent)) 5)
          (keep shown content) (filter_content content learner recent)
          (λ _.
            All-map (λ c. P c × (shown c ≡ true)) Good (λ c (q, e). (q, ground (arith, e)))
              (keep shown content) (keep-All P shown content h))
          (λ _.
            All-map (λ c. P c × (matched c ≡ true)) Good
              (λ c (q, e). (
                q,
                ground
                    (arith, (&&→both (shown c) (segment_match c.segment_tags learner.segment) e).0),
              ))
              (keep matched content) (keep-All P matched content h)))

  -- Between 5 and 20 items are asked for.
  pub estimate_item_count-Bounds :
      (budget_seconds : ℕ) (content : List (ContentAtom F))
      → (5 ≤ estimate_item_count budget_seconds content)
        × (estimate_item_count budget_seconds content ≤ 20)
  unfolding estimate_item_count
  estimate_item_count-Bounds b [] = (omega arith, omega arith)
  estimate_item_count-Bounds b (c ∷ content) = ground arith
