-- ===== src/Engine/Session/Build/Laws.antt =====
-- MatchContent and BuildSession.
use ruskiy.Shared.{
  is_nil, ℕ, ◌+◌, ◌≤◌, ◌<◌, ◌==◌, ==-self, min, not, ◌&&◌, ◌||◌, Bool, true, false, List, [], ◌∷◌,
  length, keep, any, has_id, some, String, ◌≡◌, refl, arith, All, All-map, All-perm_back,
  All-get_elem?, length-perm, if_elim, Bool-cases, inl, inr,
}
use mathlib.Core.Bool.{Bool-set}
use mathlib.Core.HLevel.{×_prop}
use ruskiy.Platform.{Float, SortSlice}
use ruskiy.Model.{SessionItemRole, ContentAtom, SessionItem}
use ruskiy.Engine.Session.Roles.{assign_roles}
use ruskiy.Engine.Session.Select.{SkillSelection}
use ruskiy.Engine.Session.Build.{
  targets, is_fresh, or_else, suits_better, role_difficulty, skill_candidates, candidates_of,
  ranked, match_content, role_at, build_items, build_session,
}

abbrev implies : Bool → Bool → Bool
implies a b = not a || b

module _ {A : Type 0} (p : A → Bool) where
  All-keep : (P : A → Type 0) (xs : List A) → All P xs → All P (keep p xs)
  All-keep P [] h = tt
  All-keep P (x ∷ xs) (h, hs) =
      if_elim (All P) (p x) (x ∷ keep p xs) (keep p xs) (λ _. (h, All-keep P xs hs))
        (λ _. All-keep P xs hs)

  keep-passes : (xs : List A) → All (λ x. p x ≡ true) (keep p xs)
  keep-passes [] = tt
  keep-passes (x ∷ xs) =
      if_elim (All (λ y. p y ≡ true)) (p x) (x ∷ keep p xs) (keep p xs) (λ e. (e, keep-passes xs))
        (λ _. keep-passes xs)

  keep-nil : (xs : List A) → is_nil (keep p xs) ≡ true → any p xs ≡ false
  keep-nil [] h = refl
  keep-nil (x ∷ xs) h = elim (Bool-cases (p x)) [
    | inl e ↦ absurd (ground (arith, e))
    | inr e ↦ rw e (keep-nil xs (ground (arith, e)))
  ]

module _ {A : Type 0} where
  All-intro : (P : A → Type 0) → ((x : A) → P x) → (xs : List A) → All P xs
  All-intro P f [] = tt
  All-intro P f (x ∷ xs) = (f x, All-intro P f xs)

  All-both : (P Q : A → Type 0) (xs : List A) → All P xs → All Q xs → All (λ x. P x × Q x) xs
  All-both P Q [] h k = tt
  All-both P Q (x ∷ xs) (h, hs) (k, ks) = ((h, k), All-both P Q xs hs ks)

  length-nil : (xs : List A) → is_nil xs ≡ false → 1 ≤ length xs
  length-nil [] h = absurd (ground arith)
  length-nil (x ∷ xs) h = omega arith

  nil-length : (xs : List A) → 1 ≤ length xs → is_nil xs ≡ false
  nil-length [] h = elim h [ ]
  nil-length (x ∷ xs) h = refl

module _ {F : Type 0} where
  -- When some element passes, so does every element that the choice leaves.
  or_else-prefers :
      (p : ContentAtom F → Bool) (xs : List (ContentAtom F))
      → All (λ c. implies (any p xs) (p c) ≡ true) (or_else (keep p xs) xs)
  or_else-prefers p xs = elim (Bool-cases (is_nil (keep p xs))) [
    | inl e ↦ rw (e, keep-nil p xs e) (All-intro (λ c. true ≡ true) (λ c. refl) xs)
    | inr e ↦ rw e (
        All-map (λ c. p c ≡ true) (λ c. implies (any p xs) (p c) ≡ true) (λ c h. ground arith)
          (keep p xs) (keep-passes p xs))
  ]

  or_else-All :
      (p : ContentAtom F → Bool) (P : ContentAtom F → Type 0) (xs : List (ContentAtom F))
      → All P xs
      → All P (or_else (keep p xs) xs)
  or_else-All p P xs h =
      if_elim (All P) (is_nil (keep p xs)) xs (keep p xs) (λ _. h) (λ _. All-keep p P xs h)

  or_else-nil :
      (p : ContentAtom F → Bool) (xs : List (ContentAtom F))
      → is_nil xs ≡ false
      → is_nil (or_else (keep p xs) xs) ≡ false
  or_else-nil p xs h =
      if_elim (λ l. is_nil l ≡ false) (is_nil (keep p xs)) xs (keep p xs) (λ _. h) (λ e. e)

module _ {F : Type 0} (P : ContentAtom F → Type 0) where
  -- `c` targets the skill if some available content does, and is fresh if some content that may serve is.
  abbrev pub Suitable : String → List (ContentAtom F) → List ℕ → ContentAtom F → Type 0
  Suitable skill_id available used c =
      (P c × (implies (any (targets skill_id) available) (targets skill_id c) ≡ true))
      × (implies (any (is_fresh used) (skill_candidates skill_id available)) (is_fresh used c)
          ≡ true)

  candidates_of-Suitable :
      (skill_id : String) (available : List (ContentAtom F)) (used : List ℕ)
      → All P available
      → All (Suitable skill_id available used) (candidates_of skill_id available used)
  unfolding candidates_of
  candidates_of-Suitable skill_id available used h =
      let cs = skill_candidates skill_id available in
      let targeted : ContentAtom F → Type 0 =
        λ c. implies (any (targets skill_id) available) (targets skill_id c) ≡ true in
      let first : ContentAtom F → Type 0 = λ c. P c × targeted c in
      All-both first (λ c. implies (any (is_fresh used) cs) (is_fresh used c) ≡ true)
        (candidates_of skill_id available used)
        (or_else-All (is_fresh used) first cs (
          All-both P targeted cs (or_else-All (targets skill_id) P available h)
            (or_else-prefers (targets skill_id) available)))
        (or_else-prefers (is_fresh used) cs)

  Suitable-prop :
      (P_prop : (c : ContentAtom F) → IsProp (P c)) (skill_id : String)
      (available : List (ContentAtom F)) (used : List ℕ) (c : ContentAtom F)
      → IsProp (Suitable skill_id available used c)
  Suitable-prop P_prop skill_id available used c =
      ×_prop (×_prop (P_prop c) (Bool-set _ _)) (Bool-set _ _)

  candidates_of-nil :
      (skill_id : String) (available : List (ContentAtom F)) (used : List ℕ)
      → is_nil available ≡ false
      → is_nil (candidates_of skill_id available used) ≡ false
  unfolding candidates_of
  candidates_of-nil skill_id available used h =
      or_else-nil (is_fresh used) (skill_candidates skill_id available)
        (or_else-nil (targets skill_id) available h)

module _ {F : Type 0} ⦃fl : Float F⦄ (sorting : SortSlice) (intn : ℕ → ℕ)
    (P : ContentAtom F → Type 0) (P_prop : (c : ContentAtom F) → IsProp (P c)) where
  ranked-Suitable :
      (skill_id : String) (role : SessionItemRole) (available : List (ContentAtom F))
      (used : List ℕ)
      → All P available
      → All
          (Suitable P skill_id available used)
          (ranked sorting intn role (candidates_of skill_id available used))
  unfolding ranked
  ranked-Suitable skill_id role available used h =
      All-perm_back (Suitable P skill_id available used)
        (Suitable-prop P P_prop skill_id available used)
        (sorting.sort_perm (ContentAtom F) (suits_better (role_difficulty role))
          (candidates_of skill_id available used))
        (candidates_of-Suitable P skill_id available used h)

  ranked-length :
      (skill_id : String) (role : SessionItemRole) (available : List (ContentAtom F))
      (used : List ℕ)
      → is_nil available ≡ false
      → 1 ≤ length (ranked sorting intn role (candidates_of skill_id available used))
  unfolding ranked
  ranked-length skill_id role available used h =
      let cs = candidates_of skill_id available used in
      omega (
        arith,
        length-perm (sorting.sort_perm (ContentAtom F) (suits_better (role_difficulty role)) cs),
        length-nil cs (candidates_of-nil P skill_id available used h),
      )

  -- For every sort.Slice, random numbers in range and available content, not empty, that has a property
  -- P: MatchContent returns content with the property P, which targets the skill if any available
  -- content does, and which was not used recently if any content that may serve was not.
  match_content-Suitable :
      (intn_lt : (n : ℕ) → 1 ≤ n → intn n < n) (skill_id : String) (role : SessionItemRole)
      (available : List (ContentAtom F)) (used : List ℕ)
      → is_nil available ≡ false
      → All P available
      → (c : ContentAtom F) × ((match_content sorting intn skill_id role available used).0 ≡ some c)
        × Suitable P skill_id available used c
  unfolding match_content
  match_content-Suitable intn_lt skill_id role available used some_content h =
      let cs = candidates_of skill_id available used in
      let sorted = ranked sorting intn role cs in
      let long = ranked-length skill_id role available used some_content in
      let n = min 3 (length sorted) in
      let (c, e, suits) =
        All-get_elem? (Suitable P skill_id available used) sorted (intn n)
          (ranked-Suitable skill_id role available used h)
          (omega (arith, intn_lt n (omega (arith, long)), long)) in
      (c, rw (candidates_of-nil P skill_id available used some_content) e, suits)

  -- The available content afterwards.
  match_content-rest :
      (skill_id : String) (role : SessionItemRole) (available : List (ContentAtom F))
      (used : List ℕ)
      → is_nil available ≡ false
      → All P available
      → (is_nil (match_content sorting intn skill_id role available used).1 ≡ false)
        × All P (match_content sorting intn skill_id role available used).1
  unfolding match_content
  match_content-rest skill_id role available used some_content h =
      let cs = candidates_of skill_id available used in
      let sorted = ranked sorting intn role cs in
      let aliased =
        is_nil (keep (targets skill_id) available)
        && is_nil (keep (is_fresh used) (skill_candidates skill_id available)) in
      rw (candidates_of-nil P skill_id available used some_content) (
        if_elim (λ rest. (is_nil rest ≡ false) × All P rest) aliased sorted available
          (λ _. (
            nil-length sorted (ranked-length skill_id role available used some_content),
            All-map (Suitable P skill_id available used) P (λ c s. s.0.0) sorted
                (ranked-Suitable skill_id role available used h),
          ))
          (λ _. (some_content, h)))

-- The IDs of the content.
abbrev pub ids : {F : Type 0} → List (ContentAtom F) → List ℕ
ids [] = []
ids (c ∷ cs) = c.id ∷ ids cs

-- The item is for the skill at the place, has the role of the place, and its content has a known ID.
abbrev pub ItemFor : List ℕ → List SessionItemRole → ℕ → ℕ → String → SessionItem → Type 0
ItemFor known roles session_id position skill_id item =
    (item.position ≡ position)
    × (item.session_id ≡ session_id)
    × (item.skill_id ≡ skill_id)
    × (item.role ≡ role_at roles position)
    × (has_id item.content_id known ≡ true)
    × (item.completed ≡ false)

-- One item for each selection, in order, from the place `i`.
abbrev pub ItemsFor :
    {F : Type 0}
    → List ℕ
    → List SessionItemRole
    → ℕ
    → ℕ
    → List (SkillSelection F)
    → List SessionItem
    → Type 0
ItemsFor known roles session_id i [] [] = Unit
ItemsFor known roles session_id i [] (_ ∷ _) = ⊥
ItemsFor known roles session_id i (_ ∷ _) [] = ⊥
ItemsFor known roles session_id i (sel ∷ sels) (item ∷ items) =
    ItemFor known roles session_id i sel.skill.skill_id item
    × ItemsFor known roles session_id (i + 1) sels items

known_ids :
    {F : Type 0} (content : List (ContentAtom F))
    → All (λ c. has_id c.id (ids content) ≡ true) content
known_ids [] = tt
known_ids {F} (c ∷ content) = (
  rw ==-self refl,
  All-map (λ (d : ContentAtom F). has_id d.id (ids content) ≡ true)
      (λ d. has_id d.id (c.id ∷ ids content) ≡ true)
      (λ d h.
        if_elim (λ b. b ≡ true) (c.id == d.id) true (has_id d.id (ids content)) (λ _. refl)
          (λ _. h))
      content (known_ids content),
)

module _ {F : Type 0} ⦃fl : Float F⦄ (sorting : SortSlice) (intn : ℕ → ℕ → ℕ) (new_id : ℕ → ℕ)
    (session_id : ℕ) (intn_lt : (i n : ℕ) → 1 ≤ n → intn i n < n) where
  build_items-ItemsFor :
      (known : List ℕ) (roles : List SessionItemRole) (i : ℕ) (selections : List (SkillSelection F))
      (content : List (ContentAtom F)) (used : List ℕ)
      → is_nil content ≡ false
      → All (λ c. has_id c.id known ≡ true) content
      → ItemsFor known roles session_id i selections
          (build_items sorting intn new_id session_id roles i selections content used)
  unfolding build_items
  build_items-ItemsFor known roles i [] content used some_content h = tt
  build_items-ItemsFor known roles i (sel ∷ selections) content used some_content h =
      let P : ContentAtom F → Type 0 = λ c. has_id c.id known ≡ true in
      let role = role_at roles i in
      let skill_id = sel.skill.skill_id in
      let (c, e, suits) =
        match_content-Suitable sorting (intn i) P (λ c. Bool-set _ _) (intn_lt i) skill_id role
          content used some_content h in
      let (more, rest) =
        match_content-rest sorting (intn i) P (λ c. Bool-set _ _) skill_id role content used
          some_content h in
      rw (e, build_items)
        (
          (refl, refl, refl, refl, suits.0.0, refl),
          build_items-ItemsFor known roles (i + 1) selections
              (match_content sorting (intn i) skill_id role content used).1 (c.id ∷ used) more rest,
        )

  -- For every sort.Slice, random numbers in range, selections and content, not empty: BuildSession gives
  -- one item for each selection, in order, whose position is the place of the selection, whose role is the one
  -- that AssignRoles gives to that place, and whose content is of the given content, whatever the
  -- recently used ones are and however the content is reordered in place.
  pub build_session-ItemsFor :
      (selections : List (SkillSelection F)) (content : List (ContentAtom F))
      (recently_used : List ℕ)
      → is_nil content ≡ false
      → ItemsFor
          (ids content)
          (assign_roles (length selections))
          session_id
          0
          selections
          (build_session sorting intn new_id session_id selections content recently_used)
  unfolding build_session
  build_session-ItemsFor selections content recently_used some_content =
      build_items-ItemsFor (ids content) (assign_roles (length selections)) 0 selections content
        recently_used some_content (known_ids content)
