-- ===== src/Devserver/Sessions/Planned.antt =====
-- The items of a new session of the in-memory server.
use ruskiy.Shared.{
  ℕ, zero, suc, ◌+◌, ◌≤◌, ◌<◌, ◌%◌, ◌-◌, ◌/◌, ltb, leb, if_elim, if◌then◌else◌, set, length-set,
  replicate, length-replicate, ◌∙◌, min, some, String, put_at, List, [], ◌∷◌, length, get_elem?,
  get_elem?-total, ==-self, All, All-get_elem?, ◌≡◌, refl, sym, arith,
}
use mathlib.Core.Path.{subst}
use Prim.Native.Nat.{max}
use ruskiy.Shared.Int.{ℤ, pos, pos_part, leb_ℤ}
use ruskiy.Platform.{Float}
use ruskiy.Model.{
  ContentAtom, Session, SessionItem, SessionItemRole, no_role, warmup, ramp, core, relief, cooldown,
}
use ruskiy.Engine.Session.Build.{session_item}
use ruskiy.Engine.Session.Roles.{fill}
use ruskiy.Engine.Session.Roles.Arc.{length-fill}
use ruskiy.Devserver.{MemStore, assign_few, assign_some, assign_many, assign_roles}
use ruskiy.Devserver.Sessions.{
  bound_items, first_target, make_items, max_items, new_session, find_session, generate,
}

bound_items-min :
    (wanted : ℤ) (available : ℕ)
    → bound_items wanted available ≡ min 15 (min available (max 5 (pos_part wanted)))
unfolding bound_items
bound_items-min wanted available = ground arith

length-assign_few :
    (count : ℕ) (xs : List SessionItemRole) → length (assign_few count xs) ≡ length xs
unfolding assign_few
length-assign_few count xs =
    let a = set xs 0 warmup in
    let b = fill (count - 2) 1 core a in
    if_elim (λ (ys : List SessionItemRole). length ys ≡ length xs) (ltb 1 count)
      (set b (count - 1) cooldown) b
      (λ _.
        length-set b (count - 1) cooldown
        ∙ length-fill (count - 2) 1 core a
        ∙ length-set xs 0 warmup)
      (λ _. length-fill (count - 2) 1 core a ∙ length-set xs 0 warmup)

length-assign_some :
    (count : ℕ) (xs : List SessionItemRole) → length (assign_some count xs) ≡ length xs
unfolding assign_some
length-assign_some count xs =
    let a = set xs 0 warmup in
    let b = set a 1 ramp in
    length-set (fill (count - 3) 2 core b) (count - 1) cooldown
    ∙ length-fill (count - 3) 2 core b
    ∙ length-set a 1 ramp
    ∙ length-set xs 0 warmup

length-assign_many :
    (count : ℕ) (xs : List SessionItemRole) → length (assign_many count xs) ≡ length xs
unfolding assign_many
length-assign_many count xs =
    let mid = count / 2 + 1 in
    let a = set xs 0 warmup in
    let b = set a 1 warmup in
    let c = set b 2 ramp in
    let d = fill (mid - 3) 3 core c in
    let e : List SessionItemRole = if ltb mid count then set d mid relief else d in
    let f = fill (count - 1 - (mid + 1)) (mid + 1) core e in
    let le : length e ≡ length d =
      if_elim (λ (ys : List SessionItemRole). length ys ≡ length d) (ltb mid count)
        (set d mid relief) d (λ _. length-set d mid relief) (λ _. refl) in
    length-set f (count - 1) cooldown
    ∙ length-fill (count - 1 - (mid + 1)) (mid + 1) core e
    ∙ le
    ∙ length-fill (mid - 3) 3 core c
    ∙ length-set b 2 ramp
    ∙ length-set a 1 warmup
    ∙ length-set xs 0 warmup

length-assign_roles : (count : ℕ) → length (assign_roles count) ≡ count
unfolding assign_roles
length-assign_roles zero = refl
length-assign_roles (suc n) =
    let roles = replicate (suc n) no_role in
    let full = length-replicate (suc n) no_role in
    if_elim (λ (ys : List SessionItemRole). length ys ≡ suc n) (leb (suc n) 3) _ _
      (λ _. length-assign_few (suc n) roles ∙ full)
      (λ _.
        if_elim (λ (ys : List SessionItemRole). length ys ≡ suc n) (leb (suc n) 5) _ _
          (λ _. length-assign_some (suc n) roles ∙ full)
          (λ _. length-assign_many (suc n) roles ∙ full))

small_mod : (i n : ℕ) → i < n → i % n ≡ i
small_mod i n h = grind arith

abbrev pub HasTarget : {F : Type 0} → ContentAtom F → Type 0
HasTarget c = (skill : String) × (first_target c ≡ some skill)

module _ {F : Type 0} (new_id : ℕ → ℕ) (session_id : ℕ) (roles : List SessionItemRole)
    (content : List (ContentAtom F)) where
  -- Each item from the index `i` on is made of the content at its index and has the role there.
  abbrev pub Planned : ℕ → List SessionItem → Type 0
  Planned i [] = Unit
  Planned i (item ∷ items) =
      ((c : ContentAtom F) × (skill : String) × (role : SessionItemRole) × (get_elem? content i
          ≡ some c)
        × (first_target c ≡ some skill)
        × (get_elem? roles i ≡ some role)
        × (item ≡ session_item (new_id i) session_id i c.id skill role))
      × Planned (suc i) items

  make_items_step :
      (left i : ℕ) (c : ContentAtom F) (skill : String) (role : SessionItemRole)
      (items : List SessionItem)
      → i % length content ≡ i
      → get_elem? content i ≡ some c
      → first_target c ≡ some skill
      → get_elem? roles i ≡ some role
      → make_items new_id session_id roles content left (suc i) ≡ some items
      → make_items new_id session_id roles content (suc left) i
        ≡ some (session_item (new_id i) session_id i c.id skill role ∷ items)
  unfolding make_items
  make_items_step left i c skill role items e at_c target at_r made =
      rw (e, at_c, target, at_r, made, make_items) refl

  make_items-Planned :
      (left i : ℕ)
      → i + left ≤ length content
      → i + left ≤ length roles
      → All HasTarget content
      → (items : List SessionItem) × (make_items new_id session_id roles content left i
          ≡ some items)
        × (length items ≡ left)
        × Planned i items
  unfolding make_items
  make_items-Planned zero i lc lr h = ([], refl, refl, tt)
  make_items-Planned (suc left) i lc lr h =
      let (c, at_c, (skill, target)) = All-get_elem? HasTarget content i h (omega arith) in
      let (role, at_r) = get_elem?-total roles i (omega arith) in
      let (items, made, count, planned) =
        make_items-Planned left (suc i) (omega arith) (omega arith) h in
      (
        session_item (new_id i) session_id i c.id skill role ∷ items,
        make_items_step left i c skill role items (small_mod i (length content) (omega arith)) at_c
            target at_r made,
        omega (arith, count),
        ((c, skill, role, at_c, target, at_r, refl), planned),
      )

-- The whole number of items that the budget asks for.
abbrev pub wanted_items : (F : Type 0) ⦃fl : Float F⦄ → ℤ → ℤ
wanted_items F ⦃fl⦄ minutes =
    let budget : ℤ = if leb_ℤ minutes (pos 0) then pos 15 else minutes in
    fl.to_int (fl.ceil (fl.div (fl.of_int budget) (fl.lit 15 1)))

max_items-min :
    (F : Type 0) ⦃fl : Float F⦄ (minutes : ℤ) (available : ℕ)
    → max_items F minutes available
      ≡ min 15 (min available (max 5 (pos_part (wanted_items F minutes))))
unfolding max_items
max_items-min F minutes available = bound_items-min (wanted_items F minutes) available

module _ {F : Type 0} ⦃fl : Float F⦄ where
  abbrev pub with_new_session : Session F → List SessionItem → MemStore F → MemStore F
  with_new_session x items s = record s {
    sessions = x ∷ s.sessions;
    session_items = put_at x.id items s.session_items;
  }

  generate_step :
      (new_id : ℕ → ℕ) (now : ℤ) (learner : String) (minutes : ℤ) (s : MemStore F)
      (items : List SessionItem)
      → (let count = max_items F minutes (length s.content) in
          make_items (λ i. new_id (suc i)) (new_id 0) (assign_roles count) s.content count 0
          ≡ some items)
      → generate new_id now learner minutes s
        ≡ some (
          new_session (new_id 0) learner now,
          items,
          with_new_session (new_session (new_id 0) learner now) items s,
        )
  unfolding generate
  generate_step new_id now learner minutes s items made = rw (made, generate) refl

  -- When every content atom of the store has a target skill, generating a session does not panic: it answers
  -- with an active session of that learner without results, and with items, as many as the budget asks
  -- for, at least 5, but no more than 15 or the content has; the item of each index is made of the
  -- content of that index, its first target skill and the role that assignRoles gives the index.
  pub generate-Planned :
      (new_id : ℕ → ℕ) (now : ℤ) (learner : String) (minutes : ℤ) (s : MemStore F)
      → All (HasTarget) s.content
      → (items : List SessionItem) × (s' : MemStore F) × (generate new_id now learner minutes s
          ≡ some (new_session (new_id 0) learner now, items, s'))
        × (length items
            ≡ min 15 (min (length s.content) (max 5 (pos_part (wanted_items F minutes)))))
        × Planned (λ i. new_id (suc i)) (new_id 0) (assign_roles (length items)) s.content 0 items
        × (s'.session_items (new_id 0) ≡ items)
        × (find_session (new_id 0) s' ≡ some (new_session (new_id 0) learner now))
  unfolding generate find_session
  generate-Planned new_id now learner minutes s h =
      let count = max_items F minutes (length s.content) in
      let bound = max_items-min F minutes (length s.content) in
      let roles_count = length-assign_roles count in
      let (items, made, as_many, planned) =
        make_items-Planned (λ i. new_id (suc i)) (new_id 0) (assign_roles count) s.content count 0
          (omega (arith, bound)) (omega (arith, roles_count)) h in
      (
        items,
        with_new_session (new_session (new_id 0) learner now) items s,
        generate_step new_id now learner minutes s items made,
        as_many ∙ bound,
        subst (λ n. Planned (λ i. new_id (suc i)) (new_id 0) (assign_roles n) s.content 0 items)
            (sym as_many) planned,
        rw (==-self (new_id 0)) refl,
        rw (==-self (new_id 0)) refl,
      )
