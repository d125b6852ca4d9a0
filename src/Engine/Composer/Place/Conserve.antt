-- ===== src/Engine/Composer/Place/Conserve.antt =====
-- placeItems and ComposeSession of session_composer.go: which content comes into the session.
use native.Mathlib.Decide.{ℕ_discrete}
use ruskiy.Shared.{
  ℕ, suc, ◌+◌, ◌<◌, ◌==◌, List, [], ◌∷◌, length, Option, none, some, ◌≡◌, ◌≢◌, refl, arith,
  Option-cases, inl, inr, ap, ◌∙◌, sym, String,
}
use ruskiy.Shared.Int.{ℤ}
use ruskiy.Platform.{Float, SortSlice}
use ruskiy.Model.{SessionItemRole}
use ruskiy.Engine.Data.{ContentSelection, ComposedItem, ComposedSession}
use ruskiy.Engine.Composer.Template.{TemplateSlot}
use ruskiy.Engine.Composer.Template.Result.{build_template-Arc}
use ruskiy.Engine.Composer.Place.{
  Pools, PoolName, Marked, choose_pool, pop_pool, unused, split_pools, unmarked, place_one,
  first_pass, second_pass, place_items, compose_session, session_of,
}
use ruskiy.Engine.Composer.Place.Marks.{
  one_if, one_if_self, one_if-ne, count_id, count_pools, count_id-perm, length-perm,
  count_pools-pop, count_unused, count_unused-mark, length-unused-mark, count_pools-split,
  unused-unmarked,
}

module _ {F : Type 0} where
  -- The contents of the items, in order.
  abbrev pub contents : List (ComposedItem F) → List (ContentSelection F)
  contents [] = []
  contents (it ∷ its) = it.content ∷ contents its

  abbrev pub roles : List (ComposedItem F) → List SessionItemRole
  roles [] = []
  roles (it ∷ its) = it.role ∷ roles its

  -- The second pass fills all empty items, if there are as many selections left.
  second_pass_full :
      (its : List (ComposedItem F)) (rem : List (ContentSelection F))
      → count_id 0 rem ≡ 0
      → count_id 0 (contents its) ≡ length rem
      → count_id 0 (contents (second_pass its rem)) ≡ 0
  unfolding second_pass
  second_pass_full [] rem h e = refl
  second_pass_full (it ∷ its) [] h e = ground (arith, second_pass_full its [])
  second_pass_full (it ∷ its) (s ∷ rem) h e =
      ground (arith, second_pass_full its rem, second_pass_full its (s ∷ rem))

  second_pass_counts :
      (its : List (ComposedItem F)) (rem : List (ContentSelection F)) (k : ℕ)
      → count_id 0 (contents its) ≡ length rem
      → k ≢ 0
      → count_id k (contents (second_pass its rem)) ≡ count_id k (contents its) + count_id k rem
  unfolding second_pass
  second_pass_counts [] [] k e n = refl
  second_pass_counts [] (s ∷ rem) k e n = absurd (omega arith)
  second_pass_counts (it ∷ its) [] k e n = ground (arith, second_pass_counts its [] k)
  second_pass_counts (it ∷ its) (s ∷ rem) k e n =
      ground (arith, second_pass_counts its rem k, second_pass_counts its (s ∷ rem) k)

  roles-second_pass :
      (its : List (ComposedItem F)) (rem : List (ContentSelection F))
      → roles (second_pass its rem) ≡ roles its
  unfolding second_pass
  roles-second_pass [] rem = refl
  roles-second_pass (it ∷ its) [] = ap (◌∷◌ it.role) (roles-second_pass its [])
  roles-second_pass (it ∷ its) (s ∷ rem) =
      ground (arith, roles-second_pass its rem, roles-second_pass its (s ∷ rem))

module _ {F : Type 0} where
  abbrev pub slot_roles : List (TemplateSlot F) → List SessionItemRole
  slot_roles [] = []
  slot_roles (s ∷ ss) = s.role ∷ slot_roles ss

  length-slot_roles : (slots : List (TemplateSlot F)) → length (slot_roles slots) ≡ length slots
  length-slot_roles [] = refl
  length-slot_roles (s ∷ ss) = ap suc (length-slot_roles ss)

  length-roles : (its : List (ComposedItem F)) → length (roles its) ≡ length its
  length-roles [] = refl
  length-roles (it ∷ its) = ap suc (length-roles its)

module _ {F : Type 0} ⦃fl : Float F⦄ where
  -- While the pools hold what is not marked: each slot takes a selection out of both, or is empty.
  abbrev InStep : Pools F → Marked F → Type 0
  InStep p used = (j : ℕ) → count_pools j p ≡ count_unused j used

  place_one_step :
      (r : SessionItemRole) (i : ℕ) (name : PoolName) (p : Pools F) (used : Marked F)
      → InStep p used
      → count_unused 0 used ≡ 0
      → let (it, p', used') = place_one r i (pop_pool name p) p used in
        InStep p' used'
        × (count_unused 0 used' ≡ 0)
        × ((k : ℕ)
            → k ≢ 0
            → one_if (it.content.content.id == k) + count_unused k used' ≡ count_unused k used)
        × (one_if (it.content.content.id == 0) + length (unused used) ≡ 1 + length (unused used'))
  place_one_step r i name p used h z = elim (Option-cases (pop_pool name p)) [
    | inl e ↦ rw e (h, z, (λ k n. omega (arith, one_if-ne 0 k (λ q. n (sym q)))), refl)
    | inr ((sel, p'), e) ↦
        let id = sel.content.id in
        let out = λ (k : ℕ). count_pools-pop name p k e in
        let there : 0 < count_unused id used = omega (arith, out id, h id, one_if_self id) in
        let marked = λ (k : ℕ). count_unused-mark id used k there in
        rw e (
          (λ j. omega (arith, out j, h j, marked j)),
          omega (arith, marked 0),
          (λ k n. omega (arith, marked k)),
          omega (arith, length-unused-mark id used there, out 0, h 0),
        )
  ]

  first_pass_lem :
      (i : ℕ) (slots : List (TemplateSlot F)) (p : Pools F) (used : Marked F)
      → InStep p used
      → count_unused 0 used ≡ 0
      → let (its, used') = first_pass i slots p used in
        (count_unused 0 used' ≡ 0)
        × ((k : ℕ) → k ≢ 0 → count_id k (contents its) + count_unused k used' ≡ count_unused k used)
        × (count_id 0 (contents its) + length (unused used) ≡ length slots + length (unused used'))
  unfolding first_pass
  first_pass_lem i [] p used h z = (z, (λ k n. omega arith), refl)
  first_pass_lem i (slot ∷ slots) p used h z =
      let (it, p', used') = place_one slot.role i (pop_pool (choose_pool slot.role p) p) p used in
      let (h', z', counts, sizes) =
        place_one_step slot.role i (choose_pool slot.role p) p used h z in
      let (z'', counts', sizes') = first_pass_lem (i + 1) slots p' used' h' z' in
      (z'', (λ k n. omega (arith, counts k n, counts' k n)), omega arith)

  role-place_one :
      (r : SessionItemRole) (i : ℕ) (o : Option (ContentSelection F × Pools F)) (p : Pools F)
      (used : Marked F)
      → (place_one r i o p used).0.role ≡ r
  role-place_one r i none p used = refl
  role-place_one r i (some (sel, p')) p used = refl

  roles-first_pass :
      (i : ℕ) (slots : List (TemplateSlot F)) (p : Pools F) (used : Marked F)
      → roles (first_pass i slots p used).0 ≡ slot_roles slots
  unfolding first_pass
  roles-first_pass i [] p used = refl
  roles-first_pass i (slot ∷ slots) p used =
      let o = pop_pool (choose_pool slot.role p) p in
      let (it, p', used') = place_one slot.role i o p used in
      cc (role-place_one slot.role i o p used, roles-first_pass (i + 1) slots p' used')

  -- placeItems, given one slot for each selection and no nil content ID: every content ID occurs
  -- among the items as often as among the selections, and the items have the template's roles.
  place_items_conserves :
      (sorted : List (ContentSelection F)) (template : List (TemplateSlot F))
      → length template ≡ length sorted
      → count_id 0 sorted ≡ 0
      → ((k : ℕ) → count_id k (contents (place_items sorted template)) ≡ count_id k sorted)
        × (roles (place_items sorted template) ≡ slot_roles template)
  unfolding place_items
  place_items_conserves [] [] size z = ((λ k. refl), refl)
  place_items_conserves (s ∷ ss) [] size z = absurd (omega arith)
  place_items_conserves sorted (slot ∷ slots) size z =
      let start : unused (unmarked sorted) ≡ sorted = unused-unmarked sorted in
      let pools = split_pools sorted in
      let h : InStep pools (unmarked sorted) =
        λ k. count_pools-split sorted k ∙ ap (count_id k) (sym start) in
      let (its, used) = first_pass 0 (slot ∷ slots) pools (unmarked sorted) in
      let (z', counts, sizes) =
        first_pass_lem 0 (slot ∷ slots) pools (unmarked sorted) h (ap (count_id 0) start ∙ z) in
      let empties : count_id 0 (contents its) ≡ length (unused used) =
        omega (arith, ap length start) in
      (
        (λ k. elim (ℕ_discrete k 0) [
          | yes e ↦ rw e (second_pass_full its (unused used) z' empties ∙ sym z)
          | no n ↦ omega (
            arith,
            second_pass_counts its (unused used) k empties n,
            counts k n,
            ap (count_id k) start,
          )
        ]),
        roles-second_pass its (unused used)
            ∙ roles-first_pass 0 (slot ∷ slots) pools (unmarked sorted),
      )

  -- ComposeSession, for any selections whose content IDs are not nil, any segment and any budget,
  -- returns a session with as many items as selections, in which every content ID occurs exactly as
  -- often as among the selections: none is lost, none is added and no slot stays empty.
  pub compose_session_conserves :
      (sorting : SortSlice) (selections : List (ContentSelection F)) (budget : ℤ) (seg : String)
      → count_id 0 selections ≡ 0
      → (s : ComposedSession F) × (compose_session sorting selections budget seg ≡ some s)
        × (length s.items ≡ length selections)
        × ((k : ℕ) → count_id k (contents s.items) ≡ count_id k selections)
  unfolding compose_session
  compose_session_conserves sorting [] budget seg z = (_, refl, refl, (λ k. refl))
  compose_session_conserves sorting (x ∷ xs) budget seg z =
      let sorted =
        sorting.sort (ContentSelection F) (λ a b. fl.lt a.content.difficulty b.content.difficulty)
          (x ∷ xs) in
      let perm =
        sorting.sort_perm (ContentSelection F)
          (λ a b. fl.lt a.content.difficulty b.content.difficulty) (x ∷ xs) in
      let size : length sorted ≡ length (x ∷ xs) = length-perm perm in
      let (template, built, shape) = build_template-Arc (length sorted) seg budget (omega arith) in
      let (counts, same) =
        place_items_conserves sorted template shape.size (count_id-perm 0 perm ∙ z) in
      let items = place_items sorted template in
      (
        session_of budget seg items,
        rw (built, compose_session),
        omega (arith, length-roles items, ap length same, length-slot_roles template, shape.size),
        (λ k. counts k ∙ count_id-perm k perm),
      )
