-- ===== src/Engine/Selector/Generate/Laws.antt =====
-- What GenerateContentSet promises of its selections.
use ruskiy.Shared.{
  ℕ, ◌*◌, ◌≤◌, List, [], ◌∷◌, length, length-perm, has_id, Option, none, some, ◌≡◌, ◌≢◌, refl, sym,
  ◌∙◌, ap, arith, All, count_by, count_by-perm, ◌⊎◌, inl, inr, false,
}
use ruskiy.Shared.Int.{ℤ, pos, pos_part, ◌≤ℤ◌}
use ruskiy.Platform.{Float}
use ruskiy.Model.{ContentAtom}
use ruskiy.Engine.Data.{ContentSelection}
use ruskiy.Engine.Session.Roles.{assign_roles}
use ruskiy.Engine.Selector.Pool.{categorize_skills, estimate_item_count, i_plus_one_levels}
use ruskiy.Engine.Selector.Pool.Laws.{content_pool-All, estimate_item_count-Bounds}
use ruskiy.Engine.Selector.Pick.{Selecting}
use ruskiy.Engine.Selector.Phases.{
  TeacherAssignment, Constraints, constraints, first_phase, select_with_constraints,
}
use ruskiy.Engine.Selector.Phases.Steps.{Inv, has_content, sum_selection_times}
use ruskiy.Engine.Selector.Phases.Laws.{select_with_constraints-Inv}
use ruskiy.Engine.Selector.Variety.{enforce_variety}
use ruskiy.Engine.Selector.Variety.Laws.{enforce_variety-Permᴰ}
use ruskiy.Engine.Selector.Generate.{
  ContentSelectorInput, minutes, set_roles, pool_of, generate_from_pool, generate_content_set,
}
use ruskiy.Engine.Selector.Generate.Finish.{
  role_list, role_list-set_roles, length-set_roles, length-assign_roles, count_by-set_roles,
  sum_selection_times-set_roles, sum_selection_times-perm, All-set_roles, All-Permᴰ,
}

module _ {F : Type 0} where
  -- No content comes twice, all content has the property P, there are at most 20 selections, and their
  -- roles are those of AssignRoles.
  pub record Valid (P : ContentAtom F → Type 0) (sels : List (ContentSelection F)) : Type 0 where
    pub chosen : All (λ s. P s.content) sels
    pub distinct : (k : ℕ) → count_by (has_content k) sels ≤ 1
    pub few : length sels ≤ 20
    pub roles : role_list sels ≡ assign_roles (length sels)

  module _ (P : ContentAtom F → Type 0) (cap base : ℕ) (limit : ℤ) where
    -- Reordering and the roles keep what the phases made.
    finished-Valid :
        (st : Selecting F)
        → Inv P cap base limit st
        → cap ≤ 20
        → let sels = enforce_variety st.selections in
          Valid P (set_roles sels (assign_roles (length sels)))
          × (sum_selection_times (set_roles sels (assign_roles (length sels))) ≡ st.total_time)
    finished-Valid st inv small =
        let sels = enforce_variety st.selections in
        let roles = assign_roles (length sels) in
        let perm = enforce_variety-Permᴰ st.selections in
        let size = length-perm ∣ perm ∣₁ in
        let kept = length-set_roles sels roles in
        (
          record {
            chosen = All-set_roles P sels roles (All-Permᴰ P perm inv.chosen);
            distinct = λ k. omega (
              arith,
              count_by-set_roles k sels roles,
              count_by-perm (has_content k) ∣ perm ∣₁,
              inv.distinct k,
            );
            few = omega (arith, kept, size, inv.few);
            roles =
                role_list-set_roles sels roles (length-assign_roles (length sels))
                ∙ ap assign_roles (sym kept);
          },
          sum_selection_times-set_roles sels roles
              ∙ sym (sum_selection_times-perm perm)
              ∙ sym inv.timed,
        )

  -- Without an assignment no time is spent before the limit is watched.
  time_bound :
      (cs : Constraints F) (assignment : Option TeacherAssignment) (total t : ℕ)
      → t ≡ total
      → (total ≤ (first_phase cs assignment).total_time) ⊎ (pos total ≤ℤ cs.time_limit)
      → (assignment ≢ none) ⊎ (t ≡ 0) ⊎ (pos t ≤ℤ cs.time_limit)
  unfolding first_phase
  time_bound cs none total t e (inl h) = inr (inl (omega arith))
  time_bound cs none total t e (inr h) = inr (inr (omega arith))
  time_bound cs (some a) total t e h = inl (λ e2. ground (arith, e2))

  module _ ⦃fl : Float F⦄ where
    -- int(float64(TimeBudget * 60) * 1.15)
    abbrev pub time_limit_of : ContentSelectorInput F → ℤ
    time_limit_of input =
        fl.to_int (fl.mul (fl.of_int (pos (minutes input.time_budget * 60))) (fl.lit 115 2))

    abbrev pub Fulfilled :
        (ContentAtom F → Type 0) → ContentSelectorInput F → ℤ → List (ContentSelection F) → Type 0
    Fulfilled P input now sels =
        Valid P sels
        × ((input.assignment ≢ none)
            ⊎ (sum_selection_times sels ≡ 0)
            ⊎ (pos (sum_selection_times sels) ≤ℤ time_limit_of input))

    generate_from_pool-Valid :
        (P : ContentAtom F → Type 0) (now : ℤ) (input : ContentSelectorInput F)
        (pool : List (ContentAtom F))
        → ((n : ℕ)
            → n ≤ 20
            → pos_part (fl.to_int (fl.ceil (fl.mul (fl.of_int (pos n)) (fl.lit 4 1)))) ≤ n)
        → All P pool
        → Fulfilled P input now (generate_from_pool now input pool)
    unfolding generate_from_pool constraints first_phase
    generate_from_pool-Valid P now input pool small stock =
        let (due, weak, new_) = categorize_skills now input.skills in
        let (comfort, stretch) = i_plus_one_levels input.learner.current_level in
        let budget_seconds = minutes input.time_budget * 60 in
        let max_items = estimate_item_count budget_seconds pool in
        let cs = constraints pool comfort stretch max_items budget_seconds in
        let cap = (estimate_item_count-Bounds budget_seconds pool).1 in
        let inv =
          select_with_constraints-Inv P cs stock due weak new_ input.assignment
            (small max_items cap) in
        let st = select_with_constraints cs due weak new_ input.assignment in
        let (valid, timed) =
          finished-Valid P max_items (first_phase cs input.assignment).total_time cs.time_limit st
            inv cap in
        (valid, time_bound cs input.assignment st.total_time _ timed inv.within)

    -- GenerateContentSet, with an assignment or without: whatever holds of all content given in holds of
    -- the selected content, none was seen recently, no content ID comes twice, there are at most 20
    -- selections, and their roles are those of AssignRoles for their number. Without an assignment the
    -- estimated time is within int(60 * minutes * 1.15) seconds, or there is no time at all. The
    -- hypothesis on math.Ceil says that 40 percent of n <= 20 items are not more than n items.
    pub generate_content_set-Valid :
        (P : ContentAtom F → Type 0) (now : ℤ) (input : ContentSelectorInput F)
        → ((n : ℕ)
            → n ≤ 20
            → pos_part (fl.to_int (fl.ceil (fl.mul (fl.of_int (pos n)) (fl.lit 4 1)))) ≤ n)
        → All P input.content
        → Fulfilled
            (λ c. P c × (has_id c.id input.recently_seen ≡ false))
            input
            now
            (generate_content_set now input)
    unfolding generate_content_set assign_roles
    generate_content_set-Valid P now input small stock =
        from_pool (pool_of input)
          (content_pool-All P input.content input.learner input.recently_seen stock)
      where
        from_pool :
            (pool : List (ContentAtom F))
            → All (λ c. P c × (has_id c.id input.recently_seen ≡ false)) pool
            → Fulfilled
                (λ c. P c × (has_id c.id input.recently_seen ≡ false))
                input
                now
                (elim pool [ [] ↦ [] | ◌∷◌ c rest ↦ generate_from_pool now input (c ∷ rest) ])
        from_pool [] h = (
          record { chosen = tt; distinct = λ k. omega arith; few = omega arith; roles = refl },
          inr (inl refl),
        )
        from_pool (c ∷ rest) h =
            generate_from_pool-Valid (λ d. P d × (has_id d.id input.recently_seen ≡ false)) now
              input (c ∷ rest) small h
