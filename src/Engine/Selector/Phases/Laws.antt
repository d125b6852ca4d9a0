-- ===== src/Engine/Selector/Phases/Laws.antt =====
-- The phases of selectWithConstraints keep the invariant.
use ruskiy.Shared.{
  ℕ, suc, ◌+◌, ◌%◌, ◌≤◌, ◌<◌, ◌==◌, ltb, ltb→lt, not, ◌&&◌, ◌||◌, if◌then◌else◌, if_elim, Bool,
  true, false, List, [], ◌∷◌, length, has, has_id, Option, Option-cases, none, some, String, ◌≡◌,
  refl, arith, All, inl, inr,
}
use ruskiy.Shared.Int.{ℤ, pos, pos_part, ltb_ℤ, ◌≤ℤ◌}
use ruskiy.Model.{ContentAtom, LearnerSkillState}
use ruskiy.Engine.Data.{ContentSelection}
use ruskiy.Engine.Selector.Pool.{atom_time}
use ruskiy.Engine.Selector.Pick.{Selecting, new_selecting, pick_content, add_selection}
use ruskiy.Engine.Selector.Pick.Laws.{Usable, pick_content-Usable}
use ruskiy.Engine.Selector.Phases.{
  TeacherAssignment, Constraints, Progress, assign_phase, fits, take_picked, try_skill, skill_phase,
  needs_stretch, due_phase, weak_phase, new_phase, is_allowed, general_selection, try_fill,
  fill_pass, fill_phase, first_phase, select_with_constraints,
}
use ruskiy.Engine.Selector.Phases.Steps.{Inv, new_selecting-Inv, add_selection-Inv}

lt_of_ltb_ℤ : (n : ℕ) (a : ℤ) → ltb_ℤ (pos n) a ≡ true → n < pos_part a
lt_of_ltb_ℤ n a e = ground arith

le_of_not_ltb_ℤ : (limit t : ℤ) → not (ltb_ℤ limit t) ≡ true → t ≤ℤ limit
le_of_not_ltb_ℤ limit t e = ground arith

module _ {F : Type 0} (P : ContentAtom F → Type 0) (cs : Constraints F)
    (stock : All P cs.content) where
  abbrev Own : Selecting F → Type 0
  Own st = Inv P cs.max_items st.total_time cs.time_limit st

  -- One round of the first phase.
  assign_step-Inv :
      (sk : String) (st : Selecting F)
      → length st.selections < cs.max_items
      → Own st
      → (picked : Option (ContentSelection F))
      → pick_content cs.content cs.comfort cs.stretch st sk false false ≡ picked
      → Own (elim picked [ none ↦ st | some sel ↦ add_selection st sel ])
  unfolding add_selection
  assign_step-Inv sk st room inv none e = inv
  assign_step-Inv sk st room inv (some sel) e =
      let usable =
        pick_content-Usable P cs.content cs.comfort cs.stretch st sk false false sel stock e in
      let inv2 : Inv P cs.max_items (st.total_time + atom_time sel.content) cs.time_limit st =
        record {
          chosen = inv.chosen;
          distinct = inv.distinct;
          marked = inv.marked;
          timed = inv.timed;
          few = inv.few;
          within = inl (omega arith);
        } in
      add_selection-Inv P cs.max_items (st.total_time + atom_time sel.content) cs.time_limit st sel
        inv2 usable room (inl (omega arith))

  assign_phase-Inv :
      (skills : List String) (st : Selecting F)
      → pos_part cs.assignment_count ≤ cs.max_items
      → Own st
      → Own (assign_phase cs skills st)
  unfolding assign_phase
  assign_phase-Inv [] st few inv = inv
  assign_phase-Inv (sk ∷ skills) st few inv =
      let room = ltb_ℤ (pos (length st.selections)) cs.assignment_count in
      let picked = pick_content cs.content cs.comfort cs.stretch st sk false false in
      let next : Selecting F = elim picked [ none ↦ st | some sel ↦ add_selection st sel ] in
      if_elim Own room (assign_phase cs skills next) st
        (λ e. assign_phase-Inv skills next few (
          assign_step-Inv sk st
            (omega (arith, lt_of_ltb_ℤ (length st.selections) cs.assignment_count e, few)) inv
            picked refl))
        (λ _. inv)

  module _ (base : ℕ) where
    abbrev Kept : Selecting F → Type 0
    Kept = Inv P cs.max_items base cs.time_limit

    -- Content that fits is added while there is room.
    add_fitting-Inv :
        (st : Selecting F) (sel : ContentSelection F)
        → Kept st
        → Usable P st sel.content
        → length st.selections < cs.max_items
        → fits cs st sel.content ≡ true
        → Kept (add_selection st sel)
    add_fitting-Inv st sel inv usable room e =
        add_selection-Inv P cs.max_items base cs.time_limit st sel inv usable room
          (inr (le_of_not_ltb_ℤ cs.time_limit (pos (st.total_time + atom_time sel.content)) e))

    try_skill-Inv :
        (is_review counts : Bool) (prefer : Progress F → Bool) (p : Progress F) (sk : String)
        → Kept p.0
        → length p.0.selections < cs.max_items
        → Kept (try_skill cs is_review counts prefer p sk).0
    unfolding try_skill take_picked
    try_skill-Inv is_review counts prefer (st, added) sk inv room =
        let picked =
          pick_content cs.content cs.comfort cs.stretch st sk is_review (prefer (st, added)) in
        if_elim (λ (q : Progress F). Kept q.0) (has sk st.used_skills) (st, added)
          (take_picked cs counts (st, added) picked) (λ _. inv)
          (λ _. elim (Option-cases picked) [
            | inl e ↦ rw (e, take_picked) inv
            | inr (sel, e) ↦
                rw (e, take_picked)
                  (if_elim (λ (q : Progress F). Kept q.0) (fits cs st sel.content)
                    (
                      add_selection st sel,
                      if counts && has sel.content.cefr_level cs.stretch then suc added else added,
                    )
                    (st, added)
                    (λ g.
                      add_fitting-Inv st sel inv
                        (pick_content-Usable P cs.content cs.comfort cs.stretch st sk is_review
                          (prefer (st, added)) sel stock e)
                        room g)
                    (λ _. inv))
          ])

    skill_phase-Inv :
        (is_review counts : Bool) (prefer : Progress F → Bool) (skills : List (LearnerSkillState F))
        (p : Progress F)
        → Kept p.0
        → Kept (skill_phase cs is_review counts prefer skills p).0
    unfolding skill_phase
    skill_phase-Inv is_review counts prefer [] p inv = inv
    skill_phase-Inv is_review counts prefer (sk ∷ skills) p inv =
        let next = try_skill cs is_review counts prefer p sk.skill_id in
        if_elim (λ (q : Progress F). Kept q.0) (ltb (length p.0.selections) cs.max_items)
          (skill_phase cs is_review counts prefer skills next) p
          (λ e. skill_phase-Inv is_review counts prefer skills next (
            try_skill-Inv is_review counts prefer p sk.skill_id inv
              (ltb→lt (length p.0.selections) cs.max_items e)))
          (λ _. inv)

    try_fill-Inv :
        (only_general : Bool) (st : Selecting F) (c : ContentAtom F)
        → P c
        → Kept st
        → length st.selections < cs.max_items
        → Kept (try_fill cs only_general st c)
    unfolding try_fill
    try_fill-Inv only_general st c p inv room =
        let skip =
          has_id c.id st.used_content
          || not (is_allowed cs c.cefr_level)
          || (only_general && not (has "general" c.domain_tags)) in
        let add = add_selection st (general_selection cs c) in
        if_elim Kept skip st (if fits cs st c then add else st) (λ _. inv)
          (λ e.
            if_elim Kept (fits cs st c) add st
              (λ g. add_fitting-Inv st (general_selection cs c) inv (p, ground (arith, e)) room g)
              (λ _. inv))

    fill_pass-Inv :
        (only_general : Bool) (content : List (ContentAtom F)) (st : Selecting F)
        → All P content
        → Kept st
        → Kept (fill_pass cs only_general content st)
    unfolding fill_pass
    fill_pass-Inv only_general [] st h inv = inv
    fill_pass-Inv only_general (c ∷ content) st (p, h) inv =
        let next = try_fill cs only_general st c in
        if_elim Kept (ltb (length st.selections) cs.max_items)
          (fill_pass cs only_general content next) st
          (λ e.
            fill_pass-Inv only_general content next h
              (try_fill-Inv only_general st c p inv (ltb→lt (length st.selections) cs.max_items e)))
          (λ _. inv)

  first_phase-Inv :
      (assignment : Option TeacherAssignment)
      → pos_part cs.assignment_count ≤ cs.max_items
      → Own (first_phase cs assignment)
  unfolding first_phase
  first_phase-Inv none few = new_selecting-Inv P cs.max_items 0 cs.time_limit
  first_phase-Inv (some a) few =
      assign_phase-Inv a.target_skills new_selecting few
        (new_selecting-Inv P cs.max_items 0 cs.time_limit)

  -- All five phases together: the time of the first phase is the only one that may be over the limit.
  pub select_with_constraints-Inv :
      (due weak new_ : List (LearnerSkillState F)) (assignment : Option TeacherAssignment)
      → pos_part cs.assignment_count ≤ cs.max_items
      → Inv P cs.max_items
          (first_phase cs assignment).total_time
          cs.time_limit
          (select_with_constraints cs due weak new_ assignment)
  unfolding select_with_constraints due_phase weak_phase new_phase fill_phase
  select_with_constraints-Inv due weak new_ assignment few =
      let b = (first_phase cs assignment).total_time in
      let p1 : Progress F = (first_phase cs assignment, 0) in
      let p2 = due_phase cs due p1 in
      let p3 = weak_phase cs weak p2 in
      let p4 = new_phase cs new_ p3 in
      let kept =
        skill_phase-Inv b true true (λ p. needs_stretch cs p && (length p.0.selections % 3 == 0))
          due p1 (first_phase-Inv assignment few) in
      let kept3 = skill_phase-Inv b true false (λ p. false) weak p2 kept in
      let kept4 = skill_phase-Inv b false true (needs_stretch cs) new_ p3 kept3 in
      fill_pass-Inv b false cs.content (fill_pass cs true cs.content p4.0) stock
        (fill_pass-Inv b true cs.content p4.0 stock kept4)
