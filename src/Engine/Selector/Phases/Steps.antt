-- ===== src/Engine/Selector/Phases/Steps.antt =====
-- The invariant of selectWithConstraints, and that adding unused content keeps it.
use ruskiy.Shared.{
  ℕ, ◌+◌, ◌≤◌, ◌<◌, ◌==◌, ==→eq, Bool, Bool-cases, false, List, [], ◌∷◌, ◌++◌, length,
  length-append, has_id, ◌≡◌, refl, arith, All, All-append, count_by, count_by-append, ◌⊎◌, inl,
  inr,
}
use ruskiy.Shared.Int.{ℤ, pos, ◌≤ℤ◌}
use mathlib.Core.Path.{subst}
use ruskiy.Model.{ContentAtom}
use ruskiy.Engine.Data.{ContentSelection}
use ruskiy.Engine.Selector.Pool.{atom_time}
use ruskiy.Engine.Selector.Pick.{Selecting, new_selecting, add_selection}
use ruskiy.Engine.Selector.Pick.Laws.{Usable}

module _ {F : Type 0} where
  abbrev pub has_content : ℕ → ContentSelection F → Bool
  has_content k s = s.content.id == k

  -- The sum of the selections' times, with the default for content without one.
  abbrev pub sum_selection_times : List (ContentSelection F) → ℕ
  sum_selection_times [] = 0
  sum_selection_times (s ∷ ss) = atom_time s.content + sum_selection_times ss

  sum_selection_times-append :
      (xs ys : List (ContentSelection F))
      → sum_selection_times (xs ++ ys) ≡ sum_selection_times xs + sum_selection_times ys
  sum_selection_times-append [] ys = omega arith
  sum_selection_times-append (x ∷ xs) ys = omega (arith, sum_selection_times-append xs ys)

module _ {F : Type 0} (P : ContentAtom F → Type 0) (cap base : ℕ) (limit : ℤ) where
  -- All content has the property P, no content comes twice, the sets and the time agree with the
  -- selections; there are at most `cap`, and the time is at most `base` or within the limit.
  pub record Inv (st : Selecting F) : Type 0 where
    pub chosen : All (λ s. P s.content) st.selections
    pub distinct : (k : ℕ) → count_by (has_content k) st.selections ≤ 1
    pub marked :
        (k : ℕ) → has_id k st.used_content ≡ false → count_by (has_content k) st.selections ≡ 0
    pub timed : st.total_time ≡ sum_selection_times st.selections
    pub few : length st.selections ≤ cap
    pub within : (st.total_time ≤ base) ⊎ (pos st.total_time ≤ℤ limit)

  pub new_selecting-Inv : Inv new_selecting
  new_selecting-Inv = record {
    chosen = tt;
    distinct = λ k. omega arith;
    marked = λ k e. refl;
    timed = refl;
    few = omega arith;
    within = inl (omega arith);
  }

  pub add_selection-Inv :
      (st : Selecting F) (sel : ContentSelection F)
      → Inv st
      → Usable P st sel.content
      → length st.selections < cap
      → (st.total_time + atom_time sel.content ≤ base)
        ⊎ (pos (st.total_time + atom_time sel.content) ≤ℤ limit)
      → Inv (add_selection st sel)
  unfolding add_selection
  add_selection-Inv st sel inv (p, unused) room time =
      let id = sel.content.id in
      let fresh : has_id id st.used_content ≡ false = ground (arith, unused) in
      let count = λ (k : ℕ). count_by-append (has_content k) st.selections (sel ∷ []) in
      record {
        chosen = All-append (λ s. P s.content) st.selections (sel ∷ []) inv.chosen (p, tt);
        distinct = λ k. elim (Bool-cases (id == k)) [
          | inl e ↦
              let zero_before =
                inv.marked k (subst (λ n. has_id n st.used_content ≡ false) (==→eq id k e) fresh) in
              rw (count k, zero_before, e) (omega arith)
          | inr e ↦ rw (count k, e) (omega (arith, inv.distinct k))
        ];
        marked = λ k e. elim (Bool-cases (id == k)) [
          | inl e2 ↦ absurd (ground (arith, (rw e2 at e)))
          | inr e2 ↦ rw (count k, e2) (omega (arith, inv.marked k (rw e2 at e)))
        ];
        timed = omega (arith, inv.timed, sum_selection_times-append st.selections (sel ∷ []));
        few = omega (arith, length-append st.selections (sel ∷ []), room);
        within = time;
      }
