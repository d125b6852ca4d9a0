-- ===== src/Engine/Selector/Generate/Finish.antt =====
-- Reordering and giving roles change neither which content is selected nor its time.
use ruskiy.Shared.{
  ℕ, zero, suc, ◌+◌, ◌-◌, ◌==◌, leb, ltb, if◌then◌else◌, if_elim, List, [], ◌∷◌, length, length-set,
  length-replicate, set, replicate, ◌≡◌, refl, ◌∙◌, ap, arith, All, count_by,
}
use mathlib.Core.Path.{subst}
use mathlib.Core.List.{Permᴰ}
use ruskiy.Model.{ContentAtom, SessionItemRole, no_role, warmup, core, cooldown}
use ruskiy.Engine.Data.{ContentSelection}
use ruskiy.Engine.Session.Roles.{fill, assign_small, assign_middle, assign_full, assign_roles}
use ruskiy.Engine.Selector.Pool.{atom_time}
use ruskiy.Engine.Selector.Phases.Steps.{has_content, sum_selection_times}
use ruskiy.Engine.Selector.Generate.{set_roles}

length-fill :
    (rounds i : ℕ) (r : SessionItemRole) (roles : List SessionItemRole)
    → length (fill rounds i r roles) ≡ length roles
unfolding fill
length-fill zero i r roles = refl
length-fill (suc rounds) i r roles =
    length-fill rounds (i + 1) r (set roles i r) ∙ length-set roles i r

module _ (count : ℕ) (roles : List SessionItemRole) where
  length-assign_small : length (assign_small count roles) ≡ length roles
  unfolding assign_small
  length-assign_small =
      let r1 = fill (count - 2) 1 core (set roles 0 warmup) in
      let same = length-fill (count - 2) 1 core (set roles 0 warmup) ∙ length-set roles 0 warmup in
      if_elim (λ l. length l ≡ length roles) (ltb 1 count) (set r1 (count - 1) cooldown) r1
        (λ _. length-set r1 (count - 1) cooldown ∙ same) (λ _. same)

  length-assign_middle : length (assign_middle count roles) ≡ length roles
  unfolding assign_middle
  length-assign_middle = simp (length-fill, length-set {A = SessionItemRole})

  length-assign_full : length (assign_full count roles) ≡ length roles
  unfolding assign_full
  length-assign_full = simp (length-fill, length-set {A = SessionItemRole})

pub length-assign_roles : (count : ℕ) → length (assign_roles count) ≡ count
unfolding assign_roles
length-assign_roles zero = refl
length-assign_roles (suc n) =
    let blank = replicate (suc n) no_role in
    let size = length-replicate (suc n) no_role in
    if_elim (λ l. length l ≡ suc n) (leb (suc n) 3) (assign_small (suc n) blank)
      (if leb (suc n) 5 then assign_middle (suc n) blank else assign_full (suc n) blank)
      (λ _. length-assign_small (suc n) blank ∙ size)
      (λ _.
        if_elim (λ l. length l ≡ suc n) (leb (suc n) 5) (assign_middle (suc n) blank)
          (assign_full (suc n) blank) (λ _. length-assign_middle (suc n) blank ∙ size)
          (λ _. length-assign_full (suc n) blank ∙ size))

module _ {F : Type 0} where
  abbrev pub role_list : List (ContentSelection F) → List SessionItemRole
  role_list [] = []
  role_list (s ∷ ss) = s.role ∷ role_list ss

  pub role_list-set_roles :
      (ss : List (ContentSelection F)) (roles : List SessionItemRole)
      → length roles ≡ length ss
      → role_list (set_roles ss roles) ≡ roles
  unfolding set_roles
  role_list-set_roles [] [] e = refl
  role_list-set_roles [] (r ∷ roles) e = absurd (ground (arith, e))
  role_list-set_roles (s ∷ ss) [] e = absurd (ground (arith, e))
  role_list-set_roles (s ∷ ss) (r ∷ roles) e =
      ap (λ l. r ∷ l) (role_list-set_roles ss roles (omega arith))

  pub length-set_roles :
      (ss : List (ContentSelection F)) (roles : List SessionItemRole)
      → length (set_roles ss roles) ≡ length ss
  unfolding set_roles
  length-set_roles [] roles = refl
  length-set_roles (s ∷ ss) [] = refl
  length-set_roles (s ∷ ss) (r ∷ roles) = ap suc (length-set_roles ss roles)

  pub count_by-set_roles :
      (k : ℕ) (ss : List (ContentSelection F)) (roles : List SessionItemRole)
      → count_by (has_content k) (set_roles ss roles) ≡ count_by (has_content k) ss
  unfolding set_roles
  count_by-set_roles k [] roles = refl
  count_by-set_roles k (s ∷ ss) [] = refl
  count_by-set_roles k (s ∷ ss) (r ∷ roles) =
      ap (λ n. (if s.content.id == k then 1 else 0) + n) (count_by-set_roles k ss roles)

  pub sum_selection_times-set_roles :
      (ss : List (ContentSelection F)) (roles : List SessionItemRole)
      → sum_selection_times (set_roles ss roles) ≡ sum_selection_times ss
  unfolding set_roles
  sum_selection_times-set_roles [] roles = refl
  sum_selection_times-set_roles (s ∷ ss) [] = refl
  sum_selection_times-set_roles (s ∷ ss) (r ∷ roles) =
      ap (λ n. atom_time s.content + n) (sum_selection_times-set_roles ss roles)

  pub sum_selection_times-perm :
      {as_ bs : List (ContentSelection F)}
      → Permᴰ as_ bs
      → sum_selection_times as_ ≡ sum_selection_times bs
  sum_selection_times-perm Permᴰ.nil = refl
  sum_selection_times-perm (Permᴰ.cons e r) =
      let one : ContentSelection F → ℕ = λ s. atom_time s.content in
      omega (arith, ap one e, sum_selection_times-perm r)
  sum_selection_times-perm (Permᴰ.swap e e') =
      let one : ContentSelection F → ℕ = λ s. atom_time s.content in
      omega (arith, ap one e, ap one e')
  sum_selection_times-perm (Permᴰ.trans r r') =
      sum_selection_times-perm r ∙ sum_selection_times-perm r'

  module _ (P : ContentAtom F → Type 0) where
    pub All-set_roles :
        (ss : List (ContentSelection F)) (roles : List SessionItemRole)
        → All (λ s. P s.content) ss
        → All (λ s. P s.content) (set_roles ss roles)
    unfolding set_roles
    All-set_roles [] roles h = tt
    All-set_roles (s ∷ ss) [] h = h
    All-set_roles (s ∷ ss) (r ∷ roles) (p, h) = (p, All-set_roles ss roles h)

    pub All-Permᴰ :
        {as_ bs : List (ContentSelection F)}
        → Permᴰ as_ bs
        → All (λ s. P s.content) as_
        → All (λ s. P s.content) bs
    All-Permᴰ Permᴰ.nil h = h
    All-Permᴰ (Permᴰ.cons e r) (p, h) = (subst (λ s. P s.content) e p, All-Permᴰ r h)
    All-Permᴰ (Permᴰ.swap e e') (p, rest) =
        (subst (λ s. P s.content) e' rest.0, (subst (λ s. P s.content) e p, rest.1))
    All-Permᴰ (Permᴰ.trans r r') h = All-Permᴰ r' (All-Permᴰ r h)
