-- ===== src/Engine/Composer/Adapt/Search.antt =====
-- The searches of adaptForStruggling and adaptForCoasting of session_composer.go, and the rewriting of
-- one item.
use ruskiy.Shared.{
  ℕ, suc, ◌+◌, ◌<◌, ◌==◌, if◌then◌else◌, Bool, true, false, List, [], ◌∷◌, length, get_elem?,
  Option, none, some, String, ◌≡◌, ◌≢◌, inl, inr, refl, arith, Bool-cases, Option-cases, if_elim,
  get_elem?-set_ne,
}
use ruskiy.Shared.Int.{int_laws}
use ruskiy.Platform.{Float}
use ruskiy.Model.{is_cooldown}
use ruskiy.Engine.Data.{ContentSelection, ComposedItem, ComposedSession}
use ruskiy.Engine.Composer.Items.{roles, IsTimed, sum_times-set, roles-set}
use ruskiy.Engine.Composer.Adapt.{
  ExerciseAttempt, is_struggling, replace_item, is_easier, harder_than, keep_harder, easier_match,
  harder_match, find_harder,
}

pub struggling_some :
    (results : List ExerciseAttempt) → is_struggling results ≡ true → (length results == 0) ≡ false
unfolding is_struggling
struggling_some [] h = cc
struggling_some (a ∷ as_) h = ground arith

module _ {F : Type 0} where
  -- One upcoming item was rewritten in place.
  pub record Rewritten (current i : ℕ) (s s' : ComposedSession F) : Type 0 where
    pub upcoming : current < i
    pub same_roles : roles s'.items ≡ roles s.items
    pub others : (j : ℕ) → j ≢ i → get_elem? s'.items j ≡ get_elem? s.items j
    pub timed : IsTimed s → IsTimed s'
    pub same_budget : s'.time_budget ≡ s.time_budget

  pub replace_item-Rewritten :
      (s : ComposedSession F) (current i : ℕ) (old new : ComposedItem F)
      → current < i
      → get_elem? s.items i ≡ some old
      → new.role ≡ old.role
      → Rewritten current i s (replace_item s i old new)
  unfolding replace_item
  replace_item-Rewritten s current i old new h e r = record {
    upcoming = h;
    same_roles = roles-set s.items i new e r;
    others = λ j n. get_elem?-set_ne s.items i j new n;
    timed = λ t. rw t (omega (int_laws, sum_times-set s.items i new e));
    same_budget = refl;
  }

module _ {F : Type 0} ⦃fl : Float F⦄ where
  abbrev pub OptionAll : (ContentSelection F → Type 0) → Option (ContentSelection F) → Type 0
  OptionAll P none = Unit
  OptionAll P (some cs) = P cs

  OptionAll-keep_harder :
      (P : ContentSelection F → Type 0) (fits : Bool) (best : Option (ContentSelection F))
      (cs : ContentSelection F)
      → (fits ≡ true → P cs)
      → OptionAll P best
      → OptionAll P (keep_harder fits best cs)
  OptionAll-keep_harder P fits best cs f h =
      let kept : Option (ContentSelection F) = if harder_than best cs then some cs else best in
      if_elim (OptionAll P) fits kept best
        (λ e. if_elim (OptionAll P) (harder_than best cs) (some cs) best (λ _. f e) (λ _. h))
        (λ _. h)

  pub easier_match_sound :
      (skill : String) (current : F) (pool : List (ContentSelection F))
      (best : Option (ContentSelection F))
      → OptionAll (λ cs. is_easier skill current cs ≡ true) best
      → OptionAll (λ cs. is_easier skill current cs ≡ true) (easier_match skill current best pool)
  unfolding easier_match
  easier_match_sound skill current [] best h = h
  easier_match_sound skill current (cs ∷ pool) best h =
      let fits = is_easier skill current cs in
      easier_match_sound skill current pool (keep_harder fits best cs)
        (OptionAll-keep_harder (λ c. is_easier skill current c ≡ true) fits best cs (λ e. e) h)

  abbrev pub IsHarder : F → ContentSelection F → Type 0
  IsHarder orig cs = fl.le (fl.add orig (fl.lit 15 2)) cs.content.difficulty ≡ true

  pub harder_match_sound :
      (orig : F) (pool : List (ContentSelection F)) (best : Option (ContentSelection F))
      → OptionAll (IsHarder orig) best
      → OptionAll (IsHarder orig) (harder_match orig best pool)
  unfolding harder_match
  harder_match_sound orig [] best h = h
  harder_match_sound orig (cs ∷ pool) best h =
      let fits = fl.le (fl.add orig (fl.lit 15 2)) cs.content.difficulty in
      harder_match_sound orig pool (keep_harder fits best cs)
        (OptionAll-keep_harder (IsHarder orig) fits best cs (λ e. e) h)

  pub find_harder_sound :
      (i : ℕ) (its : List (ComposedItem F)) (pool : List (ContentSelection F)) {i' : ℕ}
      {it : ComposedItem F} {cs : ContentSelection F}
      → find_harder i its pool ≡ some (i', it, cs)
      → (j : ℕ) × (i' ≡ i + j)
        × (get_elem? its j ≡ some it)
        × (is_cooldown it.role ≡ false)
        × IsHarder it.difficulty cs
  unfolding find_harder
  find_harder_sound i [] pool e = ground arith
  find_harder_sound i (it ∷ its) pool {i' = i'} {it = old} {cs = cs} e =
      elim (Bool-cases (is_cooldown it.role)) [
        | inl c ↦
            let (j, a, b, d, f) =
              find_harder_sound (i + 1) its pool {i' = i'} {it = old} {cs = cs} (ground arith) in
            (suc j, omega arith, b, d, f)
        | inr c ↦ elim (Option-cases (harder_match it.difficulty none pool)) [
          | inl m ↦
              let (j, a, b, d, f) =
                find_harder_sound (i + 1) its pool {i' = i'} {it = old} {cs = cs} (ground arith) in
              (suc j, omega arith, b, d, f)
          | inr (best, m) ↦
              let sound : OptionAll (IsHarder it.difficulty) (some best) =
                rw m at (harder_match_sound it.difficulty pool none tt) in
              (0, ground arith, ground arith, ground arith, ground (arith, sound))
        ]
      ]
