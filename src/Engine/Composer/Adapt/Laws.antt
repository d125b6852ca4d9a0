-- ===== src/Engine/Composer/Adapt/Laws.antt =====
-- EvaluateAdaptation of session_composer.go: what it changes in a session, and by what content.
use ruskiy.Shared.{
  ℕ, ◌+◌, ◌<◌, ◌==◌, leb, ◌||◌, if◌then◌else◌, true, false, List, length, drop, get_elem?, Option,
  none, some, String, ◌≡◌, ◌⊎◌, inl, inr, refl, sym, ◌∙◌, ap, arith, Option-cases, if_elim,
  get_elem?-set_self, get_elem?-set_ne, get_elem?-drop, get_elem?-total,
}
use ruskiy.Shared.Int.{pos}
use ruskiy.Platform.{Float}
use ruskiy.Model.{is_cooldown}
use ruskiy.Engine.Data.{ContentSelection, ComposedItem, ComposedSession}
use ruskiy.Engine.Composer.Items.{sum_times-set, roles-set}
use ruskiy.Engine.Composer.Adapt.{
  ExerciseAttempt, AdaptationResult, not_adapted, is_struggling, is_coasting, replace_item,
  is_easier, easier_match, with_content, use_easier, adapt_for_struggling, find_harder, use_harder,
  adapt_for_coasting, evaluate_adaptation, last_skill,
}
use ruskiy.Engine.Composer.Adapt.Search.{
  Rewritten, replace_item-Rewritten, OptionAll, easier_match_sound, find_harder_sound,
  struggling_some,
}

module _ {F : Type 0} ⦃fl : Float F⦄ where
  -- What a struggling learner gets: the next item keeps its place and role, has a hint, and either
  -- keeps its content or has easier content for the skill that was missed.
  pub record Eased (skill : String) (current : ℕ) (s : ComposedSession F) (it : ComposedItem F)
      (p : ComposedSession F × AdaptationResult) : Type 0 where
    pub adapted : p.1.adapted ≡ true
    pub replaced : p.1.replaced_index ≡ current + 1
    pub rewritten : Rewritten current (current + 1) s p.0
    pub item :
        (new : ComposedItem F) × (get_elem? p.0.items (current + 1) ≡ some new)
        × (new.hint_level ≡ 1)
        × ((new.content ≡ it.content) ⊎ (is_easier skill it.difficulty new.content ≡ true))

  use_easier-Eased :
      (skill : String) (s : ComposedSession F) (current : ℕ) (it : ComposedItem F)
      (o : Option (ContentSelection F))
      → get_elem? s.items (current + 1) ≡ some it
      → OptionAll (λ c. is_easier skill it.difficulty c ≡ true) o
      → Eased skill current s it (use_easier s (current + 1) it o)
  use_easier-Eased skill s current it none e _ =
      let new : ComposedItem F = record it { hint_level = 1 } in
      record {
        adapted = refl;
        replaced = refl;
        rewritten = record {
          upcoming = omega arith;
          same_roles = roles-set s.items (current + 1) new e refl;
          others = λ j n. get_elem?-set_ne s.items (current + 1) j new n;
          timed = λ t. rw t (ap pos (omega (arith, sum_times-set s.items (current + 1) new e)));
          same_budget = refl;
        };
        item = (new, get_elem?-set_self s.items (current + 1) new e, refl, inl refl);
      }
  use_easier-Eased skill s current it (some cs) e sound =
      let new = with_content it cs (current + 1) 1 in
      record {
        adapted = refl;
        replaced = refl;
        rewritten = replace_item-Rewritten s current (current + 1) it new (omega arith) e refl;
        item = (
          new,
          unfold replace_item in get_elem?-set_self s.items (current + 1) new e,
          refl,
          inr sound,
        );
      }

  adapt_for_struggling-Eased :
      (s : ComposedSession F) (results : List ExerciseAttempt) (current : ℕ)
      (pool : List (ContentSelection F)) {it : ComposedItem F}
      → get_elem? s.items (current + 1) ≡ some it
      → Eased (last_skill results) current s it (adapt_for_struggling s results current pool)
  unfolding adapt_for_struggling
  adapt_for_struggling-Eased s results current pool {it} e =
      let found = easier_match (last_skill results) it.difficulty none pool in
      rw (e, adapt_for_struggling)
        (use_easier-Eased (last_skill results) s current it found e
          (easier_match_sound (last_skill results) it.difficulty pool none tt))

  -- What a coasting learner gets, where there is harder content: one upcoming item, no cooldown, has
  -- content that is harder by at least 0.15.
  pub record Hardened (current : ℕ) (s : ComposedSession F)
      (p : ComposedSession F × AdaptationResult) : Type 0 where
    pub rewritten : Rewritten current p.1.replaced_index s p.0
    pub item :
        (old : ComposedItem F) × (new : ComposedItem F) × (get_elem? s.items p.1.replaced_index
          ≡ some old)
        × (get_elem? p.0.items p.1.replaced_index ≡ some new)
        × (is_cooldown old.role ≡ false)
        × (fl.le (fl.add old.difficulty (fl.lit 15 2)) new.difficulty ≡ true)

  use_harder-Hardened :
      (s : ComposedSession F) (current : ℕ) (pool : List (ContentSelection F))
      (o : Option (ℕ × ComposedItem F × ContentSelection F))
      → find_harder (current + 1) (drop (current + 1) s.items) pool ≡ o
      → (use_harder s o).1.adapted ≡ true
      → Hardened current s (use_harder s o)
  use_harder-Hardened s current pool none e h = cc
  use_harder-Hardened s current pool (some (i, it, cs)) e h =
      let (j, place, there, role, harder) =
        find_harder_sound (current + 1) (drop (current + 1) s.items) pool e in
      let old : get_elem? s.items i ≡ some it =
        rw place (sym (get_elem?-drop (current + 1) s.items j) ∙ there) in
      let new = with_content it cs i 0 in
      record {
        rewritten = replace_item-Rewritten s current i it new (omega arith) old refl;
        item = (
          it,
          new,
          old,
          unfold replace_item in get_elem?-set_self s.items i new old,
          role,
          harder,
        );
      }

  adapt_for_struggling_unchanged :
      (s : ComposedSession F) (results : List ExerciseAttempt) (current : ℕ)
      (pool : List (ContentSelection F))
      → (adapt_for_struggling s results current pool).1.adapted ≡ false
      → (adapt_for_struggling s results current pool).0 ≡ s
  unfolding adapt_for_struggling
  adapt_for_struggling_unchanged s results current pool h =
      elim (Option-cases (get_elem? s.items (current + 1))) [
        | inl e ↦ rw (e, adapt_for_struggling) refl
        | inr (it, e) ↦ cc ((adapt_for_struggling-Eased s results current pool e).adapted)
      ]

  use_harder_unchanged :
      (s : ComposedSession F) (o : Option (ℕ × ComposedItem F × ContentSelection F))
      → (use_harder s o).1.adapted ≡ false
      → (use_harder s o).0 ≡ s
  use_harder_unchanged s none h = refl
  use_harder_unchanged s (some (i, it, cs)) h = cc

  adapt_for_coasting_unchanged :
      (s : ComposedSession F) (current : ℕ) (pool : List (ContentSelection F))
      → (adapt_for_coasting s current pool).1.adapted ≡ false
      → (adapt_for_coasting s current pool).0 ≡ s
  unfolding adapt_for_coasting
  adapt_for_coasting_unchanged s current pool = use_harder_unchanged s _

  -- When the last three attempts are wrong and an item is left, EvaluateAdaptation rewrites just the
  -- next item: same role, a hint, and the old content or easier content (below the old difficulty and
  -- below 0.4) that targets the skill of the last attempt. All other items stay, and a session whose
  -- TotalEstTime is the sum of its items' times remains one.
  pub evaluate_adaptation_eases :
      (s : ComposedSession F) (results : List ExerciseAttempt) (current : ℕ)
      (pool : List (ContentSelection F))
      → is_struggling results ≡ true
      → current + 1 < length s.items
      → (it : ComposedItem F) × (get_elem? s.items (current + 1) ≡ some it)
        × Eased (last_skill results) current s it (evaluate_adaptation s results current pool)
  unfolding evaluate_adaptation
  evaluate_adaptation_eases s results current pool h room =
      let (it, e) = get_elem?-total s.items (current + 1) room in
      let late : leb (length s.items) (current + 1) ≡ false = ground arith in
      (
        it,
        e,
        rw (struggling_some results h, late, h)
            (adapt_for_struggling-Eased s results current pool e),
      )

  -- When EvaluateAdaptation adapts without a struggle, the last five attempts were correct and fast,
  -- and it rewrote just one upcoming item, which is no cooldown and keeps its role, by content that is
  -- harder by at least 0.15; the time stays the sum of the items' times.
  pub evaluate_adaptation_hardens :
      (s : ComposedSession F) (results : List ExerciseAttempt) (current : ℕ)
      (pool : List (ContentSelection F))
      → is_struggling results ≡ false
      → (evaluate_adaptation s results current pool).1.adapted ≡ true
      → (is_coasting results ≡ true)
        × Hardened current s (evaluate_adaptation s results current pool)
  unfolding evaluate_adaptation
  evaluate_adaptation_hardens s results current pool calm =
      let P : ComposedSession F × AdaptationResult → Type 0 =
        λ p. p.1.adapted ≡ true → (is_coasting results ≡ true) × Hardened current s p in
      let late = length results == 0 || leb (length s.items) (current + 1) in
      let coast = adapt_for_coasting s current pool in
      let found = find_harder (current + 1) (drop (current + 1) s.items) pool in
      rw calm (
        if_elim P late (s, not_adapted) (if is_coasting results then coast else (s, not_adapted))
          (λ _. cc)
          λ _.
            if_elim P (is_coasting results) coast (s, not_adapted)
              (λ fast h. (
                fast,
                unfold adapt_for_coasting in use_harder-Hardened s current pool found refl h,
              ))
              (λ _. cc))

  -- When EvaluateAdaptation reports no adaptation, on whichever branch, the session is what it was.
  evaluate_adaptation_unchanged :
      (s : ComposedSession F) (results : List ExerciseAttempt) (current : ℕ)
      (pool : List (ContentSelection F))
      → (evaluate_adaptation s results current pool).1.adapted ≡ false
      → (evaluate_adaptation s results current pool).0 ≡ s
  unfolding evaluate_adaptation
  evaluate_adaptation_unchanged s results current pool =
      let P : ComposedSession F × AdaptationResult → Type 0 = λ p. p.1.adapted ≡ false → p.0 ≡ s in
      let late = length results == 0 || leb (length s.items) (current + 1) in
      let coast = adapt_for_coasting s current pool in
      let ease = adapt_for_struggling s results current pool in
      let calm = if is_coasting results then coast else (s, not_adapted) in
      if_elim P late (s, not_adapted) (if is_struggling results then ease else calm) (λ _ _. refl)
        λ _.
          if_elim P (is_struggling results) ease calm
            (λ _ h. adapt_for_struggling_unchanged s results current pool h)
            λ _.
              if_elim P (is_coasting results) coast (s, not_adapted)
                (λ _ h. adapt_for_coasting_unchanged s current pool h) (λ _ _. refl)
