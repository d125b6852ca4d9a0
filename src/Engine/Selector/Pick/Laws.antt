-- ===== src/Engine/Selector/Pick/Laws.antt =====
-- What pickContent picks, and what addSelection keeps.
use ruskiy.Shared.{
  ℕ, ltb, not, ◌&&◌, &&→both, ◌||◌, if◌then◌else◌, if_elim, Bool, true, List, [], ◌∷◌, has, has_id,
  Option, Option-cases, none, some, String, str_eq, ◌≡◌, arith, All, inl, inr,
}
use mathlib.Core.Path.{subst}
use ruskiy.Model.{ContentAtom}
use ruskiy.Engine.Data.{ContentSelection}
use ruskiy.Engine.Selector.Pick.{
  Selecting, score, for_each_target, content_by_skill, best_candidate, first_where, is_unused,
  pick_atom, pick_content,
}

module _ {F : Type 0} (P : ContentAtom F → Type 0) where
  for_each_target-All :
      (skill_id : String) (sks : List String) (c : ContentAtom F) (rest : List (ContentAtom F))
      → P c
      → All P rest
      → All P (for_each_target skill_id sks c rest)
  for_each_target-All skill_id [] c rest p h = h
  for_each_target-All skill_id (sk ∷ sks) c rest p h =
      let more = for_each_target skill_id sks c rest in
      let ih = for_each_target-All skill_id sks c rest p h in
      if_elim (All P) (str_eq sk skill_id) (c ∷ more) more (λ _. (p, ih)) (λ _. ih)

  content_by_skill-All :
      (content : List (ContentAtom F)) (skill_id : String)
      → All P content
      → All P (content_by_skill content skill_id)
  content_by_skill-All [] skill_id h = tt
  content_by_skill-All (c ∷ content) skill_id (p, h) =
      for_each_target-All skill_id c.target_skills c (content_by_skill content skill_id) p
        (content_by_skill-All content skill_id h)

  -- The content is unused so far.
  abbrev pub Usable : Selecting F → ContentAtom F → Type 0
  Usable st c = P c × (is_unused st c ≡ true)

  abbrev Maybe : Selecting F → Option (ContentAtom F) → Type 0
  Maybe st none = Unit
  Maybe st (some c) = Usable st c

  abbrev MaybeScored : Selecting F → Option (ContentAtom F × ℕ) → Type 0
  MaybeScored st none = Unit
  MaybeScored st (some (c, _)) = Usable st c

  first_where-Usable :
      (st : Selecting F) (p : ContentAtom F → Bool)
      → ((c : ContentAtom F) → p c ≡ true → is_unused st c ≡ true)
      → (cs : List (ContentAtom F)) → All P cs
      → Maybe st (first_where p cs)
  unfolding first_where
  first_where-Usable st p unused [] h = tt
  first_where-Usable st p unused (c ∷ cs) (q, h) =
      if_elim (Maybe st) (p c) (some c) (first_where p cs) (λ e. (q, unused c e))
        (λ _. first_where-Usable st p unused cs h)

  module _ (content : List (ContentAtom F)) (comfort stretch : List String) where
    best_candidate-Usable :
        (prefer : Bool) (st : Selecting F) (cs : List (ContentAtom F))
        (best : Option (ContentAtom F × ℕ))
        → All P cs
        → MaybeScored st best
        → MaybeScored st (best_candidate content comfort stretch prefer st cs best)
    unfolding best_candidate
    best_candidate-Usable prefer st [] best h b = b
    best_candidate-Usable prefer st (c ∷ cs) best (q, h) b =
        let sc = score content comfort stretch prefer st c in
        let better : Bool = elim best [ none ↦ true | some (_, n) ↦ ltb n sc ] in
        let test = not (has_id c.id st.used_content) && better in
        best_candidate-Usable prefer st cs (if test then some (c, sc) else best) h (
          if_elim (MaybeScored st) test (some (c, sc)) best
            (λ e. (q, (&&→both (not (has_id c.id st.used_content)) better e).0)) (λ _. b))

    pick_atom-Usable :
        (prefer : Bool) (st : Selecting F) (cs : List (ContentAtom F))
        → All P cs
        → Maybe st (pick_atom content comfort stretch prefer st cs)
    unfolding pick_atom
    pick_atom-Usable prefer st cs h =
        let allowed : ContentAtom F → Bool =
          λ c. is_unused st c && (has c.cefr_level comfort || has c.cefr_level stretch) in
        elim (Option-cases (best_candidate content comfort stretch prefer st cs none)) [
          | inr ((c, n), e) ↦
              rw (e, pick_atom)
                (subst (MaybeScored st) e (best_candidate-Usable prefer st cs none h tt))
          | inl e ↦ elim (Option-cases (first_where allowed cs)) [
            | inr (c, e2) ↦
                rw (e, e2, pick_atom)
                  (subst (Maybe st) e2 (
                    first_where-Usable st allowed
                      (λ d g.
                        (&&→both (is_unused st d)
                          (has d.cefr_level comfort || has d.cefr_level stretch) g).0)
                      cs h))
            | inl e2 ↦ rw (e, e2, pick_atom) (first_where-Usable st (is_unused st) (λ d g. g) cs h)
          ]
        ]

    -- What pickContent returns is not used yet.
    pub pick_content-Usable :
        (st : Selecting F) (skill_id : String) (is_review prefer : Bool) (sel : ContentSelection F)
        → All P content
        → pick_content content comfort stretch st skill_id is_review prefer ≡ some sel
        → Usable st sel.content
    unfolding pick_content
    pick_content-Usable st skill_id is_review prefer sel h e =
        let candidates = content_by_skill content skill_id in
        elim (Option-cases (pick_atom content comfort stretch prefer st candidates)) [
          | inl e2 ↦ absurd (ground (arith, (rw (e2, pick_content) at e)))
          | inr (c, e2) ↦
              subst (λ x. Usable st x) (ground (arith, (rw (e2, pick_content) at e)))
                (subst (Maybe st) e2
                  (pick_atom-Usable prefer st candidates (content_by_skill-All content skill_id h)))
        ]
