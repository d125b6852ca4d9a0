-- ===== src/Engine/Selector/Sessions.antt =====
-- GenerateContentSet followed by ComposeSession, as a caller makes a session of them.
use ruskiy.Shared.{
  ℕ, ◌≤◌, ◌==◌, ==→eq, Bool-cases, true, false, List, [], ◌∷◌, length, has_id, some, String, ◌≡◌,
  ◌≢◌, refl, sym, ◌∙◌, arith, All, count_by, ◌⊎◌, inl, inr,
}
use mathlib.Core.Path.{subst}
use ruskiy.Shared.Int.{ℤ, pos, pos_part}
use ruskiy.Platform.{Float, SortSlice}
use ruskiy.Model.{ContentAtom}
use ruskiy.Engine.Data.{ContentSelection, ComposedSession}
use ruskiy.Engine.Composer.Place.{compose_session}
use ruskiy.Engine.Composer.Place.Marks.{count_id}
use ruskiy.Engine.Composer.Place.Conserve.{contents, compose_session_conserves}
use ruskiy.Engine.Selector.Phases.Steps.{has_content}
use ruskiy.Engine.Selector.Generate.{ContentSelectorInput, generate_content_set}
use ruskiy.Engine.Selector.Generate.Laws.{generate_content_set-Valid}

module _ {F : Type 0} where
  count_id-count_by :
      (k : ℕ) (ss : List (ContentSelection F)) → count_id k ss ≡ count_by (has_content k) ss
  count_id-count_by k [] = refl
  count_id-count_by k (s ∷ ss) = ground (arith, count_id-count_by k ss)

  -- A content ID that no selection may have is not counted.
  count_id-absent :
      (k : ℕ) (P : ContentAtom F → Type 0)
      → ((c : ContentAtom F) → P c → c.id ≢ k)
      → (ss : List (ContentSelection F)) → All (λ s. P s.content) ss
      → count_id k ss ≡ 0
  count_id-absent k P apart [] h = refl
  count_id-absent k P apart (s ∷ ss) (p, h) = elim (Bool-cases (s.content.id == k)) [
    | inl e ↦ absurd (apart s.content p (==→eq s.content.id k e))
    | inr e ↦ rw e (omega (arith, count_id-absent k P apart ss h))
  ]

  -- A session made of generated content, for content whose IDs are not nil: it has as many items as there are
  -- selections, each content ID as often as the selections have it, none twice, and none that was
  -- seen recently at all. The hypothesis on math.Ceil says that 40 percent of n <= 20 items are not more than n items.
  pub compose_session-generate_content_set :
      ⦃fl : Float F⦄ (sorting : SortSlice) (now : ℤ) (input : ContentSelectorInput F) (budget : ℤ)
      (seg : String)
      → ((n : ℕ)
          → n ≤ 20
          → pos_part (fl.to_int (fl.ceil (fl.mul (fl.of_int (pos n)) (fl.lit 4 1)))) ≤ n)
      → All (λ c. c.id ≢ 0) input.content
      → (s : ComposedSession F) × (compose_session sorting
            (generate_content_set now input)
            budget
            seg
          ≡ some s)
        × (length s.items ≡ length (generate_content_set now input))
        × ((k : ℕ)
            → (count_id k (contents s.items) ≡ count_id k (generate_content_set now input))
              × (count_id k (contents s.items) ≤ 1)
              × ((has_id k input.recently_seen ≡ false) ⊎ (count_id k (contents s.items) ≡ 0)))
  compose_session-generate_content_set ⦃fl⦄ sorting now input budget seg small ids =
      let sels = generate_content_set now input in
      let valid = (generate_content_set-Valid (λ c. c.id ≢ 0) now input small ids).0 in
      let Good : ContentAtom F → Type 0 =
        λ c. (c.id ≢ 0) × (has_id c.id input.recently_seen ≡ false) in
      let no_nil = count_id-absent 0 Good (λ c p. p.0) sels valid.chosen in
      let (s, made, size, same) = compose_session_conserves sorting sels budget seg no_nil in
      (
        s,
        made,
        size,
        λ k. (
          same k,
          omega (arith, same k, count_id-count_by k sels, valid.distinct k),
          elim (Bool-cases (has_id k input.recently_seen)) [
            | inr e ↦ inl e
            | inl e ↦ inr (
                same k
                ∙ count_id-absent k Good
                    (λ c p same_id. absurd (
                      ground (
                        arith,
                        p.1,
                        subst (λ n. has_id n input.recently_seen ≡ true) (sym same_id) e,
                      )))
                    sels valid.chosen)
          ],
        ),
      )
