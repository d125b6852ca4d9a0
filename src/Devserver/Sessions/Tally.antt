-- ===== src/Devserver/Sessions/Tally.antt =====
-- The counters of a session of the in-memory server are those of its results.
use ruskiy.Shared.{
  ℕ, suc, ◌==◌, ==→eq, Bool-cases, Option-cases, some, String, List, [], ◌∷◌, ◌++◌, length,
  length-append, ◌≡◌, ◌∙◌, refl, sym, arith, inl, inr,
}
use mathlib.Core.Path.{subst}
use ruskiy.Shared.Int.{ℤ, pos, ◌+ℤ◌, int_laws}
use ruskiy.Platform.{Float}
use ruskiy.Model.{Skill, ContentAtom, Session, SessionItem}
use ruskiy.Store.Database.{
  query_row, update_where, query_row-update_where_ne, query_row_of_update_where,
}
use ruskiy.Devserver.{MemStore, ExerciseResult, new_mem_store, assign_roles}
use ruskiy.Devserver.Accounts.{Secrets, register}
use ruskiy.Devserver.Learners.{ProfileRequest, create_profile}
use ruskiy.Devserver.Sessions.{
  SubmitRequest, tally_correct, find_session, generate, max_items, make_items, new_session, xp_for,
  result_of, tallied, submit, completed_at, complete,
}

abbrev pub sum_xp : List ExerciseResult → ℤ
sum_xp [] = pos 0
sum_xp (r ∷ rs) = r.xp_earned +ℤ sum_xp rs

sum_xp-append :
    (rs : List ExerciseResult) (r : ExerciseResult)
    → sum_xp (rs ++ r ∷ []) ≡ sum_xp rs +ℤ r.xp_earned
sum_xp-append [] r = grind int_laws
sum_xp-append (x ∷ rs) r = grind (int_laws, sum_xp-append rs r)

module _ {F : Type 0} ⦃fl : Float F⦄ where
  -- The share of correct answers; 0 before the first one.
  abbrev pub accuracy : List ExerciseResult → F
  accuracy [] = fl.lit 0 0
  accuracy (r ∷ rs) =
      fl.div (fl.of_int (pos (tally_correct (r ∷ rs)))) (fl.of_int (pos (length (r ∷ rs))))

  pub record Tallied (x : Session F) (rs : List ExerciseResult) : Type 0 where
    pub index : x.current_index ≡ length rs
    pub points : x.total_xp ≡ sum_xp rs
    pub rate : x.accuracy_rate ≡ accuracy rs

  abbrev pub AllTallied : MemStore F → Type 0
  AllTallied s = (id : ℕ) (x : Session F) → find_session id s ≡ some x → Tallied x (s.results id)

  -- The requests, each as one step of the store; the ID of a new session is not in use yet.
  pub data Step (s : MemStore F) : MemStore F → Type 0 where
    registers :
        (secrets : Secrets)
        → (id : String) → (now : ℤ) → (email password locale : String)
        → Step s (register secrets id now email password locale s).1
    creates_profile :
        (id user : String)
        → (now : ℤ) → (req : ProfileRequest) → Step s (create_profile id user now req s).1
    generates :
        (new_id : ℕ → ℕ)
        → (now : ℤ) → (learner : String) → (minutes : ℤ) → {x : Session F}
        → {items : List SessionItem} → {s' : MemStore F}
        → generate new_id now learner minutes s ≡ some (x, items, s')
        → s.results (new_id 0) ≡ []
        → Step s s'
    submits : (now : ℤ) → (id : ℕ) → (req : SubmitRequest) → Step s (submit now id req s).1
    completes :
        (whole_seconds : ℤ → ℤ)
        → (now : ℤ) → (id : ℕ) → {x : Session F} → {s' : MemStore F}
        → complete whole_seconds now id s ≡ some (x, s')
        → Step s s'

  pub data Reachable (skills : List Skill) (content : List (ContentAtom F))
      : MemStore F → Type 0 where
    start : Reachable skills content (new_mem_store skills content)
    next :
        {s s' : MemStore F} → Reachable skills content s → Step s s' → Reachable skills content s'

  accuracy-append :
      (rs : List ExerciseResult) (r : ExerciseResult)
      → accuracy (rs ++ r ∷ [])
        ≡ fl.div
            (fl.of_int (pos (tally_correct (rs ++ r ∷ []))))
            (fl.of_int (pos (length (rs ++ r ∷ []))))
  accuracy-append [] r = refl
  accuracy-append (x ∷ rs) r = refl

  tallied-Tallied :
      (x : Session F) (rs : List ExerciseResult) (r : ExerciseResult)
      → Tallied x rs
      → Tallied (tallied r.xp_earned (rs ++ r ∷ []) x) (rs ++ r ∷ [])
  tallied-Tallied x rs r h = record {
    index = omega (arith, h.index, length-append rs (r ∷ []));
    points = grind (int_laws, h.points, sum_xp-append rs r);
    rate = sym (accuracy-append rs r);
  }

  submit-own :
      (now : ℤ) (id : ℕ) (req : SubmitRequest) (s : MemStore F) (x : Session F)
      → AllTallied s
      → find_session id (submit now id req s).1 ≡ some x
      → Tallied x (s.results id ++ result_of now req (xp_for req s) ∷ [])
  unfolding submit find_session
  submit-own now id req s x h e =
      let r = result_of now req (xp_for req s) in
      let f = tallied (xp_for req s) (s.results id ++ r ∷ []) in
      let (y, there, same) =
        query_row_of_update_where (λ z. z.id == id) f (λ z k. k) s.sessions x e in
      subst (λ z. Tallied z (s.results id ++ r ∷ [])) same
        (tallied-Tallied y (s.results id) r (h id y there))

  submit-AllTallied :
      (now : ℤ) (id : ℕ) (req : SubmitRequest) (s : MemStore F)
      → AllTallied s
      → AllTallied (submit now id req s).1
  unfolding submit find_session
  submit-AllTallied now id req s h j x e =
      let f = tallied (xp_for req s) (s.results id ++ result_of now req (xp_for req s) ∷ []) in
      elim (Bool-cases (id == j)) [
        | inl eq ↦
            let same : id ≡ j = ==→eq id j eq in
            rw eq (
              submit-own now id req s x h
                (subst (λ k. find_session k (submit now id req s).1 ≡ some x) (sym same) e))
        | inr ne ↦
            let found : query_row (λ y. y.id == j) s.sessions ≡ some x =
              sym (
                query_row-update_where_ne (λ y. y.id == j) (λ y. y.id == id) f
                  (λ y k. ground (arith, ne, k)) (λ y k. ground (arith, ne, k)) s.sessions)
              ∙ e in
            rw ne (h j x found)
      ]

  generate-tables :
      (new_id : ℕ → ℕ) (now : ℤ) (learner : String) (minutes : ℤ) (s s' : MemStore F)
      (x : Session F) (items : List SessionItem)
      → generate new_id now learner minutes s ≡ some (x, items, s')
      → (s'.sessions ≡ new_session (new_id 0) learner now ∷ s.sessions) × (s'.results ≡ s.results)
  unfolding generate
  generate-tables new_id now learner minutes s s' x items e =
      elim (Option-cases (
        make_items (λ i. new_id (suc i)) (new_id 0)
          (assign_roles (max_items F minutes (length s.content))) s.content
          (max_items F minutes (length s.content)) 0)) [
            | inl k ↦ absurd (ground (arith, (rw (k, generate) at e)))
            | inr (made, k) ↦
                let shape = (rw (k, generate) at e) in
                (ground (arith, shape), ground (arith, shape))
          ]

  generate-AllTallied :
      (new_id : ℕ → ℕ) (now : ℤ) (learner : String) (minutes : ℤ) (s s' : MemStore F)
      (x : Session F) (items : List SessionItem)
      → generate new_id now learner minutes s ≡ some (x, items, s')
      → s.results (new_id 0) ≡ []
      → AllTallied s
      → AllTallied s'
  unfolding generate find_session
  generate-AllTallied new_id now learner minutes s s' x items e fresh h j y found =
      let (rows, kept) = generate-tables new_id now learner minutes s s' x items e in
      let new : Session F = new_session (new_id 0) learner now in
      let here : query_row (λ z. z.id == j) (new ∷ s.sessions) ≡ some y =
        subst (λ xs. query_row (λ z. z.id == j) xs ≡ some y) rows found in
      rw kept (elim (Bool-cases (new_id 0 == j)) [
        | inl eq ↦
            let same : new ≡ y = ground (arith, here, eq) in
            let none_yet : s.results j ≡ [] =
              subst (λ k. s.results k ≡ []) (==→eq (new_id 0) j eq) fresh in
            rw none_yet
              (subst (λ z. Tallied z []) same (record { index = refl; points = refl; rate = refl }))
        | inr ne ↦ h j y (ground (arith, here, ne))
      ])

  complete-tables :
      (whole_seconds : ℤ → ℤ) (now : ℤ) (id : ℕ) (s s' : MemStore F) (x : Session F)
      → complete whole_seconds now id s ≡ some (x, s')
      → (s'.sessions ≡ update_where (λ y. y.id == id) (completed_at whole_seconds now) s.sessions)
        × (s'.results ≡ s.results)
  unfolding complete
  complete-tables whole_seconds now id s s' x e = elim (Option-cases (find_session id s)) [
    | inl k ↦ absurd (ground (arith, (rw (k, complete) at e)))
    | inr (y, k) ↦
        let shape = (rw (k, complete) at e) in (ground (arith, shape), ground (arith, shape))
  ]

  completed-Tallied :
      (whole_seconds : ℤ → ℤ) (now : ℤ) (x : Session F) (rs : List ExerciseResult)
      → Tallied x rs
      → Tallied (completed_at whole_seconds now x) rs
  completed-Tallied whole_seconds now x rs h = record {
    index = h.index;
    points = h.points;
    rate = h.rate;
  }

  complete-AllTallied :
      (whole_seconds : ℤ → ℤ) (now : ℤ) (id : ℕ) (s s' : MemStore F) (x : Session F)
      → complete whole_seconds now id s ≡ some (x, s')
      → AllTallied s
      → AllTallied s'
  unfolding complete find_session
  complete-AllTallied whole_seconds now id s s' x e h j y found =
      let (rows, kept) = complete-tables whole_seconds now id s s' x e in
      let f = completed_at whole_seconds now in
      let here : query_row (λ z. z.id == j) (update_where (λ z. z.id == id) f s.sessions) ≡ some y =
        subst (λ xs. query_row (λ z. z.id == j) xs ≡ some y) rows found in
      rw kept (elim (Bool-cases (id == j)) [
        | inl eq ↦
            let at_id : query_row (λ z. z.id == id) (update_where (λ z. z.id == id) f s.sessions)
                ≡ some y =
              subst
                (λ k.
                  query_row (λ z. z.id == k) (update_where (λ z. z.id == id) f s.sessions) ≡ some y)
                (sym (==→eq id j eq)) here in
            let (z, there, same) =
              query_row_of_update_where (λ z. z.id == id) f (λ z k. k) s.sessions y at_id in
            let was : find_session j s ≡ some z =
              subst (λ k. find_session k s ≡ some z) (==→eq id j eq) there in
            subst (λ z2. Tallied z2 (s.results j)) same
              (completed-Tallied whole_seconds now z (s.results j) (h j z was))
        | inr ne ↦ h j y (
            sym (
              query_row-update_where_ne (λ z. z.id == j) (λ z. z.id == id) f
                (λ z k. ground (arith, ne, k)) (λ z k. ground (arith, ne, k)) s.sessions)
            ∙ here)
      ])

  register-tables :
      (secrets : Secrets) (id : String) (now : ℤ) (email password locale : String) (s : MemStore F)
      → let s' = (register secrets id now email password locale s).1 in
        (s'.sessions ≡ s.sessions) × (s'.results ≡ s.results)
  unfolding register
  register-tables secrets id now email password locale s = (ground arith, ground arith)

  Step-AllTallied : {s s' : MemStore F} → Step s s' → AllTallied s → AllTallied s'
  unfolding register create_profile find_session
  Step-AllTallied {s} (registers secrets id now email password locale) h = λ j x e.
      let (rows, kept) = register-tables secrets id now email password locale s in
      rw kept (h j x (subst (λ xs. query_row (λ z. z.id == j) xs ≡ some x) rows e))
  Step-AllTallied (creates_profile id user now req) h = h
  Step-AllTallied {s} {s'} (generates new_id now learner minutes {x} {items} e fresh) h =
      generate-AllTallied new_id now learner minutes s s' x items e fresh h
  Step-AllTallied {s} (submits now id req) h = submit-AllTallied now id req s h
  Step-AllTallied {s} {s'} (completes whole_seconds now id {x} e) h =
      complete-AllTallied whole_seconds now id s s' x e h

  -- After every sequence of requests to the in-memory server, register, create a profile, generate, submit and
  -- complete in any order, each new session under an ID that no result has: the current index of each
  -- session is the number of the results that were submitted for it, its points are the sum of their
  -- points, and its accuracy is the share of the correct ones, 0 before the first.
  pub reachable-AllTallied :
      {skills : List Skill} {content : List (ContentAtom F)} {s : MemStore F}
      → Reachable skills content s
      → AllTallied s
  unfolding find_session
  reachable-AllTallied start = λ id x e. absurd (ground (arith, e))
  reachable-AllTallied (next r step) = Step-AllTallied step (reachable-AllTallied r)
