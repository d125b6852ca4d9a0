-- ===== src/Auth/Tokens/Replay.antt =====
-- What becomes of a refresh token that is used again.
use ruskiy.Shared.{
  if_elim, Bool, Bool-cases, Option-cases, inl, inr, true, some, String, str_eq, str_eq_self, put,
  List, [], ◌∷◌, ◌≡◌, refl, ◌∙◌, ap,
}
use ruskiy.Auth.Tokens.{
  MemoryTokenStore, store_refresh_token, revoke_refresh_token, is_revoked, record_revoked_reuse,
  was_reused_after_revoke, Rotation, token_revoked, issue_tokens, rotate_refresh_token,
}

-- The store after some rotations.
abbrev pub after_rotations : List Rotation → MemoryTokenStore → MemoryTokenStore
after_rotations [] s = s
after_rotations (r ∷ rs) s = after_rotations rs (rotate_refresh_token r s).1

issue_tokens-revoked :
    (user : String) (r : Rotation) (s : MemoryTokenStore)
    → (issue_tokens user r s).1.revoked ≡ s.revoked
unfolding issue_tokens store_refresh_token
issue_tokens-revoked user r s = elim (Option-cases r.new_access) [
  | inl e ↦ rw e refl
  | inr (access, e) ↦ elim (Option-cases r.new_refresh) [
    | inl e2 ↦ rw (e, e2) refl
    | inr (refresh, e2) ↦ rw (e, e2) refl
  ]
]

put-true : (k id : String) (m : String → Bool) → m id ≡ true → put k true m id ≡ true
put-true k id m h = if_elim (λ b. b ≡ true) (str_eq k id) true (m id) (λ _. refl) (λ _. h)

-- A revoked token stays revoked.
rotate_refresh_token-keeps :
    (id : String) (r : Rotation) (s : MemoryTokenStore)
    → is_revoked id s ≡ true
    → is_revoked id (rotate_refresh_token r s).1 ≡ true
unfolding rotate_refresh_token is_revoked revoke_refresh_token record_revoked_reuse
rotate_refresh_token-keeps id r s h = elim (Option-cases r.subject) [
  | inl e ↦ rw e h
  | inr (user, e) ↦ elim (Bool-cases (s.revoked r.old_token)) [
    | inl old ↦ rw (e, old) h
    | inr fresh ↦
        let s1 = revoke_refresh_token r.old_token s in
        rw (e, fresh)
          (ap (λ m. m id) (issue_tokens-revoked user r s1) ∙ put-true r.old_token id s.revoked h)
  ]
]

after_rotations-keeps :
    (id : String) (rs : List Rotation) (s : MemoryTokenStore)
    → is_revoked id s ≡ true
    → is_revoked id (after_rotations rs s) ≡ true
after_rotations-keeps id [] s h = h
after_rotations-keeps id (r ∷ rs) s h =
    after_rotations-keeps id rs (rotate_refresh_token r s).1 (rotate_refresh_token-keeps id r s h)

-- A rotation of a token that parses leaves the token revoked.
rotate_refresh_token-revokes :
    (user : String) (r : Rotation) (s : MemoryTokenStore)
    → r.subject ≡ some user
    → is_revoked r.old_token (rotate_refresh_token r s).1 ≡ true
unfolding rotate_refresh_token is_revoked revoke_refresh_token record_revoked_reuse
rotate_refresh_token-revokes user r s e = elim (Bool-cases (s.revoked r.old_token)) [
  | inl old ↦ rw (e, old) old
  | inr fresh ↦
      let s1 = revoke_refresh_token r.old_token s in
      rw (e, fresh)
        (ap (λ m. m r.old_token) (issue_tokens-revoked user r s1)
          ∙ rw (str_eq_self r.old_token) refl)
]

refused :
    (user : String) (r : Rotation) (s : MemoryTokenStore)
    → r.subject ≡ some user
    → is_revoked r.old_token s ≡ true
    → rotate_refresh_token r s ≡ (token_revoked, record_revoked_reuse r.old_token s)
unfolding rotate_refresh_token is_revoked
refused user r s e h = rw (e, h, rotate_refresh_token) refl

-- For every store and every rotation of a valid refresh token, and after any further rotations of any
-- tokens: a second rotation with the same token, still valid by its signature, is refused as revoked
-- and recorded as a reuse.
pub rotate_refresh_token-replay :
    (user later : String) (first again : Rotation) (rs : List Rotation) (s : MemoryTokenStore)
    → first.subject ≡ some user
    → again.subject ≡ some later
    → again.old_token ≡ first.old_token
    → ((rotate_refresh_token again (after_rotations rs (rotate_refresh_token first s).1)).0
        ≡ token_revoked)
      × (was_reused_after_revoke first.old_token
            (rotate_refresh_token again (after_rotations rs (rotate_refresh_token first s).1)).1
          ≡ true)
unfolding was_reused_after_revoke record_revoked_reuse
rotate_refresh_token-replay user later first again rs s valid still same =
    let s2 = after_rotations rs (rotate_refresh_token first s).1 in
    let gone =
      after_rotations-keeps first.old_token rs (rotate_refresh_token first s).1
        (rotate_refresh_token-revokes user first s valid) in
    let here : is_revoked again.old_token s2 ≡ true = rw same gone in
    rw (refused later again s2 still here) (refl, rw (same, str_eq_self first.old_token) refl)
