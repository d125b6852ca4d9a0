-- ===== src/Handler/Auth/Grants.antt =====
-- When Login gives tokens, and what Refresh takes for a refresh token.
use ruskiy.Shared.{
  ℕ, ◌==◌, ◌+◌, ltb, Bool-cases, true, false, Option-cases, some, String, str_eq, str_eq_self,
  put_self, ◌≡◌, refl, sym, ◌∙◌, arith, ◌⊎◌, inl, inr,
}
use mathlib.Core.Path.{subst}
use ruskiy.Auth.Lockout.{entry_locked, record_failed_attempt, check_lockout, reset_attempts}
use ruskiy.Auth.Tokens.{store_refresh_token, rotate_refresh_token, issue_tokens, is_revoked}
use ruskiy.Auth.Jwt.{
  parsed, JwtLaws, access_token_ttl, access_claims, generate_access_token, generate_refresh_token,
  validate_token,
}
use ruskiy.Handler.Auth.{
  User, LoginRequest, AuthTokens, AuthState, Libraries, AuthResponse, refused, granted, renewed,
  get_by_email, logged_in_at, update_last_login, generate_tokens, grant, wrong_password, login_user,
  login, current_account_type, refresh,
}

check_lockout-open :
    (now : ℕ) (user : String) (s : AuthState)
    → (check_lockout now user s.lockout == 429) ≡ false
    → check_lockout now user s.lockout ≡ 0
unfolding check_lockout
check_lockout-open now user s e = elim (Bool-cases (entry_locked now (s.lockout user))) [
  | inl h ↦ absurd (ground (arith, (rw h at e)))
  | inr h ↦ rw h refl
]

check_lockout-reset :
    (now : ℕ) (user : String) (s : AuthState)
    → check_lockout now user (reset_attempts user s.lockout) ≡ 0
unfolding check_lockout reset_attempts
check_lockout-reset now user s = rw (str_eq_self user) refl

module _ {Private Public : Type 0} (lib : Libraries Private Public) (clock : ℕ → ℕ)
    (uuids : ℕ → String) where
  -- An answer without tokens, or tokens for the user, whose refresh token is stored.
  abbrev pub Granted : ℕ → User → AuthState → AuthResponse × AuthState → Type 0
  Granted status u s result =
      ((status2 : ℕ) × (error : String) × (result.0 ≡ refused status2 error)
        × (result.1.token_store ≡ s.token_store))
      ⊎ ((t : AuthTokens) × (result.0 ≡ granted status u t)
          × (result.1.token_store.tokens t.refresh_token ≡ some u.id)
          × (result.1.lockout ≡ s.lockout))

  grant-Granted :
      (status : ℕ) (u : User) (s : AuthState)
      → Granted status u s (grant lib clock uuids status u s)
  unfolding grant generate_tokens store_refresh_token
  grant-Granted status u s =
      elim (Option-cases
        (generate_access_token lib.jwt lib.key_pair (clock 8) u.id "learner" u.account_type)) [
          | inl e ↦
              let answer : grant lib clock uuids status u s
                  ≡ (refused 500 "failed to generate tokens", s) =
                rw (e, grant, generate_tokens) refl in
              subst (Granted status u s) (sym answer)
                (inl (500, "failed to generate tokens", refl, refl))
          | inr (access, e) ↦
              elim (Option-cases
                (generate_refresh_token lib.jwt lib.key_pair (clock 9) (uuids 9) u.id)) [
                  | inl e2 ↦
                      let answer : grant lib clock uuids status u s
                          ≡ (refused 500 "failed to generate tokens", s) =
                        rw (e, e2, grant, generate_tokens) refl in
                      subst (Granted status u s) (sym answer)
                        (inl (500, "failed to generate tokens", refl, refl))
                  | inr (token, e2) ↦
                      let t : AuthTokens = record {
                        access_token = access;
                        refresh_token = token;
                        expires_in = 900;
                      } in
                      let after : AuthState = record {
                        users = s.users;
                        lockout = s.lockout;
                        token_store = store_refresh_token token u.id s.token_store;
                      } in
                      let answer : grant lib clock uuids status u s ≡ (granted status u t, after) =
                        rw (e, e2, grant, generate_tokens) refl in
                      subst (Granted status u s) (sym answer)
                        (inr (t, refl, put_self token (some u.id) s.token_store.tokens, refl))
                ]
        ]

  -- A login is refused and leaves the token store alone, or the user has the email, is not locked out and
  -- has the password.
  abbrev pub Guarded : LoginRequest → AuthState → AuthResponse × AuthState → Type 0
  Guarded req s result =
      ((status : ℕ) × (error : String) × (result.0 ≡ refused status error)
        × (result.1.token_store ≡ s.token_store))
      ⊎ ((u : User) × (t : AuthTokens) × (get_by_email req.email s.users ≡ some u)
          × (check_lockout (clock 0) u.id s.lockout ≡ 0)
          × (lib.verify_password req.password u.password_hash ≡ true)
          × (result.0 ≡ granted 200 (logged_in_at (clock 3) u) t)
          × (result.1.token_store.tokens t.refresh_token ≡ some u.id)
          × ((now : ℕ) → check_lockout now u.id result.1.lockout ≡ 0))

  wrong_password-refused :
      (status : ℕ)
      → (status2 : ℕ) × (error : String) × (wrong_password lib clock uuids status
          ≡ refused status2 error)
  wrong_password-refused status = elim (Bool-cases (status == 429)) [
    | inl e ↦ (429, "account_locked", rw e refl)
    | inr e ↦ (401, "invalid credentials", rw e refl)
  ]

  login_user-Guarded :
      (req : LoginRequest) (u : User) (s : AuthState)
      → get_by_email req.email s.users ≡ some u
      → Guarded req s (login_user lib clock uuids req.password u s)
  unfolding login_user
  login_user-Guarded req u s found =
      elim (Bool-cases (check_lockout (clock 0) u.id s.lockout == 429)) [
        | inl locked ↦
            let answer : login_user lib clock uuids req.password u s
                ≡ (refused 429 "account_locked", s) =
              rw (locked, login_user) refl in
            subst (Guarded req s) (sym answer) (inl (429, "account_locked", refl, refl))
        | inr open_ ↦ elim (Bool-cases (lib.verify_password req.password u.password_hash)) [
          | inr wrong ↦
              let failed = record_failed_attempt (clock 1) (clock 2) u.id s.lockout in
              let (status, error, e) = wrong_password-refused failed.0 in
              let answer : login_user lib clock uuids req.password u s ≡ (
                wrong_password lib clock uuids failed.0,
                record { users = s.users; lockout = failed.1; token_store = s.token_store },
              ) =
                rw (open_, wrong, login_user) refl in
              subst (Guarded req s) (sym answer) (inl (status, error, e, refl))
          | inl right ↦
              let s2 : AuthState = record {
                users = update_last_login (clock 4) u.id s.users;
                lockout = reset_attempts u.id s.lockout;
                token_store = s.token_store;
              } in
              let answer : login_user lib clock uuids req.password u s
                  ≡ grant lib clock uuids 200 (logged_in_at (clock 3) u) s2 =
                rw (open_, right, login_user) refl in
              subst (Guarded req s) (sym answer)
                (elim (grant-Granted 200 (logged_in_at (clock 3) u) s2) [
                  | inl (status, error, e, same) ↦ inl (status, error, e, same)
                  | inr (t, e, stored, kept) ↦ inr (
                    u,
                    t,
                    found,
                    check_lockout-open (clock 0) u.id s open_,
                    right,
                    e,
                    stored,
                    λ now. rw kept (check_lockout-reset now u.id s),
                  )
                ])
        ]
      ]

  -- Every login is refused and changes no token, or gives a pair of tokens to the user that has the email,
  -- where the account was not locked out and the password is the user's: then the refresh token is stored
  -- for the user, and the account is not locked out afterwards, at no time.
  pub login-Guarded :
      (req : LoginRequest) (s : AuthState) → Guarded req s (login lib clock uuids (some req) s)
  unfolding login
  login-Guarded req s = elim (Option-cases (get_by_email req.email s.users)) [
    | inl e ↦
        let answer : login lib clock uuids (some req) s ≡ (refused 401 "invalid credentials", s) =
          rw (e, login) refl in
        subst (Guarded req s) (sym answer) (inl (401, "invalid credentials", refl, refl))
    | inr (u, e) ↦
        let answer : login lib clock uuids (some req) s
            ≡ login_user lib clock uuids req.password u s =
          rw (e, login) refl in
        subst (Guarded req s) (sym answer) (login_user-Guarded req u s e)
  ]

  -- An access token parses while it is valid.
  parse-access_token :
      (issued now : ℕ) (user role account_type token : String)
      → JwtLaws lib.jwt lib.key_pair
      → generate_access_token lib.jwt lib.key_pair issued user role account_type ≡ some token
      → ltb now (lib.jwt.numeric_date (issued + access_token_ttl)) ≡ true
      → lib.jwt.parse lib.key_pair.public_key now token
        ≡ parsed (access_claims lib.jwt issued user role account_type)
  unfolding generate_access_token
  parse-access_token issued now user role account_type token laws made early =
      laws.signed (access_claims lib.jwt issued user role account_type) now token made
      ∙ rw early refl

  -- For a key pair on which the JWT library keeps its laws: Refresh takes an access token of
  -- GenerateAccessToken, while it is valid and not revoked and signing works, and answers with a new
  -- refresh token, although no refresh token was ever given for it.
  pub refresh-generate_access_token :
      (issued : ℕ) (user role account_type token access2 refresh2 : String) (s : AuthState)
      → JwtLaws lib.jwt lib.key_pair
      → generate_access_token lib.jwt lib.key_pair issued user role account_type ≡ some token
      → str_eq token "" ≡ false
      → ltb (clock 0) (lib.jwt.numeric_date (issued + access_token_ttl)) ≡ true
      → ltb (clock 1) (lib.jwt.numeric_date (issued + access_token_ttl)) ≡ true
      → is_revoked token s.token_store ≡ false
      → generate_access_token lib.jwt lib.key_pair
          (clock 2)
          user
          "learner"
          (current_account_type lib clock uuids user s.users)
        ≡ some access2
      → generate_refresh_token lib.jwt lib.key_pair (clock 3) (uuids 0) user ≡ some refresh2
      → (refresh lib clock uuids (some token) s).0
        ≡ renewed (record { access_token = access2; refresh_token = refresh2; expires_in = 900 })
  unfolding refresh validate_token rotate_refresh_token issue_tokens
  refresh-generate_access_token issued user role account_type token access2 refresh2 s laws made
        named early late live new_access new_refresh =
      let parsed0 =
        parse-access_token issued (clock 0) user role account_type token laws made early in
      let parsed1 =
        parse-access_token issued (clock 1) user role account_type token laws made late in
      rw (named, parsed0, parsed1, live, new_access, new_refresh) refl
