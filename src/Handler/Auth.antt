-- ===== src/Handler/Auth.antt =====
-- services/api/internal/handler/auth.go: Register, Login and Refresh on the user store, the lockout manager
-- and the token store. The table of users is a list in the order of insertion, and its database does
-- not fail but for a user that it refuses to insert. A UUID is its text; `clock n` is the n-th reading
-- of the clock in a request and `uuids n` the n-th new UUID; bodies are `none` when they are not JSON.
pub mod Grants
use Prim.Native.String.{len}
use ruskiy.Shared.{
  ℕ, ltb, ◌==◌, ◌||◌, not, if◌then◌else◌, Bool, true, false, Option, none, some, String, str_eq,
  List, [], ◌∷◌, ◌++◌, ◌⊎◌, inl, inr,
}
use ruskiy.Auth.Lockout.{Accounts, record_failed_attempt, check_lockout, reset_attempts}
use ruskiy.Auth.Tokens.{
  MemoryTokenStore, store_refresh_token, Rotation, RotationResult, rotated, invalid_token,
  token_revoked, signing_failed, rotate_refresh_token,
}
use ruskiy.Auth.Jwt.{
  TokenClaims, Parsed, parsed, Jwt, KeyPair, generate_access_token, generate_refresh_token,
  validate_token,
}

pub record User : Type 0 where
  pub id : String
  pub email : String
  pub password_hash : String
  pub created_at : ℕ
  pub last_login : Option ℕ
  pub account_type : String
  pub locale : String

pub record RegisterRequest : Type 0 where
  pub email : String
  pub password : String
  pub locale : String

pub record LoginRequest : Type 0 where
  pub email : String
  pub password : String

pub record AuthTokens : Type 0 where
  pub access_token : String
  pub refresh_token : String
  pub expires_in : ℕ

pub record AuthState : Type 0 where
  pub users : List User
  pub lockout : Accounts
  pub token_store : MemoryTokenStore

-- The external libraries: JWT and its key pair, bcrypt, the regular expression for emails, uuid.Parse,
-- and whether the database takes a new user.
pub record Libraries (Private Public : Type 0) : Type 0 where
  pub jwt : Jwt Private Public
  pub key_pair : KeyPair Private Public
  pub hash_password : String → Option String
  pub verify_password : (password hash : String) → Bool
  pub matches_email : String → Bool
  pub is_uuid : String → Bool
  pub insertable : List User → User → Bool

pub data AuthResponse : Type 0 where
  refused : (status : ℕ) → (error : String) → AuthResponse
  granted : (status : ℕ) → User → AuthTokens → AuthResponse
  renewed : AuthTokens → AuthResponse

abbrev first_user : (User → Bool) → List User → Option User
first_user p [] = none
first_user p (u ∷ users) = let rest = first_user p users in if p u then some u else rest

unfoldable pub get_by_email : String → List User → Option User
get_by_email email users = first_user (λ u. str_eq u.email email) users

unfoldable pub get_by_id : String → List User → Option User
get_by_id id users = first_user (λ u. str_eq u.id id) users

-- A user with a last login.
abbrev pub logged_in_at : ℕ → User → User
logged_in_at now u = record u { last_login = some now }

unfoldable pub update_last_login : ℕ → String → List User → List User
update_last_login now id [] = []
update_last_login now id (u ∷ users) =
    (if str_eq u.id id then logged_in_at now u else u) ∷ update_last_login now id users

module _ {Private Public : Type 0} (lib : Libraries Private Public) (clock : ℕ → ℕ)
    (uuids : ℕ → String) where
  -- generateTokens; the readings of the clock are the last ones of a request.
  unfoldable pub generate_tokens :
      (user_id account_type : String) → MemoryTokenStore → Option AuthTokens × MemoryTokenStore
  generate_tokens user_id account_type store =
      elim (generate_access_token lib.jwt lib.key_pair (clock 8) user_id "learner" account_type) [
        | none ↦ (none, store)
        | some access ↦
            elim (generate_refresh_token lib.jwt lib.key_pair (clock 9) (uuids 9) user_id) [
              | none ↦ (none, store)
              | some refresh ↦ (
                some (record { access_token = access; refresh_token = refresh; expires_in = 900 }),
                store_refresh_token refresh user_id store,
              )
            ]
      ]

  -- The answer with the tokens, behind the changes to the users and the lockout manager.
  unfoldable pub grant : (status : ℕ) → User → AuthState → AuthResponse × AuthState
  unfolding generate_tokens
  grant status u s =
      let (tokens, store) = generate_tokens u.id u.account_type s.token_store in
      (
        elim tokens [
          | none ↦ refused 500 "failed to generate tokens"
          | some t ↦ granted status u t
        ],
        record { users = s.users; lockout = s.lockout; token_store = store },
      )

  abbrev pub new_user : RegisterRequest → String → User
  new_user req hash = record {
    id = uuids 0;
    email = req.email;
    password_hash = hash;
    created_at = clock 0;
    last_login = none;
    account_type = "free";
    locale = if str_eq req.locale "" then "en-US" else req.locale;
  }

  -- Behind the checks of the request.
  unfoldable pub create_user : RegisterRequest → AuthState → AuthResponse × AuthState
  unfolding grant
  create_user req s = elim (lib.hash_password req.password) [
    | none ↦ (refused 500 "internal error", s)
    | some hash ↦
        let u = new_user req hash in
        if lib.insertable s.users u
        then grant 201 u
            (record { users = s.users ++ u ∷ []; lockout = s.lockout; token_store = s.token_store })
        else (refused 500 "failed to create user", s)
  ]

  unfoldable pub register : Option RegisterRequest → AuthState → AuthResponse × AuthState
  unfolding create_user get_by_email
  register none s = (refused 400 "invalid request body", s)
  register (some req) s =
      if str_eq req.email "" || str_eq req.password ""
      then (refused 400 "email and password are required", s)
      else if not (lib.matches_email req.email)
      then (refused 400 "invalid email format", s)
      else if ltb (len req.password) 8
      then (refused 400 "password must be at least 8 characters", s)
      else elim (get_by_email req.email s.users) [
        | some _ ↦ (refused 409 "email already registered", s)
        | none ↦ create_user req s
      ]

  abbrev pub wrong_password : ℕ → AuthResponse
  wrong_password status =
      if status == 429 then refused 429 "account_locked" else refused 401 "invalid credentials"

  -- Login of the user that has the email.
  unfoldable pub login_user : String → User → AuthState → AuthResponse × AuthState
  unfolding grant update_last_login
  login_user password u s =
      let (status, accounts) = record_failed_attempt (clock 1) (clock 2) u.id s.lockout in
      let open_accounts = reset_attempts u.id s.lockout in
      let users = update_last_login (clock 4) u.id s.users in
      if check_lockout (clock 0) u.id s.lockout == 429
      then (refused 429 "account_locked", s)
      else if not (lib.verify_password password u.password_hash)
      then (
        wrong_password status,
        record { users = s.users; lockout = accounts; token_store = s.token_store },
      )
      else grant 200 (logged_in_at (clock 3) u)
          (record { users = users; lockout = open_accounts; token_store = s.token_store })

  unfoldable pub login : Option LoginRequest → AuthState → AuthResponse × AuthState
  unfolding login_user get_by_email
  login none s = (refused 400 "invalid request body", s)
  login (some req) s = elim (get_by_email req.email s.users) [
    | none ↦ (refused 401 "invalid credentials", s)
    | some u ↦ login_user req.password u s
  ]

  abbrev pub subject_of : Parsed → Option String
  subject_of (parsed c) = some c.subject
  subject_of _ = none

  -- The account type of the token's user as it is stored.
  unfoldable pub current_account_type : String → List User → String
  unfolding get_by_id
  current_account_type subject users =
      if lib.is_uuid subject
      then elim (get_by_id subject users) [ none ↦ "free" | some u ↦ u.account_type ]
      else "free"

  -- RotateRefreshToken with what the JWT library answers in it.
  abbrev pub rotation : String → String → Rotation
  rotation token account_type = record {
    old_token = token;
    subject = subject_of (lib.jwt.parse lib.key_pair.public_key (clock 1) token);
    new_access = elim (subject_of (lib.jwt.parse lib.key_pair.public_key (clock 1) token)) [
      | none ↦ none
      | some user ↦ generate_access_token lib.jwt lib.key_pair (clock 2) user "learner" account_type
    ];
    new_refresh = elim (subject_of (lib.jwt.parse lib.key_pair.public_key (clock 1) token)) [
      | none ↦ none
      | some user ↦ generate_refresh_token lib.jwt lib.key_pair (clock 3) (uuids 0) user
    ];
  }

  abbrev pub rotation_response : RotationResult → AuthResponse
  rotation_response (rotated access refresh) =
      renewed (record { access_token = access; refresh_token = refresh; expires_in = 900 })
  rotation_response token_revoked = refused 401 "token_revoked"
  rotation_response invalid_token = refused 401 "invalid_refresh_token"
  rotation_response signing_failed = refused 401 "invalid_refresh_token"

  -- The token of the body; `none` is a body without one.
  unfoldable pub refresh : Option String → AuthState → AuthResponse × AuthState
  unfolding current_account_type
  refresh none s = (refused 400 "refreshToken is required", s)
  refresh (some token) s =
      if str_eq token ""
      then (refused 400 "refreshToken is required", s)
      else elim (validate_token lib.jwt lib.key_pair (clock 0) token) [
        | inl _ ↦ (refused 401 "invalid_refresh_token", s)
        | inr c ↦
            let (result, store) =
              rotate_refresh_token (rotation token (current_account_type c.subject s.users))
                s.token_store in
            (
              rotation_response result,
              record { users = s.users; lockout = s.lockout; token_store = store },
            )
      ]
