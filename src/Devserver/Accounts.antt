-- ===== src/Devserver/Accounts.antt =====
-- services/api/cmd/devserver/main.go: generateToken, jwtAuth, /auth/register and /auth/token.
pub mod Signin
use Prim.Native.String.{len, slice}
use ruskiy.Shared.{
  ℕ, ltb, not, ◌||◌, if◌then◌else◌, Bool, true, false, Option, none, some, String, str_eq, put,
}
use ruskiy.Shared.Int.{ℤ, pos, ◌+ℤ◌}
use ruskiy.Devserver.{User, MemStore}

-- bcrypt, and signing and parsing of a JWT with the secret: `sign` takes the subject, the expiry and the
-- time of issue, and its error leaves an empty token; `parse` is `none` where the token is not
-- valid, and otherwise the claim "sub", empty where it is no text.
pub record Secrets : Type 0 where
  pub hash_password : String → String
  pub verify_password : (hash password : String) → Bool
  pub sign : (subject : String) → (expires issued : ℤ) → String
  pub parse : (now : ℤ) → String → Option String

pub data AccountAnswer : Type 0 where
  refused : (status : ℕ) → (error : String) → AccountAnswer
  signed_in : (status : ℕ) → User → (access refresh : String) → AccountAnswer

module _ (secrets : Secrets) where
  -- `ttl` in seconds.
  abbrev pub generate_token : (now : ℤ) → String → (ttl : ℤ) → String
  generate_token now user_id ttl = secrets.sign user_id (now +ℤ ttl) now

  abbrev pub tokens_for : (status : ℕ) → (now : ℤ) → User → AccountAnswer
  tokens_for status now u =
      signed_in status u (generate_token now u.id (pos 900)) (generate_token now u.id (pos 2592000))

  -- The user ID that the next handler gets.
  unfoldable pub jwt_auth : (now : ℤ) → (authorization : String) → Option String
  jwt_auth now auth =
      if str_eq auth "" || not (str_eq (slice auth 0 7) "Bearer ")
      then none
      else secrets.parse now (slice auth 7 (len auth))

  abbrev pub new_user : (id : String) → (now : ℤ) → (email password locale : String) → User
  new_user id now email password locale = record {
    id = id;
    email = email;
    password_hash = secrets.hash_password password;
    created_at = now;
    account_type = "free";
    locale = if str_eq locale "" then "en-US" else locale;
  }

  module _ {F : Type 0} where
    abbrev pub with_user : User → MemStore F → MemStore F
    with_user u s = record s {
      users = put u.id (some u) s.users;
      email_index = put u.email (some u.id) s.email_index;
    }

    unfoldable pub register :
        (id : String)
        → (now : ℤ) → (email password locale : String) → MemStore F
        → AccountAnswer × MemStore F
    register id now email password locale s =
        if str_eq email "" || str_eq password ""
        then (refused 400 "email and password required", s)
        else if ltb (len password) 8
        then (refused 400 "password must be at least 8 characters", s)
        else elim (s.email_index email) [
          | some _ ↦ (refused 409 "email already registered", s)
          | none ↦
              let u = new_user id now email password locale in (tokens_for 201 now u, with_user u s)
        ]

    abbrev pub user_of_email : String → MemStore F → Option User
    user_of_email email s = elim (s.email_index email) [ none ↦ none | some id ↦ s.users id ]

    unfoldable pub token : (now : ℤ) → (email password : String) → MemStore F → AccountAnswer
    token now email password s = elim (user_of_email email s) [
      | none ↦ refused 401 "invalid credentials"
      | some u ↦
          if secrets.verify_password u.password_hash password
          then tokens_for 200 now u
          else refused 401 "invalid credentials"
    ]
