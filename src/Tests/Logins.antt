-- ===== src/Tests/Logins.antt =====
-- Inputs for the theorems on the handlers Login and Refresh.
use ruskiy.Shared.{ℕ, true, false, none, some, String, str_eq, [], ◌∷◌, ◌≡◌, refl}
use ruskiy.Auth.Lockout.{new_lockout_manager, check_lockout, record_failed_attempt}
use ruskiy.Auth.Jwt.{generate_access_token, generate_refresh_token}
use ruskiy.Auth.Tokens.{new_memory_token_store, is_revoked}
use ruskiy.Handler.Auth.{
  User, LoginRequest, AuthState, Libraries, refused, granted, renewed, logged_in_at, login, refresh,
  current_account_type,
}
use ruskiy.Handler.Auth.Grants.{Guarded, login-Guarded, refresh-generate_access_token}
use ruskiy.Tests.Access.{two_tokens, keys, two_tokens-laws, made_access, made_refresh}

-- Passwords are their own hashes, and every text is an email and a UUID.
abbrev libraries : Libraries Unit Unit
libraries = record {
  jwt = two_tokens;
  key_pair = keys;
  hash_password = λ p. some p;
  verify_password = λ p h. str_eq p h;
  matches_email = λ e. true;
  is_uuid = λ id. true;
  insertable = λ users u. true;
}

abbrev clock : ℕ → ℕ
clock n = 0

abbrev uuids : ℕ → String
uuids n = "j"

abbrev someone : User
someone = record {
  id = "u";
  email = "u@example.org";
  password_hash = "correct horse";
  created_at = 0;
  last_login = none;
  account_type = "free";
  locale = "en-US";
}

abbrev one_user : AuthState
one_user = record {
  users = someone ∷ [];
  lockout = new_lockout_manager;
  token_store = new_memory_token_store;
}

abbrev with_password : String → LoginRequest
with_password p = record { email = "u@example.org"; password = p }

right_login :
    (login libraries clock uuids (some (with_password "correct horse")) one_user).0
    ≡ granted 200
        (logged_in_at 0 someone)
        (record { access_token = "a"; refresh_token = "r"; expires_in = 900 })
unfolding login new_lockout_manager check_lockout generate_access_token generate_refresh_token
right_login = refl

wrong_login :
    (login libraries clock uuids (some (with_password "battery")) one_user).0
    ≡ refused 401 "invalid credentials"
unfolding login new_lockout_manager check_lockout record_failed_attempt
wrong_login = refl

login-Guarded_example :
    Guarded libraries clock uuids
      (with_password "correct horse")
      one_user
      (login libraries clock uuids (some (with_password "correct horse")) one_user)
login-Guarded_example = login-Guarded libraries clock uuids (with_password "correct horse") one_user

not_revoked : is_revoked "a" new_memory_token_store ≡ false
unfolding is_revoked new_memory_token_store
not_revoked = refl

free_account : current_account_type libraries clock uuids "u" (someone ∷ []) ≡ "free"
unfolding current_account_type
free_account = refl

refresh-generate_access_token_example :
    (refresh libraries clock uuids (some "a") one_user).0
    ≡ renewed (record { access_token = "a"; refresh_token = "r"; expires_in = 900 })
refresh-generate_access_token_example =
    refresh-generate_access_token libraries clock uuids 0 "u" "learner" "free" "a" "a" "r" one_user
      two_tokens-laws made_access refl refl refl not_revoked (rw free_account made_access)
      made_refresh
