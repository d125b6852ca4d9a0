-- ===== src/Devserver/Accounts/Signin.antt =====
-- Signing in with what was registered.
use ruskiy.Shared.{ℕ, true, false, String, str_eq_self, if◌then◌else◌, ◌≡◌, refl, arith}
use ruskiy.Shared.Int.{ℤ}
use ruskiy.Devserver.{User, MemStore}
use ruskiy.Devserver.Accounts.{
  Secrets, refused, signed_in, tokens_for, new_user, with_user, register, token,
}

module _ {F : Type 0} (secrets : Secrets) (id : String) (now : ℤ) (email password locale : String)
    (s : MemStore F) where
  abbrev pub registered : MemStore F
  registered = (register secrets id now email password locale s).1

  -- A registration that is answered with tokens went through all the checks.
  registered-user :
      (status : ℕ) (u : User) (access refresh : String)
      → (register secrets id now email password locale s).0 ≡ signed_in status u access refresh
      → (u ≡ new_user secrets id now email password locale)
        × (registered ≡ with_user secrets (new_user secrets id now email password locale) s)
  unfolding register
  registered-user status u access refresh e = ground (arith, e)

  token-registered :
      (later : ℤ) (attempt : String)
      → registered ≡ with_user secrets (new_user secrets id now email password locale) s
      → token secrets later email attempt registered ≡ (
          if secrets.verify_password (secrets.hash_password password) attempt
          then tokens_for secrets 200 later (new_user secrets id now email password locale)
          else refused 401 "invalid credentials")
  unfolding token
  token-registered later attempt e =
      rw e (rw (str_eq_self email, token) (rw (str_eq_self id, token) refl))

  -- For a registration that the in-memory server answers with tokens for a user, where bcrypt accepts a password
  -- against its own hash: signing in later with the email and the password is answered with that user and
  -- tokens for the user's ID, and with a password that bcrypt does not accept it is refused.
  pub register-token :
      (status : ℕ) (u : User) (access refresh : String) (later : ℤ) (other : String)
      → (register secrets id now email password locale s).0 ≡ signed_in status u access refresh
      → secrets.verify_password (secrets.hash_password password) password ≡ true
      → secrets.verify_password (secrets.hash_password password) other ≡ false
      → (token secrets later email password registered ≡ tokens_for secrets 200 later u)
        × (u.email ≡ email)
        × (token secrets later email other registered ≡ refused 401 "invalid credentials")
  register-token status u access refresh later other e good bad =
      let (same, store) = registered-user status u access refresh e in
      (
        rw (token-registered later password store, good, same) refl,
        rw same refl,
        rw (token-registered later other store, bad) refl,
      )
