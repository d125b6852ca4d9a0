-- ===== src/Auth/Oauth.antt =====
-- services/api/internal/auth/auth.go: ExchangeOAuthCode. The provider's exchange of a code and the table of
-- users are parameters: the provider answers with the user's ID at the provider, and the users are a state
-- with the two operations of UserLookup.
use ruskiy.Shared.{ℕ, Bool, true, false, Option, none, some, String, ◌⊎◌, inl, inr}
use ruskiy.Auth.Jwt.{Jwt, KeyPair, generate_access_token, generate_refresh_token}

pub record OauthUserInfo : Type 0 where
  pub provider_user_id : String
  pub email : String
  pub display_name : String
  pub provider : String

pub record OauthResult : Type 0 where
  pub access_token : String
  pub refresh_token : String
  pub user_id : String
  pub oauth_provider : String
  pub is_new_user : Bool

pub data OauthError : Type 0 where
  oauth_exchange_failed create_failed signing_failed : OauthError

-- The interface UserLookup on a state.
pub record UserLookup (S : Type 0) : Type 0 where
  pub find_by_oauth_provider : (provider provider_user_id : String) → S → Option String
  pub create_oauth_user : OauthUserInfo → S → Option String × S

module _ {Private Public S : Type 0} (jwt : Jwt Private Public) (kp : KeyPair Private Public)
    (users : UserLookup S) where
  -- The user's ID, and whether it is new.
  unfoldable pub find_or_create : OauthUserInfo → S → Option (String × Bool) × S
  find_or_create info s =
      elim (users.find_by_oauth_provider info.provider info.provider_user_id s) [
        | some id ↦ (some (id, false), s)
        | none ↦
            let (created, after) = users.create_oauth_user info s in
            (elim created [ none ↦ none | some id ↦ some (id, true) ], after)
      ]

  unfoldable pub oauth_tokens :
      (now later : ℕ) → (uuid provider_name : String) → String × Bool → OauthError ⊎ OauthResult
  oauth_tokens now later uuid provider_name (id, is_new) =
      elim (generate_access_token jwt kp now id "learner" "free") [
        | none ↦ inl signing_failed
        | some access ↦ elim (generate_refresh_token jwt kp later uuid id) [
          | none ↦ inl signing_failed
          | some refresh ↦ inr (record {
            access_token = access;
            refresh_token = refresh;
            user_id = id;
            oauth_provider = provider_name;
            is_new_user = is_new;
          })
        ]
      ]

  -- `exchanged` is the provider's answer to the code; the two tokens read the clock one after the other.
  unfoldable pub exchange_oauth_code :
      Option OauthUserInfo
      → (now later : ℕ) → (uuid provider_name : String) → S
      → (OauthError ⊎ OauthResult) × S
  unfolding find_or_create oauth_tokens
  exchange_oauth_code none now later uuid provider_name s = (inl oauth_exchange_failed, s)
  exchange_oauth_code (some info) now later uuid provider_name s =
      let (user, after) = find_or_create (record info { provider = provider_name }) s in
      (
        elim user [
          | none ↦ inl create_failed
          | some found ↦ oauth_tokens now later uuid provider_name found
        ],
        after,
      )
