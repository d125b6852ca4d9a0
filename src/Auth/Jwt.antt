-- ===== src/Auth/Jwt.antt =====
-- services/api/internal/auth/auth.go: TokenClaims, GenerateAccessToken, GenerateRefreshToken and
-- ValidateToken. The JWT library is a parameter; times are nanoseconds. A refresh token has no role,
-- account type or typ, and reads as claims with "" there.
use ruskiy.Shared.{ℕ, ◌+◌, ◌*◌, ltb, if◌then◌else◌, Option, some, String, ◌≡◌, ◌⊎◌, inl, inr}
use Prim.Native.Nat.{◌^◌}

pub record TokenClaims : Type 0 where
  pub id : String
  pub subject : String
  pub issued_at : ℕ
  pub expires_at : ℕ
  pub role : String
  pub account_type : String
  pub typ : String

-- What ParseWithClaims answers for an RSA key: the claims, or an error, which may be ErrTokenExpired.
pub data Parsed : Type 0 where
  parsed : (is_valid_token : TokenClaims) → Parsed
  not_valid expired bad_signature : Parsed

-- The JWT library: NewNumericDate, SignedString for RS256 (`none` is its error), and ParseWithClaims at
-- a time with the key function of this code, which refuses other signing methods.
pub record Jwt (Private Public : Type 0) : Type 0 where
  pub numeric_date : ℕ → ℕ
  pub sign : Private → TokenClaims → Option String
  pub parse : Public → ℕ → String → Parsed

pub record KeyPair (Private Public : Type 0) : Type 0 where
  pub private_key : Private
  pub public_key : Public

-- Documented behaviour of the library on a key pair: a token that it signed parses to its claims until
-- it expires, and to the error ErrTokenExpired from then on.
pub record JwtLaws {Private Public : Type 0} (jwt : Jwt Private Public)
    (kp : KeyPair Private Public) : Type 0 where
  pub signed :
      (c : TokenClaims) (now : ℕ) (token : String)
      → jwt.sign kp.private_key c ≡ some token
      → jwt.parse kp.public_key now token ≡ (if ltb now c.expires_at then parsed c else expired)

abbrev pub minute : ℕ
minute = 60 * 10 ^ 9

abbrev pub access_token_ttl : ℕ
access_token_ttl = 15 * minute

abbrev pub refresh_token_ttl : ℕ
refresh_token_ttl = 30 * 24 * 60 * minute

pub data TokenError : Type 0 where
  err_token_expired err_invalid_signature err_invalid_token : TokenError

module _ {Private Public : Type 0} (jwt : Jwt Private Public) where
  abbrev pub access_claims : ℕ → (user_id role account_type : String) → TokenClaims
  access_claims now user_id role account_type = record {
    id = "";
    subject = user_id;
    issued_at = jwt.numeric_date now;
    expires_at = jwt.numeric_date (now + access_token_ttl);
    role = role;
    account_type = account_type;
    typ = "access";
  }

  unfoldable pub generate_access_token :
      KeyPair Private Public → ℕ → (user_id role account_type : String) → Option String
  generate_access_token kp now user_id role account_type =
      jwt.sign kp.private_key (access_claims now user_id role account_type)

  abbrev pub refresh_claims : ℕ → (uuid user_id : String) → TokenClaims
  refresh_claims now uuid user_id = record {
    id = uuid;
    subject = user_id;
    issued_at = jwt.numeric_date now;
    expires_at = jwt.numeric_date (now + refresh_token_ttl);
    role = "";
    account_type = "";
    typ = "";
  }

  unfoldable pub generate_refresh_token :
      KeyPair Private Public → ℕ → (uuid user_id : String) → Option String
  generate_refresh_token kp now uuid user_id =
      jwt.sign kp.private_key (refresh_claims now uuid user_id)

  unfoldable pub validate_token : KeyPair Private Public → ℕ → String → TokenError ⊎ TokenClaims
  validate_token kp now token = elim (jwt.parse kp.public_key now token) [
    | parsed c ↦ inr c
    | not_valid ↦ inl err_invalid_token
    | expired ↦ inl err_token_expired
    | bad_signature ↦ inl err_invalid_signature
  ]
