-- ===== src/Middleware/Http.antt =====
-- services/api/internal/middleware/auth.go: JWTAuth, RequireRole, GetUserID and GetRole. A request is its
-- Authorization header and what the code puts in its context and headers; `none` is a key that is
-- absent. An answer is a status with the error, or the status, that its body names.
pub mod Reach
use Prim.Native.String.{slice, len}
use text.Mathlib.Text.{find?}
use ruskiy.Shared.{
  ℕ, suc, ◌+◌, ◌==◌, ◌&&◌, ◌||◌, not, if◌then◌else◌, Bool, true, false, Option, none, some, String,
  str_eq, List, [], ◌∷◌, ◌⊎◌, inl, inr,
}
use ruskiy.Auth.Jwt.{TokenClaims, Parsed, parsed, not_valid, expired, bad_signature, Jwt}

pub record Request : Type 0 where
  pub method : String
  pub path : String
  pub authorization : String
  pub user_id_header : Option String
  pub user_id_key : Option String
  pub role_key : Option String
  pub account_tier_key : Option String

pub data Response : Type 0 where
  reply : (status : ℕ) → (body : String) → Response
  unknown_api_version : (requested_version : String) → (available_versions : List String) → Response  -- with status 404

-- A handler's answer and the state afterwards.
abbrev pub Handler : Type 0 → Type 0
Handler S = Request → S → Response × S

abbrev text_or_empty : Option String → String
text_or_empty none = ""
text_or_empty (some s) = s

unfoldable pub get_user_id : Request → String
get_user_id r = text_or_empty r.user_id_key

unfoldable pub get_role : Request → String
get_role r = text_or_empty r.role_key

-- strings.SplitN(header, " ", 2) when it has two parts.
unfoldable pub split_header : String → Option (String × String)
split_header h = elim (find? h " ") [
  | none ↦ none
  | some i ↦ some (slice h 0 i, slice h (i + 1) (len h))
]

-- The letters from the index `i` on, in either case.
abbrev has_letters : String → ℕ → List (String × String) → Bool
has_letters s i [] = len s == i
has_letters s i ((lower, upper) ∷ letters) =
    let letter = slice s i (i + 1) in
    (str_eq letter lower || str_eq letter upper) && has_letters s (suc i) letters

-- strings.EqualFold(s, "bearer")
unfoldable pub is_bearer : String → Bool
is_bearer s =
    has_letters s 0
      (("b", "B") ∷ ("e", "E") ∷ ("a", "A") ∷ ("r", "R") ∷ ("e", "E") ∷ ("r", "R") ∷ [])

abbrev pub when_set : String → Option String → Option String
when_set value old = if str_eq value "" then old else some value

-- The request that the next handler gets.
abbrev pub authenticated : TokenClaims → Request → Request
authenticated c r = record {
  method = r.method;
  path = r.path;
  authorization = r.authorization;
  user_id_header = some c.subject;
  user_id_key = some c.subject;
  role_key = when_set c.role r.role_key;
  account_tier_key = when_set c.account_type r.account_tier_key;
}

-- The checks of JWTAuth behind ParseWithClaims.
unfoldable pub check_subject : Parsed → String ⊎ TokenClaims
check_subject (parsed c) = if str_eq c.subject "" then inl "invalid_token_subject" else inr c
check_subject not_valid = inl "invalid_or_expired_token"
check_subject expired = inl "invalid_or_expired_token"
check_subject bad_signature = inl "invalid_or_expired_token"

module _ {Private Public : Type 0} (jwt : Jwt Private Public) (public_key : Public) (now : ℕ) where
  -- The token of the header, or the error.
  unfoldable pub bearer_token : String → String ⊎ String
  unfolding split_header is_bearer
  bearer_token header =
      if str_eq header "" then inl "missing_auth_token" else elim (split_header header) [
        | none ↦ inl "invalid_authorization_format"
        | some (scheme, token) ↦
            if is_bearer scheme then inr token else inl "invalid_authorization_format"
      ]

  unfoldable pub token_claims : String → String ⊎ TokenClaims
  unfolding check_subject
  token_claims token = check_subject (jwt.parse public_key now token)

  -- The claims of the request's token, or the error.
  unfoldable pub request_claims : Request → String ⊎ TokenClaims
  unfolding bearer_token token_claims
  request_claims r = elim (bearer_token r.authorization) [
    | inl e ↦ inl e
    | inr token ↦ token_claims token
  ]

  unfoldable pub jwt_auth : {S : Type 0} → Handler S → Handler S
  unfolding request_claims
  jwt_auth next r s = elim (request_claims r) [
    | inl e ↦ (reply 401 e, s)
    | inr c ↦ next (authenticated c r) s
  ]

unfoldable pub require_role : {S : Type 0} → String → Handler S → Handler S
unfolding get_role
require_role role next r s =
    if not (str_eq (get_role r) role) then (reply 403 "insufficient_permissions", s) else next r s
