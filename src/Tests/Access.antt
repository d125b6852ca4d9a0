-- ===== src/Tests/Access.antt =====
-- Inputs for the theorems on JWTAuth and the gateway: a JWT library that signs two tokens of the user "u",
-- issued at 0, and no others.
use ruskiy.Shared.{
  ℕ, ◌+◌, ◌==◌, ==→eq, ◌&&◌, &&→both, ltb, if◌then◌else◌, Bool, Bool-cases, true, none, some,
  String, str_eq, str_eq_iff, ◌≡◌, ◌≢◌, refl, arith, inl, inr, sym, ap,
}
use mathlib.Core.Path.{subst}
use ruskiy.Auth.Jwt.{
  TokenClaims, Parsed, parsed, expired, bad_signature, Jwt, JwtLaws, KeyPair, access_token_ttl,
  refresh_token_ttl, access_claims, refresh_claims, generate_access_token, generate_refresh_token,
}
use ruskiy.Middleware.Http.{Request, reply, Handler, bearer_token, request_claims}
use ruskiy.Middleware.Http.Reach.{request_claims-issued}
use ruskiy.Middleware.RateLimit.{RateLimitConfig}
use ruskiy.Gateway.{Route, my_profile, Backend, new_router, Guarded, new_router-Guarded}

abbrev claims : (id : String) → ℕ → (role account_type typ : String) → TokenClaims
claims id expires_at role account_type typ = record {
  id = id;
  subject = "u";
  issued_at = 0;
  expires_at = expires_at;
  role = role;
  account_type = account_type;
  typ = typ;
}

abbrev access : TokenClaims
access = claims "" access_token_ttl "learner" "free" "access"

abbrev refresh : TokenClaims
refresh = claims "j" refresh_token_ttl "" "" ""

abbrev same_texts : TokenClaims → TokenClaims → Bool
same_texts c d =
    str_eq c.id d.id
    && (str_eq c.subject d.subject
        && (str_eq c.role d.role && (str_eq c.account_type d.account_type && str_eq c.typ d.typ)))

abbrev is_same : TokenClaims → TokenClaims → Bool
is_same c d = same_texts c d && ((c.issued_at == d.issued_at) && (c.expires_at == d.expires_at))

is_same-eq : (c d : TokenClaims) → is_same c d ≡ true → c ≡ d
is_same-eq c d h =
    let (texts, times) =
      &&→both (same_texts c d) ((c.issued_at == d.issued_at) && (c.expires_at == d.expires_at)) h in
    let (at, until) = &&→both (c.issued_at == d.issued_at) (c.expires_at == d.expires_at) times in
    let (e1, r1) = &&→both (str_eq c.id d.id) _ texts in
    let (e2, r2) = &&→both (str_eq c.subject d.subject) _ r1 in
    let (e3, r3) = &&→both (str_eq c.role d.role) _ r2 in
    let (e4, e5) = &&→both (str_eq c.account_type d.account_type) (str_eq c.typ d.typ) r3 in
    rebuild c d ((str_eq_iff c.id d.id).0 e1) ((str_eq_iff c.subject d.subject).0 e2)
      ((str_eq_iff c.role d.role).0 e3) ((str_eq_iff c.account_type d.account_type).0 e4)
      ((str_eq_iff c.typ d.typ).0 e5) (==→eq c.issued_at d.issued_at at)
      (==→eq c.expires_at d.expires_at until)
  where
    rebuild :
        (c d : TokenClaims)
        → c.id ≡ d.id
        → c.subject ≡ d.subject
        → c.role ≡ d.role
        → c.account_type ≡ d.account_type
        → c.typ ≡ d.typ
        → c.issued_at ≡ d.issued_at
        → c.expires_at ≡ d.expires_at
        → c ≡ d
    rebuild c d e1 e2 e3 e4 e5 e6 e7 i = record {
      id = e1 i;
      subject = e2 i;
      issued_at = e6 i;
      expires_at = e7 i;
      role = e3 i;
      account_type = e4 i;
      typ = e5 i;
    }

abbrev at_time : ℕ → TokenClaims → Parsed
at_time now c = if ltb now c.expires_at then parsed c else expired

abbrev pub two_tokens : Jwt Unit Unit
two_tokens = record {
  numeric_date = λ t. t;
  sign = λ k c. if is_same c access then some "a" else if is_same c refresh then some "r" else none;
  parse = λ k now token.
      if str_eq token "a"
      then at_time now access
      else if str_eq token "r"
      then at_time now refresh
      else bad_signature;
}

abbrev pub keys : KeyPair Unit Unit
keys = record { private_key = tt; public_key = tt }

pub two_tokens-laws : JwtLaws two_tokens keys
two_tokens-laws = record {
  signed = λ c now token e. elim (Bool-cases (is_same c access)) [
    | inl h ↦
        let name : "a" ≡ token = ground (arith, (rw h at e)) in
        subst (λ t. two_tokens.parse tt now t ≡ at_time now c) name
          (ap (at_time now) (sym (is_same-eq c access h)))
    | inr h ↦ elim (Bool-cases (is_same c refresh)) [
      | inl h2 ↦
          let name : "r" ≡ token = ground (arith, (rw (h, h2) at e)) in
          subst (λ t. two_tokens.parse tt now t ≡ at_time now c) name
            (ap (at_time now) (sym (is_same-eq c refresh h2)))
      | inr h2 ↦ absurd (ground (arith, (rw (h, h2) at e)))
    ]
  ];
}

abbrev with_header : String → Request
with_header header = record {
  method = "GET";
  path = "/v1/profiles/me";
  authorization = header;
  user_id_header = none;
  user_id_key = none;
  role_key = none;
  account_tier_key = none;
}

bearer_a : bearer_token two_tokens tt 7 "Bearer a" ≡ inr "a"
unfolding bearer_token
bearer_a = refl

bearer_r : bearer_token two_tokens tt 7 "bearer r" ≡ inr "r"
unfolding bearer_token
bearer_r = refl

pub made_access : generate_access_token two_tokens keys 0 "u" "learner" "free" ≡ some "a"
unfolding generate_access_token
made_access = refl

pub made_refresh : generate_refresh_token two_tokens keys 0 "j" "u" ≡ some "r"
unfolding generate_refresh_token
made_refresh = refl

abbrev user : String
user = "u"

user-named : user ≢ ""
user-named e = ground (arith, (str_eq_iff user "").1 e)

request_claims-issued_example :
    (request_claims two_tokens tt 7 (with_header "Bearer a") ≡ (
      if ltb 7 (0 + access_token_ttl)
      then inr (access_claims two_tokens 0 "u" "learner" "free")
      else inl "invalid_or_expired_token"))
    × (request_claims two_tokens tt 7 (with_header "bearer r") ≡ (
        if ltb 7 (0 + refresh_token_ttl)
        then inr (refresh_claims two_tokens 0 "j" "u")
        else inl "invalid_or_expired_token"))
request_claims-issued_example =
    request_claims-issued two_tokens keys two_tokens-laws 0 7 "j" "u" "learner" "free" "a" "r"
      (with_header "Bearer a") (with_header "bearer r") user-named made_access made_refresh bearer_a
      bearer_r

-- A handler that counts its calls.
abbrev counter : Handler ℕ
counter r n = (reply 200 "", n + 1)

abbrev one_route : Bool → (method path : String) → Route
one_route has_v2 method path = my_profile

abbrev idle : Backend ℕ
idle = record { windows = λ user. none; handlers = 0 }

-- One request in each window.
abbrev strict : RateLimitConfig
strict = record { free_limit_per_min = 1; premium_limit_per_min = 1; window_duration = 60 }

new_router-Guarded_example :
    Guarded two_tokens tt
      (some strict)
      one_route
      counter
      counter
      none
      7
      counter
      (with_header "Bearer a")
      idle
      (new_router two_tokens tt
        (some strict)
        one_route
        counter
        counter
        none
        7
        (with_header "Bearer a")
        idle)
new_router-Guarded_example =
    new_router-Guarded two_tokens tt (some strict) one_route counter counter none 7 counter
      (with_header "Bearer a") idle refl
