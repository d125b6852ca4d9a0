-- ===== src/Middleware/Http/Reach.antt =====
-- Which tokens JWTAuth lets through.
use ruskiy.Shared.{
  ℕ, ◌+◌, ltb, if◌then◌else◌, Bool-cases, false, some, String, str_eq, str_eq_iff, ◌≡◌, ◌≢◌, refl,
  ◌∙◌, ap, arith, ◌⊎◌, inl, inr,
}
use ruskiy.Auth.Jwt.{
  TokenClaims, Parsed, parsed, not_valid, expired, bad_signature, Jwt, JwtLaws, KeyPair,
  access_token_ttl, refresh_token_ttl, access_claims, refresh_claims, generate_access_token,
  generate_refresh_token,
}
use ruskiy.Middleware.Http.{Request, bearer_token, token_claims, request_claims, check_subject}

pub not_empty : (s : String) → s ≢ "" → str_eq s "" ≡ false
not_empty s h = elim (Bool-cases (str_eq s "")) [
  | inl e ↦ absurd (h ((str_eq_iff s "").0 e))
  | inr e ↦ e
]

pub sum_cases : {A B : Type 0} (x : A ⊎ B) → ((a : A) × (x ≡ inl a)) ⊎ ((b : B) × (x ≡ inr b))
sum_cases (inl a) = inl (a, refl)
sum_cases (inr b) = inr (b, refl)

check_subject-subject : (p : Parsed) (c : TokenClaims) → check_subject p ≡ inr c → c.subject ≢ ""
unfolding check_subject
check_subject-subject (parsed d) c e empty = elim (Bool-cases (str_eq d.subject "")) [
  | inl h ↦ absurd (ground (arith, (rw (h, check_subject) at e)))
  | inr h ↦
      let same : d ≡ c = ground (arith, (rw (h, check_subject) at e)) in
      absurd (
        ground (
          arith,
          h,
          (str_eq_iff d.subject "").1 (ap (λ (x : TokenClaims). x.subject) same ∙ empty),
        ))
]
check_subject-subject not_valid c e empty = absurd (ground (arith, e))
check_subject-subject expired c e empty = absurd (ground (arith, e))
check_subject-subject bad_signature c e empty = absurd (ground (arith, e))

-- The user whose request is let through has an ID.
pub request_claims-subject :
    {Private Public : Type 0} (jwt : Jwt Private Public) (public_key : Public) (now : ℕ)
    (r : Request) (c : TokenClaims)
    → request_claims jwt public_key now r ≡ inr c
    → c.subject ≢ ""
unfolding request_claims token_claims
request_claims-subject jwt public_key now r c e =
    elim (sum_cases (bearer_token jwt public_key now r.authorization)) [
      | inl (message, h) ↦ absurd (ground (arith, (rw (h, request_claims) at e)))
      | inr (token, h) ↦
          check_subject-subject (jwt.parse public_key now token) c (rw (h, request_claims) at e)
    ]

module _ {Private Public : Type 0} (jwt : Jwt Private Public) (kp : KeyPair Private Public)
    (laws : JwtLaws jwt kp) where
  -- The answer to a request with a token of the claims `c`.
  token_claims-signed :
      (now : ℕ) (token : String) (c : TokenClaims) (r : Request)
      → c.subject ≢ ""
      → jwt.sign kp.private_key c ≡ some token
      → bearer_token jwt kp.public_key now r.authorization ≡ inr token
      → request_claims jwt kp.public_key now r
        ≡ (if ltb now c.expires_at then inr c else inl "invalid_or_expired_token")
  unfolding request_claims token_claims check_subject
  token_claims-signed now token c r named signed bearer = elim (Bool-cases (ltb now c.expires_at)) [
    | inl e ↦
        let answer : jwt.parse kp.public_key now token ≡ parsed c =
          laws.signed c now token signed ∙ rw e refl in
        rw
          (
            bearer,
            request_claims,
            token_claims,
            answer,
            check_subject,
            not_empty c.subject named,
            e,
          )
          refl
    | inr e ↦
        let answer : jwt.parse kp.public_key now token ≡ expired =
          laws.signed c now token signed ∙ rw e refl in
        rw (bearer, request_claims, token_claims, answer, check_subject, e) refl
  ]

  -- For every key pair on which the JWT library keeps its laws, and every user ID that is not empty: a
  -- request with a token of GenerateAccessToken is let through with the user's ID and role for as long
  -- as the token is valid, 15 minutes by the library's date, and refused afterwards. A request with a
  -- token of GenerateRefreshToken is let through the same way, for 30 days.
  pub request_claims-issued :
      (issued now : ℕ) (uuid user_id role account_type access refresh : String) (r r2 : Request)
      → user_id ≢ ""
      → generate_access_token jwt kp issued user_id role account_type ≡ some access
      → generate_refresh_token jwt kp issued uuid user_id ≡ some refresh
      → bearer_token jwt kp.public_key now r.authorization ≡ inr access
      → bearer_token jwt kp.public_key now r2.authorization ≡ inr refresh
      → (request_claims jwt kp.public_key now r ≡ (
          if ltb now (jwt.numeric_date (issued + access_token_ttl))
          then inr (access_claims jwt issued user_id role account_type)
          else inl "invalid_or_expired_token"))
        × (request_claims jwt kp.public_key now r2 ≡ (
            if ltb now (jwt.numeric_date (issued + refresh_token_ttl))
            then inr (refresh_claims jwt issued uuid user_id)
            else inl "invalid_or_expired_token"))
  unfolding generate_access_token generate_refresh_token
  request_claims-issued issued now uuid user_id role account_type access refresh r r2 named made
        made2 bearer bearer2 =
      (
        token_claims-signed now access (access_claims jwt issued user_id role account_type) r named
            made bearer,
        token_claims-signed now refresh (refresh_claims jwt issued uuid user_id) r2 named made2
            bearer2,
      )
