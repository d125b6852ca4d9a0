-- ===== src/Gateway.antt =====
-- services/api/internal/gateway/gateway.go: NewRouter. Which route chi finds for a method and a path is a
-- parameter; the CORS handler and the limit on the body are left out. The state of the gateway is the rate
-- limiter's and that of the handlers.
use ruskiy.Shared.{
  ℕ, if◌then◌else◌, Bool, true, false, Option, Option-cases, none, some, String, str_eq, str_eq_iff,
  List, [], ◌∷◌, ◌≡◌, ◌≢◌, refl, ap, arith, ◌⊎◌, inl, inr,
}
use mathlib.Core.Path.{subst}
use mathlib.Core.Option.{some-injective}
use ruskiy.Auth.Jwt.{TokenClaims, Jwt}
use ruskiy.Middleware.RateLimit.{
  RateLimitConfig, Windows, Answer as Verdict, served, too_many_requests, rate_limit,
}
use ruskiy.Middleware.Http.{
  Request, Response, reply, unknown_api_version, Handler, get_user_id, when_set, authenticated,
  request_claims, jwt_auth,
}
use ruskiy.Middleware.Http.Reach.{sum_cases, request_claims-subject}

-- The routes of NewRouter; `no_route` is what chi answers itself, with its status.
pub data Route : Type 0 where
  health auth_token my_profile generate_v1 generate_v2 : Route
  unknown_version : String → Route
  no_route : ℕ → Route

verdict_cases : (v : Verdict) → (v ≡ served) ⊎ ((n : ℕ) × (v ≡ too_many_requests n))
verdict_cases served = inl refl
verdict_cases (too_many_requests n) = inr (n, refl)

unfoldable pub available_versions : Bool → List String
available_versions has_v2 = if has_v2 then "v1" ∷ "v2" ∷ [] else "v1" ∷ []

-- The state behind the middleware.
pub record Backend (S : Type 0) : Type 0 where
  pub windows : Windows
  pub handlers : S

abbrev tier_of : Option String → String
tier_of none = ""
tier_of (some t) = t

-- The rate limiter in front of a handler; `none` is a gateway without one.
unfoldable pub limited :
    {S : Type 0} → Option RateLimitConfig → (now : ℕ) → Handler S → Handler (Backend S)
limited none now next r b =
    let (answer, s) = next r b.handlers in (answer, record { windows = b.windows; handlers = s })
limited (some cfg) now next r b =
    let user : Option String = if str_eq (get_user_id r) "" then none else some (get_user_id r) in
    let (verdict, windows) = rate_limit cfg now user (tier_of r.account_tier_key) b.windows in
    let (answer, s) = next r b.handlers in
    elim verdict [
      | served ↦ (answer, record { windows = windows; handlers = s })
      | too_many_requests _ ↦
          (reply 429 "rate_limit_exceeded", record { windows = windows; handlers = b.handlers })
    ]

-- What the verdict on a request makes of its answer.
abbrev after_verdict :
    {S : Type 0} → Verdict × Windows → Response × S → Backend S → Response × Backend S
after_verdict v answer b = elim v.0 [
  | served ↦ (answer.0, record { windows = v.1; handlers = answer.1 })
  | too_many_requests _ ↦
      (reply 429 "rate_limit_exceeded", record { windows = v.1; handlers = b.handlers })
]

limited-authenticated :
    {S : Type 0} (cfg : RateLimitConfig) (now : ℕ) (c : TokenClaims) (next : Handler S)
    (r : Request) (b : Backend S)
    → str_eq c.subject "" ≡ false
    → limited (some cfg) now next (authenticated c r) b
      ≡ after_verdict
          (rate_limit cfg now
            (some c.subject)
            (tier_of (when_set c.account_type r.account_tier_key))
            b.windows)
          (next (authenticated c r) b.handlers)
          b
unfolding limited get_user_id
limited-authenticated cfg now c next r b e =
    ap
      (λ t.
        after_verdict
          (rate_limit cfg now (if t then none else some c.subject)
            (tier_of (when_set c.account_type r.account_tier_key)) b.windows)
          (next (authenticated c r) b.handlers) b)
      e

module _ {S Private Public : Type 0} (jwt : Jwt Private Public) (public_key : Public)
    (limiter : Option RateLimitConfig) where
  unfoldable pub protected : (now : ℕ) → Handler S → Handler (Backend S)
  unfolding limited
  protected now next = jwt_auth jwt public_key now (limited limiter now next)

  -- The handlers that are injected; `none` is a deployment without the v2 API.
  module _ (chi : Bool → (method path : String) → Route) (profile session_v1 : Handler S)
      (session_v2 : Option (Handler S)) where
    abbrev pub has_v2 : Bool
    has_v2 = elim session_v2 [ none ↦ false | some _ ↦ true ]

    unfoldable pub serve : (now : ℕ) → Route → Handler (Backend S)
    unfolding protected available_versions
    serve now health r b = (reply 200 "ok", b)
    serve now auth_token r b = (reply 200 "ok", b)
    serve now my_profile r b = protected now profile r b
    serve now generate_v1 r b = protected now session_v1 r b
    serve now generate_v2 r b = elim session_v2 [
      | none ↦ (reply 404 "", b)
      | some next ↦ protected now next r b
    ]
    serve now (unknown_version version) r b =
        (unknown_api_version version (available_versions has_v2), b)
    serve now (no_route status) r b = (reply status "", b)

    unfoldable pub new_router : (now : ℕ) → Handler (Backend S)
    unfolding serve
    new_router now r b = serve now (chi has_v2 r.method r.path) r b

    -- The handler that is injected for a route behind the middleware.
    abbrev pub handler_behind : Route → Option (Handler S)
    handler_behind my_profile = some profile
    handler_behind generate_v1 = some session_v1
    handler_behind generate_v2 = session_v2
    handler_behind _ = none

    -- The verdict of the rate limiter on the user and the tier of a token; with no limiter all is served.
    abbrev pub verdict_on : (now : ℕ) → TokenClaims → Request → Windows → Verdict × Windows
    verdict_on now c r w = elim limiter [
      | none ↦ (served, w)
      | some cfg ↦
          rate_limit cfg now (some c.subject) (tier_of (when_set c.account_type r.account_tier_key))
            w
    ]

    -- The request reaches the handler.
    abbrev pub Passed :
        (now : ℕ) → TokenClaims → Handler S → Request → Backend S → Response × Backend S → Type 0
    Passed now c next r b result =
        ((verdict_on now c r b.windows).0 ≡ served)
        × (result ≡ (
          (next (authenticated c r) b.handlers).0,
          record {
            windows = (verdict_on now c r b.windows).1;
            handlers = (next (authenticated c r) b.handlers).1;
          },
        ))

    -- The rate limiter refuses it.
    abbrev pub Limited :
        (now : ℕ) → TokenClaims → Request → Backend S → Response × Backend S → Type 0
    Limited now c r b result =
        (retry : ℕ) × ((verdict_on now c r b.windows).0 ≡ too_many_requests retry)
        × (result ≡ (
          reply 429 "rate_limit_exceeded",
          record { windows = (verdict_on now c r b.windows).1; handlers = b.handlers },
        ))

    -- What comes of a request on a route with the handler `next`: no token, a call of that handler, or
    -- a refusal of the rate limiter.
    abbrev pub Guarded : (now : ℕ) → Handler S → Request → Backend S → Response × Backend S → Type 0
    Guarded now next r b result =
        ((e : String) × (request_claims jwt public_key now r ≡ inl e) × (result ≡ (reply 401 e, b)))
        ⊎ ((c : TokenClaims) × (request_claims jwt public_key now r ≡ inr c)
            × (c.subject ≢ "")
            × (Passed now c next r b result ⊎ Limited now c r b result))

    limited-Passed :
        (now : ℕ) (c : TokenClaims) (next : Handler S) (r : Request) (b : Backend S)
        → c.subject ≢ ""
        → let result = limited limiter now next (authenticated c r) b in
          Passed now c next r b result ⊎ Limited now c r b result
    unfolding limited get_user_id
    limited-Passed now c next r b named = elim (Option-cases limiter) [
      | inl e ↦ rw (e, limited) (inl (refl, refl))
      | inr (cfg, e) ↦
          let named_user : str_eq c.subject "" ≡ false =
            ground (arith, named, (str_eq_iff c.subject "").0) in
          let tier = tier_of (when_set c.account_type r.account_tier_key) in
          elim (verdict_cases (rate_limit cfg now (some c.subject) tier b.windows).0) [
            | inl ok ↦
                rw (e, limited-authenticated cfg now c next r b named_user, ok) (inl (refl, refl))
            | inr (retry, full) ↦
                rw (e, limited-authenticated cfg now c next r b named_user, full)
                  (inr (retry, refl, refl))
          ]
    ]

    protected-Guarded :
        (now : ℕ) (next : Handler S) (r : Request) (b : Backend S)
        → Guarded now next r b (protected now next r b)
    unfolding protected jwt_auth
    protected-Guarded now next r b = elim (sum_cases (request_claims jwt public_key now r)) [
      | inl (e, h) ↦ inl (e, h, rw (h, jwt_auth) refl)
      | inr (c, h) ↦
          let named = request_claims-subject jwt public_key now r c h in
          inr (c, h, named, rw (h, jwt_auth) (limited-Passed now c next r b named))
    ]

    serve-Guarded :
        (now : ℕ) (route : Route) (next : Handler S) (r : Request) (b : Backend S)
        → handler_behind route ≡ some next
        → Guarded now next r b (serve now route r b)
    unfolding serve
    serve-Guarded now my_profile next r b h =
        subst (λ n. Guarded now n r b (protected now profile r b)) (some-injective profile next h)
          (protected-Guarded now profile r b)
    serve-Guarded now generate_v1 next r b h =
        subst (λ n. Guarded now n r b (protected now session_v1 r b))
          (some-injective session_v1 next h) (protected-Guarded now session_v1 r b)
    serve-Guarded now generate_v2 next r b h = rw h (protected-Guarded now next r b)
    serve-Guarded now health next r b h = absurd (ground (arith, h))
    serve-Guarded now auth_token next r b h = absurd (ground (arith, h))
    serve-Guarded now (unknown_version v) next r b h = absurd (ground (arith, h))
    serve-Guarded now (no_route status) next r b h = absurd (ground (arith, h))

    -- On every route behind the gateway's middleware, with the handler that is injected for that route,
    -- whatever the handlers do: a request without a token that is valid and names a user gets 401, and
    -- neither the rate limiter nor a handler changes its state. Else the rate limiter, if there is one,
    -- counts the request for the token's user and tier. If it refuses, the answer is 429 and the
    -- handler's state is as before; if not, the answer and the state are those of the handler on
    -- the request with the user of the token.
    pub new_router-Guarded :
        (now : ℕ) (next : Handler S) (r : Request) (b : Backend S)
        → handler_behind (chi has_v2 r.method r.path) ≡ some next
        → Guarded now next r b (new_router now r b)
    unfolding new_router
    new_router-Guarded now next r b h = serve-Guarded now (chi has_v2 r.method r.path) next r b h
