-- ===== src/Middleware/RateLimit/Limits.antt =====
-- How many requests of a user the rate limiter serves.
use ruskiy.Shared.{
  ℕ, suc, ◌+◌, ◌-◌, ◌≤◌, ltb, ltb→lt, ltb→le, min, if◌then◌else◌, Bool, true, false, Option, none,
  some, String, str_eq, str_eq_self, str_eq_iff, put, List, [], ◌∷◌, ◌≡◌, refl, sym, ap, arith,
  keep, count_by, length, All, Bool-cases, inl, inr,
}
use mathlib.Core.Path.{subst, ap₂}
use ruskiy.Middleware.RateLimit.{
  RateLimitConfig, UserWindow, Windows, window, Answer, served, too_many_requests, tier_limit,
  open_window, count_request, rate_limit,
}

pub record Request : Type 0 where
  pub at : ℕ
  pub user : String
  pub tier : String

abbrev pub request : ℕ → String → String → Request
request t u tier = record { at = t; user = u; tier = tier }

-- The answers to a sequence of authenticated requests, in their order.
abbrev pub run : RateLimitConfig → List Request → Windows → List (Request × Answer)
run cfg [] windows = []
run cfg (r ∷ rs) windows =
    let (answer, after) = rate_limit cfg r.at (some r.user) r.tier windows in
    (r, answer) ∷ run cfg rs after

abbrev pub is_of : String → Request → Bool
is_of user r = str_eq r.user user

abbrev pub answer_of : String → Request × Answer → Bool
answer_of user (r, _) = is_of user r

abbrev pub is_served : Request × Answer → Bool
is_served (_, served) = true
is_served (_, too_many_requests _) = false

rate_limit_at :
    (cfg : RateLimitConfig) (now : ℕ) (u tier user : String) (windows : Windows)
    → (rate_limit cfg now (some u) tier windows).1 user
      ≡ (if str_eq u user then some (count_request cfg now tier (windows u)).1 else windows user)
unfolding rate_limit
rate_limit_at cfg now u tier user windows = refl

-- For every configuration and every sequence of requests of any users: the answers to one user's
-- requests are the answers that the user's requests get on their own, from any windows that agree on
-- that user.
run-independent :
    (cfg : RateLimitConfig) (user : String) (rs : List Request) (windows others : Windows)
    → windows user ≡ others user
    → keep (answer_of user) (run cfg rs windows) ≡ run cfg (keep (is_of user) rs) others
unfolding rate_limit
run-independent cfg user [] windows others same = refl
run-independent cfg user (r ∷ rs) windows others same = elim (Bool-cases (str_eq r.user user)) [
  | inl own ↦
      let here : windows r.user ≡ others r.user =
        subst (λ v. windows v ≡ others v) (sym ((str_eq_iff r.user user).0 own)) same in
      let next : Windows → Windows = λ w. (rate_limit cfg r.at (some r.user) r.tier w).1 in
      rw own (
        ap₂ (λ (a : Answer) (rest : List (Request × Answer)). (r, a) ∷ rest)
          (ap (λ o. (count_request cfg r.at r.tier o).0) here)
          (run-independent cfg user rs (next windows) (next others)
            (rw own (ap (λ o. some (count_request cfg r.at r.tier o).1) here))))
  | inr foreign ↦ rw foreign (
      run-independent cfg user rs (rate_limit cfg r.at (some r.user) r.tier windows).1 others
        (rw foreign same))
]

-- The requests of one user of one tier at the given times.
abbrev pub requests : String → String → List ℕ → List Request
requests user tier [] = []
requests user tier (t ∷ times) = request t user tier ∷ requests user tier times

-- There is no window, or it has ended at the time.
abbrev pub has_ended : ℕ → Option UserWindow → Bool
has_ended now none = true
has_ended now (some win) = ltb win.window_end now

abbrev pub total_served : RateLimitConfig → String → String → List ℕ → Windows → ℕ
total_served cfg user tier times windows =
    count_by is_served (run cfg (requests user tier times) windows)

-- One request, from what the later ones get.
served_step :
    (cfg : RateLimitConfig) (user tier : String) (t : ℕ) (times : List ℕ) (n last : ℕ)
    (windows : Windows)
    → open_window cfg t (windows user) ≡ window n last
    → total_served cfg user tier times (put user (some (window (suc n) last)) windows)
      ≡ min (length times) (tier_limit cfg tier - suc n)
    → total_served cfg user tier (t ∷ times) windows
      ≡ min (suc (length times)) (tier_limit cfg tier - n)
unfolding rate_limit count_request
served_step cfg user tier t times n last windows opened rest =
    elim (Bool-cases (ltb (tier_limit cfg tier) (suc n))) [
      | inl full ↦
          rw (opened, full) (omega (arith, rest, ltb→lt (tier_limit cfg tier) (suc n) full))
      | inr room ↦
          rw (opened, room) (omega (arith, rest, ltb→le (tier_limit cfg tier) (suc n) room))
    ]

served_from :
    (cfg : RateLimitConfig) (user tier : String) (t : ℕ) (times : List ℕ) (n last : ℕ)
    (windows : Windows)
    → open_window cfg t (windows user) ≡ window n last
    → All (λ t'. t' ≤ last) times
    → total_served cfg user tier (t ∷ times) windows
      ≡ min (suc (length times)) (tier_limit cfg tier - n)
served_from cfg user tier t [] n last windows opened h =
    served_step cfg user tier t [] n last windows opened (omega arith)
served_from cfg user tier t (t2 ∷ times) n last windows opened (first, h) =
    let running : ltb last t2 ≡ false = ground (arith, first) in
    served_step cfg user tier t (t2 ∷ times) n last windows opened (
      served_from cfg user tier t2 times (suc n) last
        (put user (some (window (suc n) last)) windows) (rw (str_eq_self user, running) refl) h)

-- For every configuration, user and tier, and windows in which the user has no window or one that has
-- ended at the time `first`: of the requests at `first` and at any times up to the end of the window
-- that `first` opens, exactly as many are served as there are, up to the limit of the tier.
pub window-total_served :
    (cfg : RateLimitConfig) (user tier : String) (first : ℕ) (times : List ℕ) (windows : Windows)
    → has_ended first (windows user) ≡ true
    → All (λ t. t ≤ first + cfg.window_duration) times
    → total_served cfg user tier (first ∷ times) windows
      ≡ min (suc (length times)) (tier_limit cfg tier)
window-total_served cfg user tier first times windows ended h = omega (
  arith,
  served_from cfg user tier first times 0 (first + cfg.window_duration) windows
      (opens (windows user) ended) h,
)
  where
    opens :
        (o : Option UserWindow)
        → has_ended first o ≡ true
        → open_window cfg first o ≡ window 0 (first + cfg.window_duration)
    opens none e = refl
    opens (some win) e = rw e refl
