-- ===== src/Auth/Tokens.antt =====
-- services/api/internal/auth/auth.go: RotateRefreshToken on MemoryTokenStore. What the JWT library
-- answers in one call stands in the call: the subject of the old token if it parses and is valid, and
-- the new tokens if they can be signed.
pub mod Replay
use ruskiy.Shared.{if◌then◌else◌, Bool, true, false, Option, none, some, String, put}

pub record MemoryTokenStore : Type 0 where
  pub tokens : String → Option String
  pub revoked : String → Bool
  pub revoked_reused : String → Bool

unfoldable pub new_memory_token_store : MemoryTokenStore
new_memory_token_store = record {
  tokens = λ id. none;
  revoked = λ id. false;
  revoked_reused = λ id. false;
}

unfoldable pub store_refresh_token : String → String → MemoryTokenStore → MemoryTokenStore
store_refresh_token token_id user_id s = record s { tokens = put token_id (some user_id) s.tokens }

unfoldable pub revoke_refresh_token : String → MemoryTokenStore → MemoryTokenStore
revoke_refresh_token token_id s = record s { revoked = put token_id true s.revoked }

unfoldable pub is_revoked : String → MemoryTokenStore → Bool
is_revoked token_id s = s.revoked token_id

unfoldable pub record_revoked_reuse : String → MemoryTokenStore → MemoryTokenStore
record_revoked_reuse token_id s = record s { revoked_reused = put token_id true s.revoked_reused }

unfoldable pub was_reused_after_revoke : String → MemoryTokenStore → Bool
was_reused_after_revoke token_id s = s.revoked_reused token_id

pub record Rotation : Type 0 where
  pub old_token : String
  pub subject : Option String
  pub new_access : Option String
  pub new_refresh : Option String

pub data RotationResult : Type 0 where
  rotated : (access_token refresh_token : String) → RotationResult
  invalid_token token_revoked signing_failed : RotationResult

-- The part behind the revocation of the old token.
unfoldable pub issue_tokens :
    String → Rotation → MemoryTokenStore → RotationResult × MemoryTokenStore
issue_tokens user r s = elim r.new_access [
  | none ↦ (signing_failed, s)
  | some access ↦ elim r.new_refresh [
    | none ↦ (signing_failed, s)
    | some refresh ↦ (rotated access refresh, store_refresh_token refresh user s)
  ]
]

unfoldable pub rotate_refresh_token :
    Rotation → MemoryTokenStore → RotationResult × MemoryTokenStore
unfolding issue_tokens
rotate_refresh_token r s = elim r.subject [
  | none ↦ (invalid_token, s)
  | some user ↦
      if is_revoked r.old_token s
      then (token_revoked, record_revoked_reuse r.old_token s)
      else issue_tokens user r (revoke_refresh_token r.old_token s)
]
