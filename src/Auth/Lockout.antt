-- ===== src/Auth/Lockout.antt =====
-- services/api/internal/auth/auth.go: LockoutEntry and LockoutManager. A map from a user ID to an entry
-- is a function to Option. Times are the nanoseconds of the readings of time.Now, which the methods
-- take as arguments; a method that reads the clock twice takes two.
pub mod History
use Prim.Native.Nat.{◌^◌}
use ruskiy.Shared.{
  ℕ, suc, ◌+◌, ◌*◌, ltb, leb, if◌then◌else◌, Bool, true, false, Option, none, some, String, str_eq,
  put, List, [], ◌∷◌,
}

abbrev pub max_failed_attempts : ℕ
max_failed_attempts = 5

-- 15 * time.Minute
abbrev pub lockout_duration : ℕ
lockout_duration = 15 * 60 * 10 ^ 9

pub record LockoutEntry : Type 0 where
  pub failed_attempts : ℕ
  pub locked_until : Option ℕ

abbrev pub Accounts : Type 0
Accounts = String → Option LockoutEntry

abbrev pub entry : ℕ → Option ℕ → LockoutEntry
entry n t = record { failed_attempts = n; locked_until = t }

-- entry.LockedUntil != nil && time.Now().Before(*entry.LockedUntil)
abbrev pub is_before : ℕ → Option ℕ → Bool
is_before now none = false
is_before now (some t) = ltb now t

abbrev pub entry_or_new : Option LockoutEntry → LockoutEntry
entry_or_new none = entry 0 none
entry_or_new (some e) = e

unfoldable pub new_lockout_manager : Accounts
new_lockout_manager user = none

-- The status and the accounts; `at` is the reading of the clock from which a new lockout runs.
unfoldable pub record_failed_attempt : (now at : ℕ) → String → Accounts → ℕ × Accounts
record_failed_attempt now at user accounts =
    let e = entry_or_new (accounts user) in
    let n = suc e.failed_attempts in
    if is_before now e.locked_until
    then (429, put user (some e) accounts)
    else if leb max_failed_attempts n
    then (429, put user (some (entry n (some (at + lockout_duration)))) accounts)
    else (401, put user (some (entry n e.locked_until)) accounts)

abbrev pub entry_locked : ℕ → Option LockoutEntry → Bool
entry_locked now none = false
entry_locked now (some e) = is_before now e.locked_until

unfoldable pub is_locked : ℕ → String → Accounts → Bool
is_locked now user accounts = entry_locked now (accounts user)

unfoldable pub check_lockout : ℕ → String → Accounts → ℕ
check_lockout now user accounts = if entry_locked now (accounts user) then 429 else 0

unfoldable pub reset_attempts : String → Accounts → Accounts
reset_attempts user accounts = put user none accounts
