-- ===== src/Auth/Lockout/History.antt =====
-- What a LockoutManager says of an account after any history of failed logins and resets.
use ruskiy.Shared.{
  ℕ, suc, ◌+◌, ◌≤◌, ◌<◌, ltb, leb, ◌==◌, if◌then◌else◌, Bool, true, false, Option, none, some,
  String, str_eq, str_eq_self, str_eq_iff, List, [], ◌∷◌, ◌≡◌, refl, arith, if_elim, Bool-cases,
  inl, inr, ◌⊎◌, sym, ◌∙◌,
}
use mathlib.Core.Path.{subst}
use ruskiy.Auth.Lockout.{
  LockoutEntry, Accounts, entry, is_before, entry_or_new, new_lockout_manager,
  record_failed_attempt, entry_locked, is_locked, check_lockout, reset_attempts, lockout_duration,
  max_failed_attempts,
}

-- A failed login with its two readings of the clock, and a successful one.
pub data Event : Type 0 where
  failure : (now at : ℕ) → String → Event
  success : String → Event

abbrev pub step : Event → Accounts → Accounts
step (failure now at user) accounts = (record_failed_attempt now at user accounts).1
step (success user) accounts = reset_attempts user accounts

-- The accounts after a history, the newest event first.
abbrev pub accounts_after : List Event → Accounts
accounts_after [] = new_lockout_manager
accounts_after (e ∷ earlier) = step e (accounts_after earlier)

-- The number of failed logins of the user since the last success.
abbrev pub streak : String → List Event → ℕ
streak user [] = 0
streak user (failure now at u ∷ earlier) =
    if str_eq u user then suc (streak user earlier) else streak user earlier
streak user (success u ∷ earlier) = if str_eq u user then 0 else streak user earlier

-- Below five failures in a row the entry counts them and there is no lockout; from the fifth on there
-- is one.
abbrev pub Tracks : ℕ → LockoutEntry → Type 0
Tracks n e =
    ((n < 5) × (e ≡ entry n none))
    ⊎ ((5 ≤ n) × (t : ℕ) × (5 ≤ e.failed_attempts) × (e.locked_until ≡ some t))

abbrev attempt : (now at : ℕ) → LockoutEntry → LockoutEntry
attempt now at e =
    if is_before now e.locked_until
    then e
    else if leb max_failed_attempts (suc e.failed_attempts)
    then entry (suc e.failed_attempts) (some (at + lockout_duration))
    else entry (suc e.failed_attempts) e.locked_until

-- The entry of every user after a failed login.
record_failed_attempt_at :
    (now at : ℕ) (u user : String) (accounts : Accounts)
    → (record_failed_attempt now at u accounts).1 user
      ≡ (if str_eq u user then some (attempt now at (entry_or_new (accounts u))) else accounts user)
unfolding record_failed_attempt
record_failed_attempt_at now at u user accounts =
    let e = entry_or_new (accounts u) in
    elim (Bool-cases (is_before now e.locked_until)) [
      | inl locked ↦ rw locked refl
      | inr open_ ↦ elim (Bool-cases (leb max_failed_attempts (suc e.failed_attempts))) [
        | inl last ↦ rw (open_, last) refl
        | inr more ↦ rw (open_, more) refl
      ]
    ]

attempt-Tracks : (now at n : ℕ) (e : LockoutEntry) → Tracks n e → Tracks (suc n) (attempt now at e)
attempt-Tracks now at n e (inl (few, same)) =
    subst (λ x. Tracks (suc n) (attempt now at x)) (sym same)
      (if_elim (Tracks (suc n)) (leb 5 (suc n)) (entry (suc n) (some (at + lockout_duration)))
        (entry (suc n) none) (λ last. inr (ground arith, at + lockout_duration, ground arith, refl))
        (λ more. inl (ground arith, refl)))
attempt-Tracks now at n e (inr (many, t, m, locked)) =
    let k = suc e.failed_attempts in
    let relock = entry k (some (at + lockout_duration)) in
    let count = entry k e.locked_until in
    if_elim (Tracks (suc n)) (is_before now e.locked_until) e (if leb 5 k then relock else count)
      (λ _. inr (omega arith, t, m, locked))
      (λ _.
        if_elim (Tracks (suc n)) (leb 5 k) relock count
          (λ _. inr (omega arith, at + lockout_duration, omega arith, refl))
          (λ _. inr (omega arith, t, omega arith, locked)))

-- For every history of failed and successful logins of any users at any times: a user with fewer than
-- five failures since the last success has an entry with that count and no lockout, and a user with
-- five or more has a lockout.
pub accounts_after-Tracks :
    (history : List Event) (user : String)
    → Tracks (streak user history) (entry_or_new (accounts_after history user))
unfolding new_lockout_manager reset_attempts
accounts_after-Tracks [] user = inl (omega arith, refl)
accounts_after-Tracks (failure now at u ∷ earlier) user = elim (Bool-cases (str_eq u user)) [
  | inl same ↦
      let before = entry_or_new (accounts_after earlier u) in
      rw (record_failed_attempt_at now at u user (accounts_after earlier), same)
        (attempt-Tracks now at (streak user earlier) before (
          subst (λ v. Tracks (streak user earlier) (entry_or_new (accounts_after earlier v)))
            (sym ((str_eq_iff u user).0 same)) (accounts_after-Tracks earlier user)))
  | inr other ↦
      rw (record_failed_attempt_at now at u user (accounts_after earlier), other)
        (accounts_after-Tracks earlier user)
]
accounts_after-Tracks (success u ∷ earlier) user = elim (Bool-cases (str_eq u user)) [
  | inl same ↦ rw same (inl (omega arith, refl))
  | inr other ↦ rw other (accounts_after-Tracks earlier user)
]

-- The status says whether the entry locks afterwards.
status_lem :
    (now at : ℕ)
    → now ≤ at
    → (user : String) (accounts : Accounts)
    → (record_failed_attempt now at user accounts).0 ≡ (
        if is_before now (attempt now at (entry_or_new (accounts user))).locked_until
        then 429
        else 401)
unfolding record_failed_attempt
status_lem now at h user accounts =
    let e = entry_or_new (accounts user) in
    elim (Bool-cases (is_before now e.locked_until)) [
      | inl locked ↦ rw (locked, locked) refl
      | inr open_ ↦ elim (Bool-cases (leb max_failed_attempts (suc e.failed_attempts))) [
        | inl last ↦ rw (open_, last) (ground arith)
        | inr more ↦ rw (open_, more, open_) refl
      ]
    ]

decode : (b : Bool) (n : ℕ) → (n == 429) ≡ false → ((if b then 429 else n) == 429) ≡ b
decode true n h = refl
decode false n h = h

locked_after :
    (now at : ℕ) (user : String) (accounts : Accounts)
    → is_locked now user (record_failed_attempt now at user accounts).1
      ≡ is_before now (attempt now at (entry_or_new (accounts user))).locked_until
unfolding is_locked
locked_after now at user accounts =
    rw (record_failed_attempt_at now at user user accounts, str_eq_self user) refl

-- For every user, accounts and readings of the clock in order: a failed login is answered with 429
-- exactly when the account is locked afterwards, and then CheckLockout answers 429 too; no other
-- account's lock changes.
record_failed_attempt_lem :
    (now at : ℕ)
    → now ≤ at
    → (user other : String) (accounts : Accounts)
    → (((record_failed_attempt now at user accounts).0 == 429)
        ≡ is_locked now user (record_failed_attempt now at user accounts).1)
      × ((check_lockout now user (record_failed_attempt now at user accounts).1 == 429)
          ≡ is_locked now user (record_failed_attempt now at user accounts).1)
      × ((str_eq user other ≡ true)
          ⊎ (is_locked now other (record_failed_attempt now at user accounts).1
              ≡ is_locked now other accounts))
unfolding record_failed_attempt is_locked check_lockout
record_failed_attempt_lem now at h user other accounts =
    let e = attempt now at (entry_or_new (accounts user)) in
    (
      rw (status_lem now at h user accounts, locked_after now at user accounts)
          (decode (is_before now e.locked_until) 401 refl),
      decode (entry_locked now ((record_failed_attempt now at user accounts).1 user)) 0 refl,
      elim (Bool-cases (str_eq user other)) [
        | inl same ↦ inl same
        | inr different ↦
            inr (rw (record_failed_attempt_at now at user other accounts, different) refl)
      ],
    )

entry_locked_lem :
    (now : ℕ) (o : Option LockoutEntry)
    → entry_locked now o ≡ is_before now (entry_or_new o).locked_until
entry_locked_lem now none = refl
entry_locked_lem now (some e) = refl

-- For every history with at least five failures of the user since the last success, and every clock
-- reading at which the account is not locked (the lockout has run out): one more failed login is answered
-- with 429 and locks the account for the whole duration again, since the count is not reset.
relock_after_expiry :
    (history : List Event) (user : String) (now at later : ℕ)
    → 5 ≤ streak user history
    → is_locked now user (accounts_after history) ≡ false
    → ((record_failed_attempt now at user (accounts_after history)).0 ≡ 429)
      × (is_locked later user (record_failed_attempt now at user (accounts_after history)).1
          ≡ ltb later (at + lockout_duration))
unfolding record_failed_attempt is_locked
relock_after_expiry history user now at later many open_ =
    let accounts = accounts_after history in
    let e = entry_or_new (accounts user) in
    let open_entry : is_before now e.locked_until ≡ false =
      sym (entry_locked_lem now (accounts user)) ∙ open_ in
    let last : leb max_failed_attempts (suc e.failed_attempts) ≡ true =
      elim (accounts_after-Tracks history user) [
        | inl (few, _) ↦ absurd (omega (arith, few, many))
        | inr (_, _, m, _) ↦ ground (arith, m)
      ] in
    (
      rw (open_entry, last) refl,
      rw (record_failed_attempt_at now at user user accounts, str_eq_self user, open_entry, last)
          refl,
    )
