-- ===== src/Store/Streak/Runs.antt =====
-- The streaks of a learner as runs of days.
use Prim.Native.Nat.{max}
use ruskiy.Shared.{
  ℕ, suc, ◌+◌, ◌≤◌, ◌<◌, ◌==◌, Bool-cases, true, false, none, some, String, put_self, str_eq_self,
  List, [], ◌∷◌, length, has_id, ◌≡◌, refl, sym, arith, inl, inr,
}
use mathlib.Core.Path.{subst}
use ruskiy.Shared.Int.{ℤ}
use ruskiy.Store.Streak.{
  LearnerStats, get_stats, first_row, next_streak, longest_candidate, update_row, record_activity,
  after_sessions,
}

abbrev pub days : List (ℕ × ℤ) → List ℕ
days [] = []
days ((day, xp) ∷ earlier) = day ∷ days earlier

-- No session is on an earlier day than the one before it.
abbrev pub Ordered : ℕ → List (ℕ × ℤ) → Type 0
Ordered last [] = Unit
Ordered last ((day, xp) ∷ earlier) = (day ≤ last) × Ordered day earlier

-- The learner was active on exactly the last `k` days up to `last` of the days, and not on the day before.
abbrev pub IsRun : ℕ → ℕ → List ℕ → Type 0
IsRun k last active =
    ((n : ℕ) → n ≤ last → last < n + k → has_id n active ≡ true)
    × ((n : ℕ) → n + k ≡ last → has_id n active ≡ false)

-- The row of a learner whose last session was on the day `last`.
pub record Shown (last : ℕ) (sessions : List (ℕ × ℤ)) (row : LearnerStats) : Type 0 where
  pub latest : row.last_active ≡ some last
  pub some_day : 1 ≤ row.current_streak
  pub run : IsRun row.current_streak last (days sessions)
  pub longest : row.current_streak ≤ row.longest_streak
  pub counted : row.total_sessions ≡ length sessions

later_absent :
    (n last : ℕ) (sessions : List (ℕ × ℤ))
    → Ordered last sessions
    → last < n
    → has_id n (days sessions) ≡ false
later_absent n last [] o lt = refl
later_absent n last ((day, xp) ∷ earlier) (le, o) lt =
    let rest = later_absent n day earlier o (omega arith) in ground (arith, rest, le, lt)

first_row-Shown : (day : ℕ) (xp : ℤ) → Shown day ((day, xp) ∷ []) (first_row day xp)
first_row-Shown day xp = record {
  latest = refl;
  some_day = omega arith;
  run = ((λ n le lt. ground (arith, le, lt)), λ n e. ground (arith, e));
  longest = omega arith;
  counted = refl;
}

module _ (day last : ℕ) (xp xp2 : ℤ) (earlier : List (ℕ × ℤ)) (row : LearnerStats) where
  abbrev now_active : List ℕ
  now_active = day ∷ last ∷ days earlier

  updated-Shown :
      (k : ℕ)
      → next_streak day row ≡ k
      → IsRun k day now_active
      → 1 ≤ k
      → k ≤ max row.longest_streak (longest_candidate day row)
      → row.total_sessions ≡ suc (length earlier)
      → Shown day ((day, xp) ∷ (last, xp2) ∷ earlier) (update_row day xp row)
  unfolding update_row
  updated-Shown k same run positive long counted = record {
    latest = refl;
    some_day = omega (arith, same, positive);
    run = subst (λ x. IsRun x day now_active) (sym same) run;
    longest = omega (arith, same, long);
    counted = omega (arith, counted);
  }

  skip_day : (n : ℕ) (l : List ℕ) → n < day → has_id n l ≡ false → has_id n (day ∷ l) ≡ false
  skip_day n l lt e = ground (arith, lt, e)

  hit_day : (n : ℕ) (l : List ℕ) → has_id n l ≡ true → has_id n (day ∷ l) ≡ true
  hit_day n l e = ground (arith, e)

  -- One more session, on the same day, on the next one or on a later one.
  update_row-Shown :
      last ≤ day
      → Ordered last earlier
      → Shown last ((last, xp2) ∷ earlier) row
      → Shown day ((day, xp) ∷ (last, xp2) ∷ earlier) (update_row day xp row)
  update_row-Shown le o s =
      let k = row.current_streak in
      let (inside, before) = s.run in
      elim (Bool-cases (suc last == day)) [
        | inl next ↦
            updated-Shown (k + 1) (rw (s.latest, next) refl)
              (
                (λ n a b. elim (Bool-cases (day == n)) [
                  | inl e ↦ rw e refl
                  | inr e ↦ rw e (inside n (ground (arith, next, a, e)) (ground (arith, next, b)))
                ]),
                λ n e.
                    skip_day n (last ∷ days earlier) (ground (arith, next, e))
                      (before n (ground (arith, next, e))),
              )
              (omega arith) (rw (s.latest, next) (omega arith)) s.counted
        | inr not_next ↦ elim (Bool-cases (last == day)) [
          | inl same ↦
              updated-Shown k (rw (s.latest, not_next, same) refl)
                (
                  (λ n a b.
                      hit_day n (last ∷ days earlier)
                        (inside n (ground (arith, same, a)) (ground (arith, same, b)))),
                  λ n e.
                      skip_day n (last ∷ days earlier) (ground (arith, same, e, s.some_day))
                        (before n (ground (arith, same, e))),
                )
                s.some_day (omega (arith, s.longest)) s.counted
          | inr gap ↦
              updated-Shown 1 (rw (s.latest, not_next, gap) refl)
                (
                  (λ n a b. ground (arith, a, b)),
                  λ n e. skip_day n (last ∷ days earlier) (omega (arith, e)) (
                      later_absent n last ((last, xp2) ∷ earlier) (omega arith, o)
                        (ground (arith, le, gap, not_next, e))),
                )
                (omega arith) (rw (s.latest, not_next) (omega arith)) s.counted
        ]
      ]

sessions-Shown :
    (learner : String) (day : ℕ) (xp : ℤ) (earlier : List (ℕ × ℤ))
    → Ordered day earlier
    → (row : LearnerStats) × (after_sessions learner ((day, xp) ∷ earlier) learner ≡ some row)
      × Shown day ((day, xp) ∷ earlier) row
unfolding record_activity
sessions-Shown learner day xp [] o = (
  first_row day xp,
  put_self learner (some (first_row day xp)) (λ l. none),
  first_row-Shown day xp,
)
sessions-Shown learner day xp ((last, xp2) ∷ earlier) (le, o) =
    let (row, found, shown) = sessions-Shown learner last xp2 earlier o in
    (
      update_row day xp row,
      rw (found, record_activity) (rw (str_eq_self learner) refl),
      update_row-Shown day last xp xp2 earlier row le o shown,
    )

-- For every history of sessions of a learner on days that do not go back, from an empty table on: Get then
-- answers with the number of sessions, the last day, a current streak that is the longest run of days
-- up to that day on which the learner had a session, and a longest streak that is not below it.
pub get_stats-Shown :
    (learner : String) (day : ℕ) (xp : ℤ) (earlier : List (ℕ × ℤ))
    → Ordered day earlier
    → Shown day
        ((day, xp) ∷ earlier)
        (get_stats learner (after_sessions learner ((day, xp) ∷ earlier)))
unfolding get_stats
get_stats-Shown learner day xp earlier o =
    let (row, found, shown) = sessions-Shown learner day xp earlier o in rw (found, get_stats) shown
