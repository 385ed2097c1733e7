-- ===== src/Auth/Failures/Tests.antt =====
-- Failed logins of internal/api/middleware.go: tests, and the theorem at a concrete log.
use dbbat.Prelude.{◌*◌, ◌≡◌, refl, List, [], ◌∷◌, false, arith}
use dbbat.Auth.Failures.{second, check_rate_limit}
use dbbat.Auth.Failures.Streaks.{
  Event, failed, succeeded, ticked, run, streak, expected, check_rate_limit-streak,
}

-- Three failures of a user, and a success and a tick for others.
abbrev events : List Event
events =
    ticked (4 * second)
    ∷ failed "ann" (3 * second)
    ∷ succeeded "bob" (2 * second)
    ∷ failed "ann" (1 * second)
    ∷ failed "ann" 0
    ∷ []

check_rate_limit-streak_example :
    check_rate_limit (5 * second) (5 * second) "ann" (run events)
    ≡ expected (5 * second) (5 * second) (streak "ann" events)
check_rate_limit-streak_example =
    check_rate_limit-streak "ann" events (5 * second) (5 * second)
      (omega arith, (omega arith, (omega arith, (omega arith, (omega arith, tt)))))

expected_test : expected (5 * second) (5 * second) (streak "ann" events) ≡ (false, 3)
unfolding streak
expected_test = refl
