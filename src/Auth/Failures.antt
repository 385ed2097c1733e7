-- ===== src/Auth/Failures.antt =====
-- internal/api/middleware.go: the failed logins of each user, and the delays that they cause. Times
-- are nanoseconds; each reading of the clock is an argument, and a critical section is one step.
pub mod Streaks
mod Tests
use dbbat.Prelude.{
  ℕ, ◌+◌, ◌-◌, ◌*◌, ◌/◌, String, Bool, true, false, not, Option, none, some, List, [], ◌∷◌, ltb,
  leb, if◌then◌else◌, max, keep,
}
use dbbat.Prelude.Keys.{string_eq}
use dbbat.Prelude.Maps.{lookup, insert, delete}

pub record FailureRecord : Type 0 where
  pub count : ℕ
  pub last_failure : ℕ

abbrev pub second : ℕ
second = 1_000_000_000

-- `authFailureResetDuration`
abbrev pub reset_duration : ℕ
reset_duration = 900 * second

-- `authBackoffDelays`
abbrev pub backoff_delays : List (ℕ × ℕ)
backoff_delays = (10, 300 * second) ∷ (7, 120 * second) ∷ (5, 30 * second) ∷ (3, 5 * second) ∷ []

-- `now.Sub(last) > authFailureResetDuration`
abbrev pub is_stale : ℕ → ℕ → Bool
is_stale now last = ltb (last + reset_duration) now

-- `blockedUntil` and what is left of it: whether the attempt is allowed, and the seconds to wait.
blocked : ℕ → ℕ → ℕ → Bool × ℕ
blocked now later blocked_until =
    if ltb now blocked_until then (false, max 1 ((blocked_until - later) / second)) else (true, 0)

-- The loop over the delays of `checkRateLimit`.
unfoldable pub backoff_loop : ℕ → ℕ → FailureRecord → List (ℕ × ℕ) → Bool × ℕ
unfolding blocked
backoff_loop now later r [] = (true, 0)
backoff_loop now later r ((min_failures, delay) ∷ delays) =
    let rest = backoff_loop now later r delays in
    if leb min_failures r.count then blocked now later (r.last_failure + delay) else rest

pub check_record : ℕ → ℕ → Option FailureRecord → Bool × ℕ
unfolding backoff_loop
check_record now later none = (true, 0)
check_record now later (some r) =
    if is_stale now r.last_failure then (true, 0) else backoff_loop now later r backoff_delays

-- `checkRateLimit`; `time.Until` reads the clock at `later`.
pub check_rate_limit : ℕ → ℕ → String → List (String × FailureRecord) → Bool × ℕ
unfolding check_record
check_rate_limit now later username failures = check_record now later (lookup username failures)

pub counted : ℕ → ℕ → Option FailureRecord → FailureRecord
counted now later none = record { count = 1; last_failure = later }
counted now later (some r) = record {
  count = if is_stale now r.last_failure then 1 else r.count + 1;
  last_failure = later;
}

-- `recordFailure`; `time.Since` reads the clock at `now`, and the failure is dated `later`.
pub record_failure : ℕ → ℕ → String → List (String × FailureRecord) → List (String × FailureRecord)
unfolding counted
record_failure now later username failures =
    insert username (counted now later (lookup username failures)) failures

-- `resetFailures`
pub reset_failures : String → List (String × FailureRecord) → List (String × FailureRecord)
reset_failures username failures = delete username failures

-- A tick of `cleanup`.
pub cleanup : ℕ → List (String × FailureRecord) → List (String × FailureRecord)
cleanup now failures = keep (λ x. not (is_stale now x.1.last_failure)) failures
