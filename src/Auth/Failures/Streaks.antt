-- ===== src/Auth/Failures/Streaks.antt =====
-- The tracker of failed logins of internal/api/middleware.go against the log of what happened.
use dbbat.Prelude.{
  ℕ, ◌+◌, ◌-◌, ◌*◌, ◌/◌, ◌≤◌, ◌<◌, ◌≡◌, refl, sym, ◌∙◌, subst, String, Bool, true, false, not,
  Option, none, some, List, [], ◌∷◌, arith, ltb, leb, if◌then◌else◌, max, Bool-cases, inl, inr,
}
use dbbat.Prelude.Keys.{string_eq, ◌=?◌}
use dbbat.Prelude.Maps.{
  lookup, lookup-insert, lookup-delete, lookup-keep, Unique, insert-Unique, delete-Unique,
  keep-Unique,
}
use dbbat.Auth.Failures.{
  FailureRecord, second, reset_duration, is_stale, blocked, backoff_loop, check_record,
  check_rate_limit, counted, record_failure, reset_failures, cleanup,
}

-- What happens to the tracker: a login fails, a login succeeds, the cleanup ticks.
pub data Event : Type 0 where
  failed : String → ℕ → Event
  succeeded : String → ℕ → Event
  ticked : ℕ → Event

abbrev pub time_of : Event → ℕ
time_of (failed username t) = t
time_of (succeeded username t) = t
time_of (ticked t) = t

abbrev pub step : Event → List (String × FailureRecord) → List (String × FailureRecord)
step (failed username t) failures = record_failure t t username failures
step (succeeded username t) failures = reset_failures username failures
step (ticked t) failures = cleanup t failures

-- The events, the newest first.
unfoldable pub run : List Event → List (String × FailureRecord)
run [] = []
run (e ∷ events) = step e (run events)

-- No event is newer than `now`, and each is as new as those before it.
abbrev pub Ordered : ℕ → List Event → Type 0
Ordered now [] = Unit
Ordered now (e ∷ events) = (time_of e ≤ now) × Ordered (time_of e) events

-- One more failure after a row of failures.
abbrev pub extended : ℕ → Option (ℕ × ℕ) → ℕ × ℕ
extended t none = (1, t)
extended t (some (n, last)) = (if ltb (last + reset_duration) t then 1 else n + 1, t)

-- The user's failures in a row: how many, each at most 15 minutes after the one before, and when the
-- last one was. A success ends the row; nothing else does, and there is no cleaning.
unfoldable pub streak : String → List Event → Option (ℕ × ℕ)
streak username [] = none
streak username (failed u t ∷ events) =
    let rest = streak username events in if u =? username then some (extended t rest) else rest
streak username (succeeded u t ∷ events) =
    let rest = streak username events in if u =? username then none else rest
streak username (ticked t ∷ events) = streak username events

-- How long a row of failures blocks after its last one.
abbrev pub delay_after : ℕ → ℕ
delay_after n =
    if leb 10 n
    then 300 * second
    else if leb 7 n
    then 120 * second
    else if leb 5 n
    then 30 * second
    else if leb 3 n
    then 5 * second
    else 0

abbrev pub expected : ℕ → ℕ → Option (ℕ × ℕ) → Bool × ℕ
expected now later none = (true, 0)
expected now later (some (n, last)) =
    if ltb now (last + delay_after n)
    then (false, max 1 ((last + delay_after n - later) / second))
    else (true, 0)

abbrev pair_of : FailureRecord → ℕ × ℕ
pair_of r = (r.count, r.last_failure)

-- The tracker's record is the row, or is gone because the row is stale.
abbrev Tracks : ℕ → Option FailureRecord → Option (ℕ × ℕ) → Type 0
Tracks now none none = Unit
Tracks now none (some (n, last)) = last + reset_duration < now
Tracks now (some r) none = ⊥
Tracks now (some r) (some (n, last)) = (r.count ≡ n) × (r.last_failure ≡ last) × (last ≤ now)

Tracks-later :
    (now later : ℕ) (r : Option FailureRecord) (s : Option (ℕ × ℕ))
    → now ≤ later
    → Tracks now r s
    → Tracks later r s
Tracks-later now later none none le h = tt
Tracks-later now later none (some (n, last)) le h = omega arith
Tracks-later now later (some r) none le h = h
Tracks-later now later (some r) (some (n, last)) le (a, b, c) = (a, b, omega arith)

step-Unique :
    (e : Event) (failures : List (String × FailureRecord))
    → Unique failures
    → Unique (step e failures)
unfolding record_failure reset_failures cleanup
step-Unique (failed u t) failures h = insert-Unique u (counted t t (lookup u failures)) failures h
step-Unique (succeeded u t) failures h = delete-Unique u failures h
step-Unique (ticked t) failures h = keep-Unique (λ r. not (is_stale t r.last_failure)) failures h

run-Unique : (events : List Event) → Unique (run events)
unfolding run
run-Unique [] = tt
run-Unique (e ∷ events) = step-Unique e (run events) (run-Unique events)

counted-Tracks :
    (t now : ℕ) (r : Option FailureRecord) (s : Option (ℕ × ℕ))
    → t ≤ now
    → Tracks t r s
    → Tracks now (some (counted t t r)) (some (extended t s))
unfolding counted
counted-Tracks t now none none le h = (refl, refl, le)
counted-Tracks t now none (some (n, last)) le h = (ground (arith, h), refl, le)
counted-Tracks t now (some r) none le h = absurd h
counted-Tracks t now (some r) (some (n, last)) le (a, b, c) = (ground (arith, a, b), refl, le)

-- A tick forgets only rows that are stale.
kept_or_none : ℕ → Option FailureRecord → Option FailureRecord
kept_or_none t none = none
kept_or_none t (some r) = if not (is_stale t r.last_failure) then some r else none

ticked-Tracks :
    (t now : ℕ) (r : Option FailureRecord) (s : Option (ℕ × ℕ))
    → t ≤ now
    → Tracks t r s
    → Tracks now (kept_or_none t r) s
unfolding kept_or_none
ticked-Tracks t now none s le h = Tracks-later t now none s le h
ticked-Tracks t now (some r) none le h = absurd h
ticked-Tracks t now (some r) (some (n, last)) le (a, b, c) =
    elim (Bool-cases (is_stale t r.last_failure)) [
      | inl stale ↦ rw stale (ground (arith, stale, b))
      | inr fresh ↦ rw fresh (a, b, omega arith)
    ]

lookup-cleanup :
    (t : ℕ) (username : String) (failures : List (String × FailureRecord))
    → Unique failures
    → lookup username (cleanup t failures) ≡ kept_or_none t (lookup username failures)
unfolding cleanup kept_or_none
lookup-cleanup t username failures h =
    lookup-keep (λ r. not (is_stale t r.last_failure)) username failures h
    ∙ cases (lookup username failures)
  where
    cases :
        (r : Option FailureRecord)
        → (elim r [
          | none ↦ none
          | some v ↦ if not (is_stale t v.last_failure) then some v else none
        ])
          ≡ kept_or_none t r
    cases none = refl
    cases (some r) = refl

run-Tracks :
    (username : String) (events : List Event) (now : ℕ)
    → Ordered now events
    → Tracks now (lookup username (run events)) (streak username events)
unfolding run streak record_failure reset_failures
run-Tracks username [] now o = unfold lookup in tt
run-Tracks username (failed u t ∷ events) now (le, o) =
    let before = run-Tracks username events t o in
    let look = lookup-insert u username (counted t t (lookup u (run events))) (run events) in
    elim (Bool-cases (u =? username)) [
      | inl same ↦
          let eq = (string_eq.beq_iff u username).0 same in
          rw (look, same)
            (counted-Tracks t now (lookup u (run events)) (streak username events) le (
              subst (λ v. Tracks t (lookup v (run events)) (streak username events)) (sym eq)
                before))
      | inr other ↦
          rw (look, other)
            (Tracks-later t now (lookup username (run events)) (streak username events) le before)
    ]
run-Tracks username (succeeded u t ∷ events) now (le, o) =
    let before = run-Tracks username events t o in
    elim (Bool-cases (u =? username)) [
      | inl same ↦ rw (lookup-delete u username (run events), same) tt
      | inr other ↦
          rw (lookup-delete u username (run events), other)
            (Tracks-later t now (lookup username (run events)) (streak username events) le before)
    ]
run-Tracks username (ticked t ∷ events) now (le, o) =
    subst (λ r. Tracks now r (streak username events))
      (sym (lookup-cleanup t username (run events) (run-Unique events)))
      (ticked-Tracks t now (lookup username (run events)) (streak username events) le
        (run-Tracks username events t o))

check-expected :
    (now later : ℕ) (r : Option FailureRecord) (s : Option (ℕ × ℕ))
    → Tracks now r s
    → check_record now later r ≡ expected now later s
unfolding check_record backoff_loop blocked
check-expected now later none none h = refl
check-expected now later none (some (n, last)) h = ground (arith, h)
check-expected now later (some r) none h = absurd h
check-expected now later (some r) (some (n, last)) (a, b, c) = ground (arith, a, b, c)

-- After any events in the order of time, with ticks of the cleanup among them, `checkRateLimit` says of
-- any user what the row of the user's failures implies: it refuses within 5 seconds of the last
-- failure of a row of 3, 30 seconds of 5, 2 minutes of 7 and 5 minutes of 10, with the seconds that are
-- left, at least 1, and allows otherwise. Failures are in a row when none comes more than 15 minutes
-- after the one before and no success lies between; the cleanup changes no answer.
pub check_rate_limit-streak :
    (username : String) (events : List Event) (now later : ℕ)
    → Ordered now events
    → check_rate_limit now later username (run events) ≡ expected now later (streak username events)
unfolding check_rate_limit
check_rate_limit-streak username events now later o =
    check-expected now later (lookup username (run events)) (streak username events)
      (run-Tracks username events now o)
