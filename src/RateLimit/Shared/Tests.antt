-- ===== src/RateLimit/Shared/Tests.antt =====
-- Requests of internal/api/ratelimit.go that run beside one another.
use dbbat.Prelude.{◌+◌, ◌≤◌, ◌≡◌, refl, true, List, [], ◌∷◌, arith, keep}
use dbbat.Prelude.Keys.{string_eq}
use dbbat.Prelude.Maps.{lookup, insert}
use dbbat.Prelude.Sums.{count}
use dbbat.RateLimit.{RateLimitConfig, check_window, prune, valid_start_loop}
use dbbat.RateLimit.Minutes.{in_minute}
use dbbat.RateLimit.Shared.{
  Event, takes, checks, ticks, new_shared, step, take_window, take_with, check_at, sweep,
  allowed_by,
}
use dbbat.RateLimit.Shared.Bound.{InOrder, HeldLive, allowed_at, allowed_at-le}

abbrev two_per_minute : RateLimitConfig
two_per_minute = record {
  enabled = true;
  requests_per_minute = 1;
  requests_per_minute_anon = 1;
  burst = 1;
}

-- Three requests take the window of one key before any of them is checked: the third is refused.
abbrev crowd : List Event
crowd =
    takes 1 "a"
    ∷ takes 2 "a"
    ∷ takes 3 "a"
    ∷ checks 2 1 10
    ∷ checks 1 1 20
    ∷ ticks 25
    ∷ checks 3 1 30
    ∷ []

crowd_allowed : allowed_at "a" (new_shared two_per_minute) crowd ≡ 10 ∷ 20 ∷ []
crowd_allowed =
    unfold keep allowed_at allowed_by step take_window take_with check_at sweep check_window prune
      valid_start_loop lookup insert new_shared in
    refl

-- The only window that is taken at the tick is the one with the two requests.
crowd-HeldLive : HeldLive 25 (
    step (checks 1 1 20) (
      step
        (checks 2 1 10)
        (step (takes 3 "a") (step (takes 2 "a") (step (takes 1 "a") (new_shared two_per_minute))))))
unfolding step take_window take_with check_at sweep check_window prune valid_start_loop lookup
    insert new_shared
crowd-HeldLive r key a e = ground (arith, e)

crowd-InOrder : InOrder "a" 1 0 (new_shared two_per_minute) crowd
crowd-InOrder =
    unfold step take_window take_with check_at sweep check_window prune valid_start_loop lookup
      insert new_shared in
    (
      omega arith,
      λ a e. refl,
      (omega arith, λ a e. refl, (omega arith, crowd-HeldLive, (omega arith, λ a e. refl, tt))),
    )

allowed_at-le_example :
    count (in_minute 30) (allowed_at "a" (new_shared two_per_minute) crowd) ≤ 1 + 1
allowed_at-le_example = allowed_at-le two_per_minute "a" 1 crowd 30 crowd-InOrder

-- A cleanup between the two sections of the first request deletes the window that it has taken, which is
-- still empty: of the four requests one too many is allowed.
abbrev orphaned : List Event
orphaned =
    takes 1 "a"
    ∷ ticks 5
    ∷ checks 1 1 10
    ∷ takes 2 "a"
    ∷ checks 2 1 20
    ∷ takes 3 "a"
    ∷ checks 3 1 30
    ∷ takes 4 "a"
    ∷ checks 4 1 40
    ∷ []

orphaned_allowed : allowed_at "a" (new_shared two_per_minute) orphaned ≡ 10 ∷ 20 ∷ 30 ∷ []
orphaned_allowed =
    unfold keep allowed_at allowed_by step take_window take_with check_at sweep check_window prune
      valid_start_loop lookup insert new_shared in
    refl
