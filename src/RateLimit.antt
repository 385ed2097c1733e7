-- ===== src/RateLimit.antt =====
-- The sliding-window rate limiter of internal/api/ratelimit.go. Times are nanoseconds on the
-- clock's axis; an instant enters each operation as an argument. Limits and the burst are the
-- non-negative counts of the configuration.
pub mod Window
pub mod Minutes
pub mod Shared
pub mod Cleanup
pub mod Middleware
pub mod Stats
mod Tests
use dbbat.Prelude.{
  ℕ, zero, suc, ◌+◌, ◌-◌, ◌*◌, ◌/◌, String, Bool, true, false, ◌&&◌, Option, none, some, List, [],
  ◌∷◌, ◌++◌, ltb, leb, ◌==◌, if◌then◌else◌, length, drop, keep, not,
}
use dbbat.Prelude.Keys.{string_eq}
use dbbat.Prelude.Maps.{lookup, insert}

-- `time.Minute`, `time.Second`
abbrev pub minute : ℕ
minute = 60_000_000_000

abbrev pub second : ℕ
second = 1_000_000_000

pub record RateLimiter : Type 0 where
  pub enabled : Bool
  pub requests_per_minute : ℕ
  pub requests_per_minute_anon : ℕ
  pub burst : ℕ
  pub windows : List (String × List ℕ)

pub record RateLimitConfig : Type 0 where
  pub enabled : Bool
  pub requests_per_minute : ℕ
  pub requests_per_minute_anon : ℕ
  pub burst : ℕ

-- `NewRateLimiter`, without the start of the cleanup goroutine
unfoldable pub new_rate_limiter : RateLimitConfig → RateLimiter
new_rate_limiter cfg = record {
  enabled = cfg.enabled;
  requests_per_minute = cfg.requests_per_minute;
  requests_per_minute_anon = cfg.requests_per_minute_anon;
  burst = cfg.burst;
  windows = [];
}

-- `ts.After(now.Add(-time.Minute))`
abbrev pub fresh : ℕ → ℕ → Bool
fresh now ts = ltb now (ts + minute)

-- The loop of `check` that looks for `validStart`: `n` is the length of the whole list, `i` the
-- index of the first element of what is left of it.
pub valid_start_loop : ℕ → ℕ → ℕ → ℕ → List ℕ → ℕ
valid_start_loop now n i valid_start [] = valid_start
valid_start_loop now n i valid_start (ts ∷ rest) =
    let go_on = valid_start_loop now n (i + 1) (if i == n - 1 then n else valid_start) rest in
    if fresh now ts then i else go_on

pub prune : ℕ → List ℕ → List ℕ
unfolding valid_start_loop
prune now timestamps = drop (valid_start_loop now (length timestamps) 0 0 timestamps) timestamps

-- When the oldest request of the window expires.
pub reset_time : ℕ → List ℕ → ℕ
reset_time now [] = now + minute
reset_time now (ts ∷ rest) = ts + minute

pub record Verdict : Type 0 where
  pub allowed : Bool
  pub remaining : ℕ
  pub reset : ℕ

-- The critical section of `check` on one window: the verdict and the timestamps that it leaves.
-- `remaining` is set to 0 below 0, as `-` on ℕ is.
pub check_window : ℕ → ℕ → ℕ → List ℕ → Verdict × List ℕ
unfolding reset_time
check_window burst limit now timestamps =
    let valid = prune now timestamps in
    let effective_limit = limit + burst in
    let current_count = length valid in
    let remaining = effective_limit - current_count - 1 in
    let reset = reset_time now valid in
    if leb effective_limit current_count
    then (record { allowed = false; remaining = 0; reset = reset }, valid)
    else (record { allowed = true; remaining = remaining; reset = reset }, valid ++ (now ∷ []))

abbrev pub window_of : Option (List ℕ) → List ℕ
window_of none = []
window_of (some timestamps) = timestamps

-- `getWindow`: the window of the key, made empty if there is none.
pub get_window : String → RateLimiter → List ℕ
get_window key rl = window_of (lookup key rl.windows)

-- `check`, with nothing between its two critical sections; RateLimit.Shared has them apart.
pub check : RateLimiter → String → ℕ → ℕ → Verdict × RateLimiter
check rl key limit now =
    let (verdict, timestamps) = check_window rl.burst limit now (get_window key rl) in
    (verdict, record rl { windows = insert key timestamps rl.windows })

-- The test of the cleanup: the window is empty, or its last timestamp is older than a minute.
abbrev pub is_stale : ℕ → List ℕ → Bool
is_stale now [] = true
is_stale now (ts ∷ []) = ltb (ts + minute) now
is_stale now (ts ∷ ts' ∷ rest) = is_stale now (ts' ∷ rest)

-- One tick of `cleanup`: every stale window is deleted.
pub cleanup : ℕ → RateLimiter → RateLimiter
cleanup now rl = record rl { windows = keep (λ entry. not (is_stale now entry.1)) rl.windows }

-- The two loops of `GetStats`: the timestamps that count, and the first of them plus a minute. The
-- key of the user or the address is given by the caller.
pub count_valid : ℕ → List ℕ → ℕ
count_valid now [] = 0
count_valid now (ts ∷ rest) = let n = count_valid now rest in if fresh now ts then suc n else n

pub first_reset : ℕ → List ℕ → ℕ
first_reset now [] = now + minute
first_reset now (ts ∷ rest) = if fresh now ts then ts + minute else first_reset now rest

pub get_stats : RateLimiter → String → ℕ → ℕ × ℕ
unfolding count_valid first_reset
get_stats rl key now = elim (lookup key rl.windows) [
  | none ↦ (0, now + minute)
  | some timestamps ↦ (count_valid now timestamps, first_reset now timestamps)
]

-- What a middleware reads of the request: the user, if one is authenticated, and the address.
pub record User : Type 0 where
  pub uid : String
  pub rate_limit_exempt : Bool

-- The reply of a middleware: the next handler runs without headers, or with the headers of a
-- verdict, or the request is refused with a `Retry-After` in seconds.
pub data Reply : Type 0 where
  next : Reply
  next_with : ℕ → Verdict → Reply
  too_many : ℕ → Verdict → ℕ → Reply

-- `int(time.Until(resetTime).Seconds())`, at least 1; `later` is the clock's second reading.
pub retry_after : ℕ → ℕ → ℕ
retry_after reset later =
    let seconds = (reset - later) / second in if ltb seconds 1 then 1 else seconds

pub reply_to : ℕ → ℕ → Verdict → Reply
unfolding retry_after
reply_to limit later v =
    if v.allowed then next_with limit v else too_many limit v (retry_after v.reset later)

-- The common end of the three middlewares.
pub limited : RateLimiter → String → ℕ → ℕ → ℕ → Reply × RateLimiter
unfolding reply_to
limited rl key limit now later =
    let (v, rl') = check rl key limit now in (reply_to limit later v, rl')

-- The concatenations `"user:" + uid` and `"ip:" + address` are given by the caller.
module _ (user_key ip_key : String → String) where
  middleware_for : Option User → RateLimiter → String → ℕ → ℕ → Reply × RateLimiter
  unfolding limited
  middleware_for none rl client_ip now later =
      limited rl (ip_key client_ip) rl.requests_per_minute_anon now later
  middleware_for (some user) rl client_ip now later =
      if user.rate_limit_exempt
      then (next, rl)
      else limited rl (user_key user.uid) rl.requests_per_minute now later

  -- `Middleware`
  pub middleware : RateLimiter → Option User → String → ℕ → ℕ → Reply × RateLimiter
  unfolding middleware_for
  middleware rl user client_ip now later =
      if rl.enabled then middleware_for user rl client_ip now later else (next, rl)

  post_auth_for : Option User → RateLimiter → ℕ → ℕ → Reply × RateLimiter
  unfolding limited
  post_auth_for none rl now later = (next, rl)
  post_auth_for (some user) rl now later =
      if user.rate_limit_exempt
      then (next, rl)
      else limited rl (user_key user.uid) rl.requests_per_minute now later

  -- `PostAuthMiddleware`
  pub post_auth_middleware : RateLimiter → Option User → ℕ → ℕ → Reply × RateLimiter
  unfolding post_auth_for
  post_auth_middleware rl user now later =
      if rl.enabled then post_auth_for user rl now later else (next, rl)

  -- `PreAuthMiddleware`
  pub pre_auth_middleware : RateLimiter → String → ℕ → ℕ → Reply × RateLimiter
  unfolding limited
  pre_auth_middleware rl client_ip now later =
      if rl.enabled
      then limited rl (ip_key client_ip) rl.requests_per_minute_anon now later
      else (next, rl)
