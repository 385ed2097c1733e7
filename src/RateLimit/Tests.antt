-- ===== src/RateLimit/Tests.antt =====
-- Runs of the limiter of internal/api/ratelimit.go.
use dbbat.Prelude.{◌+◌, ◌*◌, ◌≡◌, refl, ap, true, false, [], ◌∷◌, arith}
use dbbat.Prelude.Keys.{string_eq}
use dbbat.Prelude.Maps.{lookup}
use dbbat.Prelude.Sums.{count}
use dbbat.RateLimit.{
  RateLimiter, RateLimitConfig, check, check_window, get_window, cleanup, prune, second,
  retry_after,
}
use dbbat.RateLimit.Window.{Sorted}
use dbbat.RateLimit.Minutes.{Tracks}
use dbbat.RateLimit.Cleanup.{check-cleanup}
use dbbat.RateLimit.Middleware.{retry_after-too_early}

abbrev two_per_minute : RateLimitConfig
two_per_minute = record {
  enabled = true;
  requests_per_minute = 1;
  requests_per_minute_anon = 1;
  burst = 1;
}

abbrev used : RateLimiter
used = record {
  enabled = true;
  requests_per_minute = 1;
  requests_per_minute_anon = 1;
  burst = 1;
  windows = ("a", 10 ∷ 20 ∷ []) ∷ ("b", 25 ∷ []) ∷ [];
}

used-Sorted : Sorted (get_window "a" used)
used-Sorted = unfold get_window lookup in ((omega arith, tt), (tt, tt))

check-cleanup_example : (check (cleanup 30 used) "a" 1 40).0 ≡ (check used "a" 1 40).0
check-cleanup_example =
    check-cleanup used "a" 1 30 40 (unfold lookup in (refl, (refl, tt))) used-Sorted (omega arith)

-- The window 10, 20 with a limit and a burst of 1 each.
full_window :
    check_window 1 1 40 (10 ∷ 20 ∷ [])
    ≡ (record { allowed = false; remaining = 0; reset = 60_000_000_010 }, 10 ∷ 20 ∷ [])
full_window = unfold check_window prune in refl

full_refused : (check_window 1 1 40 (10 ∷ 20 ∷ [])).0.allowed ≡ false
full_refused = ap (λ r. r.0.allowed) full_window

full-Tracks : Tracks (1 + 1) 40 (10 ∷ 20 ∷ []) (10 ∷ 20 ∷ [])
full-Tracks = record {
  sorted = ((omega arith, tt), (tt, tt));
  window_past = (omega arith, (omega arith, tt));
  same = λ t h. refl;
  within = λ t. unfold count in ground arith;
}

retry_after-too_early_example :
    (check_window 1 1
      (41 + retry_after (check_window 1 1 40 (10 ∷ 20 ∷ [])).0.reset 41 * second)
      (check_window 1 1 40 (10 ∷ 20 ∷ [])).1).0.allowed
    ≡ false
retry_after-too_early_example =
    retry_after-too_early 1 1 40 41 (10 ∷ 20 ∷ []) (10 ∷ 20 ∷ []) (omega arith) (omega arith)
      full-Tracks full_refused (rw full_window (omega arith)) (rw full_window (omega arith))
