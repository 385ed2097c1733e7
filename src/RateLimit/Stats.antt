-- ===== src/RateLimit/Stats.antt =====
-- `GetStats` of internal/api/ratelimit.go against the window that `check` counts.
use dbbat.Prelude.{
  ℕ, ◌+◌, ◌≡◌, refl, String, List, [], ◌∷◌, arith, ltb, length, Option-cases, inl, inr,
}
use dbbat.Prelude.Keys.{string_eq}
use dbbat.Prelude.Maps.{lookup}
use dbbat.Prelude.Sums.{count}
use dbbat.RateLimit.{
  RateLimiter, fresh, reset_time, check_window, get_window, check, count_valid, first_reset,
  get_stats,
}
use dbbat.RateLimit.Window.{Sorted, drop_expired, prune-drop_expired, length-drop_expired}

count_valid-count : (now : ℕ) (ts : List ℕ) → count_valid now ts ≡ count (fresh now) ts
unfolding count_valid count
count_valid-count now [] = refl
count_valid-count now (t ∷ ts) = ground (arith, count_valid-count now ts)

first_reset-reset_time :
    (now : ℕ) (ts : List ℕ) → first_reset now ts ≡ reset_time now (drop_expired now ts)
unfolding first_reset reset_time drop_expired
first_reset-reset_time now [] = refl
first_reset-reset_time now (t ∷ ts) = ground (arith, first_reset-reset_time now ts)

get_stats-get_window :
    (rl : RateLimiter) (key : String) (now : ℕ)
    → get_stats rl key now
      ≡ (count_valid now (get_window key rl), first_reset now (get_window key rl))
unfolding get_stats get_window count_valid first_reset
get_stats-get_window rl key now = elim (Option-cases (lookup key rl.windows)) [
  | inl miss ↦ rw (miss, get_stats)
  | inr (ts, hit) ↦ rw (hit, get_stats)
]

check_window-drop_expired :
    (burst limit now : ℕ) (ts : List ℕ)
    → ((check_window burst limit now ts).0.allowed
        ≡ ltb (length (drop_expired now ts)) (limit + burst))
      × ((check_window burst limit now ts).0.reset ≡ reset_time now (drop_expired now ts))
unfolding check_window
check_window-drop_expired burst limit now ts = ground (arith, prune-drop_expired now ts)

-- On a window whose timestamps are sorted, `GetStats` reports what `check` decides by: the
-- request is allowed exactly when the count is below the limit and the burst together, and the
-- two name the same reset time.
pub get_stats-check :
    (rl : RateLimiter) (key : String) (limit now : ℕ)
    → Sorted (get_window key rl)
    → ((check rl key limit now).0.allowed ≡ ltb (get_stats rl key now).0 (limit + rl.burst))
      × ((check rl key limit now).0.reset ≡ (get_stats rl key now).1)
unfolding check
get_stats-check rl key limit now s =
    let w = get_window key rl in
    rw
      (
        get_stats-get_window rl key now,
        count_valid-count now w,
        ← length-drop_expired now w s,
        first_reset-reset_time now w,
      )
      (check_window-drop_expired rl.burst limit now w)
