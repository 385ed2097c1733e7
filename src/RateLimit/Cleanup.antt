-- ===== src/RateLimit/Cleanup.antt =====
-- The cleanup goroutine of internal/api/ratelimit.go deletes only what no later request can tell.
use dbbat.Prelude.{
  ℕ, ◌+◌, ◌≤◌, ◌<◌, ◌≡◌, refl, sym, ap, String, true, List, [], ◌∷◌, arith, All, inl, inr,
}
use dbbat.Prelude.Keys.{string_eq}
use dbbat.Prelude.Maps.{Unique}
use dbbat.RateLimit.{RateLimiter, minute, check_window, get_window, check, is_stale, cleanup}
use dbbat.RateLimit.Window.{Sorted, drop_expired, prune-drop_expired}
use dbbat.RateLimit.Minutes.{stale_old, get_window-cleanup}

drop_expired_old :
    (now later : ℕ) (ts : List ℕ)
    → now ≤ later
    → All (λ u. u + minute < now) ts
    → drop_expired later ts ≡ []
unfolding drop_expired
drop_expired_old now later [] h o = refl
drop_expired_old now later (t ∷ ts) h (o, os) = ground (arith, drop_expired_old now later ts h os)

check_window_stale :
    (burst limit now later : ℕ) (ts : List ℕ)
    → now ≤ later
    → Sorted ts
    → is_stale now ts ≡ true
    → check_window burst limit later ts ≡ check_window burst limit later []
unfolding check_window
check_window_stale burst limit now later ts h s stale =
    let old = drop_expired_old now later ts h (stale_old now ts s stale) in
    rw (prune-drop_expired later ts, prune-drop_expired later [], old) (unfold drop_expired in refl)

-- A cleanup at `now` changes no verdict of `check` at `now` or later, on a limiter whose map has
-- each key once and whose windows are sorted.
pub check-cleanup :
    (rl : RateLimiter) (key : String) (limit now later : ℕ)
    → Unique rl.windows
    → Sorted (get_window key rl)
    → now ≤ later
    → (check (cleanup now rl) key limit later).0 ≡ (check rl key limit later).0
unfolding check
check-cleanup rl key limit now later u s h =
    let same : (cleanup now rl).burst ≡ rl.burst = unfold cleanup in refl in
    elim (get_window-cleanup key now rl u) [
      | inl e ↦ rw (e, same)
      | inr (e, stale) ↦
          rw (e, same)
            (ap (λ r. r.0)
              (sym (check_window_stale rl.burst limit now later (get_window key rl) h s stale)))
    ]
