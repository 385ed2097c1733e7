-- ===== src/RateLimit/Middleware.antt =====
-- What a refused client of the limiter of internal/api/ratelimit.go is told, and when it is served.
use dbbat.Prelude.{
  ℕ, ◌+◌, ◌-◌, ◌*◌, ◌%◌, ◌≤◌, ◌<◌, ◌≡◌, ◌≢◌, refl, ◌∙◌, String, false, List, [], ◌∷◌, arith, ltb,
  leb, length, All, Bool-cases, inl, inr, none, some,
}
use dbbat.Prelude.Keys.{string_eq}
use dbbat.Prelude.Sums.{count}
use dbbat.RateLimit.{
  RateLimiter, next, User, minute, second, fresh, reset_time, check_window, retry_after, middleware,
  post_auth_middleware, pre_auth_middleware, prune,
}
use dbbat.RateLimit.Window.{drop_expired, prune-drop_expired, length-drop_expired, All-drop_expired}
use dbbat.RateLimit.Minutes.{Tracks, in_minute}

length-drop_expired-le : (now : ℕ) (ts : List ℕ) → length (drop_expired now ts) ≤ length ts
unfolding drop_expired
length-drop_expired-le now [] = omega arith
length-drop_expired-le now (t ∷ ts) = ground (arith, length-drop_expired-le now ts)

count-fresh :
    (n : ℕ) (ts : List ℕ) → All (λ u. u ≤ n) ts → count (fresh n) ts ≡ count (in_minute n) ts
unfolding count
count-fresh n [] h = refl
count-fresh n (u ∷ ts) (h, hs) = ground (arith, count-fresh n ts hs)

-- The tracked window never holds more than the bound.
length-window-le :
    (bound now : ℕ) (window log : List ℕ)
    → Tracks bound now window log
    → length (drop_expired now window) ≤ bound
length-window-le bound now window log t = ground (
  arith,
  length-drop_expired now window t.sorted,
  count-fresh now window t.window_past,
  t.same now,
  t.within now,
)

refused_window :
    (burst limit now : ℕ) (ts : List ℕ)
    → (check_window burst limit now ts).0.allowed ≡ false
    → ((check_window burst limit now ts).1 ≡ drop_expired now ts)
      × (limit + burst ≤ length (drop_expired now ts))
      × ((check_window burst limit now ts).0.reset ≡ reset_time now (drop_expired now ts))
unfolding check_window
refused_window burst limit now ts h =
    elim (Bool-cases (leb (limit + burst) (length (prune now ts)))) [
      | inl full ↦
          rw (full, prune-drop_expired now ts)
            (refl, ground (arith, full, prune-drop_expired now ts), refl)
      | inr room ↦ absurd (ground (arith, room))
    ]

allowed_iff_room :
    (burst limit now : ℕ) (ts : List ℕ)
    → (check_window burst limit now ts).0.allowed
      ≡ ltb (length (drop_expired now ts)) (limit + burst)
unfolding check_window
allowed_iff_room burst limit now ts = ground (arith, prune-drop_expired now ts)

-- On a full window that holds nothing expired, room opens exactly when its oldest entry expires.
room_at_reset :
    (bound now t : ℕ) (ts : List ℕ)
    → 0 < bound
    → length ts ≡ bound
    → ltb (length (drop_expired t ts)) bound ≡ leb (reset_time now ts) t
unfolding drop_expired reset_time
room_at_reset bound now t [] p h = absurd (omega arith)
room_at_reset bound now t (u ∷ ts) p h = ground (arith, length-drop_expired-le t ts)

-- Once `check` has refused a request of a window that follows a log, as every window of a limiter
-- does, and no other request of the key comes: a request at any later instant is allowed exactly
-- if the reset time that the refusal named has come. The limit and the burst are not both 0.
pub allowed-after_refusal :
    (burst limit now t : ℕ) (window log : List ℕ)
    → 0 < limit + burst
    → now ≤ t
    → Tracks (limit + burst) now window log
    → (check_window burst limit now window).0.allowed ≡ false
    → (check_window burst limit t (check_window burst limit now window).1).0.allowed
      ≡ leb (check_window burst limit now window).0.reset t
allowed-after_refusal burst limit now t window log pos later tracks refused =
    let (left, full, reset) = refused_window burst limit now window refused in
    let most = length-window-le (limit + burst) now window log tracks in
    rw (left, reset, allowed_iff_room burst limit t (drop_expired now window))
      (room_at_reset (limit + burst) now t (drop_expired now window) pos (omega arith))

reset_time-le : (now : ℕ) (ts : List ℕ) → All (λ u. u ≤ now) ts → reset_time now ts ≤ now + minute
unfolding reset_time
reset_time-le now [] h = omega arith
reset_time-le now (u ∷ ts) (h, hs) = omega arith

retry_after_range :
    (now later reset : ℕ)
    → now ≤ later
    → reset ≤ now + minute
    → (1 ≤ retry_after reset later) × (retry_after reset later ≤ 60)
unfolding retry_after
retry_after_range now later reset h k = ground arith

retry_after_short :
    (reset later : ℕ)
    → later + second < reset
    → (reset - later) % second ≢ 0
    → (1 ≤ retry_after reset later) × (later + retry_after reset later * second < reset)
unfolding retry_after
retry_after_short reset later h k = ground arith

-- A refusal at `now` of a window that follows a log, as every window of a limiter does, is read at
-- `later`, not before `now`. Then it tells the client to wait 1 to 60 seconds.
pub retry_after-bounds :
    (burst limit now later : ℕ) (window log : List ℕ)
    → now ≤ later
    → Tracks (limit + burst) now window log
    → (check_window burst limit now window).0.allowed ≡ false
    → let reset = (check_window burst limit now window).0.reset in
      (1 ≤ retry_after reset later) × (retry_after reset later ≤ 60)
retry_after-bounds burst limit now later window log h tracks refused =
    let (left, full, reset) = refused_window burst limit now window refused in
    let most = reset_time-le now _ (All-drop_expired _ now window tracks.window_past) in
    rw reset (retry_after_range now later _ h most)

-- The wait is rounded down. Say `check` refused a request of a window that follows a log, with a
-- limit and a burst that are not both 0, and when the refusal is read more than a second is left, and
-- not a whole number of them. Then, if no other request of the key comes, a client that waits as it
-- was told is refused again.
pub retry_after-too_early :
    (burst limit now later : ℕ) (window log : List ℕ)
    → 0 < limit + burst
    → now ≤ later
    → Tracks (limit + burst) now window log
    → (check_window burst limit now window).0.allowed ≡ false
    → let (verdict, left) = check_window burst limit now window in
      later + second < verdict.reset
      → (verdict.reset - later) % second ≢ 0
      → (check_window burst limit (later + retry_after verdict.reset later * second) left).0.allowed
        ≡ false
retry_after-too_early burst limit now later window log pos h tracks refused more part =
    let (verdict, left) = check_window burst limit now window in
    let (wait, short) = retry_after_short verdict.reset later more part in
    allowed-after_refusal burst limit now _ window log pos (omega arith) tracks refused
    ∙ ground (arith, short)

-- The single middleware does what the pair of middlewares around the authentication does: with a
-- user what the one behind it does, without one what the one before it does, and behind the
-- authentication a request without a user passes untouched.
pub middleware-split :
    (user_key ip_key : String → String) (rl : RateLimiter) (user : User) (ip : String)
    (now later : ℕ)
    → (middleware user_key ip_key rl (some user) ip now later
        ≡ post_auth_middleware user_key ip_key rl (some user) now later)
      × (middleware user_key ip_key rl none ip now later
          ≡ pre_auth_middleware user_key ip_key rl ip now later)
      × (post_auth_middleware user_key ip_key rl none now later ≡ (next, rl))
unfolding middleware post_auth_middleware pre_auth_middleware
middleware-split user_key ip_key rl user ip now later = ground arith
