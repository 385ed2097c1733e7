-- ===== src/Auth/Login/Lockout.antt =====
-- Guessing passwords at internal/api/middleware.go is slowed down, whatever is requested.
use dbbat.Prelude.{
  ℕ, ◌+◌, ◌-◌, ◌/◌, ◌≤◌, ◌<◌, ◌≡◌, refl, ap, ◌∙◌, String, true, false, some, List, ◌∷◌, arith, ltb,
  if◌then◌else◌, max,
}
use dbbat.Auth.Hash.{HashLib}
use dbbat.Auth.Failures.{second, check_rate_limit}
use dbbat.Auth.Failures.Streaks.{
  Event, failed, succeeded, Ordered, run, streak, expected, delay_after, check_rate_limit-streak,
}
use dbbat.Auth.Login.{
  AuthReply, Server, Clock, accepted, invalid_credentials, rate_limited, handle_basic_auth,
}

-- The readings of one request come in order; a failure is dated when it is compared.
abbrev pub InOrder : Clock → Type 0
InOrder t = (t.checked ≤ t.since) × (t.dated ≡ t.since)

module _ (lib : HashLib) (hex_sha256 : List ℕ → String) (uuid_text : ℕ → List ℕ) where
  -- The tracker of failures holds what a log of failures and successes in order leaves in it, outside of
  -- test mode, and the user's failures in a row block at the time of the request. Then a login of the
  -- user is refused as rate limited, with any password, with the seconds that are left, and changes
  -- nothing: neither the cache nor the tracker.
  pub handle_basic_auth-streak :
      (events : List Event) (t : Clock) (username : String) (password : List ℕ) (s : Server)
      (n last : ℕ)
      → Ordered t.checked events
      → s.failures ≡ run events
      → s.is_test_mode ≡ false
      → streak username events ≡ some (n, last)
      → t.checked < last + delay_after n
      → handle_basic_auth lib hex_sha256 uuid_text t (some (username, password)) s
        ≡ (rate_limited (max 1 ((last + delay_after n - t.until) / second)), s)
  unfolding handle_basic_auth
  handle_basic_auth-streak events t username password s n last o log live row early =
      let wait = max 1 ((last + delay_after n - t.until) / second) in
      let blocks : ltb t.checked (last + delay_after n) ≡ true = ground (arith, early) in
      let verdict : check_rate_limit t.checked t.until username s.failures ≡ (false, wait) =
        ap (check_rate_limit t.checked t.until username) log
        ∙ check_rate_limit-streak username events t.checked t.until o
        ∙ ap (expected t.checked t.until) row
        ∙ ap (λ b. if b then (false, wait) else (true, 0)) blocks in
      rw (verdict, live) refl

  -- The log after a login, by the reply to it: a success for an accepted one, a failure for one with
  -- wrong credentials, and nothing for one that is refused as rate limited.
  abbrev pub logged : ℕ → String → List Event → AuthReply → List Event
  logged now username events (accepted i) = succeeded username now ∷ events
  logged now username events invalid_credentials = failed username now ∷ events
  logged now username events reply = events

  abbrev pub LoggedBy : ℕ → String → List Event → AuthReply × Server → Type 0
  LoggedBy now username events (reply, s) =
      (s.failures ≡ run (logged now username events reply))
      × Ordered now (logged now username events reply)
