-- ===== src/Auth/Login/Tests.antt =====
-- Logins of internal/api/middleware.go: tests, and the theorems at concrete inputs.
use dbbat.Prelude.{
  ℕ, ◌+◌, ◌-◌, ◌/◌, ◌≡◌, ◌⊎◌, refl, ap, String, Bool, true, false, not, Option, none, some, List,
  [], ◌∷◌, ◌++◌, arith, drop, is_some, max, Result, ok, err,
}
use dbbat.Prelude.Texts.{codes}
use dbbat.Auth.Hash.Tests.{toy_lib, toy_laws, default_params, default-InRange}
use dbbat.Auth.Hash.{hash_password_with_params}
use dbbat.Auth.Hash.RoundTrip.{verify-hash_password}
use dbbat.Auth.Failures.{second}
use dbbat.Auth.Failures.Streaks.{Event, failed, Ordered, run, streak, delay_after}
use dbbat.Auth.Login.{
  User, Server, Clock, Identity, AuthReply, basic_judged, accepted, rate_limited, basic,
  handle_basic_auth, auth_middleware, require_basic_auth, require_web_session_or_basic_auth,
}
use dbbat.Auth.Login.Lockout.{handle_basic_auth-streak}
use dbbat.Auth.Login.Admission.{ByPassword, ByKey, auth_middleware-accepted}

abbrev digest : List ℕ → String
digest key = "d"

abbrev uuid_text : ℕ → List ℕ
uuid_text n = n ∷ []

-- Basic credentials that every header has.
abbrev basic_auth : List ℕ → Option (String × List ℕ)
basic_auth header = some ("ann", codes "pw")

abbrev ann : User
ann = record {
  uid = 1;
  username = "ann";
  password_hash = hash_password_with_params toy_lib (codes "pw") default_params [];
  roles = [];
  deleted_at = none;
}

-- Five failures within a second.
abbrev events : List Event
events = failed "ann" 5 ∷ failed "ann" 4 ∷ failed "ann" 3 ∷ failed "ann" 2 ∷ failed "ann" 1 ∷ []

abbrev locked : Server
locked = record {
  users = ann ∷ [];
  keys = [];
  cache = none;
  failures = run events;
  is_test_mode = false;
}

abbrev open_server : Server
open_server = record {
  users = ann ∷ [];
  keys = [];
  cache = none;
  failures = [];
  is_test_mode = true;
}

abbrev clock : Clock
clock = record { checked = 10; until = 11; looked = 12; stored = 13; since = 14; dated = 14 }

events-Ordered : Ordered clock.checked events
events-Ordered = (omega arith, (omega arith, (omega arith, (omega arith, (omega arith, tt)))))

handle_basic_auth-streak_example :
    handle_basic_auth toy_lib digest uuid_text clock (some ("ann", codes "pw")) locked
    ≡ (rate_limited (max 1 ((5 + delay_after 5 - 11) / second)), locked)
handle_basic_auth-streak_example =
    handle_basic_auth-streak toy_lib digest uuid_text events clock "ann" (codes "pw") locked 5 5
      events-Ordered refl refl (unfold streak in refl) (omega arith)

abbrev identity : Identity
identity = record { user = ann; key = none; method = basic }

accepted_test :
    (auth_middleware toy_lib digest uuid_text basic_auth clock (codes "Basic x") open_server).0
    ≡ accepted identity
unfolding auth_middleware basic_judged dbbat.Auth.Login.get_user_by_username
    dbbat.Prelude.Texts.has_prefix
accepted_test =
    ap (λ r. (basic_judged clock "ann" ann open_server r).0)
      (verify-hash_password toy_lib toy_laws (codes "pw") (codes "pw") [] default_params tt
        default-InRange).1

auth_middleware-accepted_example :
    ByPassword toy_lib digest uuid_text clock (basic_auth (codes "Basic x")) open_server identity
    ⊎ ByKey toy_lib digest uuid_text clock (drop 7 (codes "Basic x")) open_server identity
auth_middleware-accepted_example =
    auth_middleware-accepted toy_lib digest uuid_text basic_auth clock (codes "Basic x") open_server
      identity accepted_test
