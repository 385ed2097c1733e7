-- ===== src/Auth/Keys/Tests.antt =====
-- API keys of internal/store/api_keys.go: tests, and the theorems at concrete inputs.
use dbbat.Prelude.{
  ℕ, ◌+◌, ◌≡◌, ◌≢◌, refl, String, none, some, List, [], ◌∷◌, ◌++◌, arith, ltb, if◌then◌else◌,
  replicate, ok, err,
}
use dbbat.Prelude.Texts.{codes}
use dbbat.Auth.Hash.{HashParams, hash_password_with_params}
use dbbat.Auth.Hash.Tests.{toy_lib, toy_laws}
use dbbat.Auth.Hash.RoundTrip.{InRange}
use dbbat.Auth.Keys.{
  ApiKey, KeyError, api, web, key_expired, conflict, insert_key, get_api_key_by_prefix,
  revoke_api_key, verify_api_key, create_api_key_with_value, create_web_session, is_expired,
  web_session_max_duration,
}
use dbbat.Auth.Keys.Prefixes.{Op, insert, increment, run}
use dbbat.Auth.Keys.Revoked.{revoke_api_key-verify_api_key}
use dbbat.Auth.Keys.Creation.{
  create_web_session-verify_api_key, create_api_key_with_value-verify_api_key,
}

abbrev params : HashParams
params = record { memory_kb = 3; time = 4; threads = 5 }

in_range : InRange params
in_range = record {
  memory = omega arith;
  time_positive = omega arith;
  threads_positive = omega arith;
  time = omega arith;
  threads = omega arith;
}

abbrev digest : List ℕ → String
digest key = "d"

abbrev plain : List ℕ
plain = codes "dbb_abcd1"

abbrev row : ApiKey
row = record {
  id = 7;
  user_id = 1;
  name = "ci";
  key_hash = hash_password_with_params toy_lib plain params [];
  key_prefix = codes "dbb_abcd";
  key_type = api;
  expires_at = some 50;
  last_used_at = none;
  request_count = 0;
  created_at = 10;
  revoked_at = none;
  revoked_by = none;
}

create_test :
    create_api_key_with_value toy_lib params 10 7 1 "ci" plain (some 50) [] [] ≡ ok (row, row ∷ [])
unfolding create_api_key_with_value
create_test = refl

-- A second key with the same prefix is a conflict.
insert_key-conflict_test : insert_key row (row ∷ []) ≡ err conflict
unfolding insert_key
insert_key-conflict_test = refl

abbrev ops : List Op
ops = insert row ∷ increment 11 7 ∷ []

abbrev used : ApiKey
used = record row { last_used_at = some 11; request_count = 1 }

run_test : run ops [] ≡ used ∷ []
unfolding run dbbat.Auth.Keys.insert_key dbbat.Auth.Keys.increment_api_key_usage
run_test = refl

abbrev gone : ApiKey
gone = record row { revoked_at = some 12; revoked_by = some 3 }

abbrev other_plain : List ℕ
other_plain = codes "dbb_efgh2"

abbrev other_row : ApiKey
other_row = record row {
  id = 8;
  key_hash = hash_password_with_params toy_lib other_plain params [];
  key_prefix = codes "dbb_efgh";
  expires_at = none;
}

other_test :
    create_api_key_with_value toy_lib params 10 8 1 "ci" other_plain none [] (gone ∷ [])
    ≡ ok (other_row, gone ∷ other_row ∷ [])
unfolding create_api_key_with_value
other_test = refl

other_accepted :
    (verify_api_key toy_lib digest 20 21 none other_plain
      (run (insert other_row ∷ []) (gone ∷ []))).0
    ≡ ok other_row
unfolding run dbbat.Auth.Keys.insert_key
other_accepted =
    (create_api_key_with_value-verify_api_key toy_lib digest params toy_laws in_range 10 8 1 "ci"
      other_plain none [] (gone ∷ []) (gone ∷ other_row ∷ []) other_row 20 21 none tt other_test
      tt).0

revoke_test : revoke_api_key 12 7 3 (row ∷ []) ≡ ok (gone ∷ [])
unfolding revoke_api_key
revoke_test = refl

revoke_api_key-verify_api_key_example : other_row.id ≢ 7
revoke_api_key-verify_api_key_example =
    revoke_api_key-verify_api_key toy_lib digest 12 7 3 (row ∷ []) (gone ∷ [])
      (insert other_row ∷ []) 20 21 none other_plain other_row revoke_test other_accepted

-- The characters of 32 zeros.
abbrev web_plain : List ℕ
web_plain = codes "web_" ++ replicate 32 b'a'

abbrev web_row : ApiKey
web_row = record row {
  name = "Web Session";
  key_hash = hash_password_with_params toy_lib web_plain params [];
  key_prefix = codes "web_aaaa";
  key_type = web;
  expires_at = some (10 + web_session_max_duration);
}

web_test :
    create_web_session toy_lib params 10 7 1 (replicate 32 0) [] []
    ≡ ok ((web_row, web_row ∷ []), web_plain)
unfolding create_web_session
web_test = refl

create_web_session-verify_api_key_example :
    (verify_api_key toy_lib digest 20 21 none web_plain (web_row ∷ [])).0
    ≡ (if ltb (10 + web_session_max_duration) 20 then err key_expired else ok web_row)
create_web_session-verify_api_key_example =
    create_web_session-verify_api_key toy_lib digest params toy_laws in_range 10 7 1
      (replicate 32 0) [] web_plain [] (web_row ∷ []) web_row 20 21 none refl tt web_test tt
