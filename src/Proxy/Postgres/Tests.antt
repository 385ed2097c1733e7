-- ===== src/Proxy/Postgres/Tests.antt =====
-- Sessions of internal/proxy/postgresql: tests, and the theorems at concrete inputs.
use dbbat.Prelude.{
  ℕ, ◌+◌, ◌≡◌, refl, String, Bool, true, false, Option, none, some, List, [], ◌∷◌, ◌++◌, arith,
}
use dbbat.Prelude.Texts.{codes}
use dbbat.Proxy.Postgres.{
  SessionGrant, Moment, Storage, PendingQuery, LoggedQuery, Session, fresh_query,
  is_read_only_bypass_attempt, check_quotas, grant_expired,
}
use dbbat.Proxy.Postgres.Client.{query}
use dbbat.Proxy.Postgres.Server.{command_complete, ready_for_query, data_row}
use dbbat.Proxy.Postgres.Runs.{Event, from_client, from_server, run}
use dbbat.Proxy.Postgres.Permitted.{IsPermitted}
use dbbat.Proxy.Postgres.Policy.{run-IsPermitted}
use dbbat.Proxy.Postgres.Accounts.{Charged, counted, run-Charged, ready-pipelined}

abbrev plain : ℕ → ℕ
plain c = c

abbrev cfg : Storage
cfg = record { store_results = true; max_result_rows = 2; max_result_bytes = 10 }

abbrev grant : SessionGrant
grant = record {
  controls = "read_only" ∷ [];
  expires_at = 50;
  max_query_counts = some 10;
  max_bytes_transferred = none;
  query_count = 4;
  bytes_transferred = 100;
}

abbrev new_session : List PendingQuery → Session
new_session pending = record {
  grant = grant;
  prepared_statements = [];
  portals = [];
  pending_queries = pending;
  pending_describes = [];
  current_query = none;
  copy_state = none;
  query_error = none;
  last_bytes_snapshot = 0;
  logged = [];
}

abbrev at_moment : ℕ → Moment
at_moment bytes = record { now = 9; revoked = false; wire_bytes = bytes }

abbrev events : List Event
events =
    from_client (at_moment 20) (query (codes "SELECT 1"))
    ∷ from_server (at_moment 30) (data_row ((49 ∷ []) ∷ []))
    ∷ from_server (at_moment 40) command_complete
    ∷ from_server (at_moment 45) ready_for_query
    ∷ []

run-IsPermitted_example :
    IsPermitted plain cfg ("read_only" ∷ []) (run plain cfg events (new_session []))
run-IsPermitted_example =
    run-IsPermitted plain cfg ("read_only" ∷ []) events (new_session [])
      (record { same = refl; statements = tt; pending = tt; current = tt; logged = tt })

run-Charged_example : Charged 100 4 (counted (run plain cfg events (new_session [])))
run-Charged_example =
    run-Charged plain cfg 100 4 events (new_session [])
      (omega arith, (omega arith, (omega arith, tt)))
      (refl, unfold dbbat.Prelude.Sums.sum_of in refl, refl)

abbrev first : PendingQuery
first = fresh_query 9 (codes "SELECT 1") none

abbrev second : PendingQuery
second = fresh_query 9 (codes "SELECT 2") none

ready-pipelined_example :
    let s' =
      run plain cfg
        (from_server (at_moment 30) command_complete
          ∷ from_server (at_moment 40) command_complete
          ∷ from_server (at_moment 45) ready_for_query
          ∷ [])
        (new_session (first ∷ second ∷ [])) in
    (l : LoggedQuery) × (s'.logged ≡ [] ++ l ∷ [])
    × (l.sql ≡ second.sql)
    × (l.parameters ≡ second.parameters)
    × (s'.grant.query_count ≡ grant.query_count + 1)
    × (s'.pending_queries ≡ [])
ready-pipelined_example =
    ready-pipelined plain cfg (at_moment 30) (at_moment 40) (at_moment 45)
      (new_session (first ∷ second ∷ [])) first second [] refl

check_quotas_test :
    check_quotas (record { now = 50; revoked = false; wire_bytes = 0 }) grant ≡ some grant_expired
unfolding check_quotas
check_quotas_test = refl

bypass_test :
    is_read_only_bypass_attempt (codes "set session default_transaction_read_only= off") ≡ true
unfolding is_read_only_bypass_attempt dbbat.Proxy.Query.Patterns.match_string
bypass_test = refl

no_bypass_test : is_read_only_bypass_attempt (codes "SELECT 'set roles'") ≡ false
unfolding is_read_only_bypass_attempt dbbat.Proxy.Query.Patterns.match_string
no_bypass_test = refl
