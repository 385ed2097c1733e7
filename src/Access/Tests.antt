-- ===== src/Access/Tests.antt =====
-- Runs of the tables of internal/store.
use dbbat.Prelude.{ℕ, ◌+◌, ◌≡◌, refl, true, false, some, none, List, [], ◌∷◌, arith}
use dbbat.Prelude.Sums.{count}
use dbbat.Access.Grants.{
  Grant, GrantDefinition, Connection, QueryRow, Usage, grant_already_revoked, revoke_grant,
  find_grant,
}
use dbbat.Access.Grants.Active.{Inactive, revoke_grant_lem}
use dbbat.Access.Requests.{
  GrantRequest, Store, Supply, pending, approved, find_request, approve_grant_request_tx,
}
use dbbat.Access.Requests.Decisions.{Approves, approve_grant_request_tx-Approves}
use dbbat.Access.Requests.Steps.{
  Op, create, approve, deny, cancel, set_slack_message, grant, revoke, define, run, all_created,
}
use dbbat.Access.Requests.History.{Balanced, run-Balanced, Keeps, run-Keeps}

abbrev a_grant : ℕ → ℕ → Grant
a_grant uid created_at = record {
  uid = uid;
  user_id = 7;
  database_id = 8;
  controls = "read_only" ∷ [];
  granted_by = 1;
  starts_at = 100;
  expires_at = 200;
  revoked_at = none;
  revoked_by = none;
  max_query_counts = none;
  max_bytes_transferred = some 1000;
  created_at = created_at;
  query_count = 0;
  bytes_transferred = 0;
}

abbrev two_grants : List Grant
two_grants = a_grant 1 90 ∷ a_grant 2 95 ∷ []

abbrev a_connection : Connection
a_connection = record {
  uid = 4;
  user_id = 7;
  database_id = 8;
  connected_at = 120;
  bytes_transferred = 64;
}

abbrev a_query : QueryRow
a_query = record { connection_id = 4; executed_at = 130 }

abbrev some_usage : Usage
some_usage = record { connections = a_connection ∷ []; queries = a_query ∷ [] }

revoke_grant_lem_example :
    Inactive 2 170 (revoke_grant 160 2 1 two_grants).1
    × (revoke_grant 165 2 3 (revoke_grant 160 2 1 two_grants).1
        ≡ (some grant_already_revoked, (revoke_grant 160 2 1 two_grants).1))
    × (find_grant 1 (revoke_grant 160 2 1 two_grants).1 ≡ find_grant 1 two_grants)
revoke_grant_lem_example = revoke_grant_lem 160 2 1 165 3 170 1 two_grants (omega arith)

abbrev a_definition : GrantDefinition
a_definition = record {
  uid = 3;
  duration_seconds = 3600;
  controls = "block_ddl" ∷ [];
  max_query_counts = some 10;
  max_bytes_transferred = none;
  auto_approve = false;
  is_active = true;
}

abbrev a_request : GrantRequest
a_request = record {
  uid = 11;
  user_id = 7;
  grant_definition_id = 3;
  database_id = 8;
  justification = "audit";
  status = pending;
  requested_at = 50;
  decided_at = none;
  decided_by = none;
  decision_reason = none;
  resulting_grant_id = none;
  slack_channel = none;
  slack_message_ts = none;
}

abbrev a_store : Store
a_store = record { requests = a_request ∷ []; definitions = a_definition ∷ []; grants = [] }

abbrev a_supply : Supply
a_supply = record {
  grant_uid = 21;
  created_at = 60;
  references_hold = true;
  now = 61;
  decided_at = 62;
}

approve_grant_request_tx-Approves_example :
    Approves a_supply 11
      (some 1)
      1
      a_store
      (approve_grant_request_tx a_supply 11 (some 1) 1 a_store)
approve_grant_request_tx-Approves_example =
    approve_grant_request_tx-Approves a_supply 11 (some 1) 1 a_store

abbrev a_day : List Op
a_day =
    create 12 55 a_request
    ∷ approve a_supply 11 1
    ∷ deny 70 11 2 "no"
    ∷ approve a_supply 11 1
    ∷ cancel 71 12 7
    ∷ set_slack_message 11 "ops" "1.2"
    ∷ grant true 30 80 (a_grant 0 0)
    ∷ revoke 85 30 1
    ∷ define []
    ∷ []

run-Balanced_example :
    Balanced (all_created a_day a_store + 0) (run a_day a_store).requests (run a_day a_store).grants
run-Balanced_example =
    run-Balanced a_day 0 a_store ((unfold find_request in refl, tt), unfold count in refl)

abbrev decided : Store
decided = record {
  requests = record a_request { status = approved; resulting_grant_id = some 21 } ∷ [];
  definitions = a_definition ∷ [];
  grants = a_grant 21 60 ∷ [];
}

run-Keeps_example :
    Keeps 11
      (record a_request { status = approved; resulting_grant_id = some 21 })
      (run a_day decided).requests
run-Keeps_example =
    run-Keeps a_day decided 11
      (record a_request { status = approved; resulting_grant_id = some 21 })
      (unfold find_request in refl) refl
