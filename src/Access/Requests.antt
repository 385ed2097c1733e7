-- ===== src/Access/Requests.antt =====
-- internal/store/grant_requests.go: the life of a request for a grant. Each operation is one
-- transaction that locks the rows it reads, so operations happen one after another. Failures of the
-- connection to PostgreSQL are left out, and so are the foreign keys of the table of requests: the users,
-- definitions and databases that its rows name exist.
mod Rows
pub mod Steps
pub mod History
pub mod Decisions
use dbbat.Prelude.{
  ℕ, suc, Bool, true, false, ◌&&◌, Option, none, some, List, [], ◌∷◌, map, String, ◌==◌, ltb,
  if◌then◌else◌, keep, length, Result, ok, err, is_some,
}
use dbbat.Prelude.Keys.{string_eq, ◌=?◌}
use dbbat.Access.Grants.{Grant, GrantDefinition, build_grant_from_definition, accepts_grant}

pub data GrantRequestStatus : Type 0 where
  pending approved denied cancelled expired : GrantRequestStatus

pub record GrantRequest : Type 0 where
  pub uid : ℕ
  pub user_id : ℕ
  pub grant_definition_id : ℕ
  pub database_id : ℕ
  pub justification : String
  pub status : GrantRequestStatus
  pub requested_at : ℕ
  pub decided_at : Option ℕ
  pub decided_by : Option ℕ
  pub decision_reason : Option String
  pub resulting_grant_id : Option ℕ
  pub slack_channel : Option String
  pub slack_message_ts : Option String

pub record Store : Type 0 where
  pub requests : List GrantRequest
  pub definitions : List GrantDefinition
  pub grants : List Grant

-- `definition_missing` is the wrapped error of the select, `grant_refused` that of the insert of a
-- grant; `duplicate_uid` is the violation of the primary key of the requests.
pub data RequestError : Type 0 where
  request_not_found invalid_transition definition_inactive definition_missing : RequestError
  duplicate_uid grant_refused : RequestError

abbrev pub is_pending : GrantRequestStatus → Bool
is_pending pending = true
is_pending status = false

unfoldable pub find_request : ℕ → List GrantRequest → Option GrantRequest
find_request uid [] = none
find_request uid (r ∷ requests) = if r.uid == uid then some r else find_request uid requests

pub find_definition : ℕ → List GrantDefinition → Option GrantDefinition
find_definition uid [] = none
find_definition uid (d ∷ definitions) =
    if d.uid == uid then some d else find_definition uid definitions

-- `UPDATE ... WHERE uid = ?`
pub update_requests : ℕ → (GrantRequest → GrantRequest) → List GrantRequest → List GrantRequest
update_requests uid f [] = []
update_requests uid f (r ∷ requests) =
    let rest = update_requests uid f requests in if r.uid == uid then f r ∷ rest else r ∷ rest

-- `CreateGrantRequest`: `uid` is what the database generates.
pub create_grant_request : ℕ → ℕ → GrantRequest → Store → Result RequestError GrantRequest × Store
unfolding find_request
create_grant_request uid now req s =
    let result : GrantRequest = record {
      uid = uid;
      user_id = req.user_id;
      grant_definition_id = req.grant_definition_id;
      database_id = req.database_id;
      justification = req.justification;
      status = pending;
      requested_at = now;
      decided_at = none;
      decided_by = none;
      decision_reason = none;
      resulting_grant_id = none;
      slack_channel = none;
      slack_message_ts = none;
    } in
    if is_some (find_request uid s.requests)
    then (err duplicate_uid, s)
    else (ok result, record s { requests = result ∷ s.requests })

-- `GetGrantRequest`
pub get_grant_request : ℕ → Store → Result RequestError GrantRequest
get_grant_request uid s = elim (find_request uid s.requests) [
  | none ↦ err request_not_found
  | some r ↦ ok r
]

-- `HasPendingRequest`
pub has_pending_request : ℕ → ℕ → ℕ → Store → Bool
has_pending_request user_id definition_id database_id s = ltb 0 (
    length (
      keep
        (λ r.
          (r.user_id == user_id && r.grant_definition_id == definition_id)
          && (r.database_id == database_id && is_pending r.status))
        s.requests))

-- What the database and the clock supply to an approval: the uid and the creation time of the new
-- grant, whether the users and the database that it refers to exist, and the two readings of
-- `time.Now()`.
pub record Supply : Type 0 where
  pub grant_uid : ℕ
  pub created_at : ℕ
  pub references_hold : Bool
  pub now : ℕ
  pub decided_at : ℕ

-- The two writes of `approveGrantRequestTx`.
abbrev pub approved_request : Supply → Option ℕ → GrantRequest → GrantRequest
approved_request t decided_by r = record r {
  status = approved;
  decided_at = some t.decided_at;
  decided_by = decided_by;
  resulting_grant_id = some t.grant_uid;
}

abbrev pub new_grant : Supply → GrantDefinition → GrantRequest → ℕ → Grant
new_grant t def req granted_by =
    record (build_grant_from_definition def req.user_id req.database_id granted_by t.now) {
      uid = t.grant_uid;
      created_at = t.created_at;
    }

approve_with :
    Supply
    → ℕ
    → Option ℕ
    → ℕ
    → GrantRequest
    → Option GrantDefinition
    → Store
    → Result RequestError (Grant × GrantRequest) × Store
unfolding update_requests
approve_with t uid decided_by granted_by req none s = (err definition_missing, s)
approve_with t uid decided_by granted_by req (some def) s =
    let grant = new_grant t def req granted_by in
    if def.is_active
    then (if accepts_grant t.references_hold grant s.grants
        then (
          ok (grant, approved_request t decided_by req),
          record s {
            grants = grant ∷ s.grants;
            requests = update_requests uid (approved_request t decided_by) s.requests;
          },
        )
        else (err grant_refused, s))
    else (err definition_inactive, s)

approve_found :
    Supply
    → ℕ
    → Option ℕ
    → ℕ
    → Option GrantRequest
    → Store
    → Result RequestError (Grant × GrantRequest) × Store
unfolding approve_with
approve_found t uid decided_by granted_by none s = (err request_not_found, s)
approve_found t uid decided_by granted_by (some req) s =
    if is_pending req.status
    then approve_with t uid decided_by granted_by req
        (find_definition req.grant_definition_id s.definitions) s
    else (err invalid_transition, s)

-- `approveGrantRequestTx`
pub approve_grant_request_tx :
    Supply → ℕ → Option ℕ → ℕ → Store → Result RequestError (Grant × GrantRequest) × Store
unfolding approve_found
approve_grant_request_tx t uid decided_by granted_by s =
    approve_found t uid decided_by granted_by (find_request uid s.requests) s

-- `ApproveGrantRequest`, `AutoApproveGrantRequest`
pub approve_grant_request :
    Supply → ℕ → ℕ → Store → Result RequestError (Grant × GrantRequest) × Store
approve_grant_request t uid decided_by s =
    approve_grant_request_tx t uid (some decided_by) decided_by s

pub auto_approve_grant_request :
    Supply → ℕ → ℕ → Store → Result RequestError (Grant × GrantRequest) × Store
auto_approve_grant_request t uid requester_id s = approve_grant_request_tx t uid none requester_id s

-- The write of `transition`; an empty reason leaves the column alone.
abbrev pub decided_request :
    ℕ → GrantRequestStatus → Option ℕ → String → GrantRequest → GrantRequest
decided_request now target decided_by reason r = record r {
  status = target;
  decided_at = some now;
  decided_by = decided_by;
  decision_reason = if reason =? "" then r.decision_reason else some reason;
}

transition_found :
    ℕ
    → ℕ
    → GrantRequestStatus
    → Option ℕ
    → String
    → Option GrantRequest
    → Store
    → Result RequestError GrantRequest × Store
unfolding update_requests
transition_found now uid target decided_by reason none s = (err request_not_found, s)
transition_found now uid target decided_by reason (some req) s =
    if is_pending req.status
    then (
      ok (decided_request now target decided_by reason req),
      record s {
        requests = update_requests uid (decided_request now target decided_by reason) s.requests;
      },
    )
    else (err invalid_transition, s)

-- `transition`
pub transition :
    ℕ
    → ℕ
    → GrantRequestStatus
    → Option ℕ
    → String
    → Store
    → Result RequestError GrantRequest × Store
unfolding transition_found
transition now uid target decided_by reason s =
    transition_found now uid target decided_by reason (find_request uid s.requests) s

-- `DenyGrantRequest`, `CancelGrantRequest`
pub deny_grant_request : ℕ → ℕ → ℕ → String → Store → Result RequestError GrantRequest × Store
deny_grant_request now uid decided_by reason s =
    transition now uid denied (some decided_by) reason s

pub cancel_grant_request : ℕ → ℕ → ℕ → Store → Result RequestError GrantRequest × Store
cancel_grant_request now uid by_user s = transition now uid cancelled (some by_user) "" s

-- `SetGrantRequestSlackMessage`
pub set_grant_request_slack_message : ℕ → String → String → Store → Store
unfolding update_requests
set_grant_request_slack_message uid channel ts s = record s {
  requests =
      update_requests uid
        (λ r. record r { slack_channel = some channel; slack_message_ts = some ts }) s.requests;
}
