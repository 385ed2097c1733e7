-- ===== src/Access/Device.antt =====
-- internal/store/device_auth.go and internal/store/oauth_states.go: the requests of devices for a
-- key, and the table that holds them. These operations are no transactions, so the select, the
-- update and the delete of an operation are steps of their own. Failures of the connection to
-- PostgreSQL are left out. A row that is inserted comes first.
pub mod Creation
pub mod Responses
pub mod Delivery
mod Tests
use dbbat.Prelude.{
  ℕ, suc, ◌+◌, Bool, true, false, not, ◌&&◌, Option, none, some, List, [], ◌∷◌, String, ltb, ◌==◌,
  if◌then◌else◌, keep, length, Result, ok, err, is_some,
}
use dbbat.Prelude.Keys.{string_eq, ◌=?◌}

pub data DeviceAuthStatus : Type 0 where
  pending approved denied : DeviceAuthStatus

pub record DeviceAuthMetadata : Type 0 where
  pub client_name : String
  pub user_code : String
  pub status : DeviceAuthStatus
  pub user_id : Option ℕ
  pub encrypted_key : List ℕ
  pub key_prefix : String

-- The metadata is its decoded JSON; `none` is what is not of this shape.
pub record OAuthState : Type 0 where
  pub uid : ℕ
  pub state : String
  pub provider : String
  pub metadata : Option DeviceAuthMetadata
  pub expires_at : ℕ
  pub created_at : ℕ

pub data DeviceError : Type 0 where
  not_found already_resolved user_code_taken duplicate_state bad_metadata : DeviceError

-- `DeviceAuthProvider`, `DeviceAuthTTL`
abbrev pub device_auth_provider : String
device_auth_provider = "device"

abbrev pub device_auth_ttl : ℕ
device_auth_ttl = 600_000_000_000

abbrev pub is_open : DeviceAuthStatus → Bool
is_open pending = true
is_open status = false

-- `expires_at > NOW()` and `provider = 'device'`
abbrev pub is_live : ℕ → OAuthState → Bool
is_live now r = r.provider =? device_auth_provider && ltb now r.expires_at

abbrev pub has_user_code : String → Option DeviceAuthMetadata → Bool
has_user_code code none = false
has_user_code code (some m) = m.user_code =? code

abbrev pub by_user_code : ℕ → String → OAuthState → Bool
by_user_code now code r = is_live now r && has_user_code code r.metadata

-- `deviceAuthUserCodeExists`
pub user_code_exists : ℕ → String → List OAuthState → Bool
user_code_exists now code rows = ltb 0 (length (keep (by_user_code now code) rows))

abbrev pub has_state : String → OAuthState → Bool
has_state state r = r.state =? state

-- `CreateOAuthState`: a state is unique in the table.
pub create_oauth_state :
    OAuthState → List OAuthState → Result DeviceError OAuthState × List OAuthState
create_oauth_state r rows =
    if ltb 0 (length (keep (has_state r.state) rows))
    then (err duplicate_state, rows)
    else (ok r, r ∷ rows)

-- The row that `CreateDeviceAuthRequest` inserts; `uid` and `created_at` come from the database.
pub device_row : ℕ → ℕ → ℕ → String → String → String → OAuthState
device_row uid created_at now client_name device_code user_code = record {
  uid = uid;
  state = device_code;
  provider = device_auth_provider;
  metadata = some (record {
    client_name = client_name;
    user_code = user_code;
    status = pending;
    user_id = none;
    encrypted_key = [];
    key_prefix = "";
  });
  expires_at = now + device_auth_ttl;
  created_at = created_at;
}

-- `CreateDeviceAuthRequest`: `now` is the instant of the select, `later` that of the insert.
pub create_device_auth_request :
    ℕ
    → ℕ
    → ℕ
    → ℕ
    → String
    → String
    → String
    → List OAuthState
    → Result DeviceError OAuthState × List OAuthState
unfolding user_code_exists create_oauth_state device_row
create_device_auth_request now later uid created_at client_name device_code user_code rows =
    if user_code_exists now user_code rows
    then (err user_code_taken, rows)
    else create_oauth_state (device_row uid created_at later client_name device_code user_code) rows

-- `ORDER BY created_at DESC LIMIT 1`
abbrev pub newer : OAuthState → Option OAuthState → OAuthState
newer r none = r
newer r (some q) = if ltb r.created_at q.created_at then q else r

pub newest : List OAuthState → Option OAuthState
newest [] = none
newest (r ∷ rows) = some (newer r (newest rows))

abbrev decoded :
    Option DeviceAuthMetadata → OAuthState → Result DeviceError (OAuthState × DeviceAuthMetadata)
decoded none r = err bad_metadata
decoded (some m) r = ok (r, m)

abbrev decoded_row : Option OAuthState → Result DeviceError (OAuthState × DeviceAuthMetadata)
decoded_row none = err not_found
decoded_row (some r) = decoded r.metadata r

-- `getDeviceAuthStateByUserCode`, which `GetDeviceAuthByUserCode` shows
pub get_by_user_code :
    ℕ → String → List OAuthState → Result DeviceError (OAuthState × DeviceAuthMetadata)
unfolding newest
get_by_user_code now code rows = decoded_row (newest (keep (by_user_code now code) rows))

-- What a responder sends.
pub record Response : Type 0 where
  pub user_id : ℕ
  pub approve : Bool
  pub encrypted_key : List ℕ
  pub key_prefix : String

-- The metadata that `RespondToDeviceAuthByUserCode` writes.
pub responded : Response → DeviceAuthMetadata → DeviceAuthMetadata
responded a m =
    if a.approve
    then record m {
      status = approved;
      encrypted_key = a.encrypted_key;
      key_prefix = a.key_prefix;
      user_id = some a.user_id;
    }
    else record m { status = denied; user_id = some a.user_id }

-- The part of `RespondToDeviceAuthByUserCode` before its update: the uid and the new metadata.
pub respond_select :
    ℕ → String → Response → List OAuthState → Result DeviceError (ℕ × DeviceAuthMetadata)
unfolding responded
respond_select now code a rows = elim (get_by_user_code now code rows) [
  | err e ↦ err e
  | ok (r, m) ↦ if is_open m.status then ok (r.uid, responded a m) else err already_resolved
]

abbrev pub is_pending : Option DeviceAuthMetadata → Bool
is_pending none = false
is_pending (some m) = is_open m.status

-- Its update: the rows after it, and how many it changed.
pub respond_update : ℕ → ℕ → DeviceAuthMetadata → List OAuthState → List OAuthState × ℕ
respond_update now uid m [] = ([], 0)
respond_update now uid m (r ∷ rows) =
    let (rest, n) = respond_update now uid m rows in
    if r.uid == uid && (is_live now r && is_pending r.metadata)
    then (record r { metadata = some m } ∷ rest, suc n)
    else (r ∷ rest, n)

-- Its end: the update, and the error if no row was changed.
pub respond_finish :
    ℕ → ℕ → DeviceAuthMetadata → List OAuthState → Option DeviceError × List OAuthState
unfolding respond_update
respond_finish now uid m rows =
    let (rows', n) = respond_update now uid m rows in
    (if n == 0 then some already_resolved else none, rows')

-- `RespondToDeviceAuthByUserCode`, with nothing between its two statements
pub respond : ℕ → ℕ → String → Response → List OAuthState → Option DeviceError × List OAuthState
unfolding respond_finish
respond now later code a rows = elim (respond_select now code a rows) [
  | err e ↦ (some e, rows)
  | ok (uid, m) ↦ respond_finish later uid m rows
]

-- The select of `PollDeviceAuthToken`
pub find_state : ℕ → String → List OAuthState → Option OAuthState
find_state now code [] = none
find_state now code (r ∷ rows) =
    if r.state =? code && is_live now r then some r else find_state now code rows

pub poll_select :
    ℕ → String → List OAuthState → Result DeviceError (OAuthState × DeviceAuthMetadata)
unfolding find_state
poll_select now code rows = decoded_row (find_state now code rows)

-- `DELETE ... WHERE uid = ?`
pub delete_uid : ℕ → List OAuthState → List OAuthState
delete_uid uid rows = keep (λ r. not (r.uid == uid)) rows

-- The rest of `PollDeviceAuthToken`: the key that it delivers, and the rows after it.
pub poll_finish : OAuthState → DeviceAuthMetadata → List OAuthState → List ℕ × List OAuthState
unfolding delete_uid
poll_finish r m rows =
    if is_open m.status then ([], rows) else (m.encrypted_key, delete_uid r.uid rows)

-- `PollDeviceAuthToken`, with nothing between its two statements
pub poll :
    ℕ
    → String
    → List OAuthState
    → Result DeviceError (DeviceAuthMetadata × List ℕ) × List OAuthState
poll now code rows = elim (poll_select now code rows) [
  | err e ↦ (err e, rows)
  | ok (r, m) ↦ let (key, rows') = poll_finish r m rows in (ok (m, key), rows')
]

-- `CleanupExpiredOAuthStates`
pub cleanup_expired_oauth_states : ℕ → List OAuthState → List OAuthState
cleanup_expired_oauth_states now rows = keep (λ r. ltb now r.expires_at) rows

-- `ConsumeOAuthState`, with nothing between its two statements: any provider
pub find_oauth_state : ℕ → String → List OAuthState → Option OAuthState
find_oauth_state now token [] = none
find_oauth_state now token (r ∷ rows) =
    if r.state =? token && ltb now r.expires_at then some r else find_oauth_state now token rows

pub consume_oauth_state :
    ℕ → String → List OAuthState → Result DeviceError OAuthState × List OAuthState
unfolding find_oauth_state delete_uid
consume_oauth_state now token rows = elim (find_oauth_state now token rows) [
  | none ↦ (err not_found, rows)
  | some r ↦ (ok r, delete_uid r.uid rows)
]
