-- ===== src/Access/Grants.antt =====
-- internal/store/grants.go over tables as lists of rows. A UUID is a number, an instant is
-- nanoseconds, a query sees one instant of `NOW()`. Failures of the connection to PostgreSQL are
-- left out. A row that is inserted comes first.
pub mod Active
pub mod Counters
use dbbat.Prelude.{
  ℕ, suc, ◌+◌, ◌-◌, ◌*◌, ◌%◌, ◌^◌, Bool, true, false, not, ◌&&◌, ◌||◌, Option, none, some, List, [],
  ◌∷◌, map, String, ltb, leb, ◌==◌, if◌then◌else◌, keep, length, Result, ok, err, is_some,
}
use dbbat.Prelude.Sums.{count, sum_of}

pub record Grant : Type 0 where
  pub uid : ℕ
  pub user_id : ℕ
  pub database_id : ℕ
  pub controls : List String
  pub granted_by : ℕ
  pub starts_at : ℕ
  pub expires_at : ℕ
  pub revoked_at : Option ℕ
  pub revoked_by : Option ℕ
  pub max_query_counts : Option ℕ
  pub max_bytes_transferred : Option ℕ
  pub created_at : ℕ
  pub query_count : ℕ
  pub bytes_transferred : ℕ

pub record GrantDefinition : Type 0 where
  pub uid : ℕ
  pub duration_seconds : ℕ
  pub controls : List String
  pub max_query_counts : Option ℕ
  pub max_bytes_transferred : Option ℕ
  pub auto_approve : Bool
  pub is_active : Bool

-- The rows of `connections` and `queries` that the counters read.
pub record Connection : Type 0 where
  pub uid : ℕ
  pub user_id : ℕ
  pub database_id : ℕ
  pub connected_at : ℕ
  pub bytes_transferred : ℕ

pub record QueryRow : Type 0 where
  pub connection_id : ℕ
  pub executed_at : ℕ

pub record Usage : Type 0 where
  pub connections : List Connection
  pub queries : List QueryRow

pub data GrantError : Type 0 where
  no_active_grant grant_not_found grant_already_revoked grant_not_created : GrantError

-- `now.Add(time.Duration(seconds) * time.Second)`; a `Duration` is an `int64`.
pub add_seconds : ℕ → ℕ → ℕ
add_seconds now seconds =
    let d = seconds * 1_000_000_000 % 2 ^ 64 in
    if ltb d (2 ^ 63) then now + d else now - (2 ^ 64 - d)

-- `BuildGrantFromDefinition`; the fields that it leaves out are Go's zero values.
unfoldable pub build_grant_from_definition : GrantDefinition → ℕ → ℕ → ℕ → ℕ → Grant
unfolding add_seconds
build_grant_from_definition def user_id database_id granted_by now = record {
  uid = 0;
  user_id = user_id;
  database_id = database_id;
  controls = def.controls;
  granted_by = granted_by;
  starts_at = now;
  expires_at = add_seconds now def.duration_seconds;
  revoked_at = none;
  revoked_by = none;
  max_query_counts = def.max_query_counts;
  max_bytes_transferred = def.max_bytes_transferred;
  created_at = 0;
  query_count = 0;
  bytes_transferred = 0;
}

-- The first row with the uid.
pub find_grant : ℕ → List Grant → Option Grant
find_grant uid [] = none
find_grant uid (g ∷ grants) = if g.uid == uid then some g else find_grant uid grants

-- `max_query_counts` is a column of the type INT.
abbrev pub fits_int : Option ℕ → Bool
fits_int none = true
fits_int (some n) = ltb n (2 ^ 31)

-- Whether the table takes a row: the primary key, the foreign keys, the CHECK `valid_time_window` and
-- the range of a column. `references_hold` says that the users and the database of the row exist. The
-- database's rounding of instants to microseconds is left out.
unfoldable pub accepts_grant : Bool → Grant → List Grant → Bool
unfolding find_grant
accepts_grant references_hold g grants =
    (references_hold && not (is_some (find_grant g.uid grants)))
    && (ltb g.starts_at g.expires_at && fits_int g.max_query_counts)

-- `CreateGrant`: `uid` is what the database generates. The columns that are copied are those of
-- the argument, and a new grant is never born revoked.
unfoldable pub create_grant :
    Bool → ℕ → ℕ → Grant → List Grant → Result GrantError Grant × List Grant
unfolding accepts_grant
create_grant references_hold uid now grant grants =
    let result : Grant = record grant {
      uid = uid;
      revoked_at = none;
      revoked_by = none;
      created_at = now;
      query_count = 0;
      bytes_transferred = 0;
    } in
    if accepts_grant references_hold result grants
    then (ok result, result ∷ grants)
    else (err grant_not_created, grants)

-- `revoked_at IS NULL AND starts_at <= NOW() AND expires_at > NOW()`
abbrev pub is_active_at : ℕ → Grant → Bool
is_active_at now g = not (is_some g.revoked_at) && (leb g.starts_at now && ltb now g.expires_at)

-- `ORDER BY created_at DESC LIMIT 1`
pub newer : Grant → Option Grant → Grant
newer g none = g
newer g (some h) = if ltb g.created_at h.created_at then h else g

pub newest : List Grant → Option Grant
unfolding newer
newest [] = none
newest (g ∷ grants) = some (newer g (newest grants))

-- The end of the window of a grant: `min(ExpiresAt, RevokedAt)`
pub window_end : Grant → ℕ
window_end g = elim g.revoked_at [
  | none ↦ g.expires_at
  | some revoked ↦ if ltb revoked g.expires_at then revoked else g.expires_at
]

abbrev in_window : Grant → ℕ → Bool
in_window g t = leb g.starts_at t && ltb t (window_end g)

abbrev for_grant : Grant → Connection → Bool
for_grant g c = c.user_id == g.user_id && c.database_id == g.database_id

-- The join of a query with the connections, under the conditions of the count.
pub joined : Grant → List Connection → QueryRow → ℕ
joined g connections q =
    count (λ c. q.connection_id == c.uid && (for_grant g c && in_window g q.executed_at))
      connections

pub query_count_of : Usage → Grant → ℕ
unfolding joined
query_count_of usage g = sum_of (joined g usage.connections) usage.queries

pub bytes_of : Usage → Grant → ℕ
bytes_of usage g =
    sum_of (λ c. c.bytes_transferred)
      (keep (λ c. for_grant g c && in_window g c.connected_at) usage.connections)

-- `populateGrantCounters`
pub populate_grant_counters : Usage → Grant → Grant
populate_grant_counters usage g = record g {
  query_count = query_count_of usage g;
  bytes_transferred = bytes_of usage g;
}

abbrev found : GrantError → Usage → Option Grant → Result GrantError Grant
found e usage none = err e
found e usage (some g) = ok (populate_grant_counters usage g)

abbrev is_for : ℕ → ℕ → ℕ → Grant → Bool
is_for user_id database_id now g =
    (g.user_id == user_id && g.database_id == database_id) && is_active_at now g

-- `GetActiveGrant`
pub get_active_grant : ℕ → Usage → ℕ → ℕ → List Grant → Result GrantError Grant
get_active_grant now usage user_id database_id grants =
    found no_active_grant usage (newest (keep (is_for user_id database_id now) grants))

-- `GetGrantByUID`
pub get_grant_by_uid : Usage → ℕ → List Grant → Result GrantError Grant
unfolding find_grant
get_grant_by_uid usage uid grants = found grant_not_found usage (find_grant uid grants)

-- `ListGrants`, without its order: the rows that pass the filter, with their counters.
pub record GrantFilter : Type 0 where
  pub user_id : Option ℕ
  pub database_id : Option ℕ
  pub active_only : Bool

abbrev matches : Option ℕ → ℕ → Bool
matches none x = true
matches (some y) x = x == y

pub list_grants : ℕ → Usage → GrantFilter → List Grant → List Grant
list_grants now usage filter grants = map (populate_grant_counters usage) (
    keep
      (λ g.
        (matches filter.user_id g.user_id && matches filter.database_id g.database_id)
        && (not filter.active_only || is_active_at now g))
      grants)

-- The `UPDATE` of `RevokeGrant`: the rows after it, and how many it changed.
unfoldable pub revoke_rows : ℕ → ℕ → ℕ → List Grant → List Grant × ℕ
revoke_rows now uid revoked_by [] = ([], 0)
revoke_rows now uid revoked_by (g ∷ grants) =
    let (rest, n) = revoke_rows now uid revoked_by grants in
    if g.uid == uid && not (is_some g.revoked_at)
    then (record g { revoked_at = some now; revoked_by = some revoked_by } ∷ rest, suc n)
    else (g ∷ rest, n)

-- `RevokeGrant`
unfoldable pub revoke_grant : ℕ → ℕ → ℕ → List Grant → Option GrantError × List Grant
revoke_grant now uid revoked_by grants =
    let (rows, n) = revoke_rows now uid revoked_by grants in
    (if n == 0 then some grant_already_revoked else none, rows)
