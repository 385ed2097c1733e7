-- ===== src/Proxy/Postgres.antt =====
-- internal/proxy/postgresql/intercept.go, and the two loops of session.go in the same directory: what a
-- session remembers of the messages that pass, what it refuses, and what it logs. A session's two
-- goroutines are steps on one state. The numbers of rows that a command affects, and the texts of
-- parameters, rows and COPY data, are left out: rows and parameters stand as bytes.
pub mod Client
pub mod Server
pub mod Runs
pub mod Permitted
pub mod Policy
pub mod Accounts
mod Tests
use dbbat.Prelude.{
  ℕ, zero, suc, ◌+◌, ◌-◌, ◌*◌, String, Bool, true, false, not, ◌&&◌, ◌||◌, Option, none, some, List,
  [], ◌∷◌, ◌++◌, map, ltb, leb, ◌==◌, if◌then◌else◌, length, get_or, drop, Result, ok, err,
}
use dbbat.Prelude.Keys.{string_eq}
use dbbat.Prelude.Maps.{insert}
use dbbat.Prelude.Texts.{codes, has_prefix}
use dbbat.Proxy.Query.{
  is_read_only, should_block_ddl, has_control, control_block_copy, normalized, is_write_query,
  is_ddl_query, is_password_change_query,
}
use dbbat.Proxy.Query.Patterns.{Regexp, spaces, bound, seq, alt, opt, word, match_string}

-- `readOnlyBypassPatterns`; `\s*` is an optional `\s+`.
abbrev session_word : Regexp
session_word = opt (seq (word "SESSION") spaces)

abbrev pub read_only_bypass_patterns : List Regexp
read_only_bypass_patterns =
    seq bound (
      seq (word "SET") (
        seq spaces (
          seq session_word (
            seq (word "DEFAULT_TRANSACTION_READ_ONLY") (
              seq (opt spaces) (
                seq (alt (word "=") (word "TO")) (
                  seq (opt spaces)
                    (seq (alt (word "OFF") (alt (word "FALSE") (word "0"))) bound))))))))
    ∷ seq bound (
        seq (word "RESET")
          (seq spaces (seq session_word (seq (word "DEFAULT_TRANSACTION_READ_ONLY") bound))))
    ∷ seq bound
        (seq (word "SET") (seq spaces (seq session_word (seq (word "AUTHORIZATION") bound))))
    ∷ seq bound (seq (word "SET") (seq spaces (seq (word "ROLE") bound)))
    ∷ []

unfoldable pub matches_any : List Regexp → List ℕ → Bool
matches_any [] sql = false
matches_any (p ∷ patterns) sql = match_string p sql || matches_any patterns sql

pub is_read_only_bypass_attempt : List ℕ → Bool
unfolding matches_any
is_read_only_bypass_attempt sql = matches_any read_only_bypass_patterns sql

abbrev pub should_block_copy : List String → Bool
should_block_copy controls = has_control controls control_block_copy

pub data PgError : Type 0 where
  password_change_not_allowed read_only_bypass_attempt write_not_permitted : PgError
  ddl_not_permitted copy_not_permitted : PgError
  grant_revoked grant_expired query_limit_exceeded data_limit_exceeded : PgError

-- What the session reads of its grant, and the counters that it keeps there. An `expires_at` of 0 is the
-- zero time.
pub record SessionGrant : Type 0 where
  pub controls : List String
  pub expires_at : ℕ
  pub max_query_counts : Option ℕ
  pub max_bytes_transferred : Option ℕ
  pub query_count : ℕ
  pub bytes_transferred : ℕ

-- What the session sees from outside when a message comes: the clock, the flag of the revocation, and
-- the bytes that its client connection has counted in both directions.
pub record Moment : Type 0 where
  pub now : ℕ
  pub revoked : Bool
  pub wire_bytes : ℕ

-- `QueryStorageConfig`
pub record Storage : Type 0 where
  pub store_results : Bool
  pub max_result_rows : ℕ
  pub max_result_bytes : ℕ

-- The parameters of a portal: each with its format and type.
pub record QueryParameters : Type 0 where
  pub raw : List (List ℕ)
  pub format_codes : List ℕ
  pub type_oids : List ℕ

pub record PendingQuery : Type 0 where
  pub sql : List ℕ
  pub start_time : ℕ
  pub parameters : Option QueryParameters
  pub column_names : List (List ℕ)
  pub column_oids : List ℕ
  pub captured_rows : List (List (List ℕ))
  pub captured_bytes : ℕ
  pub row_number : ℕ
  pub is_truncated : Bool

pub record PreparedStatement : Type 0 where
  pub sql : List ℕ
  pub type_oids : List ℕ
  pub resolved_oids : List ℕ

pub record PortalState : Type 0 where
  pub stmt_name : String
  pub parameters : Option QueryParameters

pub record CopyState : Type 0 where
  pub is_out : Bool
  pub format : ℕ
  pub chunks : List (List ℕ)
  pub total_bytes : ℕ
  pub is_truncated : Bool

-- A query as it is written to the store; the rows of a COPY are parsed from its chunks.
pub record LoggedQuery : Type 0 where
  pub sql : List ℕ
  pub parameters : Option QueryParameters
  pub query_error : Option (List ℕ)
  pub rows : List (List (List ℕ))
  pub copy_chunks : List (List ℕ)
  pub bytes : ℕ

pub record Session : Type 0 where
  pub grant : SessionGrant
  pub prepared_statements : List (String × PreparedStatement)
  pub portals : List (String × PortalState)
  pub pending_queries : List PendingQuery
  pub pending_describes : List String
  pub current_query : Option PendingQuery
  pub copy_state : Option CopyState
  pub query_error : Option (List ℕ)
  pub last_bytes_snapshot : ℕ
  pub logged : List LoggedQuery

abbrev pub fresh_query : ℕ → List ℕ → Option QueryParameters → PendingQuery
fresh_query now sql parameters = record {
  sql = sql;
  start_time = now;
  parameters = parameters;
  column_names = [];
  column_oids = [];
  captured_rows = [];
  captured_bytes = 0;
  row_number = 0;
  is_truncated = false;
}

abbrev reached : Option ℕ → ℕ → Bool
reached none n = false
reached (some limit) n = leb limit n

-- `checkQuotas` of internal/proxy/postgresql/auth.go
pub check_quotas : Moment → SessionGrant → Option PgError
check_quotas t g =
    if t.revoked
    then some grant_revoked
    else if not (g.expires_at == 0) && leb g.expires_at t.now
    then some grant_expired
    else if reached g.max_query_counts g.query_count
    then some query_limit_exceeded
    else if reached g.max_bytes_transferred g.bytes_transferred
    then some data_limit_exceeded
    else none

module _ (upper_other : ℕ → ℕ) where
  -- `isCopyQuery`
  pub is_copy_query : List ℕ → Bool
  is_copy_query sql = has_prefix (normalized upper_other sql) (codes "COPY ")

  -- The controls that `handleQuery` and `handleParse` test, in their order.
  pub check_policy : List String → List ℕ → Option PgError
  unfolding is_read_only_bypass_attempt is_copy_query
  check_policy controls sql =
      if is_password_change_query upper_other sql
      then some password_change_not_allowed
      else if is_read_only controls && is_read_only_bypass_attempt sql
      then some read_only_bypass_attempt
      else if is_read_only controls && is_write_query upper_other sql
      then some write_not_permitted
      else if not (is_read_only controls)
          && (should_block_ddl controls && is_ddl_query upper_other sql)
      then some ddl_not_permitted
      else if should_block_copy controls && is_copy_query sql
      then some copy_not_permitted
      else none

  -- `handleQuery`
  pub handle_query : Moment → List ℕ → Session → Option PgError × Session
  unfolding check_policy check_quotas
  handle_query t sql s = elim (check_quotas t s.grant) [
    | some e ↦ (some e, s)
    | none ↦ elim (check_policy s.grant.controls sql) [
      | some e ↦ (some e, s)
      | none ↦ (none, record s { current_query = some (fresh_query t.now sql none) })
    ]
  ]

  -- `handleParse`
  pub handle_parse : String → List ℕ → List ℕ → Session → Option PgError × Session
  unfolding check_policy
  handle_parse name sql oids s = elim (check_policy s.grant.controls sql) [
    | some e ↦ (some e, s)
    | none ↦
        let stmt : PreparedStatement = record { sql = sql; type_oids = oids; resolved_oids = [] } in
        (none, record s { prepared_statements = insert name stmt s.prepared_statements })
  ]
