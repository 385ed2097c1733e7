-- ===== src/Proxy/Postgres/Server.antt =====
-- The messages of the server, what the second loop of internal/proxy/postgresql/session.go does with
-- each, and how a query ends and is logged.
use dbbat.Prelude.{
  ℕ, ◌+◌, ◌-◌, Bool, true, false, not, ◌||◌, Option, none, some, List, [], ◌∷◌, ◌++◌, ltb, leb,
  if◌then◌else◌, length,
}
use dbbat.Prelude.Keys.{string_eq}
use dbbat.Prelude.Sums.{sum_of}
use dbbat.Proxy.Postgres.{Moment, Storage, PendingQuery, CopyState, Session}
use dbbat.Proxy.Postgres.Client.{handle_parameter_description, capture_copy_data, captured}

-- What the server sends.
pub data BackMessage : Type 0 where
  parameter_description : List ℕ → BackMessage
  row_description : List (List ℕ) → List ℕ → BackMessage
  command_complete : BackMessage
  error_response : List ℕ → BackMessage
  data_row : List (List ℕ) → BackMessage
  copy_out_response copy_in_response : ℕ → BackMessage
  copy_to : List ℕ → BackMessage
  ready_for_query other_back : BackMessage

-- The change of the last query of the queue.
unfoldable pub update_last : (PendingQuery → PendingQuery) → List PendingQuery → List PendingQuery
update_last f [] = []
update_last f (q ∷ []) = f q ∷ []
update_last f (q ∷ r ∷ queries) = q ∷ update_last f (r ∷ queries)

-- A change of what `getCurrentPendingQuery` points to: the current query, or else the last in the queue.
abbrev pub change_pending : (PendingQuery → PendingQuery) → Session → Option PendingQuery → Session
change_pending f s (some q) = record s { current_query = some (f q) }
change_pending f s none = record s { pending_queries = update_last f s.pending_queries }

-- `captureRowDescription`
abbrev pub with_columns : List (List ℕ) → List ℕ → PendingQuery → PendingQuery
with_columns names oids q = record q { column_names = names; column_oids = oids }

-- The capture of a `DataRow`.
unfoldable pub with_row : Storage → List (List ℕ) → PendingQuery → PendingQuery
with_row cfg values q =
    let row_size = sum_of length values in
    if not cfg.store_results || q.is_truncated
    then q
    else if leb cfg.max_result_rows q.row_number
        || ltb cfg.max_result_bytes (q.captured_bytes + row_size)
    then record q { is_truncated = true; captured_rows = [] }
    else record q {
      captured_rows = q.captured_rows ++ values ∷ [];
      captured_bytes = q.captured_bytes + row_size;
      row_number = q.row_number + 1;
    }

-- The pop of the queue at the end of a command.
abbrev pub popped : Session → List PendingQuery → Session
popped s [] = s
popped s (q ∷ queries) = record s { current_query = some q; pending_queries = queries }

-- The data that is stored with a query: that of a COPY if there is any, or else its rows.
abbrev chunks_of : Option CopyState → List (List ℕ)
chunks_of none = []
chunks_of (some c) = if c.is_truncated then [] else c.chunks

abbrev rows_of : PendingQuery → List (List ℕ) → List (List (List ℕ))
rows_of q [] = q.captured_rows
rows_of q (chunk ∷ chunks) = []

-- `logQuery`
unfoldable pub log_query : ℕ → PendingQuery → Session → Session
log_query bytes q s = record s {
  logged =
      s.logged
      ++ (record {
        sql = q.sql;
        parameters = q.parameters;
        query_error = s.query_error;
        rows = rows_of q (chunks_of s.copy_state);
        copy_chunks = chunks_of s.copy_state;
        bytes = bytes;
      })
        ∷ [];
  grant = record s.grant {
    query_count = s.grant.query_count + 1;
    bytes_transferred = s.grant.bytes_transferred + bytes;
  };
}

-- The case of `ReadyForQuery`.
unfoldable pub ready : Moment → Session → Option PendingQuery → Session
unfolding log_query
ready t s none = s
ready t s (some q) =
    let bytes = t.wire_bytes - s.last_bytes_snapshot in
    record (log_query bytes q s) {
      last_bytes_snapshot = t.wire_bytes;
      current_query = none;
      copy_state = none;
      query_error = none;
    }

abbrev pub started : Bool → ℕ → CopyState
started is_out format = record {
  is_out = is_out;
  format = format;
  chunks = [];
  total_bytes = 0;
  is_truncated = false;
}

-- A round of `proxyUpstreamToClient`; every message is forwarded.
unfoldable pub server_step : Storage → Moment → BackMessage → Session → Session
unfolding handle_parameter_description update_last with_row ready capture_copy_data
server_step cfg t (parameter_description oids) s = handle_parameter_description oids s
server_step cfg t (row_description names oids) s =
    change_pending (with_columns names oids) s s.current_query
server_step cfg t command_complete s = popped s s.pending_queries
server_step cfg t (error_response message) s =
    popped (record s { query_error = some message }) s.pending_queries
server_step cfg t (data_row values) s = change_pending (with_row cfg values) s s.current_query
server_step cfg t (copy_out_response format) s = record s {
  copy_state = some (started true format);
}
server_step cfg t (copy_in_response format) s = record s {
  copy_state = some (started false format);
}
server_step cfg t (copy_to bytes) s = record s { copy_state = captured cfg true bytes s.copy_state }
server_step cfg t ready_for_query s = ready t s s.current_query
server_step cfg t other_back s = s
