-- ===== src/Proxy/Postgres/Client.antt =====
-- The messages of a client of PostgreSQL, and what the handlers of
-- internal/proxy/postgresql/intercept.go and the first loop of session.go do with each.
use dbbat.Prelude.{
  ℕ, suc, ◌+◌, String, Bool, true, false, not, ◌||◌, Option, none, some, List, [], ◌∷◌, ◌++◌, ltb,
  ◌==◌, if◌then◌else◌, length, get_or,
}
use dbbat.Prelude.Keys.{string_eq}
use dbbat.Prelude.Maps.{lookup, insert, delete}
use dbbat.Proxy.Postgres.{
  PgError, Moment, Storage, QueryParameters, PreparedStatement, PortalState, CopyState, Session,
  fresh_query, check_quotas, handle_query, handle_parse,
}

-- What a client sends; objects are named by `S` and `P`, as in the protocol.
pub data FrontMessage : Type 0 where
  query : List ℕ → FrontMessage
  parse : String → List ℕ → List ℕ → FrontMessage
  bind : String → String → List ℕ → List (List ℕ) → FrontMessage
  execute : String → FrontMessage
  describe close_object : ℕ → String → FrontMessage
  copy_from : List ℕ → FrontMessage
  copy_fail other_front : FrontMessage

-- `handleDescribe` and `handleParameterDescription`
unfoldable pub handle_describe : ℕ → String → Session → Session
handle_describe object_type name s =
    if object_type == b'S'
    then record s { pending_describes = s.pending_describes ++ name ∷ [] }
    else s

abbrev pub resolve :
    String → List ℕ → List (String × PreparedStatement) → List (String × PreparedStatement)
resolve name oids statements = elim (lookup name statements) [
  | none ↦ statements
  | some stmt ↦ insert name (record stmt { resolved_oids = oids }) statements
]

abbrev pub described : List ℕ → Session → List String → Session
described oids s [] = s
described oids s (name ∷ names) = record s {
  pending_describes = names;
  prepared_statements = resolve name oids s.prepared_statements;
}

unfoldable pub handle_parameter_description : List ℕ → Session → Session
handle_parameter_description oids s = described oids s s.pending_describes

-- The types of the parameters: those that the client declared, or else those that the server resolved.
unfoldable pub oids_of : Option PreparedStatement → List ℕ
oids_of none = []
oids_of (some stmt) = if length stmt.type_oids == 0 then stmt.resolved_oids else stmt.type_oids

-- One format stands for all parameters; a missing one is text.
unfoldable pub format_code : List ℕ → ℕ → ℕ
format_code (code ∷ []) i = code
format_code codes i = get_or codes i 0

unfoldable pub format_codes_from : List ℕ → ℕ → List (List ℕ) → List ℕ
unfolding format_code
format_codes_from codes i [] = []
format_codes_from codes i (p ∷ params) =
    format_code codes i ∷ format_codes_from codes (suc i) params

unfoldable pub parameters_of : List ℕ → List ℕ → List (List ℕ) → Option QueryParameters
unfolding format_codes_from
parameters_of oids codes [] = none
parameters_of oids codes (p ∷ params) = some (record {
  raw = p ∷ params;
  format_codes = format_codes_from codes 0 (p ∷ params);
  type_oids = oids;
})

-- `handleBind`
unfoldable pub handle_bind : String → String → List ℕ → List (List ℕ) → Session → Session
unfolding oids_of parameters_of
handle_bind portal stmt_name codes params s =
    let oids = oids_of (lookup stmt_name s.prepared_statements) in
    record s {
      portals =
          insert portal
            (record { stmt_name = stmt_name; parameters = parameters_of oids codes params })
            s.portals;
    }

abbrev pub sql_of : Option PreparedStatement → List ℕ
sql_of none = []
sql_of (some stmt) = stmt.sql

abbrev pub executed : ℕ → Session → Option PortalState → Session
executed now s none = s
executed now s (some portal) =
    let sql = sql_of (lookup portal.stmt_name s.prepared_statements) in
    record s { pending_queries = s.pending_queries ++ fresh_query now sql portal.parameters ∷ [] }

-- `handleExecute`
unfoldable pub handle_execute : Moment → String → Session → Option PgError × Session
handle_execute t portal s = elim (check_quotas t s.grant) [
  | some e ↦ (some e, s)
  | none ↦ (none, executed t.now s (lookup portal s.portals))
]

-- `handleClose`
unfoldable pub handle_close : ℕ → String → Session → Session
handle_close object_type name s =
    if object_type == b'S'
    then record s { prepared_statements = delete name s.prepared_statements }
    else if object_type == b'P'
    then record s { portals = delete name s.portals }
    else s

-- `captureCopyData`, on the COPY that is running in the direction.
unfoldable pub capture_copy_data : Storage → List ℕ → CopyState → CopyState
capture_copy_data cfg bytes c =
    if c.is_truncated || not cfg.store_results
    then c
    else if ltb cfg.max_result_bytes (c.total_bytes + length bytes)
    then record c { is_truncated = true; chunks = [] }
    else record c { chunks = c.chunks ++ bytes ∷ []; total_bytes = c.total_bytes + length bytes }

abbrev pub same_way : Bool → Bool → Bool
same_way true b = b
same_way false b = not b

abbrev pub captured : Storage → Bool → List ℕ → Option CopyState → Option CopyState
captured cfg is_out bytes none = none
captured cfg is_out bytes (some c) =
    some (if same_way is_out c.is_out then capture_copy_data cfg bytes c else c)

-- A round of `proxyClientToUpstream`: a message is forwarded if there is no error.
unfoldable pub client_step :
    (ℕ → ℕ) → Storage → Moment → FrontMessage → Session → Option PgError × Session
unfolding handle_describe handle_bind handle_execute handle_close capture_copy_data
client_step upper_other cfg t (query sql) s = handle_query upper_other t sql s
client_step upper_other cfg t (parse name sql oids) s = handle_parse upper_other name sql oids s
client_step upper_other cfg t (bind portal stmt codes params) s =
    (none, handle_bind portal stmt codes params s)
client_step upper_other cfg t (execute portal) s = handle_execute t portal s
client_step upper_other cfg t (describe object_type name) s =
    (none, handle_describe object_type name s)
client_step upper_other cfg t (close_object object_type name) s =
    (none, handle_close object_type name s)
client_step upper_other cfg t (copy_from bytes) s =
    (none, record s { copy_state = captured cfg false bytes s.copy_state })
client_step upper_other cfg t copy_fail s = (none, record s { copy_state = none })
client_step upper_other cfg t other_front s = (none, s)
