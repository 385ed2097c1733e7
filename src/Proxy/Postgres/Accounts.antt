-- ===== src/Proxy/Postgres/Accounts.antt =====
-- What a session of internal/proxy/postgresql counts against its grant, and what it fails to count.
use dbbat.Prelude.{
  ℕ, ◌+◌, ◌-◌, ◌≤◌, ◌≡◌, refl, sym, subst, String, Option, none, some, List, [], ◌∷◌, ◌++◌, arith,
  ◌==◌, length, length-append, Bool-cases, Option-cases, inl, inr,
}
use dbbat.Prelude.Keys.{string_eq}
use dbbat.Prelude.Maps.{lookup}
use dbbat.Prelude.Sums.{sum_of, sum_of-append}
use dbbat.Proxy.Postgres.{
  SessionGrant, Moment, Storage, PendingQuery, LoggedQuery, Session, check_quotas, check_policy,
  handle_query, handle_parse,
}
use dbbat.Proxy.Postgres.Client.{
  FrontMessage, query, parse, bind, execute, describe, close_object, copy_from, copy_fail,
  other_front, client_step, handle_describe, handle_bind, handle_execute, handle_close,
  handle_parameter_description, described,
}
use dbbat.Proxy.Postgres.Server.{
  BackMessage, parameter_description, row_description, command_complete, error_response, data_row,
  copy_out_response, copy_in_response, copy_to, ready_for_query, other_back, server_step, ready,
  log_query, popped, change_pending, with_row, with_columns,
}
use dbbat.Proxy.Postgres.Runs.{Event, from_client, from_server, run}

-- What is counted: the grant's counters, the last reading of the connection's counters, and the log.
abbrev pub counted : Session → SessionGrant × ℕ × List LoggedQuery
counted s = (s.grant, s.last_bytes_snapshot, s.logged)

-- The bytes of the log are those that the connection counted up to the last reading, and those that the
-- grant was charged; each logged query was charged as one.
abbrev pub Charged : ℕ → ℕ → SessionGrant × ℕ × List LoggedQuery → Type 0
Charged base queries (g, snapshot, logged) =
    (g.bytes_transferred ≡ base + snapshot)
    × (sum_of (λ l. l.bytes) logged ≡ snapshot)
    × (g.query_count ≡ queries + length logged)

-- The connection's counters do not run backwards.
abbrev pub Rising : ℕ → List Event → Type 0
Rising low [] = Unit
Rising low (from_client t m ∷ events) = Rising low events
Rising low (from_server t m ∷ events) = (low ≤ t.wire_bytes) × Rising t.wire_bytes events

same :
    (base queries w : ℕ) (c c' : SessionGrant × ℕ × List LoggedQuery)
    → c' ≡ c
    → c.1 ≤ w
    → Charged base queries c
    → Charged base queries c' × (c'.1 ≤ w)
same base queries w c c' e le b =
    (subst (Charged base queries) (sym e) b, subst (λ x. x.1 ≤ w) (sym e) le)

-- One more logged query.
logged-Charged :
    (base queries snapshot later : ℕ) (g : SessionGrant) (logged : List LoggedQuery)
    (l : LoggedQuery)
    → l.bytes ≡ later - snapshot
    → snapshot ≤ later
    → Charged base queries (g, snapshot, logged)
    → Charged base queries (
      record g {
        query_count = g.query_count + 1;
        bytes_transferred = g.bytes_transferred + (later - snapshot);
      },
      later,
      logged ++ l ∷ [],
    )
unfolding sum_of
logged-Charged base queries snapshot later g logged l h le (charged, total, one_each) = (
  omega arith,
  omega (arith, sum_of-append (λ x. x.bytes) logged (l ∷ [])),
  omega (arith, length-append logged (l ∷ [])),
)

-- What `s'` has logged and charged, and left in flight, after `s`.
abbrev LoggedOnce : Session → PendingQuery → List PendingQuery → Session → Type 0
LoggedOnce s r rest s' =
    (l : LoggedQuery) × (s'.logged ≡ s.logged ++ l ∷ [])
    × (l.sql ≡ r.sql)
    × (l.parameters ≡ r.parameters)
    × (s'.grant.query_count ≡ s.grant.query_count + 1)
    × (s'.pending_queries ≡ rest)

module _ (upper_other : ℕ → ℕ) (cfg : Storage) where
  client_step-counted :
      (t : Moment) (m : FrontMessage) (s : Session)
      → counted (client_step upper_other cfg t m s).1 ≡ counted s
  unfolding client_step handle_query handle_parse handle_bind handle_execute handle_close
      handle_describe
  client_step-counted t (query sql) s = elim (Option-cases (check_quotas t s.grant)) [
    | inr (e, quota) ↦ rw (quota, handle_query) refl
    | inl within ↦ elim (Option-cases (check_policy upper_other s.grant.controls sql)) [
      | inr (e, refused) ↦ rw (within, refused, handle_query) refl
      | inl fine ↦ rw (within, fine, handle_query) refl
    ]
  ]
  client_step-counted t (parse name sql oids) s =
      elim (Option-cases (check_policy upper_other s.grant.controls sql)) [
        | inr (e, refused) ↦ rw (refused, handle_parse) refl
        | inl fine ↦ rw (fine, handle_parse) refl
      ]
  client_step-counted t (bind portal stmt formats params) s = refl
  client_step-counted t (execute portal) s = elim (Option-cases (check_quotas t s.grant)) [
    | inr (e, quota) ↦ rw (quota, handle_execute) refl
    | inl within ↦ elim (Option-cases (lookup portal s.portals)) [
      | inl unknown ↦ rw (within, unknown, handle_execute) refl
      | inr (p, found) ↦ rw (within, found, handle_execute) refl
    ]
  ]
  client_step-counted t (describe object_type name) s = elim (Bool-cases (object_type == b'S')) [
    | inl yes_s ↦ rw yes_s refl
    | inr other ↦ rw other refl
  ]
  client_step-counted t (close_object object_type name) s =
      elim (Bool-cases (object_type == b'S')) [
        | inl yes_s ↦ rw yes_s refl
        | inr other ↦ elim (Bool-cases (object_type == b'P')) [
          | inl yes_p ↦ rw (other, yes_p) refl
          | inr neither ↦ rw (other, neither) refl
        ]
      ]
  client_step-counted t (copy_from bytes) s = refl
  client_step-counted t copy_fail s = refl
  client_step-counted t other_front s = refl

  change-counted :
      (f : PendingQuery → PendingQuery) (s : Session) (c : Option PendingQuery)
      → counted (change_pending f s c) ≡ counted s
  change-counted f s none = refl
  change-counted f s (some q) = refl

  popped-counted :
      (s : Session) (queries : List PendingQuery) → counted (popped s queries) ≡ counted s
  popped-counted s [] = refl
  popped-counted s (q ∷ queries) = refl

  described-counted :
      (oids : List ℕ) (s : Session) (names : List String)
      → counted (described oids s names) ≡ counted s
  described-counted oids s [] = refl
  described-counted oids s (name ∷ names) = refl

  ready-Charged :
      (base queries : ℕ) (t : Moment) (s : Session) (current : Option PendingQuery)
      → s.last_bytes_snapshot ≤ t.wire_bytes
      → Charged base queries (counted s)
      → Charged base queries (counted (ready t s current))
        × ((ready t s current).last_bytes_snapshot ≤ t.wire_bytes)
  unfolding ready log_query
  ready-Charged base queries t s none le b = (b, le)
  ready-Charged base queries t s (some q) le b = (
    logged-Charged base queries s.last_bytes_snapshot t.wire_bytes s.grant s.logged _ refl le b,
    omega arith,
  )

  server-Charged :
      (base queries : ℕ) (t : Moment) (m : BackMessage) (s : Session)
      → s.last_bytes_snapshot ≤ t.wire_bytes
      → Charged base queries (counted s)
      → Charged base queries (counted (server_step cfg t m s))
        × ((server_step cfg t m s).last_bytes_snapshot ≤ t.wire_bytes)
  unfolding server_step handle_parameter_description
  server-Charged base queries t (parameter_description oids) s le b =
      same base queries t.wire_bytes (counted s) _ (described-counted oids s s.pending_describes) le
        b
  server-Charged base queries t (row_description names oids) s le b =
      same base queries t.wire_bytes (counted s) _
        (change-counted (with_columns names oids) s s.current_query) le b
  server-Charged base queries t command_complete s le b =
      same base queries t.wire_bytes (counted s) _ (popped-counted s s.pending_queries) le b
  server-Charged base queries t (error_response message) s le b =
      same base queries t.wire_bytes (counted s) _
        (popped-counted (record s { query_error = some message }) s.pending_queries) le b
  server-Charged base queries t (data_row values) s le b =
      same base queries t.wire_bytes (counted s) _
        (change-counted (with_row cfg values) s s.current_query) le b
  server-Charged base queries t (copy_out_response format) s le b = (b, le)
  server-Charged base queries t (copy_in_response format) s le b = (b, le)
  server-Charged base queries t (copy_to bytes) s le b = (b, le)
  server-Charged base queries t ready_for_query s le b =
      ready-Charged base queries t s s.current_query le b
  server-Charged base queries t other_back s le b = (b, le)

  run_from :
      (base queries low : ℕ) (events : List Event) (s : Session)
      → s.last_bytes_snapshot ≤ low
      → Rising low events
      → Charged base queries (counted s)
      → Charged base queries (counted (run upper_other cfg events s))
  unfolding run
  run_from base queries low [] s le r b = b
  run_from base queries low (from_client t m ∷ events) s le r b =
      let s' = (client_step upper_other cfg t m s).1 in
      let (b', le') =
        same base queries low (counted s) (counted s') (client_step-counted t m s) le b in
      run_from base queries low events s' le' r b'
  run_from base queries low (from_server t m ∷ events) s le (up, r) b =
      let (b', le') = server-Charged base queries t m s (omega arith) b in
      run_from base queries t.wire_bytes events (server_step cfg t m s) le' r b'

  -- Through any messages of both sides, in any order, while the connection's counters do not run
  -- backwards: the bytes charged to the grant are those that the connection counted up to the last
  -- query that was logged, the logged queries share them out without a gap or an overlap, and each
  -- logged query is charged as one query.
  pub run-Charged :
      (base queries : ℕ) (events : List Event) (s : Session)
      → Rising s.last_bytes_snapshot events
      → Charged base queries (counted s)
      → Charged base queries (counted (run upper_other cfg events s))
  run-Charged base queries events s r b =
      run_from base queries s.last_bytes_snapshot events s (omega arith) r b

  -- Two queries of the extended protocol are in flight, as when a client sends two `Execute` before its
  -- `Sync`, and the server completes both before it is ready. Only the second is logged and charged: the
  -- first has taken no place in the log, and one query is counted for both.
  pub ready-pipelined :
      (t1 t2 t3 : Moment) (s : Session) (q r : PendingQuery) (rest : List PendingQuery)
      → s.pending_queries ≡ q ∷ r ∷ rest
      → let s' =
          run upper_other cfg
            (from_server t1 command_complete
              ∷ from_server t2 command_complete
              ∷ from_server t3 ready_for_query
              ∷ [])
            s in
        (l : LoggedQuery) × (s'.logged ≡ s.logged ++ l ∷ [])
        × (l.sql ≡ r.sql)
        × (l.parameters ≡ r.parameters)
        × (s'.grant.query_count ≡ s.grant.query_count + 1)
        × (s'.pending_queries ≡ rest)
  unfolding run server_step ready log_query
  ready-pipelined t1 t2 t3 s q r rest h =
      subst
        (λ l.
          let s' = popped (popped s l) (popped s l).pending_queries in
          LoggedOnce s r rest (ready t3 s' s'.current_query))
        (sym h) (_, refl, refl, refl, refl, refl)
