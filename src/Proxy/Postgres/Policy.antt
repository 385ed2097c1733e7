-- ===== src/Proxy/Postgres/Policy.antt =====
-- What a session of internal/proxy/postgresql lets PostgreSQL run, and what it logs, its grant permits.
use dbbat.Prelude.{
  ℕ, ◌≡◌, refl, sym, subst, String, Option, none, some, List, [], ◌∷◌, arith, All-append,
}
use dbbat.Prelude.Keys.{string_eq}
use dbbat.Proxy.Postgres.{Moment, Storage, PendingQuery, Session}
use dbbat.Proxy.Postgres.Client.{client_step, handle_parameter_description}
use dbbat.Proxy.Postgres.Server.{
  BackMessage, parameter_description, row_description, command_complete, error_response, data_row,
  copy_out_response, copy_in_response, copy_to, ready_for_query, other_back, server_step,
  update_last, with_row, with_columns, ready, log_query, popped, change_pending,
}
use dbbat.Proxy.Postgres.Runs.{Event, from_client, from_server, run}
use dbbat.Proxy.Postgres.Permitted.{
  AllPermitted, MaybePermitted, IsPermitted, update_last-Permitted, with_pending,
  client-IsPermitted, described-IsPermitted, Permitted,
}

module _ (upper_other : ℕ → ℕ) (cfg : Storage) (controls : List String) where
  change-IsPermitted :
      (f : PendingQuery → PendingQuery) (s : Session) (current : Option PendingQuery)
      → ((q : PendingQuery) → (f q).sql ≡ q.sql)
      → MaybePermitted upper_other cfg controls current
      → IsPermitted upper_other cfg controls s
      → IsPermitted upper_other cfg controls (change_pending f s current)
  change-IsPermitted f s none e m h =
      with_pending upper_other cfg controls s (update_last f s.pending_queries)
        (update_last-Permitted upper_other cfg controls f s.pending_queries e h.pending) h
  change-IsPermitted f s (some q) e m h = record {
    same = h.same;
    statements = h.statements;
    pending = h.pending;
    current = subst (Permitted upper_other cfg controls) (sym (e q)) m;
    logged = h.logged;
  }

  popped-IsPermitted :
      (s : Session) (queries : List PendingQuery)
      → AllPermitted upper_other cfg controls queries
      → IsPermitted upper_other cfg controls s
      → IsPermitted upper_other cfg controls (popped s queries)
  popped-IsPermitted s [] a h = h
  popped-IsPermitted s (q ∷ queries) (p, a) h = record {
    same = h.same;
    statements = h.statements;
    pending = a;
    current = p;
    logged = h.logged;
  }

  ready-IsPermitted :
      (t : Moment) (s : Session) (current : Option PendingQuery)
      → MaybePermitted upper_other cfg controls current
      → IsPermitted upper_other cfg controls s
      → IsPermitted upper_other cfg controls (ready t s current)
  unfolding ready log_query
  ready-IsPermitted t s none m h = h
  ready-IsPermitted t s (some q) m h = record {
    same = h.same;
    statements = h.statements;
    pending = h.pending;
    current = tt;
    logged = All-append (λ l. Permitted upper_other cfg controls l.sql) s.logged _ h.logged (m, tt);
  }

  with_row_sql : (values : List (List ℕ)) (q : PendingQuery) → (with_row cfg values q).sql ≡ q.sql
  unfolding with_row
  with_row_sql values q = ground arith

  server-IsPermitted :
      (t : Moment) (m : BackMessage) (s : Session)
      → IsPermitted upper_other cfg controls s
      → IsPermitted upper_other cfg controls (server_step cfg t m s)
  unfolding server_step handle_parameter_description
  server-IsPermitted t (parameter_description oids) s h =
      described-IsPermitted upper_other cfg controls oids s s.pending_describes h
  server-IsPermitted t (row_description names oids) s h =
      change-IsPermitted (with_columns names oids) s s.current_query (λ q. refl) h.current h
  server-IsPermitted t command_complete s h = popped-IsPermitted s s.pending_queries h.pending h
  server-IsPermitted t (error_response message) s h =
      popped-IsPermitted (record s { query_error = some message }) s.pending_queries h.pending
        (record {
          same = h.same;
          statements = h.statements;
          pending = h.pending;
          current = h.current;
          logged = h.logged;
        })
  server-IsPermitted t (data_row values) s h =
      change-IsPermitted (with_row cfg values) s s.current_query (with_row_sql values) h.current h
  server-IsPermitted t (copy_out_response format) s h = record {
    same = h.same;
    statements = h.statements;
    pending = h.pending;
    current = h.current;
    logged = h.logged;
  }
  server-IsPermitted t (copy_in_response format) s h = record {
    same = h.same;
    statements = h.statements;
    pending = h.pending;
    current = h.current;
    logged = h.logged;
  }
  server-IsPermitted t (copy_to bytes) s h = record {
    same = h.same;
    statements = h.statements;
    pending = h.pending;
    current = h.current;
    logged = h.logged;
  }
  server-IsPermitted t ready_for_query s h = ready-IsPermitted t s s.current_query h.current h
  server-IsPermitted t other_back s h = h

  -- From a session in which it holds, as in a new one, and through any messages of both sides, in any
  -- order: each statement that is prepared, each query that is in flight, and each query that is logged
  -- passes the tests of `handleQuery` and `handleParse` for the controls of the grant, which stay the
  -- same.
  pub run-IsPermitted :
      (events : List Event) (s : Session)
      → IsPermitted upper_other cfg controls s
      → IsPermitted upper_other cfg controls (run upper_other cfg events s)
  unfolding run
  run-IsPermitted [] s h = h
  run-IsPermitted (from_client t m ∷ events) s h =
      run-IsPermitted events (client_step upper_other cfg t m s).1
        (client-IsPermitted upper_other cfg controls t m s h)
  run-IsPermitted (from_server t m ∷ events) s h =
      run-IsPermitted events (server_step cfg t m s) (server-IsPermitted t m s h)
