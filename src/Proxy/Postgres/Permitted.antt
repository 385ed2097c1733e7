-- ===== src/Proxy/Postgres/Permitted.antt =====
-- What a session of internal/proxy/postgresql remembers, its grant permits: what a client's message does.
use dbbat.Prelude.{
  ℕ, ◌+◌, ◌-◌, ◌≡◌, refl, sym, ap, ◌∙◌, subst, String, Bool, true, false, Option, none, some, List,
  [], ◌∷◌, ◌++◌, arith, ◌==◌, if◌then◌else◌, All, All-append, Bool-cases, Option-cases, inl, inr,
}
use dbbat.Prelude.Keys.{string_eq}
use dbbat.Prelude.Maps.{lookup, delete, All-insert, All-delete, All-lookup}
use dbbat.Prelude.Texts.{codes, trim_space, to_upper, has_prefix}
use dbbat.Proxy.Query.{
  normalized, is_write_query, is_ddl_query, is_password_change_query, starts_with_any,
}
use dbbat.Proxy.Query.Patterns.{match_string}
use dbbat.Proxy.Postgres.{
  Moment, Storage, PendingQuery, PreparedStatement, Session, fresh_query, check_quotas,
  check_policy, handle_query, handle_parse, is_copy_query, is_read_only_bypass_attempt, matches_any,
}
use dbbat.Proxy.Postgres.Client.{
  FrontMessage, query, parse, bind, execute, describe, close_object, copy_from, copy_fail,
  other_front, client_step, handle_describe, handle_bind, handle_execute, handle_close, sql_of,
  described, resolve,
}
use dbbat.Proxy.Postgres.Server.{update_last}

-- None of the tests is passed by the empty text.
empty_plain :
    (upper_other : ℕ → ℕ)
    → (is_password_change_query upper_other [] ≡ false)
      × (is_read_only_bypass_attempt [] ≡ false)
      × (is_write_query upper_other [] ≡ false)
      × (is_ddl_query upper_other [] ≡ false)
      × (is_copy_query upper_other [] ≡ false)
unfolding is_read_only_bypass_attempt is_copy_query matches_any match_string
    is_password_change_query is_write_query is_ddl_query normalized starts_with_any trim_space
    to_upper has_prefix dbbat.Prelude.Texts.trim_right dbbat.Prelude.Texts.trim_left
empty_plain upper_other = (refl, refl, refl, refl, refl)

module _ (upper_other : ℕ → ℕ) (cfg : Storage) where
  abbrev pub Permitted : List String → List ℕ → Type 0
  Permitted controls sql = check_policy upper_other controls sql ≡ none

  -- A portal without a statement logs an empty text, which nothing forbids.
  Permitted-empty : (controls : List String) → Permitted controls []
  unfolding check_policy
  Permitted-empty controls =
      let (a, b, c, d, e) = empty_plain upper_other in ground (arith, a, b, c, d, e)

  module _ (controls : List String) where
    abbrev pub AllPermitted : List PendingQuery → Type 0
    AllPermitted queries = All (λ q. Permitted controls q.sql) queries

    abbrev pub MaybePermitted : Option PendingQuery → Type 0
    MaybePermitted none = Unit
    MaybePermitted (some q) = Permitted controls q.sql

    abbrev pub StatementsPermitted : List (String × PreparedStatement) → Type 0
    StatementsPermitted statements = All (λ x. Permitted controls x.1.sql) statements

    -- Everything that a session remembers is permitted by its grant.
    pub record IsPermitted (s : Session) : Type 0 where
      pub same : s.grant.controls ≡ controls
      pub statements : StatementsPermitted s.prepared_statements
      pub pending : AllPermitted s.pending_queries
      pub current : MaybePermitted s.current_query
      pub logged : All (λ l. Permitted controls l.sql) s.logged

    sql_of-Permitted :
        (stmt : Option PreparedStatement) (statements : List (String × PreparedStatement))
        (name : String)
        → lookup name statements ≡ stmt
        → StatementsPermitted statements
        → Permitted controls (sql_of stmt)
    sql_of-Permitted none statements name e h = Permitted-empty controls
    sql_of-Permitted (some stmt) statements name e h =
        All-lookup (λ x. Permitted controls x.1.sql) name stmt statements e h

    pub resolve-Permitted :
        (name : String) (oids : List ℕ) (statements : List (String × PreparedStatement))
        → StatementsPermitted statements
        → StatementsPermitted (resolve name oids statements)
    resolve-Permitted name oids statements h = elim (Option-cases (lookup name statements)) [
      | inl e ↦ rw (e, resolve) h
      | inr (stmt, e) ↦
          rw (e, resolve)
            (All-insert (λ x. Permitted controls x.1.sql) name
              (record stmt { resolved_oids = oids }) statements
              (All-lookup (λ x. Permitted controls x.1.sql) name stmt statements e h) h)
    ]

    pub update_last-Permitted :
        (f : PendingQuery → PendingQuery) (queries : List PendingQuery)
        → ((q : PendingQuery) → (f q).sql ≡ q.sql)
        → AllPermitted queries
        → AllPermitted (update_last f queries)
    unfolding update_last
    update_last-Permitted f [] h a = tt
    update_last-Permitted f (q ∷ []) h (p, a) = (subst (Permitted controls) (sym (h q)) p, tt)
    update_last-Permitted f (q ∷ r ∷ queries) h (p, a) =
        (p, update_last-Permitted f (r ∷ queries) h a)

    handle_query-IsPermitted :
        (t : Moment) (sql : List ℕ) (s : Session)
        → IsPermitted s
        → IsPermitted (handle_query upper_other t sql s).1
    unfolding handle_query
    handle_query-IsPermitted t sql s h = elim (Option-cases (check_quotas t s.grant)) [
      | inr (e, quota) ↦ rw (quota, handle_query) h
      | inl within ↦ elim (Option-cases (check_policy upper_other s.grant.controls sql)) [
        | inr (e, refused) ↦ rw (within, refused, handle_query) h
        | inl fine ↦
            rw (within, fine, handle_query)
              (record {
                same = h.same;
                statements = h.statements;
                pending = h.pending;
                current = subst (λ c. Permitted c sql) h.same fine;
                logged = h.logged;
              })
      ]
    ]

    handle_parse-IsPermitted :
        (name : String) (sql oids : List ℕ) (s : Session)
        → IsPermitted s
        → IsPermitted (handle_parse upper_other name sql oids s).1
    unfolding handle_parse
    handle_parse-IsPermitted name sql oids s h =
        let stmt : PreparedStatement = record { sql = sql; type_oids = oids; resolved_oids = [] } in
        elim (Option-cases (check_policy upper_other s.grant.controls sql)) [
          | inr (e, refused) ↦ rw (refused, handle_parse) h
          | inl fine ↦
              rw (fine, handle_parse)
                (record {
                  same = h.same;
                  statements =
                      All-insert (λ x. Permitted controls x.1.sql) name stmt s.prepared_statements
                        (subst (λ c. Permitted c sql) h.same fine) h.statements;
                  pending = h.pending;
                  current = h.current;
                  logged = h.logged;
                })
        ]

    -- With other statements, and other pending queries.
    pub with_statements :
        (s : Session) (statements : List (String × PreparedStatement)) (names : List String)
        → StatementsPermitted statements
        → IsPermitted s
        → IsPermitted (record s { pending_describes = names; prepared_statements = statements })
    with_statements s statements names a h = record {
      same = h.same;
      statements = a;
      pending = h.pending;
      current = h.current;
      logged = h.logged;
    }

    pub with_pending :
        (s : Session) (queries : List PendingQuery)
        → AllPermitted queries
        → IsPermitted s
        → IsPermitted (record s { pending_queries = queries })
    with_pending s queries a h = record {
      same = h.same;
      statements = h.statements;
      pending = a;
      current = h.current;
      logged = h.logged;
    }

    handle_execute-IsPermitted :
        (t : Moment) (portal : String) (s : Session)
        → IsPermitted s
        → IsPermitted (handle_execute t portal s).1
    unfolding handle_execute
    handle_execute-IsPermitted t portal s h = elim (Option-cases (check_quotas t s.grant)) [
      | inr (e, quota) ↦ rw (quota, handle_execute) h
      | inl within ↦ elim (Option-cases (lookup portal s.portals)) [
        | inl unknown ↦ rw (within, unknown, handle_execute) h
        | inr (p, found) ↦
            let stmt = lookup p.stmt_name s.prepared_statements in
            rw (within, found, handle_execute)
              (with_pending s
                (s.pending_queries ++ fresh_query t.now (sql_of stmt) p.parameters ∷ [])
                (All-append (λ q. Permitted controls q.sql) s.pending_queries _ h.pending
                  (sql_of-Permitted stmt s.prepared_statements p.stmt_name refl h.statements, tt))
                h)
      ]
    ]

    pub described-IsPermitted :
        (oids : List ℕ) (s : Session) (names : List String)
        → IsPermitted s
        → IsPermitted (described oids s names)
    described-IsPermitted oids s [] h = h
    described-IsPermitted oids s (name ∷ names) h =
        with_statements s (resolve name oids s.prepared_statements) names
          (resolve-Permitted name oids s.prepared_statements h.statements) h

    handle_close-IsPermitted :
        (object_type : ℕ) (name : String) (s : Session)
        → IsPermitted s
        → IsPermitted (handle_close object_type name s)
    unfolding handle_close
    handle_close-IsPermitted object_type name s h = elim (Bool-cases (object_type == b'S')) [
      | inl statement ↦ rw statement (
          with_statements s (delete name s.prepared_statements) s.pending_describes
            (All-delete (λ x. Permitted controls x.1.sql) name s.prepared_statements h.statements)
            h)
      | inr other ↦ elim (Bool-cases (object_type == b'P')) [
        | inl portal ↦
            rw (other, portal)
              (record {
                same = h.same;
                statements = h.statements;
                pending = h.pending;
                current = h.current;
                logged = h.logged;
              })
        | inr neither ↦ rw (other, neither) h
      ]
    ]

    handle_describe-IsPermitted :
        (object_type : ℕ) (name : String) (s : Session)
        → IsPermitted s
        → IsPermitted (handle_describe object_type name s)
    unfolding handle_describe
    handle_describe-IsPermitted object_type name s h = elim (Bool-cases (object_type == b'S')) [
      | inl statement ↦ rw statement (
          with_statements s s.prepared_statements (s.pending_describes ++ name ∷ []) h.statements h)
      | inr other ↦ rw other h
    ]

    pub client-IsPermitted :
        (t : Moment) (m : FrontMessage) (s : Session)
        → IsPermitted s
        → IsPermitted (client_step upper_other cfg t m s).1
    unfolding client_step handle_bind
    client-IsPermitted t (query sql) s h = handle_query-IsPermitted t sql s h
    client-IsPermitted t (parse name sql oids) s h = handle_parse-IsPermitted name sql oids s h
    client-IsPermitted t (bind portal stmt formats params) s h = record {
      same = h.same;
      statements = h.statements;
      pending = h.pending;
      current = h.current;
      logged = h.logged;
    }
    client-IsPermitted t (execute portal) s h = handle_execute-IsPermitted t portal s h
    client-IsPermitted t (describe object_type name) s h =
        handle_describe-IsPermitted object_type name s h
    client-IsPermitted t (close_object object_type name) s h =
        handle_close-IsPermitted object_type name s h
    client-IsPermitted t (copy_from bytes) s h = record {
      same = h.same;
      statements = h.statements;
      pending = h.pending;
      current = h.current;
      logged = h.logged;
    }
    client-IsPermitted t copy_fail s h = record {
      same = h.same;
      statements = h.statements;
      pending = h.pending;
      current = h.current;
      logged = h.logged;
    }
    client-IsPermitted t other_front s h = h
