-- ===== src/Lib.antt =====
-- dbbat is a proxy in front of databases (PostgreSQL, Oracle, MySQL, MongoDB). A user asks for a
-- grant on a database, an administrator or a rule approves it, and from then on the user connects
-- through the proxy, which checks what is sent against the controls of the grant, counts the bytes,
-- and ends the session when a quota is used up, the grant expires or it is revoked. An HTTP API
-- with a rate limiter stands before the store of users, grants and requests.
--
-- This library models those parts and how they meet:
--   RateLimit          internal/api/ratelimit.go. `check` prunes the window of a key, decides and
--                      records; `cleanup` is a tick of the goroutine; the three middlewares
--                      give a Reply. An instant is an argument in nanoseconds, a map is an
--                      association list. `check` is one step there; RateLimit.Shared has its two critical
--                      sections as steps of their own, windows as shared objects and any interleaving.
--   Auth.Hash          internal/crypto/hash.go, over a record HashLib of the libraries that it calls.
--   Auth.Cache         internal/cache/auth.go: verdicts of Auth.Hash, kept under a digest.
--   Auth.Keys          internal/store/api_keys.go: creation, verification, use and revocation of API
--                      keys and web sessions, over rows with the constraints of the table.
--   Auth.Encrypt       internal/crypto/encrypt.go: a secret sealed with the name of its row; AES and GCM
--                      are a record CipherLib.
--   Auth.Failures      the tracker of failed logins of internal/api/middleware.go.
--   Auth.Login         the rest of that file: Basic and Bearer authentication over Auth.Keys,
--                      Auth.Cache and Auth.Failures, and the guards behind it.
--   Auth.Revocation    internal/cache/revocation.go: a handle is the number of a cell whose flag
--                      `Revoke` sets; a session reads it through its guard in Proxy.Limits.
--   Proxy.Limits       internal/proxy/shared/limits.go. An `int64` is its bit pattern below 2^64;
--                      pointers to counters and flags are addresses in a view of the moment (Live);
--                      `Watch` goes over the list of what the ticks show.
--   Proxy.Query        internal/proxy/shared/validation.go: the keyword tests, the blocked patterns
--                      (Patterns, with a matcher for the regular expressions) and the policy for
--                      the commands of MongoDB (Mongo, over a record BsonLib of its reader).
--   Proxy.Oracle.Tns   internal/proxy/oracle/tns.go: a connection is the list of bytes to come.
--   Proxy.Wire         internal/proxy/mongodb/wire.go: messages, compression, sections and replies of
--                      MongoDB; BSON and zlib are parameters.
--   Proxy.Postgres     internal/proxy/postgresql/intercept.go, checkQuotas of auth.go and the two relay
--                      loops of session.go there: a message of either side is a step on the
--                      state of a session (Client, Server); Runs has sequences of them.
--   Dump               internal/dump: the capture of a session in a file, its reader, its
--                      anonymised copy and the cleanup. A file is the list of its bytes;
--                      instants count from Go's zero time.
--   Access.Grants      internal/store/grants.go: the table of grants and the counters over the rows
--                      of connections and queries, with the constraints of its INSERT.
--                      Access.Requests builds its grants.
--   Access.Requests    internal/store/grant_requests.go: each operation is one transaction with row
--                      locks. Requests.Steps is the step relation of all of them and of
--                      the creation and revocation of grants.
--   Access.Device      internal/store/device_auth.go and internal/store/oauth_states.go: the select,
--                      update and delete of an operation are steps of their own, so that
--                      interleavings can be told.
-- Function names are those of the code in snake_case. Each component has a module of runs (Tests).
-- Prelude holds the shared names: results, maps, lists, sums, bytes, texts and keys.
--
-- Three loops run on fuel, since each round takes as much off the input as the input says:
-- Dump.copy_loop, whose fuel is to be above the length of the file, and read_sections and read_docs
-- of Proxy.Wire.Bodies, which get the number of bytes. Every round takes at least one byte, so this is
-- enough; no result of theirs is that the fuel ran out. The other loops go over a list or count bytes
-- down.
-- Arithmetic wraps where the code's types do: `int64` in Proxy.Limits, a `Duration` in
-- Access.Grants.add_seconds, the 16 bits of a length in Proxy.Oracle.Tns, the fields of a frame in
-- Dump and the `int32` of a header in Proxy.Wire. The counters of Proxy.Postgres are plain numbers.
--
-- Not modelled: failures of the connection to PostgreSQL and the order of listings (store), of the
-- file system (dumps), log lines, metrics and JSON bodies, the tickers of the cleanup goroutines; the
-- start-up and the authentication of the proxies' sessions, and of their relays those of MySQL, MongoDB
-- and Oracle; the formats of parameters, rows and COPY data; the O5LOGON verifiers of API keys and
-- internal/crypto/o5logon.go; users, servers and audit of the store; the other HTTP handlers,
-- Slack notifications, migrations, configuration and the front end.
pub mod Access
pub mod Auth
pub mod Dump
pub mod Prelude
pub mod Proxy
pub mod RateLimit
