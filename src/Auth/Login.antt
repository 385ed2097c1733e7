-- ===== src/Auth/Login.antt =====
-- internal/api/middleware.go: who a request comes from, and what it may do. The server's state is what
-- the handlers read of it and write to it; the use of a key, which a goroutine writes down, is written at
-- once. Parsing Basic credentials is that of `net/http`, a parameter.
pub mod Lockout
pub mod Admission
mod Tests
use dbbat.Prelude.{
  ℕ, String, Bool, true, false, not, ◌&&◌, ◌||◌, Option, none, some, List, [], ◌∷◌, ◌==◌,
  if◌then◌else◌, drop, is_some, Result, ok, err,
}
use dbbat.Prelude.Keys.{◌=?◌, string_eq}
use dbbat.Prelude.Texts.{codes, has_prefix}
use dbbat.Auth.Hash.{HashLib, HashError, verify_password}
use dbbat.Auth.Cache.{AuthCache, verify_user_password}
use dbbat.Auth.Keys.{ApiKey, KeyError, is_web_session, verify_api_key, increment_api_key_usage}
use dbbat.Auth.Failures.{FailureRecord, check_rate_limit, record_failure, reset_failures}

pub record User : Type 0 where
  pub uid : ℕ
  pub username : String
  pub password_hash : List ℕ
  pub roles : List String
  pub deleted_at : Option ℕ

pub record Server : Type 0 where
  pub users : List User
  pub keys : List ApiKey
  pub cache : Option AuthCache
  pub failures : List (String × FailureRecord)
  pub is_test_mode : Bool

-- The readings of the clock, in the order of the code: two for the rate limit, two for the verdict and
-- two for a failure.
pub record Clock : Type 0 where
  pub checked : ℕ
  pub until : ℕ
  pub looked : ℕ
  pub stored : ℕ
  pub since : ℕ
  pub dated : ℕ

-- `authMethodBasic`, `authMethodAPIKey`, `authMethodWebSession`
pub data AuthMethod : Type 0 where
  basic api_key web_session : AuthMethod

-- What a request's context holds once it is accepted.
pub record Identity : Type 0 where
  pub user : User
  pub key : Option ApiKey
  pub method : AuthMethod

pub data AuthReply : Type 0 where
  accepted : Identity → AuthReply
  rate_limited : ℕ → AuthReply
  unauthorized invalid_credentials invalid_api_key user_not_found : AuthReply

-- `GetUserByUsername` and `GetUserByUID` of internal/store/users.go; deleted users are not seen.
unfoldable pub get_user_by_username : String → List User → Option User
get_user_by_username username [] = none
get_user_by_username username (u ∷ users) =
    let rest = get_user_by_username username users in
    if (u.username =? username) && not (is_some u.deleted_at) then some u else rest

unfoldable pub get_user_by_uid : ℕ → List User → Option User
get_user_by_uid uid [] = none
get_user_by_uid uid (u ∷ users) =
    let rest = get_user_by_uid uid users in
    if (u.uid == uid) && not (is_some u.deleted_at) then some u else rest

-- A login that failed, and one that succeeded.
abbrev pub failed_login : Clock → String → Server → AuthReply × Server
failed_login t username s = (
  invalid_credentials,
  record s { failures = record_failure t.since t.dated username s.failures },
)

abbrev pub passed_login : String → User → Server → AuthReply × Server
passed_login username user s = (
  accepted (record { user = user; key = none; method = basic }),
  record s { failures = reset_failures username s.failures },
)

pub basic_judged : Clock → String → User → Server → Result HashError Bool → AuthReply × Server
basic_judged t username user s (err e) = failed_login t username s
basic_judged t username user s (ok valid) =
    if valid then passed_login username user s else failed_login t username s

-- The method of a key.
abbrev pub method_of : ApiKey → AuthMethod
method_of k = if is_web_session k then web_session else api_key

abbrev pub bearer_user : Clock → ApiKey → Server → Option User → AuthReply × Server
bearer_user t k s none = (user_not_found, s)
bearer_user t k s (some user) = (
  accepted (record { user = user; key = some k; method = method_of k }),
  record s { keys = increment_api_key_usage t.dated k.id s.keys },
)

bearer_key : Clock → Server → Result KeyError ApiKey → AuthReply × Server
bearer_key t s (err e) = (invalid_api_key, s)
bearer_key t s (ok k) = bearer_user t k s (get_user_by_uid k.user_id s.users)

-- `hex_sha256` is the digest of the cache and `uuid_text` the text of a UUID.
module _ (lib : HashLib) (hex_sha256 : List ℕ → String) (uuid_text : ℕ → List ℕ) where
  -- The verdict on a password, by the cache if there is one.
  pub password_verdict :
      Clock → Option AuthCache → User → List ℕ → Result HashError Bool × Option AuthCache
  password_verdict t none user password = (verify_password lib user.password_hash password, none)
  password_verdict t (some c) user password =
      let (r, c') =
        verify_user_password lib hex_sha256 t.looked t.stored c (uuid_text user.uid) password
          user.password_hash in
      (r, some c')

  basic_user : Clock → String → List ℕ → Server → Option User → AuthReply × Server
  unfolding basic_judged password_verdict
  basic_user t username password s none = failed_login t username s
  basic_user t username password s (some user) =
      let (r, cache') = password_verdict t s.cache user password in
      basic_judged t username user (record s { cache = cache' }) r

  -- `handleBasicAuth`, on the credentials that the request has.
  pub handle_basic_auth : Clock → Option (String × List ℕ) → Server → AuthReply × Server
  unfolding basic_user
  handle_basic_auth t none s = (unauthorized, s)
  handle_basic_auth t (some (username, password)) s =
      let (allowed, retry_after) = check_rate_limit t.checked t.until username s.failures in
      if not s.is_test_mode && not allowed
      then (rate_limited retry_after, s)
      else basic_user t username password s (get_user_by_username username s.users)

  -- `handleBearerAuth`
  pub handle_bearer_auth : Clock → List ℕ → Server → AuthReply × Server
  unfolding bearer_key
  handle_bearer_auth t token s =
      let (r, cache') = verify_api_key lib hex_sha256 t.looked t.stored s.cache token s.keys in
      bearer_key t (record s { cache = cache' }) r

  -- `authMiddleware`, on the text of the header.
  pub auth_middleware :
      (List ℕ → Option (String × List ℕ)) → Clock → List ℕ → Server → AuthReply × Server
  unfolding handle_basic_auth handle_bearer_auth
  auth_middleware basic_auth t header s =
      if has_prefix header (codes "Bearer ")
      then handle_bearer_auth t (drop 7 header) s
      else handle_basic_auth t (basic_auth header) s

-- `HasRole`
unfoldable pub has_role : String → List String → Bool
has_role role [] = false
has_role role (r ∷ roles) = (r =? role) || has_role role roles

-- The guards behind the middleware: whether the request goes on. A request without an identity has none.
abbrev pub require_role : String → Option Identity → Bool
require_role role none = false
require_role role (some i) = has_role role i.user.roles

abbrev pub require_admin : Option Identity → Bool
require_admin i = require_role "admin" i

abbrev pub require_admin_or_viewer : Option Identity → Bool
require_admin_or_viewer i = require_role "admin" i || require_role "viewer" i

abbrev pub require_basic_auth : Option Identity → Bool
require_basic_auth none = false
require_basic_auth (some i) = elim i.method [ basic ↦ true | _ ↦ false ]

abbrev pub require_web_session_or_basic_auth : Option Identity → Bool
require_web_session_or_basic_auth none = false
require_web_session_or_basic_auth (some i) = elim i.method [ api_key ↦ false | _ ↦ true ]
