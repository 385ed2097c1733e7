-- ===== src/Auth/Login/Admission.antt =====
-- Whom internal/api/middleware.go accepts, and what its guards let through.
use dbbat.Prelude.{
  ℕ, ◌≡◌, ◌⊎◌, refl, sym, ap, ◌∙◌, subst, String, Bool, true, false, not, ◌&&◌, ◌||◌, Option, none,
  some, List, [], ◌∷◌, arith, ◌==◌, take, drop, is_some, Bool-cases, Option-cases, Result-cases,
  inl, inr, Result, ok, err,
}
use mathlib.Core.List.{Mem, mem-cons_self, mem-cons_of_mem}
use dbbat.Prelude.Keys.{◌=?◌, string_eq}
use dbbat.Prelude.Texts.{codes, has_prefix}
use dbbat.Auth.Hash.{HashLib, HashError}
use dbbat.Auth.Keys.{
  ApiKey, is_web_session, is_revoked, is_expired, verify_api_key, verdict, get_api_key_by_prefix,
  key_prefix_length,
}
use dbbat.Auth.Keys.Revoked.{verify_api_key_inv}
use dbbat.Auth.Failures.{check_rate_limit}
use dbbat.Auth.Login.{
  User, Server, Clock, Identity, basic, accepted, basic_judged, basic_user, bearer_key, method_of,
  password_verdict, get_user_by_username, get_user_by_uid, handle_basic_auth, handle_bearer_auth,
  auth_middleware, require_basic_auth, require_web_session_or_basic_auth,
}

username_alive :
    (username : String) (users : List User) (u : User)
    → get_user_by_username username users ≡ some u
    → Mem u users × (u.username ≡ username) × (is_some u.deleted_at ≡ false)
unfolding get_user_by_username
username_alive username [] u h = absurd (ground (arith, h))
username_alive username (x ∷ users) u h =
    elim (Bool-cases ((x.username =? username) && not (is_some x.deleted_at))) [
      | inl this ↦
          let same : x ≡ u = ground (arith, h, this) in
          subst (λ y. Mem y (x ∷ users) × (y.username ≡ username) × (is_some y.deleted_at ≡ false))
            same
            (
              mem-cons_self,
              (string_eq.beq_iff x.username username).0 (ground (arith, this)),
              ground (arith, this),
            )
      | inr other ↦
          let (m, name, alive) = username_alive username users u (ground (arith, h, other)) in
          (mem-cons_of_mem x m, name, alive)
    ]

uid_alive :
    (uid : ℕ) (users : List User) (u : User)
    → get_user_by_uid uid users ≡ some u
    → Mem u users × (u.uid ≡ uid) × (is_some u.deleted_at ≡ false)
unfolding get_user_by_uid
uid_alive uid [] u h = absurd (ground (arith, h))
uid_alive uid (x ∷ users) u h = elim (Bool-cases ((x.uid == uid) && not (is_some x.deleted_at))) [
  | inl this ↦
      let same : x ≡ u = ground (arith, h, this) in
      subst (λ y. Mem y (x ∷ users) × (y.uid ≡ uid) × (is_some y.deleted_at ≡ false)) same
        (mem-cons_self, ground (arith, this), ground (arith, this))
  | inr other ↦
      let (m, same, alive) = uid_alive uid users u (ground (arith, h, other)) in
      (mem-cons_of_mem x m, same, alive)
]

-- What the guards say of an identity of either kind.
abbrev Guarded : Identity → Type 0
Guarded i =
    (require_web_session_or_basic_auth (some i)
      ≡ elim i.key [ none ↦ true | some k ↦ is_web_session k ])
    × (require_basic_auth (some i) ≡ not (is_some i.key))

by_password : (i : Identity) → i.method ≡ basic → i.key ≡ none → Guarded i
by_password i method key = (ground (arith, method, key), ground (arith, method, key))

by_key : (i : Identity) (k : ApiKey) → i.method ≡ method_of k → i.key ≡ some k → Guarded i
by_key i k method key = (ground (arith, method, key), ground (arith, method, key))

module _ (lib : HashLib) (hex_sha256 : List ℕ → String) (uuid_text : ℕ → List ℕ) where
  -- A password is right, of a user who is not deleted, and the user is not locked out, or in test mode.
  abbrev pub ByPassword : Clock → Option (String × List ℕ) → Server → Identity → Type 0
  ByPassword t credentials s i =
      (username : String) × (password : List ℕ) × (credentials ≡ some (username, password))
      × (i.method ≡ basic)
      × (i.key ≡ none)
      × Mem i.user s.users
      × (i.user.username ≡ username)
      × (is_some i.user.deleted_at ≡ false)
      × ((password_verdict lib hex_sha256 uuid_text t s.cache i.user password).0 ≡ ok true)
      × ((s.is_test_mode || (check_rate_limit t.checked t.until username s.failures).0) ≡ true)

  -- A token is the key that its prefix finds, which is neither revoked nor expired, of a user who is not
  -- deleted.
  abbrev pub ByKey : Clock → List ℕ → Server → Identity → Type 0
  ByKey t token s i =
      (k : ApiKey) × (get_api_key_by_prefix (take key_prefix_length token) s.keys ≡ ok k)
      × (i.method ≡ method_of k)
      × (i.key ≡ some k)
      × Mem i.user s.users
      × (i.user.uid ≡ k.user_id)
      × (is_some i.user.deleted_at ≡ false)
      × (is_revoked k ≡ false)
      × (is_expired t.looked k ≡ false)
      × ((verdict lib hex_sha256 t.looked t.stored s.cache token k.key_hash).0 ≡ ok true)

  judged_accepts :
      (t : Clock) (username : String) (user : User) (s : Server) (r : Result HashError Bool)
      (i : Identity)
      → (basic_judged t username user s r).0 ≡ accepted i
      → (i ≡ record { user = user; key = none; method = basic }) × (r ≡ ok true)
  unfolding basic_judged
  judged_accepts t username user s (err e) i h = absurd (ground (arith, h))
  judged_accepts t username user s (ok true) i h = (ground (arith, h), refl)
  judged_accepts t username user s (ok false) i h = absurd (ground (arith, h))

  handle_basic_auth-ByPassword :
      (t : Clock) (credentials : Option (String × List ℕ)) (s : Server) (i : Identity)
      → (handle_basic_auth lib hex_sha256 uuid_text t credentials s).0 ≡ accepted i
      → ByPassword t credentials s i
  unfolding handle_basic_auth basic_user
  handle_basic_auth-ByPassword t none s i h = absurd (ground (arith, h))
  handle_basic_auth-ByPassword t (some (username, password)) s i h =
      elim (Bool-cases
        (not s.is_test_mode && not (check_rate_limit t.checked t.until username s.failures).0)) [
          | inl refused ↦ absurd (ground (arith, h, refused))
          | inr tried ↦ elim (Option-cases (get_user_by_username username s.users)) [
            | inl unknown ↦ absurd (ground (arith, h, tried, unknown))
            | inr (user, found) ↦
                let (r, cache') =
                  password_verdict lib hex_sha256 uuid_text t s.cache user password in
                let (same, right) =
                  judged_accepts t username user (record s { cache = cache' }) r i
                    (ground (arith, h, tried, found)) in
                let (row, name, alive) = username_alive username s.users user found in
                (
                  username,
                  password,
                  refl,
                  ap (λ x. x.method) same,
                  ap (λ x. x.key) same,
                  subst (λ x. Mem x s.users) (sym (ap (λ x. x.user) same)) row,
                  ap (λ x. x.user.username) same ∙ name,
                  ap (λ x. is_some x.user.deleted_at) same ∙ alive,
                  ap (λ x. (password_verdict lib hex_sha256 uuid_text t s.cache x.user password).0)
                        same
                      ∙ right,
                  ground (arith, tried),
                )
          ]
        ]

  handle_bearer_auth-ByKey :
      (t : Clock) (token : List ℕ) (s : Server) (i : Identity)
      → (handle_bearer_auth lib hex_sha256 uuid_text t token s).0 ≡ accepted i
      → ByKey t token s i
  unfolding handle_bearer_auth bearer_key
  handle_bearer_auth-ByKey t token s i h =
      elim (Result-cases (verify_api_key lib hex_sha256 t.looked t.stored s.cache token s.keys).0) [
        | inr (e, bad) ↦ absurd (ground (arith, h, bad))
        | inl (k, good) ↦ elim (Option-cases (get_user_by_uid k.user_id s.users)) [
          | inl unknown ↦ absurd (ground (arith, h, good, unknown))
          | inr (user, found) ↦
              let (got, fresh, young, right) =
                verify_api_key_inv lib hex_sha256 t.looked t.stored s.cache token s.keys k good in
              let (row, uid, alive) = uid_alive k.user_id s.users user found in
              let same : i ≡ record { user = user; key = some k; method = method_of k } =
                ground (arith, h, good, found) in
              (
                k,
                got,
                ap (λ x. x.method) same,
                ap (λ x. x.key) same,
                subst (λ x. Mem x s.users) (sym (ap (λ x. x.user) same)) row,
                ap (λ x. x.user.uid) same ∙ uid,
                ap (λ x. is_some x.user.deleted_at) same ∙ alive,
                fresh,
                young,
                right,
              )
        ]
      ]

  -- A request that the middleware accepts is either one with Basic credentials, whose user exists, is not
  -- deleted and not locked out (outside of test mode), and whose password the verification or its cache
  -- says is right; or one with a bearer token, whose key is neither revoked nor expired, whose hash
  -- agrees with the token by the same, and whose user exists and is not deleted. The identity is that
  -- user's, with the method that fits.
  pub auth_middleware-accepted :
      (basic_auth : List ℕ → Option (String × List ℕ)) (t : Clock) (header : List ℕ) (s : Server)
      (i : Identity)
      → (auth_middleware lib hex_sha256 uuid_text basic_auth t header s).0 ≡ accepted i
      → ByPassword t (basic_auth header) s i ⊎ ByKey t (drop 7 header) s i
  unfolding auth_middleware
  auth_middleware-accepted basic_auth t header s i h =
      elim (Bool-cases (has_prefix header (codes "Bearer "))) [
        | inl bearer ↦
            inr (handle_bearer_auth-ByKey t (drop 7 header) s i (ground (arith, h, bearer)))
        | inr other ↦
            inl (handle_basic_auth-ByPassword t (basic_auth header) s i (ground (arith, h, other)))
      ]

  -- Of a request that the middleware accepts, the guard on the management of keys lets through those
  -- with a password or a web session, and the guard on sensitive operations those with a password; an
  -- API key passes neither.
  pub require-auth_middleware :
      (basic_auth : List ℕ → Option (String × List ℕ)) (t : Clock) (header : List ℕ) (s : Server)
      (i : Identity)
      → (auth_middleware lib hex_sha256 uuid_text basic_auth t header s).0 ≡ accepted i
      → (require_web_session_or_basic_auth (some i)
          ≡ elim i.key [ none ↦ true | some k ↦ is_web_session k ])
        × (require_basic_auth (some i) ≡ not (is_some i.key))
  require-auth_middleware basic_auth t header s i h =
      elim (auth_middleware-accepted basic_auth t header s i h) [
        | inl (_, _, _, method, key, _, _, _, _, _) ↦ by_password i method key
        | inr (k, _, method, key, _, _, _, _, _, _) ↦ by_key i k method key
      ]
