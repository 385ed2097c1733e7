-- ===== src/Auth/Keys.antt =====
-- internal/store/api_keys.go: the table of API keys. Texts of keys and hashes are lists of bytes. What
-- `rand.Read` delivers, a salt or the characters of a key, and the id that the database gives to a row
-- are arguments. Failures of the connection and the O5LOGON verifiers are left out.
pub mod Prefixes
pub mod Revoked
pub mod Creation
mod Tests
use dbbat.Prelude.{
  ℕ, suc, ◌+◌, ◌*◌, ◌%◌, String, Bool, true, false, not, ◌&&◌, ◌||◌, Option, none, some, List, [],
  ◌∷◌, ◌++◌, map, ltb, ◌==◌, if◌then◌else◌, length, take, get_or, is_some, Result, ok, err, ◌>>=◌,
}
use dbbat.Prelude.Keys.{◌=?◌, nats_eq}
use dbbat.Auth.Hash.{HashLib, HashParams, HashError, hash_password_with_params, verify_password}
use dbbat.Auth.Cache.{AuthCache, verify_key}

-- `KeyTypeAPI`, `KeyTypeWeb`
pub data KeyType : Type 0 where
  api web : KeyType

pub record ApiKey : Type 0 where
  pub id : ℕ
  pub user_id : ℕ
  pub name : String
  pub key_hash : List ℕ
  pub key_prefix : List ℕ
  pub key_type : KeyType
  pub expires_at : Option ℕ
  pub last_used_at : Option ℕ
  pub request_count : ℕ
  pub created_at : ℕ
  pub revoked_at : Option ℕ
  pub revoked_by : Option ℕ

-- `conflict` is a violation of the primary key or of `unique_key_prefix`.
pub data KeyError : Type 0 where
  key_not_found key_revoked key_expired key_too_short conflict : KeyError

abbrev pub key_prefix_length : ℕ
key_prefix_length = 8

abbrev pub web_session_max_duration : ℕ
web_session_max_duration = 3600 * 1_000_000_000

-- `dbb_` and `web_`
abbrev pub api_key_prefix : List ℕ
api_key_prefix = b'd' ∷ b'b' ∷ b'b' ∷ b'_' ∷ []

abbrev pub web_key_prefix : List ℕ
web_key_prefix = b'w' ∷ b'e' ∷ b'b' ∷ b'_' ∷ []

-- `charset[n]`: the letters, and the digits behind them.
abbrev pub char_at : ℕ → ℕ
char_at n = if ltb n 26 then b'a' + n else 22 + n

-- `generateKey`: the key and its prefix.
pub generate_key : List ℕ → List ℕ → List ℕ × List ℕ
generate_key prefix random_bytes =
    let full_key = prefix ++ map (λ b. char_at (b % 36)) random_bytes in
    (full_key, take key_prefix_length full_key)

-- The constraints of the table.
unfoldable pub has_id : ℕ → List ApiKey → Bool
has_id id [] = false
has_id id (k ∷ keys) = (k.id == id) || has_id id keys

unfoldable pub has_key_prefix : List ℕ → List ApiKey → Bool
has_key_prefix prefix [] = false
has_key_prefix prefix (k ∷ keys) = (k.key_prefix =? prefix) || has_key_prefix prefix keys

pub insert_key : ApiKey → List ApiKey → Result KeyError (ApiKey × List ApiKey)
unfolding has_id has_key_prefix
insert_key k keys =
    if has_id k.id keys || has_key_prefix k.key_prefix keys
    then err conflict
    else ok (k, keys ++ k ∷ [])

-- `GetAPIKeyByPrefix`
unfoldable pub get_api_key_by_prefix : List ℕ → List ApiKey → Result KeyError ApiKey
get_api_key_by_prefix prefix [] = err key_not_found
get_api_key_by_prefix prefix (k ∷ keys) =
    if k.key_prefix =? prefix then ok k else get_api_key_by_prefix prefix keys

-- `RevokeAPIKey`: the update, over the rows.
abbrev pub revoked_row : ℕ → ℕ → ℕ → ApiKey → ApiKey
revoked_row now id revoked_by k =
    if (k.id == id) && not (is_some k.revoked_at)
    then record k { revoked_at = some now; revoked_by = some revoked_by }
    else k

unfoldable pub count_open : ℕ → List ApiKey → ℕ
count_open id [] = 0
count_open id (k ∷ keys) =
    let rest = count_open id keys in
    if (k.id == id) && not (is_some k.revoked_at) then suc rest else rest

pub revoke_api_key : ℕ → ℕ → ℕ → List ApiKey → Result KeyError (List ApiKey)
unfolding count_open
revoke_api_key now id revoked_by keys =
    if count_open id keys == 0
    then err key_not_found
    else ok (map (revoked_row now id revoked_by) keys)

-- `IncrementAPIKeyUsage`
abbrev pub used_row : ℕ → ℕ → ApiKey → ApiKey
used_row now id k =
    if k.id == id
    then record k { last_used_at = some now; request_count = k.request_count + 1 }
    else k

pub increment_api_key_usage : ℕ → ℕ → List ApiKey → List ApiKey
increment_api_key_usage now id keys = map (used_row now id) keys

-- `IsRevoked`, `IsExpired` and `IsWebSession` of internal/store/models.go
abbrev pub is_revoked : ApiKey → Bool
is_revoked k = is_some k.revoked_at

abbrev pub is_expired : ℕ → ApiKey → Bool
is_expired now k = elim k.expires_at [ none ↦ false | some e ↦ ltb e now ]

abbrev pub is_web_session : ApiKey → Bool
is_web_session k = elim k.key_type [ web ↦ true | api ↦ false ]

-- The checks behind the verdict on the hash.
pub check_state : ℕ → ApiKey → Result KeyError ApiKey
check_state now k =
    if is_revoked k then err key_revoked else if is_expired now k then err key_expired else ok k

pub judged : ℕ → ApiKey → Result HashError Bool → Result KeyError ApiKey
unfolding check_state
judged now k (err e) = err key_not_found
judged now k (ok valid) = if valid then check_state now k else err key_not_found

-- `params` are the parameters of `HashPassword`.
module _ (lib : HashLib) (params : HashParams) where
  -- The insert that the three creations share, for a key that is long enough to have a prefix.
  pub create_row :
      ℕ
      → ℕ
      → ℕ
      → String
      → KeyType
      → List ℕ
      → Option ℕ
      → List ℕ
      → List ApiKey
      → Result KeyError (ApiKey × List ApiKey)
  unfolding insert_key
  create_row now id user_id name key_type plain_key expires_at salt keys =
      insert_key
        (record {
          id = id;
          user_id = user_id;
          name = name;
          key_hash = hash_password_with_params lib plain_key params salt;
          key_prefix = take key_prefix_length plain_key;
          key_type = key_type;
          expires_at = expires_at;
          last_used_at = none;
          request_count = 0;
          created_at = now;
          revoked_at = none;
          revoked_by = none;
        })
        keys

  -- `CreateAPIKeyWithValue`
  pub create_api_key_with_value :
      ℕ
      → ℕ
      → ℕ
      → String
      → List ℕ
      → Option ℕ
      → List ℕ
      → List ApiKey
      → Result KeyError (ApiKey × List ApiKey)
  unfolding create_row
  create_api_key_with_value now id user_id name plain_key expires_at salt keys =
      if ltb (length plain_key) key_prefix_length
      then err key_too_short
      else create_row now id user_id name api plain_key expires_at salt keys

  -- `CreateAPIKey` and `CreateWebSession`: the row, and the key, which is shown once.
  pub create_api_key :
      ℕ
      → ℕ
      → ℕ
      → String
      → List ℕ
      → Option ℕ
      → List ℕ
      → List ApiKey
      → Result KeyError ((ApiKey × List ApiKey) × List ℕ)
  unfolding create_row generate_key
  create_api_key now id user_id name random_bytes expires_at salt keys =
      let plain_key = (generate_key api_key_prefix random_bytes).0 in
      create_row now id user_id name api plain_key expires_at salt keys >>= λ row.
      ok (row, plain_key)

  pub create_web_session :
      ℕ → ℕ → ℕ → List ℕ → List ℕ → List ApiKey → Result KeyError ((ApiKey × List ApiKey) × List ℕ)
  unfolding create_row generate_key
  create_web_session now id user_id random_bytes salt keys =
      let plain_key = (generate_key web_key_prefix random_bytes).0 in
      create_row now id user_id "Web Session" web plain_key (some (now + web_session_max_duration))
        salt keys
      >>= λ row. ok (row, plain_key)

-- `hex_sha256` is the digest of the cache, as there.
module _ (lib : HashLib) (hex_sha256 : List ℕ → String) where
  -- The verdict on the hash, by the cache if there is one, which reads the clock at `now` and `later`.
  pub verdict :
      ℕ → ℕ → Option AuthCache → List ℕ → List ℕ → Result HashError Bool × Option AuthCache
  verdict now later none plain_key key_hash = (verify_password lib key_hash plain_key, none)
  verdict now later (some c) plain_key key_hash =
      let (r, c') = verify_key lib hex_sha256 now later c plain_key key_hash in (r, some c')

  verify_found :
      ℕ
      → ℕ
      → Option AuthCache
      → List ℕ
      → Result KeyError ApiKey
      → Result KeyError ApiKey × Option AuthCache
  unfolding verdict judged
  verify_found now later cache plain_key (err e) = (err e, cache)
  verify_found now later cache plain_key (ok k) =
      let (r, cache') = verdict now later cache plain_key k.key_hash in (judged now k r, cache')

  -- `VerifyAPIKey`; its later readings of the clock are `now` too.
  pub verify_api_key :
      ℕ → ℕ → Option AuthCache → List ℕ → List ApiKey → Result KeyError ApiKey × Option AuthCache
  unfolding verify_found
  verify_api_key now later cache plain_key keys =
      if ltb (length plain_key) key_prefix_length
      then (err key_not_found, cache)
      else verify_found now later cache plain_key
          (get_api_key_by_prefix (take key_prefix_length plain_key) keys)
