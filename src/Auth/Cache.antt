-- ===== src/Auth/Cache.antt =====
-- The cache of password verdicts of internal/cache/auth.go. Times are nanoseconds; each reading
-- of the clock is an argument. The TTL and the size are the non-negative numbers of the
-- configuration. An operation is modelled without another one between its critical sections.
pub mod Oldest
pub mod Bounds
pub mod Sound
pub mod Answered
pub mod Expiry
mod Tests
use dbbat.Prelude.{
  ℕ, suc, ◌+◌, ◌*◌, String, Bool, true, false, not, ◌&&◌, ◌||◌, Option, none, some, List, [], ◌∷◌,
  ◌++◌, ltb, leb, if◌then◌else◌, length, take, keep, Result, ok, err,
}
use dbbat.Prelude.Keys.{string_eq, ◌=?◌}
use dbbat.Prelude.Maps.{lookup, insert, delete}
use dbbat.Auth.Hash.{HashLib, HashError, verify_password}

pub record CacheEntry : Type 0 where
  pub valid : Bool
  pub timestamp : ℕ

pub record AuthCache : Type 0 where
  pub entries : List (String × CacheEntry)
  pub ttl : ℕ
  pub max_size : ℕ
  pub enabled : Bool
  pub hits : ℕ
  pub misses : ℕ

pub record AuthCacheConfig : Type 0 where
  pub enabled : Bool
  pub ttl_seconds : ℕ
  pub max_size : ℕ

-- `NewAuthCache`, without the start of the cleanup goroutine and the log line
pub new_auth_cache : AuthCacheConfig → AuthCache
new_auth_cache cfg = record {
  entries = [];
  ttl = cfg.ttl_seconds * 1_000_000_000;
  max_size = cfg.max_size;
  enabled = cfg.enabled;
  hits = 0;
  misses = 0;
}

-- The loop of `evictOldest`, over the entries in whatever order the map gives them.
pub oldest_loop : String → ℕ → List (String × CacheEntry) → String × ℕ
oldest_loop oldest_key oldest_time [] = (oldest_key, oldest_time)
oldest_loop oldest_key oldest_time ((key, entry) ∷ rest) =
    let older = (oldest_key =? "") || ltb entry.timestamp oldest_time in
    oldest_loop (if older then key else oldest_key) (if older then entry.timestamp else oldest_time)
      rest

-- `evictOldest`
pub evict_oldest : List (String × CacheEntry) → List (String × CacheEntry)
evict_oldest entries =
    let oldest_key = (oldest_loop "" 0 entries).0 in
    if oldest_key =? "" then entries else delete oldest_key entries

-- `set`
pub set : ℕ → AuthCache → String → Bool → AuthCache
set now c key valid =
    let room = if leb c.max_size (length c.entries) then evict_oldest c.entries else c.entries in
    record c { entries = insert key (record { valid = valid; timestamp = now }) room }

-- `time.Since(entry.timestamp) < c.ttl`
abbrev pub is_live : ℕ → ℕ → CacheEntry → Bool
is_live now ttl entry = ltb now (entry.timestamp + ttl)

-- The entry of the key, if it is found and has not expired.
pub live_entry : ℕ → AuthCache → String → Option CacheEntry
live_entry now c key = elim (lookup key c.entries) [
  | none ↦ none
  | some entry ↦ if is_live now c.ttl entry then some entry else none
]

store_result : ℕ → AuthCache → String → Result HashError Bool → Result HashError Bool × AuthCache
unfolding set
store_result later c key (err e) = (err e, c)
store_result later c key (ok valid) = (ok valid, set later c key valid)

-- What `VerifyPassword` and `VerifyKey` share: the look into the cache at `now`, and on a miss the
-- verification, whose result is `computed`, and the store at `later`.
pub verify_cached :
    ℕ → ℕ → AuthCache → String → Result HashError Bool → Result HashError Bool × AuthCache
unfolding store_result
verify_cached now later c key computed = elim (live_entry now c key) [
  | some entry ↦ (ok entry.valid, record c { hits = c.hits + 1 })
  | none ↦ store_result later (record c { misses = c.misses + 1 }) key computed
]

-- `cleanup`
pub cleanup : ℕ → AuthCache → AuthCache
cleanup now c = record c { entries = keep (λ x. not (leb (x.1.timestamp + c.ttl) now)) c.entries }

-- `Clear`
pub clear : AuthCache → AuthCache
clear c = record c { entries = [] }

-- `Stats`
pub stats : AuthCache → ℕ × ℕ × ℕ
stats c = (c.hits, c.misses, length c.entries)

-- The bytes that `computeKey` digests: the user, the password and at most 32 bytes of the hash.
pub key_data : List ℕ → List ℕ → List ℕ → List ℕ
key_data user_id password stored_hash =
    let hash_prefix = if ltb 32 (length stored_hash) then take 32 stored_hash else stored_hash in
    user_id ++ (b':' ∷ (password ++ (b':' ∷ hash_prefix)))

-- `hex_sha256` stands for `sha256.Sum256` printed in hexadecimal.
module _ (lib : HashLib) (hex_sha256 : List ℕ → String) where
  -- `computeKey`, `computeKeyHash`
  pub compute_key : List ℕ → List ℕ → List ℕ → String
  compute_key user_id password stored_hash = hex_sha256 (key_data user_id password stored_hash)

  pub compute_key_hash : List ℕ → String
  compute_key_hash plain_key = hex_sha256 plain_key

  -- `AuthCache.VerifyPassword`
  pub verify_user_password :
      ℕ → ℕ → AuthCache → List ℕ → List ℕ → List ℕ → Result HashError Bool × AuthCache
  verify_user_password now later c user_id password stored_hash =
      if c.enabled
      then verify_cached now later c (compute_key user_id password stored_hash)
          (verify_password lib stored_hash password)
      else (verify_password lib stored_hash password, c)

  -- `AuthCache.VerifyKey`
  pub verify_key : ℕ → ℕ → AuthCache → List ℕ → List ℕ → Result HashError Bool × AuthCache
  verify_key now later c plain_key stored_hash =
      if c.enabled
      then verify_cached now later c (compute_key_hash plain_key)
          (verify_password lib stored_hash plain_key)
      else (verify_password lib stored_hash plain_key, c)
