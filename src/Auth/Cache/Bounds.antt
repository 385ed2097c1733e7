-- ===== src/Auth/Cache/Bounds.antt =====
-- The size of the cache of internal/cache/auth.go.
use dbbat.Prelude.{
  ℕ, suc, ◌+◌, ◌≤◌, ◌≡◌, ◌≢◌, refl, String, Bool, List, [], ◌∷◌, arith, leb, if◌then◌else◌, length,
  All-keep, length-keep-le, not, Bool-cases, inl, inr, max, Result, ok, err, Option-cases,
}
use dbbat.Prelude.Keys.{string_eq}
use dbbat.Prelude.Maps.{
  Unique, insert-Unique, delete-Unique, keep-Unique, length-insert, length-delete_of_some,
  All-insert, All-delete,
}
use dbbat.Auth.Hash.{HashError}
use dbbat.Auth.Cache.{
  CacheEntry, AuthCache, oldest_loop, evict_oldest, set, live_entry, verify_cached, cleanup, clear,
  new_auth_cache, AuthCacheConfig, store_result,
}
use dbbat.Auth.Cache.Oldest.{KeysPresent, evict_oldest_lem}

-- A cache between two operations.
pub record IsValid (c : AuthCache) : Type 0 where
  pub unique : Unique c.entries
  pub present : KeysPresent c.entries
  pub bounded : length c.entries ≤ max 1 c.max_size

evict_oldest-nil : evict_oldest [] ≡ []
unfolding evict_oldest oldest_loop
evict_oldest-nil = refl

-- What `set` leaves before it inserts: a map as good as before, with room for one more.
make_room :
    (max_size : ℕ) (m : List (String × CacheEntry))
    → Unique m
    → KeysPresent m
    → length m ≤ max 1 max_size
    → let room = if leb max_size (length m) then evict_oldest m else m in
      Unique room × KeysPresent room × (suc (length room) ≤ max 1 max_size)
make_room max_size [] u p b = elim (Bool-cases (leb max_size 0)) [
  | inl e ↦ rw (e, evict_oldest-nil) (tt, tt, omega arith)
  | inr e ↦ rw e (tt, tt, omega arith)
]
make_room max_size (x ∷ m) u p b = elim (Bool-cases (leb max_size (suc (length m)))) [
  | inl full ↦
      let (k, e, hit, old, eq) = evict_oldest_lem (x ∷ m) u p (omega arith) in
      rw (full, eq)
        (
          delete-Unique k _ u,
          All-delete _ k _ p,
          omega (arith, length-delete_of_some k (x ∷ m) e hit),
        )
  | inr some_left ↦ rw some_left (u, p, ground arith)
]

set-IsValid :
    (now : ℕ) (c : AuthCache) (key : String) (valid : Bool)
    → key ≢ ""
    → IsValid c
    → IsValid (set now c key valid)
unfolding set
set-IsValid now c key valid h v =
    let room = if leb c.max_size (length c.entries) then evict_oldest c.entries else c.entries in
    let (u, p, b) = make_room c.max_size c.entries v.unique v.present v.bounded in
    record {
      unique = insert-Unique key _ room u;
      present = All-insert _ key _ room h p;
      bounded =
          ground (arith, length-insert key (record { valid = valid; timestamp = now }) room, b);
    }

store_result-IsValid :
    (later : ℕ) (c : AuthCache) (key : String) (computed : Result HashError Bool)
    → key ≢ ""
    → IsValid c
    → IsValid (store_result later c key computed).1
store_result-IsValid later c key (ok valid) h v =
    unfold store_result in set-IsValid later c key valid h v
store_result-IsValid later c key (err e) h v = unfold store_result in v

-- Two caches with the same entries and sizes are valid together: the counters do not matter.
counted :
    (c : AuthCache) (hits misses : ℕ)
    → IsValid c
    → IsValid (record c { hits = hits; misses = misses })
counted c hits misses v = record { unique = v.unique; present = v.present; bounded = v.bounded }

verify_cached-IsValid :
    (now later : ℕ) (c : AuthCache) (key : String) (computed : Result HashError Bool)
    → key ≢ ""
    → IsValid c
    → IsValid (verify_cached now later c key computed).1
unfolding verify_cached
verify_cached-IsValid now later c key computed h v = elim (Option-cases (live_entry now c key)) [
  | inl miss ↦
      rw (miss, verify_cached)
        (store_result-IsValid later _ key computed h (counted c c.hits (c.misses + 1) v))
  | inr (e, hit) ↦ rw (hit, verify_cached) (counted c (c.hits + 1) c.misses v)
]

cleanup-IsValid : (now : ℕ) (c : AuthCache) → IsValid c → IsValid (cleanup now c)
unfolding cleanup
cleanup-IsValid now c v = record {
  unique = keep-Unique _ c.entries v.unique;
  present = All-keep _ _ c.entries v.present;
  bounded =
      omega
        (arith, length-keep-le (λ x. not (leb (x.1.timestamp + c.ttl) now)) c.entries, v.bounded);
}

-- A cache keeps its shape, with each key once and at most `max_size` entries, or one if that is 0,
-- under a verification with a key that is not empty, a cleanup and a clearing; and a new cache has
-- that shape.
pub operations-IsValid :
    (now later : ℕ) (c : AuthCache) (cfg : AuthCacheConfig) (key : String)
    (computed : Result HashError Bool)
    → key ≢ ""
    → IsValid c
    → IsValid (verify_cached now later c key computed).1
      × IsValid (cleanup now c)
      × IsValid (clear c)
      × IsValid (new_auth_cache cfg)
operations-IsValid now later c cfg key computed h v = (
  verify_cached-IsValid now later c key computed h v,
  cleanup-IsValid now c v,
  unfold clear in record { unique = tt; present = tt; bounded = omega arith },
  unfold new_auth_cache in record { unique = tt; present = tt; bounded = omega arith },
)
