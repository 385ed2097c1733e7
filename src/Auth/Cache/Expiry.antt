-- ===== src/Auth/Cache/Expiry.antt =====
-- When the cache of internal/cache/auth.go answers without a verification, and until when.
use dbbat.Prelude.{
  false, ◌∙◌, ap, ℕ, ◌+◌, ◌≤◌, ◌<◌, ◌≡◌, refl, String, Bool, true, none, some, Option, List, arith,
  leb, length, take, lt→ltb, if◌then◌else◌, not, inl, inr, Option-cases, Result, ok, err,
}
use dbbat.Prelude.Keys.{string_eq}
use dbbat.Prelude.Maps.{lookup, Unique, lookup-insert_self, lookup-keep}
use dbbat.Auth.Hash.{HashLib, HashError, verify_password}
use dbbat.Auth.Cache.{
  verify_key, compute_key_hash, evict_oldest, AuthCache, CacheEntry, live_entry, verify_cached,
  store_result, set, cleanup, key_data, compute_key, verify_user_password,
}

live_entry-cleanup :
    (now later : ℕ) (c : AuthCache) (key : String)
    → now ≤ later
    → Unique c.entries
    → live_entry later (cleanup now c) key ≡ live_entry later c key
unfolding live_entry cleanup
live_entry-cleanup now later c key h u =
    let kept = lookup-keep (λ e. not (leb (e.timestamp + c.ttl) now)) key c.entries u in
    elim (Option-cases (lookup key c.entries)) [
      | inl miss ↦ rw (kept, miss, live_entry)
      | inr (e, hit) ↦ rw (kept, hit, live_entry) (ground arith)
    ]

-- On a miss the answer is what was computed, and on a hit the verdict of the entry.
store_result-answer :
    (later : ℕ) (c : AuthCache) (key : String) (computed : Result HashError Bool)
    → (store_result later c key computed).0 ≡ computed
unfolding store_result
store_result-answer later c key (ok valid) = refl
store_result-answer later c key (err e) = refl

abbrev pub answer_of : Option CacheEntry → Result HashError Bool → Result HashError Bool
answer_of none computed = computed
answer_of (some e) computed = ok e.valid

pub verify_cached-answer :
    (now later : ℕ) (c : AuthCache) (key : String) (computed : Result HashError Bool)
    → (verify_cached now later c key computed).0 ≡ answer_of (live_entry now c key) computed
unfolding verify_cached
verify_cached-answer now later c key computed = elim (Option-cases (live_entry now c key)) [
  | inl miss ↦
      rw (miss, verify_cached)
        (store_result-answer later (record c { misses = c.misses + 1 }) key computed)
  | inr (e, hit) ↦ rw (hit, verify_cached)
]

either_way :
    (b : Bool) (x y : Result HashError Bool × AuthCache) (r : Result HashError Bool)
    → x.0 ≡ r
    → y.0 ≡ r
    → (if b then x else y).0 ≡ r
either_way true x y r p q = p
either_way false x y r p q = q

pub verify_key-answer :
    (lib : HashLib) (hex_sha256 : List ℕ → String) (now later : ℕ) (c : AuthCache)
    (plain_key stored_hash : List ℕ)
    → live_entry now c (compute_key_hash lib hex_sha256 plain_key) ≡ none
    → (verify_key lib hex_sha256 now later c plain_key stored_hash).0
      ≡ verify_password lib stored_hash plain_key
unfolding verify_key
verify_key-answer lib hex_sha256 now later c plain_key stored_hash miss =
    let key = compute_key_hash lib hex_sha256 plain_key in
    let computed = verify_password lib stored_hash plain_key in
    either_way c.enabled (verify_cached now later c key computed) (computed, c) computed
      (verify_cached-answer now later c key computed ∙ ap (λ o. answer_of o computed) miss) refl

-- A cleanup at `now` changes no answer that is given at `now` or later, on a cache whose map has
-- each key once.
pub verify_cached-cleanup :
    (now now' later : ℕ) (c : AuthCache) (key : String) (computed : Result HashError Bool)
    → now ≤ now'
    → Unique c.entries
    → (verify_cached now' later (cleanup now c) key computed).0
      ≡ (verify_cached now' later c key computed).0
verify_cached-cleanup now now' later c key computed h u = rw (
  verify_cached-answer now' later (cleanup now c) key computed,
  verify_cached-answer now' later c key computed,
  live_entry-cleanup now now' c key h u,
)

live_entry-set :
    (now later : ℕ) (c : AuthCache) (key : String) (valid : Bool)
    → later < now + c.ttl
    → live_entry later (set now c key valid) key ≡ some (record { valid = valid; timestamp = now })
unfolding live_entry set
live_entry-set now later c key valid h =
    let room = if leb c.max_size (length c.entries) then evict_oldest c.entries else c.entries in
    rw (lookup-insert_self key (record { valid = valid; timestamp = now }) room, live_entry)
      (ground arith)

verify_cached-miss :
    (now later : ℕ) (c : AuthCache) (key : String) (valid : Bool)
    → live_entry now c key ≡ none
    → (verify_cached now later c key (ok valid)).1
      ≡ set later (record c { misses = c.misses + 1 }) key valid
unfolding verify_cached
verify_cached-miss now later c key valid miss = rw (miss, verify_cached)

module _ (lib : HashLib) (hex_sha256 : List ℕ → String) where
  compute_key_of_prefix :
      (user_id password old_hash new_hash : List ℕ)
      → 32 < length old_hash
      → 32 < length new_hash
      → take 32 old_hash ≡ take 32 new_hash
      → compute_key lib hex_sha256 user_id password new_hash
        ≡ compute_key lib hex_sha256 user_id password old_hash
  unfolding compute_key key_data
  compute_key_of_prefix user_id password old_hash new_hash lo ln same =
      rw (lt→ltb 32 (length old_hash) lo, lt→ltb 32 (length new_hash) ln, same)

  verify_user_password_enabled :
      (now later : ℕ) (c : AuthCache) (user_id password stored_hash : List ℕ)
      → c.enabled ≡ true
      → verify_user_password lib hex_sha256 now later c user_id password stored_hash
        ≡ verify_cached now later c
            (compute_key lib hex_sha256 user_id password stored_hash)
            (verify_password lib stored_hash password)
  unfolding verify_user_password
  verify_user_password_enabled now later c user_id password stored_hash on = rw on

  -- The verdict of a verification outlives a change of the stored hash. Say the cache is enabled
  -- and has no live entry for the old hash, and the verification against it, stored at `later`,
  -- gave `valid`. Then a verification at `t`, before the TTL has passed, of the same user and
  -- password against any other hash with the same first 32 bytes gives `valid`, whatever
  -- `VerifyPassword` says of that hash.
  pub verify_user_password-stale :
      (now later t t' : ℕ) (c : AuthCache) (user_id password old_hash new_hash : List ℕ)
      (valid : Bool)
      → c.enabled ≡ true
      → live_entry now c (compute_key lib hex_sha256 user_id password old_hash) ≡ none
      → verify_password lib old_hash password ≡ ok valid
      → 32 < length old_hash
      → 32 < length new_hash
      → take 32 old_hash ≡ take 32 new_hash
      → t < later + c.ttl
      → let c' = (verify_user_password lib hex_sha256 now later c user_id password old_hash).1 in
        (verify_user_password lib hex_sha256 t t' c' user_id password new_hash).0 ≡ ok valid
  verify_user_password-stale now later t t' c user_id password old_hash new_hash valid on miss
        verdict lo ln same before =
      let key = compute_key lib hex_sha256 user_id password old_hash in
      let c₁ = record c { misses = c.misses + 1 } in
      let on' : (set later c₁ key valid).enabled ≡ true = unfold set in on in
      rw (
        verify_user_password_enabled now later c user_id password old_hash on,
        verdict,
        verify_cached-miss now later c key valid miss,
        verify_user_password_enabled t t' (set later c₁ key valid) user_id password new_hash on',
        compute_key_of_prefix user_id password old_hash new_hash lo ln same,
        verify_cached-answer t t' (set later c₁ key valid) key
            (verify_password lib new_hash password),
        live_entry-set later t c₁ key valid before,
      )
