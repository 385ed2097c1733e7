-- ===== src/Auth/Keys/Creation.antt =====
-- A key that internal/store/api_keys.go creates is accepted until it expires.
use dbbat.Prelude.{
  ℕ, suc, ◌+◌, ◌%◌, ◌≤◌, ◌≡◌, refl, sym, ap, ◌∙◌, subst, String, true, false, ◌||◌, Option, none,
  some, List, [], ◌∷◌, ◌++◌, map, arith, ltb, if◌then◌else◌, length, length-append, take, All, ok,
  err, Bool-cases, Result-cases, inl, inr,
}
use dbbat.Prelude.Keys.{nats_eq}
use dbbat.Auth.Hash.{HashLib, HashParams, hash_password_with_params, verify_password}
use dbbat.Auth.Hash.RoundTrip.{IsByte, InRange, HashLaws, verify-hash_password}
use dbbat.Auth.Cache.{AuthCache, live_entry, compute_key_hash}
use dbbat.Auth.Cache.Expiry.{verify_key-answer}
use dbbat.Auth.Keys.{
  ApiKey, KeyType, key_expired, api, web, has_id, has_key_prefix, insert_key, get_api_key_by_prefix,
  is_revoked, is_expired, check_state, judged, verdict, verify_found, verify_api_key,
  key_prefix_length, char_at, generate_key, web_key_prefix, web_session_max_duration, create_row,
  create_web_session, create_api_key_with_value,
}

get-append :
    (keys : List ApiKey) (k : ApiKey)
    → has_key_prefix k.key_prefix keys ≡ false
    → get_api_key_by_prefix k.key_prefix (keys ++ k ∷ []) ≡ ok k
unfolding get_api_key_by_prefix has_key_prefix
get-append [] k h = ground (arith, nats_eq.beq_iff k.key_prefix k.key_prefix)
get-append (x ∷ keys) k h = ground (arith, h, get-append keys k)

-- What a row that was inserted is found as.
insert_key-get :
    (row k : ApiKey) (keys keys' : List ApiKey)
    → insert_key row keys ≡ ok (k, keys')
    → (k ≡ row) × (get_api_key_by_prefix row.key_prefix keys' ≡ ok row)
unfolding insert_key
insert_key-get row k keys keys' h =
    elim (Bool-cases (has_id row.id keys || has_key_prefix row.key_prefix keys)) [
      | inl taken ↦ absurd (ground (arith, h, taken))
      | inr free ↦
          let same : keys ++ row ∷ [] ≡ keys' = ground (arith, h, free) in
          (
            ground (arith, h, free),
            subst (λ l. get_api_key_by_prefix row.key_prefix l ≡ ok row) same
                (get-append keys row (ground (arith, free))),
          )
    ]

length-map : (f : ℕ → ℕ) (l : List ℕ) → length (map f l) ≡ length l
length-map f [] = refl
length-map f (x ∷ l) = ap suc (length-map f l)

length-generate_key :
    (prefix random_bytes : List ℕ)
    → length (generate_key prefix random_bytes).0 ≡ length prefix + length random_bytes
unfolding generate_key
length-generate_key prefix random_bytes = omega (
  arith,
  length-append prefix (map (λ b. char_at (b % 36)) random_bytes),
  length-map (λ b. char_at (b % 36)) random_bytes,
)

is_expired-some : (t e : ℕ) (k : ApiKey) → k.expires_at ≡ some e → is_expired t k ≡ ltb e t
is_expired-some t e k h = rw h refl

passed :
    (t : ℕ) (k : ApiKey)
    → is_revoked k ≡ false
    → judged t k (ok true) ≡ (if is_expired t k then err key_expired else ok k)
unfolding judged check_state
passed t k fresh = rw fresh refl

module _ (lib : HashLib) (hex_sha256 : List ℕ → String) where
  -- The cache, if there is one, has no live verdict on the key.
  abbrev pub IsCold : ℕ → Option AuthCache → List ℕ → Type 0
  IsCold now none plain_key = Unit
  IsCold now (some c) plain_key =
      live_entry now c (compute_key_hash lib hex_sha256 plain_key) ≡ none

  verdict-IsCold :
      (now later : ℕ) (cache : Option AuthCache) (plain_key key_hash : List ℕ)
      → IsCold now cache plain_key
      → (verdict lib hex_sha256 now later cache plain_key key_hash).0
        ≡ verify_password lib key_hash plain_key
  unfolding verdict
  verdict-IsCold now later none plain_key key_hash cold = refl
  verdict-IsCold now later (some c) plain_key key_hash cold =
      verify_key-answer lib hex_sha256 now later c plain_key key_hash cold

  module _ (params : HashParams) (laws : HashLaws lib) (range : InRange params) where
    -- The row of a creation, by the key itself at any time.
    create_row-verify_api_key :
        (now id user_id : ℕ) (name : String) (key_type : KeyType) (plain_key : List ℕ)
        (expires_at : Option ℕ) (salt : List ℕ) (keys keys' : List ApiKey) (k : ApiKey)
        (t later : ℕ) (cache : Option AuthCache)
        → 8 ≤ length plain_key
        → All IsByte salt
        → create_row lib params now id user_id name key_type plain_key expires_at salt keys
          ≡ ok (k, keys')
        → IsCold t cache plain_key
        → ((verify_api_key lib hex_sha256 t later cache plain_key keys').0
            ≡ (if is_expired t k then err key_expired else ok k))
          × (k.expires_at ≡ expires_at)
    unfolding create_row verify_api_key verify_found
    create_row-verify_api_key now id user_id name key_type plain_key expires_at salt keys keys' k t
          later cache long bytes made cold =
        let prefix = take key_prefix_length plain_key in
        let row : ApiKey = record {
          id = id;
          user_id = user_id;
          name = name;
          key_hash = hash_password_with_params lib plain_key params salt;
          key_prefix = prefix;
          key_type = key_type;
          expires_at = expires_at;
          last_used_at = none;
          request_count = 0;
          created_at = now;
          revoked_at = none;
          revoked_by = none;
        } in
        let (same, got) = insert_key-get row k keys keys' made in
        let enough : ltb (length plain_key) key_prefix_length ≡ false = ground arith in
        let (_, right) =
          verify-hash_password lib laws plain_key plain_key salt params bytes range in
        let seen = verdict-IsCold t later cache plain_key row.key_hash cold ∙ right in
        (
          rw (enough, got, verify_found)
              (ap (λ r. judged t row r) seen
                ∙ passed t row refl
                ∙ ap (λ x. if is_expired t x then err key_expired else ok x) (sym same)),
          ap (λ x. x.expires_at) same,
        )

    -- A web session that is created at `now`, from 32 random characters and a salt of bytes, under laws
    -- of the hash library and parameters in range. The key that is shown once is accepted as its row by
    -- `VerifyAPIKey` at each instant up to an hour later, and refused as expired from then on, by a
    -- cache without a live verdict on the key or by none.
    pub create_web_session-verify_api_key :
        (now id user_id : ℕ) (random_bytes salt plain_key : List ℕ) (keys keys' : List ApiKey)
        (k : ApiKey) (t later : ℕ) (cache : Option AuthCache)
        → length random_bytes ≡ 32
        → All IsByte salt
        → create_web_session lib params now id user_id random_bytes salt keys
          ≡ ok ((k, keys'), plain_key)
        → IsCold t cache plain_key
        → (verify_api_key lib hex_sha256 t later cache plain_key keys').0
          ≡ (if ltb (now + web_session_max_duration) t then err key_expired else ok k)
    unfolding create_web_session
    create_web_session-verify_api_key now id user_id random_bytes salt plain_key keys keys' k t
          later cache count bytes made cold =
        let plain = (generate_key web_key_prefix random_bytes).0 in
        let expires = now + web_session_max_duration in
        let long : 8 ≤ length plain =
          omega (arith, length-generate_key web_key_prefix random_bytes) in
        elim (Result-cases
          (create_row lib params now id user_id "Web Session" web plain (some expires) salt keys)) [
            | inr (e, failed) ↦ absurd (ground (arith, made, failed))
            | inl (row, done) ↦
                let shown : plain ≡ plain_key = ground (arith, made, done) in
                let rows : row ≡ (k, keys') = ground (arith, made, done) in
                let (answer, end) =
                  create_row-verify_api_key now id user_id "Web Session" web plain (some expires)
                    salt keys keys' k t later cache long bytes (done ∙ ap ok rows)
                    (subst (IsCold t cache) (sym shown) cold) in
                ap (λ p. (verify_api_key lib hex_sha256 t later cache p keys').0) (sym shown)
                ∙ answer
                ∙ ap (λ b. if b then err key_expired else ok k) (is_expired-some t expires k end)
          ]

    -- A key that is created with a value of at least 8 bytes and expires at an instant or never is
    -- accepted as its row, by the same, unless it has expired.
    pub create_api_key_with_value-verify_api_key :
        (now id user_id : ℕ) (name : String) (plain_key : List ℕ) (expires_at : Option ℕ)
        (salt : List ℕ) (keys keys' : List ApiKey) (k : ApiKey) (t later : ℕ)
        (cache : Option AuthCache)
        → All IsByte salt
        → create_api_key_with_value lib params now id user_id name plain_key expires_at salt keys
          ≡ ok (k, keys')
        → IsCold t cache plain_key
        → ((verify_api_key lib hex_sha256 t later cache plain_key keys').0
            ≡ (if is_expired t k then err key_expired else ok k))
          × (k.expires_at ≡ expires_at)
    unfolding create_api_key_with_value
    create_api_key_with_value-verify_api_key now id user_id name plain_key expires_at salt keys
          keys' k t later cache bytes made cold =
        elim (Bool-cases (ltb (length plain_key) key_prefix_length)) [
          | inl short ↦ absurd (ground (arith, made, short))
          | inr long ↦
              create_row-verify_api_key now id user_id name api plain_key expires_at salt keys keys'
                k t later cache (ground (arith, long)) bytes (ground (arith, made, long)) cold
        ]
