-- ===== src/Auth/Keys/Revoked.antt =====
-- Revoked and expired keys of internal/store/api_keys.go are not accepted.
use dbbat.Prelude.{
  ℕ, ◌≡◌, ◌≢◌, ap, ◌∙◌, subst, String, Bool, true, false, not, ◌||◌, Option, List, [], ◌∷◌, map,
  arith, ltb, ◌==◌, length, take, All, All-append, Result, ok, err, Bool-cases, Result-cases, inl,
  inr,
}
use dbbat.Prelude.Keys.{◌=?◌, nats_eq}
use dbbat.Auth.Hash.{HashLib, HashError}
use dbbat.Auth.Cache.{AuthCache}
use dbbat.Auth.Keys.{
  ApiKey, has_id, has_key_prefix, insert_key, get_api_key_by_prefix, revoke_api_key, revoked_row,
  increment_api_key_usage, used_row, count_open, is_revoked, is_expired, check_state, judged,
  verdict, verify_found, verify_api_key, key_prefix_length,
}
use dbbat.Auth.Keys.Prefixes.{
  Op, insert, revoke, increment, run, table_or, inserted_or, has_id-append, has_id-map,
}

-- A row with the id has been revoked.
abbrev is_safe : ℕ → ApiKey → Bool
is_safe id k = not (k.id == id) || is_revoked k

abbrev Safe : ℕ → List ApiKey → Type 0
Safe id keys = (has_id id keys ≡ true) × All (λ k. is_safe id k ≡ true) keys

get-All :
    (id : ℕ) (prefix : List ℕ) (keys : List ApiKey) (k : ApiKey)
    → get_api_key_by_prefix prefix keys ≡ ok k
    → All (λ k. is_safe id k ≡ true) keys
    → is_safe id k ≡ true
unfolding get_api_key_by_prefix
get-All id prefix [] k h a = absurd (ground (arith, h))
get-All id prefix (x ∷ keys) k h (p, a) = elim (Bool-cases (x.key_prefix =? prefix)) [
  | inl same ↦ ground (arith, h, same, p)
  | inr other ↦ get-All id prefix keys k (ground (arith, h, other)) a
]

judged_inv :
    (now : ℕ) (k k' : ApiKey) (r : Result HashError Bool)
    → judged now k r ≡ ok k'
    → (k ≡ k') × (is_revoked k' ≡ false) × (is_expired now k' ≡ false) × (r ≡ ok true)
unfolding judged check_state
judged_inv now k k' (err e) h = absurd (ground (arith, h))
judged_inv now k k' (ok valid) h = elim (Bool-cases (is_revoked k)) [
  | inl gone ↦ absurd (ground (arith, h, gone))
  | inr valid_still ↦ elim (Bool-cases (is_expired now k)) [
    | inl old ↦ absurd (ground (arith, h, valid_still, old))
    | inr young ↦ elim (Bool-cases valid) [
      | inr wrong ↦ absurd (ground (arith, h, wrong))
      | inl right ↦
          let same : k ≡ k' = ground (arith, h, valid_still, young, right) in
          (
            same,
            subst (λ x. is_revoked x ≡ false) same valid_still,
            subst (λ x. is_expired now x ≡ false) same young,
            ap ok right,
          )
    ]
  ]
]

map-revoked_row :
    (now id revoked_by : ℕ) (keys : List ApiKey)
    → All (λ k. is_safe id k ≡ true) (map (revoked_row now id revoked_by) keys)
map-revoked_row now id revoked_by [] = tt
map-revoked_row now id revoked_by (k ∷ keys) =
    (ground arith, map-revoked_row now id revoked_by keys)

map-Safe :
    (id : ℕ) (f : ApiKey → ApiKey) (keys : List ApiKey)
    → ((k : ApiKey) → is_safe id k ≡ true → is_safe id (f k) ≡ true)
    → All (λ k. is_safe id k ≡ true) keys
    → All (λ k. is_safe id k ≡ true) (map f keys)
map-Safe id f [] h a = tt
map-Safe id f (k ∷ keys) h (p, a) = (h k p, map-Safe id f keys h a)

revoked_row_safe :
    (now id revoked_by i : ℕ) (k : ApiKey)
    → is_safe i k ≡ true
    → is_safe i (revoked_row now id revoked_by k) ≡ true
revoked_row_safe now id revoked_by i k h = ground (arith, h)

used_row_safe :
    (now id i : ℕ) (k : ApiKey) → is_safe i k ≡ true → is_safe i (used_row now id k) ≡ true
used_row_safe now id i k h = ground (arith, h)

insert_key-Safe :
    (id : ℕ) (k : ApiKey) (keys : List ApiKey)
    → Safe id keys
    → Safe id (inserted_or keys (insert_key k keys))
unfolding insert_key
insert_key-Safe id k keys (there, a) =
    elim (Bool-cases (has_id k.id keys || has_key_prefix k.key_prefix keys)) [
      | inl taken ↦ rw taken (there, a)
      | inr free ↦
          let other : (k.id == id) ≡ false = elim (Bool-cases (k.id == id)) [
            | inr differs ↦ differs
            | inl same ↦
                absurd (clash k.id id keys (ground (arith, same)) there (ground (arith, free)))
          ] in
          rw free (
            ground (arith, there, has_id-append id keys k),
            All-append (λ x. is_safe id x ≡ true) keys (k ∷ []) a (ground (arith, other), tt),
          )
    ]
  where
    clash : (j i : ℕ) (ks : List ApiKey) → j ≡ i → has_id i ks ≡ true → has_id j ks ≡ false → ⊥
    clash j i ks e t f = ground (arith, e, t, f)

revoke_api_key-Safe :
    (now id revoked_by i : ℕ) (keys : List ApiKey)
    → Safe i keys
    → Safe i (table_or keys (revoke_api_key now id revoked_by keys))
unfolding revoke_api_key
revoke_api_key-Safe now id revoked_by i keys (there, a) =
    elim (Bool-cases (count_open id keys == 0)) [
      | inl none_open ↦ rw none_open (there, a)
      | inr some_open ↦ rw some_open (
        has_id-map i (revoked_row now id revoked_by) keys (λ k. (ground arith, ground arith))
            ∙ there,
        map-Safe i (revoked_row now id revoked_by) keys (revoked_row_safe now id revoked_by i) a,
      )
    ]

run-Safe : (ops : List Op) (id : ℕ) (keys : List ApiKey) → Safe id keys → Safe id (run ops keys)
unfolding run increment_api_key_usage
run-Safe [] id keys s = s
run-Safe (insert k ∷ ops) id keys s =
    run-Safe ops id (inserted_or keys (insert_key k keys)) (insert_key-Safe id k keys s)
run-Safe (revoke now i revoked_by ∷ ops) id keys s =
    run-Safe ops id (table_or keys (revoke_api_key now i revoked_by keys))
      (revoke_api_key-Safe now i revoked_by id keys s)
run-Safe (increment now i ∷ ops) id keys (there, a) = run-Safe ops id (map (used_row now i) keys) (
  has_id-map id (used_row now i) keys (λ k. (ground arith, ground arith)) ∙ there,
  map-Safe id (used_row now i) keys (used_row_safe now i id) a,
)

count_open-has_id :
    (id : ℕ) (keys : List ApiKey) → (count_open id keys == 0) ≡ false → has_id id keys ≡ true
unfolding count_open has_id
count_open-has_id id [] h = ground (arith, h)
count_open-has_id id (k ∷ keys) h = ground (arith, h, count_open-has_id id keys)

revoked-Safe :
    (now id revoked_by : ℕ) (keys keys' : List ApiKey)
    → revoke_api_key now id revoked_by keys ≡ ok keys'
    → Safe id keys'
unfolding revoke_api_key
revoked-Safe now id revoked_by keys keys' h = elim (Bool-cases (count_open id keys == 0)) [
  | inl none_open ↦ absurd (ground (arith, h, none_open))
  | inr some_open ↦
      let same : map (revoked_row now id revoked_by) keys ≡ keys' = ground (arith, h, some_open) in
      subst (Safe id) same (
        has_id-map id (revoked_row now id revoked_by) keys (λ k. (ground arith, ground arith))
            ∙ count_open-has_id id keys some_open,
        map-revoked_row now id revoked_by keys,
      )
]

module _ (lib : HashLib) (hex_sha256 : List ℕ → String) where
  -- What an accepted key has passed.
  pub verify_api_key_inv :
      (now later : ℕ) (cache : Option AuthCache) (plain_key : List ℕ) (keys : List ApiKey)
      (k : ApiKey)
      → (verify_api_key lib hex_sha256 now later cache plain_key keys).0 ≡ ok k
      → (get_api_key_by_prefix (take key_prefix_length plain_key) keys ≡ ok k)
        × (is_revoked k ≡ false)
        × (is_expired now k ≡ false)
        × ((verdict lib hex_sha256 now later cache plain_key k.key_hash).0 ≡ ok true)
  unfolding verify_api_key verify_found
  verify_api_key_inv now later cache plain_key keys k h =
      let prefix = take key_prefix_length plain_key in
      elim (Bool-cases (ltb (length plain_key) key_prefix_length)) [
        | inl short ↦ absurd (ground (arith, h, short))
        | inr long ↦ elim (Result-cases (get_api_key_by_prefix prefix keys)) [
          | inr (e, missing) ↦ absurd (ground (arith, h, long, missing))
          | inl (k', found) ↦
              let r = (verdict lib hex_sha256 now later cache plain_key k'.key_hash).0 in
              let (same, fresh, young, right) =
                judged_inv now k' k r (ground (arith, h, long, found)) in
              (
                found ∙ ap ok same,
                fresh,
                young,
                subst
                    (λ x. (verdict lib hex_sha256 now later cache plain_key x.key_hash).0 ≡ ok true)
                    same right,
              )
        ]
      ]

  -- A key is revoked, and any operations on the table follow. Then no text is accepted as that key, at
  -- any time, whatever the cache holds.
  pub revoke_api_key-verify_api_key :
      (at id revoked_by : ℕ) (keys keys' : List ApiKey) (ops : List Op) (now later : ℕ)
      (cache : Option AuthCache) (plain_key : List ℕ) (k : ApiKey)
      → revoke_api_key at id revoked_by keys ≡ ok keys'
      → (verify_api_key lib hex_sha256 now later cache plain_key (run ops keys')).0 ≡ ok k
      → k.id ≢ id
  revoke_api_key-verify_api_key at id revoked_by keys keys' ops now later cache plain_key k done
        accepted =
      let (_, safe) = run-Safe ops id keys' (revoked-Safe at id revoked_by keys keys' done) in
      let (found, open_still, _, _) =
        verify_api_key_inv now later cache plain_key (run ops keys') k accepted in
      let this = get-All id (take key_prefix_length plain_key) (run ops keys') k found safe in
      λ same. ground (arith, this, open_still, same)
