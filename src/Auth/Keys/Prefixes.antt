-- ===== src/Auth/Keys/Prefixes.antt =====
-- Sequences of operations on the table of internal/store/api_keys.go, and what keeps its keys apart.
use dbbat.Prelude.{
  ℕ, ◌≡◌, ◌⊎◌, refl, ap, true, false, ◌||◌, List, [], ◌∷◌, ◌++◌, map, arith, ◌==◌, Result, ok, err,
  Bool-cases, inl, inr,
}
use dbbat.Prelude.Keys.{◌=?◌, nats_eq}
use dbbat.Auth.Keys.{
  ApiKey, KeyError, has_id, has_key_prefix, insert_key, get_api_key_by_prefix, revoke_api_key,
  revoked_row, increment_api_key_usage, used_row, count_open,
}

-- An operation: the row of a creation, a revocation, or a use. One that fails changes nothing.
pub data Op : Type 0 where
  insert : ApiKey → Op
  revoke : ℕ → ℕ → ℕ → Op
  increment : ℕ → ℕ → Op

abbrev pub table_or {ℓ} : {E : Type ℓ} → List ApiKey → Result E (List ApiKey) → List ApiKey
table_or keys (ok keys') = keys'
table_or keys (err e) = keys

abbrev pub inserted_or : List ApiKey → Result KeyError (ApiKey × List ApiKey) → List ApiKey
inserted_or keys (ok (k, keys')) = keys'
inserted_or keys (err e) = keys

abbrev pub step : Op → List ApiKey → List ApiKey
step (insert k) keys = inserted_or keys (insert_key k keys)
step (revoke now id revoked_by) keys = table_or keys (revoke_api_key now id revoked_by keys)
step (increment now id) keys = increment_api_key_usage now id keys

unfoldable pub run : List Op → List ApiKey → List ApiKey
run [] keys = keys
run (op ∷ ops) keys = run ops (step op keys)

-- A change of rows that leaves what the constraints read.
abbrev pub Keeps : (ApiKey → ApiKey) → Type 0
Keeps f = (k : ApiKey) → ((f k).id ≡ k.id) × ((f k).key_prefix ≡ k.key_prefix)

revoked_row-Keeps : (now id revoked_by : ℕ) → Keeps (revoked_row now id revoked_by)
revoked_row-Keeps now id revoked_by k = (ground arith, ground arith)

used_row-Keeps : (now id : ℕ) → Keeps (used_row now id)
used_row-Keeps now id k = (ground arith, ground arith)

pub has_id-map :
    (id : ℕ) (f : ApiKey → ApiKey) (keys : List ApiKey)
    → Keeps f
    → has_id id (map f keys) ≡ has_id id keys
unfolding has_id
has_id-map id f [] h = refl
has_id-map id f (k ∷ keys) h = ground (arith, h k, has_id-map id f keys h)

has_key_prefix-map :
    (prefix : List ℕ) (f : ApiKey → ApiKey) (keys : List ApiKey)
    → Keeps f
    → has_key_prefix prefix (map f keys) ≡ has_key_prefix prefix keys
unfolding has_key_prefix
has_key_prefix-map prefix f [] h = refl
has_key_prefix-map prefix f (k ∷ keys) h = rw ((h k).1, has_key_prefix-map prefix f keys h) refl

pub has_id-append :
    (id : ℕ) (keys : List ApiKey) (k : ApiKey)
    → has_id id (keys ++ k ∷ []) ≡ (has_id id keys || (k.id == id))
unfolding has_id
has_id-append id [] k = ground arith
has_id-append id (x ∷ keys) k = ground (arith, has_id-append id keys k)

has_key_prefix-append :
    (prefix : List ℕ) (keys : List ApiKey) (k : ApiKey)
    → has_key_prefix prefix (keys ++ k ∷ [])
      ≡ (has_key_prefix prefix keys || (k.key_prefix =? prefix))
unfolding has_key_prefix
has_key_prefix-append prefix [] k = ground arith
has_key_prefix-append prefix (x ∷ keys) k = ground (arith, has_key_prefix-append prefix keys k)

-- No id and no prefix stands twice.
abbrev pub UniqueKeys : List ApiKey → Type 0
UniqueKeys [] = Unit
UniqueKeys (k ∷ keys) =
    (has_id k.id keys ≡ false) × (has_key_prefix k.key_prefix keys ≡ false) × UniqueKeys keys

map-UniqueKeys :
    (f : ApiKey → ApiKey) (keys : List ApiKey) → Keeps f → UniqueKeys keys → UniqueKeys (map f keys)
map-UniqueKeys f [] h u = tt
map-UniqueKeys f (k ∷ keys) h (a, b, u) = (
  rw ((h k).0, has_id-map k.id f keys h) a,
  rw ((h k).1, has_key_prefix-map k.key_prefix f keys h) b,
  map-UniqueKeys f keys h u,
)

append-UniqueKeys :
    (keys : List ApiKey) (k : ApiKey)
    → has_id k.id keys ≡ false
    → has_key_prefix k.key_prefix keys ≡ false
    → UniqueKeys keys
    → UniqueKeys (keys ++ k ∷ [])
unfolding has_id has_key_prefix
append-UniqueKeys [] k a b u = (refl, refl, tt)
append-UniqueKeys (x ∷ keys) k a b (c, d, u) = (
  ground (arith, a, c, has_id-append x.id keys k),
  ground (
    arith,
    b,
    d,
    has_key_prefix-append x.key_prefix keys k,
    nats_eq.beq_iff x.key_prefix k.key_prefix,
    nats_eq.beq_iff k.key_prefix x.key_prefix,
  ),
  append-UniqueKeys keys k (ground (arith, a)) (ground (arith, b)) u,
)

insert_key-UniqueKeys :
    (k : ApiKey) (keys : List ApiKey)
    → UniqueKeys keys
    → UniqueKeys (inserted_or keys (insert_key k keys))
unfolding insert_key
insert_key-UniqueKeys k keys u =
    elim (Bool-cases (has_id k.id keys || has_key_prefix k.key_prefix keys)) [
      | inl taken ↦ rw taken u
      | inr free ↦
          rw free (append-UniqueKeys keys k (ground (arith, free)) (ground (arith, free)) u)
    ]

revoke_api_key-UniqueKeys :
    (now id revoked_by : ℕ) (keys : List ApiKey)
    → UniqueKeys keys
    → UniqueKeys (table_or keys (revoke_api_key now id revoked_by keys))
unfolding revoke_api_key
revoke_api_key-UniqueKeys now id revoked_by keys u = elim (Bool-cases (count_open id keys == 0)) [
  | inl none_open ↦ rw none_open u
  | inr some_open ↦
      rw some_open (
        map-UniqueKeys (revoked_row now id revoked_by) keys (revoked_row-Keeps now id revoked_by) u)
]

pub run-UniqueKeys :
    (ops : List Op) (keys : List ApiKey) → UniqueKeys keys → UniqueKeys (run ops keys)
unfolding run increment_api_key_usage
run-UniqueKeys [] keys u = u
run-UniqueKeys (insert k ∷ ops) keys u =
    run-UniqueKeys ops (inserted_or keys (insert_key k keys)) (insert_key-UniqueKeys k keys u)
run-UniqueKeys (revoke now id revoked_by ∷ ops) keys u =
    run-UniqueKeys ops (table_or keys (revoke_api_key now id revoked_by keys))
      (revoke_api_key-UniqueKeys now id revoked_by keys u)
run-UniqueKeys (increment now id ∷ ops) keys u =
    run-UniqueKeys ops (map (used_row now id) keys)
      (map-UniqueKeys (used_row now id) keys (used_row-Keeps now id) u)

abbrev pub Occurs : ApiKey → List ApiKey → Type 0
Occurs k [] = ⊥
Occurs k (x ∷ keys) = (x ≡ k) ⊎ Occurs k keys

has_key_prefix-Occurs :
    (k : ApiKey) (keys : List ApiKey) → Occurs k keys → has_key_prefix k.key_prefix keys ≡ true
unfolding has_key_prefix
has_key_prefix-Occurs k [] o = absurd o
has_key_prefix-Occurs k (x ∷ keys) (inl e) =
    ground (arith, nats_eq.beq_iff x.key_prefix k.key_prefix, ap (λ y. y.key_prefix) e)
has_key_prefix-Occurs k (x ∷ keys) (inr o) = ground (arith, has_key_prefix-Occurs k keys o)

get-Occurs :
    (k : ApiKey) (keys : List ApiKey)
    → UniqueKeys keys
    → Occurs k keys
    → get_api_key_by_prefix k.key_prefix keys ≡ ok k
unfolding get_api_key_by_prefix
get-Occurs k [] u o = absurd o
get-Occurs k (x ∷ keys) (a, b, u) (inl e) =
    ground (arith, nats_eq.beq_iff x.key_prefix k.key_prefix, e, ap (λ y. y.key_prefix) e)
get-Occurs k (x ∷ keys) (a, b, u) (inr o) =
    let there = has_key_prefix-Occurs k keys o in
    ground (arith, nats_eq.beq_iff x.key_prefix k.key_prefix, b, there, get-Occurs k keys u o)

-- After any operations on the empty table, each of its keys is the one that its prefix finds: prefixes
-- are unique, so no other key is in the way.
pub run-get_api_key_by_prefix :
    (ops : List Op) (k : ApiKey)
    → Occurs k (run ops [])
    → get_api_key_by_prefix k.key_prefix (run ops []) ≡ ok k
run-get_api_key_by_prefix ops k o = get-Occurs k (run ops []) (run-UniqueKeys ops [] tt) o
