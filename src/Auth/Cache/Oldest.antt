-- ===== src/Auth/Cache/Oldest.antt =====
-- Which entry of the cache of internal/cache/auth.go makes room.
use dbbat.Prelude.{
  ℕ, ◌≤◌, ◌<◌, ◌≡◌, ◌≢◌, ◌⊎◌, refl, sym, ap, subst, String, true, false, some, List, [], ◌∷◌, arith,
  ltb, length, All, Bool-cases, inl, inr,
}
use dbbat.Prelude.Keys.{string_eq, ◌=?◌}
use dbbat.Prelude.Maps.{lookup, delete, Unique}
use dbbat.Auth.Cache.{CacheEntry, oldest_loop, evict_oldest}

-- No key is the empty text, which `evictOldest` takes for "none yet": a key is a digest in
-- hexadecimal.
abbrev pub KeysPresent : List (String × CacheEntry) → Type 0
KeysPresent = All (λ x. x.0 ≢ "")

string_ne : (k j : String) → k ≢ j → (k =? j) ≡ false
string_ne k j h = elim (Bool-cases (k =? j)) [
  | inl e ↦ absurd (h ((string_eq.beq_iff k j).0 e))
  | inr e ↦ e
]

oldest_loop-older :
    (k : String) (t : ℕ) (key : String) (entry : CacheEntry) (rest : List (String × CacheEntry))
    → ltb entry.timestamp t ≡ true
    → oldest_loop k t ((key, entry) ∷ rest) ≡ oldest_loop key entry.timestamp rest
unfolding oldest_loop
oldest_loop-older k t key entry rest h = elim (Bool-cases (k =? "")) [
  | inl e ↦ rw e
  | inr e ↦ rw (e, h)
]

oldest_loop-newer :
    (k : String) (t : ℕ) (key : String) (entry : CacheEntry) (rest : List (String × CacheEntry))
    → k ≢ ""
    → ltb entry.timestamp t ≡ false
    → oldest_loop k t ((key, entry) ∷ rest) ≡ oldest_loop k t rest
unfolding oldest_loop
oldest_loop-newer k t key entry rest present h = rw (string_ne k "" present, h)

-- The pair of a key and a time stands in the map.
abbrev Occurs : String × ℕ → List (String × CacheEntry) → Type 0
Occurs r [] = ⊥
Occurs r ((key, entry) ∷ rest) = ((r.0 ≡ key) × (r.1 ≡ entry.timestamp)) ⊎ Occurs r rest

abbrev pub NoOlder : ℕ → List (String × CacheEntry) → Type 0
NoOlder t = All (λ x. t ≤ x.1.timestamp)

-- What the loop ends at: its first key and time or an entry of the list, and no later than these.
abbrev Ends : String → ℕ → List (String × CacheEntry) → String × ℕ → Type 0
Ends k t m r = (r.1 ≤ t) × NoOlder r.1 m × ((r ≡ (k, t)) ⊎ Occurs r m)

Occurs-start :
    (k : String) (e : CacheEntry) (m : List (String × CacheEntry)) (r : String × ℕ)
    → (r ≡ (k, e.timestamp)) ⊎ Occurs r m
    → Occurs r ((k, e) ∷ m)
Occurs-start k e m r (inl same) = inl (ap (λ q. q.0) same, ap (λ q. q.1) same)
Occurs-start k e m r (inr o) = inr o

oldest_loop-Ends :
    (k : String) (t : ℕ) (m : List (String × CacheEntry))
    → k ≢ ""
    → KeysPresent m
    → Ends k t m (oldest_loop k t m)
oldest_loop-Ends k t [] present p = unfold oldest_loop in (omega arith, tt, inl refl)
oldest_loop-Ends k t ((key, entry) ∷ rest) present (p, ps) =
    let (low, lows, from) = oldest_loop-Ends key entry.timestamp rest p ps in
    let (low', lows', from') = oldest_loop-Ends k t rest present ps in
    elim (Bool-cases (ltb entry.timestamp t)) [
      | inl older ↦
          subst (Ends k t ((key, entry) ∷ rest)) (sym (oldest_loop-older k t key entry rest older))
            (ground (arith, low), (low, lows), inr (Occurs-start key entry rest _ from))
      | inr newer ↦
          subst (Ends k t ((key, entry) ∷ rest))
            (sym (oldest_loop-newer k t key entry rest present newer))
            (
              low',
              (ground (arith, low'), lows'),
              elim from' [ inl e ↦ inl e | inr o ↦ inr (inr o) ],
            )
    ]

lookup-Occurs :
    (k : String) (t : ℕ) (m : List (String × CacheEntry))
    → Unique m
    → Occurs (k, t) m
    → (e : CacheEntry) × (lookup k m ≡ some e) × (e.timestamp ≡ t)
unfolding lookup
lookup-Occurs k t [] u o = elim o [ ]
lookup-Occurs k t ((key, entry) ∷ rest) (n, u) (inl (same, time)) =
    (entry, ground (arith, same, string_eq.beq_iff key k), sym time)
lookup-Occurs k t ((key, entry) ∷ rest) (n, u) (inr o) =
    let (e, found, time) = lookup-Occurs k t rest u o in
    (e, ground (arith, found, n, string_eq.beq_iff key k), time)

Occurs-present :
    (k : String) (t : ℕ) (m : List (String × CacheEntry)) → KeysPresent m → Occurs (k, t) m → k ≢ ""
Occurs-present k t [] p o = elim o [ ]
Occurs-present k t ((key, entry) ∷ rest) (p, ps) (inl (same, time)) = rw same p
Occurs-present k t ((key, entry) ∷ rest) (p, ps) (inr o) = Occurs-present k t rest ps o

-- On a map that is not empty and has no empty key, the eviction deletes one entry, and no entry of
-- the map is older than that one.
pub evict_oldest_lem :
    (m : List (String × CacheEntry))
    → Unique m
    → KeysPresent m
    → 0 < length m
    → (k : String) × (e : CacheEntry) × (lookup k m ≡ some e)
      × (NoOlder e.timestamp m)
      × (evict_oldest m ≡ delete k m)
unfolding evict_oldest
evict_oldest_lem [] u p h = absurd (omega arith)
evict_oldest_lem ((key, entry) ∷ rest) u (p, ps) h =
    let m : List (String × CacheEntry) = (key, entry) ∷ rest in
    let r = oldest_loop key entry.timestamp rest in
    let (low, lows, from) = oldest_loop-Ends key entry.timestamp rest p ps in
    let occurs : Occurs r m = Occurs-start key entry rest r from in
    let (e, hit, time) = lookup-Occurs r.0 r.1 m u occurs in
    (
      r.0,
      e,
      hit,
      subst (λ n. NoOlder n m) (sym time) (low, lows),
      evict_at r.0 (Occurs-present r.0 r.1 m (p, ps) occurs) start,
    )
  where
    start : (oldest_loop "" 0 ((key, entry) ∷ rest)).0 ≡ (oldest_loop key entry.timestamp rest).0
    start = unfold oldest_loop in refl

    evict_at :
        (k : String)
        → k ≢ ""
        → (oldest_loop "" 0 ((key, entry) ∷ rest)).0 ≡ k
        → evict_oldest ((key, entry) ∷ rest) ≡ delete k ((key, entry) ∷ rest)
    evict_at k present e = rw (e, string_ne k "" present)
