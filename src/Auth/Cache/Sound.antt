-- ===== src/Auth/Cache/Sound.antt =====
-- The cache of internal/cache/auth.go keeps what its verdicts mean.
use dbbat.Prelude.{
  ℕ, ◌+◌, ◌≡◌, ap, sym, subst, ◌∙◌, String, Bool, some, List, arith, leb, length, Bool-cases, inl,
  inr, Option-cases, Result, ok, err, All,
}
use dbbat.Prelude.Keys.{string_eq, ◌=?◌}
use dbbat.Prelude.Maps.{All-insert, All-delete, All-lookup}
use dbbat.Auth.Hash.{HashError}
use dbbat.Auth.Cache.{
  AuthCache, CacheEntry, live_entry, verify_cached, store_result, set, evict_oldest, oldest_loop,
}
use dbbat.Auth.Cache.Expiry.{verify_cached-answer, answer_of}

module _ (Meant : String → Bool → Type 0) where
  -- Every verdict of the cache is one that its key means.
  abbrev pub IsSound : AuthCache → Type 0
  IsSound c = All (λ x. Meant x.0 x.1.valid) c.entries

  -- An error means nothing.
  abbrev pub Answers : String → Result HashError Bool → Type 0
  Answers key (ok valid) = Meant key valid
  Answers key (err e) = Unit

  live_entry-Meant :
      (now : ℕ) (c : AuthCache) (k : String) (e : CacheEntry)
      → IsSound c
      → live_entry now c k ≡ some e
      → Meant k e.valid
  unfolding live_entry
  live_entry-Meant now c k e s h = All-lookup _ k e c.entries (ground arith) s

  evict_oldest-All :
      (m : List (String × CacheEntry))
      → All (λ x. Meant x.0 x.1.valid) m
      → All (λ x. Meant x.0 x.1.valid) (evict_oldest m)
  unfolding evict_oldest
  evict_oldest-All m h = elim (Bool-cases ((oldest_loop "" 0 m).0 =? "")) [
    | inl e ↦ rw e h
    | inr e ↦ rw e (All-delete _ _ m h)
  ]

  set-IsSound :
      (now : ℕ) (c : AuthCache) (key : String) (valid : Bool)
      → Meant key valid
      → IsSound c
      → IsSound (set now c key valid)
  unfolding set
  set-IsSound now c key valid m s = elim (Bool-cases (leb c.max_size (length c.entries))) [
    | inl full ↦
        rw full (All-insert _ key _ (evict_oldest c.entries) m (evict_oldest-All c.entries s))
    | inr room ↦ rw room (All-insert _ key _ c.entries m s)
  ]

  store_result-IsSound :
      (later : ℕ) (c : AuthCache) (key : String) (computed : Result HashError Bool)
      → Answers key computed
      → IsSound c
      → IsSound (store_result later c key computed).1
  store_result-IsSound later c key (ok valid) m s =
      unfold store_result in set-IsSound later c key valid m s
  store_result-IsSound later c key (err e) m s = unfold store_result in s

  pub verify_cached-IsSound :
      (now later : ℕ) (c : AuthCache) (key : String) (computed : Result HashError Bool)
      → Answers key computed
      → IsSound c
      → IsSound (verify_cached now later c key computed).1
  unfolding verify_cached
  verify_cached-IsSound now later c key computed m s = elim (Option-cases (live_entry now c key)) [
    | inl miss ↦
        rw (miss, verify_cached)
          (store_result-IsSound later (record c { misses = c.misses + 1 }) key computed m s)
    | inr (e, hit) ↦ rw (hit, verify_cached) s
  ]

  pub verify_cached-Answers :
      (now later : ℕ) (c : AuthCache) (key : String) (computed : Result HashError Bool)
      → Answers key computed
      → IsSound c
      → Answers key (verify_cached now later c key computed).0
  verify_cached-Answers now later c key computed m s = elim (Option-cases (live_entry now c key)) [
    | inl miss ↦
        subst (Answers key)
          (sym
            (verify_cached-answer now later c key computed ∙ ap (λ o. answer_of o computed) miss))
          m
    | inr (e, hit) ↦
        subst (Answers key)
          (sym (verify_cached-answer now later c key computed ∙ ap (λ o. answer_of o computed) hit))
          (live_entry-Meant now c key e s hit)
  ]
