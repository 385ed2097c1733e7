-- ===== src/Auth/Cache/Answered.antt =====
-- What an answer of the cache of internal/cache/auth.go rests on: a verification in its past.
use dbbat.Prelude.{
  ℕ, ◌<◌, ◌≡◌, ◌≢◌, ◌⊎◌, refl, ap, sym, subst, String, Bool, true, false, List, [], ◌∷◌, ◌++◌,
  arith, length, take, length-take, length-append, lt→ltb, if◌then◌else◌, inl, inr, Result, ok, err,
  All,
}
use dbbat.Prelude.Keys.{string_eq}
use dbbat.Auth.Hash.{HashLib, HashError, verify_password}
use dbbat.Auth.Cache.{
  AuthCache, AuthCacheConfig, new_auth_cache, CacheEntry, verify_cached, key_data, compute_key,
  compute_key_hash, verify_user_password, verify_key,
}
use dbbat.Auth.Cache.Sound.{IsSound, Answers, verify_cached-IsSound, verify_cached-Answers}

-- No byte of the text is a colon.
abbrev pub NoColon : List ℕ → Type 0
NoColon = All (λ c. c ≢ b':')

-- Two texts with a colon behind a part that has none: the parts agree, and so do the rests.
cut_at_colon :
    (a b x y : List ℕ)
    → NoColon a
    → NoColon b
    → a ++ (b':' ∷ x) ≡ b ++ (b':' ∷ y)
    → (a ≡ b) × (x ≡ y)
cut_at_colon [] [] x y ha hb e = (refl, cc)
cut_at_colon [] (c ∷ b) x y ha (hc, hb) e = absurd (ground (arith, e))
cut_at_colon (c ∷ a) [] x y (hc, ha) hb e = absurd (ground (arith, e))
cut_at_colon (c ∷ a) (d ∷ b) x y (hc, ha) (hd, hb) e =
    let (p, q) = cut_at_colon a b x y ha hb (cc) in (cc, q)

same_ends :
    (p q a b : List ℕ) → length a ≡ length b → p ++ (b':' ∷ a) ≡ q ++ (b':' ∷ b) → (p ≡ q) × (a ≡ b)
same_ends [] [] a b h e = (refl, cc)
same_ends [] (c ∷ q) a b h e = absurd (omega (arith, ap length e, length-append q (b':' ∷ b)))
same_ends (c ∷ p) [] a b h e = absurd (omega (arith, ap length e, length-append p (b':' ∷ a)))
same_ends (c ∷ p) (d ∷ q) a b h e = let (u, v) = same_ends p q a b h (cc) in (cc, v)

-- What `computeKey` digests determines the user and the password, and the first 32 bytes of the
-- stored hash, for users without a colon, as a UUID is, and hashes of more than 32 bytes; a
-- password may hold colons.
pub key_data-injective :
    (u u' p p' h h' : List ℕ)
    → NoColon u
    → NoColon u'
    → 32 < length h
    → 32 < length h'
    → key_data u p h ≡ key_data u' p' h'
    → (u ≡ u') × (p ≡ p') × (take 32 h ≡ take 32 h')
unfolding key_data
key_data-injective u u' p p' h h' nu nu' lh lh' e =
    let e' = rw (lt→ltb 32 (length h) lh, lt→ltb 32 (length h') lh') at e in
    let (users, rest) = cut_at_colon u u' _ _ nu nu' e' in
    let same : length (take 32 h) ≡ length (take 32 h') =
      omega (arith, length-take 32 h, length-take 32 h') in
    let (passwords, hashes) = same_ends p p' (take 32 h) (take 32 h') same rest in
    (users, passwords, hashes)

-- A verification that is asked for: of a user's password, or of an API key, with the instants of the
-- look into the cache and of the store.
pub data Check : Type 0 where
  of_user : ℕ → ℕ → List ℕ → List ℕ → List ℕ → Check
  of_key : ℕ → ℕ → List ℕ → List ℕ → Check

-- What is digested for it.
abbrev text_of : Check → List ℕ
text_of (of_user now later user_id password stored_hash) = key_data user_id password stored_hash
text_of (of_key now later plain_key stored_hash) = plain_key

-- A user has no colon, as a UUID has none, and a hash more than 32 bytes; an API key has no colon.
abbrev pub WellFormed : Check → Type 0
WellFormed (of_user now later user_id password stored_hash) =
    NoColon user_id × (32 < length stored_hash)
WellFormed (of_key now later plain_key stored_hash) = NoColon plain_key

-- Two verifications of one user, password and start of the hash, or of one API key.
abbrev pub SameSubject : Check → Check → Type 0
SameSubject (of_user now later u p h) (of_user now' later' u' p' h') =
    (u ≡ u') × (p ≡ p') × (take 32 h ≡ take 32 h')
SameSubject (of_key now later k h) (of_key now' later' k' h') = k ≡ k'
SameSubject x y = ⊥

colon_inside : (u rest : List ℕ) → NoColon (u ++ (b':' ∷ rest)) → ⊥
colon_inside [] rest (n, _) = n refl
colon_inside (c ∷ u) rest (_, h) = colon_inside u rest h

text_of-SameSubject :
    (x y : Check) → WellFormed x → WellFormed y → text_of x ≡ text_of y → SameSubject x y
text_of-SameSubject (of_user a b u p h) (of_user c d u' p' h') (n, l) (n', l') e =
    key_data-injective u u' p p' h h' n n' l l' e
text_of-SameSubject (of_key a b k h) (of_key c d k' h') w w' e = e
text_of-SameSubject (of_user a b u p h) (of_key c d k h') w w' e =
    absurd (unfold key_data in colon_inside u _ (subst NoColon (sym e) w'))
text_of-SameSubject (of_key a b k h) (of_user c d u p h') w w' e =
    absurd (unfold key_data in colon_inside u _ (subst NoColon e w))

-- One of the verifications has the property.
abbrev pub Among : (Check → Type 0) → List Check → Type 0
Among P [] = ⊥
Among P (x ∷ log) = P x ⊎ Among P log

module _ (lib : HashLib) (hex_sha256 : List ℕ → String) where
  -- What `VerifyPassword` of internal/crypto/hash.go says.
  abbrev pub verdict_of : Check → Result HashError Bool
  verdict_of (of_user now later user_id password stored_hash) =
      verify_password lib stored_hash password
  verdict_of (of_key now later plain_key stored_hash) = verify_password lib stored_hash plain_key

  -- What the cache answers, and what it is afterwards.
  abbrev pub checked : Check → AuthCache → Result HashError Bool × AuthCache
  checked (of_user now later user_id password stored_hash) c =
      verify_user_password lib hex_sha256 now later c user_id password stored_hash
  checked (of_key now later plain_key stored_hash) c =
      verify_key lib hex_sha256 now later c plain_key stored_hash

  -- A log of verifications, the newest first.
  abbrev pub run : List Check → AuthCache → AuthCache
  run [] c = c
  run (x ∷ log) c = (checked x (run log c)).1

  abbrev digest_of : Check → String
  digest_of x = hex_sha256 (text_of x)

  -- A verification of the log has the digest and the verdict.
  abbrev Logged : List Check → String → Bool → Type 0
  Logged log key valid = Among (λ y. (digest_of y ≡ key) × (verdict_of y ≡ ok valid)) log

  Logged-later :
      (x : Check) (log : List Check) (entries : List (String × CacheEntry))
      → All (λ e. Logged log e.0 e.1.valid) entries
      → All (λ e. Logged (x ∷ log) e.0 e.1.valid) entries
  Logged-later x log [] h = tt
  Logged-later x log (e ∷ entries) (l, h) = (inr l, Logged-later x log entries h)

  own-Logged :
      (x : Check) (log : List Check) (r : Result HashError Bool)
      → verdict_of x ≡ r
      → Answers (Logged (x ∷ log)) (digest_of x) r
  own-Logged x log (ok valid) e = inl (refl, e)
  own-Logged x log (err f) e = tt

  when_enabled :
      (Meant : String → Bool → Type 0) (c : AuthCache) (key : String) (r : Result HashError Bool)
      (cached : Result HashError Bool × AuthCache)
      → IsSound Meant c
      → Answers Meant key r
      → IsSound Meant cached.1
      → Answers Meant key cached.0
      → (b : Bool)
      → IsSound Meant (if b then cached else (r, c)).1
        × Answers Meant key (if b then cached else (r, c)).0
  when_enabled Meant c key r cached s m s' m' true = (s', m')
  when_enabled Meant c key r cached s m s' m' false = (s, m)

  -- A verification with the times and the digest of a check of either kind.
  cached-Logged :
      (x : Check) (log : List Check) (now later : ℕ) (c : AuthCache)
      → IsSound (Logged log) c
      → let r = verdict_of x in
        let cached = verify_cached now later c (digest_of x) r in
        IsSound (Logged (x ∷ log)) (if c.enabled then cached else (r, c)).1
        × Answers (Logged (x ∷ log)) (digest_of x) (if c.enabled then cached else (r, c)).0
  cached-Logged x log now later c s =
      let M = Logged (x ∷ log) in
      let r = verdict_of x in
      let s' : IsSound M c = Logged-later x log c.entries s in
      let m = own-Logged x log r refl in
      when_enabled M c (digest_of x) r (verify_cached now later c (digest_of x) r) s' m
        (verify_cached-IsSound M now later c (digest_of x) r m s')
        (verify_cached-Answers M now later c (digest_of x) r m s') c.enabled

  checked-Logged :
      (x : Check) (log : List Check) (c : AuthCache)
      → IsSound (Logged log) c
      → IsSound (Logged (x ∷ log)) (checked x c).1
        × Answers (Logged (x ∷ log)) (digest_of x) (checked x c).0
  unfolding verify_user_password verify_key compute_key compute_key_hash
  checked-Logged (of_user now later u p h) log c s =
      cached-Logged (of_user now later u p h) log now later c s
  checked-Logged (of_key now later k h) log c s =
      cached-Logged (of_key now later k h) log now later c s

  run-IsSound :
      (cfg : AuthCacheConfig) (log : List Check)
      → IsSound (Logged log) (run log (new_auth_cache cfg))
  run-IsSound cfg [] = unfold new_auth_cache in tt
  run-IsSound cfg (x ∷ log) =
      (checked-Logged x log (run log (new_auth_cache cfg)) (run-IsSound cfg log)).0

  -- The digest of no other text of the log is the one of this verification.
  abbrev pub NoCollision : Check → List Check → Type 0
  NoCollision x log = All (λ y. digest_of y ≡ digest_of x → text_of y ≡ text_of x) log

  same_subjects :
      (x : Check) (valid : Bool) (log : List Check)
      → WellFormed x
      → All WellFormed log
      → NoCollision x log
      → Logged log (digest_of x) valid
      → Among (λ y. SameSubject y x × (verdict_of y ≡ ok valid)) log
  same_subjects x valid [] w vs ns h = absurd h
  same_subjects x valid (y ∷ log) w (v, vs) (n, ns) (inl (d, e)) =
      inl (text_of-SameSubject y x v w (n d), e)
  same_subjects x valid (y ∷ log) w (v, vs) (n, ns) (inr h) =
      inr (same_subjects x valid log w vs ns h)

  -- A new cache, any log of verifications one after another and one more, `x`, that gets an answer
  -- without an error; users and API keys without a colon, hashes of more than 32 bytes, and no other
  -- text of the log with the digest of that of `x`. Then `VerifyPassword` gave that answer in `x` itself
  -- or in a verification of the log of the same user, password and first 32 bytes of the hash, or, for
  -- an API key, of the same key.
  pub checked-Among :
      (cfg : AuthCacheConfig) (log : List Check) (x : Check) (valid : Bool)
      → All WellFormed (x ∷ log)
      → NoCollision x log
      → (checked x (run log (new_auth_cache cfg))).0 ≡ ok valid
      → Among (λ y. SameSubject y x × (verdict_of y ≡ ok valid)) (x ∷ log)
  checked-Among cfg log x valid (w, ws) n h =
      let c = run log (new_auth_cache cfg) in
      let answered : Logged (x ∷ log) (digest_of x) valid =
        subst (Answers (Logged (x ∷ log)) (digest_of x)) h
          (checked-Logged x log c (run-IsSound cfg log)).1 in
      same_subjects x valid (x ∷ log) w (w, ws) ((λ e. refl), n) answered
