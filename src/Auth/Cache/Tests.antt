-- ===== src/Auth/Cache/Tests.antt =====
-- Runs of internal/cache/auth.go.
use dbbat.Prelude.{
  ℕ, ◌≡◌, refl, String, true, false, List, [], ◌∷◌, ◌++◌, arith, ok, All, ◌==◌, if◌then◌else◌,
}
use dbbat.Prelude.Keys.{string_eq, ne_of_test}
use dbbat.Prelude.Maps.{lookup, Unique}
use dbbat.Auth.Hash.{hash_password_with_params}
use dbbat.Auth.Hash.RoundTrip.{verify-hash_password}
use dbbat.Auth.Cache.{
  CacheEntry, AuthCache, AuthCacheConfig, new_auth_cache, live_entry, compute_key, compute_key_hash,
  verify_user_password, verify_key,
}
use dbbat.Auth.Cache.Oldest.{KeysPresent}
use dbbat.Auth.Cache.Bounds.{IsValid}
use dbbat.Auth.Cache.Expiry.{verify_user_password-stale}
use dbbat.Auth.Cache.Answered.{
  Check, of_user, WellFormed, SameSubject, Among, verdict_of, checked, run, NoCollision,
  checked-Among,
}
use dbbat.Auth.Hash.Tests.{
  shift, toy_lib, toy_laws, default_params, default-InRange, a_salt, a_password, new_password,
}

abbrev two_entries : List (String × CacheEntry)
two_entries =
    ("a", record { valid = true; timestamp = 5 })
    ∷ ("b", record { valid = false; timestamp = 3 })
    ∷ []

two-Unique : Unique two_entries
two-Unique = unfold lookup in (refl, (refl, tt))

two-KeysPresent : KeysPresent two_entries
two-KeysPresent = (ne_of_test "a" "" refl, (ne_of_test "b" "" refl, tt))

abbrev small_cache : AuthCache
small_cache = record {
  entries = two_entries;
  ttl = 100;
  max_size = 2;
  enabled = true;
  hits = 0;
  misses = 0;
}

abbrev small_config : AuthCacheConfig
small_config = record { enabled = true; ttl_seconds = 300; max_size = 2 }

small-IsValid : IsValid small_cache
small-IsValid = record { unique = two-Unique; present = two-KeysPresent; bounded = ground arith }

-- A digest that tells texts apart by nothing: the cache may still only give verdicts of digests.
abbrev no_digest : List ℕ → String
no_digest text = "k"

abbrev empty_cache : AuthCache
empty_cache = new_auth_cache small_config

abbrev a_user : List ℕ
a_user = b'u' ∷ []

-- The password is changed; the new hash has the salt of the old one here.
abbrev new_hash : List ℕ
new_hash = hash_password_with_params toy_lib new_password default_params (a_salt ++ (1 ∷ []))

abbrev old_hash_long : List ℕ
old_hash_long = hash_password_with_params toy_lib a_password default_params (a_salt ++ (1 ∷ []))

verify_user_password-stale_example :
    (verify_user_password toy_lib no_digest 20 21
      (verify_user_password toy_lib no_digest 10 11 empty_cache
        (b'u' ∷ [])
        a_password
        old_hash_long).1
      (b'u' ∷ [])
      a_password
      new_hash).0
    ≡ ok true
verify_user_password-stale_example =
    verify_user_password-stale toy_lib no_digest 10 11 20 21 empty_cache (b'u' ∷ []) a_password
      old_hash_long new_hash true (unfold new_auth_cache in refl)
      (unfold new_auth_cache live_entry lookup in refl)
      (verify-hash_password toy_lib toy_laws a_password new_password (a_salt ++ (1 ∷ []))
        default_params (ground arith) default-InRange).1
      (unfold hash_password_with_params shift in omega arith)
      (unfold hash_password_with_params shift in omega arith)
      (unfold hash_password_with_params shift in refl) (unfold new_auth_cache in omega arith)

-- A digest that looks at the first byte alone.
first_byte : List ℕ → String
first_byte [] = "none"
first_byte (c ∷ text) = if c == b'u' then "u" else "other"

abbrev user_check : Check
user_check = of_user 10 11 a_user a_password old_hash_long

abbrev stale_check : Check
stale_check = of_user 20 21 a_user a_password new_hash

stale_test :
    (checked toy_lib first_byte stale_check
      (run toy_lib first_byte (user_check ∷ []) empty_cache)).0
    ≡ ok true
stale_test =
    verify_user_password-stale toy_lib first_byte 10 11 20 21 empty_cache a_user a_password
      old_hash_long new_hash true (unfold new_auth_cache in refl)
      (unfold new_auth_cache live_entry lookup in refl)
      (verify-hash_password toy_lib toy_laws a_password new_password (a_salt ++ (1 ∷ []))
        default_params (ground arith) default-InRange).1
      (unfold hash_password_with_params shift in omega arith)
      (unfold hash_password_with_params shift in omega arith)
      (unfold hash_password_with_params shift in refl) (unfold new_auth_cache in omega arith)

stale-WellFormed : All WellFormed (stale_check ∷ user_check ∷ [])
unfolding hash_password_with_params shift
stale-WellFormed = (((omega arith, tt), omega arith), (((omega arith, tt), omega arith), tt))

stale-NoCollision : NoCollision toy_lib first_byte stale_check (user_check ∷ [])
unfolding hash_password_with_params shift dbbat.Auth.Cache.key_data
stale-NoCollision = ((λ e. refl), tt)

checked-Among_example :
    Among
      (λ y. SameSubject y stale_check × (verdict_of toy_lib first_byte y ≡ ok true))
      (stale_check ∷ user_check ∷ [])
checked-Among_example =
    checked-Among toy_lib first_byte small_config (user_check ∷ []) stale_check true
      stale-WellFormed stale-NoCollision stale_test
