-- ===== src/Auth/Hash/Tests.antt =====
-- Runs of internal/crypto/hash.go over a library that writes a number `n` as the character `n + 37`.
use dbbat.Prelude.{
  ℕ, zero, suc, ◌+◌, ◌-◌, ◌%◌, ◌<◌, ◌≡◌, refl, ap, true, Option, some, none, List, [], ◌∷◌, arith,
  All, length, replicate, length-replicate, ok,
}
use dbbat.Auth.Hash.{
  HashLib, HashParams, hash_password_with_params, verify_password, bytes_eq, argon2_key_len,
}
use dbbat.Auth.Hash.RoundTrip.{IsByte, NoDollar, InRange, HashLaws, verify-hash_password}

unfoldable pub shift : List ℕ → List ℕ
shift [] = []
shift (b ∷ bytes) = (b + 37) ∷ shift bytes

pub unshift : List ℕ → List ℕ
unshift [] = []
unshift (c ∷ text) = (c - 37) ∷ unshift text

abbrev scan_one : List ℕ → Option ℕ
scan_one (c ∷ []) = some (c - 37)
scan_one text = none

abbrev scan_three : List ℕ → Option HashParams
scan_three (m ∷ t ∷ p ∷ []) = some (record { memory_kb = m - 37; time = t - 37; threads = p - 37 })
scan_three text = none

abbrev pub toy_lib : HashLib
toy_lib = record {
  id_key = λ password salt params n. replicate n (length password % 256);
  argon2_version = 19;
  print_version = λ v. (v + 37) ∷ [];
  scan_version = scan_one;
  print_params = λ q. (q.memory_kb + 37) ∷ (q.time + 37) ∷ (q.threads + 37) ∷ [];
  scan_params = scan_three;
  encode64 = shift;
  decode64 = λ text. some (unshift text);
}

pub unshift-shift : (bytes : List ℕ) → unshift (shift bytes) ≡ bytes
unfolding shift unshift
unshift-shift [] = refl
unshift-shift (b ∷ bytes) = ground (arith, unshift-shift bytes)

shift-NoDollar : (bytes : List ℕ) → NoDollar (shift bytes)
unfolding shift
shift-NoDollar [] = tt
shift-NoDollar (b ∷ bytes) = (omega arith, shift-NoDollar bytes)

replicate-IsByte : (n b : ℕ) → b < 256 → All IsByte (replicate n b)
replicate-IsByte zero b h = tt
replicate-IsByte (suc n) b h = (h, replicate-IsByte n b h)

pub toy_laws : HashLaws toy_lib
toy_laws = record {
  scan-print_version = refl;
  scan-print_params = λ q r. ground arith;
  decode64-encode64 = λ bytes h. ap some (unshift-shift bytes);
  print_version_plain = (omega arith, tt);
  print_params_plain = λ q. (omega arith, (omega arith, (omega arith, tt)));
  encode64_plain = shift-NoDollar;
  id_key_bytes = λ password salt q n. replicate-IsByte n (length password % 256) (omega arith);
  length-id_key = λ password salt q n. length-replicate n (length password % 256);
}

abbrev pub default_params : HashParams
default_params = record { memory_kb = 8192; time = 1; threads = 4 }

pub default-InRange : InRange default_params
default-InRange = record {
  memory = omega arith;
  time_positive = omega arith;
  threads_positive = omega arith;
  time = omega arith;
  threads = omega arith;
}

abbrev pub a_salt : List ℕ
a_salt = 1 ∷ 2 ∷ 3 ∷ 4 ∷ 5 ∷ 6 ∷ 7 ∷ 8 ∷ 9 ∷ 10 ∷ 11 ∷ 12 ∷ 13 ∷ 14 ∷ 15 ∷ 16 ∷ []

a_salt-IsByte : All IsByte a_salt
a_salt-IsByte = ground arith

abbrev pub a_password : List ℕ
a_password = b's' ∷ b'e' ∷ b'c' ∷ []

abbrev pub new_password : List ℕ
new_password = b'n' ∷ b'e' ∷ b'w' ∷ b'x' ∷ []

abbrev pub old_hash : List ℕ
old_hash = hash_password_with_params toy_lib a_password default_params a_salt

verify-hash_password_example :
    (verify_password toy_lib
        (hash_password_with_params toy_lib a_password default_params a_salt)
        new_password
      ≡ ok (bytes_eq (replicate argon2_key_len 4) (replicate argon2_key_len 3)))
    × (verify_password toy_lib
          (hash_password_with_params toy_lib a_password default_params a_salt)
          a_password
        ≡ ok true)
verify-hash_password_example =
    verify-hash_password toy_lib toy_laws a_password new_password a_salt default_params
      a_salt-IsByte default-InRange
