-- ===== src/Auth/Hash/RoundTrip.antt =====
-- A hash that internal/crypto/hash.go makes is read back by its own `VerifyPassword`.
use dbbat.Prelude.{
  ℕ, ◌^◌, ◌<◌, ◌≡◌, ◌≢◌, refl, ap, ◌∙◌, true, some, List, [], ◌∷◌, ◌++◌, arith, length, All, ok,
}
use mathlib.Core.List.{append-nil, append_assoc}
use dbbat.Auth.Hash.{
  HashLib, HashParams, algo, argon2_key_len, split_from, split_dollar, bytes_eq,
  hash_password_with_params, verify_password,
}

abbrev pub IsByte : ℕ → Type 0
IsByte b = b < 256

abbrev pub NoDollar : List ℕ → Type 0
NoDollar = All (λ c. c ≢ b'$')

-- The fields of the code are `uint32`, `uint32` and `uint8`; on a time or a number of threads that is 0
-- the key derivation panics.
pub record InRange (params : HashParams) : Type 0 where
  pub memory : params.memory_kb < 2 ^ 32
  pub time_positive : 0 < params.time
  pub threads_positive : 0 < params.threads
  pub time : params.time < 2 ^ 32
  pub threads : params.threads < 2 ^ 8

-- The documented behaviour of the libraries: what is printed is scanned back, base64 is decoded
-- back, none of these texts has a dollar sign, and the key derivation gives as many bytes as asked.
pub record HashLaws (lib : HashLib) : Type 0 where
  pub scan-print_version :
      lib.scan_version (lib.print_version lib.argon2_version) ≡ some lib.argon2_version
  pub scan-print_params :
      (params : HashParams)
      → InRange params
      → lib.scan_params (lib.print_params params) ≡ some params
  pub decode64-encode64 :
      (bytes : List ℕ) → All IsByte bytes → lib.decode64 (lib.encode64 bytes) ≡ some bytes
  pub print_version_plain : NoDollar (lib.print_version lib.argon2_version)
  pub print_params_plain : (params : HashParams) → NoDollar (lib.print_params params)
  pub encode64_plain : (bytes : List ℕ) → NoDollar (lib.encode64 bytes)
  pub id_key_bytes :
      (password salt : List ℕ) (params : HashParams) (n : ℕ)
      → All IsByte (lib.id_key password salt params n)
  pub length-id_key :
      (password salt : List ℕ) (params : HashParams) (n : ℕ)
      → length (lib.id_key password salt params n) ≡ n

pub bytes_eq_self : (xs : List ℕ) → bytes_eq xs xs ≡ true
unfolding bytes_eq
bytes_eq_self [] = refl
bytes_eq_self (x ∷ xs) = ground (arith, bytes_eq_self xs)

pub bytes_eq→eq : (xs ys : List ℕ) → bytes_eq xs ys ≡ true → xs ≡ ys
unfolding bytes_eq
bytes_eq→eq [] [] h = refl
bytes_eq→eq [] (y ∷ ys) h = cc
bytes_eq→eq (x ∷ xs) [] h = cc
bytes_eq→eq (x ∷ xs) (y ∷ ys) h = ground (arith, bytes_eq→eq xs ys)

-- A part without a dollar sign is split off whole.
split_from-part :
    (acc part rest : List ℕ)
    → NoDollar part
    → split_from acc (part ++ (b'$' ∷ rest)) ≡ (acc ++ part) ∷ split_from [] rest
unfolding split_from
split_from-part acc [] rest h = rw append-nil
split_from-part acc (c ∷ part) rest (h, hs) =
    ground (arith, split_from-part (acc ++ (c ∷ [])) part rest hs, append_assoc acc (c ∷ []) part)

split_from-last : (acc part : List ℕ) → NoDollar part → split_from acc part ≡ (acc ++ part) ∷ []
unfolding split_from
split_from-last acc [] h = rw append-nil
split_from-last acc (c ∷ part) (h, hs) =
    ground (arith, split_from-last (acc ++ (c ∷ [])) part hs, append_assoc acc (c ∷ []) part)

-- Six parts, the first of them empty.
split_dollar-join :
    (a b c d e : List ℕ)
    → NoDollar a
    → NoDollar b
    → NoDollar c
    → NoDollar d
    → NoDollar e
    → split_dollar ((b'$' ∷ a) ++ ((b'$' ∷ b) ++ ((b'$' ∷ c) ++ ((b'$' ∷ d) ++ (b'$' ∷ e)))))
      ≡ [] ∷ a ∷ b ∷ c ∷ d ∷ e ∷ []
unfolding split_dollar
split_dollar-join a b c d e ha hb hc hd he = rw (
  split_from-part [] [] (a ++ (b'$' ∷ b ++ (b'$' ∷ c ++ (b'$' ∷ d ++ (b'$' ∷ e))))) tt,
  split_from-part [] a (b ++ (b'$' ∷ c ++ (b'$' ∷ d ++ (b'$' ∷ e)))) ha,
  split_from-part [] b (c ++ (b'$' ∷ d ++ (b'$' ∷ e))) hb,
  split_from-part [] c (d ++ (b'$' ∷ e)) hc,
  split_from-part [] d e hd,
  split_from-last [] e he,
)

module _ (lib : HashLib) (laws : HashLaws lib) where
  -- A password is checked against a hash made with a salt of bytes and parameters in range, with a
  -- time and a number of threads that are not 0. The answer is never an error, and it is the comparison
  -- of the two derived keys of 32 bytes; so the password that was hashed is accepted, and another one
  -- only if its key is the same.
  pub verify-hash_password :
      (password other salt : List ℕ) (params : HashParams)
      → All IsByte salt
      → InRange params
      → (verify_password lib (hash_password_with_params lib password params salt) other
          ≡ ok (
              bytes_eq
                (lib.id_key other salt params argon2_key_len)
                (lib.id_key password salt params argon2_key_len)))
        × (verify_password lib (hash_password_with_params lib password params salt) password
            ≡ ok true)
  unfolding verify_password hash_password_with_params
  verify-hash_password password other salt params sb range =
      (all other, all password ∙ ap ok (bytes_eq_self key))
    where
      key : List ℕ
      key = lib.id_key password salt params argon2_key_len

      parts :
          split_dollar (hash_password_with_params lib password params salt)
          ≡ []
            ∷ algo
            ∷ lib.print_version lib.argon2_version
            ∷ lib.print_params params
            ∷ lib.encode64 salt
            ∷ lib.encode64 key
            ∷ []
      parts =
          split_dollar-join _ _ _ _ _ (omega arith) laws.print_version_plain
            (laws.print_params_plain params) (laws.encode64_plain salt) (laws.encode64_plain key)

      all :
          (p : List ℕ)
          → verify_password lib (hash_password_with_params lib password params salt) p
            ≡ ok (bytes_eq (lib.id_key p salt params argon2_key_len) key)
      all p = rw (
        parts,
        laws.scan-print_version,
        laws.scan-print_params params range,
        laws.decode64-encode64 salt sb,
        laws.decode64-encode64 key (laws.id_key_bytes password salt params argon2_key_len),
        laws.length-id_key password salt params argon2_key_len,
      )
