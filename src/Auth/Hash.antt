-- ===== src/Auth/Hash.antt =====
-- internal/crypto/hash.go: password hashes in the encoded form. Texts are lists of bytes.
pub mod RoundTrip
pub mod Tests
use dbbat.Prelude.{
  ℕ, suc, Bool, true, false, ◌&&◌, Option, none, some, List, [], ◌∷◌, ◌++◌, ◌≡◌, ◌==◌,
  if◌then◌else◌, length, Result, ok, err,
}

pub data HashError : Type 0 where
  invalid_hash_format unsupported_hash_algo bad_version bad_params bad_salt bad_hash : HashError

pub record HashParams : Type 0 where
  pub memory_kb : ℕ
  pub time : ℕ
  pub threads : ℕ

-- What the file takes from `golang.org/x/crypto/argon2`, `fmt` and `encoding/base64`: the key
-- derivation, whose arguments are the password, the salt, the parameters and the length of the
-- result, on a time and a number of threads that are not 0 (it panics on the others, which is left
-- out); the version that it reports; printing and scanning `v=%d` and `m=%d,t=%d,p=%d`; and the
-- unpadded base64 of a list of bytes.
pub record HashLib : Type 0 where
  pub id_key : List ℕ → List ℕ → HashParams → ℕ → List ℕ
  pub argon2_version : ℕ
  pub print_version : ℕ → List ℕ
  pub scan_version : List ℕ → Option ℕ
  pub print_params : HashParams → List ℕ
  pub scan_params : List ℕ → Option HashParams
  pub encode64 : List ℕ → List ℕ
  pub decode64 : List ℕ → Option (List ℕ)

-- `strings.Split(s, "$")`, with the part read so far kept reversed by `++` at its end.
pub split_from : List ℕ → List ℕ → List (List ℕ)
split_from part [] = part ∷ []
split_from part (c ∷ s) = elim (c == b'$') [
  | true ↦ part ∷ split_from [] s
  | false ↦ split_from (part ++ (c ∷ [])) s
]

unfoldable pub split_dollar : List ℕ → List (List ℕ)
unfolding split_from
split_dollar s = split_from [] s

-- Equality of two lists of bytes, which `==` on strings and `ConstantTimeCompare` compute.
pub bytes_eq : List ℕ → List ℕ → Bool
bytes_eq [] [] = true
bytes_eq [] (y ∷ ys) = false
bytes_eq (x ∷ xs) [] = false
bytes_eq (x ∷ xs) (y ∷ ys) = x == y && bytes_eq xs ys

-- `argon2id`
abbrev pub algo : List ℕ
algo = b'a' ∷ b'r' ∷ b'g' ∷ b'o' ∷ b'n' ∷ b'2' ∷ b'i' ∷ b'd' ∷ []

abbrev pub argon2_key_len : ℕ
argon2_key_len = 32

module _ (lib : HashLib) where
  open lib use {
    id_key, argon2_version, print_version, scan_version, print_params, scan_params, encode64,
    decode64,
  }

  -- `HashPasswordWithParams`, with the salt that `rand.Read` delivered.
  unfoldable pub hash_password_with_params : List ℕ → HashParams → List ℕ → List ℕ
  hash_password_with_params password params salt =
      let hash = id_key password salt params argon2_key_len in
      (b'$' ∷ algo)
      ++ ((b'$' ∷ print_version argon2_version)
          ++ ((b'$' ∷ print_params params) ++ ((b'$' ∷ encode64 salt) ++ (b'$' ∷ encode64 hash))))

  verify_digest : List ℕ → HashParams → List ℕ → List ℕ → Bool
  unfolding bytes_eq
  verify_digest password params salt expected =
      bytes_eq (id_key password salt params (length expected)) expected

  verify_hash : List ℕ → HashParams → List ℕ → Option (List ℕ) → Result HashError Bool
  unfolding verify_digest
  verify_hash password params salt none = err bad_hash
  verify_hash password params salt (some expected) =
      ok (verify_digest password params salt expected)

  verify_salt : List ℕ → HashParams → Option (List ℕ) → List ℕ → Result HashError Bool
  unfolding verify_hash
  verify_salt password params none hash = err bad_salt
  verify_salt password params (some salt) hash = verify_hash password params salt (decode64 hash)

  verify_params : List ℕ → Option HashParams → List ℕ → List ℕ → Result HashError Bool
  unfolding verify_salt
  verify_params password none salt hash = err bad_params
  verify_params password (some params) salt hash = verify_salt password params (decode64 salt) hash

  verify_version : List ℕ → Option ℕ → List ℕ → List ℕ → List ℕ → Result HashError Bool
  unfolding verify_params
  verify_version password none params salt hash = err bad_version
  verify_version password (some version) params salt hash =
      verify_params password (scan_params params) salt hash

  -- Six parts, the first of which is not read.
  verify_parts : List ℕ → List (List ℕ) → Result HashError Bool
  unfolding verify_version bytes_eq
  verify_parts password (p ∷ name ∷ version ∷ params ∷ salt ∷ hash ∷ []) =
      if bytes_eq name algo
      then verify_version password (scan_version version) params salt hash
      else err unsupported_hash_algo
  verify_parts password parts = err invalid_hash_format

  -- `VerifyPassword`
  pub verify_password : List ℕ → List ℕ → Result HashError Bool
  unfolding verify_parts
  verify_password encoded_hash password = verify_parts password (split_dollar encoded_hash)
