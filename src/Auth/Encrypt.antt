-- ===== src/Auth/Encrypt.antt =====
-- internal/crypto/encrypt.go: secrets at rest, bound to the row that they belong to. Texts are
-- lists of bytes.
pub mod Rows
pub mod Tests
use dbbat.Prelude.{
  ℕ, Bool, true, false, Option, none, some, List, [], ◌++◌, ◌==◌, if◌then◌else◌, length, take, drop,
  ltb, Result, ok, err, ◌>>=◌, ◌>>◌, guard,
}
use dbbat.Prelude.Texts.{codes}

pub data EncryptError : Type 0 where
  invalid_key_size ciphertext_too_short no_cipher no_gcm no_nonce failed_to_decrypt : EncryptError

-- What the file takes from `crypto/aes` and `crypto/cipher`, over their types of a block cipher
-- and of an authenticated mode. `seal` and `open` are called without a destination: the code puts
-- the nonce before what `seal` gives.
pub record CipherLib (Block Gcm : Type 0) : Type 0 where
  pub new_cipher : List ℕ → Option Block
  pub new_gcm : Block → Option Gcm
  pub nonce_size : Gcm → ℕ
  pub seal : Gcm → List ℕ → List ℕ → List ℕ → List ℕ
  pub open_sealed : Gcm → List ℕ → List ℕ → List ℕ → Option (List ℕ)

-- A nil result and an error of its own.
abbrev pub or_else : {A : Type 0} → Option A → EncryptError → Result EncryptError A
or_else none e = err e
or_else (some a) e = ok a

module _ {Block Gcm : Type 0} (lib : CipherLib Block Gcm) where
  -- What both begin with: the size of the key, the cipher and its mode.
  unfoldable pub gcm_of : List ℕ → Result EncryptError Gcm
  gcm_of key = do
    guard (length key == 32) invalid_key_size
    block ← or_else (lib.new_cipher key) no_cipher
    or_else (lib.new_gcm block) no_gcm

  -- `Encrypt`, where `random` is `io.ReadFull` from `rand.Reader`.
  unfoldable pub encrypt :
      (ℕ → Option (List ℕ)) → List ℕ → List ℕ → List ℕ → Result EncryptError (List ℕ)
  encrypt random plaintext key aad = do
    gcm ← gcm_of key
    nonce ← or_else (random (lib.nonce_size gcm)) no_nonce
    ok (nonce ++ lib.seal gcm nonce plaintext aad)

  -- `Decrypt`
  unfoldable pub decrypt : List ℕ → List ℕ → List ℕ → Result EncryptError (List ℕ)
  decrypt ciphertext key aad = do
    gcm ← gcm_of key
    let size = lib.nonce_size gcm in
        if ltb (length ciphertext) size
        then err ciphertext_too_short
        else or_else (lib.open_sealed gcm (take size ciphertext) (drop size ciphertext) aad)
            failed_to_decrypt

unfoldable pub server_aad : List ℕ → List ℕ
server_aad database_uid = codes "database:" ++ database_uid

unfoldable pub api_key_aad : List ℕ → List ℕ
api_key_aad key_prefix = codes "apikey:" ++ key_prefix

unfoldable pub user_aad : List ℕ → List ℕ
user_aad user_uid = codes "user:" ++ user_uid

unfoldable pub device_auth_aad : List ℕ → List ℕ
device_auth_aad request_uid = codes "deviceauth:" ++ request_uid
