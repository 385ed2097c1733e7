-- ===== src/Auth/Encrypt/Rows.antt =====
-- A secret is opened for the row that it was sealed for, and for no other one
-- (internal/crypto/encrypt.go).
use dbbat.Prelude.{
  ℕ, ◌≡◌, ◌≢◌, refl, ap, ◌∙◌, false, Option, none, some, List, ◌∷◌, ◌++◌, ◌==◌, ltb, if◌then◌else◌,
  length, drop, take-append, drop-append, length-append, ok, err, arith,
}
use dbbat.Auth.Encrypt.{
  CipherLib, failed_to_decrypt, or_else, gcm_of, encrypt, decrypt, server_aad, api_key_aad,
  user_aad, device_auth_aad,
}

-- The rows that hold a secret, each with what names it.
pub data Owner : Type 0 where
  server api_key user device_auth : List ℕ → Owner

unfoldable pub aad_of : Owner → List ℕ
unfolding server_aad api_key_aad user_aad device_auth_aad
aad_of (server uid) = server_aad uid
aad_of (api_key prefix) = api_key_aad prefix
aad_of (user uid) = user_aad uid
aad_of (device_auth uid) = device_auth_aad uid

-- The row back from the additional data: its second letter tells the kind.
owner_of : List ℕ → Option Owner
owner_of (a ∷ b ∷ rest) =
    if b == 97
    then some (server (drop 7 rest))
    else if b == 112
    then some (api_key (drop 5 rest))
    else if b == 115
    then some (user (drop 3 rest))
    else some (device_auth (drop 9 rest))
owner_of aad = none

owner_of-aad_of : (owner : Owner) → owner_of (aad_of owner) ≡ some owner
unfolding owner_of aad_of server_aad api_key_aad user_aad device_auth_aad
owner_of-aad_of (server x) = refl
owner_of-aad_of (api_key x) = refl
owner_of-aad_of (user x) = refl
owner_of-aad_of (device_auth x) = refl

aad_of-injective : (a b : Owner) → aad_of a ≡ aad_of b → a ≡ b
aad_of-injective a b e = cc (owner_of-aad_of a, owner_of-aad_of b)

-- The documented behaviour of the two packages. A key of 32 bytes is one that `aes.NewCipher`
-- takes, and its block is one that `cipher.NewGCM` takes; what is sealed with a nonce of the right
-- length opens with the same nonce and additional data, and with no other additional data.
pub record CipherLaws {Block Gcm : Type 0} (lib : CipherLib Block Gcm) : Type 0 where
  pub block_of :
      (key : List ℕ) → length key ≡ 32 → (block : Block) × (lib.new_cipher key ≡ some block)
  pub mode_of : (block : Block) → (gcm : Gcm) × (lib.new_gcm block ≡ some gcm)
  pub open_sealed-seal :
      (gcm : Gcm) (nonce plaintext aad : List ℕ)
      → length nonce ≡ lib.nonce_size gcm
      → lib.open_sealed gcm nonce (lib.seal gcm nonce plaintext aad) aad ≡ some plaintext
  pub open_sealed-other :
      (gcm : Gcm) (nonce plaintext aad other : List ℕ)
      → length nonce ≡ lib.nonce_size gcm
      → other ≢ aad
      → lib.open_sealed gcm nonce (lib.seal gcm nonce plaintext aad) other ≡ none

-- `rand.Reader` fills every buffer, as it is documented to.
abbrev pub Fills : (ℕ → Option (List ℕ)) → Type 0
Fills random = (n : ℕ) → (bytes : List ℕ) × ((random n ≡ some bytes) × (length bytes ≡ n))

module _ {Block Gcm : Type 0} (lib : CipherLib Block Gcm) (laws : CipherLaws lib) where
  gcm_of-ok : (key : List ℕ) → length key ≡ 32 → (gcm : Gcm) × (gcm_of lib key ≡ ok gcm)
  unfolding gcm_of
  gcm_of-ok key h =
      let (block, b) = laws.block_of key h in
      let (gcm, g) = laws.mode_of block in (gcm, (rw (h, b, g) refl))

  encrypt-ok :
      (random : ℕ → Option (List ℕ)) (plaintext key aad nonce : List ℕ) (gcm : Gcm)
      → gcm_of lib key ≡ ok gcm
      → random (lib.nonce_size gcm) ≡ some nonce
      → encrypt lib random plaintext key aad ≡ ok (nonce ++ lib.seal gcm nonce plaintext aad)
  unfolding encrypt
  encrypt-ok random plaintext key aad nonce gcm g r = rw (g, r) refl

  -- What is opened is split where the nonce ends.
  decrypt-append :
      (key aad nonce sealed : List ℕ) (gcm : Gcm)
      → gcm_of lib key ≡ ok gcm
      → length nonce ≡ lib.nonce_size gcm
      → decrypt lib (nonce ++ sealed) key aad
        ≡ or_else (lib.open_sealed gcm nonce sealed aad) failed_to_decrypt
  unfolding decrypt
  decrypt-append key aad nonce sealed gcm g n =
      let enough : ltb (length (nonce ++ sealed)) (length nonce) ≡ false =
        ground (arith, length-append nonce sealed) in
      rw (g, ← n, enough, take-append nonce sealed, drop-append nonce sealed) refl

-- Any secret, any key of 32 bytes and any two different rows: sealing for one of them gives no
-- error, what it gives opens for that row as the secret, and for the other row it is refused.
pub decrypt-encrypt :
    {Block Gcm : Type 0} (lib : CipherLib Block Gcm)
    → CipherLaws lib
    → (random : ℕ → Option (List ℕ)) → Fills random
    → (plaintext key : List ℕ) → length key ≡ 32
    → (owner other : Owner) → other ≢ owner
    → (sealed : List ℕ) × ((encrypt lib random plaintext key (aad_of owner) ≡ ok sealed)
        × ((decrypt lib sealed key (aad_of owner) ≡ ok plaintext)
            × (decrypt lib sealed key (aad_of other) ≡ err failed_to_decrypt)))
decrypt-encrypt lib laws random fills plaintext key h owner other differ =
    let (gcm, g) = gcm_of-ok lib laws key h in
    let (nonce, (r, n)) = fills (lib.nonce_size gcm) in
    let sealed = lib.seal gcm nonce plaintext (aad_of owner) in
    let apart : aad_of other ≢ aad_of owner = λ e. differ (aad_of-injective other owner e) in
    let opens = laws.open_sealed-seal gcm nonce plaintext (aad_of owner) n in
    let refused =
      laws.open_sealed-other gcm nonce plaintext (aad_of owner) (aad_of other) n apart in
    (
      nonce ++ sealed,
      (
        encrypt-ok lib laws random plaintext key (aad_of owner) nonce gcm g r,
        (
          decrypt-append lib laws key (aad_of owner) nonce sealed gcm g n
              ∙ ap (λ o. or_else o failed_to_decrypt) opens,
          decrypt-append lib laws key (aad_of other) nonce sealed gcm g n
              ∙ ap (λ o. or_else o failed_to_decrypt) refused,
        ),
      ),
    )
