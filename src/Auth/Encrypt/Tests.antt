-- ===== src/Auth/Encrypt/Tests.antt =====
-- Runs of internal/crypto/encrypt.go over a cipher that writes the additional data out, with its
-- length, before the secret.
use dbbat.Prelude.{
  ℕ, suc, ◌≡◌, ◌≢◌, refl, sym, ap, ◌∙◌, Bool-cases, inl, inr, Option, none, some, List, [], ◌∷◌,
  ◌++◌, if◌then◌else◌, length, take, drop, take-append, drop-append, replicate, length-replicate,
  ok, err,
}
use dbbat.Auth.Hash.{bytes_eq}
use dbbat.Auth.Hash.RoundTrip.{bytes_eq_self, bytes_eq→eq}
use dbbat.Auth.Encrypt.{
  CipherLib, invalid_key_size, ciphertext_too_short, failed_to_decrypt, gcm_of, encrypt, decrypt,
}
use dbbat.Auth.Encrypt.Rows.{server, user, aad_of, CipherLaws, Fills, decrypt-encrypt}

toy_seal : List ℕ → List ℕ → List ℕ
toy_seal plaintext aad = length aad ∷ (aad ++ plaintext)

toy_open : List ℕ → List ℕ → Option (List ℕ)
toy_open sealed aad =
    if bytes_eq (take (suc (length aad)) sealed) (length aad ∷ aad)
    then some (drop (suc (length aad)) sealed)
    else none

abbrev toy_lib : CipherLib (Unit {0}) (Unit {0})
toy_lib = record {
  new_cipher = λ key. some tt;
  new_gcm = λ block. some tt;
  nonce_size = λ gcm. 12;
  seal = λ gcm nonce plaintext aad. toy_seal plaintext aad;
  open_sealed = λ gcm nonce sealed aad. toy_open sealed aad;
}

toy_open-toy_seal :
    (plaintext aad : List ℕ) → toy_open (toy_seal plaintext aad) aad ≡ some plaintext
unfolding toy_open toy_seal
toy_open-toy_seal plaintext aad =
    rw (take-append aad plaintext, bytes_eq_self (length aad ∷ aad), drop-append aad plaintext) refl

-- The same start, and as long: the same.
take_append_inj :
    (xs ys rest : List ℕ) → length ys ≡ length xs → take (length xs) (ys ++ rest) ≡ xs → ys ≡ xs
take_append_inj xs ys rest n e = sym (take-append ys rest) ∙ (ap (λ k. take k (ys ++ rest)) n ∙ e)

toy_open-other :
    (plaintext aad other : List ℕ) → other ≢ aad → toy_open (toy_seal plaintext aad) other ≡ none
unfolding toy_open toy_seal
toy_open-other plaintext aad other differ =
    let told = take (suc (length other)) (length aad ∷ (aad ++ plaintext)) in
    elim (Bool-cases (bytes_eq told (length other ∷ other))) [
      | inl same ↦
          let e : told ≡ length other ∷ other = bytes_eq→eq told (length other ∷ other) same in
          absurd (differ (sym (take_append_inj other aad plaintext (cc e) (cc e))))
      | inr differs ↦ rw differs refl
    ]

toy_laws : CipherLaws toy_lib
toy_laws = record {
  block_of = λ key h. (tt, refl);
  mode_of = λ block. (tt, refl);
  open_sealed-seal = λ gcm nonce plaintext aad h. toy_open-toy_seal plaintext aad;
  open_sealed-other =
      λ gcm nonce plaintext aad other h differ. toy_open-other plaintext aad other differ;
}

abbrev zeros : ℕ → Option (List ℕ)
zeros n = some (replicate n 0)

zeros-Fills : Fills zeros
zeros-Fills n = (replicate n 0, (refl, length-replicate n 0))

abbrev uid : List ℕ
uid = 1 ∷ 2 ∷ []

abbrev key : List ℕ
key = replicate 32 7

server-ne-user : server uid ≢ user uid
server-ne-user e = cc e

decrypt-encrypt_example :
    (sealed : List ℕ) × ((encrypt toy_lib zeros (3 ∷ []) key (aad_of (user uid)) ≡ ok sealed)
      × ((decrypt toy_lib sealed key (aad_of (user uid)) ≡ ok (3 ∷ []))
          × (decrypt toy_lib sealed key (aad_of (server uid)) ≡ err failed_to_decrypt)))
decrypt-encrypt_example =
    decrypt-encrypt toy_lib toy_laws zeros zeros-Fills (3 ∷ []) key refl (user uid) (server uid)
      server-ne-user

-- A key of another size, and a text that is shorter than a nonce.
decrypt_short_key : decrypt toy_lib (replicate 20 0) (7 ∷ []) [] ≡ err invalid_key_size
unfolding decrypt gcm_of
decrypt_short_key = refl

decrypt_short_text : decrypt toy_lib (replicate 11 0) key [] ≡ err ciphertext_too_short
unfolding decrypt gcm_of
decrypt_short_text = refl
