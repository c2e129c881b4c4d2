-- ===== src/OAuth/Cipher.antt =====
-- auth/oauth/crypt.go: AESGCMCipher. Package aes, package cipher, base64, the environment and the random
-- bytes are parameters; a variable that is not set reads as empty.
use sibyl.Prelude.{
  ℕ, ◌≡◌, ◌↔◌, refl, sym, ap, ◌∙◌, String, false, List, ◌++◌, ◌==◌, Result, ok, err, ◌>>=◌, ◌>>◌,
  fail_if, map_err, map_err-ok, not, nat_eq, ltb, length, take, drop, take-drop, length-take,
  length-append, take-length-append, drop-length-append, Bool-cases, ok-inj, err-ne-ok, inl, inr,
  arith,
}

-- cipher.AEAD, without additional data.
pub record Aead (F : Type 0) : Type 0 where
  pub nonce_size : ℕ
  pub seal : List ℕ → List ℕ → List ℕ
  pub unseal : List ℕ → List ℕ → Result F (List ℕ)

-- What is opened under a nonce is exactly what was sealed under it.
abbrev pub IsSealing : {F : Type 0} → Aead F → Type 0
IsSealing aead =
    (nonce sealed plaintext : List ℕ)
    → length nonce ≡ aead.nonce_size
    → (aead.unseal nonce sealed ≡ ok plaintext ↔ sealed ≡ aead.seal nonce plaintext)

pub data CipherError (F : Type 0) : Type 0 where
  key_length : ℕ → CipherError F
  key_unset ciphertext_too_short : CipherError F
  new_cipher_failed new_gcm_failed base64_failed nonce_failed gcm_open_failed : F → CipherError F

module _ {F : Type 0} where
  unfoldable pub new_aes_gcm_cipher :
      {K : Type 0}
      → (List ℕ → Result F K)
      → (K → Result F (Aead F))
      → List ℕ
      → Result (CipherError F) (Aead F)
  new_aes_gcm_cipher new_cipher new_gcm key = do
    fail_if (not (nat_eq (length key) 32)) (key_length (length key))
    block ← map_err new_cipher_failed (new_cipher key)
    map_err new_gcm_failed (new_gcm block)

  abbrev pub or_next : {A : Type 0} → Result F A → Result F A → Result F A
  or_next (ok a) r = ok a
  or_next (err e) r = r

  -- `raw` is the environment variable; three decoders are tried in their order.
  unfoldable pub new_aes_gcm_cipher_from_env :
      {K : Type 0}
      → (List ℕ → Result F K)
      → (K → Result F (Aead F))
      → (String → Result F (List ℕ))
      → (String → Result F (List ℕ))
      → (String → Result F (List ℕ))
      → String
      → Result (CipherError F) (Aead F)
  new_aes_gcm_cipher_from_env new_cipher new_gcm standard unpadded url raw = do
    fail_if (raw == "") key_unset
    key ← map_err base64_failed (or_next (standard raw) (or_next (unpadded raw) (url raw)))
    new_aes_gcm_cipher new_cipher new_gcm key

  module _ (aead : Aead F) where
    -- `nonce` is what reading random bytes gave.
    unfoldable pub encrypt : Result F (List ℕ) → List ℕ → Result (CipherError F) (List ℕ)
    encrypt random plaintext = do
      nonce ← map_err nonce_failed random
      ok (nonce ++ aead.seal nonce plaintext)

    unfoldable pub decrypt : List ℕ → Result (CipherError F) (List ℕ)
    decrypt ciphertext = do
      fail_if (ltb (length ciphertext) aead.nonce_size) ciphertext_too_short
      map_err gcm_open_failed
          (aead.unseal (take aead.nonce_size ciphertext) (drop aead.nonce_size ciphertext))

    module _ (sealing : IsSealing aead) where
      encrypt-decrypt :
          (ciphertext plaintext : List ℕ)
          → decrypt ciphertext ≡ ok plaintext
          → (nonce : List ℕ) × (length nonce ≡ aead.nonce_size)
            × (encrypt (ok nonce) plaintext ≡ ok ciphertext)
      unfolding encrypt decrypt
      encrypt-decrypt c p h = elim (Bool-cases (ltb (length c) aead.nonce_size)) [
        | inl short ↦ err-ne-ok (rw short at h)
        | inr enough ↦
            let size = length-take aead.nonce_size c (ground (arith, enough)) in
            let same =
              (sealing (take aead.nonce_size c) (drop aead.nonce_size c) p size).0
                (map_err-ok gcm_open_failed _ p (rw enough at h)) in
            (
              take aead.nonce_size c,
              size,
              ap ok
                  (ap (λ s. take aead.nonce_size c ++ s) (sym same) ∙ take-drop aead.nonce_size c),
            )
      ]

      decrypt-encrypt :
          (nonce ciphertext plaintext : List ℕ)
          → length nonce ≡ aead.nonce_size
          → encrypt (ok nonce) plaintext ≡ ok ciphertext
          → decrypt ciphertext ≡ ok plaintext
      unfolding encrypt decrypt
      decrypt-encrypt n c p size h =
          let s = aead.seal n p in
          let long : ltb (length (n ++ s)) (length n) ≡ false = ground (arith, length-append n s) in
          let opens : aead.unseal n s ≡ ok p = (sealing n s p size).1 refl in
          rw (sym (ok-inj h), sym size, long, take-length-append n s, drop-length-append n s, opens)
            refl

      -- A ciphertext decrypts to a plaintext exactly when it is what Encrypt makes of the plaintext
      -- with some nonce, over an AEAD that opens exactly what was sealed under the same nonce.
      pub decrypt_iff-encrypt :
          (ciphertext plaintext : List ℕ)
          → decrypt ciphertext ≡ ok plaintext ↔ (
              (nonce : List ℕ) × (length nonce ≡ aead.nonce_size)
              × (encrypt (ok nonce) plaintext ≡ ok ciphertext))
      decrypt_iff-encrypt c p =
          (encrypt-decrypt c p, λ (nonce, size, h). decrypt-encrypt nonce c p size h)
