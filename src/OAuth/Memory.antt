-- ===== src/OAuth/Memory.antt =====
-- MemoryTokenStore of auth/oauth/store.go, with AESGCMCipher of auth/oauth/crypt.go, as a token store
-- for WithRefresh and CurrentSession of auth/oauth/flow.go.
use sibyl.Prelude.{
  ℕ, ◌≡◌, refl, true, List, none, Result, Result-cases, ok, err-ne-ok, inl, inr, length, eq_refl,
}
use sibyl.OAuth.Types.{TokenPair}
use sibyl.OAuth.Store.{StoreKey, Codec, Tokens, StoreError, same_key, key_of, get_token, put_token}
use sibyl.OAuth.Stored.{get_token-put_token}
use sibyl.OAuth.Cipher.{Aead, IsSealing, CipherError, encrypt, decrypt, decrypt_iff-encrypt}
use sibyl.OAuth.Refresh.{TokenStore, IsLawful}

-- A nonce is given for each plaintext, and encoding/json is a parameter.
abbrev pub sealed_codec :
    {A F : Type 0}
    → Aead F
    → (List ℕ → Result F (List ℕ))
    → (TokenPair A → Result (CipherError F) (List ℕ))
    → (List ℕ → Result (CipherError F) (TokenPair A))
    → Codec A (List ℕ) (CipherError F)
sealed_codec aead random marshal unmarshal = record {
  encrypt = λ p. encrypt aead (random p) p;
  decrypt = decrypt aead;
  marshal = marshal;
  unmarshal = unmarshal;
}

-- The store of a context that has not ended, at one time.
abbrev pub memory_store :
    {A B F : Type 0} → Codec A B F → ℕ → TokenStore (Tokens A B) A (StoreError F)
memory_store codec now = record { get = get_token codec none; put = put_token codec none now }

same_key_refl : (k : StoreKey) → same_key k k ≡ true
same_key_refl k = rw (eq_refl k.canonical, eq_refl k.provider) refl

module _ {A F : Type 0} (aead : Aead F) (random : List ℕ → Result F (List ℕ))
    (marshal : TokenPair A → Result (CipherError F) (List ℕ))
    (unmarshal : List ℕ → Result (CipherError F) (TokenPair A)) where
  sealed_codec-decrypt :
      IsSealing aead
      → ((p nonce : List ℕ) → random p ≡ ok nonce → length nonce ≡ aead.nonce_size)
      → (p c : List ℕ) → encrypt aead (random p) p ≡ ok c
      → decrypt aead c ≡ ok p
  unfolding encrypt
  sealed_codec-decrypt sealing fresh p c h = elim (Result-cases (random p)) [
    | inl (e, failed) ↦ err-ne-ok (rw failed at h)
    | inr (nonce, given) ↦
        (decrypt_iff-encrypt aead sealing c p).1 (nonce, fresh p nonce given, rw given at h)
  ]

  -- The store in memory with the AES-GCM cipher gives back what was put, as WithRefresh and
  -- CurrentSession need: over an AEAD that opens exactly what was sealed under the same nonce, random
  -- nonces of its length, and an encoding that gives back what it was given.
  pub memory_store-IsLawful :
      IsSealing aead
      → ((p nonce : List ℕ) → random p ≡ ok nonce → length nonce ≡ aead.nonce_size)
      → ((t : TokenPair A) (b : List ℕ) → marshal t ≡ ok b → unmarshal b ≡ ok t)
      → (now : ℕ) → IsLawful (memory_store (sealed_codec aead random marshal unmarshal) now)
  memory_store-IsLawful sealing fresh encodes now s s' i p t put =
      let codec = sealed_codec aead random marshal unmarshal in
      let same : same_key (key_of i p) (key_of i p) ≡ true = same_key_refl (key_of i p) in
      let got =
        get_token-put_token codec (sealed_codec-decrypt sealing fresh) encodes now s s' i i p p t
          put in
      rw same at got
