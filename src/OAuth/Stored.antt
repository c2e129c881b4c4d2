-- ===== src/OAuth/Stored.antt =====
-- What MemoryTokenStore of auth/oauth/store.go promises.
use sibyl.Prelude.{
  ℕ, ◌≡◌, refl, sym, String, [], ◌∷◌, none, some, Result-cases, ok-inj, err-ne-ok, ok, err,
  if◌then◌else◌, eq_iff, arith, inl, inr, Bool-cases,
}
use sibyl.OAuth.Types.{TokenPair, Identity}
use sibyl.OAuth.Store.{
  StoreKey, StoredEntry, token_not_found, same_key, Tokens, find, insert, remove, key_of, Codec,
  get_token, put_token, delete_token,
}

module _ {A B : Type 0} where
  pub find-insert :
      (m : Tokens A B) (k j : StoreKey) (e : StoredEntry A B)
      → find (insert m k e) j ≡ (if same_key k j then some e else find m j)
  unfolding find insert
  find-insert [] k j e = refl
  find-insert ((i, d) ∷ m) k j e = ground (
    arith,
    find-insert m k j e,
    eq_iff k.canonical j.canonical,
    eq_iff k.provider j.provider,
    eq_iff i.canonical j.canonical,
    eq_iff i.provider j.provider,
    eq_iff i.canonical k.canonical,
    eq_iff i.provider k.provider,
  )

  pub find-remove :
      (m : Tokens A B) (k j : StoreKey)
      → find (remove m k) j ≡ (if same_key k j then none else find m j)
  unfolding find remove
  find-remove [] k j = ground arith
  find-remove ((i, d) ∷ m) k j = ground (
    arith,
    find-remove m k j,
    eq_iff k.canonical j.canonical,
    eq_iff k.provider j.provider,
    eq_iff i.canonical j.canonical,
    eq_iff i.provider j.provider,
    eq_iff i.canonical k.canonical,
    eq_iff i.provider k.provider,
  )

module _ {A B F : Type 0} (codec : Codec A B F) where
  -- With a cipher and an encoding that give back what they were given: after a Put that succeeded,
  -- the same canonical identity and provider give the token back, and all others what they gave
  -- before. The rest of the identity does not count.
  pub get_token-put_token :
      ((p c : B) → codec.encrypt p ≡ ok c → codec.decrypt c ≡ ok p)
      → ((t : TokenPair A) (b : B) → codec.marshal t ≡ ok b → codec.unmarshal b ≡ ok t)
      → (now : ℕ) (m m' : Tokens A B) (i j : Identity A) (p q : String) (t : TokenPair A)
      → put_token codec none now m i p t ≡ ok m'
      → get_token codec none m' j q
        ≡ (if same_key (key_of i p) (key_of j q) then ok t else get_token codec none m j q)
  unfolding get_token put_token
  get_token-put_token ciphers encodes now m m' i j p q t put =
      let key = key_of i p in
      elim (Result-cases (codec.marshal t)) [
        | inl (e, failed) ↦ err-ne-ok (rw failed at put)
        | inr (b, encoded) ↦ elim (Result-cases (codec.encrypt b)) [
          | inl (e, failed) ↦ err-ne-ok (rw (encoded, failed) at put)
          | inr (c, hidden) ↦
              let entry : StoredEntry A B = record {
                identity = i;
                provider = p;
                token = c;
                expires_at = t.expires_at;
                updated_at = now;
              } in
              let inserted = ok-inj (rw (encoded, hidden) at put) in
              rw (sym inserted, find-insert m key (key_of j q) entry)
                (elim (Bool-cases (same_key key (key_of j q))) [
                  | inl same ↦ rw (same, ciphers b c hidden, encodes t b encoded) refl
                  | inr other ↦ rw other refl
                ])
        ]
      ]

  -- After a Delete the same canonical identity and provider have no token, and all others have what
  -- they had before.
  pub get_token-delete_token :
      (m m' : Tokens A B) (i j : Identity A) (p q : String)
      → delete_token {F = F} none m i p ≡ ok m'
      → get_token codec none m' j q ≡ (
          if same_key (key_of i p) (key_of j q)
          then err token_not_found
          else get_token codec none m j q)
  unfolding get_token delete_token
  get_token-delete_token m m' i j p q deleted =
      rw (sym (ok-inj deleted), find-remove m (key_of i p) (key_of j q))
        (elim (Bool-cases (same_key (key_of i p) (key_of j q))) [
          | inl same ↦ rw same refl
          | inr other ↦ rw other refl
        ])
