-- ===== src/Examples/StoreRuns.antt =====
-- auth/oauth/store.go and crypt.go: a store in memory that can write down one token.
use sibyl.Prelude.{
  ℕ, ◌≡◌, refl, sym, ap, String, Bool, true, false, List, [], ◌∷◌, Result, ok, err, ok-inj,
  err-ne-ok, if◌then◌else◌, ◌==◌, eq_iff, nat_eq, is_empty, Bool-cases, inl, inr, arith, length,
}
use sibyl.Prelude.Maps.{GoMap}
use sibyl.OAuth.Types.{TokenPair}
use sibyl.OAuth.Cipher.{Aead, CipherError, ciphertext_too_short}
use sibyl.OAuth.Refresh.{IsLawful}
use sibyl.OAuth.Memory.{sealed_codec, memory_store, memory_store-IsLawful}

abbrev the_token : TokenPair ℕ
the_token = record {
  access_token = "t";
  refresh_token = "r";
  token_type = "Bearer";
  expires_at = 9;
  scope = "";
  raw = [];
}

abbrev is_the_token : TokenPair ℕ → Bool
is_the_token t =
    if t.access_token == "t"
    then (if t.refresh_token == "r"
        then (if t.token_type == "Bearer"
            then (if nat_eq t.expires_at 9
                then (if t.scope == "" then is_empty t.raw else false)
                else false)
            else false)
        else false)
    else false

abbrev write_token : TokenPair ℕ → Result (CipherError String) (List ℕ)
write_token t = if is_the_token t then ok (1 ∷ []) else err ciphertext_too_short

abbrev read_token : List ℕ → Result (CipherError String) (TokenPair ℕ)
read_token b = ok the_token

eq_nil : (m : GoMap ℕ) → is_empty m ≡ true → m ≡ []
eq_nil [] h = refl
eq_nil (x ∷ m) h = absurd (ground (arith, h))

the_token-ext :
    (a r y s : String) (n : ℕ) (m : GoMap ℕ)
    → a ≡ "t"
    → r ≡ "r"
    → y ≡ "Bearer"
    → n ≡ 9
    → s ≡ ""
    → m ≡ []
    → Path
        (TokenPair ℕ)
        (record {
          access_token = a;
          refresh_token = r;
          token_type = y;
          expires_at = n;
          scope = s;
          raw = m;
        })
        the_token
the_token-ext a r y s n m ea er ey en es em = rw (ea, er, ey, en, es, em) refl

is_the_token-eq : (t : TokenPair ℕ) → is_the_token t ≡ true → t ≡ the_token
is_the_token-eq t h =
    the_token-ext t.access_token t.refresh_token t.token_type t.scope t.expires_at t.raw
      (ground (arith, h, eq_iff t.access_token "t")) (ground (arith, h, eq_iff t.refresh_token "r"))
      (ground (arith, h, eq_iff t.token_type "Bearer")) (ground (arith, h))
      (ground (arith, h, eq_iff t.scope "")) (eq_nil t.raw (ground (arith, h)))

read-write_token : (t : TokenPair ℕ) (b : List ℕ) → write_token t ≡ ok b → read_token b ≡ ok t
read-write_token t b h = elim (Bool-cases (is_the_token t)) [
  | inl same ↦ ap ok (sym (is_the_token-eq t same))
  | inr other ↦ err-ne-ok (rw other at h)
]

abbrev bare_seal : Aead String
bare_seal = record { nonce_size = 1; seal = λ n p. p; unseal = λ n s. ok s }

abbrev nine : List ℕ → Result String (List ℕ)
nine p = ok (9 ∷ [])

memory_store-IsLawful_example :
    IsLawful (memory_store (sealed_codec bare_seal nine write_token read_token) 3)
memory_store-IsLawful_example =
    memory_store-IsLawful bare_seal nine write_token read_token
      (λ n s p size. (λ h. ok-inj h, λ h. ap ok h)) (λ p nonce h. ap length (sym (ok-inj h)))
      read-write_token 3
