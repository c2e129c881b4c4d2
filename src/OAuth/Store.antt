-- ===== src/OAuth/Store.antt =====
-- auth/oauth/store.go: MemoryTokenStore. The cipher and encoding/json are parameters, `B` is `[]byte`.
-- The error of the context, if it has one, is an argument.
use sibyl.Prelude.{
  ℕ, String, Bool, false, List, [], ◌∷◌, map, Option, none, some, Result, ok, err, ◌>>=◌, map_err,
  if◌then◌else◌, ◌==◌,
}
use sibyl.OAuth.Types.{TokenPair, Identity}

pub record StoreKey : Type 0 where
  pub canonical : String
  pub provider : String

pub record StoredEntry (A B : Type 0) : Type 0 where
  pub identity : Identity A
  pub provider : String
  pub token : B
  pub expires_at : ℕ
  pub updated_at : ℕ

pub record TokenRef (A : Type 0) : Type 0 where
  pub identity : Identity A
  pub provider : String
  pub expires_at : ℕ
  pub updated_at : ℕ

pub data StoreError (F : Type 0) : Type 0 where
  token_not_found : StoreError F
  context_done decrypt_failed encrypt_failed marshal_failed unmarshal_failed : F → StoreError F

abbrev pub same_key : StoreKey → StoreKey → Bool
same_key j k =
    let providers = j.provider == k.provider in
    if j.canonical == k.canonical then providers else false

-- map[storeKey]storedEntry
abbrev pub Tokens : Type 0 → Type 0 → Type 0
Tokens A B = List (StoreKey × StoredEntry A B)

module _ {A B : Type 0} where
  unfoldable pub find : Tokens A B → StoreKey → Option (StoredEntry A B)
  find [] k = none
  find ((j, e) ∷ m) k = let rest = find m k in if same_key j k then some e else rest

  unfoldable pub insert : Tokens A B → StoreKey → StoredEntry A B → Tokens A B
  insert [] k e = (k, e) ∷ []
  insert ((j, d) ∷ m) k e =
      let rest = insert m k e in if same_key j k then (j, e) ∷ m else (j, d) ∷ rest

  unfoldable pub remove : Tokens A B → StoreKey → Tokens A B
  remove [] k = []
  remove ((j, e) ∷ m) k = let rest = remove m k in if same_key j k then rest else (j, e) ∷ rest

abbrev pub unless_done :
    {F R : Type 0} → Option F → Result (StoreError F) R → Result (StoreError F) R
unless_done none r = r
unless_done (some e) r = err (context_done e)

abbrev pub key_of : {A : Type 0} → Identity A → String → StoreKey
key_of i provider = record { canonical = i.canonical; provider = provider }

-- The cipher of the store and the JSON of a token pair.
pub record Codec (A B F : Type 0) : Type 0 where
  pub encrypt : B → Result F B
  pub decrypt : B → Result F B
  pub marshal : TokenPair A → Result F B
  pub unmarshal : B → Result F (TokenPair A)

module _ {A B F : Type 0} (codec : Codec A B F) (done : Option F) where
  abbrev pub opened : Option (StoredEntry A B) → Result (StoreError F) (TokenPair A)
  opened none = err token_not_found
  opened (some entry) = do
    plaintext ← map_err decrypt_failed (codec.decrypt entry.token)
    map_err unmarshal_failed (codec.unmarshal plaintext)

  unfoldable pub get_token : Tokens A B → Identity A → String → Result (StoreError F) (TokenPair A)
  get_token m i provider = unless_done done (opened (find m (key_of i provider)))

  unfoldable pub put_token :
      ℕ → Tokens A B → Identity A → String → TokenPair A → Result (StoreError F) (Tokens A B)
  put_token now m i provider t = unless_done done (do
    plaintext ← map_err marshal_failed (codec.marshal t)
    ciphertext ← map_err encrypt_failed (codec.encrypt plaintext)
    ok (
        insert m (key_of i provider) (record {
          identity = i;
          provider = provider;
          token = ciphertext;
          expires_at = t.expires_at;
          updated_at = now;
        })))

abbrev pub ref_of : {A B : Type 0} → StoreKey × StoredEntry A B → TokenRef A
ref_of (k, e) = record {
  identity = e.identity;
  provider = e.provider;
  expires_at = e.expires_at;
  updated_at = e.updated_at;
}

module _ {A B F : Type 0} (done : Option F) where
  unfoldable pub delete_token :
      Tokens A B → Identity A → String → Result (StoreError F) (Tokens A B)
  delete_token m i provider = unless_done done (ok (remove m (key_of i provider)))

  -- The order of the list is unspecified.
  unfoldable pub list_tokens : Tokens A B → Result (StoreError F) (List (TokenRef A))
  list_tokens m = unless_done done (ok (map ref_of m))
