-- ===== src/OAuth/Sqlite.antt =====
-- auth/oauth/store_sqlite.go: Get, Put, Delete and List of SQLiteTokenStore. The database is a
-- parameter, with `B` for blobs and `S` for what it holds; the cipher and encoding/json are the codec
-- of the store in memory.
pub mod Mirrors
use sibyl.Prelude.{
  ℕ, suc, ◌+◌, ◌-◌, ◌*◌, String, List, [], ◌∷◌, Option, none, some, Result, ok, err, ◌>>=◌, map_err,
  if◌then◌else◌, leb, nat_eq,
}
use sibyl.Prelude.Int.{ℤ, pos, negsuc}
use sibyl.OAuth.Types.{TokenPair, Identity}
use sibyl.OAuth.Store.{
  StoreError, TokenRef, Codec, token_not_found, decrypt_failed, encrypt_failed, marshal_failed,
  unmarshal_failed,
}
use sibyl.Prelude.Clock.{unix, from_unix}

-- A row of the table oauth_tokens.
pub record TokenRow (B : Type 0) : Type 0 where
  pub canonical_id : String
  pub provider : String
  pub identity_json : String
  pub token_blob : B
  pub expires_at : ℤ
  pub updated_at : ℤ

-- The columns that List selects.
pub record ListedRow : Type 0 where
  pub identity_json : String
  pub provider : String
  pub expires_at : ℤ
  pub updated_at : ℤ

-- The four statements. A query of one row gives none for `sql.ErrNoRows`; the scans of the rows of
-- the list come with the error that ended the reading of them.
pub record Database (S B F : Type 0) : Type 0 where
  pub query_blob : S → String → String → Result F (Option B)
  pub upsert : S → TokenRow B → Result F S
  pub delete_row : S → String → String → Result F S
  pub listed_rows : S → Result F (List (Result F ListedRow) × Option F)

-- `store_error` has the errors that the store in memory can give too.
pub data SqliteError (F : Type 0) : Type 0 where
  store_error : StoreError F → SqliteError F
  get_failed marshal_identity_failed put_failed delete_failed : F → SqliteError F
  list_failed scan_failed unmarshal_identity_failed : F → SqliteError F

abbrev pub expires_unix : ℕ → ℤ
expires_unix expires_at = if nat_eq expires_at 0 then pos 0 else unix expires_at

-- A column that is not positive leaves the zero time.
abbrev pub listed_expiry : ℤ → ℕ
listed_expiry (pos n) = if nat_eq n 0 then 0 else from_unix (pos n)
listed_expiry (negsuc n) = 0

-- The JSON of an identity.
pub record IdentityJson (A F : Type 0) : Type 0 where
  pub marshal : Identity A → Result F String
  pub unmarshal : String → Result F (Identity A)

module _ {S A B F : Type 0} (db : Database S B F) (codec : Codec A B F)
    (json : IdentityJson A F) where
  abbrev pub opened_blob : Option B → Result (SqliteError F) (TokenPair A)
  opened_blob none = err (store_error token_not_found)
  opened_blob (some blob) = do
    plaintext ← map_err (λ e. store_error (decrypt_failed e)) (codec.decrypt blob)
    map_err (λ e. store_error (unmarshal_failed e)) (codec.unmarshal plaintext)

  unfoldable pub sqlite_get : S → Identity A → String → Result (SqliteError F) (TokenPair A)
  sqlite_get s i provider = do
    blob ← map_err get_failed (db.query_blob s i.canonical provider)
    opened_blob blob

  unfoldable pub sqlite_put : ℕ → S → Identity A → String → TokenPair A → Result (SqliteError F) S
  sqlite_put now s i provider t = do
    plaintext ← map_err (λ e. store_error (marshal_failed e)) (codec.marshal t)
    ciphertext ← map_err (λ e. store_error (encrypt_failed e)) (codec.encrypt plaintext)
    identity ← map_err marshal_identity_failed (json.marshal i)
    map_err put_failed (
        db.upsert s (record {
          canonical_id = i.canonical;
          provider = provider;
          identity_json = identity;
          token_blob = ciphertext;
          expires_at = expires_unix t.expires_at;
          updated_at = unix now;
        }))

  unfoldable pub sqlite_delete : S → Identity A → String → Result (SqliteError F) S
  sqlite_delete s i provider = map_err delete_failed (db.delete_row s i.canonical provider)

  abbrev pub ref_of_row : ListedRow → Result (SqliteError F) (TokenRef A)
  ref_of_row row = do
    identity ← map_err unmarshal_identity_failed (json.unmarshal row.identity_json)
    ok (record {
      identity = identity;
      provider = row.provider;
      expires_at = listed_expiry row.expires_at;
      updated_at = from_unix row.updated_at;
    })

  unfoldable pub refs_of : List (Result F ListedRow) → Result (SqliteError F) (List (TokenRef A))
  refs_of [] = ok []
  refs_of (scanned ∷ rows) = do
    row ← map_err scan_failed scanned
    ref ← ref_of_row row
    refs ← refs_of rows
    ok (ref ∷ refs)

  -- The references, with the error of `rows.Err()`.
  abbrev pub sqlite_list : S → Result (SqliteError F) (List (TokenRef A) × Option F)
  sqlite_list s = do
    (rows, ended) ← map_err list_failed (db.listed_rows s)
    refs ← refs_of rows
    ok (refs, ended)
