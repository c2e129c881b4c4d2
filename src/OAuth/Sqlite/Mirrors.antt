-- ===== src/OAuth/Sqlite/Mirrors.antt =====
-- SQLiteTokenStore of auth/oauth/store_sqlite.go, against MemoryTokenStore of auth/oauth/store.go.
use sibyl.Prelude.{
  ℕ, ◌≡◌, refl, sym, ap, ◌∙◌, String, Bool, true, false, List, [], ◌∷◌, Option, none, some, Result,
  Result-cases, ok, ◌>>=◌, map_err, map_err-ok, ok-inj, err-ne-ok, if◌then◌else◌, inl, inr, leb,
  arith, ◌-◌, ◌%◌,
}
use mathlib.Core.Option
use sibyl.OAuth.Types.{TokenPair, Identity}
use sibyl.OAuth.Store.{
  StoreKey, StoredEntry, StoreError, Tokens, Codec, same_key, key_of, opened, find, insert, remove,
  get_token, put_token, delete_token,
}
use sibyl.OAuth.Stored.{find-insert, find-remove}
use sibyl.OAuth.Sqlite.{
  TokenRow, Database, IdentityJson, SqliteError, store_error, expires_unix, listed_expiry,
  opened_blob, put_failed, delete_failed, sqlite_get, sqlite_put, sqlite_delete,
}
use sibyl.Prelude.Clock.{unix}

-- The calls that change a store, with the time of a Put.
pub data StoreCall (A : Type 0) : Type 0 where
  put_call : ℕ → Identity A → String → TokenPair A → StoreCall A
  delete_call : Identity A → String → StoreCall A

abbrev pub key_of_row : {B : Type 0} → TokenRow B → StoreKey
key_of_row row = record { canonical = row.canonical_id; provider = row.provider }

module _ {S B F : Type 0} (db : Database S B F) where
  abbrev blob_at : S → StoreKey → Result F (Option B)
  blob_at s k = db.query_blob s k.canonical k.provider

  -- What SQL says of a table with this primary key: the insert that updates on a conflict leaves one
  -- row for its key, the delete none, and both leave the other keys as they are.
  pub record IsTable : Type 0 where
    pub upserted :
        (s s' : S) (row : TokenRow B) (k : StoreKey)
        → db.upsert s row ≡ ok s'
        → blob_at s' k
          ≡ (if same_key (key_of_row row) k then ok (some row.token_blob) else blob_at s k)
    pub deleted :
        (s s' : S) (j k : StoreKey)
        → db.delete_row s j.canonical j.provider ≡ ok s'
        → blob_at s' k ≡ (if same_key j k then ok none else blob_at s k)

abbrev pub run_memory :
    {A B F : Type 0}
    → Codec A B F
    → List (StoreCall A)
    → Tokens A B
    → Result (StoreError F) (Tokens A B)
run_memory codec [] m = ok m
run_memory codec (put_call now i p t ∷ calls) m =
    put_token codec none now m i p t >>= run_memory codec calls
run_memory codec (delete_call i p ∷ calls) m = delete_token none m i p >>= run_memory codec calls

module _ {S A B F : Type 0} (db : Database S B F) (codec : Codec A B F)
    (json : IdentityJson A F) where
  abbrev pub run_sqlite : List (StoreCall A) → S → Result (SqliteError F) S
  run_sqlite [] s = ok s
  run_sqlite (put_call now i p t ∷ calls) s =
      sqlite_put db codec json now s i p t >>= run_sqlite calls
  run_sqlite (delete_call i p ∷ calls) s = sqlite_delete db codec json s i p >>= run_sqlite calls

  -- The table has the tokens of the map, under the same keys.
  abbrev Mirrors : Tokens A B → S → Type 0
  Mirrors m s = (k : StoreKey) → blob_at db s k ≡ ok (Option.map (λ entry. entry.token) (find m k))

  -- A look-up after a change agrees where the one before it did.
  after_change :
      (same : Bool) (now_there o : Option (StoredEntry A B)) (blob : Result F (Option B))
      → blob ≡ ok (Option.map (λ entry. entry.token) o)
      → (if same then ok (Option.map (λ entry. entry.token) now_there) else blob)
        ≡ ok (Option.map (λ entry. entry.token) (if same then now_there else o))
  after_change true now_there o blob h = refl
  after_change false now_there o blob h = h

  opened_blob-map :
      (o : Option (StoredEntry A B))
      → opened_blob db codec json (Option.map (λ entry. entry.token) o)
        ≡ map_err store_error (opened codec none o)
  opened_blob-map none = refl
  opened_blob-map (some entry) = elim (Result-cases (codec.decrypt entry.token)) [
    | inl (e, failed) ↦ rw failed refl
    | inr (b, plain) ↦ elim (Result-cases (codec.unmarshal b)) [
      | inl (e, failed) ↦ rw (plain, failed) refl
      | inr (t, read) ↦ rw (plain, read) refl
    ]
  ]

  get-Mirrors :
      (m : Tokens A B) (s : S)
      → Mirrors m s
      → (i : Identity A) (p : String)
      → sqlite_get db codec json s i p ≡ map_err store_error (get_token codec none m i p)
  unfolding sqlite_get get_token
  get-Mirrors m s mirrors i p = rw (mirrors (key_of i p)) (opened_blob-map (find m (key_of i p)))

  put-Mirrors :
      (table : IsTable db) (m : Tokens A B) (s s' : S)
      → Mirrors m s
      → (now : ℕ) (i : Identity A) (p : String) (t : TokenPair A)
      → sqlite_put db codec json now s i p t ≡ ok s'
      → (m' : Tokens A B) × ((put_token codec none now m i p t ≡ ok m') × Mirrors m' s')
  unfolding sqlite_put put_token
  put-Mirrors table m s s' mirrors now i p t h = elim (Result-cases (codec.marshal t)) [
    | inl (e, failed) ↦ err-ne-ok (rw failed at h)
    | inr (b, encoded) ↦ elim (Result-cases (codec.encrypt b)) [
      | inl (e, failed) ↦ err-ne-ok (rw (encoded, failed) at h)
      | inr (c, hidden) ↦ elim (Result-cases (json.marshal i)) [
        | inl (e, failed) ↦ err-ne-ok (rw (encoded, hidden, failed) at h)
        | inr (j, written) ↦
            let entry : StoredEntry A B = record {
              identity = i;
              provider = p;
              token = c;
              expires_at = t.expires_at;
              updated_at = now;
            } in
            let row : TokenRow B = record {
              canonical_id = i.canonical;
              provider = p;
              identity_json = j;
              token_blob = c;
              expires_at = expires_unix t.expires_at;
              updated_at = unix now;
            } in
            let upserted =
              map_err-ok put_failed (db.upsert s row) s' (rw (encoded, hidden, written) at h) in
            (
              insert m (key_of i p) entry,
              (
                rw (encoded, hidden) refl,
                λ k.
                    table.upserted s s' row k upserted
                    ∙ after_change (same_key (key_of i p) k) (some entry) (find m k)
                        (blob_at db s k) (mirrors k)
                    ∙ ap (λ o. ok (Option.map (λ e. e.token) o))
                        (sym (find-insert m (key_of i p) k entry)),
              ),
            )
      ]
    ]
  ]

  delete-Mirrors :
      (table : IsTable db) (m : Tokens A B) (s s' : S)
      → Mirrors m s
      → (i : Identity A) (p : String) → sqlite_delete db codec json s i p ≡ ok s'
      → Mirrors (remove m (key_of i p)) s'
  unfolding sqlite_delete
  delete-Mirrors table m s s' mirrors i p h k =
      let deleted = map_err-ok delete_failed (db.delete_row s i.canonical p) s' h in
      table.deleted s s' (key_of i p) k deleted
      ∙ after_change (same_key (key_of i p) k) none (find m k) (blob_at db s k) (mirrors k)
      ∙ ap (λ o. ok (Option.map (λ e. e.token) o)) (sym (find-remove m (key_of i p) k))

  run-Mirrors :
      (table : IsTable db) (calls : List (StoreCall A)) (m : Tokens A B) (s s' : S)
      → Mirrors m s
      → run_sqlite calls s ≡ ok s'
      → (m' : Tokens A B) × ((run_memory codec calls m ≡ ok m') × Mirrors m' s')
  unfolding delete_token
  run-Mirrors table [] m s s' mirrors h = (m, (refl, λ k. rw (sym (ok-inj h)) (mirrors k)))
  run-Mirrors table (put_call now i p t ∷ calls) m s s' mirrors h =
      elim (Result-cases (sqlite_put db codec json now s i p t)) [
        | inl (e, failed) ↦ err-ne-ok (rw failed at h)
        | inr (s1, put) ↦
            let (m1, (memory, mirrors1)) = put-Mirrors table m s s1 mirrors now i p t put in
            let (m', (rest, mirrors')) = run-Mirrors table calls m1 s1 s' mirrors1 (rw put at h) in
            (m', (rw memory rest, mirrors'))
      ]
  run-Mirrors table (delete_call i p ∷ calls) m s s' mirrors h =
      elim (Result-cases (sqlite_delete db codec json s i p)) [
        | inl (e, failed) ↦ err-ne-ok (rw failed at h)
        | inr (s1, gone) ↦
            run-Mirrors table calls (remove m (key_of i p)) s1 s'
              (delete-Mirrors table m s s1 mirrors i p gone) (rw gone at h)
      ]

  -- Over a table with the primary key of the schema, empty at the start: after calls of Put and Delete
  -- that all succeeded, the same calls of the store in memory succeed, and Get of the two stores gives
  -- the same token or the same error, for every identity and provider.
  pub sqlite_get-run_sqlite :
      (table : IsTable db) (empty s : S)
      → ((k : StoreKey) → db.query_blob empty k.canonical k.provider ≡ ok none)
      → (calls : List (StoreCall A)) → run_sqlite calls empty ≡ ok s
      → (m : Tokens A B) × ((run_memory codec calls [] ≡ ok m)
          × ((i : Identity A) (p : String)
              → sqlite_get db codec json s i p ≡ map_err store_error (get_token codec none m i p)))
  unfolding find
  sqlite_get-run_sqlite table empty s no_rows calls h =
      let (m, (memory, mirrors)) = run-Mirrors table calls [] empty s no_rows h in
      (m, (memory, get-Mirrors m s mirrors))

-- A token's expiry comes back from List rounded down to the second, where it is at least a second
-- after the Unix epoch; an earlier one comes back as the zero time, which means no expiry.
pub listed_expiry-expires_unix :
    (time : ℕ)
    → listed_expiry (expires_unix time)
      ≡ (if leb 62135596801000000000 time then time - time % 1000000000 else 0)
listed_expiry-expires_unix time = ground arith
