-- ===== src/Examples/SqliteRuns.antt =====
-- auth/oauth/store_sqlite.go and agent/cache_sqlite.go: tables that are functions of their keys.
use sibyl.Prelude.{
  ℕ, ◌≡◌, refl, sym, String, Bool, true, false, List, [], ◌∷◌, Option, none, some, Result, ok, err,
  if◌then◌else◌, ◌==◌, not, ◌&&◌, ok-inj, arith,
}
use sibyl.Prelude.Int.{ℤ, pos, is_zero, lt_ℤ}
use sibyl.OAuth.Types.{TokenPair, Identity}
use sibyl.OAuth.Store.{StoreKey, same_key, Codec, Tokens, get_token}
use sibyl.OAuth.Sqlite.{Database, IdentityJson, store_error, sqlite_get, sqlite_put, sqlite_delete}
use sibyl.OAuth.Sqlite.Mirrors.{
  StoreCall, put_call, delete_call, key_of_row, IsTable, run_memory, sqlite_get-run_sqlite,
}
use sibyl.Middleware.Persistent.{CacheRow, CacheTable, sqlite_cache_get, sqlite_cache_set}
use sibyl.Middleware.Persistent.Expiry.{IsKeyed, sqlite_cache_get-sqlite_cache_set}
use sibyl.Prelude.{map_err}

abbrev Blobs : Type 0
Blobs = StoreKey → Option (TokenPair ℕ)

abbrev with_blob : Blobs → StoreKey → Option (TokenPair ℕ) → Blobs
with_blob s j blob k = if same_key j k then blob else s k

abbrev token_table : Database Blobs (TokenPair ℕ) String
token_table = record {
  query_blob = λ s c p. ok (s (record { canonical = c; provider = p }));
  upsert = λ s row. ok (
      with_blob s (record { canonical = row.canonical_id; provider = row.provider })
        (some row.token_blob));
  delete_row = λ s c p. ok (with_blob s (record { canonical = c; provider = p }) none);
  listed_rows = λ s. ok ([], none);
}

ok-if :
    (b : Bool) (x y : Option (TokenPair ℕ))
    → Path
        (Result String (Option (TokenPair ℕ)))
        (ok (if b then x else y))
        (if b then ok x else ok y)
ok-if true x y = refl
ok-if false x y = refl

token_table-IsTable : IsTable token_table
token_table-IsTable = record {
  upserted = λ s s' row k h.
      rw (sym (ok-inj h)) (ok-if (same_key (key_of_row row) k) (some row.token_blob) (s k));
  deleted = λ s s' j k h. rw (sym (ok-inj h)) (ok-if (same_key j k) none (s k));
}

abbrev plain_codec : Codec ℕ (TokenPair ℕ) String
plain_codec = record {
  encrypt = λ b. ok b;
  decrypt = λ b. ok b;
  marshal = λ t. ok t;
  unmarshal = λ b. ok b;
}

abbrev no_json : IdentityJson ℕ String
no_json = record { marshal = λ i. ok i.canonical; unmarshal = λ s. err s }

abbrev bob : Identity ℕ
bob = record {
  canonical = "okta:2";
  provider = "okta";
  provider_id = "2";
  email = "";
  display_name = "Bob";
  raw = [];
}

abbrev his_token : TokenPair ℕ
his_token = record {
  access_token = "t";
  refresh_token = "r";
  token_type = "Bearer";
  expires_at = 9;
  scope = "";
  raw = [];
}

abbrev two_calls : List (StoreCall ℕ)
two_calls = put_call 5 bob "okta" his_token ∷ delete_call bob "github" ∷ []

abbrev stored : Blobs
stored =
    with_blob
      (with_blob (λ k. none) (record { canonical = "okta:2"; provider = "okta" }) (some his_token))
      (record { canonical = "okta:2"; provider = "github" }) none

sqlite_get-run_sqlite_example :
    (m : Tokens ℕ (TokenPair ℕ)) × ((run_memory plain_codec two_calls [] ≡ ok m)
      × ((i : Identity ℕ) (p : String)
          → sqlite_get token_table plain_codec no_json stored i p
            ≡ map_err store_error (get_token plain_codec none m i p)))
unfolding sqlite_put sqlite_delete
sqlite_get-run_sqlite_example =
    sqlite_get-run_sqlite token_table plain_codec no_json token_table-IsTable (λ k. none) stored
      (λ k. refl) two_calls refl

abbrev Rows : Type 0
Rows = String → Option CacheRow

abbrev unswept : ℤ → Option CacheRow → Option CacheRow
unswept time none = none
unswept time (some row) =
    if not (is_zero row.expires_at) && lt_ℤ row.expires_at time then none else some row

abbrev cache_table : CacheTable Rows String
cache_table = record {
  query_entry = λ s key. ok (s key);
  delete_key = λ s key k. if key == k then none else s k;
  replace = λ s key row k. if key == k then some row else s k;
  count_rows = λ s. err "no count";
  delete_before = λ s time. ok (λ k. unswept time (s k));
}

ok-if_row :
    (b : Bool) (x y : Option CacheRow)
    → Path (Result String (Option CacheRow)) (ok (if b then x else y)) (if b then ok x else ok y)
ok-if_row true x y = refl
ok-if_row false x y = refl

cache_table-IsKeyed : IsKeyed cache_table
cache_table-IsKeyed = record {
  replaced = λ s key k row. ok-if_row (key == k) (some row) (s k);
  kept = λ s s' time k row h found. rw (sym (ok-inj h), ok-inj found) refl;
  absent = λ s s' time k h found. rw (sym (ok-inj h), ok-inj found) refl;
}

-- Set for two seconds, and read three seconds later.
sqlite_cache_get-sqlite_cache_set_example :
    (sqlite_cache_get cache_table 62135596804000000000 "k" (
      sqlite_cache_set cache_table (pos 2000000000) 62135596801000000000 "k" "v" (λ k. none))).value
    ≡ none
sqlite_cache_get-sqlite_cache_set_example =
    sqlite_cache_get-sqlite_cache_set cache_table cache_table-IsKeyed (λ k. none) (pos 2000000000)
      "k" "k" "v" 62135596801000000000 62135596804000000000 (omega arith)
