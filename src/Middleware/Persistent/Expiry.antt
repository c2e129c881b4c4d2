-- ===== src/Middleware/Persistent/Expiry.antt =====
-- SQLiteCache of agent/cache_sqlite.go: what Get gives after Set and after Vacuum.
use sibyl.Prelude.{
  ℕ, zero, suc, ◌+◌, ◌≤◌, ◌≡◌, refl, sym, ◌∙◌, String, Bool, false, not, ◌&&◌, Option, none, some,
  Result, ok, err, if◌then◌else◌, ◌==◌, arith, inl, inr, Bool-cases, ltb, ok-inj,
}
use Prim.Native.Nat.{◌/◌}
use sibyl.Prelude.Int.{ℤ, pos, negsuc, is_zero, lt_ℤ}
use sibyl.Prelude.Clock.{unix}
use sibyl.Middleware.Persistent.{
  CacheRow, CacheTable, is_stale, expiry_column, on_row, sqlite_cache_get, sqlite_cache_set, vacuum,
}

-- Whether the second of the time has passed in which an entry expires.
abbrev pub outlived : ℤ → ℕ → ℕ → Bool
outlived (pos zero) set_at now = false
outlived (pos (suc n)) set_at now = ltb ((set_at + suc n) / 1000000000) (now / 1000000000)
outlived (negsuc n) set_at now = false

is_stale-expiry_column :
    (value : String) (ttl : ℤ) (set_at now : ℕ)
    → 62135596801000000000 ≤ set_at
    → is_stale now (record { v = value; expires_at = expiry_column ttl set_at })
      ≡ outlived ttl set_at now
is_stale-expiry_column value (pos zero) set_at now h = refl
is_stale-expiry_column value (pos (suc n)) set_at now h = ground arith
is_stale-expiry_column value (negsuc n) set_at now h = refl

module _ {S F : Type 0} (db : CacheTable S F) where
  -- What SQL says of two statements: INSERT OR REPLACE leaves one row for its key, DELETE with a
  -- condition the rows that do not meet it.
  pub record IsKeyed : Type 0 where
    pub replaced :
        (s : S) (key k : String) (row : CacheRow)
        → db.query_entry (db.replace s key row) k
          ≡ (if key == k then ok (some row) else db.query_entry s k)
    pub kept :
        (s s' : S) (time : ℤ) (k : String) (row : CacheRow)
        → db.delete_before s time ≡ ok s'
        → db.query_entry s k ≡ ok (some row)
        → db.query_entry s' k
          ≡ ok (if not (is_zero row.expires_at) && lt_ℤ row.expires_at time then none else some row)
    pub absent :
        (s s' : S) (time : ℤ) (k : String)
        → db.delete_before s time ≡ ok s'
        → db.query_entry s k ≡ ok none
        → db.query_entry s' k ≡ ok none

  value_of_row :
      (now : ℕ) (key : String) (s : S) (row : CacheRow)
      → (on_row db now key s (ok (some row))).value
        ≡ (if is_stale now row then none else some row.v)
  value_of_row now key s row = elim (Bool-cases (is_stale now row)) [
    | inl stale ↦ rw stale refl
    | inr fresh ↦ rw fresh refl
  ]

  -- The value of a look-up does not depend on what the table holds apart from the row.
  value_of_query :
      (now : ℕ) (key : String) (s s' : S) (r : Result F (Option CacheRow))
      → (on_row db now key s r).value ≡ (on_row db now key s' r).value
  value_of_query now key s s' (err e) = refl
  value_of_query now key s s' (ok none) = refl
  value_of_query now key s s' (ok (some row)) =
      value_of_row now key s row ∙ sym (value_of_row now key s' row)

  -- After a Set at a time that is at least a second after the Unix epoch, Get gives the value until
  -- the second has passed in which the entry expires, and for ever where entries do not expire. Other
  -- keys have what they had.
  pub sqlite_cache_get-sqlite_cache_set :
      (keyed : IsKeyed) (s : S) (ttl : ℤ) (key k value : String) (set_at now : ℕ)
      → 62135596801000000000 ≤ set_at
      → (sqlite_cache_get db now k (sqlite_cache_set db ttl set_at key value s)).value ≡ (
          if key == k
          then (if outlived ttl set_at now then none else some value)
          else (sqlite_cache_get db now k s).value)
  unfolding sqlite_cache_get sqlite_cache_set
  sqlite_cache_get-sqlite_cache_set keyed s ttl key k value set_at now late =
      let row : CacheRow = record { v = value; expires_at = expiry_column ttl set_at } in
      rw (keyed.replaced s key k row) (elim (Bool-cases (key == k)) [
        | inl same ↦ rw same (
            value_of_row now k (db.replace s key row) row
            ∙ rw (is_stale-expiry_column value ttl set_at now late) refl)
        | inr other ↦ rw other (value_of_query now k (db.replace s key row) s (db.query_entry s k))
      ])

  swept :
      (keyed : IsKeyed) (s s' : S) (now : ℕ) (k : String) (r : Option CacheRow)
      → db.query_entry s k ≡ ok r
      → db.delete_before s (unix now) ≡ ok s'
      → (on_row db now k s' (db.query_entry s' k)).value
        ≡ (on_row db now k s (db.query_entry s k)).value
  swept keyed s s' now k none found gone =
      rw (found, keyed.absent s s' (unix now) k gone found) refl
  swept keyed s s' now k (some row) found gone =
      rw (found, keyed.kept s s' (unix now) k row gone found)
        (elim (Bool-cases (is_stale now row)) [
          | inl stale ↦ rw stale refl
          | inr fresh ↦ rw (fresh, fresh) refl
        ])

  -- Over a table that answers, a Vacuum does not change what Get gives at that time: it deletes only
  -- rows that Get refuses.
  pub sqlite_cache_get-vacuum :
      (keyed : IsKeyed) (s s' : S) (ttl : ℤ) (now : ℕ) (k : String) (r : Option CacheRow)
      → db.query_entry s k ≡ ok r
      → vacuum db ttl now s ≡ ok s'
      → (sqlite_cache_get db now k s').value ≡ (sqlite_cache_get db now k s).value
  unfolding sqlite_cache_get vacuum
  sqlite_cache_get-vacuum keyed s s' (pos zero) now k r found h = rw (sym (ok-inj h)) refl
  sqlite_cache_get-vacuum keyed s s' (pos (suc n)) now k r found h =
      swept keyed s s' now k r found h
  sqlite_cache_get-vacuum keyed s s' (negsuc n) now k r found h = rw (sym (ok-inj h)) refl
