-- ===== src/Middleware/Persistent.antt =====
-- agent/cache_sqlite.go: Get, Set, Len and Vacuum of SQLiteCache. The database is a parameter, with
-- `S` for what it holds. A time is a number of nanoseconds since Go's zero time.
pub mod Expiry
use sibyl.Prelude.{
  ℕ, zero, suc, ◌+◌, ◌≤◌, ◌≡◌, refl, ap, ◌∙◌, String, Bool, true, false, not, ◌&&◌, Option, none,
  some, Result, ok, err, if◌then◌else◌, ◌==◌, eq_refl, arith, ◌⊎◌, inl, inr, Bool-cases,
  Result-cases, Option-cases,
}
use sibyl.Prelude.Int.{ℤ, pos, negsuc, is_zero, lt_ℤ}
use sibyl.Prelude.Clock.{unix}

-- A row of the table entries.
pub record CacheRow : Type 0 where
  pub v : String
  pub expires_at : ℤ

-- The statements. A query gives none for `sql.ErrNoRows`; where the code drops the error of a
-- statement, what the database holds afterwards is all that is left of it.
pub record CacheTable (S F : Type 0) : Type 0 where
  pub query_entry : S → String → Result F (Option CacheRow)
  pub delete_key : S → String → S
  pub replace : S → String → CacheRow → S
  pub count_rows : S → Result F ℕ
  pub delete_before : S → ℤ → Result F S

pub record Looked (S : Type 0) : Type 0 where
  pub value : Option String
  pub table : S

-- What Get and the statement of Vacuum ask of a row.
abbrev pub is_stale : ℕ → CacheRow → Bool
is_stale now row = not (is_zero row.expires_at) && lt_ℤ row.expires_at (unix now)

abbrev pub expiry_column : ℤ → ℕ → ℤ
expiry_column (pos zero) now = pos 0
expiry_column (pos (suc n)) now = unix (now + suc n)
expiry_column (negsuc n) now = pos 0

module _ {S F : Type 0} (db : CacheTable S F) where
  abbrev pub on_row : ℕ → String → S → Result F (Option CacheRow) → Looked S
  on_row now key s (err e) = record { value = none; table = s }
  on_row now key s (ok none) = record { value = none; table = s }
  on_row now key s (ok (some row)) =
      if is_stale now row
      then record { value = none; table = db.delete_key s key }
      else record { value = some row.v; table = s }

  unfoldable pub sqlite_cache_get : ℕ → String → S → Looked S
  sqlite_cache_get now key s = on_row now key s (db.query_entry s key)

  unfoldable pub sqlite_cache_set : ℤ → ℕ → String → String → S → S
  sqlite_cache_set ttl now key value s =
      db.replace s key (record { v = value; expires_at = expiry_column ttl now })

  abbrev counted : Result F ℕ → ℕ
  counted (ok n) = n
  counted (err e) = 0

  abbrev pub cache_len : S → ℕ
  cache_len s = counted (db.count_rows s)

  unfoldable pub vacuum : ℤ → ℕ → S → Result F S
  vacuum (pos zero) now s = ok s
  vacuum (pos (suc n)) now s = db.delete_before s (unix now)
  vacuum (negsuc n) now s = ok s
