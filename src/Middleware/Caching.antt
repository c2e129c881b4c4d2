-- ===== src/Middleware/Caching.antt =====
-- agent/middleware.go: MemoryCache and WithCache. A time is a number of nanoseconds, and the cache is
-- its map.
use sibyl.Prelude.{
  ℕ, zero, suc, ◌+◌, String, Bool, false, List, ◌∷◌, ◌++◌, Option, none, some, Result, ok, err,
  if◌then◌else◌, ltb,
}
use sibyl.Prelude.Int.{ℤ, pos, negsuc}
use sibyl.Prelude.Maps.{GoMap, get, put, delete}

pub record MemoryCacheEntry : Type 0 where
  pub value : String
  pub expires : ℕ

abbrev pub MemoryCache : Type 0
MemoryCache = GoMap MemoryCacheEntry

-- A call's result, and the cache after it.
pub record Cached (A : Type 0) : Type 0 where
  pub result : A
  pub cache : MemoryCache

-- Whether the time is after the expiry, where entries expire.
abbrev pub has_expired : ℤ → ℕ → ℕ → Bool
has_expired (pos zero) now expires = false
has_expired (pos (suc n)) now expires = ltb expires now
has_expired (negsuc n) now expires = false

-- The zero time where entries do not expire.
abbrev pub expiry : ℤ → ℕ → ℕ
expiry (pos n) now = if ltb 0 n then now + n else 0
expiry (negsuc n) now = 0

-- What is hashed: the prompts with a zero byte between them.
abbrev pub hashed_bytes : List ℕ → List ℕ → List ℕ
hashed_bytes system user = system ++ 0 ∷ user

module _ (ttl : ℤ) where
  abbrev pub entry_at : ℕ → MemoryCache → String → Option MemoryCacheEntry → Cached (Option String)
  entry_at now c key none = record { result = none; cache = c }
  entry_at now c key (some entry) =
      if has_expired ttl now entry.expires
      then record { result = none; cache = delete c key }
      else record { result = some entry.value; cache = c }

  abbrev pub cache_get : ℕ → String → MemoryCache → Cached (Option String)
  cache_get now key c = entry_at now c key (get c key)

  abbrev pub cache_set : ℕ → String → String → MemoryCache → MemoryCache
  cache_set now key value c = put c key (record { value = value; expires = expiry ttl now })

  -- `complete` is the wrapped completion on the prompts at hand; the entry is written at a later time.
  module _ {E : Type 0} where
    abbrev pub completed : ℕ → String → MemoryCache → Result E String → Cached (Result E String)
    completed later key c (err e) = record { result = err e; cache = c }
    completed later key c (ok out) = record { result = ok out; cache = cache_set later key out c }

    abbrev pub on_lookup :
        ℕ → String → Result E String → Cached (Option String) → Cached (Result E String)
    on_lookup later key answer found = elim found.result [
      | some hit ↦ record { result = ok hit; cache = found.cache }
      | none ↦ completed later key found.cache answer
    ]

    unfoldable pub with_cache :
        (List ℕ → String)
        → (List ℕ → List ℕ → Result E String)
        → ℕ
        → ℕ
        → List ℕ
        → List ℕ
        → MemoryCache
        → Cached (Result E String)
    with_cache hash complete now later system user c =
        let key = hash (hashed_bytes system user) in
        on_lookup later key (complete system user) (cache_get now key c)
