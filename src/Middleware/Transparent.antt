-- ===== src/Middleware/Transparent.antt =====
-- WithCache of agent/middleware.go gives the answers of the completion it wraps.
use sibyl.Prelude.{
  ℕ, ◌≡◌, refl, sym, String, false, List, [], ◌∷◌, ◌++◌, map, Option, none, some, ◌==◌, eq_iff,
  Result, ok, err, nat_eq, All, Bool-cases, inl, inr, arith,
}
use sibyl.Prelude.Int.{ℤ}
use sibyl.Prelude.Maps.{get, put, delete, get-put, get-delete}
use sibyl.Middleware.Caching.{
  MemoryCacheEntry, MemoryCache, Cached, has_expired, hashed_bytes, entry_at, completed, on_lookup,
  with_cache,
}

-- A text without a zero byte.
abbrev pub NoZero : List ℕ → Type 0
NoZero = All (λ c. nat_eq c 0 ≡ false)

cons-inj : (a b : ℕ) (s t : List ℕ) → a ∷ s ≡ b ∷ t → (a ≡ b) × (s ≡ t)
cons-inj a b s t h = (cc, cc)

cons-eq {ℓ} : {A : Type ℓ} {a b : A} {s t : List A} → a ≡ b → s ≡ t → a ∷ s ≡ b ∷ t
cons-eq h k = cc

-- The zero byte tells where the first prompt ends, if that has none itself.
hashed_bytes-inj :
    (s t u v : List ℕ)
    → NoZero s
    → NoZero t
    → hashed_bytes s u ≡ hashed_bytes t v
    → (s ≡ t) × (u ≡ v)
hashed_bytes-inj [] [] u v p q h = (refl, (cons-inj 0 0 u v h).1)
hashed_bytes-inj [] (c ∷ t) u v p q h =
    absurd (ground (arith, q.0, (cons-inj 0 c u (t ++ 0 ∷ v) h).0))
hashed_bytes-inj (b ∷ s) [] u v p q h =
    absurd (ground (arith, p.0, (cons-inj b 0 (s ++ 0 ∷ u) v h).0))
hashed_bytes-inj (b ∷ s) (c ∷ t) u v p q h =
    let (first, rest) = cons-inj b c (s ++ 0 ∷ u) (t ++ 0 ∷ v) h in
    let (same, after) = hashed_bytes-inj s t u v p.1 q.1 rest in (cons-eq first same, after)

pub record Call : Type 0 where
  pub now : ℕ
  pub later : ℕ
  pub system : List ℕ
  pub user : List ℕ

module _ {E : Type 0} (ttl : ℤ) (hash : List ℕ → String)
    (complete : List ℕ → List ℕ → Result E String) where
  -- The answers to calls that are made one after the other.
  unfoldable pub answers : List Call → MemoryCache → List (Result E String)
  answers [] c = []
  answers (call ∷ calls) c =
      let r = with_cache ttl hash complete call.now call.later call.system call.user c in
      r.result ∷ answers calls r.cache

  module _ (Prompts : List ℕ → List ℕ → Type 0) (no_zero : (s u : List ℕ) → Prompts s u → NoZero s)
      (no_collision : (s u t v : List ℕ)
        → Prompts s u
        → Prompts t v
        → hash (hashed_bytes s u) ≡ hash (hashed_bytes t v)
        → hashed_bytes s u ≡ hashed_bytes t v) where
    -- What the cache holds for prompts is the answer to them.
    abbrev Holds : List ℕ → List ℕ → Option MemoryCacheEntry → Type 0
    Holds s u none = Unit
    Holds s u (some entry) = complete s u ≡ ok entry.value

    abbrev IsTrue : MemoryCache → Type 0
    IsTrue c = (s u : List ℕ) → Prompts s u → Holds s u (get c (hash (hashed_bytes s u)))

    delete-IsTrue : (c : MemoryCache) (key : String) → IsTrue c → IsTrue (delete c key)
    delete-IsTrue c key h s u p =
        rw (get-delete c key (hash (hashed_bytes s u)))
          (elim (Bool-cases (key == hash (hashed_bytes s u))) [
            | inl same ↦ rw same tt
            | inr other ↦ rw other (h s u p)
          ])

    put-IsTrue :
        (s u : List ℕ) (c : MemoryCache) (entry : MemoryCacheEntry)
        → Prompts s u
        → complete s u ≡ ok entry.value
        → IsTrue c
        → IsTrue (put c (hash (hashed_bytes s u)) entry)
    put-IsTrue s u c entry q known h t v p =
        rw (get-put c (hash (hashed_bytes s u)) (hash (hashed_bytes t v)) entry)
          (elim (Bool-cases (hash (hashed_bytes s u) == hash (hashed_bytes t v))) [
            | inl same ↦
                let (same_system, same_user) =
                  hashed_bytes-inj s t u v (no_zero s u q) (no_zero t v p)
                    (no_collision s u t v q p ((eq_iff _ _).0 same)) in
                rw same (rw (← same_system, ← same_user) known)
            | inr other ↦ rw other (h t v p)
          ])

    abbrev IsAnswer : List ℕ → List ℕ → Cached (Result E String) → Type 0
    IsAnswer s u r = (r.result ≡ complete s u) × IsTrue r.cache

    completed-IsAnswer :
        (later : ℕ) (s u : List ℕ) (c : MemoryCache) (r : Result E String)
        → Prompts s u
        → complete s u ≡ r
        → IsTrue c
        → IsAnswer s u (completed ttl later (hash (hashed_bytes s u)) c r)
    completed-IsAnswer later s u c (err e) p known h = (sym known, h)
    completed-IsAnswer later s u c (ok out) p known h = (sym known, put-IsTrue s u c _ p known h)

    lookup-IsAnswer :
        (now later : ℕ) (s u : List ℕ) (c : MemoryCache) (found : Option MemoryCacheEntry)
        → Prompts s u
        → Holds s u found
        → IsTrue c
        → IsAnswer s u (
            on_lookup ttl later
              (hash (hashed_bytes s u))
              (complete s u)
              (entry_at ttl now c (hash (hashed_bytes s u)) found))
    lookup-IsAnswer now later s u c none p holds h =
        completed-IsAnswer later s u c (complete s u) p refl h
    lookup-IsAnswer now later s u c (some entry) p holds h =
        elim (Bool-cases (has_expired ttl now entry.expires)) [
          | inl old ↦ rw old (
              completed-IsAnswer later s u (delete c (hash (hashed_bytes s u))) (complete s u) p
                refl (delete-IsTrue c (hash (hashed_bytes s u)) h))
          | inr current ↦ rw current (sym holds, h)
        ]

    with_cache-IsAnswer :
        (now later : ℕ) (s u : List ℕ) (c : MemoryCache)
        → Prompts s u
        → IsTrue c
        → IsAnswer s u (with_cache ttl hash complete now later s u c)
    unfolding with_cache
    with_cache-IsAnswer now later s u c p h =
        lookup-IsAnswer now later s u c (get c (hash (hashed_bytes s u))) p (h s u p) h

    answers-IsTrue :
        (calls : List Call) (c : MemoryCache)
        → All (λ call. Prompts call.system call.user) calls
        → IsTrue c
        → answers calls c ≡ map (λ call. complete call.system call.user) calls
    unfolding answers
    answers-IsTrue [] c ps h = refl
    answers-IsTrue (call ∷ calls) c (p, ps) h =
        let (same, holds) = with_cache-IsAnswer call.now call.later call.system call.user c p h in
        cons-eq same (answers-IsTrue calls _ ps holds)

    -- From an empty cache, and whatever the times and the lifetime of an entry, the calls of a
    -- completion behind WithCache get what the completion gives for their prompts. The system
    -- prompts have no zero byte, and the hash does not collide on the prompts in use.
    pub answers_complete :
        (calls : List Call)
        → All (λ call. Prompts call.system call.user) calls
        → answers calls [] ≡ map (λ call. complete call.system call.user) calls
    unfolding get
    answers_complete calls ps = answers-IsTrue calls [] ps (λ s u p. tt)
