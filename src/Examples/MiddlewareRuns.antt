-- ===== src/Examples/MiddlewareRuns.antt =====
-- agent/middleware.go: an attempt that fails and one that answers, and three calls behind a cache.
use sibyl.Prelude.{
  ℕ, zero, suc, ◌≡◌, ◌⊎◌, refl, sym, String, List, [], ◌∷◌, Option, none, Result, ok, err, inl, inr,
  arith, eq_iff, true≢false,
}
use mathlib.Core.Path.{subst}
use sibyl.Prelude.Int.{pos}
use sibyl.Middleware.{invalid_argument, with_retry, attempts_from}
use sibyl.Middleware.Retrying.{IsRetried, with_retry-IsRetried}
use sibyl.Middleware.Caching.{hashed_bytes}
use sibyl.Middleware.Transparent.{Call, NoZero, answers, answers_complete}

abbrev second_answers : ℕ → Result String ℕ
second_answers zero = err "busy"
second_answers (suc i) = ok 7

abbrev no_end : ℕ → ℕ → Option String
no_end i d = none

abbrev some_jitter : ℕ → ℕ
some_jitter i = 5

with_retry-IsRetried_example :
    IsRetried second_answers 3 (with_retry (pos 3) (pos 200) second_answers some_jitter no_end)
with_retry-IsRetried_example =
    with_retry-IsRetried (pos 3) (pos 200) second_answers some_jitter no_end (λ j d. refl)
      (omega arith) (omega arith)

-- Half of one nanosecond is no bound for a random number.
one_nanosecond_panics :
    with_retry (pos 3) (pos 1) second_answers some_jitter no_end ≡ err invalid_argument
unfolding with_retry attempts_from
one_nanosecond_panics = refl

abbrev by_user : List ℕ → List ℕ → Result String String
by_user system [] = ok "empty"
by_user system (c ∷ user) = err "refused"

-- The prompts in use: the system prompt "s", without or with the user's "u".
abbrev Used : List ℕ → List ℕ → Type 0
Used s u = (s ≡ b's' ∷ []) × ((u ≡ []) ⊎ (u ≡ b'u' ∷ []))

abbrev short_hash : List ℕ → String
short_hash (a ∷ b ∷ []) = "short"
short_hash _ = "long"

abbrev call_of : List ℕ → Call
call_of user = record { now = 3; later = 4; system = b's' ∷ []; user = user }

abbrev three_calls : List Call
three_calls = call_of [] ∷ call_of (b'u' ∷ []) ∷ call_of [] ∷ []

short_hash-apart :
    (s u t v : List ℕ)
    → Used s u
    → Used t v
    → short_hash (hashed_bytes s u) ≡ short_hash (hashed_bytes t v)
    → hashed_bytes s u ≡ hashed_bytes t v
short_hash-apart s u t v (a, inl b) (c, inl d) h = rw (a, b, c, d) refl
short_hash-apart s u t v (a, inr b) (c, inr d) h = rw (a, b, c, d) refl
short_hash-apart s u t v (a, inl b) (c, inr d) h =
    absurd (true≢false (sym ((eq_iff "short" "long").1 (rw (a, b, c, d) at h))))
short_hash-apart s u t v (a, inr b) (c, inl d) h =
    absurd (true≢false (sym ((eq_iff "long" "short").1 (rw (a, b, c, d) at h))))

answers_complete_example :
    answers (pos 10) short_hash by_user three_calls []
    ≡ ok "empty" ∷ err "refused" ∷ ok "empty" ∷ []
answers_complete_example =
    answers_complete (pos 10) short_hash by_user Used (λ s u p. subst NoZero (sym p.0) (refl, tt))
      short_hash-apart three_calls ((refl, inl refl), ((refl, inr refl), ((refl, inl refl), tt)))
