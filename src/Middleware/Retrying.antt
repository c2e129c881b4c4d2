-- ===== src/Middleware/Retrying.antt =====
-- What WithRetry of agent/middleware.go returns.
use sibyl.Prelude.{
  ℕ, zero, suc, ◌+◌, ◌-◌, ◌*◌, ◌≤◌, ◌<◌, ◌≡◌, refl, false, Option, none, Result, map_err, ok, err,
  arith,
}
use mathlib.Core.Path.{subst}
use sibyl.Prelude.Int.{ℤ, pos, negsuc}
use sibyl.Middleware.{
  RetryError, after_attempts, context_done, invalid_argument, attempts_of, delay_of, int64_bits,
  no_jitter, after_attempt, attempts_from, with_retry,
}

-- A delay that is doubled that many times.
abbrev pub doubled : ℕ → ℕ → ℕ
doubled zero delay = delay
doubled (suc n) delay = doubled n (2 * delay)

doubled-ge : (n delay : ℕ) → delay ≤ doubled n delay
doubled-ge zero delay = omega arith
doubled-ge (suc n) delay = omega (arith, doubled-ge n (2 * delay))

int64_bits-small : (n : ℕ) → n < 9223372036854775808 → int64_bits n ≡ n
int64_bits-small n h = omega (arith, h)

no_jitter-small : (n : ℕ) → 2 ≤ n → n < 9223372036854775808 → no_jitter n ≡ false
no_jitter-small n h k = ground (arith, h, k)

attempts_of-pos : (n : ℤ) → attempts_of n ≡ suc (attempts_of n - 1) + 0
attempts_of-pos (pos zero) = omega arith
attempts_of-pos (pos (suc n)) = omega arith
attempts_of-pos (negsuc n) = omega arith

module _ {E A : Type 0} (next : ℕ → Result E A) where
  abbrev pub AllFail : ℕ → Type 0
  AllFail zero = Unit
  AllFail (suc i) = AllFail i × (e : E) × (next i ≡ err e)

  -- The first answer among n attempts, or the last of n errors.
  abbrev pub IsRetried : ℕ → Result (RetryError E) A → Type 0
  IsRetried n (ok out) = (k : ℕ) × (k < n) × (next k ≡ ok out) × AllFail k
  IsRetried n (err (after_attempts m e)) =
      (m ≡ n) × AllFail n × (i : ℕ) × (n ≡ suc i) × (next i ≡ err e)
  IsRetried n (err (context_done e)) = ⊥
  IsRetried n (err invalid_argument) = ⊥

  last-IsRetried :
      (i : ℕ) (r : Result E A)
      → next i ≡ r
      → AllFail i
      → IsRetried (suc i) (map_err (after_attempts (suc i)) r)
  last-IsRetried i (ok out) answer before = (i, omega arith, answer, before)
  last-IsRetried i (err e) failed before = (refl, (before, e, failed), i, refl, failed)

  attempt-IsRetried :
      (n i : ℕ) (r : Result E A) (rest : Result (RetryError E) A)
      → i < n
      → next i ≡ r
      → AllFail i
      → (AllFail (suc i) → IsRetried n rest)
      → IsRetried n (after_attempt r rest)
  attempt-IsRetried n i (ok out) rest small answer before go = (i, small, answer, before)
  attempt-IsRetried n i (err e) rest small failed before go = go (before, e, failed)

  module _ (jitter : ℕ → ℕ) (wait : ℕ → ℕ → Option E) where
    attempts_from-IsRetried :
        ((j d : ℕ) → wait j d ≡ none)
        → (n more i delay : ℕ) → n ≡ suc more + i
        → AllFail i
        → 2 ≤ delay
        → doubled more delay < 9223372036854775808
        → IsRetried n (attempts_from n next jitter wait more i delay)
    unfolding attempts_from
    attempts_from-IsRetried alive n zero i delay same before least fits =
        let same' : suc i ≡ n = omega (arith, same) in
        subst (λ m. IsRetried m (map_err (after_attempts m) (next i))) same'
          (last-IsRetried i (next i) refl before)
    attempts_from-IsRetried alive n (suc more) i delay same before least fits =
        let small : delay < 9223372036854775808 =
          omega (arith, fits, doubled-ge (suc more) delay) in
        let small' : 2 * delay < 9223372036854775808 =
          omega (arith, fits, doubled-ge more (2 * delay)) in
        attempt-IsRetried n i (next i) _ (omega (arith, same)) refl before (λ failed.
          rw (no_jitter-small delay least small, alive i, int64_bits-small (2 * delay) small')
            (attempts_from-IsRetried alive n more (suc i) (2 * delay) (omega (arith, same)) failed
              (omega (arith, least)) fits))

module _ {E A : Type 0} (attempts initial : ℤ) (next : ℕ → Result E A) (jitter : ℕ → ℕ)
    (wait : ℕ → ℕ → Option E) where
  -- While the context does not end in a wait, the first delay is at least two nanoseconds and the
  -- last one is below 2^63, WithRetry returns the first answer among its attempts; if there is none,
  -- the error of the last attempt.
  pub with_retry-IsRetried :
      ((j d : ℕ) → wait j d ≡ none)
      → 2 ≤ delay_of initial
      → doubled (attempts_of attempts - 1) (delay_of initial) < 9223372036854775808
      → IsRetried next (attempts_of attempts) (with_retry attempts initial next jitter wait)
  unfolding with_retry
  with_retry-IsRetried alive least fits =
      attempts_from-IsRetried next jitter wait alive (attempts_of attempts)
        (attempts_of attempts - 1) 0 (delay_of initial) (attempts_of-pos attempts) tt least fits
