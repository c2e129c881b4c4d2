-- ===== src/Middleware.antt =====
-- agent/middleware.go: WithRetry, MemoryCache and WithCache, wrapped around a completion. Prompts are
-- bytes. Random numbers, the clock, the waiting and SHA-256 are parameters.
pub mod Retrying
pub mod Caching
pub mod Transparent
pub mod Accounting
pub mod Persistent
pub mod Metrics
use sibyl.Prelude.{
  ℕ, zero, suc, ◌+◌, ◌-◌, ◌*◌, ◌%◌, String, Bool, true, false, List, [], ◌∷◌, ◌++◌, Option, none,
  some, ◌&&◌, ◌||◌, Result, ok, err, map_err, if◌then◌else◌, leb, ltb,
}
use sibyl.Prelude.Int.{ℤ, pos, negsuc}
use sibyl.Prelude.Maps.{GoMap, get, put, delete}

-- `invalid_argument` is the panic of rand.Int63n.
pub data RetryError (E : Type 0) : Type 0 where
  after_attempts : ℕ → E → RetryError E
  context_done : E → RetryError E
  invalid_argument : RetryError E

abbrev pub attempts_of : ℤ → ℕ
attempts_of (pos zero) = 1
attempts_of (pos (suc n)) = suc n
attempts_of (negsuc n) = 1

-- In nanoseconds: 100 milliseconds where none is given.
abbrev pub delay_of : ℤ → ℕ
delay_of (pos zero) = 100000000
delay_of (pos (suc n)) = suc n
delay_of (negsuc n) = 100000000

-- A delay is an int64, by its 64 bits; the upper half are the negative ones.
abbrev pub int64_bits : ℕ → ℕ
int64_bits n = n % 18446744073709551616

-- Whether half of the delay is no bound for a random number.
abbrev pub no_jitter : ℕ → Bool
no_jitter delay = ltb delay 2 || leb 9223372036854775808 delay

abbrev pub after_wait :
    {E A : Type 0} → Option E → Result (RetryError E) A → Result (RetryError E) A
after_wait none rest = rest
after_wait (some e) rest = err (context_done e)

abbrev pub after_attempt :
    {E A : Type 0} → Result E A → Result (RetryError E) A → Result (RetryError E) A
after_attempt (ok out) rest = ok out
after_attempt (err e) rest = rest

-- `next` is the wrapped call on the same prompts, by the number of the attempt from zero; `jitter`
-- the random number after a failed attempt; `wait` the error of the context if it ends first.
module _ {E A : Type 0} (attempts : ℕ) (next : ℕ → Result E A) (jitter : ℕ → ℕ)
    (wait : ℕ → ℕ → Option E) where
  -- The first argument counts the attempts after this one.
  unfoldable pub attempts_from : ℕ → ℕ → ℕ → Result (RetryError E) A
  attempts_from zero i delay = map_err (after_attempts attempts) (next i)
  attempts_from (suc more) i delay =
      let rest = attempts_from more (suc i) (int64_bits (2 * delay)) in
      after_attempt (next i) (
        if no_jitter delay
        then err invalid_argument
        else after_wait (wait i (int64_bits (delay + jitter i))) rest)

unfoldable pub with_retry :
    {E A : Type 0}
    → ℤ
    → ℤ
    → (ℕ → Result E A)
    → (ℕ → ℕ)
    → (ℕ → ℕ → Option E)
    → Result (RetryError E) A
with_retry attempts initial next jitter wait =
    attempts_from (attempts_of attempts) next jitter wait (attempts_of attempts - 1) 0
      (delay_of initial)
