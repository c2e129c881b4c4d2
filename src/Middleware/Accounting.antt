-- ===== src/Middleware/Accounting.antt =====
-- agent/tokens.go: WithTokenAccounting and AtomicTokenSink; agent/llm.go: Chain. A text is its bytes.
-- A completion runs on a state, here that of the sink.
use sibyl.Prelude.{ℕ, suc, ◌+◌, ◌*◌, ◌≤◌, ◌<◌, List, [], ◌∷◌, Option, none, some, length, arith}
use Prim.Native.Nat.{◌/◌}
use sibyl.Agents.{Returned}

pub record TokenUsage : Type 0 where
  pub input : ℕ
  pub output : ℕ

-- The sums wrap around at 2^64 in the code, which no count comes near.
pub record AtomicTokenSink : Type 0 where
  pub input : ℕ
  pub output : ℕ
  pub calls : ℕ

abbrev pub record_call : TokenUsage → AtomicTokenSink → AtomicTokenSink
record_call u s = record {
  input = s.input + u.input;
  output = s.output + u.output;
  calls = suc s.calls;
}

-- Four bytes are a token, rounded up.
unfoldable pub approx_tokens : List ℕ → ℕ
approx_tokens [] = 0
approx_tokens (c ∷ s) = (length (c ∷ s) + 3) / 4

-- A completion's answer, and the sink after it; a nil sink is `none`.
abbrev pub CompleteFunc : Type 0 → Type 0
CompleteFunc F =
    List ℕ → List ℕ → Option AtomicTokenSink → Returned F (List ℕ) × Option AtomicTokenSink

abbrev pub accounted :
    {F : Type 0}
    → List ℕ
    → List ℕ
    → Returned F (List ℕ) × Option AtomicTokenSink
    → Returned F (List ℕ) × Option AtomicTokenSink
accounted system user (out, none) = (out, none)
accounted system user (out, some sink) = (
  out,
  some (
      record_call
        (record {
          input = approx_tokens system + approx_tokens user;
          output = approx_tokens out.value;
        })
        sink),
)

-- The call is reported whether it failed or not.
unfoldable pub with_token_accounting : {F : Type 0} → CompleteFunc F → CompleteFunc F
with_token_accounting next system user sink = accounted system user (next system user sink)

-- The first middleware of the list sees the call first.
unfoldable pub chain : {T : Type 0} → T → List (T → T) → T
chain inner [] = inner
chain inner (m ∷ ms) = m (chain inner ms)

-- The estimate covers the bytes, with less than one token to spare.
pub approx_tokens_bounds :
    (s : List ℕ) → (length s ≤ 4 * approx_tokens s) × (4 * approx_tokens s < length s + 4)
unfolding approx_tokens
approx_tokens_bounds [] = (omega arith, omega arith)
approx_tokens_bounds (c ∷ s) = (omega arith, omega arith)
