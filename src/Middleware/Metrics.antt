-- ===== src/Middleware/Metrics.antt =====
-- agent/metrics.go: the observations of Metrics, and WithMetrics. A collector of Prometheus is what is
-- reported to it; a nil Metrics is `none`. A text is its bytes, a duration a number of nanoseconds.
use sibyl.Prelude.{
  ℕ, suc, ◌+◌, ◌≡◌, refl, ap, ◌∙◌, String, Bool, false, List, [], ◌∷◌, ◌++◌, Option, none, some,
  if◌then◌else◌, ◌==◌, Bool-cases, inl, inr, arith,
}
use mathlib.Core.List.{append_assoc}
use sibyl.Prelude.Int.{ℤ, pos, lt_ℤ}
use sibyl.Agents.{Returned}
use sibyl.Middleware.Accounting.{approx_tokens}

-- The names of the collectors, without the prefix `sibyl_`.
pub data Family : Type 0 where
  llm_calls_total llm_duration_seconds llm_tokens_total tool_invocations_total : Family
  tool_duration_seconds cache_operations_total workflow_executions_total : Family
  workflow_duration_seconds broker_events_total broker_subscribers : Family

-- Inc, Add, Observe and Set, with the label values.
pub data Sample : Type 0 where
  inc : Family → List String → Sample
  add : Family → List String → ℤ → Sample
  observe : Family → List String → ℕ → Sample
  set : Family → ℤ → Sample

abbrev pub Metrics : Type 0
Metrics = Option (List Sample)

abbrev pub report : List Sample → Metrics → Metrics
report samples none = none
report samples (some reported) = some (reported ++ samples)

abbrev pub observe_llm_call : String → String → ℕ → Metrics → Metrics
observe_llm_call backend status duration = report (
    inc llm_calls_total (backend ∷ status ∷ [])
    ∷ observe llm_duration_seconds (backend ∷ status ∷ []) duration
    ∷ [])

abbrev pub positive_sample : String → ℤ → List Sample
positive_sample direction n =
    if lt_ℤ (pos 0) n then add llm_tokens_total (direction ∷ []) n ∷ [] else []

abbrev pub observe_llm_tokens : ℤ → ℤ → Metrics → Metrics
observe_llm_tokens input output =
    report (positive_sample "input" input ++ positive_sample "output" output)

abbrev pub observe_tool_call : String → String → ℕ → Metrics → Metrics
observe_tool_call tool status duration = report (
    inc tool_invocations_total (tool ∷ status ∷ [])
    ∷ observe tool_duration_seconds (tool ∷ status ∷ []) duration
    ∷ [])

abbrev pub observe_cache_operation : String → Metrics → Metrics
observe_cache_operation result = report (inc cache_operations_total (result ∷ []) ∷ [])

abbrev pub observe_workflow : String → String → ℕ → Metrics → Metrics
observe_workflow workflow_type status duration = report (
    inc workflow_executions_total (workflow_type ∷ status ∷ [])
    ∷ observe workflow_duration_seconds (workflow_type ∷ status ∷ []) duration
    ∷ [])

abbrev pub observe_broker_event : String → Metrics → Metrics
observe_broker_event result = report (inc broker_events_total (result ∷ []) ∷ [])

abbrev pub set_broker_subscribers : ℤ → Metrics → Metrics
set_broker_subscribers n = report (set broker_subscribers n ∷ [])

abbrev pub status_of : {F : Type 0} → Option F → String
status_of none = "success"
status_of (some e) = "error"

module _ {F : Type 0} where
  -- What the call returned, and the metrics after it.
  abbrev pub measured :
      String → List ℕ → List ℕ → ℕ → Returned F (List ℕ) × Metrics → Returned F (List ℕ) × Metrics
  measured backend system user duration (out, metrics) = (
    out,
    observe_llm_tokens (pos (approx_tokens system + approx_tokens user))
        (pos (approx_tokens out.value))
        (observe_llm_call backend (status_of out.error) duration metrics),
  )

  unfoldable pub with_metrics :
      String
      → (List ℕ → List ℕ → Metrics → Returned F (List ℕ) × Metrics)
      → ℕ
      → List ℕ
      → List ℕ
      → Metrics
      → Returned F (List ℕ) × Metrics
  with_metrics backend next duration system user metrics =
      measured backend system user duration (next system user metrics)

-- Whether a sample counts a call of the model with this status.
abbrev pub counts_call : String → Sample → Bool
counts_call status (inc llm_calls_total (backend ∷ s ∷ [])) = s == status
counts_call status _ = false

unfoldable pub calls_counted : String → List Sample → ℕ
calls_counted status [] = 0
calls_counted status (s ∷ samples) =
    let rest = calls_counted status samples in if counts_call status s then suc rest else rest

calls_counted-append :
    (status : String) (a b : List Sample)
    → calls_counted status (a ++ b) ≡ calls_counted status a + calls_counted status b
unfolding calls_counted
calls_counted-append status [] b = omega arith
calls_counted-append status (s ∷ a) b = ground (arith, calls_counted-append status a b)

tokens_are_no_calls :
    (status direction : String) (n : ℤ) → calls_counted status (positive_sample direction n) ≡ 0
unfolding calls_counted
tokens_are_no_calls status direction n = elim (Bool-cases (lt_ℤ (pos 0) n)) [
  | inl some_tokens ↦ rw some_tokens refl
  | inr no_tokens ↦ rw no_tokens refl
]

token_samples-counted :
    (status : String) (input output : ℤ)
    → calls_counted status (positive_sample "input" input ++ positive_sample "output" output) ≡ 0
token_samples-counted status input output =
    calls_counted-append status (positive_sample "input" input) (positive_sample "output" output)
    ∙ rw (tokens_are_no_calls status "input" input, tokens_are_no_calls status "output" output) refl

module _ {F : Type 0} where
  -- The samples of one call.
  abbrev pub call_samples : String → List ℕ → List ℕ → ℕ → Returned F (List ℕ) → List Sample
  call_samples backend system user duration out =
      (inc llm_calls_total (backend ∷ status_of out.error ∷ [])
        ∷ observe llm_duration_seconds (backend ∷ status_of out.error ∷ []) duration
        ∷ [])
      ++ (positive_sample "input" (pos (approx_tokens system + approx_tokens user))
          ++ positive_sample "output" (pos (approx_tokens out.value)))

  -- One call is counted, under its status and no other.
  call_samples-counted :
      (status backend : String) (system user : List ℕ) (duration : ℕ) (out : Returned F (List ℕ))
      → calls_counted status (call_samples backend system user duration out)
        ≡ (if status_of out.error == status then 1 else 0)
  unfolding calls_counted
  call_samples-counted status backend system user duration out =
      ap (λ n. if status_of out.error == status then suc n else n)
        (token_samples-counted status (pos (approx_tokens system + approx_tokens user))
          (pos (approx_tokens out.value)))

  measured-call_samples :
      (backend : String) (system user : List ℕ) (duration : ℕ) (out : Returned F (List ℕ))
      (metrics : Metrics)
      → Path
          (Returned F (List ℕ) × Metrics)
          (measured backend system user duration (out, metrics))
          (out, report (call_samples backend system user duration out) metrics)
  measured-call_samples backend system user duration out none = refl
  measured-call_samples backend system user duration out (some reported) =
      ap (λ m. (out, some m))
        (append_assoc reported
          (inc llm_calls_total (backend ∷ status_of out.error ∷ [])
            ∷ observe llm_duration_seconds (backend ∷ status_of out.error ∷ []) duration
            ∷ [])
          (positive_sample "input" (pos (approx_tokens system + approx_tokens user))
            ++ positive_sample "output" (pos (approx_tokens out.value))))

  -- WithMetrics returns what the wrapped completion returns, error and all, and reports the samples of
  -- one call after those of the completion itself; of these samples one counts a call, and it has
  -- the status of the result.
  pub with_metrics-call_samples :
      (backend status : String) (next : List ℕ → List ℕ → Metrics → Returned F (List ℕ) × Metrics)
      (duration : ℕ) (system user : List ℕ) (metrics : Metrics)
      → let ran = next system user metrics in
        let samples = call_samples backend system user duration ran.0 in
        (with_metrics backend next duration system user metrics ≡ (ran.0, report samples ran.1))
        × (calls_counted status samples ≡ (if status_of ran.0.error == status then 1 else 0))
  unfolding with_metrics
  with_metrics-call_samples backend status next duration system user metrics =
      let ran = next system user metrics in
      (
        measured-call_samples backend system user duration ran.0 ran.1,
        call_samples-counted status backend system user duration ran.0,
      )
