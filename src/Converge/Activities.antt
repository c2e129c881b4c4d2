-- ===== src/Converge/Activities.antt =====
-- agent/activities.go and trimResponse of agent/llm.go: Research and Critique, the activities of the
-- convergence loop. A text is its bytes; `B` stands for them in the inputs. The model is called once
-- by each. encoding/json and the comparisons of float64 are parameters.
use sibyl.Prelude.{
  ℕ, ◌≡◌, String, Bool, false, List, [], ◌∷◌, ◌++◌, Option, none, some, Result, ok, err, ◌>>=◌,
  map_err, if◌then◌else◌, ◌==◌, Bool-cases, inl, inr,
}
use mathlib.Core.List.{reverse}
use sibyl.Prelude.Bytes.{cut_prefix, trim_space}
use sibyl.Prelude.Texts.{joined, decimal}
use sibyl.Converge.{Verdict, ResearchInput, CritiqueInput}

abbrev or_whole : List ℕ → Option (List ℕ) → List ℕ
or_whole s none = s
or_whole s (some rest) = rest

-- strings.TrimPrefix and strings.TrimSuffix
abbrev pub trim_prefix : List ℕ → List ℕ → List ℕ
trim_prefix p s = or_whole s (cut_prefix p s)

abbrev pub trim_suffix : List ℕ → List ℕ → List ℕ
trim_suffix p s = reverse (trim_prefix (reverse p) (reverse s))

abbrev fence : List ℕ
fence = b'`' ∷ b'`' ∷ b'`' ∷ []

abbrev json_fence : List ℕ
json_fence = fence ++ b'j' ∷ b's' ∷ b'o' ∷ b'n' ∷ []

unfoldable pub trim_response : List ℕ → List ℕ
trim_response s =
    trim_space (trim_suffix fence (trim_prefix fence (trim_prefix json_fence (trim_space s))))

pub record CompletionRequest : Type 0 where
  pub system_prompt : String
  pub user_message : String

-- A part of a prompt that is left out where there is nothing to say.
abbrev part : String → String → String
part title text = if text == "" then "" else joined title (joined text "\n")

unfoldable pub build_research_request : ResearchInput → CompletionRequest
build_research_request i = record {
  system_prompt =
      "You are a careful researcher. Answer the user's question concisely (2-4 sentences).\nIf you previously answered and received critic feedback, revise your answer to address it.\nReturn only the answer text, no preamble.";
  user_message = joined "Question: " (
      joined i.question (
        joined "\n" (
          joined (part "\nYour previous answer:\n" i.previous_answer)
            (part "\nCritic feedback to address:\n" i.critic_feedback))));
}

unfoldable pub build_critic_request : CritiqueInput → CompletionRequest
build_critic_request i = record {
  system_prompt =
      "You are a strict critic evaluating an answer to a question.\nReturn a single JSON object with these fields:\n  - \"approved\": boolean, true only if the answer is clearly correct and complete\n  - \"confidence\": number between 0.0 and 1.0\n  - \"feedback\":  string, short critique pointing out what to improve (empty if approved)\nDo not include any text outside the JSON object.";
  user_message = joined "Question: " (
      joined i.question (
        joined "\n\nAnswer to evaluate (round "
          (joined (decimal i.round) (joined "):\n" i.answer))));
}

-- `configuration_error` and `invalid_llm_response` are not retried.
pub data LlmError (E : Type 0) : Type 0 where
  configuration_error : LlmError E
  pipeline_failed : E → LlmError E
  invalid_llm_response : List ℕ → LlmError E

-- float64, as far as a confidence needs it.
pub record Confidences (C : Type 0) : Type 0 where
  pub zero_confidence : C
  pub one_confidence : C
  pub is_below : C → C → Bool

module _ {C : Type 0} (floats : Confidences C) where
  abbrev pub clamped : Verdict C → Verdict C
  clamped v =
      if floats.is_below v.confidence floats.zero_confidence
      then record v { confidence = floats.zero_confidence }
      else if floats.is_below floats.one_confidence v.confidence
      then record v { confidence = floats.one_confidence }
      else v

  abbrev pub verdict_or :
      {E : Type 0} → List ℕ → Option (Verdict C) → Result (LlmError E) (Verdict C)
  verdict_or raw none = err (invalid_llm_response raw)
  verdict_or raw (some v) = ok (clamped v)

  unfoldable pub parse_verdict :
      {E : Type 0} → (List ℕ → Option (Verdict C)) → List ℕ → Result (LlmError E) (Verdict C)
  parse_verdict unmarshal raw = verdict_or raw (unmarshal (trim_response raw))

-- `complete` is none where it is nil.
abbrev pub ask :
    {E : Type 0}
    → Option (CompletionRequest → Result E (List ℕ))
    → CompletionRequest
    → Result (LlmError E) (List ℕ)
ask none request = err configuration_error
ask (some complete) request = map_err pipeline_failed (complete request)

unfoldable pub research :
    {E : Type 0}
    → Option (CompletionRequest → Result E (List ℕ))
    → ResearchInput
    → Result (LlmError E) (List ℕ)
research complete i = do raw ← ask complete (build_research_request i); ok (trim_response raw)

unfoldable pub critique :
    {C E : Type 0}
    → Confidences C
    → (List ℕ → Option (Verdict C))
    → Option (CompletionRequest → Result E (List ℕ))
    → CritiqueInput
    → Result (LlmError E) (Verdict C)
critique floats unmarshal complete i = do
  raw ← ask complete (build_critic_request i)
  parse_verdict floats unmarshal raw

module _ {C : Type 0} (E : Type 0) (floats : Confidences C)
    (unmarshal : List ℕ → Option (Verdict C))
    (zero_lem : floats.is_below floats.zero_confidence floats.zero_confidence ≡ false)
    (one_lem : floats.is_below floats.one_confidence floats.one_confidence ≡ false)
    (order_lem : floats.is_below floats.one_confidence floats.zero_confidence ≡ false) where
  -- A confidence between 0 and 1.
  abbrev IsConfidence : C → Type 0
  IsConfidence c =
      (floats.is_below c floats.zero_confidence ≡ false)
      × (floats.is_below floats.one_confidence c ≡ false)

  abbrev IsClamped : Result (LlmError E) (Verdict C) → Type 0
  IsClamped (ok v) = IsConfidence v.confidence
  IsClamped (err e) = Unit

  clamped-IsConfidence : (v : Verdict C) → IsConfidence (clamped floats v).confidence
  clamped-IsConfidence v = elim (Bool-cases (floats.is_below v.confidence floats.zero_confidence)) [
    | inl low ↦ rw low (zero_lem, order_lem)
    | inr enough ↦ elim (Bool-cases (floats.is_below floats.one_confidence v.confidence)) [
      | inl high ↦ rw (enough, high) (order_lem, one_lem)
      | inr right ↦ rw (enough, right) (enough, right)
    ]
  ]

  verdict_or-IsClamped :
      (raw : List ℕ) (o : Option (Verdict C)) → IsClamped (verdict_or floats raw o)
  verdict_or-IsClamped raw none = tt
  verdict_or-IsClamped raw (some v) = clamped-IsConfidence v

  asked-IsClamped :
      (r : Result (LlmError E) (List ℕ))
      → IsClamped (r >>= λ raw. parse_verdict floats unmarshal raw)
  unfolding parse_verdict
  asked-IsClamped (ok raw) = verdict_or-IsClamped raw (unmarshal (trim_response raw))
  asked-IsClamped (err e) = tt

  -- A verdict that the critic returns has a confidence between 0 and 1, whatever the model says.
  pub critique-IsClamped :
      (complete : Option (CompletionRequest → Result E (List ℕ))) (i : CritiqueInput)
      → IsClamped (critique floats unmarshal complete i)
  unfolding critique
  critique-IsClamped complete i = asked-IsClamped (ask complete (build_critic_request i))
