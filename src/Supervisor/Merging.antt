-- ===== src/Supervisor/Merging.antt =====
-- agent/synthesize_llm.go: LLMSynthesizer. A reply is its bytes.
use sibyl.Prelude.{
  ℕ, ◌≡◌, refl, String, List, [], ◌∷◌, map, Option, none, some, Result, ok, err, ◌>>=◌, map_err,
  if◌then◌else◌, Bool-cases, inl, inr,
}
use sibyl.Prelude.Texts.{joined, trim_right_char}
use sibyl.Supervisor.{SubAnswer}
use sibyl.Supervisor.Synthesis.{has_failed}
use sibyl.Converge.Activities.{CompletionRequest, trim_response}

pub data MergeError (E : Type 0) : Type 0 where
  complete_is_nil : MergeError E
  completion_failed : E → MergeError E

abbrev pub answer_part : SubAnswer → String
answer_part a =
    if has_failed a
    then joined "### Sub-question (FAILED): "
        (joined a.sub_question.text (joined "\nError: " (joined a.error "\n\n")))
    else joined "### Sub-question: "
        (joined a.sub_question.text (joined "\n" (joined a.answer "\n\n")))

unfoldable pub answer_parts : List SubAnswer → String
answer_parts [] = ""
answer_parts (a ∷ answers) = joined (answer_part a) (answer_parts answers)

abbrev pub synthesis_prompt : String
synthesis_prompt =
    "You are a synthesis editor merging multiple research sub-answers into one coherent final answer.\n\nGuidelines:\n- Produce a single, unified answer in clean prose. Do NOT keep sub-headings or use bullet-per-subquestion format.\n- Cross-reference between sub-answers when relevant — show how they relate, contradict, or complement each other.\n- Drop redundancies. Keep specifics (numbers, names, terms) that any sub-answer mentioned.\n- If some sub-answers failed (Error set, Answer empty), briefly note what couldn't be answered at the end, in one sentence.\n- Match the granularity of the inputs: don't add new facts the sub-answers didn't already cover.\nReturn only the synthesized answer, no preamble."

unfoldable pub build_synthesis_request : List SubAnswer → CompletionRequest
build_synthesis_request answers = record {
  system_prompt = synthesis_prompt;
  user_message = trim_right_char "\n" (joined "Sub-answers to merge:\n\n" (answer_parts answers));
}

-- A nil completion is `none`.
unfoldable pub llm_synthesizer :
    {E : Type 0}
    → Option (CompletionRequest → Result E (List ℕ))
    → List SubAnswer
    → Result (MergeError E) (List ℕ)
llm_synthesizer none answers = err complete_is_nil
llm_synthesizer (some complete) answers = do
  raw ← map_err completion_failed (complete (build_synthesis_request answers))
  ok (trim_response raw)

-- A failed part without what it may have answered.
abbrev pub without_failed_answer : SubAnswer → SubAnswer
without_failed_answer a = if has_failed a then record a { answer = "" } else a

answer_part-without_failed_answer :
    (a : SubAnswer) → answer_part a ≡ answer_part (without_failed_answer a)
answer_part-without_failed_answer a = elim (Bool-cases (has_failed a)) [
  | inl failed ↦ rw (failed, failed) refl
  | inr fine ↦ rw (fine, fine) refl
]

answer_parts-map :
    (answers : List SubAnswer)
    → answer_parts answers ≡ answer_parts (map without_failed_answer answers)
unfolding answer_parts
answer_parts-map [] = refl
answer_parts-map (a ∷ answers) =
    rw (answer_part-without_failed_answer a, answer_parts-map answers) refl

-- The text of a failed part's answer does not reach the model.
pub llm_synthesizer-map :
    {E : Type 0} (complete : Option (CompletionRequest → Result E (List ℕ)))
    (answers : List SubAnswer)
    → llm_synthesizer complete answers
      ≡ llm_synthesizer complete (map without_failed_answer answers)
unfolding llm_synthesizer build_synthesis_request
llm_synthesizer-map none answers = refl
llm_synthesizer-map (some complete) answers = rw (answer_parts-map answers) refl
