-- ===== src/Supervisor/Outcome.antt =====
-- What SupervisorWorkflow of agent/supervisor.go returns.
use sibyl.Prelude.{
  if◌then◌else◌, ℕ, ◌+◌, ◌≤◌, ◌≡◌, ◌⊎◌, refl, sym, ap, ◌∙◌, String, true, false, List, [], ◌∷◌, map,
  Result, Result-cases, ok, err, arith, length, inl, inr, Bool-cases, ◌==◌, nat_eq,
}
use sibyl.Prelude.Int.{pos, is_zero}
use sibyl.Converge.Failure.{IsPositive, is_not_positive-IsPositive, is_not_positive-refuses}
use sibyl.Converge.{Question, Answer, is_not_positive}
use sibyl.Supervisor.{
  SubQuestion, SubAnswer, SupervisorInput, SupervisorOutput, DecomposeInput, SupervisorError,
  empty_question, rounds_not_positive, index_out_of_range, decompose_failed, synthesis_failed,
  all_children_failed, Gathered, nothing_gathered, gather, all_failed, conclude, after_gathering,
  supervise,
}
use sibyl.Supervisor.Gathering.{
  answer_of, successes_of, gather-sub_answers, gather-successes, gather-total,
}

module _ {C E : Type 0} (message : E → String) (child : String → Question → Result E (Answer C))
    (decompose_activity : DecomposeInput → Result E (List SubQuestion))
    (synthesize : List SubAnswer → Result E String) (parent : String) (i : SupervisorInput) where
  -- The split of the question into as many parts as are asked for, and five where none are.
  abbrev asks : Result E (List SubQuestion)
  asks = decompose_activity (record {
    question = i.question;
    max_sub_questions = if is_zero i.max_sub_questions then pos 5 else i.max_sub_questions;
  })

  abbrev answers : List SubQuestion → List SubAnswer
  answers = map (answer_of message child parent i.max_rounds_per_child)

  abbrev successes : List SubQuestion → ℕ
  successes = successes_of message child parent i.max_rounds_per_child

  -- What the workflow returns once the question is split into these parts.
  abbrev pub IsConclusion : List SubQuestion → Result (SupervisorError E) SupervisorOutput → Type 0
  IsConclusion sqs (ok o) =
      (o.sub_answers ≡ answers sqs)
      × (o.success_count ≡ successes sqs)
      × (1 ≤ successes sqs)
      × (o.success_count + o.failure_count ≡ length sqs)
      × (synthesize (answers sqs) ≡ ok o.synthesis)
  IsConclusion sqs (err index_out_of_range) = sqs ≡ []
  IsConclusion sqs (err (all_children_failed sub_answers failures first)) =
      (sub_answers ≡ answers sqs)
      × (successes sqs ≡ 0)
      × (failures ≡ length sqs)
      × ((sq : SubQuestion) × (rest : List SubQuestion) × (sqs ≡ sq ∷ rest)
          × (first ≡ (answer_of message child parent i.max_rounds_per_child sq).error))
  IsConclusion sqs (err (synthesis_failed e)) =
      (1 ≤ successes sqs) × (synthesize (answers sqs) ≡ err e)
  IsConclusion sqs (err _) = ⊥

  failure-IsConclusion :
      (sqs : List SubQuestion) (g : Gathered)
      → g.sub_answers ≡ answers sqs
      → successes sqs ≡ 0
      → g.failures ≡ length sqs
      → IsConclusion sqs (all_failed g (answers sqs))
  failure-IsConclusion [] g e s t = refl
  failure-IsConclusion (sq ∷ sqs) g e s t = (e, s, t, (sq, sqs, refl, refl))

  success-IsConclusion :
      (sqs : List SubQuestion) (g : Gathered)
      → g.sub_answers ≡ answers sqs
      → g.successes ≡ successes sqs
      → 1 ≤ g.successes
      → g.successes + g.failures ≡ length sqs
      → IsConclusion sqs (conclude synthesize g)
  success-IsConclusion sqs g e s p t = elim (Result-cases (synthesize g.sub_answers)) [
    | inl (x, failed) ↦ rw failed (omega (arith, s, p), ap synthesize (sym e) ∙ failed)
    | inr (x, done) ↦ rw done (e, s, omega (arith, s, p), t, ap synthesize (sym e) ∙ done)
  ]

  after_gathering-IsConclusion :
      (sqs : List SubQuestion) (g : Gathered)
      → g.sub_answers ≡ answers sqs
      → g.successes ≡ successes sqs
      → g.successes + g.failures ≡ length sqs
      → IsConclusion sqs (after_gathering synthesize g)
  after_gathering-IsConclusion sqs g e s t = elim (Bool-cases (nat_eq g.successes 0)) [
    | inl none_left ↦
        rw (none_left, e)
          (failure-IsConclusion sqs (record g { sub_answers = answers sqs }) refl
            (ground (arith, s, none_left)) (ground (arith, t, none_left)))
    | inr some_left ↦ rw some_left (success-IsConclusion sqs g e s (ground arith) t)
  ]

  -- The workflow refuses an empty question, then a bound that is not positive. For any other input it
  -- fails with the decomposition, or once the question is split: it returns the answers of all parts in their order
  -- with the counts of those that succeeded and failed, at least one of them a success, and their
  -- synthesis; or all parts failed, and the error carries them, with the error of the first; or their synthesis failed; or there
  -- was no part, and the index of the first answer is out of range.
  pub supervise_outcome :
      ((i.question == "") ≡ true)
        × (supervise message child decompose_activity synthesize parent i ≡ err empty_question)
      ⊎ ((i.question == "") ≡ false)
        × (IsPositive i.max_rounds_per_child → ⊥)
        × (supervise message child decompose_activity synthesize parent i ≡ err rounds_not_positive)
      ⊎ ((i.question == "") ≡ false)
        × IsPositive i.max_rounds_per_child
        × ((e : E) × (asks ≡ err e)
            × (supervise message child decompose_activity synthesize parent i
                ≡ err (decompose_failed e)))
      ⊎ ((i.question == "") ≡ false)
        × IsPositive i.max_rounds_per_child
        × ((sqs : List SubQuestion) × (asks ≡ ok sqs)
            × IsConclusion sqs (supervise message child decompose_activity synthesize parent i))
  unfolding supervise
  supervise_outcome = elim (Bool-cases (i.question == "")) [
    | inl empty ↦ inl (empty, rw empty refl)
    | inr some_text ↦ elim (Bool-cases (is_not_positive i.max_rounds_per_child)) [
      | inl bad ↦ inr (
          inl (
            some_text,
            is_not_positive-refuses i.max_rounds_per_child bad,
            rw (some_text, bad) refl,
          ))
      | inr good ↦ elim (Result-cases asks) [
        | inl (e, failed) ↦ inr (
            inr (
              inl (
                some_text,
                is_not_positive-IsPositive i.max_rounds_per_child good,
                (e, failed, rw (some_text, good, failed) refl),
              )))
        | inr (sqs, split) ↦
            let waited =
              after_gathering-IsConclusion sqs
                (gather message child parent i.max_rounds_per_child sqs nothing_gathered)
                (gather-sub_answers message child parent i.max_rounds_per_child sqs
                  nothing_gathered)
                (omega (
                  arith,
                  gather-successes message child parent i.max_rounds_per_child sqs nothing_gathered,
                ))
                (omega (
                  arith,
                  gather-total message child parent i.max_rounds_per_child sqs nothing_gathered,
                )) in
            inr (
              inr (
                inr (
                  some_text,
                  is_not_positive-IsPositive i.max_rounds_per_child good,
                  (sqs, split, rw (some_text, good, split) waited),
                )))
      ]
    ]
  ]
