-- ===== src/Examples/SupervisorRuns.antt =====
-- agent/supervisor.go: three parts, the second of which fails.
use sibyl.Prelude.{
  ℕ, ◌≡◌, ◌⊎◌, refl, String, true, false, List, [], ◌∷◌, Result, ok, err, nat_eq, ◌==◌,
  if◌then◌else◌, ◌++◌,
}
use sibyl.Prelude.Int.{pos}
use sibyl.Prelude.Bytes.{trim_space, trim_right, trim_left, trim_from, cut_first, cut_prefix, index}
use sibyl.Supervisor.Split.{
  slice_out_of_range, split_heuristic, try_splitters, split_case_insensitive, split_loop,
  split_byte,
}
use sibyl.Supervisor.Parts.{IsSplit, split_heuristic-IsSplit}
use sibyl.Converge.{Question, Answer}
use sibyl.Converge.Failure.{IsPositive}
use sibyl.Supervisor.{
  SubQuestion, SubAnswer, SupervisorInput, DecomposeInput, SupervisorError, empty_question,
  rounds_not_positive, decompose_failed, supervise, gather, failed_answer, good_answer,
}
use sibyl.Prelude.Texts.{joined, join}
use sibyl.Supervisor.Synthesis.{
  sections, bullets, tail_of, synthesize_answers, synthesize_answers-join,
}
use sibyl.Supervisor.Outcome.{IsConclusion, supervise_outcome}

abbrev said : String → String
said e = e

abbrev three_parts : DecomposeInput → Result String (List SubQuestion)
three_parts i = ok (
    record { index = 0; text = "a" }
    ∷ record { index = 1; text = "b" }
    ∷ record { index = 2; text = "c" }
    ∷ [])

abbrev all_but_b : String → Question → Result String (Answer ℕ)
all_but_b id q =
    if q.text == "b"
    then err "no answer for b"
    else ok (record { text = q.text; rounds = 1; converged = true; history = [] })

abbrev counted : List SubAnswer → Result String String
counted as' = ok "done"

abbrev asked : SupervisorInput
asked = record { question = "a, b and c?"; max_rounds_per_child = pos 3; max_sub_questions = pos 0 }

two_of_three : Result (SupervisorError String) ℕ
two_of_three = elim (supervise said all_but_b three_parts counted "w" asked) [
  | ok o ↦ ok o.success_count
  | err e ↦ err e
]

counts : two_of_three ≡ ok 2
unfolding two_of_three supervise gather
counts = refl

supervise_outcome_example :
    ((asked.question == "") ≡ true)
      × (supervise said all_but_b three_parts counted "w" asked ≡ err empty_question)
    ⊎ ((asked.question == "") ≡ false)
      × (IsPositive asked.max_rounds_per_child → ⊥)
      × (supervise said all_but_b three_parts counted "w" asked ≡ err rounds_not_positive)
    ⊎ ((asked.question == "") ≡ false)
      × IsPositive asked.max_rounds_per_child
      × ((e : String) × (three_parts
              (record { question = asked.question; max_sub_questions = pos 5 })
            ≡ err e)
          × (supervise said all_but_b three_parts counted "w" asked ≡ err (decompose_failed e)))
    ⊎ ((asked.question == "") ≡ false)
      × IsPositive asked.max_rounds_per_child
      × ((sqs : List SubQuestion) × (three_parts
              (record { question = asked.question; max_sub_questions = pos 5 })
            ≡ ok sqs)
          × IsConclusion said all_but_b three_parts counted "w" asked sqs
              (supervise said all_but_b three_parts counted "w" asked))
supervise_outcome_example = supervise_outcome said all_but_b three_parts counted "w" asked

abbrev in_quotes : String → String
in_quotes s = joined "'" (joined s "'")

abbrev answer_b : Answer ℕ
answer_b = record { text = "yes"; rounds = 1; converged = true; history = [] }

abbrev two_answers : List SubAnswer
two_answers =
    failed_answer said (record { index = 0; text = "a" }) "late"
    ∷ good_answer (record { index = 1; text = "b" }) answer_b
    ∷ []

synthesize_answers-join_example :
    synthesize_answers in_quotes two_answers
    ≡ join "\n\n" (sections two_answers ++ tail_of (bullets in_quotes two_answers))
synthesize_answers-join_example = synthesize_answers-join in_quotes two_answers

abbrev same_case : List ℕ → List ℕ
same_case s = s

-- " a vs b "
abbrev a_versus_b : List ℕ
a_versus_b = b' ' ∷ b'a' ∷ b' ' ∷ b'v' ∷ b's' ∷ b' ' ∷ b'b' ∷ b' ' ∷ []

a_versus_b_splits : split_heuristic same_case a_versus_b ≡ ok ((b'a' ∷ []) ∷ (b'b' ∷ []) ∷ [])
unfolding split_heuristic try_splitters split_case_insensitive split_loop split_byte index
    trim_space trim_right trim_left trim_from cut_first cut_prefix
a_versus_b_splits = refl

split_heuristic-IsSplit_example :
    IsSplit same_case (trim_space a_versus_b) refl (split_heuristic same_case a_versus_b)
split_heuristic-IsSplit_example =
    split_heuristic-IsSplit same_case a_versus_b refl
      (refl, (refl, (refl, (refl, (refl, (refl, tt))))))

-- U+023A, of two bytes, has the lower case U+2C65, of three.
abbrev longer_case : List ℕ → List ℕ
longer_case [] = []
longer_case (c ∷ s) =
    let rest = longer_case s in
    if nat_eq c 200 then 226 ∷ rest else if nat_eq c 186 then 177 ∷ 165 ∷ rest else c ∷ rest

-- Six of them, " and ", and "x"
abbrev six_letters : List ℕ
six_letters =
    200 ∷ 186 ∷ 200 ∷ 186 ∷ 200 ∷ 186 ∷ 200 ∷ 186 ∷ 200 ∷ 186 ∷ 200 ∷ 186 ∷ b' ' ∷ b'a' ∷ b'n'
    ∷ b'd' ∷ b' ' ∷ b'x' ∷ []

longer_case_panics : split_heuristic longer_case six_letters ≡ err slice_out_of_range
unfolding split_heuristic try_splitters split_case_insensitive split_loop split_byte index
    trim_space trim_right trim_left trim_from cut_first cut_prefix
longer_case_panics = refl
