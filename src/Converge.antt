-- ===== src/Converge.antt =====
-- agent/types.go and agent/workflow.go: the researcher and the critic take turns until the critic
-- approves. What an activity returns, after Temporal's retries, is a function of the round and its
-- input. Confidences (float64) are only passed on here, so their type is a parameter.
pub mod Trace
pub mod Failure
pub mod Activities
use sibyl.Prelude.{
  ℕ, zero, suc, ◌+◌, String, Bool, true, false, List, [], ◌∷◌, ◌++◌, Option, none, some, Result, ok,
  err, ◌>>=◌, ◌>>◌, fail_if, map_err, if◌then◌else◌, ◌==◌, get_last?,
}
use sibyl.Prelude.Int.{ℤ, pos, negsuc}

pub record Question : Type 0 where
  pub text : String
  pub max_rounds : ℤ

pub record Verdict (C : Type 0) : Type 0 where
  pub approved : Bool
  pub confidence : C
  pub feedback : String

pub record Round (C : Type 0) : Type 0 where
  pub number : ℕ
  pub research : String
  pub verdict : Verdict C

pub record Answer (C : Type 0) : Type 0 where
  pub text : String
  pub rounds : ℕ
  pub converged : Bool
  pub history : List (Round C)

pub record ResearchInput : Type 0 where
  pub question : String
  pub previous_answer : String
  pub critic_feedback : String

pub record CritiqueInput : Type 0 where
  pub question : String
  pub answer : String
  pub round : ℕ

-- `no_history` stands for the panic of the code if the history were empty at the end.
pub data ConvergeError (E : Type 0) : Type 0 where
  max_rounds_not_positive empty_text no_history : ConvergeError E
  research_failed : (round : ℕ) → E → ConvergeError E
  critique_failed : (round : ℕ) → E → ConvergeError E

-- MaxRounds, which is 0 for the rounds of the loop if it is not positive.
abbrev pub bound : ℤ → ℕ
bound (pos n) = n
bound (negsuc n) = 0

abbrev pub is_not_positive : ℤ → Bool
is_not_positive (pos zero) = true
is_not_positive (pos (suc n)) = false
is_not_positive (negsuc n) = true

module _ {C E : Type 0} (research : ℕ → ResearchInput → Result E String)
    (critique : ℕ → CritiqueInput → Result E (Verdict C)) where
  -- After the loop: `answer.History[len(answer.History)-1]`.
  abbrev give_up : ℕ → List (Round C) → Option (Round C) → Result (ConvergeError E) (Answer C)
  give_up max history none = err no_history
  give_up max history (some last) =
      ok (record { text = last.research; rounds = max; converged = false; history = history })

  -- The loop, by recursion on the rounds left.
  unfoldable pub rounds_from :
      Question → ℕ → ℕ → String → String → List (Round C) → Result (ConvergeError E) (Answer C)
  rounds_from q zero round previous feedback history =
      give_up (bound q.max_rounds) history (get_last? history)
  rounds_from q (suc left) round previous feedback history = do
    candidate ← map_err (research_failed round) (
        research round
          (record { question = q.text; previous_answer = previous; critic_feedback = feedback }))
    verdict ←
        map_err (critique_failed round)
          (critique round (record { question = q.text; answer = candidate; round = round }))
    let history' =
        history ++ record { number = round; research = candidate; verdict = verdict } ∷ []
    let next = rounds_from q left (round + 1) candidate verdict.feedback history'
    let answer : Answer C = record {
      text = candidate;
      rounds = round;
      converged = true;
      history = history';
    }
    (if verdict.approved then ok answer else next)

  unfoldable pub converge : Question → Result (ConvergeError E) (Answer C)
  converge q = do
    fail_if (is_not_positive q.max_rounds) max_rounds_not_positive
    fail_if (q.text == "") empty_text
    rounds_from q (bound q.max_rounds) 1 "" "" []
