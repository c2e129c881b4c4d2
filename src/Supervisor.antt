-- ===== src/Supervisor.antt =====
-- agent/supervisor.go and the data of agent/decompose.go: a question is split, a convergence loop is
-- run for each part, and the answers are put together. The activities and the child workflows are
-- parameters: what they return, after Temporal's retries, is a function of their input, for a child
-- with its workflow ID.
pub mod Gathering
pub mod Outcome
pub mod Synthesis
pub mod Split
pub mod Parts
pub mod Merging
use sibyl.Prelude.{
  ℕ, zero, suc, ◌+◌, String, Bool, true, false, not, List, [], ◌∷◌, ◌++◌, Option, none, some,
  Result, ok, err, ◌>>=◌, ◌>>◌, fail_if, map_err, if◌then◌else◌, ◌==◌, nat_eq, leb, length, take,
}
use sibyl.Prelude.Int.{ℤ, pos, negsuc, is_zero}
use sibyl.Prelude.Texts.{joined, decimal}
use sibyl.Converge.{Question, Answer, is_not_positive}

pub record SubQuestion : Type 0 where
  pub index : ℕ
  pub text : String

pub record SubAnswer : Type 0 where
  pub sub_question : SubQuestion
  pub answer : String
  pub converged : Bool
  pub rounds : ℕ
  pub error : String

pub record SupervisorInput : Type 0 where
  pub question : String
  pub max_rounds_per_child : ℤ
  pub max_sub_questions : ℤ

pub record SupervisorOutput : Type 0 where
  pub synthesis : String
  pub sub_answers : List SubAnswer
  pub success_count : ℕ
  pub failure_count : ℕ

pub record DecomposeInput : Type 0 where
  pub question : String
  pub max_sub_questions : ℤ

-- `applyMaxSubQuestions`
unfoldable pub apply_max_sub_questions : List SubQuestion → ℤ → List SubQuestion
apply_max_sub_questions qs (pos zero) = qs
apply_max_sub_questions qs (pos (suc n)) = if leb (length qs) (suc n) then qs else take (suc n) qs
apply_max_sub_questions qs (negsuc n) = qs

-- `decomposeArrow`, after its split.
unfoldable pub number_parts : ℕ → List String → List SubQuestion
number_parts i [] = []
number_parts i (p ∷ ps) = record { index = i; text = p } ∷ number_parts (i + 1) ps

-- The activity `Decompose`; `split` is `splitHeuristic` on questions that it does not fail on.
unfoldable pub decompose : (String → List String) → DecomposeInput → List SubQuestion
decompose split i = apply_max_sub_questions (number_parts 0 (split i.question)) i.max_sub_questions

-- `index_out_of_range` stands for the panic of `subAnswers[0]` on no answers.
pub data SupervisorError (E : Type 0) : Type 0 where
  empty_question rounds_not_positive index_out_of_range : SupervisorError E
  decompose_failed synthesis_failed : E → SupervisorError E
  all_children_failed :
      (sub_answers : List SubAnswer) (failure_count : ℕ) (first : String) → SupervisorError E

-- What the loop that waits for the children has collected.
pub record Gathered : Type 0 where
  pub sub_answers : List SubAnswer
  pub successes : ℕ
  pub failures : ℕ

abbrev pub nothing_gathered : Gathered
nothing_gathered = record { sub_answers = []; successes = 0; failures = 0 }

abbrev pub child_id : String → SubQuestion → String
child_id parent sq = joined parent (joined "-sub-" (decimal sq.index))

abbrev pub child_question : ℤ → SubQuestion → Question
child_question max_rounds sq = record { text = sq.text; max_rounds = max_rounds }

abbrev pub failed_answer : {E : Type 0} → (E → String) → SubQuestion → E → SubAnswer
failed_answer message sq e = record {
  sub_question = sq;
  answer = "";
  converged = false;
  rounds = 0;
  error = message e;
}

abbrev pub good_answer : {C : Type 0} → SubQuestion → Answer C → SubAnswer
good_answer sq a = record {
  sub_question = sq;
  answer = a.text;
  converged = a.converged;
  rounds = a.rounds;
  error = "";
}

module _ {E : Type 0} (message : E → String) where
  -- One future that was awaited.
  abbrev pub gather_one : {C : Type 0} → SubQuestion → Result E (Answer C) → Gathered → Gathered
  gather_one sq (err e) g = record {
    sub_answers = g.sub_answers ++ failed_answer message sq e ∷ [];
    successes = g.successes;
    failures = g.failures + 1;
  }
  gather_one sq (ok a) g = record {
    sub_answers = g.sub_answers ++ good_answer sq a ∷ [];
    successes = g.successes + 1;
    failures = g.failures;
  }

  module _ {C : Type 0} (child : String → Question → Result E (Answer C)) where
    unfoldable pub gather : String → ℤ → List SubQuestion → Gathered → Gathered
    gather parent max_rounds [] g = g
    gather parent max_rounds (sq ∷ sqs) g =
        gather parent max_rounds sqs
          (gather_one sq (child (child_id parent sq) (child_question max_rounds sq)) g)

-- `fmt.Errorf("all %d children failed; first error: %s", failureCount, subAnswers[0].Error)`
abbrev pub all_failed :
    {E : Type 0} → Gathered → List SubAnswer → Result (SupervisorError E) SupervisorOutput
all_failed g [] = err index_out_of_range
all_failed g (first ∷ rest) = err (all_children_failed g.sub_answers g.failures first.error)

abbrev pub max_subs_of : SupervisorInput → ℤ
max_subs_of i = if is_zero i.max_sub_questions then pos 5 else i.max_sub_questions

module _ {E : Type 0} (synthesize : List SubAnswer → Result E String) where
  abbrev pub conclude : Gathered → Result (SupervisorError E) SupervisorOutput
  conclude g = do
    synthesis ← map_err synthesis_failed (synthesize g.sub_answers)
    ok (record {
      synthesis = synthesis;
      sub_answers = g.sub_answers;
      success_count = g.successes;
      failure_count = g.failures;
    })

  abbrev pub after_gathering : Gathered → Result (SupervisorError E) SupervisorOutput
  after_gathering g = if nat_eq g.successes 0 then all_failed g g.sub_answers else conclude g

module _ {C E : Type 0} (message : E → String) (child : String → Question → Result E (Answer C))
    (decompose_activity : DecomposeInput → Result E (List SubQuestion))
    (synthesize : List SubAnswer → Result E String) where
  unfoldable pub supervise : String → SupervisorInput → Result (SupervisorError E) SupervisorOutput
  supervise parent i = do
    fail_if (i.question == "") empty_question
    fail_if (is_not_positive i.max_rounds_per_child) rounds_not_positive
    sub_questions ←
        map_err decompose_failed
          (decompose_activity (record { question = i.question; max_sub_questions = max_subs_of i }))
    after_gathering synthesize
        (gather message child parent i.max_rounds_per_child sub_questions nothing_gathered)
