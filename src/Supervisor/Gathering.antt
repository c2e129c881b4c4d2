-- ===== src/Supervisor/Gathering.antt =====
-- The loop of agent/supervisor.go that waits for the children.
use sibyl.Prelude.{
  ℕ, false, ◌+◌, ◌≡◌, sym, ◌∙◌, String, List, [], ◌∷◌, ◌++◌, map, Result, Result-cases, ok, err,
  arith, length, inl, inr,
}
use mathlib.Core.List.{append_assoc, append-nil}
use sibyl.Prelude.Int.{ℤ}
use sibyl.Prelude.Texts.{joined, decimal}
use sibyl.Converge.{Question, Answer}
use sibyl.Supervisor.{
  SubQuestion, SubAnswer, Gathered, child_id, child_question, failed_answer, good_answer,
  gather_one, gather,
}

module _ {C E : Type 0} (message : E → String) (child : String → Question → Result E (Answer C))
    (parent : String) (max_rounds : ℤ) where
  -- The answer of one part, told from its child workflow.
  abbrev outcome_of : SubQuestion → Result E (Answer C) → SubAnswer
  outcome_of sq (err e) = record {
    sub_question = sq;
    answer = "";
    converged = false;
    rounds = 0;
    error = message e;
  }
  outcome_of sq (ok a) = record {
    sub_question = sq;
    answer = a.text;
    converged = a.converged;
    rounds = a.rounds;
    error = "";
  }

  -- The child workflow of one part, with an ID that is made of the parent's and the number of the part.
  abbrev answered : SubQuestion → Result E (Answer C)
  answered sq =
      child (joined parent (joined "-sub-" (decimal sq.index)))
        (record { text = sq.text; max_rounds = max_rounds })

  abbrev pub answer_of : SubQuestion → SubAnswer
  answer_of sq = outcome_of sq (answered sq)

  abbrev pub succeeded : Result E (Answer C) → ℕ
  succeeded (err e) = 0
  succeeded (ok a) = 1

  -- How many children returned an answer.
  abbrev pub successes_of : List SubQuestion → ℕ
  successes_of [] = 0
  successes_of (sq ∷ sqs) = succeeded (answered sq) + successes_of sqs

  pub gather-sub_answers :
      (sqs : List SubQuestion) (g : Gathered)
      → (gather message child parent max_rounds sqs g).sub_answers
        ≡ g.sub_answers ++ map answer_of sqs
  unfolding gather
  gather-sub_answers [] g = sym (append-nil g.sub_answers)
  gather-sub_answers (sq ∷ sqs) g =
      let r = child (child_id parent sq) (child_question max_rounds sq) in
      gather-sub_answers sqs (gather_one message sq r g) ∙ elim (Result-cases r) [
        | inl (e, failed) ↦
            rw failed
              (append_assoc g.sub_answers (failed_answer message sq e ∷ []) (map answer_of sqs))
        | inr (a, done) ↦
            rw done (append_assoc g.sub_answers (good_answer sq a ∷ []) (map answer_of sqs))
      ]

  pub gather-successes :
      (sqs : List SubQuestion) (g : Gathered)
      → (gather message child parent max_rounds sqs g).successes ≡ g.successes + successes_of sqs
  unfolding gather
  gather-successes [] g = omega arith
  gather-successes (sq ∷ sqs) g = ground (
    arith,
    gather-successes sqs
        (gather_one message sq (child (child_id parent sq) (child_question max_rounds sq)) g),
  )

  pub gather-total :
      (sqs : List SubQuestion) (g : Gathered)
      → (gather message child parent max_rounds sqs g).successes
          + (gather message child parent max_rounds sqs g).failures
        ≡ g.successes + g.failures + length sqs
  unfolding gather
  gather-total [] g = omega arith
  gather-total (sq ∷ sqs) g = ground (
    arith,
    gather-total sqs
        (gather_one message sq (child (child_id parent sq) (child_question max_rounds sq)) g),
  )
