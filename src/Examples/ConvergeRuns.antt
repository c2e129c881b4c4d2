-- ===== src/Examples/ConvergeRuns.antt =====
-- agent/workflow.go: a critic that approves the second answer.
use sibyl.Prelude.{
  ℕ, ◌≤◌, ◌≡◌, ◌⊎◌, refl, String, Bool, true, false, [], ◌∷◌, Result, ok, err, some, length,
  get_last?, nat_eq, ◌==◌,
}
use mathlib.Core.Option
use sibyl.Prelude.Int.{pos}
use sibyl.Converge.{
  Question, Verdict, Round, Answer, ResearchInput, CritiqueInput, ConvergeError,
  max_rounds_not_positive, empty_text, is_not_positive, bound, rounds_from, converge,
}
use sibyl.Converge.Trace.{IsHistory, converge-IsHistory}
use sibyl.Converge.Failure.{IsPositive, IsCallFailure, converge_outcome}

abbrev answers : ℕ → ResearchInput → Result String String
answers n i = ok "an answer"

abbrev second_time : ℕ → CritiqueInput → Result String (Verdict ℕ)
second_time n i = ok (record { approved = nat_eq n 2; confidence = 80; feedback = "more" })

abbrev asked : Question
asked = record { text = "why?"; max_rounds = pos 3 }

abbrev one_round : ℕ → Bool → Round ℕ
one_round n ok? = record {
  number = n;
  research = "an answer";
  verdict = record { approved = ok?; confidence = 80; feedback = "more" };
}

abbrev settled : Answer ℕ
settled = record {
  text = "an answer";
  rounds = 2;
  converged = true;
  history = one_round 1 false ∷ one_round 2 true ∷ [];
}

settles : converge answers second_time asked ≡ ok settled
unfolding converge rounds_from
settles = refl

converge-IsHistory_example :
    (is_not_positive asked.max_rounds ≡ false)
    × ((asked.text == "") ≡ false)
    × IsHistory answers second_time asked settled.converged 1 "" "" settled.history
    × (Option.map (λ (r : Round ℕ). r.research) (get_last? settled.history) ≡ some settled.text)
    × (settled.rounds ≡ length settled.history)
    × (settled.rounds ≤ bound asked.max_rounds)
    × (settled.converged ≡ false → settled.rounds ≡ bound asked.max_rounds)
converge-IsHistory_example = converge-IsHistory answers second_time asked settled settles

converge_outcome_example :
    (IsPositive asked.max_rounds → ⊥)
      × (converge answers second_time asked ≡ err max_rounds_not_positive)
    ⊎ IsPositive asked.max_rounds
      × ((asked.text == "") ≡ true)
      × (converge answers second_time asked ≡ err empty_text)
    ⊎ IsPositive asked.max_rounds
      × ((asked.text == "") ≡ false)
      × ((a : Answer ℕ) × (converge answers second_time asked ≡ ok a))
    ⊎ IsPositive asked.max_rounds
      × ((asked.text == "") ≡ false)
      × ((e : ConvergeError String) × (converge answers second_time asked ≡ err e)
          × IsCallFailure answers second_time asked e)
converge_outcome_example = converge_outcome answers second_time asked
