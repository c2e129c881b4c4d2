-- ===== src/Converge/Failure.antt =====
-- How the convergence loop of agent/workflow.go fails.
use sibyl.Prelude.{
  ℕ, zero, suc, ◌+◌, ◌≡◌, ◌⊎◌, refl, sym, ap, ◌∙◌, true≢false, String, Bool, true, false, List, [],
  ◌∷◌, ◌++◌, Result, Result-cases, ok, err, if◌then◌else◌, ◌==◌, get_last?-append_one, arith, inl,
  inr, Bool-cases,
}
use sibyl.Prelude.Int.{ℤ, pos, negsuc}
use sibyl.Converge.{
  Question, Verdict, Round, Answer, ResearchInput, CritiqueInput, ConvergeError, research_failed,
  critique_failed, max_rounds_not_positive, empty_text, is_not_positive, rounds_from, converge,
}
use sibyl.Converge.Trace.{positive_bound}

abbrev pub IsPositive : ℤ → Type 0
IsPositive m = (n : ℕ) × (m ≡ pos (suc n))

pub is_not_positive-IsPositive : (m : ℤ) → is_not_positive m ≡ false → IsPositive m
is_not_positive-IsPositive (pos zero) h = absurd (cc)
is_not_positive-IsPositive (pos (suc n)) h = (n, refl)
is_not_positive-IsPositive (negsuc n) h = absurd (cc)

pub is_not_positive-refuses : (m : ℤ) → is_not_positive m ≡ true → IsPositive m → ⊥
is_not_positive-refuses m h (n, e) = true≢false (sym h ∙ ap is_not_positive e)

module _ {C E : Type 0} (research : ℕ → ResearchInput → Result E String)
    (critique : ℕ → CritiqueInput → Result E (Verdict C)) (q : Question) where
  -- The call of this round failed with this error, on some input about the question.
  abbrev pub IsCallFailure : ConvergeError E → Type 0
  IsCallFailure (research_failed number e) =
      (i : ResearchInput) × (i.question ≡ q.text) × (research number i ≡ err e)
  IsCallFailure (critique_failed number e) =
      (i : CritiqueInput) × (i.question ≡ q.text) × (i.round ≡ number) × (critique number i ≡ err e)
  IsCallFailure _ = ⊥

  abbrev IsExplained : Result (ConvergeError E) (Answer C) → Type 0
  IsExplained (ok a) = Unit
  IsExplained (err e) = IsCallFailure e

  give_up-IsExplained :
      (number : ℕ) (previous feedback : String) (history : List (Round C)) (r : Round C)
      → IsExplained (rounds_from research critique q 0 number previous feedback (history ++ r ∷ []))
  unfolding rounds_from
  give_up-IsExplained number previous feedback history r = rw (get_last?-append_one history r) tt

  IsExplained-if :
      (b : Bool) (x y : Result (ConvergeError E) (Answer C))
      → IsExplained x
      → IsExplained y
      → IsExplained (if b then x else y)
  IsExplained-if true x y p p' = p
  IsExplained-if false x y p p' = p'

  -- One round, if the rest of the loop is explained after whatever it added.
  round-IsExplained :
      (left number : ℕ) (previous feedback : String) (history : List (Round C))
      → ((r : Round C)
          → IsExplained (
              rounds_from research critique q left
                (number + 1)
                r.research
                r.verdict.feedback
                (history ++ r ∷ [])))
      → IsExplained (rounds_from research critique q (suc left) number previous feedback history)
  unfolding rounds_from
  round-IsExplained left number previous feedback history later =
      let asked : ResearchInput = record {
        question = q.text;
        previous_answer = previous;
        critic_feedback = feedback;
      } in
      elim (Result-cases (research number asked)) [
        | inl (e, failed) ↦ rw failed (asked, refl, failed)
        | inr (candidate, done) ↦
            let shown : CritiqueInput = record {
              question = q.text;
              answer = candidate;
              round = number;
            } in
            elim (Result-cases (critique number shown)) [
              | inl (e, failed) ↦ rw (done, failed) (shown, refl, refl, failed)
              | inr (verdict, judged) ↦
                  rw (done, judged)
                    (IsExplained-if verdict.approved _ _ tt
                      (later (record { number = number; research = candidate; verdict = verdict })))
            ]
      ]

  rounds_from-IsExplained :
      (left number : ℕ) (previous feedback : String) (history : List (Round C))
      → IsExplained (rounds_from research critique q (suc left) number previous feedback history)
  rounds_from-IsExplained zero number previous feedback history =
      round-IsExplained zero number previous feedback history
        (λ r. give_up-IsExplained (number + 1) r.research r.verdict.feedback history r)
  rounds_from-IsExplained (suc left) number previous feedback history =
      round-IsExplained (suc left) number previous feedback history (λ r.
        rounds_from-IsExplained left (number + 1) r.research r.verdict.feedback (history ++ r ∷ []))

  -- The workflow refuses a bound that is not positive, then a question that is empty. With a
  -- positive bound and a question that is not empty it returns an answer or the error of a call about
  -- the question, with the number of its round; it never looks for the last round of an empty history.
  pub converge_outcome :
      (IsPositive q.max_rounds → ⊥) × (converge research critique q ≡ err max_rounds_not_positive)
      ⊎ IsPositive q.max_rounds
        × ((q.text == "") ≡ true)
        × (converge research critique q ≡ err empty_text)
      ⊎ IsPositive q.max_rounds
        × ((q.text == "") ≡ false)
        × ((a : Answer C) × (converge research critique q ≡ ok a))
      ⊎ IsPositive q.max_rounds
        × ((q.text == "") ≡ false)
        × ((e : ConvergeError E) × (converge research critique q ≡ err e) × IsCallFailure e)
  unfolding converge
  converge_outcome = elim (Bool-cases (is_not_positive q.max_rounds)) [
    | inl bad ↦ inl (is_not_positive-refuses q.max_rounds bad, ground arith)
    | inr good ↦ elim (Bool-cases (q.text == "")) [
      | inl empty ↦ inr (inl (is_not_positive-IsPositive q.max_rounds good, empty, ground arith))
      | inr some_text ↦
          let (left, b) = positive_bound q.max_rounds good in
          let explained = rounds_from-IsExplained left 1 "" "" [] in
          elim (Result-cases (rounds_from research critique q (suc left) 1 "" "" [])) [
            | inl (e, failed) ↦ inr (
                inr (
                  inr (
                    is_not_positive-IsPositive q.max_rounds good,
                    some_text,
                    (e, rw (good, some_text, b, failed), rw failed at explained),
                  )))
            | inr (a, done) ↦ inr (
                inr (
                  inl (
                    is_not_positive-IsPositive q.max_rounds good,
                    some_text,
                    (a, rw (good, some_text, b, done)),
                  )))
          ]
    ]
  ]
