-- ===== src/Converge/Trace.antt =====
-- What the convergence loop of agent/workflow.go returns, told from the calls that it made.
use sibyl.Prelude.{
  ℕ, zero, suc, ◌+◌, ◌≤◌, ◌≡◌, ◌⊎◌, refl, ap, ◌∙◌, String, Bool, true, false, List, [], ◌∷◌, ◌++◌,
  some, Result, Result-cases, ok, ◌==◌, get_last?, get_last?-append_one, arith, length, inl, inr,
}
use mathlib.Core.Option
use mathlib.Core.List.{append_assoc}
use sibyl.Prelude.Int.{ℤ, pos, negsuc}
use sibyl.Converge.{
  Question, Verdict, Round, Answer, ResearchInput, CritiqueInput, bound, is_not_positive,
  rounds_from, converge,
}

pub positive_bound : (m : ℤ) → is_not_positive m ≡ false → (left : ℕ) × (bound m ≡ suc left)
positive_bound (pos zero) h = absurd (cc)
positive_bound (pos (suc n)) h = (n, refl)
positive_bound (negsuc n) h = absurd (cc)

module _ {C E : Type 0} (research : ℕ → ResearchInput → Result E String)
    (critique : ℕ → CritiqueInput → Result E (Verdict C)) (q : Question) where
  -- The researcher was given this answer and this feedback, and the critic what the researcher
  -- returned.
  pub record IsRound (number : ℕ) (previous feedback : String) (r : Round C) : Type 0 where
    pub numbered : r.number ≡ number
    pub researched :
        research number
          (record { question = q.text; previous_answer = previous; critic_feedback = feedback })
        ≡ ok r.research
    pub judged :
        critique number (record { question = q.text; answer = r.research; round = number })
        ≡ ok r.verdict

  -- Rounds from this number on: each starts from the answer and the feedback of the one before,
  -- all but the last are refused, and the last is approved exactly if `converged`.
  abbrev pub IsHistory : Bool → ℕ → String → String → List (Round C) → Type 0
  IsHistory converged number previous feedback [] = ⊥
  IsHistory converged number previous feedback (r ∷ []) =
      IsRound number previous feedback r × (r.verdict.approved ≡ converged)
  IsHistory converged number previous feedback (r ∷ r' ∷ rs) =
      IsRound number previous feedback r
      × (r.verdict.approved ≡ false)
      × IsHistory converged (number + 1) r.research r.verdict.feedback (r' ∷ rs)

  -- The answer that the loop gives from here, after the rounds of `history`.
  record Continues (left number : ℕ) (previous feedback : String) (history : List (Round C))
      (a : Answer C) : Type 0 where
    more : List (Round C)
    extends : a.history ≡ history ++ more
    is_history : IsHistory a.converged number previous feedback more
    last_text : Option.map (λ (r : Round C). r.research) (get_last? more) ≡ some a.text
    within : length more ≤ left
    stopped :
        (a.converged ≡ true) × (a.rounds + 1 ≡ number + length more)
        ⊎ (a.converged ≡ false) × (length more ≡ left) × (a.rounds ≡ bound q.max_rounds)

  abbrev answer_now : String → ℕ → List (Round C) → Answer C
  answer_now text rounds history = record {
    text = text;
    rounds = rounds;
    converged = true;
    history = history;
  }

  -- A round of the loop that did not fail.
  round_eq_ok :
      (left number : ℕ) (previous feedback : String) (history : List (Round C)) (a : Answer C)
      → rounds_from research critique q (suc left) number previous feedback history ≡ ok a
      → (r : Round C) × IsRound number previous feedback r
        × ((r.verdict.approved ≡ true) × (a ≡ answer_now r.research number (history ++ r ∷ []))
            ⊎ (r.verdict.approved ≡ false)
              × (rounds_from research critique q left
                    (number + 1)
                    r.research
                    r.verdict.feedback
                    (history ++ r ∷ [])
                  ≡ ok a))
  unfolding rounds_from
  round_eq_ok left number previous feedback history a h =
      elim (Result-cases (
        research number
          (record { question = q.text; previous_answer = previous; critic_feedback = feedback }))) [
            | inl (e, failed) ↦ absurd (ground arith)
            | inr (candidate, researched) ↦
                elim (Result-cases (
                  critique number
                    (record { question = q.text; answer = candidate; round = number }))) [
                      | inl (e, failed) ↦ absurd (ground arith)
                      | inr (verdict, judged) ↦ (
                        record { number = number; research = candidate; verdict = verdict },
                        record { numbered = refl; researched = researched; judged = judged },
                        ground arith,
                      )
                    ]
          ]

  give_up_eq_ok :
      (number : ℕ) (previous feedback : String) (history : List (Round C)) (r : Round C)
      (a : Answer C)
      → rounds_from research critique q 0 number previous feedback (history ++ r ∷ []) ≡ ok a
      → a ≡ record {
        text = r.research;
        rounds = bound q.max_rounds;
        converged = false;
        history = history ++ r ∷ [];
      }
  unfolding rounds_from
  give_up_eq_ok number previous feedback history r a h =
      ground (arith, get_last?-append_one history r)

  IsHistory-cons :
      (converged : Bool) (number : ℕ) (previous feedback : String) (r : Round C)
      (more : List (Round C))
      → IsRound number previous feedback r
      → r.verdict.approved ≡ false
      → IsHistory converged (number + 1) r.research r.verdict.feedback more
      → IsHistory converged number previous feedback (r ∷ more)
        × (get_last? (r ∷ more) ≡ get_last? more)
  IsHistory-cons converged number previous feedback r [] d n h = absurd h
  IsHistory-cons converged number previous feedback r (r' ∷ more) d n h = ((d, n, h), refl)

  Continues-approved :
      (left number : ℕ) (previous feedback : String) (history : List (Round C)) (r : Round C)
      → IsRound number previous feedback r
      → r.verdict.approved ≡ true
      → Continues
          (suc left)
          number
          previous
          feedback
          history
          (answer_now r.research number (history ++ r ∷ []))
  Continues-approved left number previous feedback history r d y = record {
    more = r ∷ [];
    extends = refl;
    is_history = (d, y);
    last_text = refl;
    within = omega arith;
    stopped = inl (refl, refl);
  }

  rounds_from-Continues :
      (left number : ℕ) (previous feedback : String) (history : List (Round C)) (a : Answer C)
      → rounds_from research critique q (suc left) number previous feedback history ≡ ok a
      → Continues (suc left) number previous feedback history a
  rounds_from-Continues zero number previous feedback history a h =
      let (r, d, ends) = round_eq_ok zero number previous feedback history a h in
      elim ends [
        | inl (y, e) ↦ rw e (Continues-approved zero number previous feedback history r d y)
        | inr (n, rest) ↦
            rw (give_up_eq_ok (number + 1) r.research r.verdict.feedback history r a rest) (record {
              more = r ∷ [];
              extends = refl;
              is_history = (d, n);
              last_text = refl;
              within = omega arith;
              stopped = inr (refl, refl, refl);
            })
      ]
  rounds_from-Continues (suc left) number previous feedback history a h =
      let (r, d, ends) = round_eq_ok (suc left) number previous feedback history a h in
      elim ends [
        | inl (y, e) ↦ rw e (Continues-approved (suc left) number previous feedback history r d y)
        | inr (n, rest) ↦
            let c =
              rounds_from-Continues left (number + 1) r.research r.verdict.feedback
                (history ++ r ∷ []) a rest in
            let (hist, last) =
              IsHistory-cons a.converged number previous feedback r c.more d n c.is_history in
            record {
              more = r ∷ c.more;
              extends = c.extends ∙ append_assoc history (r ∷ []) c.more;
              is_history = hist;
              last_text = rw last c.last_text;
              within = omega (arith, c.within);
              stopped = ground (arith, c.stopped);
            }
      ]

  -- The workflow returns an answer only for a positive bound and a question that is not empty. Its
  -- history then starts at round 1 from empty texts, each round was given the last answer and
  -- feedback, every round but the last was refused, and the answer is the text of the last round:
  -- an approved one if it converged, in as many rounds as the history has; else a refused one, after
  -- exactly the bound.
  pub converge-IsHistory :
      (a : Answer C)
      → converge research critique q ≡ ok a
      → (is_not_positive q.max_rounds ≡ false)
        × ((q.text == "") ≡ false)
        × IsHistory a.converged 1 "" "" a.history
        × (Option.map (λ (r : Round C). r.research) (get_last? a.history) ≡ some a.text)
        × (a.rounds ≡ length a.history)
        × (a.rounds ≤ bound q.max_rounds)
        × (a.converged ≡ false → a.rounds ≡ bound q.max_rounds)
  unfolding converge
  converge-IsHistory a h =
      let positive : is_not_positive q.max_rounds ≡ false = ground arith in
      let (left, e) = positive_bound q.max_rounds positive in
      let ran : rounds_from research critique q (bound q.max_rounds) 1 "" "" [] ≡ ok a =
        ground arith in
      let c = rounds_from-Continues left 1 "" "" [] a (rw e at ran) in
      (
        positive,
        ground arith,
        rw c.extends c.is_history,
        rw c.extends c.last_text,
        ground (arith, c.stopped, ap length c.extends),
        ground (arith, c.stopped, c.within),
        ground (arith, c.stopped),
      )
