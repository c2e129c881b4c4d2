-- ===== src/Channels/Verdicts.antt =====
-- What `Dispatcher.Await` of channels/channels.go returns when it races several channels.
use sibyl.Prelude.{
  ℕ, ◌+◌, ◌≤◌, ◌≡◌, ◌⊎◌, ◌∙◌, refl, ap, eq_iff, true, List, [], ◌∷◌, Option, none, some, ok, err,
  length, arith, All, Bool-cases, inl, inr, ◌==◌, if◌then◌else◌, nat_eq,
}
use sibyl.Prelude.Texts.{joined}
use sibyl.Channels.Types.{Verdict, timed_out, all_waiters_failed, Dispatcher}
use sibyl.Channels.Setup.{passthrough_resolver}
use sibyl.Channels.Race.{Arrival, count_timeout, first_verdict, normalize}

abbrev pub IsTimeout : {A E : Type 0} → Arrival A E → Type 0
IsTimeout (err timed_out) = Unit
IsTimeout _ = ⊥

abbrev timeouts_of : {A E : Type 0} → List (Arrival A E) → ℕ
timeouts_of [] = 0
timeouts_of (ok v ∷ rest) = timeouts_of rest
timeouts_of (err e ∷ rest) = count_timeout e + timeouts_of rest

-- The first arrival that has a choice, if there is one.
abbrev pub first_choice : {A E : Type 0} → List (Arrival A E) → Option (Verdict A)
first_choice [] = none
first_choice (ok v ∷ rest) =
    let later = first_choice rest in if v.choice == "" then later else some v
first_choice (err e ∷ rest) = first_choice rest

module _ {A E : Type 0} (d : Dispatcher A E) where
  first_verdict-choice :
      (expected timeouts : ℕ) (arrivals : List (Arrival A E))
      → ((v : Verdict A) × (first_choice arrivals ≡ some v)
          × (first_verdict d expected timeouts arrivals ≡ ok (normalize d.resolver v)))
        ⊎ (first_choice arrivals ≡ none)
          × (first_verdict d expected timeouts arrivals ≡ (
              if nat_eq (timeouts + timeouts_of arrivals) expected
              then err timed_out
              else err all_waiters_failed))
  unfolding first_verdict
  first_verdict-choice expected timeouts [] = inr (refl, ground arith)
  first_verdict-choice expected timeouts (ok v ∷ rest) = elim (Bool-cases (v.choice == "")) [
    | inl empty ↦ rw empty (first_verdict-choice expected timeouts rest)
    | inr chosen ↦ inl (v, rw chosen refl, rw chosen refl)
  ]
  first_verdict-choice expected timeouts (err e ∷ rest) =
      elim (first_verdict-choice expected (timeouts + count_timeout e) rest) [
        | inl later ↦ inl later
        | inr (nothing, end) ↦ inr (
          nothing,
          end
              ∙ ap (λ n. if nat_eq n expected then err timed_out else err all_waiters_failed)
                  (omega arith),
        )
      ]

  timeouts_of-le : (arrivals : List (Arrival A E)) → timeouts_of arrivals ≤ length arrivals
  timeouts_of-le [] = omega arith
  timeouts_of-le (ok v ∷ rest) = omega (arith, timeouts_of-le rest)
  timeouts_of-le (err timed_out ∷ rest) = omega (arith, timeouts_of-le rest)
  timeouts_of-le (err _ ∷ rest) = omega (arith, timeouts_of-le rest)

  timeouts_of-All :
      (arrivals : List (Arrival A E))
      → timeouts_of arrivals ≡ length arrivals
      → All IsTimeout arrivals
  timeouts_of-All [] e = tt
  timeouts_of-All (ok v ∷ rest) e = absurd (omega (arith, timeouts_of-le rest))
  timeouts_of-All (err timed_out ∷ rest) e = (tt, timeouts_of-All rest (omega arith))
  timeouts_of-All (err _ ∷ rest) e = absurd (omega (arith, timeouts_of-le rest))

  All-timeouts_of :
      (arrivals : List (Arrival A E))
      → All IsTimeout arrivals
      → timeouts_of arrivals ≡ length arrivals
  All-timeouts_of [] h = refl
  All-timeouts_of (ok v ∷ rest) h = absurd h.0
  All-timeouts_of (err timed_out ∷ rest) h = omega (arith, All-timeouts_of rest h.1)
  All-timeouts_of (err _ ∷ rest) h = absurd h.0

  -- The race over all waiters: the first arrival with a choice wins, and its verdict is returned
  -- with the actor resolved. If none has a choice, the wait ends with a timeout where all waiters
  -- timed out, and otherwise with the error that all failed, so also where one timed out and another
  -- brought an empty choice or an error. Without a waiter it times out at once.
  pub first_verdict_lem :
      (arrivals : List (Arrival A E))
      → ((v : Verdict A) × (first_choice arrivals ≡ some v)
          × (first_verdict d (length arrivals) 0 arrivals ≡ ok (normalize d.resolver v)))
        ⊎ (first_choice arrivals ≡ none)
          × All IsTimeout arrivals
          × (first_verdict d (length arrivals) 0 arrivals ≡ err timed_out)
        ⊎ (first_choice arrivals ≡ none)
          × (All IsTimeout arrivals → ⊥)
          × (first_verdict d (length arrivals) 0 arrivals ≡ err all_waiters_failed)
  first_verdict_lem arrivals = elim (first_verdict-choice (length arrivals) 0 arrivals) [
    | inl won ↦ inl won
    | inr (nothing, end) ↦ elim (Bool-cases (nat_eq (timeouts_of arrivals) (length arrivals))) [
      | inl all_late ↦ inr (
          inl (
            nothing,
            timeouts_of-All arrivals (ground (arith, all_late)),
            end ∙ ground (arith, all_late),
          ))
      | inr some_not ↦ inr (
          inr (
            nothing,
            (λ late. ground (arith, All-timeouts_of arrivals late, some_not)),
            end ∙ ground (arith, some_not),
          ))
    ]
  ]

-- The default resolver is given the canonical name, which is empty wherever it is asked, and never
-- the user ID of the channel: with it every actor of a channel gets the same name.
pub normalize-passthrough :
    {A : Type 0} (E : Type 0) (v : Verdict A)
    → (v.actor.canonical == "") ≡ true
    → (normalize (passthrough_resolver {E = E}) v).actor.canonical ≡ joined v.channel ":"
unfolding normalize passthrough_resolver
normalize-passthrough E v empty =
    rw empty (ap (λ c. joined v.channel (joined ":" c)) ((eq_iff v.actor.canonical "").0 empty))
