-- ===== src/Agents/Asking.antt =====
-- What a human verdict can do to the output of an agent, for agents/verdict.go.
use sibyl.Prelude.{
  ◌≡◌, ◌⊎◌, refl, sym, eq_iff, String, Result, true, false, List, [], ◌∷◌, ◌++◌, Option, none, some,
  ok, err, ◌>>=◌, is_empty, Option-cases, Bool-cases, inl, inr, ◌==◌,
}
use sibyl.Channels.Types.{Verdict, ChannelError, timed_out, PostResult}
use mathlib.Core.Path.{subst}
use sibyl.Agents.{Returned, AgentContext, Arrow, Behavior, compose}
use sibyl.Agents.Verdict.{
  Desk, no_verdict, with_reference, judged, asked, with_human_verdict, AlwaysAskPolicy, always_ask,
  always_ask_on_verdict,
}

module _ {A E F R : Type 0} (hitl_await : ChannelError E → F) (snoozed : F) (desk : Desk A E)
    (p : AlwaysAskPolicy F R) (ctx : AgentContext) where
  abbrev passed : R → Returned F R
  passed output = record { value = output; error = none }

  -- What a verdict with that choice makes of the output.
  abbrev IsDecided : R → String → Returned F R → Type 0
  IsDecided output choice r =
      ((choice == "reject") ≡ true) × (r ≡ passed p.zero_value)
      ⊎ ((choice == "snooze") ≡ true) × (r ≡ record { value = output; error = some snoozed })
      ⊎ ((choice == "reject") ≡ false) × ((choice == "snooze") ≡ false) × (r ≡ passed output)

  -- What the wait for a verdict makes of the output.
  abbrev IsJudged : R → Result (ChannelError E) (Verdict A) → Returned F R → Type 0
  IsJudged output (ok v) r = IsDecided output v.choice r
  IsJudged output (err timed_out) r = r ≡ passed output
  IsJudged output (err e) r = r ≡ record { value = output; error = some (hitl_await e) }

  -- What posting the output makes of it: a wait is for the receipts, where there are any.
  abbrev IsAsked : R → Result (ChannelError E) (PostResult E) → Returned F R → Type 0
  IsAsked output (err e) r = r ≡ passed output
  IsAsked output (ok sent) r =
      (is_empty sent.receipts ≡ true) × (r ≡ passed output)
      ⊎ (is_empty sent.receipts ≡ false)
        × IsJudged output
            (desk.await sent.receipts ((always_ask p {A = A} snoozed).await_opts ctx output)) r

  -- What a review makes of the output.
  abbrev pub IsBackedUp : R → Returned F R → Type 0
  IsBackedUp output =
      IsAsked output
        (desk.notify (with_reference ctx ((always_ask p {A = A} snoozed).render ctx output)))

  accepted-IsDecided :
      (output : R) (choice : String)
      → (choice == "accept") ≡ true
      → IsDecided output choice (passed output)
  accepted-IsDecided output choice accepted =
      subst (λ c. IsDecided output c (passed output)) (sym ((eq_iff choice "accept").0 accepted))
        (inr (inr (refl, refl, refl)))

  no_verdict-passes :
      (output : R)
      → p.on_timeout ≡ none
      → always_ask_on_verdict snoozed p {A = A} ctx output no_verdict ≡ passed output
  unfolding always_ask_on_verdict
  no_verdict-passes output t = rw t refl

  verdict-IsDecided :
      (output : R) (v : Verdict A)
      → p.on_reject ≡ none
      → p.on_snooze ≡ none
      → p.on_timeout ≡ none
      → IsDecided output v.choice (always_ask_on_verdict snoozed p ctx output v)
  unfolding always_ask_on_verdict
  verdict-IsDecided output v nr ns nt = elim (Bool-cases (v.choice == "accept")) [
    | inl accepted ↦ rw accepted (accepted-IsDecided output v.choice accepted)
    | inr not_accept ↦ elim (Bool-cases (v.choice == "reject")) [
      | inl rejected ↦ rw (not_accept, rejected, nr) (inl (refl, refl))
      | inr not_reject ↦ elim (Bool-cases (v.choice == "snooze")) [
        | inl later ↦ rw (not_accept, not_reject, later, ns) (inr (inl (refl, refl)))
        | inr not_snooze ↦
            rw (not_accept, not_reject, not_snooze, nt) (inr (inr (refl, refl, refl)))
      ]
    ]
  ]

  judged-IsJudged :
      (output : R) (answered : Result (ChannelError E) (Verdict A))
      → p.on_reject ≡ none
      → p.on_snooze ≡ none
      → p.on_timeout ≡ none
      → IsJudged output answered (judged hitl_await desk (always_ask p snoozed) ctx output answered)
  judged-IsJudged output (ok v) nr ns nt = verdict-IsDecided output v nr ns nt
  judged-IsJudged output (err timed_out) nr ns nt = no_verdict-passes output nt
  judged-IsJudged output (err _) nr ns nt = refl

  asked-IsAsked :
      (output : R) (posted : Result (ChannelError E) (PostResult E))
      → p.on_reject ≡ none
      → p.on_snooze ≡ none
      → p.on_timeout ≡ none
      → IsAsked output posted (asked hitl_await desk (always_ask p snoozed) ctx output posted)
  asked-IsAsked output (err e) nr ns nt = no_verdict-passes output nt
  asked-IsAsked output (ok sent) nr ns nt = elim (Bool-cases (is_empty sent.receipts)) [
    | inl none_sent ↦ rw none_sent (inl (refl, no_verdict-passes output nt))
    | inr some_sent ↦ rw some_sent (inr (refl, judged-IsJudged output _ nr ns nt))
  ]

  -- Under AlwaysAskPolicy with its default hooks: the error of the agent is passed on with its value.
  -- An output without an error is posted, and returned unchanged where the post fails or leaves no
  -- receipt, and where the wait for the receipts times out. A wait that fails otherwise adds its
  -- error. A verdict that is a reject returns the zero value, one that is a snooze adds the error of
  -- the snooze, and any other lets the output pass unchanged.
  pub with_human_verdict_lem :
      {Q : Type 0} (inner : Arrow F Q R) (req : Q)
      → p.on_reject ≡ none
      → p.on_snooze ≡ none
      → p.on_timeout ≡ none
      → ((e : F) × ((inner ctx req).error ≡ some e)
          × (with_human_verdict hitl_await desk (always_ask p {A = A} snoozed) inner ctx req
              ≡ inner ctx req))
        ⊎ ((inner ctx req).error ≡ none)
          × IsBackedUp
              (inner ctx req).value
              (with_human_verdict hitl_await desk (always_ask p {A = A} snoozed) inner ctx req)
  unfolding with_human_verdict
  with_human_verdict_lem inner req nr ns nt =
      let output = (inner ctx req).value in
      let policy = always_ask p {A = A} snoozed in
      elim (Option-cases (inner ctx req).error) [
        | inl fine ↦ inr (
          fine,
          rw fine (
              asked-IsAsked output (desk.notify (with_reference ctx (policy.render ctx output))) nr
                ns nt),
        )
        | inr (e, failed) ↦ inl (e, failed, rw failed refl)
      ]

-- Behaviours compose in their order: the last one of the list is the outermost.
pub compose-append_one :
    {F Q R : Type 0} (run : Arrow F Q R) (bs : List (Option (Behavior F Q R))) (b : Behavior F Q R)
    → compose run (bs ++ some b ∷ []) ≡ (compose run bs >>= λ inner. ok (b inner))
unfolding compose
compose-append_one run [] b = refl
compose-append_one run (none ∷ bs) b = refl
compose-append_one run (some c ∷ bs) b = compose-append_one (c run) bs b
