-- ===== src/ToolAgent/Runs.antt =====
-- What the loop of agent/tool_agent.go returns.
use sibyl.Prelude.{
  ℕ, zero, suc, ◌+◌, ◌≤◌, ◌≡◌, ◌⊎◌, refl, String, true, false, List, [], ◌∷◌, ◌++◌, Option, none,
  some, Result, ok-inj, err-ne-ok, ok, err, ◌==◌, length, length-append, All, All-append, arith,
  Bool-cases, inl, inr,
}
use mathlib.Core.Path.{subst}
use sibyl.Prelude.Int.{ℤ}
use sibyl.Prelude.Maps.{GoMap, get}
use sibyl.Prelude.Texts.{joined}
use sibyl.Converge.{is_not_positive, bound}
use sibyl.ToolAgent.{
  ToolAgentStep, ToolAgentOutput, ToolDecision, Tool, ToolAgentError, Turn, fails, answers, goes_on,
  not_registered, ran, used, decided, read, replied, after_turn, turn, steps_from, run_tool_agent,
}

module _ {G E : Type 0} (message : E → String) (quote : String → String)
    (tools : GoMap (Tool G E)) where
  -- The step of a tool that was run, or that is not registered.
  abbrev pub IsToolStep : ToolAgentStep G → Type 0
  IsToolStep s =
      (s.final ≡ "")
      × ((get tools s.tool_name ≡ none)
            × (s.tool_error ≡ true)
            × (s.tool_result ≡ not_registered quote tools s.tool_name)
          ⊎ ((run : Tool G E) × (args : G) × (get tools s.tool_name ≡ some run)
              × (s.tool_args ≡ some args)
              × ((run args ≡ ok s.tool_result) × (s.tool_error ≡ false)
                  ⊎ ((e : E) × (run args ≡ err e)
                      × (s.tool_error ≡ true)
                      × (s.tool_result ≡ joined "Error: " (message e))))))

  ran-IsToolStep :
      (d : ToolDecision G) (run : Tool G E) (r : Result E String)
      → get tools d.tool ≡ some run
      → run d.args ≡ r
      → IsToolStep (ran message quote tools d r)
  ran-IsToolStep d run (ok result) found done =
      (refl, inr (run, d.args, found, refl, inl (done, refl)))
  ran-IsToolStep d run (err e) found failed =
      (refl, inr (run, d.args, found, refl, inr (e, failed, refl, refl)))

  used-IsToolStep :
      (d : ToolDecision G) (o : Option (Tool G E))
      → get tools d.tool ≡ o
      → IsToolStep (used message quote tools d o)
  used-IsToolStep d none found = (refl, inl (found, refl, refl))
  used-IsToolStep d (some run) found = ran-IsToolStep d run (run d.args) found refl

  -- A turn that goes on has used a tool.
  abbrev IsTurn : Turn G E → Type 0
  IsTurn (goes_on s) = IsToolStep s
  IsTurn _ = Unit

  decided-IsTurn : (step : ℕ) (d : ToolDecision G) → IsTurn (decided message quote tools step d)
  decided-IsTurn step d = elim (Bool-cases (d.action == "final")) [
    | inl final ↦ rw final tt
    | inr not_final ↦ elim (Bool-cases (d.action == "tool")) [
      | inr other ↦ rw (not_final, other) tt
      | inl tool ↦ elim (Bool-cases (d.tool == "")) [
        | inl unnamed ↦ rw (not_final, tool, unnamed) tt
        | inr named ↦ rw (not_final, tool, named) (used-IsToolStep d (get tools d.tool) refl)
      ]
    ]
  ]

  read-IsTurn :
      (step : ℕ) (r : Result E (ToolDecision G)) → IsTurn (read message quote tools step r)
  read-IsTurn step (err e) = tt
  read-IsTurn step (ok d) = decided-IsTurn step d

  replied-IsTurn :
      (parse : String → Result E (ToolDecision G)) (step : ℕ) (r : Result E String)
      → IsTurn (replied message quote tools parse step r)
  replied-IsTurn parse step (err e) = tt
  replied-IsTurn parse step (ok raw) = read-IsTurn step (parse raw)

  module _ (complete : ℕ → String → List (ToolAgentStep G) → Result E String)
      (parse : String → Result E (ToolDecision G)) (task : String) where
    -- Tool steps, and then the step of the answer if there is one; a run without one used all steps.
    abbrev pub IsOutput : ℕ → ToolAgentOutput G → Type 0
    IsOutput most o =
        (o.converged ≡ true)
          × ((used : List (ToolAgentStep G)) × (s : ToolAgentStep G) × (o.steps ≡ used ++ s ∷ [])
              × All IsToolStep used
              × (s.final ≡ o.answer)
              × (length used + 1 ≤ most))
        ⊎ (o.converged ≡ false) × All IsToolStep o.steps × (length o.steps ≡ most)

    after_turn-IsOutput :
        (most : ℕ) (history : List (ToolAgentStep G)) (t : Turn G E)
        (later : List (ToolAgentStep G) → Result (ToolAgentError E) (ToolAgentOutput G))
        (o : ToolAgentOutput G)
        → All IsToolStep history
        → length history + 1 ≤ most
        → IsTurn t
        → ((s : ToolAgentStep G)
            → IsToolStep s
            → later (history ++ s ∷ []) ≡ ok o
            → IsOutput most o)
        → after_turn history later t ≡ ok o
        → IsOutput most o
    after_turn-IsOutput most history (fails e) later o p n q next h = err-ne-ok h
    after_turn-IsOutput most history (answers s) later o p n q next h =
        subst (IsOutput most) (ok-inj h) (inl (refl, (history, s, refl, p, refl, n)))
    after_turn-IsOutput most history (goes_on s) later o p n q next h = next s q h

    steps_from-IsOutput :
        (left step most : ℕ) (history : List (ToolAgentStep G)) (o : ToolAgentOutput G)
        → All IsToolStep history
        → length history + left ≡ most
        → steps_from message quote tools complete parse task left step history ≡ ok o
        → IsOutput most o
    unfolding steps_from
    steps_from-IsOutput zero step most history o p n h =
        subst (IsOutput most) (ok-inj h) (inr (refl, p, omega (arith, n)))
    steps_from-IsOutput (suc left) step most history o p n h =
        after_turn-IsOutput most history (turn message quote tools complete parse task step history)
          (λ longer. steps_from message quote tools complete parse task left (step + 1) longer) o p
          (omega (arith, n)) (replied-IsTurn parse step (complete step task history))
          (λ s q next.
            steps_from-IsOutput left (step + 1) most (history ++ s ∷ []) o
              (All-append IsToolStep history (s ∷ []) p (q, tt))
              (omega (arith, n, length-append history (s ∷ []))) next)
          h

    -- If the agent returns, its history is honest: every step is a tool that was run with the
    -- recorded arguments and result or error, or one that is not registered, and only the last step
    -- of a converged run is its answer. A run takes at most the allowed number of steps, and one
    -- that did not converge took exactly as many.
    pub run_tool_agent-IsOutput :
        (most : ℤ) (o : ToolAgentOutput G)
        → run_tool_agent message quote parse
            (some complete)
            (some tools)
            (record { task = task; max_steps = most })
          ≡ ok o
        → IsOutput (bound most) o
    unfolding run_tool_agent
    run_tool_agent-IsOutput most o h = elim (Bool-cases (task == "")) [
      | inl empty ↦ err-ne-ok (rw empty at h)
      | inr given ↦ elim (Bool-cases (is_not_positive most)) [
        | inl bad ↦ err-ne-ok (rw (given, bad) at h)
        | inr good ↦
            steps_from-IsOutput (bound most) 1 (bound most) [] o tt (omega arith)
              (rw (given, good) at h)
      ]
    ]
