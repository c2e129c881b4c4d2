-- ===== src/ToolAgent.antt =====
-- agent/tool_agent.go: the loop in which a model decides on a tool or the final answer; and Get, Names
-- and Register of agent/tools.go. `G` is Go's `map[string]any`. What the model is asked is its number
-- and the task with the history, from which the code renders the two prompts; `parse` is the
-- decoding of the reply, `names` what strings.Join makes of the names.
pub mod Runs
pub mod Prompts
use sibyl.Prelude.{
  ℕ, zero, suc, ◌+◌, String, Bool, true, false, List, [], ◌∷◌, ◌++◌, Option, none, some, Result, ok,
  err, ◌>>=◌, ◌>>◌, fail_if, map_err, if◌then◌else◌, ◌==◌, is_empty,
}
use sibyl.Prelude.Int.{ℤ}
use sibyl.Prelude.Maps.{GoMap, get, put, keys}
use sibyl.Prelude.Sorting.{sort}
use sibyl.Prelude.Texts.{joined, join}
use sibyl.Converge.{is_not_positive, bound}

pub record ToolAgentInput : Type 0 where
  pub task : String
  pub max_steps : ℤ

pub record ToolAgentStep (G : Type 0) : Type 0 where
  pub reasoning : String
  pub tool_name : String
  pub tool_args : Option G
  pub tool_result : String
  pub tool_error : Bool
  pub final : String

pub record ToolAgentOutput (G : Type 0) : Type 0 where
  pub answer : String
  pub steps : List (ToolAgentStep G)
  pub converged : Bool

pub record ToolDecision (G : Type 0) : Type 0 where
  pub action : String
  pub reasoning : String
  pub tool : String
  pub args : G
  pub answer : String

abbrev pub Tool : Type 0 → Type 0 → Type 0
Tool G E = G → Result E String

pub data ToolAgentError (E : Type 0) : Type 0 where
  complete_missing tools_missing task_empty max_steps_not_positive : ToolAgentError E
  call_failed malformed_decision : (step : ℕ) → E → ToolAgentError E
  no_tool_name : (step : ℕ) → ToolAgentError E
  unknown_action : (step : ℕ) (action : String) → ToolAgentError E

pub data RegistryError : Type 0 where
  empty_name already_registered : RegistryError

abbrev add_tool : {T : Type 0} → GoMap T → String → T → Option T → Result RegistryError (GoMap T)
add_tool tools name t none = ok (put tools name t)
add_tool tools name t (some known) = err already_registered

unfoldable pub register_tool : {T : Type 0} → GoMap T → String → T → Result RegistryError (GoMap T)
register_tool tools name t = do
  fail_if (name == "") empty_name
  add_tool tools name t (get tools name)

-- What one turn of the loop comes to.
pub data Turn (G E : Type 0) : Type 0 where
  fails : ToolAgentError E → Turn G E
  answers goes_on : ToolAgentStep G → Turn G E

abbrev pub final_step : {G : Type 0} → ToolDecision G → ToolAgentStep G
final_step d = record {
  reasoning = d.reasoning;
  tool_name = "";
  tool_args = none;
  tool_result = "";
  tool_error = false;
  final = d.answer;
}

abbrev pub tool_step : {G : Type 0} → ToolDecision G → Bool → String → ToolAgentStep G
tool_step d failed result = record {
  reasoning = d.reasoning;
  tool_name = d.tool;
  tool_args = some d.args;
  tool_result = result;
  tool_error = failed;
  final = "";
}

abbrev pub not_registered : {T : Type 0} → (String → String) → GoMap T → String → String
not_registered quote tools name = joined "Error: tool " (
    joined (quote name)
      (joined " is not registered. Available tools: " (joined (join ", " (sort (keys tools))) ".")))

abbrev pub after_turn :
    {G E : Type 0}
    → List (ToolAgentStep G)
    → (List (ToolAgentStep G) → Result (ToolAgentError E) (ToolAgentOutput G))
    → Turn G E
    → Result (ToolAgentError E) (ToolAgentOutput G)
after_turn history later (fails e) = err e
after_turn history later (answers s) =
    ok (record { answer = s.final; steps = history ++ s ∷ []; converged = true })
after_turn history later (goes_on s) = later (history ++ s ∷ [])

module _ {G E : Type 0} (message : E → String) (quote : String → String)
    (tools : GoMap (Tool G E)) where
  abbrev pub ran : ToolDecision G → Result E String → ToolAgentStep G
  ran d (ok result) = tool_step d false result
  ran d (err e) = tool_step d true (joined "Error: " (message e))

  abbrev pub used : ToolDecision G → Option (Tool G E) → ToolAgentStep G
  used d none = tool_step d true (not_registered quote tools d.tool)
  used d (some run) = ran d (run d.args)

  abbrev pub decided : ℕ → ToolDecision G → Turn G E
  decided step d =
      let with_tool =
        if d.tool == "" then fails (no_tool_name step) else goes_on (used d (get tools d.tool)) in
      if d.action == "final"
      then answers (final_step d)
      else if d.action == "tool"
      then with_tool
      else fails (unknown_action step d.action)

  abbrev pub read : ℕ → Result E (ToolDecision G) → Turn G E
  read step (err e) = fails (malformed_decision step e)
  read step (ok d) = decided step d

  abbrev pub replied : (String → Result E (ToolDecision G)) → ℕ → Result E String → Turn G E
  replied parse step (err e) = fails (call_failed step e)
  replied parse step (ok raw) = read step (parse raw)

  module _ (complete : ℕ → String → List (ToolAgentStep G) → Result E String)
      (parse : String → Result E (ToolDecision G)) (task : String) where
    abbrev pub turn : ℕ → List (ToolAgentStep G) → Turn G E
    turn step history = replied parse step (complete step task history)

    abbrev pub gave_up : List (ToolAgentStep G) → ToolAgentOutput G
    gave_up history = record {
      answer =
          if is_empty history
          then ""
          else "(agent did not converge within MaxSteps; partial history available in Steps)";
      steps = history;
      converged = false;
    }

    -- The loop with `left` steps left, before the step of this number.
    unfoldable pub steps_from :
        ℕ → ℕ → List (ToolAgentStep G) → Result (ToolAgentError E) (ToolAgentOutput G)
    steps_from zero step history = ok (gave_up history)
    steps_from (suc left) step history =
        after_turn history (λ longer. steps_from left (step + 1) longer) (turn step history)

module _ {G E : Type 0} (message : E → String) (quote : String → String)
    (parse : String → Result E (ToolDecision G)) where
  -- `RunToolAgent`; a nil function or registry is `none`.
  unfoldable pub run_tool_agent :
      Option (ℕ → String → List (ToolAgentStep G) → Result E String)
      → Option (GoMap (Tool G E))
      → ToolAgentInput
      → Result (ToolAgentError E) (ToolAgentOutput G)
  run_tool_agent none tools i = err complete_missing
  run_tool_agent (some complete) none i = err tools_missing
  run_tool_agent (some complete) (some tools) i = do
    fail_if (i.task == "") task_empty
    fail_if (is_not_positive i.max_steps) max_steps_not_positive
    steps_from message quote tools complete parse i.task (bound i.max_steps) 1 []
