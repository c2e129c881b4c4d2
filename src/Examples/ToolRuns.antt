-- ===== src/Examples/ToolRuns.antt =====
-- agent/tool_agent.go: one call of a tool, and the answer.
use sibyl.Prelude.{
  ℕ, refl, String, true, false, [], ◌∷◌, List, some, none, Result, ok, if◌then◌else◌, nat_eq,
}
use sibyl.Prelude.Int.{pos}
use sibyl.Prelude.Maps.{GoMap, get}
use sibyl.Converge.{bound}
use sibyl.ToolAgent.{ToolAgentStep, ToolAgentOutput, ToolDecision, Tool, run_tool_agent, steps_from}
use sibyl.ToolAgent.Runs.{IsOutput, run_tool_agent-IsOutput}

abbrev said : String → String
said e = e

abbrev echo_tool : Tool String String
echo_tool args = ok args

abbrev registry : GoMap (Tool String String)
registry = ("echo", echo_tool) ∷ []

abbrev tool_then_final : ℕ → String → List (ToolAgentStep String) → Result String String
tool_then_final step task history = if nat_eq step 1 then ok "tool" else ok "final"

abbrev as_decision : String → Result String (ToolDecision String)
as_decision raw =
    ok (record { action = raw; reasoning = ""; tool = "echo"; args = "hi"; answer = "done" })

abbrev two_steps : ToolAgentOutput String
two_steps = record {
  answer = "done";
  steps =
      record {
        reasoning = "";
        tool_name = "echo";
        tool_args = some "hi";
        tool_result = "hi";
        tool_error = false;
        final = "";
      }
      ∷ record {
        reasoning = "";
        tool_name = "";
        tool_args = none;
        tool_result = "";
        tool_error = false;
        final = "done";
      }
      ∷ [];
  converged = true;
}

run_tool_agent-IsOutput_example :
    IsOutput said said registry tool_then_final as_decision "say hi" (bound (pos 4)) two_steps
unfolding run_tool_agent steps_from get
run_tool_agent-IsOutput_example =
    run_tool_agent-IsOutput said said registry tool_then_final as_decision "say hi" (pos 4)
      two_steps refl
