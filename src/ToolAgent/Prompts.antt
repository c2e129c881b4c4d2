-- ===== src/ToolAgent/Prompts.antt =====
-- agent/tool_agent.go and agent/tools.go: the two prompts of the tool agent, and sortStrings. The JSON
-- of the arguments of a tool is a parameter.
use sibyl.Prelude.{
  ℕ, suc, ◌+◌, ◌≡◌, refl, ◌∙◌, String, Bool, List, [], ◌∷◌, Option, none, some, if◌then◌else◌, ◌==◌,
  is_empty, arith, count,
}
use mathlib.Core.List.{reverse, reverse_aux}
use sibyl.Prelude.Maps.{GoMap, get, keys}
use sibyl.Prelude.Sorting.{str_le}
use sibyl.Prelude.Texts.{joined, decimal}
use sibyl.ToolAgent.{ToolAgentStep}

pub record ToolArg : Type 0 where
  pub name : String
  pub kind : String
  pub description : String
  pub is_required : Bool

-- What a tool says of itself.
pub record Described : Type 0 where
  pub description : String
  pub args_schema : List ToolArg

-- The inner loop: an element goes down the sorted part, which is given from its end.
unfoldable pub sink : String → List String → List String
sink x [] = x ∷ []
sink x (y ∷ sorted) = let lower = sink x sorted in if str_le y x then x ∷ y ∷ sorted else y ∷ lower

unfoldable pub sort_from : List String → List String → List String
sort_from sorted [] = reverse sorted
sort_from sorted (x ∷ rest) = sort_from (sink x sorted) rest

abbrev pub sort_strings : List String → List String
sort_strings names = sort_from [] names

abbrev pub argument_line : ToolArg → String
argument_line a = joined "    - " (
    joined a.name (
      joined " [" (
        joined a.kind (
          joined "]" (
            joined (if a.is_required then " (required)" else "")
              (joined " — " (joined a.description "\n")))))))

unfoldable pub argument_lines : List ToolArg → String
argument_lines [] = ""
argument_lines (a ∷ args) = joined (argument_line a) (argument_lines args)

abbrev pub arguments : List ToolArg → String
arguments [] = "  Arguments: none.\n"
arguments (a ∷ args) = joined "  Arguments:\n" (argument_lines (a ∷ args))

-- The entry of a name, which the registry has.
abbrev pub tool_entry : String → Option Described → String
tool_entry name none = ""
tool_entry name (some t) =
    joined "- **"
      (joined name (joined "**: " (joined t.description (joined "\n" (arguments t.args_schema)))))

unfoldable pub tool_entries : GoMap Described → List String → String
tool_entries tools [] = ""
tool_entries tools (name ∷ names) =
    joined (tool_entry name (get tools name)) (tool_entries tools names)

abbrev pub describe_for_prompt : GoMap Described → String
describe_for_prompt tools =
    if is_empty tools
    then "No tools available."
    else joined "Available tools:\n\n" (tool_entries tools (sort_strings (keys tools)))

abbrev pub preamble : String
preamble =
    "You are an agent that solves tasks by calling tools when useful and emitting a final answer when ready.\n\nYou communicate via a strict JSON protocol. On every turn, respond with a single JSON object and NOTHING ELSE:\n\nTo call a tool:\n{\"action\": \"tool\", \"reasoning\": \"<why this tool now>\", \"tool\": \"<tool_name>\", \"args\": {<key>: <value>, ...}}\n\nTo give the final answer:\n{\"action\": \"final\", \"reasoning\": \"<brief>\", \"answer\": \"<your final answer>\"}\n\nRules:\n- Always emit valid JSON. Do not wrap in code fences or include any text outside the JSON object.\n- \"tool\" must be the exact name of a registered tool. \"args\" must match its argument schema.\n- Prefer calling a tool when the task requires current information, computation, or files.\n- Stop calling tools and emit \"final\" as soon as you have enough information.\n- If a tool call fails, you'll see the error in the next turn. Decide whether to retry, try a different tool, or give up and answer with what you have.\n\n"

abbrev pub build_tool_agent_system_prompt : GoMap Described → String
build_tool_agent_system_prompt tools = joined preamble (joined "\n" (describe_for_prompt tools))

abbrev line_unless_empty : String → String → String
line_unless_empty title text = if text == "" then "" else joined title (joined text "\n")

module _ {G : Type 0} (args_json : Option G → String) where
  abbrev pub tool_lines : ToolAgentStep G → String
  tool_lines s =
      if s.tool_name == ""
      then ""
      else joined "Called tool: " (
          joined s.tool_name (
            joined " with args: " (
              joined (args_json s.tool_args) (
                joined "\n" (
                  joined (if s.tool_error then "Result (ERROR): " else "Result: ")
                    (joined s.tool_result "\n"))))))

  abbrev pub step_lines : ℕ → ToolAgentStep G → String
  step_lines n s = joined "\n--- Step " (
      joined (decimal n) (
        joined " ---\n" (
          joined (line_unless_empty "Reasoning: " s.reasoning)
            (joined (tool_lines s) (line_unless_empty "Final answer: " s.final)))))

  unfoldable pub history_lines : ℕ → List (ToolAgentStep G) → String
  history_lines n [] = ""
  history_lines n (s ∷ history) = joined (step_lines n s) (history_lines (suc n) history)

  abbrev pub build_tool_agent_user_message : String → List (ToolAgentStep G) → String
  build_tool_agent_user_message task [] = joined "Task: " (joined task "\n")
  build_tool_agent_user_message task (s ∷ history) = joined "Task: " (
      joined task (
        joined "\n" (
          joined "\nHistory so far:\n"
            (joined (history_lines 1 (s ∷ history)) "\nDecide the next action."))))

count-sink : (k x : String) (sorted : List String) → count k (sink x sorted) ≡ count k (x ∷ sorted)
unfolding sink
count-sink k x [] = refl
count-sink k x (y ∷ sorted) = ground (arith, count-sink k x sorted)

count-reverse_aux :
    (k : String) (xs ys : List String) → count k (reverse_aux xs ys) ≡ count k xs + count k ys
count-reverse_aux k [] ys = omega arith
count-reverse_aux k (x ∷ xs) ys = ground (arith, count-reverse_aux k xs (x ∷ ys))

count-sort_from :
    (k : String) (sorted rest : List String)
    → count k (sort_from sorted rest) ≡ count k sorted + count k rest
unfolding sort_from
count-sort_from k sorted [] = count-reverse_aux k sorted []
count-sort_from k sorted (x ∷ rest) =
    ground (arith, count-sort_from k (sink x sorted) rest, count-sink k x sorted)

-- The loops of sortStrings keep every name, as often as it was there.
pub count-sort_strings :
    (k : String) (names : List String) → count k (sort_strings names) ≡ count k names
count-sort_strings k names = count-sort_from k [] names ∙ omega arith
