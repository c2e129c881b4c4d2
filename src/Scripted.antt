-- ===== src/Scripted.antt =====
-- agent/llm.go: ScriptedLLM, the completion source for tests and offline runs.
use sibyl.Prelude.{
  ℕ, suc, String, Bool, List, [], ◌∷◌, ◌++◌, Option, none, some, Result, ok, err, if◌then◌else◌,
  length, get_elem?, is_empty, leb,
}

pub record ScriptedCall : Type 0 where
  pub system_prompt : String
  pub user_message : String

pub record ScriptedLlm : Type 0 where
  pub responses : List String
  pub cycle : Bool
  pub calls : List ScriptedCall
  pub idx : ℕ

-- `out_of_range` is the panic of a slice, which no call gets.
pub data ScriptedError : Type 0 where
  no_responses out_of_range : ScriptedError
  exhausted_after : ℕ → ScriptedError

pub record Answered : Type 0 where
  pub result : Result ScriptedError String
  pub llm : ScriptedLlm

abbrev response_or_panic : Option String → Result ScriptedError String
response_or_panic none = err out_of_range
response_or_panic (some r) = ok r

abbrev pub recorded : String → String → ScriptedLlm → ScriptedLlm
recorded system user s = record s {
  calls = s.calls ++ record { system_prompt = system; user_message = user } ∷ [];
}

-- The response at the index, which goes on.
abbrev pub respond : ScriptedLlm → Answered
respond s = record {
  result = response_or_panic (get_elem? s.responses s.idx);
  llm = record s { idx = suc s.idx };
}

abbrev pub answer_with : ScriptedLlm → Answered
answer_with s =
    if is_empty s.responses
    then record { result = err no_responses; llm = s }
    else if leb (length s.responses) s.idx
    then (if s.cycle
        then respond (record s { idx = 0 })
        else record { result = err (exhausted_after s.idx); llm = s })
    else respond s

unfoldable pub scripted_complete : String → String → ScriptedLlm → Answered
scripted_complete system user s = answer_with (recorded system user s)

abbrev pub call_count : ScriptedLlm → ℕ
call_count s = length s.calls

abbrev pub new_scripted : List String → Bool → ScriptedLlm
new_scripted responses cycle = record { responses = responses; cycle = cycle; calls = []; idx = 0 }
