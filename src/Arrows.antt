-- ===== src/Arrows.antt =====
-- agent/convergence_arrows.go: the two workflows as functions, from a workflow as a child and from
-- outside through a client. `E` are Temporal's errors.
use sibyl.Prelude.{String, Option, none, some, Result, err, ◌>>=◌, ◌>>◌, fail_if, map_err, ◌==◌}
use sibyl.Converge.{Question, Answer}
use sibyl.Supervisor.{SupervisorInput, SupervisorOutput}

pub data ArrowError (E : Type 0) : Type 0 where
  client_is_nil task_queue_empty : ArrowError E
  start_failed workflow_failed child_failed : E → ArrowError E

-- Starting a workflow gives a handle `W`, from which the result is got. A nil client is `none`.
pub record WorkflowClient (E W I O : Type 0) : Type 0 where
  pub execute : String → I → Result E W
  pub result : W → Result E O

module _ {E W I O : Type 0} where
  abbrev pub started : I → String → WorkflowClient E W I O → Result (ArrowError E) O
  started input task_queue client = do
    fail_if (task_queue == "") task_queue_empty
    run ← map_err start_failed (client.execute task_queue input)
    map_err workflow_failed (client.result run)

  abbrev pub client_arrow : Option (WorkflowClient E W I O) → String → I → Result (ArrowError E) O
  client_arrow none task_queue input = err client_is_nil
  client_arrow (some client) task_queue input = started input task_queue client

abbrev pub converge_arrow :
    {C E W : Type 0}
    → Option (WorkflowClient E W Question (Answer C))
    → String
    → Question
    → Result (ArrowError E) (Answer C)
converge_arrow = client_arrow

abbrev pub supervisor_arrow :
    {E W : Type 0}
    → Option (WorkflowClient E W SupervisorInput SupervisorOutput)
    → String
    → SupervisorInput
    → Result (ArrowError E) SupervisorOutput
supervisor_arrow = client_arrow

-- The child is a function of its input that gives what it returns.
abbrev pub child_converge_arrow :
    {C E : Type 0} → (Question → Result E (Answer C)) → Question → Result (ArrowError E) (Answer C)
child_converge_arrow child q = map_err child_failed (child q)

abbrev pub child_supervisor_arrow :
    {E : Type 0}
    → (SupervisorInput → Result E SupervisorOutput)
    → SupervisorInput
    → Result (ArrowError E) SupervisorOutput
child_supervisor_arrow child i = map_err child_failed (child i)
