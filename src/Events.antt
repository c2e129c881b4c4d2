-- ===== src/Events.antt =====
-- agent/events.go: the events, and agent/broker.go: the Emitter. `A` is Go's `any`; times are numbers
-- of nanoseconds and durations of milliseconds.
use sibyl.Prelude.{ℕ, String, Bool, Option, none, some, if◌then◌else◌, ◌==◌, nat_eq}
use sibyl.Prelude.Int.{ℤ}
use sibyl.Prelude.Maps.{GoMap}
use sibyl.Broker.{MemoryBroker, begin_publish}

-- `eventBase`; a time of 0 is Go's zero time.
pub record EventBase : Type 0 where
  pub workflow_id : String
  pub time : ℕ

-- One constructor for each type of event, with its fields.
pub data Payload (A : Type 0) : Type 0 where
  workflow_started : (workflow_type : String) (input : A) → Payload A
  workflow_completed : (output : A) (duration_ms : ℕ) → Payload A
  workflow_failed : (error : String) (duration_ms : ℕ) → Payload A
  node_started : (node_id label : String) → Payload A
  node_completed : (node_id label : String) (output : A) (duration_ms : ℕ) → Payload A
  node_failed : (node_id label error : String) (duration_ms : ℕ) → Payload A
  activity_started : (activity_name node_id : String) → Payload A
  activity_completed : (activity_name node_id error : String) (duration_ms : ℕ) → Payload A
  token_chunk : (call_id : String) (index : ℤ) (text : String) (final : Bool) → Payload A
  tool_called : (tool_name : String) (args : GoMap A) (step : ℕ) → Payload A
  tool_completed :
      (tool_name : String) (step : ℕ) (result error : String) (duration_ms : ℕ) → Payload A
  token_usage : (call_id : String) (input_tokens output_tokens : ℤ) → Payload A

pub record Event (A : Type 0) : Type 0 where
  pub base : EventBase
  pub payload : Payload A

abbrev pub kind : {A : Type 0} → Payload A → String
kind (workflow_started t i) = "workflow.started"
kind (workflow_completed o d) = "workflow.completed"
kind (workflow_failed e d) = "workflow.failed"
kind (node_started n l) = "node.started"
kind (node_completed n l o d) = "node.completed"
kind (node_failed n l e d) = "node.failed"
kind (activity_started a n) = "activity.started"
kind (activity_completed a n e d) = "activity.completed"
kind (token_chunk c i t l) = "llm.token"
kind (tool_called t a s) = "tool.called"
kind (tool_completed t s r e d) = "tool.completed"
kind (token_usage c i o) = "llm.usage"

abbrev pub workflow_of : {A : Type 0} → Event A → String
workflow_of e = e.base.workflow_id

abbrev pub timestamp : {A : Type 0} → ℕ → Event A → ℕ
timestamp now e = if nat_eq e.base.time 0 then now else e.base.time

-- The text of an error, where there is one.
abbrev pub error_text : {E : Type 0} → (E → String) → Option E → String
error_text message none = ""
error_text message (some e) = message e

abbrev pub with_workflow_id : {A : Type 0} → Event A → String → Event A
with_workflow_id e workflow = record e {
  base = record { workflow_id = workflow; time = e.base.time };
}

-- A nil broker is `none`.
pub record Emitter (A : Type 0) : Type 0 where
  pub broker : Option (MemoryBroker (Event A))
  pub workflow_id : String

abbrev pub stamped : {A : Type 0} → String → Event A → Event A
stamped workflow e = if workflow_of e == "" then with_workflow_id e workflow else e

-- The sends that `Publish` owes are part of the broker.
abbrev pub emit_to :
    {A : Type 0}
    → String
    → Event A
    → Option (MemoryBroker (Event A))
    → Option (MemoryBroker (Event A))
emit_to workflow e none = none
emit_to workflow e (some broker) = some (begin_publish workflow_of (stamped workflow e) broker)

unfoldable pub emit : {A : Type 0} → Emitter A → Event A → Emitter A
emit emitter e = record emitter { broker = emit_to emitter.workflow_id e emitter.broker }

-- The emitter of a context; else one on the broker of the process, if there is one. A value of the
-- context that is missing or nil is `none`.
abbrev on_global : {A : Type 0} → Option (MemoryBroker (Event A)) → Option String → Emitter A
on_global none workflow = record { broker = none; workflow_id = "" }
on_global (some broker) none = record { broker = some broker; workflow_id = "" }
on_global (some broker) (some workflow) = record { broker = some broker; workflow_id = workflow }

unfoldable pub emitter_from_context :
    {A : Type 0} → Option (Emitter A) → Option (MemoryBroker (Event A)) → Option String → Emitter A
emitter_from_context (some emitter) global workflow = emitter
emitter_from_context none global workflow = on_global global workflow

-- The workflow of an activity is that of Temporal's information about it, where it runs in one.
abbrev pub emitter_for_activity :
    {A : Type 0} → Option (Emitter A) → Option (MemoryBroker (Event A)) → Option String → Emitter A
emitter_for_activity = emitter_from_context
