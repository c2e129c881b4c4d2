-- ===== src/ApiServer.antt =====
-- cmd/api-server/main.go: the handlers of POST /run and GET /events. Temporal, encoding/json, uuid and
-- the parsing of a query are parameters, `F` their errors; `A` is Go's `any`.
pub mod Streamed
pub mod Started
use sibyl.Prelude.{
  ℕ, String, Bool, true, false, not, List, [], ◌∷◌, ◌++◌, Option, none, some, Result, ok, err,
  if◌then◌else◌, ◌==◌,
}
use sibyl.Prelude.Int.{pos}
use sibyl.Prelude.Texts.{joined}
use sibyl.Broker.{MemoryBroker, begin_publish, subscribe}
use sibyl.Events.{
  Event, Payload, kind, workflow_of, workflow_started, workflow_completed, workflow_failed,
  node_started, node_completed, node_failed, activity_started, activity_completed, token_chunk,
  tool_called, tool_completed, token_usage,
}
use sibyl.Review.{PrReviewInput}

-- Answers of POST /run; `running` has the JSON of a runResponse.
pub data RunResponse (F : Type 0) : Type 0 where
  post_only : RunResponse F
  bad_json start_failed : F → RunResponse F
  running : (workflow_id : String) → RunResponse F

pub record Ran (A F : Type 0) : Type 0 where
  pub response : RunResponse F
  pub broker : MemoryBroker (Event A)

abbrev pub default_diff : String
default_diff = "Refactor PR #4218: switches our cache from in-memory to SQLite."

abbrev pub diff_or_default : String → String
diff_or_default diff = if diff == "" then default_diff else diff

abbrev pub review_input : String → PrReviewInput
review_input diff = record { diff = diff; streaming_backend = true }

-- `request` is the diff as a value of the type runRequest.
abbrev pub started_event : {A : Type 0} → (String → A) → ℕ → String → String → Event A
started_event request now id diff = record {
  base = record { workflow_id = id; time = now };
  payload = workflow_started "PRReviewWorkflow" (request diff);
}

module _ {A F : Type 0} (execute : String → PrReviewInput → Option F) (request : String → A)
    (now : ℕ) (uuid : String) where
  abbrev pub workflow_id : String
  workflow_id = joined "sibyl-pr-review-" uuid

  abbrev pub answered : String → Option F → MemoryBroker (Event A) → Ran A F
  answered diff (some e) b = record { response = start_failed e; broker = b }
  answered diff none b = record {
    response = running workflow_id;
    broker = begin_publish workflow_of (started_event request now workflow_id diff) b;
  }

  abbrev pub run_decoded : Result F String → MemoryBroker (Event A) → Ran A F
  run_decoded (err e) b = record { response = bad_json e; broker = b }
  run_decoded (ok diff) b =
      answered (diff_or_default diff) (execute workflow_id (review_input (diff_or_default diff))) b

  -- `uuid` is the first eight characters; the body is given as it is decoded.
  unfoldable pub handle_run : String → Result F String → MemoryBroker (Event A) → Ran A F
  handle_run method body b =
      if method == "POST" then run_decoded body b else record { response = post_only; broker = b }

-- What the select of the loop finds, in the order in which it happens.
pub data Turn (Ev : Type 0) : Type 0 where
  request_done : Turn Ev
  heartbeat : Turn Ev
  received : Ev → Turn Ev
  channel_closed : Turn Ev

-- Why the loop has returned; `waiting` where nothing else has happened yet.
pub data Ending : Type 0 where
  disconnected closed finished waiting : Ending

pub record Stream : Type 0 where
  pub written : List String
  pub ending : Ending

abbrev pub is_terminal : {A : Type 0} → Payload A → Bool
is_terminal (workflow_completed o d) = true
is_terminal (workflow_failed e d) = true
is_terminal (workflow_started t i) = false
is_terminal (node_started n l) = false
is_terminal (node_completed n l o d) = false
is_terminal (node_failed n l e d) = false
is_terminal (activity_started a n) = false
is_terminal (activity_completed a n e d) = false
is_terminal (token_chunk c i t l) = false
is_terminal (tool_called t a s) = false
is_terminal (tool_completed t s r e d) = false
is_terminal (token_usage c i o) = false

abbrev pub comment_frame : String → String
comment_frame text = joined ": " (joined text "\n\n")

abbrev pub event_frame : String → String → String
event_frame name payload =
    joined "event: " (joined name (joined "\ndata: " (joined payload "\n\n")))

abbrev pub stopped : Ending → Stream
stopped why = record { written = []; ending = why }

abbrev pub writing : String → Stream → Stream
writing text rest = record { written = text ∷ rest.written; ending = rest.ending }

-- Answers of GET /events.
pub data EventsResponse : Type 0 where
  workflow_id_required streaming_unsupported : EventsResponse
  streamed : Stream → EventsResponse

-- A marshalled event is none where encoding/json fails, and skipped.
module _ {A : Type 0} (marshal : Event A → Option String) where
  abbrev pub forwarded : Event A → Option String → Stream → Stream
  forwarded e none rest = rest
  forwarded e (some payload) rest =
      writing (event_frame (kind e.payload) payload)
        (if is_terminal e.payload then stopped finished else rest)

  abbrev pub stream_from : List (Turn (Event A)) → Stream
  stream_from [] = stopped waiting
  stream_from (request_done ∷ turns) = stopped disconnected
  stream_from (channel_closed ∷ turns) = stopped closed
  stream_from (heartbeat ∷ turns) = writing (comment_frame "heartbeat") (stream_from turns)
  stream_from (received e ∷ turns) = forwarded e (marshal e) (stream_from turns)

  unfoldable pub handle_events : String → Bool → List (Turn (Event A)) → EventsResponse
  handle_events workflow is_flusher turns =
      if workflow == ""
      then workflow_id_required
      else if is_flusher
      then streamed (writing (comment_frame (joined "connected to " workflow)) (stream_from turns))
      else streaming_unsupported

-- The subscription that the handler takes before the loop, with a buffer of 256.
abbrev pub subscribed : {A : Type 0} → String → MemoryBroker (Event A) → MemoryBroker (Event A)
subscribed workflow b = subscribe workflow (pos 256) b
