-- ===== src/Examples/ServerRuns.antt =====
-- cmd/api-server/main.go and agent/anthropic_stream.go: one stream of events, and one streamed answer.
use sibyl.Prelude.{
  ℕ, ◌≡◌, refl, String, true, false, List, [], ◌∷◌, map, Option, none, some, if◌then◌else◌,
}
use sibyl.Prelude.Bytes.{same_bytes}
use sibyl.Events.{Event, node_started, workflow_completed}
use sibyl.Streaming.{Streamed, collect_stream}
use sibyl.ApiServer.{heartbeat, received, request_done, streamed, finished, handle_events}
use sibyl.ApiServer.Streamed.{handle_events-append}
use sibyl.Anthropic.{AnthropicError}
use sibyl.Anthropic.Chunks.{StreamEvent, chunks_from}
use sibyl.Anthropic.Chunks.Collected.{
  delta_of, before_end, first_end, concat, decoded, error_at, collect_stream-chunks_from,
}

abbrev base_event : Event ℕ
base_event = record {
  base = record { workflow_id = "w"; time = 1 };
  payload = node_started "n" "N";
}

abbrev last_of_all : Event ℕ
last_of_all = record {
  base = record { workflow_id = "w"; time = 2 };
  payload = workflow_completed 7 1;
}

abbrev as_json : Event ℕ → Option String
as_json e = some "{}"

handle_events-append_example :
    handle_events as_json "w" true
      (received base_event ∷ heartbeat ∷ received last_of_all ∷ request_done ∷ [])
    ≡ streamed (record {
      written =
          ": connected to w\n\n" ∷ "event: node.started\ndata: {}\n\n" ∷ ": heartbeat\n\n"
          ∷ "event: workflow.completed\ndata: {}\n\n" ∷ [];
      ending = finished;
    })
handle_events-append_example =
    handle_events-append as_json "w" (received base_event ∷ heartbeat ∷ []) (request_done ∷ [])
      (received last_of_all) refl (refl, (refl, tt)) refl

abbrev decode_line : List ℕ → Option StreamEvent
decode_line payload =
    if same_bytes payload (b'd' ∷ [])
    then some (record {
      kind = "content_block_delta";
      delta = some (record { kind = "text_delta"; text = "Hi" });
      error_message = "";
    })
    else some (record { kind = "message_stop"; delta = none; error_message = "" })

abbrev data_line : ℕ → List ℕ
data_line c = b'd' ∷ b'a' ∷ b't' ∷ b'a' ∷ b':' ∷ b' ' ∷ c ∷ []

abbrev three_lines : List (List ℕ)
three_lines = data_line b'd' ∷ [] ∷ data_line b'd' ∷ data_line b's' ∷ data_line b'd' ∷ []

collect_stream-chunks_from_example :
    let r : Streamed ℕ (AnthropicError String) =
      collect_stream "call" (chunks_from decode_line (λ i. false) (some "lost") 0 three_lines) in
    (r.text ≡ concat (map delta_of (before_end (decoded decode_line three_lines))))
    × (r.error ≡ error_at (some "lost") (first_end (decoded decode_line three_lines)))
collect_stream-chunks_from_example =
    collect_stream-chunks_from ℕ "call" decode_line (some "lost") 0 three_lines
