-- ===== src/ApiServer/Streamed.antt =====
-- cmd/api-server/main.go: what the stream of GET /events holds.
use sibyl.Prelude.{
  ◌||◌, ◌≡◌, refl, sym, ◌∙◌, String, Bool, true, false, List, [], ◌∷◌, ◌++◌, map, Option, none,
  some, All, flatten, ◌==◌, true≢false,
}
use mathlib.Core.List.{append_assoc}
use sibyl.Prelude.Texts.{joined}
use sibyl.Events.{
  Event, kind, Payload, workflow_started, workflow_completed, workflow_failed, node_started,
  node_completed, node_failed, activity_started, activity_completed, token_chunk, tool_called,
  tool_completed, token_usage,
}
use sibyl.ApiServer.{
  Turn, request_done, heartbeat, received, channel_closed, Ending, disconnected, closed, finished,
  waiting, Stream, streamed, is_terminal, comment_frame, event_frame, forwarded, stream_from,
  handle_events,
}

is_terminal-kind :
    {A : Type 0} (p : Payload A)
    → is_terminal p ≡ ((kind p == "workflow.completed") || (kind p == "workflow.failed"))
is_terminal-kind (workflow_started t i) = refl
is_terminal-kind (workflow_completed o d) = refl
is_terminal-kind (workflow_failed e d) = refl
is_terminal-kind (node_started n l) = refl
is_terminal-kind (node_completed n l o d) = refl
is_terminal-kind (node_failed n l e d) = refl
is_terminal-kind (activity_started a n) = refl
is_terminal-kind (activity_completed a n e d) = refl
is_terminal-kind (token_chunk c i t l) = refl
is_terminal-kind (tool_called t a s) = refl
is_terminal-kind (tool_completed t s r e d) = refl
is_terminal-kind (token_usage c i o) = refl

module _ {A : Type 0} (marshal : Event A → Option String) where
  abbrev pub frame_of : Event A → Option String → List String
  frame_of e none = []
  frame_of e (some payload) = event_frame (kind e.payload) payload ∷ []

  -- What a turn puts into the stream.
  abbrev pub frames_of : Turn (Event A) → List String
  frames_of request_done = []
  frames_of channel_closed = []
  frames_of heartbeat = comment_frame "heartbeat" ∷ []
  frames_of (received e) = frame_of e (marshal e)

  -- Whether an event that can be marshalled ends the workflow, by its kind.
  abbrev pub ends_stream : Event A → Option String → Bool
  ends_stream e none = false
  ends_stream e (some payload) =
      (kind e.payload == "workflow.completed") || (kind e.payload == "workflow.failed")

  abbrev pub ends : Turn (Event A) → Bool
  ends request_done = true
  ends channel_closed = true
  ends heartbeat = false
  ends (received e) = ends_stream e (marshal e)

  abbrev pub ending_of : Turn (Event A) → Ending
  ending_of request_done = disconnected
  ending_of channel_closed = closed
  ending_of heartbeat = waiting
  ending_of (received e) = finished

  goes_on :
      (e : Event A) (payload : Option String) (rest : Stream)
      → ends_stream e payload ≡ false
      → Path Stream
          (forwarded marshal e payload rest)
          (record { written = frame_of e payload ++ rest.written; ending = rest.ending })
  goes_on e none rest h = refl
  goes_on e (some payload) rest h = rw (is_terminal-kind e.payload, h) refl

  last_event :
      (e : Event A) (payload : Option String) (rest : Stream)
      → ends_stream e payload ≡ true
      → Path Stream
          (forwarded marshal e payload rest)
          (record { written = frame_of e payload; ending = finished })
  last_event e none rest h = absurd (true≢false (sym h))
  last_event e (some payload) rest h = rw (is_terminal-kind e.payload, h) refl

  stream_from-stops :
      (t : Turn (Event A)) (turns : List (Turn (Event A)))
      → ends t ≡ true
      → Path Stream
          (stream_from marshal (t ∷ turns))
          (record { written = frames_of t; ending = ending_of t })
  stream_from-stops request_done turns h = refl
  stream_from-stops channel_closed turns h = refl
  stream_from-stops heartbeat turns h = absurd (true≢false (sym h))
  stream_from-stops (received e) turns h = last_event e (marshal e) (stream_from marshal turns) h

  stream_from-append :
      (before turns : List (Turn (Event A)))
      → All (λ t. ends t ≡ false) before
      → Path Stream (stream_from marshal (before ++ turns)) (record {
        written = flatten (map frames_of before) ++ (stream_from marshal turns).written;
        ending = (stream_from marshal turns).ending;
      })
  stream_from-append [] turns h = refl
  stream_from-append (request_done ∷ before) turns h = absurd (true≢false h.0)
  stream_from-append (channel_closed ∷ before) turns h = absurd (true≢false h.0)
  stream_from-append (heartbeat ∷ before) turns h = rw (stream_from-append before turns h.1) refl
  stream_from-append (received e ∷ before) turns h =
      goes_on e (marshal e) (stream_from marshal (before ++ turns)) h.0
      ∙ rw
          (
            stream_from-append before turns h.1,
            append_assoc (frame_of e (marshal e)) (flatten (map frames_of before))
                (stream_from marshal turns).written,
          )
          refl

  -- For an identifier and a writer that can flush: the stream is the first comment, then in their
  -- order the heartbeats and the events that can be marshalled, up to the first turn that ends it, which
  -- is a disconnection, a closed channel or the end of the workflow. Nothing after that turn is read.
  pub handle_events-append :
      (workflow : String) (before after : List (Turn (Event A))) (t : Turn (Event A))
      → (workflow == "") ≡ false
      → All (λ t. ends t ≡ false) before
      → ends t ≡ true
      → handle_events marshal workflow true (before ++ t ∷ after)
        ≡ streamed (record {
          written =
              comment_frame (joined "connected to " workflow) ∷ flatten (map frames_of before)
              ++ frames_of t;
          ending = ending_of t;
        })
  unfolding handle_events
  handle_events-append workflow before after t named running ending =
      rw (named, stream_from-append before (t ∷ after) running, stream_from-stops t after ending)
        refl
