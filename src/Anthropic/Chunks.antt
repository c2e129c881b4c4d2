-- ===== src/Anthropic/Chunks.antt =====
-- agent/anthropic_stream.go: CompleteStream. The lines of the body are given as the scanner reads them,
-- with the error that it ends with; a line is its bytes, and the decoding of an event is a parameter.
-- `done i` tells whether the context ends before the chunk with that index is taken.
pub mod Collected
use sibyl.Prelude.{
  ℕ, suc, String, Bool, true, false, not, List, [], ◌∷◌, Option, none, some, Result, ok, err, ◌>>=◌,
  ◌>>◌, fail_if, if◌then◌else◌, ◌==◌, is_empty, ◌&&◌,
}
use sibyl.Prelude.Int.{pos}
use sibyl.Prelude.Maps.{GoMap}
use sibyl.Prelude.Bytes.{cut_prefix, trim_space, same_bytes}
use sibyl.Http.{HttpResponse, HttpClient, is_success}
use sibyl.Streaming.{TokenChunk}
use sibyl.Anthropic.{
  AnthropicConfig, AnthropicRequest, AnthropicError, ErrorEnvelope, stream_error, read_failed, sent,
  refusal, anthropic_request,
}

-- `kind` is the field Type; a missing delta is `none`.
pub record StreamDelta : Type 0 where
  pub kind : String
  pub text : String

pub record StreamEvent : Type 0 where
  pub kind : String
  pub delta : Option StreamDelta
  pub error_message : String

abbrev data_prefix : List ℕ
data_prefix = b'd' ∷ b'a' ∷ b't' ∷ b'a' ∷ b':' ∷ []

abbrev done_mark : List ℕ
done_mark = b'[' ∷ b'D' ∷ b'O' ∷ b'N' ∷ b'E' ∷ b']' ∷ []

abbrev pub unless_blank : List ℕ → Option (List ℕ)
unless_blank payload =
    if is_empty payload then none else if same_bytes payload done_mark then none else some payload

abbrev pub after_prefix : Option (List ℕ) → Option (List ℕ)
after_prefix none = none
after_prefix (some rest) = unless_blank (trim_space rest)

-- The payload of a data line that has one.
unfoldable pub payload_of : List ℕ → Option (List ℕ)
payload_of line = after_prefix (cut_prefix data_prefix line)

-- A delta's text that is sent; the empty text is not.
abbrev pub delta_text : Option StreamDelta → String
delta_text none = ""
delta_text (some d) = if d.kind == "text_delta" then d.text else ""

abbrev pub message_or_unknown : String → String
message_or_unknown m = if m == "" then "unknown stream error" else m

module _ {F : Type 0} (done : ℕ → Bool) (ended : Option F) where
  abbrev pub last_chunk : ℕ → Option (AnthropicError F) → List (TokenChunk (AnthropicError F))
  last_chunk i e =
      if done i then [] else record { text = ""; index = pos i; final = true; error = e } ∷ []

  abbrev pub text_chunk :
      ℕ → String → List (TokenChunk (AnthropicError F)) → List (TokenChunk (AnthropicError F))
  text_chunk i text rest =
      if done i
      then []
      else record { text = text; index = pos i; final = false; error = none } ∷ rest

  -- `same` are the chunks of the further lines for this index, `next` for the next one.
  abbrev pub on_event :
      ℕ
      → StreamEvent
      → List (TokenChunk (AnthropicError F))
      → List (TokenChunk (AnthropicError F))
      → List (TokenChunk (AnthropicError F))
  on_event i e same next =
      if e.kind == "content_block_delta"
      then (if delta_text e.delta == "" then same else text_chunk i (delta_text e.delta) next)
      else if e.kind == "message_stop"
      then last_chunk i none
      else if e.kind == "error"
      then last_chunk i (some (stream_error (message_or_unknown e.error_message)))
      else same

  abbrev pub on_line :
      ℕ
      → Option StreamEvent
      → List (TokenChunk (AnthropicError F))
      → List (TokenChunk (AnthropicError F))
      → List (TokenChunk (AnthropicError F))
  on_line i none same next = same
  on_line i (some e) same next = on_event i e same next

  abbrev pub after_scan : ℕ → Option F → List (TokenChunk (AnthropicError F))
  after_scan i none = []
  after_scan i (some e) = last_chunk i (some (read_failed e))

module _ (decode : List ℕ → Option StreamEvent) where
  abbrev pub event_in : Option (List ℕ) → Option StreamEvent
  event_in none = none
  event_in (some payload) = decode payload

  -- The event of a line, where there is one that decodes.
  abbrev pub event_of : List ℕ → Option StreamEvent
  event_of line = event_in (payload_of line)

  module _ {F : Type 0} (done : ℕ → Bool) (ended : Option F) where
    -- What comes over the channel until it is closed.
    unfoldable pub chunks_from : ℕ → List (List ℕ) → List (TokenChunk (AnthropicError F))
    chunks_from i [] = after_scan done ended i ended
    chunks_from i (line ∷ lines) =
        on_line done ended i (event_of line) (chunks_from i lines) (chunks_from (suc i) lines)

module _ {F : Type 0} (client : HttpClient F) (marshal : AnthropicRequest → Result F String)
    (decode_error : String → Option ErrorEnvelope) (decode : List ℕ → Option StreamEvent)
    (done : ℕ → Bool) (scan : HttpResponse F → List (List ℕ) × Option F) where
  -- `scan` are the lines that bufio.Scanner finds in the body, and the error with which it gives up, be
  -- it one of reading or a line of more than a megabyte.
  unfoldable pub complete_stream :
      AnthropicConfig
      → String
      → String
      → Result (AnthropicError F) (List (TokenChunk (AnthropicError F)))
  complete_stream cfg system user = do
    r ←
        sent client marshal decode_error cfg (("Accept", "text/event-stream") ∷ [])
          (anthropic_request cfg true system user)
    fail_if (not (is_success r.status_code)) (refusal r.status_code r.body (decode_error r.body))
    let (lines, ended) = scan r
    ok (chunks_from decode done ended 0 lines)
