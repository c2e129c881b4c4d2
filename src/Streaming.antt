-- ===== src/Streaming.antt =====
-- agent/stream.go: CollectStream, CompleteWithStreaming and StreamFromComplete, with the events that
-- they emit. A channel of chunks is the list of what comes over it until it is closed.
use sibyl.Prelude.{
  ◌≡◌, refl, sym, ap, eq_iff, String, Bool, true, false, List, [], ◌∷◌, Option, none, some, Result,
  ok, err, if◌then◌else◌, ◌==◌, Bool-cases, inl, inr,
}
use sibyl.Prelude.Int.{ℤ, pos}
use sibyl.Prelude.Texts.{joined}
use text.Mathlib.TextLemmas.{append-nil}
use sibyl.Agents.{Returned}
use sibyl.Events.{Payload, token_chunk}

pub record TokenChunk (E : Type 0) : Type 0 where
  pub text : String
  pub index : ℤ
  pub final : Bool
  pub error : Option E

-- The text and the error that are returned, and the events on the way.
pub record Streamed (A E : Type 0) : Type 0 where
  pub text : String
  pub error : Option E
  pub events : List (Payload A)

module _ {A E : Type 0} where
  abbrev pub until_error : Option E → Streamed A E → Streamed A E
  until_error none rest = rest
  until_error (some e) rest = record { text = ""; error = some e; events = [] }

  unfoldable pub collect_stream : String → List (TokenChunk E) → Streamed A E
  collect_stream call_id [] = record { text = ""; error = none; events = [] }
  collect_stream call_id (c ∷ chunks) =
      let rest = until_error c.error (collect_stream call_id chunks) in
      if c.text == "" then rest else record {
        text = joined c.text rest.text;
        error = rest.error;
        events = token_chunk call_id c.index c.text c.final ∷ rest.events;
      }

  -- What the stream or else the fallback gave for the prompts; `none` where it is nil.
  unfoldable pub complete_with_streaming :
      Option (Result E (List (TokenChunk E))) → Option (Returned E String) → String → Streamed A E
  complete_with_streaming (some (ok chunks)) fallback call_id = collect_stream call_id chunks
  complete_with_streaming (some (err e)) fallback call_id = record {
    text = "";
    error = some e;
    events = [];
  }
  complete_with_streaming none (some out) call_id = record {
    text = out.value;
    error = out.error;
    events = token_chunk call_id (pos 0) out.value true ∷ [];
  }
  complete_with_streaming none none call_id = record { text = ""; error = none; events = [] }

module _ {A : Type 0} where
  -- The text that the events of a stream show.
  unfoldable pub shown : List (Payload A) → String
  shown [] = ""
  shown (token_chunk call_id index text final ∷ events) = joined text (shown events)
  shown (_ ∷ events) = shown events

module _ {A E : Type 0} where
  -- What the events show is the text that is returned.
  abbrev IsShown : Streamed A E → Type 0
  IsShown r = shown r.events ≡ r.text

  until_error-IsShown :
      (o : Option E) (rest : Streamed A E) → IsShown rest → IsShown (until_error o rest)
  unfolding shown
  until_error-IsShown none rest h = h
  until_error-IsShown (some e) rest h = refl

module _ (A : Type 0) {E : Type 0} where
  collect_stream-IsShown :
      (call_id : String) (chunks : List (TokenChunk E))
      → IsShown {A = A} (collect_stream call_id chunks)
  unfolding collect_stream shown
  collect_stream-IsShown call_id [] = refl
  collect_stream-IsShown call_id (c ∷ chunks) =
      let h =
        until_error-IsShown c.error (collect_stream call_id chunks)
          (collect_stream-IsShown call_id chunks) in
      elim (Bool-cases (c.text == "")) [
        | inl blank ↦ rw blank h
        | inr said ↦ rw said (ap (joined c.text) h)
      ]

  pub complete_with_streaming-IsShown :
      (stream : Option (Result E (List (TokenChunk E)))) (fallback : Option (Returned E String))
      (call_id : String)
      → IsShown {A = A} (complete_with_streaming stream fallback call_id)
  unfolding complete_with_streaming shown
  complete_with_streaming-IsShown (some (ok chunks)) fallback call_id =
      collect_stream-IsShown call_id chunks
  complete_with_streaming-IsShown (some (err e)) fallback call_id = refl
  complete_with_streaming-IsShown none (some out) call_id = append-nil out.value
  complete_with_streaming-IsShown none none call_id = refl

-- One chunk with all the text, unless the context ends before it is taken.
unfoldable pub stream_from_complete : {E : Type 0} → Bool → Returned E String → List (TokenChunk E)
stream_from_complete true out = []
stream_from_complete false out =
    record { text = out.value; index = pos 0; final = true; error = out.error } ∷ []

until_error-none :
    {A E : Type 0} (o : Option E)
    → Path
        (Streamed A E)
        (until_error o (record { text = ""; error = none; events = [] }))
        (record { text = ""; error = o; events = [] })
until_error-none none = refl
until_error-none (some e) = refl

-- What is collected from it is what the completion returned, error and all.
pub collect_stream-stream_from_complete :
    (A : Type 0) {E : Type 0} (call_id : String) (out : Returned E String)
    → let r : Streamed A E = collect_stream call_id (stream_from_complete false out) in
      (r.text ≡ out.value) × (r.error ≡ out.error)
unfolding collect_stream stream_from_complete
collect_stream-stream_from_complete A call_id out = elim (Bool-cases (out.value == "")) [
  | inl blank ↦
      rw (blank, until_error-none {A = A} out.error) (sym ((eq_iff out.value "").0 blank), refl)
  | inr said ↦ rw (said, until_error-none {A = A} out.error) (append-nil out.value, refl)
]
