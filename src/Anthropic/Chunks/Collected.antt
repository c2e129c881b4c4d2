-- ===== src/Anthropic/Chunks/Collected.antt =====
-- agent/anthropic_stream.go with CollectStream of agent/stream.go: the text of a streamed answer.
use sibyl.Prelude.{
  ℕ, suc, ◌≡◌, refl, sym, ap, ◌∙◌, subst, String, Bool, true, false, List, [], ◌∷◌, map, Option,
  none, some, if◌then◌else◌, ◌==◌, eq_iff, Bool-cases, inl, inr,
}
use sibyl.Prelude.Texts.{joined}
use text.Mathlib.TextLemmas.{nil-append}
use sibyl.Streaming.{TokenChunk, Streamed, collect_stream}
use sibyl.Anthropic.{AnthropicError, stream_error, read_failed}
use sibyl.Anthropic.Chunks.{
  StreamEvent, delta_text, message_or_unknown, event_of, text_chunk, on_event, on_line, after_scan,
  chunks_from,
}

-- The text that an event adds to the answer.
abbrev pub delta_of : StreamEvent → String
delta_of e = if e.kind == "content_block_delta" then delta_text e.delta else ""

abbrev pub ends_message : StreamEvent → Bool
ends_message e = if e.kind == "message_stop" then true else e.kind == "error"

unfoldable pub before_end : List StreamEvent → List StreamEvent
before_end [] = []
before_end (e ∷ events) = let rest = before_end events in if ends_message e then [] else e ∷ rest

unfoldable pub first_end : List StreamEvent → Option StreamEvent
first_end [] = none
first_end (e ∷ events) = let rest = first_end events in if ends_message e then some e else rest

unfoldable pub concat : List String → String
concat [] = ""
concat (s ∷ texts) = joined s (concat texts)

abbrev pub prepended : Option StreamEvent → List StreamEvent → List StreamEvent
prepended none events = events
prepended (some e) events = e ∷ events

-- The events of the lines that have one.
abbrev pub decoded : (List ℕ → Option StreamEvent) → List (List ℕ) → List StreamEvent
decoded decode [] = []
decoded decode (line ∷ lines) = prepended (event_of decode line) (decoded decode lines)

module _ {F : Type 0} where
  -- The error of an answer whose message ended like this; a reading error counts where no event ended it.
  abbrev pub error_at : Option F → Option StreamEvent → Option (AnthropicError F)
  error_at none none = none
  error_at (some e) none = some (read_failed e)
  error_at ended (some e) =
      if e.kind == "message_stop"
      then none
      else some (stream_error (message_or_unknown e.error_message))

delta_goes_on :
    (k : String)
    → (k == "content_block_delta") ≡ true
    → (if k == "message_stop" then true else k == "error") ≡ false
delta_goes_on k h =
    subst (λ k. (if k == "message_stop" then true else k == "error") ≡ false)
      (sym ((eq_iff k "content_block_delta").0 h)) refl

module _ (A : Type 0) {F : Type 0} (id : String) where
  abbrev Collects :
      List (TokenChunk (AnthropicError F)) → String → Option (AnthropicError F) → Type 0
  Collects chunks text e =
      let r : Streamed A (AnthropicError F) = collect_stream id chunks in
      (r.text ≡ text) × (r.error ≡ e)

  text_chunk-Collects :
      (ended : Option F) (i : ℕ) (text rest : String) (next : List (TokenChunk (AnthropicError F)))
      (o : Option (AnthropicError F))
      → (text == "") ≡ false
      → Collects next rest o
      → Collects (text_chunk (λ i. false) ended i text next) (joined text rest) o
  unfolding collect_stream
  text_chunk-Collects ended i text rest next o said h = rw said (ap (joined text) h.0, h.1)

  delta-Collects :
      (ended : Option F) (i : ℕ) (text rest : String)
      (same next : List (TokenChunk (AnthropicError F))) (o : Option (AnthropicError F))
      → Collects same rest o
      → Collects next rest o
      → Collects
          (if text == "" then same else text_chunk (λ i. false) ended i text next)
          (joined text rest)
          o
  delta-Collects ended i text rest same next o hs hn = elim (Bool-cases (text == "")) [
    | inl blank ↦
        rw blank
          (hs.0 ∙ sym (ap (λ t. joined t rest) ((eq_iff text "").0 blank) ∙ nil-append rest), hs.1)
    | inr said ↦ rw said (text_chunk-Collects ended i text rest next o said hn)
  ]

  on_event-Collects :
      (ended : Option F) (i : ℕ) (e : StreamEvent) (events : List StreamEvent)
      (same next : List (TokenChunk (AnthropicError F)))
      → Collects same
          (concat (map delta_of (before_end events)))
          (error_at ended (first_end events))
      → Collects next
          (concat (map delta_of (before_end events)))
          (error_at ended (first_end events))
      → Collects
          (on_event (λ i. false) ended i e same next)
          (concat (map delta_of (before_end (e ∷ events))))
          (error_at ended (first_end (e ∷ events)))
  unfolding before_end first_end concat collect_stream
  on_event-Collects ended i e events same next hs hn =
      elim (Bool-cases (e.kind == "content_block_delta")) [
        | inl delta ↦
            rw (delta, delta_goes_on e.kind delta, delta)
              (delta-Collects ended i (delta_text e.delta) _ same next _ hs hn)
        | inr other ↦ elim (Bool-cases (e.kind == "message_stop")) [
          | inl stop ↦ rw (other, stop, stop) (refl, refl)
          | inr more ↦ elim (Bool-cases (e.kind == "error")) [
            | inl failed ↦ rw (other, more, failed) (refl, rw more refl)
            | inr ignored ↦ rw (other, more, ignored, other) (hs.0 ∙ sym (nil-append _), hs.1)
          ]
        ]
      ]

  on_line-Collects :
      (ended : Option F) (i : ℕ) (o : Option StreamEvent) (events : List StreamEvent)
      (same next : List (TokenChunk (AnthropicError F)))
      → Collects same
          (concat (map delta_of (before_end events)))
          (error_at ended (first_end events))
      → Collects next
          (concat (map delta_of (before_end events)))
          (error_at ended (first_end events))
      → Collects
          (on_line (λ i. false) ended i o same next)
          (concat (map delta_of (before_end (prepended o events))))
          (error_at ended (first_end (prepended o events)))
  on_line-Collects ended i none events same next hs hn = hs
  on_line-Collects ended i (some e) events same next hs hn =
      on_event-Collects ended i e events same next hs hn

  after_scan-Collects :
      (ended : Option F) (i : ℕ)
      → Collects (after_scan (λ i. false) ended i ended) "" (error_at ended none)
  unfolding collect_stream
  after_scan-Collects none i = (refl, refl)
  after_scan-Collects (some e) i = (refl, refl)

  -- While the context has not ended: the text that is collected from a stream is that of the deltas before
  -- the first event that stops the message or is an error, and its error is that of this event, or of
  -- the reading of the body where there is no such event.
  pub collect_stream-chunks_from :
      (decode : List ℕ → Option StreamEvent) (ended : Option F) (i : ℕ) (lines : List (List ℕ))
      → let r : Streamed A (AnthropicError F) =
          collect_stream id (chunks_from decode (λ i. false) ended i lines) in
        (r.text ≡ concat (map delta_of (before_end (decoded decode lines))))
        × (r.error ≡ error_at ended (first_end (decoded decode lines)))
  unfolding chunks_from before_end first_end concat
  collect_stream-chunks_from decode ended i [] = after_scan-Collects ended i
  collect_stream-chunks_from decode ended i (line ∷ lines) =
      on_line-Collects ended i (event_of decode line) (decoded decode lines)
        (chunks_from decode (λ i. false) ended i lines)
        (chunks_from decode (λ i. false) ended (suc i) lines)
        (collect_stream-chunks_from decode ended i lines)
        (collect_stream-chunks_from decode ended (suc i) lines)
