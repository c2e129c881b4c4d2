-- ===== src/Anthropic.antt =====
-- agent/anthropic.go: NewAnthropicClient and Complete. The HTTP client, encoding/json and the
-- environment are parameters, `F` their errors.
pub mod Chunks
use sibyl.Prelude.{
  ℕ, zero, suc, String, Bool, false, not, List, [], ◌∷◌, Option, none, some, Result, ok, err, ◌>>=◌,
  ◌>>◌, fail_if, fail_on, map_err, if◌then◌else◌, ◌==◌, is_empty,
}
use sibyl.Prelude.Int.{ℤ, pos, negsuc}
use sibyl.Prelude.Maps.{GoMap}
use sibyl.Prelude.Texts.{joined}
use sibyl.Http.{HttpRequest, HttpResponse, HttpClient, is_success}

pub record AnthropicConfig : Type 0 where
  pub api_key : String
  pub model : String
  pub max_tokens : ℤ
  pub base_url : String
  pub version : String

pub record AnthropicRequest : Type 0 where
  pub model : String
  pub max_tokens : ℤ
  pub system : String
  pub user : String
  pub stream : Bool

-- `kind` is the field Type.
pub record ContentBlock : Type 0 where
  pub kind : String
  pub text : String

pub record AnthropicReply : Type 0 where
  pub content : List ContentBlock
  pub stop_reason : String

pub record ErrorEnvelope : Type 0 where
  pub kind : String
  pub message : String

pub data AnthropicError (F : Type 0) : Type 0 where
  api_key_not_set : AnthropicError F
  marshal_failed build_failed call_failed read_failed parse_failed : F → AnthropicError F
  refused : (kind : String) (status : ℕ) (message : String) → AnthropicError F
  bad_status : (status : ℕ) (body : String) → AnthropicError F
  empty_content : (stop_reason : String) → AnthropicError F
  stream_error : (message : String) → AnthropicError F

abbrev pub text_or : String → String → String
text_or default s = if s == "" then default else s

abbrev pub positive_or_default : ℤ → ℤ → ℤ
positive_or_default default (pos zero) = default
positive_or_default default (pos (suc n)) = pos (suc n)
positive_or_default default (negsuc n) = default

-- `env_key` is the value of ANTHROPIC_API_KEY.
abbrev pub new_anthropic_client :
    {F : Type 0} → String → AnthropicConfig → Result (AnthropicError F) AnthropicConfig
new_anthropic_client env_key cfg = do
  fail_if (text_or env_key cfg.api_key == "") api_key_not_set
  ok (record {
    api_key = text_or env_key cfg.api_key;
    model = text_or "claude-sonnet-4-5" cfg.model;
    max_tokens = positive_or_default (pos 1024) cfg.max_tokens;
    base_url = text_or "https://api.anthropic.com" cfg.base_url;
    version = text_or "2023-06-01" cfg.version;
  })

abbrev pub anthropic_request : AnthropicConfig → Bool → String → String → AnthropicRequest
anthropic_request cfg stream system user = record {
  model = cfg.model;
  max_tokens = cfg.max_tokens;
  system = system;
  user = user;
  stream = stream;
}

-- What the loop over the blocks writes.
unfoldable pub text_blocks : List ContentBlock → String
text_blocks [] = ""
text_blocks (b ∷ blocks) =
    let rest = text_blocks blocks in if b.kind == "text" then joined b.text rest else rest

module _ {F : Type 0} where
  -- An error status, with the envelope where the body decodes to one.
  abbrev pub refusal : ℕ → String → Option ErrorEnvelope → AnthropicError F
  refusal status body none = bad_status status body
  refusal status body (some e) =
      if e.message == "" then bad_status status body else refused e.kind status e.message

  abbrev pub non_empty : AnthropicReply → Result (AnthropicError F) String
  non_empty reply =
      if text_blocks reply.content == ""
      then err (empty_content reply.stop_reason)
      else ok (text_blocks reply.content)

  module _ (client : HttpClient F) (marshal : AnthropicRequest → Result F String)
      (decode_error : String → Option ErrorEnvelope) where
    abbrev pub messages_request : AnthropicConfig → GoMap String → String → HttpRequest
    messages_request cfg accept body = record {
      method = "POST";
      url = joined cfg.base_url "/v1/messages";
      headers =
          ("Content-Type", "application/json")
          ∷ ("x-api-key", cfg.api_key)
          ∷ ("anthropic-version", cfg.version)
          ∷ accept;
      body = body;
    }

    -- The request of both completions, sent.
    abbrev pub sent :
        AnthropicConfig
        → GoMap String
        → AnthropicRequest
        → Result (AnthropicError F) (HttpResponse F)
    sent cfg accept request = do
      body ← map_err marshal_failed (marshal request)
      map_err build_failed
          (fail_on (client.cannot_build "POST" (joined cfg.base_url "/v1/messages")))
      map_err call_failed (client.send (messages_request cfg accept body))

    module _ (decode : String → Result F AnthropicReply) where
      abbrev pub read_reply : HttpResponse F → Result (AnthropicError F) String
      read_reply r = do
        map_err read_failed (fail_on r.read_error)
        fail_if (not (is_success r.status_code))
            (refusal r.status_code r.body (decode_error r.body))
        reply ← map_err parse_failed (decode r.body)
        non_empty reply

      unfoldable pub anthropic_complete :
          AnthropicConfig → String → String → Result (AnthropicError F) String
      anthropic_complete cfg system user = do
        r ← sent cfg [] (anthropic_request cfg false system user)
        read_reply r
