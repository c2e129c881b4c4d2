-- ===== src/Worker.antt =====
-- cmd/worker/main.go and cmd/api-server/main.go: how the flags choose a backend, its streaming and a
-- cache; worker/worker.go: what is registered. The constructors of backends and caches are arguments.
use sibyl.Prelude.{
  ◌≡◌, refl, String, true, false, List, [], ◌∷◌, Option, none, some, Result, ok, err, ◌>>=◌,
  map_err, if◌then◌else◌, ◌==◌, ◌||◌, sym, subst, eq_iff, Bool-cases, Result-cases, inl, inr,
  ok-inj, err-ne-ok,
}
use sibyl.Prelude.Int.{ℤ, pos}
use sibyl.Scripted.{ScriptedLlm, new_scripted}
use sibyl.ClaudeCode.{ClaudeCodeConfig, new_claude_code_client}
use sibyl.Anthropic.{AnthropicConfig, AnthropicError, new_anthropic_client}

pub data Backend : Type 0 where
  scripted : ScriptedLlm → Backend
  anthropic : AnthropicConfig → Backend
  claude_code : ClaudeCodeConfig → Backend

pub data SetupError (F : Type 0) : Type 0 where
  unknown_backend unknown_cache : String → SetupError F
  anthropic_failed : AnthropicError F → SetupError F
  cache_failed : F → SetupError F

abbrev pub worker_script : List String
worker_script =
    "Paris is the capital of France."
    ∷ "{\"approved\": false, \"confidence\": 0.4, \"feedback\": \"Answer is correct but too terse. Add a sentence about why Paris is significant.\"}"
    ∷ "Paris is the capital of France. It has been the political, cultural, and economic center of the country for over a thousand years."
    ∷ "{\"approved\": true, \"confidence\": 0.92, \"feedback\": \"\"}" ∷ []

abbrev pub server_script : List String
server_script = "Static demo response from scripted backend." ∷ []

abbrev model_config : String → AnthropicConfig
model_config model = record {
  api_key = "";
  model = model;
  max_tokens = pos 0;
  base_url = "";
  version = "";
}

abbrev cli_config : String → ClaudeCodeConfig
cli_config model = record {
  binary = "";
  model = model;
  permission_mode = "";
  max_turns = pos 0;
  extra_args = [];
}

module _ {F : Type 0} (env_key : String) where
  -- The worker and the server differ in the script.
  unfoldable pub pick_backend : List String → String → String → Result (SetupError F) Backend
  pick_backend script name model =
      if name == "scripted"
      then ok (scripted (new_scripted script true))
      else if name == "anthropic"
      then (do
        cfg ← map_err anthropic_failed (new_anthropic_client env_key (model_config model))
        ok (anthropic cfg))
      else if name == "claude-code"
      then ok (claude_code (new_claude_code_client (cli_config model)))
      else err (unknown_backend name)

  -- `none` is the nil function of a backend without streaming.
  unfoldable pub pick_stream : String → String → Result (SetupError F) (Option AnthropicConfig)
  pick_stream name model =
      if name == "anthropic"
      then (do
        cfg ← map_err anthropic_failed (new_anthropic_client env_key (model_config model))
        ok (some cfg))
      else ok none

module _ {F C : Type 0} where
  unfoldable pub build_cache :
      (ℤ → C) → (String → ℤ → Result F C) → String → String → ℤ → Result (SetupError F) (Option C)
  build_cache new_memory new_sqlite kind path ttl =
      if kind == "none"
      then ok none
      else if (kind == "memory") || (kind == "")
      then ok (some (new_memory ttl))
      else if kind == "sqlite"
      then (do cache ← map_err cache_failed (new_sqlite path ttl); ok (some cache))
      else err (unknown_cache kind)

abbrev pub stream_of : Backend → Option AnthropicConfig
stream_of (scripted s) = none
stream_of (anthropic cfg) = some cfg
stream_of (claude_code cfg) = none

other_name :
    (name other : String)
    → (name == other) ≡ true
    → (other == "anthropic") ≡ false
    → (name == "anthropic") ≡ false
other_name name other h apart =
    subst (λ k. (k == "anthropic") ≡ false) (sym ((eq_iff name other).0 h)) apart

module _ (F : Type 0) (env_key : String) where
  -- The completion of a backend streams exactly where the backend can, with the same settings: where a
  -- backend is found for a name and a model, so is its streaming function, if it has one.
  pub pick_stream-pick_backend :
      (script : List String) (name model : String) (b : Backend)
      → pick_backend {F = F} env_key script name model ≡ ok b
      → pick_stream {F = F} env_key name model ≡ ok (stream_of b)
  unfolding pick_backend pick_stream
  pick_stream-pick_backend script name model b h = elim (Bool-cases (name == "scripted")) [
    | inl script_named ↦
        rw (other_name name "scripted" script_named refl, sym (ok-inj (rw script_named at h))) refl
    | inr x ↦ elim (Bool-cases (name == "anthropic")) [
      | inl named ↦
          elim (Result-cases (new_anthropic_client {F = F} env_key (model_config model))) [
            | inl (e, failed) ↦ err-ne-ok (rw (x, named, failed) at h)
            | inr (cfg, made) ↦ rw (named, made, sym (ok-inj (rw (x, named, made) at h))) refl
          ]
      | inr y ↦ elim (Bool-cases (name == "claude-code")) [
        | inl cli ↦ rw (y, sym (ok-inj (rw (x, y, cli) at h))) refl
        | inr z ↦ err-ne-ok (rw (x, y, z) at h)
      ]
    ]
  ]
