-- ===== src/Agents/Credentials.antt =====
-- agents/oauth.go: WithOAuth, its ways to resolve an identity and to inject a token, and its errors.
-- `refresh` and a store come from auth/oauth; the runs of the inner arrow are numbered.
pub mod Injected
use sibyl.Prelude.{
  ℕ, String, Bool, true, false, [], Option, none, some, Result, ok, err, ◌>>=◌, ◌>>◌, fail_if,
  map_err, ◌==◌, if◌then◌else◌,
}
use sibyl.OAuth.Types.{TokenPair, Identity}
use sibyl.OAuth.Refresh.{
  TokenStore, RefreshError, load_failed, call_failed, refresh_failed, save_failed, retry_failed,
  no_refresh_arrow, Run, with_refresh,
}
use sibyl.Agents.{AgentContext}

pub data PolicyPanic : Type 0 where
  store_nil refresh_nil provider_empty resolve_identity_nil inject_nil canonical_empty : PolicyPanic

-- A nil arrow is `none`.
pub record OAuthPolicy (A F Q : Type 0) : Type 0 where
  pub provider : String
  pub resolve_identity : Option (AgentContext → Q → Result F (Identity A))
  pub inject : Option (AgentContext → Q → TokenPair A → Result F Q)

pub data OAuthFailure (A F : Type 0) : Type 0 where
  identity_failed : F → OAuthFailure A F
  missing_credential : Identity A → String → RefreshError F → OAuthFailure A F
  other_failure : RefreshError F → OAuthFailure A F

-- What the run of an agent returns, and what the store holds after it.
pub record OAuthRun (S A F R : Type 0) : Type 0 where
  pub result : Result (OAuthFailure A F) R
  pub store : S

-- The error that a chain of wrapped errors ends with.
abbrev pub cause : {F : Type 0} → RefreshError F → Option F
cause (load_failed e) = some e
cause (call_failed e) = some e
cause (refresh_failed e) = some e
cause (save_failed e) = some e
cause (retry_failed e) = some e
cause no_refresh_arrow = none

abbrev pub present : {T : Type 0} → PolicyPanic → Option T → Result PolicyPanic T
present panic none = err panic
present panic (some t) = ok t

module _ {F : Type 0} (is_token_not_found : F → Bool) where
  abbrev pub is_missing_token : Option F → Bool
  is_missing_token none = false
  is_missing_token (some e) = is_token_not_found e

  abbrev pub failure : {A : Type 0} → Identity A → String → RefreshError F → OAuthFailure A F
  failure identity provider e =
      if is_missing_token (cause e) then missing_credential identity provider e else other_failure e

  abbrev pub translated :
      {S A R : Type 0} → Identity A → String → S → Result (RefreshError F) R → OAuthRun S A F R
  translated identity provider after (ok response) = record { result = ok response; store = after }
  translated identity provider after (err e) = record {
    result = err (failure identity provider e);
    store = after;
  }

module _ {S A F Q R : Type 0} (is_auth_error is_token_not_found : F → Bool) (inject_error : F → F)
    (store : TokenStore S A F) (refresh : TokenPair A → Result F (TokenPair A)) (provider : String)
    (resolve_identity : AgentContext → Q → Result F (Identity A))
    (inject : AgentContext → Q → TokenPair A → Result F Q) where
  module _ (inner : ℕ → AgentContext → Q → Result F R) (context : AgentContext) (request : Q) where
    abbrev pub token_call : ℕ → TokenPair A → Result F R
    token_call n token = do
      injected ← map_err inject_error (inject context request token)
      inner n context injected

    abbrev pub resolved : S → Result F (Identity A) → OAuthRun S A F R
    resolved s (err e) = record { result = err (identity_failed e); store = s }
    resolved s (ok identity) =
        let run = with_refresh store is_auth_error refresh identity provider token_call s in
        translated is_token_not_found identity provider run.store run.result

    -- The arrow that `WithOAuth` makes of `inner`.
    unfoldable pub run_with_oauth : S → OAuthRun S A F R
    run_with_oauth s = resolved s (resolve_identity context request)

module _ {S A F Q R : Type 0} (is_auth_error is_token_not_found : F → Bool)
    (inject_error : F → F) where
  unfoldable pub with_oauth :
      Option (TokenStore S A F)
      → Option (TokenPair A → Result F (TokenPair A))
      → OAuthPolicy A F Q
      → Result PolicyPanic
          ((ℕ → AgentContext → Q → Result F R) → AgentContext → Q → S → OAuthRun S A F R)
  with_oauth store refresh policy = do
    tokens ← present store_nil store
    renewal ← present refresh_nil refresh
    fail_if (policy.provider == "") provider_empty
    resolve_identity ← present resolve_identity_nil policy.resolve_identity
    inject ← present inject_nil policy.inject
    ok (
        run_with_oauth is_auth_error is_token_not_found inject_error tokens renewal policy.provider
          resolve_identity inject)

module _ {A F Q : Type 0} where
  -- `missing` is the MissingIdentityError of a provider.
  unfoldable pub invoked_by_identity :
      (String → F) → String → Result PolicyPanic (AgentContext → Q → Result F (Identity A))
  invoked_by_identity missing provider = do
    fail_if (provider == "") provider_empty
    ok (λ context request. do
      fail_if (context.invoked_by == "") (missing provider)
      ok (record {
        canonical = context.invoked_by;
        provider = provider;
        provider_id = "";
        email = "";
        display_name = "";
        raw = [];
      }))

  unfoldable pub fixed_identity :
      Identity A → Result PolicyPanic (AgentContext → Q → Result F (Identity A))
  fixed_identity identity = do
    fail_if (identity.canonical == "") canonical_empty
    ok (λ context request. ok identity)

  -- `mutate` works on a copy of the request.
  abbrev pub struct_field_injector :
      (Q → TokenPair A → Q) → AgentContext → Q → TokenPair A → Result F Q
  struct_field_injector mutate context request token = ok (mutate request token)
