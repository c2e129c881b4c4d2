-- ===== src/Agents/Credentials/Injected.antt =====
-- What an agent behind WithOAuth of agents/oauth.go returns.
use sibyl.Prelude.{
  ℕ, ◌≡◌, refl, String, Bool, true, false, Result, Result-cases, err-ne-ok, ok, err, inl, inr,
  Bool-cases,
}
use sibyl.OAuth.Types.{TokenPair, Identity}
use sibyl.OAuth.Refresh.{
  TokenStore, IsLawful, RefreshError, Run, with_refresh, IsAnswer, with_refresh-IsAnswer,
}
use sibyl.Agents.{AgentContext}
use sibyl.Agents.Credentials.{
  OAuthFailure, identity_failed, missing_credential, other_failure, cause, token_call,
  is_missing_token, translated, resolved, run_with_oauth,
}

module _ {S A F Q R : Type 0} (is_auth_error is_token_not_found : F → Bool) (inject_error : F → F)
    (store : TokenStore S A F) (refresh : TokenPair A → Result F (TokenPair A)) (provider : String)
    (resolve_identity : AgentContext → Q → Result F (Identity A))
    (inject : AgentContext → Q → TokenPair A → Result F Q)
    (inner : ℕ → AgentContext → Q → Result F R) (context : AgentContext) (request : Q) (s : S) where
  abbrev call : ℕ → TokenPair A → Result F R
  call =
      token_call is_auth_error is_token_not_found inject_error store refresh provider
        resolve_identity inject inner context request

  -- The run of WithRefresh for an identity.
  abbrev attempt : Identity A → Run S F R
  attempt i = with_refresh store is_auth_error refresh i provider call s

  abbrev is_missing : RefreshError F → Bool
  is_missing e = is_missing_token is_token_not_found (cause e)

  -- A response is that of the inner arrow on the request with a token injected that the store holds
  -- afterwards for the resolved identity.
  abbrev IsResponse : R → S → Type 0
  IsResponse response after =
      (i : Identity A) × (resolve_identity context request ≡ ok i)
      × (token : TokenPair A) × (store.get after i provider ≡ ok token)
      × (injected : Q) × (inject context request token ≡ ok injected)
      × (n : ℕ) × (inner n context injected ≡ ok response)

  abbrev pub IsOAuthRun : Result (OAuthFailure A F) R → S → Type 0
  IsOAuthRun (ok response) after = IsResponse response after
  IsOAuthRun (err (identity_failed e)) after =
      (resolve_identity context request ≡ err e) × (after ≡ s)
  IsOAuthRun (err (missing_credential i p e)) after =
      (resolve_identity context request ≡ ok i)
      × (p ≡ provider)
      × ((attempt i).result ≡ err e)
      × (is_missing e ≡ true)
  IsOAuthRun (err (other_failure e)) after =
      (i : Identity A) × (resolve_identity context request ≡ ok i)
      × ((attempt i).result ≡ err e)
      × (is_missing e ≡ false)

  called :
      (n : ℕ) (token : TokenPair A) (response : R)
      → call n token ≡ ok response
      → (injected : Q) × (inject context request token ≡ ok injected)
        × (m : ℕ) × (inner m context injected ≡ ok response)
  called n token response h = elim (Result-cases (inject context request token)) [
    | inl (e, failed) ↦ err-ne-ok (rw failed at h)
    | inr (injected, done) ↦ (injected, done, n, rw done at h)
  ]

  answer-IsResponse :
      (i : Identity A) (response : R) (after : S)
      → resolve_identity context request ≡ ok i
      → IsAnswer store is_auth_error refresh i provider call s response after
      → IsResponse response after
  answer-IsResponse i response after known (token, holds, inl (same, done)) =
      let (injected, given, n, ran) = called 1 token response done in
      (i, known, token, holds, injected, given, n, ran)
  answer-IsResponse i response after known (token, holds, inr (done, renewed)) =
      let (injected, given, n, ran) = called 2 token response done in
      (i, known, token, holds, injected, given, n, ran)

  module _ (law : IsLawful store) where
    translated-IsOAuthRun :
        (i : Identity A) (r : Result (RefreshError F) R)
        → resolve_identity context request ≡ ok i
        → (attempt i).result ≡ r
        → IsOAuthRun
            (translated is_token_not_found i provider (attempt i).store r).result
            (translated is_token_not_found i provider (attempt i).store r).store
    translated-IsOAuthRun i (ok response) known got =
        answer-IsResponse i response _ known
          (with_refresh-IsAnswer store is_auth_error refresh i provider call s law response got)
    translated-IsOAuthRun i (err e) known got = elim (Bool-cases (is_missing e)) [
      | inl missing ↦ rw missing (known, refl, got, missing)
      | inr other ↦ rw other (i, known, got, other)
    ]

    resolved-IsOAuthRun :
        (r : Result F (Identity A))
        → resolve_identity context request ≡ r
        → IsOAuthRun
            (resolved is_auth_error is_token_not_found inject_error store refresh provider
              resolve_identity inject inner context request s r).result
            (resolved is_auth_error is_token_not_found inject_error store refresh provider
              resolve_identity inject inner context request s r).store
    resolved-IsOAuthRun (err e) failed = (failed, refl)
    resolved-IsOAuthRun (ok i) known = translated-IsOAuthRun i (attempt i).result known refl

    -- Over a store that gives back what was put, an agent behind WithOAuth answers with what the inner
    -- arrow gave on the request with an injected token, and the store then holds that token for the
    -- resolved identity. Its error is that of resolving the identity, with the store as it was; or
    -- that of WithRefresh, as a missing credential exactly when the error is ErrTokenNotFound.
    pub run_with_oauth-IsOAuthRun :
        IsOAuthRun
          (run_with_oauth is_auth_error is_token_not_found inject_error store refresh provider
            resolve_identity inject inner context request s).result
          (run_with_oauth is_auth_error is_token_not_found inject_error store refresh provider
            resolve_identity inject inner context request s).store
    unfolding run_with_oauth
    run_with_oauth-IsOAuthRun = resolved-IsOAuthRun (resolve_identity context request) refl
