-- ===== src/OAuth/Performed.antt =====
-- auth/oauth/activities.go: NewActivities, Exchange, Whoami and StoreTokens, and OAuthFlowWorkflow run on
-- them. The stores are what they hold, by their keys, with one implementation of the interface.
use sibyl.Prelude.{
  ℕ, ◌≡◌, refl, ◌∙◌, String, [], Option, none, some, Option-cases, Result, Result-cases, ok, err,
  err-ne-ok, ◌>>=◌, map_err, map_err-ok, inl, inr, eq_refl,
}
use sibyl.Prelude.Maps.{GoMap, get, put, get-put}
use sibyl.OAuth.Types.{AuthCode, TokenPair, Identity, Session, ExchangeRequest, Provider}
use sibyl.OAuth.Refresh.{TokenStore, IsLawful}
use sibyl.OAuth.Flow.{
  ExchangeActivityInput, WhoamiActivityInput, StoreTokensActivityInput, OAuthFlowInput,
  OAuthFlowError, oauth_flow, oauth_flow-IsExchanged,
}

-- `configuration_error` is not retried; it has the name that is not registered.
pub data ActivityFailure (F : Type 0) : Type 0 where
  configuration_error : String → ActivityFailure F
  provider_failed store_failed : F → ActivityFailure F

-- A map that is nil is `none`.
abbrev pub or_empty : {V : Type 0} → Option (GoMap V) → GoMap V
or_empty none = []
or_empty (some m) = m

abbrev pub or_unconfigured : {F T : Type 0} → String → Option T → Result (ActivityFailure F) T
or_unconfigured name none = err (configuration_error name)
or_unconfigured name (some t) = ok t

-- What the workflow gets of an activity that returns only an error.
abbrev pub done : {E S : Type 0} → Result E S → Result E (Unit {0})
done (ok stores) = ok tt
done (err e) = err e

abbrev pub code_request : ExchangeActivityInput → ExchangeRequest
code_request i = record {
  code = i.code;
  code_verifier = i.code_verifier;
  redirect_uri = i.redirect_uri;
}

module _ {A F : Type 0} (providers : GoMap (Provider A F)) where
  unfoldable pub exchange_activity :
      ExchangeActivityInput → Result (ActivityFailure F) (TokenPair A)
  exchange_activity i = do
    p ← or_unconfigured i.provider (get providers i.provider)
    map_err provider_failed (p.exchange (code_request i))

  unfoldable pub whoami_activity : WhoamiActivityInput A → Result (ActivityFailure F) (Identity A)
  whoami_activity i = do
    p ← or_unconfigured i.provider (get providers i.provider)
    map_err provider_failed (p.whoami i.tokens)

module _ {S A F : Type 0} (tokens : TokenStore S A F) where
  unfoldable pub store_activity :
      GoMap S → StoreTokensActivityInput A → Result (ActivityFailure F) (GoMap S)
  store_activity stores i = do
    s ← or_unconfigured i.store_key (get stores i.store_key)
    after ← map_err store_failed (tokens.put s i.identity i.provider i.tokens)
    ok (put stores i.store_key after)

module _ {S A F : Type 0} (tokens : TokenStore S A F) (providers : GoMap (Provider A F))
    (stores : GoMap S) where
  -- The workflow whose activities are those of the worker.
  abbrev pub performed :
      ℕ → OAuthFlowInput → Option AuthCode → Result (OAuthFlowError (ActivityFailure F)) (Session A)
  performed =
      oauth_flow (exchange_activity providers) (whoami_activity providers)
        (λ i. done (store_activity tokens stores i))

  abbrev pub stored_input : OAuthFlowInput → Session A → StoreTokensActivityInput A
  stored_input i v = record {
    store_key = i.store_key;
    identity = v.identity;
    provider = i.provider;
    tokens = v.token;
  }

  exchange_activity-ok :
      (i : ExchangeActivityInput) (t : TokenPair A)
      → exchange_activity providers i ≡ ok t
      → (p : Provider A F) × ((get providers i.provider ≡ some p)
          × (p.exchange (code_request i) ≡ ok t))
  unfolding exchange_activity
  exchange_activity-ok i t h = elim (Option-cases (get providers i.provider)) [
    | inl unknown ↦ err-ne-ok (rw unknown at h)
    | inr (p, known) ↦
        (p, (known, map_err-ok provider_failed (p.exchange (code_request i)) t (rw known at h)))
  ]

  whoami_activity-ok :
      (i : WhoamiActivityInput A) (p : Provider A F) (who : Identity A)
      → get providers i.provider ≡ some p
      → whoami_activity providers i ≡ ok who
      → p.whoami i.tokens ≡ ok who
  unfolding whoami_activity
  whoami_activity-ok i p who known h =
      map_err-ok provider_failed (p.whoami i.tokens) who (rw known at h)

  -- A store that took the token, and gives it back.
  abbrev pub IsStored : StoreTokensActivityInput A → GoMap S → Type 0
  IsStored i after =
      (s : S) × ((get after i.store_key ≡ some s)
        × (tokens.get s i.identity i.provider ≡ ok i.tokens))

  store_activity-IsStored :
      IsLawful tokens
      → (i : StoreTokensActivityInput A) → done (store_activity tokens stores i) ≡ ok tt
      → (after : GoMap S) × ((store_activity tokens stores i ≡ ok after) × IsStored i after)
  unfolding store_activity
  store_activity-IsStored lawful i h = elim (Option-cases (get stores i.store_key)) [
    | inl unknown ↦ err-ne-ok (rw unknown at h)
    | inr (s, known) ↦ elim (Result-cases (tokens.put s i.identity i.provider i.tokens)) [
      | inl (e, failed) ↦ err-ne-ok (rw (known, failed) at h)
      | inr (s', saved) ↦ (
        put stores i.store_key s',
        (
          rw (known, saved) refl,
          (
            s',
            (
              get-put stores i.store_key i.store_key s' ∙ rw (eq_refl i.store_key) refl,
              lawful s s' i.identity i.provider i.tokens saved,
            ),
          ),
        ),
      )
    ]
  ]

  -- The callback had the state of the flow, the registered provider exchanged its code under the
  -- flow's verifier and named the identity, and the store of the flow's key has the token afterwards.
  abbrev pub IsPerformed : OAuthFlowInput → Option AuthCode → Session A → Type 0
  IsPerformed i callback v =
      (code : AuthCode) × ((callback ≡ some code)
        × ((code.state ≡ i.state)
            × ((p : Provider A F) × ((get providers i.provider ≡ some p)
                  × ((p.exchange (record {
                    code = code;
                    code_verifier = i.code_verifier;
                    redirect_uri = i.redirect_uri;
                  })
                        ≡ ok v.token)
                      × ((p.whoami v.token ≡ ok v.identity)
                          × ((after : GoMap S) × ((store_activity tokens stores (stored_input i v)
                                  ≡ ok after)
                                × IsStored (stored_input i v) after))))))))

  -- OAuthFlowWorkflow on its own activities, over a store that gives back what was put: a session comes
  -- only of a callback with the state of this flow; the registered provider exchanged its code under the
  -- flow's verifier and named the identity; and the store of the flow's key has the session's token
  -- afterwards.
  pub performed-IsStored :
      IsLawful tokens
      → (now : ℕ) (i : OAuthFlowInput) (callback : Option AuthCode) (v : Session A)
      → performed now i callback ≡ ok v
      → IsPerformed i callback v
  performed-IsStored lawful now i callback v h =
      let (code, came, complete, (same, got, known, saved)) =
        oauth_flow-IsExchanged (exchange_activity providers) (whoami_activity providers)
          (λ i. done (store_activity tokens stores i)) now i callback v h in
      let (p, (registered, given)) =
        exchange_activity-ok
          (record {
            provider = i.provider;
            code = code;
            code_verifier = i.code_verifier;
            redirect_uri = i.redirect_uri;
          })
          v.token got in
      (
        code,
        (
          came,
          (
            same,
            (
              p,
              (
                registered,
                (
                  given,
                  (
                    whoami_activity-ok (record { provider = i.provider; tokens = v.token }) p
                        v.identity registered known,
                    store_activity-IsStored lawful (stored_input i v) saved,
                  ),
                ),
              ),
            ),
          ),
        ),
      )
