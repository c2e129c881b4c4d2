-- ===== src/OAuth/Flow.antt =====
-- auth/oauth/flow.go: NewFlow; and auth/oauth/workflow.go: OAuthFlowWorkflow, whose activities are
-- functions of their inputs and whose callback, or timeout, is an argument.
use sibyl.Prelude.{
  ℕ, ◌≡◌, refl, sym, ap, ◌∙◌, String, Bool, true, false, not, Option, none, some, Result,
  Result-cases, ok-inj, err-ne-ok, ok, err, ◌>>=◌, ◌>>◌, fail_if, map_err, if◌then◌else◌, inl, inr,
  Bool-cases, ◌==◌, eq_iff,
}
use sibyl.Prelude.Int.{ℤ}
use sibyl.OAuth.Types.{AuthCode, TokenPair, Identity, Session, ExchangeRequest, Provider}
use sibyl.OAuth.Refresh.{TokenStore}

pub data FlowError (F : Type 0) : Type 0 where
  exchange_failed whoami_failed store_failed : F → FlowError F

module _ {S A F : Type 0} (tokens : TokenStore S A F) (p : Provider A F) where
  -- A nil store is `false`.
  abbrev stored : Bool → S → Identity A → TokenPair A → Result F S
  stored false s i t = ok s
  stored true s i t = tokens.put s i p.name t

  unfoldable pub new_flow : Bool → ℕ → S → ExchangeRequest → Result (FlowError F) (Session A × S)
  new_flow has_store now s i = do
    t ← map_err exchange_failed (p.exchange i)
    identity ← map_err whoami_failed (p.whoami t)
    after ← map_err store_failed (stored has_store s identity t)
    ok (
      record { identity = identity; token = t; issued_at = now; expires_at = t.expires_at },
      after,
    )

pub record OAuthFlowInput : Type 0 where
  pub provider : String
  pub state : String
  pub code_verifier : String
  pub redirect_uri : String
  pub store_key : String
  pub callback_timeout : ℤ

pub data Stage : Type 0 where
  awaiting_callback exchanging completed failed : Stage

-- `Error` of the status is left out; it repeats the error that is returned.
pub record OAuthFlowStatus : Type 0 where
  pub stage : Stage
  pub started_at : ℕ

pub record ExchangeActivityInput : Type 0 where
  pub provider : String
  pub code : AuthCode
  pub code_verifier : String
  pub redirect_uri : String

pub record WhoamiActivityInput (A : Type 0) : Type 0 where
  pub provider : String
  pub tokens : TokenPair A

pub record StoreTokensActivityInput (A : Type 0) : Type 0 where
  pub store_key : String
  pub identity : Identity A
  pub provider : String
  pub tokens : TokenPair A

pub data OAuthFlowError (F : Type 0) : Type 0 where
  invalid_input callback_timeout csrf_violation : OAuthFlowError F
  exchange_activity_failed whoami_activity_failed store_activity_failed : F → OAuthFlowError F

abbrev pub is_missing : OAuthFlowInput → Bool
is_missing i =
    if i.provider == ""
    then true
    else if i.redirect_uri == ""
    then true
    else if i.store_key == ""
    then true
    else if i.state == ""
    then true
    else i.code_verifier == ""

module _ {A F : Type 0} (exchange : ExchangeActivityInput → Result F (TokenPair A))
    (whoami : WhoamiActivityInput A → Result F (Identity A))
    (store_tokens : StoreTokensActivityInput A → Result F (Unit {0})) where
  abbrev pub exchanged : ℕ → OAuthFlowInput → AuthCode → Result (OAuthFlowError F) (Session A)
  exchanged now i code = do
    t ← map_err exchange_activity_failed (
        exchange (record {
          provider = i.provider;
          code = code;
          code_verifier = i.code_verifier;
          redirect_uri = i.redirect_uri;
        }))
    identity ←
        map_err whoami_activity_failed (whoami (record { provider = i.provider; tokens = t }))
    done ← map_err store_activity_failed (
        store_tokens (record {
          store_key = i.store_key;
          identity = identity;
          provider = i.provider;
          tokens = t;
        }))
    ok (record { identity = identity; token = t; issued_at = now; expires_at = t.expires_at })

  abbrev pub received : ℕ → OAuthFlowInput → Option AuthCode → Result (OAuthFlowError F) (Session A)
  received now i none = err callback_timeout
  received now i (some code) = do
    fail_if (not (code.state == i.state)) csrf_violation
    exchanged now i code

  -- What the workflow returns when the callback comes, or with `none` the timer fires.
  unfoldable pub oauth_flow :
      ℕ → OAuthFlowInput → Option AuthCode → Result (OAuthFlowError F) (Session A)
  oauth_flow now i callback = do fail_if (is_missing i) invalid_input; received now i callback

abbrev pub stage_of : {F R : Type 0} → Result F R → Stage
stage_of (ok r) = completed
stage_of (err e) = failed

-- The status that the query shows when the workflow has returned.
abbrev pub final_status : {F R : Type 0} → ℕ → Result F R → OAuthFlowStatus
final_status started r = record { stage = stage_of r; started_at = started }

module _ {A F : Type 0} (exchange : ExchangeActivityInput → Result F (TokenPair A))
    (whoami : WhoamiActivityInput A → Result F (Identity A))
    (store_tokens : StoreTokensActivityInput A → Result F (Unit {0})) (now : ℕ)
    (i : OAuthFlowInput) where
  abbrev to_store : Identity A → TokenPair A → StoreTokensActivityInput A
  to_store who t = record {
    store_key = i.store_key;
    identity = who;
    provider = i.provider;
    tokens = t;
  }

  -- The session of a code that was exchanged and whose token was stored.
  abbrev pub IsExchanged : AuthCode → Session A → Type 0
  IsExchanged code v =
      (code.state ≡ i.state)
      × (exchange (record {
        provider = i.provider;
        code = code;
        code_verifier = i.code_verifier;
        redirect_uri = i.redirect_uri;
      })
          ≡ ok v.token)
      × (whoami (record { provider = i.provider; tokens = v.token }) ≡ ok v.identity)
      × (store_tokens (record {
        store_key = i.store_key;
        identity = v.identity;
        provider = i.provider;
        tokens = v.token;
      })
          ≡ ok tt)

  exchanged-IsExchanged :
      (code : AuthCode) (v : Session A)
      → code.state ≡ i.state
      → exchanged exchange whoami store_tokens now i code ≡ ok v
      → IsExchanged code v
  exchanged-IsExchanged code v same h =
      let asked : ExchangeActivityInput = record {
        provider = i.provider;
        code = code;
        code_verifier = i.code_verifier;
        redirect_uri = i.redirect_uri;
      } in
      elim (Result-cases (exchange asked)) [
        | inl (x, refused) ↦ err-ne-ok (rw refused at h)
        | inr (t, got) ↦
            elim (Result-cases (whoami (record { provider = i.provider; tokens = t }))) [
              | inl (x, refused) ↦ err-ne-ok (rw (got, refused) at h)
              | inr (who, known) ↦ elim (Result-cases (store_tokens (to_store who t))) [
                | inl (x, refused) ↦ err-ne-ok (rw (got, known, refused) at h)
                | inr (done, saved) ↦
                    let e = ok-inj (rw (got, known, saved) at h) in
                    (
                      same,
                      got ∙ ap (λ (w : Session A). ok w.token) e,
                      ap
                            (λ (w : Session A).
                              whoami (record { provider = i.provider; tokens = w.token }))
                            (sym e)
                          ∙ known
                          ∙ ap (λ (w : Session A). ok w.identity) e,
                      ap (λ (w : Session A). store_tokens (to_store w.identity w.token)) (sym e)
                          ∙ saved,
                    )
              ]
            ]
      ]

  -- The workflow returns a session only for a callback that came in time with the state of this
  -- flow, and whose code the provider exchanged under the flow's own verifier; the session has the
  -- token it gave, for the identity it belongs to, and that token was stored.
  pub oauth_flow-IsExchanged :
      (callback : Option AuthCode) (v : Session A)
      → oauth_flow exchange whoami store_tokens now i callback ≡ ok v
      → (code : AuthCode) × (callback ≡ some code) × (is_missing i ≡ false) × IsExchanged code v
  unfolding oauth_flow
  oauth_flow-IsExchanged none v h = elim (Bool-cases (is_missing i)) [
    | inl missing ↦ err-ne-ok (rw missing at h)
    | inr complete ↦ err-ne-ok (rw complete at h)
  ]
  oauth_flow-IsExchanged (some code) v h = elim (Bool-cases (is_missing i)) [
    | inl missing ↦ err-ne-ok (rw missing at h)
    | inr complete ↦ elim (Bool-cases (code.state == i.state)) [
      | inr other ↦ err-ne-ok (rw (complete, other) at h)
      | inl same ↦ (
        code,
        refl,
        complete,
        exchanged-IsExchanged code v ((eq_iff code.state i.state).0 same)
            (rw (complete, same) at h),
      )
    ]
  ]
