-- ===== src/OAuth/Refresh.antt =====
-- auth/oauth/flow.go: WithRefresh and CurrentSession, over any token store.
use sibyl.Prelude.{
  ℕ, ◌≡◌, ◌⊎◌, refl, ap, ◌∙◌, String, Bool, true, Result, Result-cases, ok-inj, err-ne-ok, ok, err,
  map_err, if◌then◌else◌, inl, inr, Bool-cases,
}
use sibyl.Prelude.Int.{ℤ}
use sibyl.OAuth.Types.{TokenPair, Identity, Session, is_expired, is_expiring_within}

-- The interface `TokenStore`, of which this code calls two methods; `S` is what the store holds.
pub record TokenStore (S A F : Type 0) : Type 0 where
  pub get : S → Identity A → String → Result F (TokenPair A)
  pub put : S → Identity A → String → TokenPair A → Result F S

-- The store gives back what was put.
abbrev pub IsLawful : {S A F : Type 0} → TokenStore S A F → Type 0
IsLawful {S = S} {A = A} store =
    (s s' : S) (i : Identity A) (p : String) (t : TokenPair A)
    → store.put s i p t ≡ ok s'
    → store.get s' i p ≡ ok t

pub data RefreshError (F : Type 0) : Type 0 where
  load_failed call_failed refresh_failed save_failed retry_failed : F → RefreshError F
  no_refresh_arrow : RefreshError F

-- What a run returns and what the store holds after it.
pub record Run (S F O : Type 0) : Type 0 where
  pub result : Result (RefreshError F) O
  pub store : S

module _ {S A F : Type 0} (tokens : TokenStore S A F) (is_auth_error : F → Bool)
    (refresh : TokenPair A → Result F (TokenPair A)) (identity : Identity A)
    (provider : String) where
  module _ {O : Type 0} (call : ℕ → TokenPair A → Result F O) where
    -- `call` is the call with its input; its number is 1, or 2 for the retry.
    abbrev retry : Result F S → S → TokenPair A → Run S F O
    retry (err e) s fresh = record { result = err (save_failed e); store = s }
    retry (ok s') s fresh = record { result = map_err retry_failed (call 2 fresh); store = s' }

    abbrev renew : S → Result F (TokenPair A) → Run S F O
    renew s (err e) = record { result = err (refresh_failed e); store = s }
    renew s (ok fresh) = retry (tokens.put s identity provider fresh) s fresh

    abbrev first_call : S → TokenPair A → Result F O → Run S F O
    first_call s t (ok o) = record { result = ok o; store = s }
    first_call s t (err e) =
        let renewed = renew s (refresh t) in
        if is_auth_error e then renewed else record { result = err (call_failed e); store = s }

    abbrev loaded : S → Result F (TokenPair A) → Run S F O
    loaded s (err e) = record { result = err (load_failed e); store = s }
    loaded s (ok t) = first_call s t (call 1 t)

    unfoldable pub with_refresh : S → Run S F O
    with_refresh s = loaded s (tokens.get s identity provider)

  module _ (has_refresh : Bool) (leeway : ℤ) (checked_at again_at issued_at : ℕ) where
    abbrev pub session_of : TokenPair A → Session A
    session_of t = record {
      identity = identity;
      token = t;
      issued_at = issued_at;
      expires_at = t.expires_at;
    }

    abbrev pub save_session : S → TokenPair A → Result F S → Run S F (Session A)
    save_session s fresh (err e) = record { result = err (save_failed e); store = s }
    save_session s fresh (ok s') = record { result = ok (session_of fresh); store = s' }

    abbrev pub renew_session : S → Result F (TokenPair A) → Run S F (Session A)
    renew_session s (err e) = record { result = err (refresh_failed e); store = s }
    renew_session s (ok fresh) = save_session s fresh (tokens.put s identity provider fresh)

    abbrev pub needs_refresh : TokenPair A → Bool
    needs_refresh t = if is_expired checked_at t then true else is_expiring_within again_at leeway t

    abbrev pub session_from : S → Result F (TokenPair A) → Run S F (Session A)
    session_from s (err e) = record { result = err (load_failed e); store = s }
    session_from s (ok t) =
        let renewed = renew_session s (refresh t) in
        if needs_refresh t
        then (if has_refresh then renewed else record { result = err no_refresh_arrow; store = s })
        else record { result = ok (session_of t); store = s }

    unfoldable pub current_session : S → Run S F (Session A)
    current_session s = session_from s (tokens.get s identity provider)

  module _ {O : Type 0} (call : ℕ → TokenPair A → Result F O) (s : S) where
    -- How a run succeeds: with the token at hand, or after one refresh.
    abbrev pub IsAnswer : O → S → Type 0
    IsAnswer o after =
        (t : TokenPair A) × (tokens.get after identity provider ≡ ok t)
        × ((after ≡ s) × (call 1 t ≡ ok o)
            ⊎ (call 2 t ≡ ok o)
              × ((old : TokenPair A) × (e : F) × (tokens.get s identity provider ≡ ok old)
                  × (call 1 old ≡ err e)
                  × (is_auth_error e ≡ true)
                  × (refresh old ≡ ok t)))

    abbrev IsAnswered : Run S F O → Type 0
    IsAnswered r = (o : O) → r.result ≡ ok o → IsAnswer o r.store

    module _ (law : IsLawful tokens) where
      retry-IsAnswered :
          (r : Result F S) (old fresh : TokenPair A) (e : F)
          → tokens.put s identity provider fresh ≡ r
          → tokens.get s identity provider ≡ ok old
          → call 1 old ≡ err e
          → is_auth_error e ≡ true
          → refresh old ≡ ok fresh
          → IsAnswered (retry call r s fresh)
      retry-IsAnswered (err x) old fresh e put got refused auth renewed = λ o h. err-ne-ok h
      retry-IsAnswered (ok s') old fresh e put got refused auth renewed =
          elim (Result-cases (call 2 fresh)) [
            | inl (x, failed) ↦ λ o h. err-ne-ok (rw failed at h)
            | inr (o', done) ↦ λ o h.
                let same = ok-inj (rw done at h) in
                (
                  fresh,
                  law s s' identity provider fresh put,
                  inr (done ∙ ap ok same, (old, e, got, refused, auth, renewed)),
                )
          ]

      renew-IsAnswered :
          (r : Result F (TokenPair A)) (old : TokenPair A) (e : F)
          → refresh old ≡ r
          → tokens.get s identity provider ≡ ok old
          → call 1 old ≡ err e
          → is_auth_error e ≡ true
          → IsAnswered (renew call s r)
      renew-IsAnswered (err x) old e tried got refused auth = λ o h. err-ne-ok h
      renew-IsAnswered (ok fresh) old e tried got refused auth =
          retry-IsAnswered (tokens.put s identity provider fresh) old fresh e refl got refused auth
            tried

      first_call-IsAnswered :
          (r : Result F O) (t : TokenPair A)
          → call 1 t ≡ r
          → tokens.get s identity provider ≡ ok t
          → IsAnswered (first_call call s t r)
      first_call-IsAnswered (ok o') t called got =
          λ o h. (t, got, inl (refl, called ∙ ap ok (ok-inj h)))
      first_call-IsAnswered (err e) t called got = elim (Bool-cases (is_auth_error e)) [
        | inr other ↦ rw other (λ o h. err-ne-ok h)
        | inl auth ↦ rw auth (renew-IsAnswered (refresh t) t e refl got called auth)
      ]

      loaded-IsAnswered :
          (r : Result F (TokenPair A))
          → tokens.get s identity provider ≡ r
          → IsAnswered (loaded call s r)
      loaded-IsAnswered (err x) got = λ o h. err-ne-ok h
      loaded-IsAnswered (ok t) got = first_call-IsAnswered (call 1 t) t refl got

    -- If WithRefresh succeeds over a store that gives back what was put, then the store afterwards
    -- holds the very token the successful call was made with: the token that was there, or the one
    -- that one refresh gave after the first call was refused with an authentication error.
    pub with_refresh-IsAnswer :
        IsLawful tokens
        → (o : O) → (with_refresh call s).result ≡ ok o
        → IsAnswer o (with_refresh call s).store
    unfolding with_refresh
    with_refresh-IsAnswer law = loaded-IsAnswered law (tokens.get s identity provider) refl
