-- ===== src/OAuth/Current.antt =====
-- The session that CurrentSession of auth/oauth/flow.go returns.
use sibyl.Prelude.{
  ℕ, ◌≡◌, ◌⊎◌, refl, sym, ap, ◌∙◌, String, Bool, true, false, Result, ok-inj, err-ne-ok, ok, err,
  if◌then◌else◌, inl, inr, Bool-cases,
}
use sibyl.Prelude.Int.{ℤ}
use sibyl.OAuth.Types.{TokenPair, Identity, Session}
use sibyl.OAuth.Refresh.{
  TokenStore, IsLawful, Run, no_refresh_arrow, save_session, renew_session, needs_refresh,
  session_from, current_session,
}

module _ {S A F : Type 0} (tokens : TokenStore S A F) (is_auth_error : F → Bool)
    (refresh : TokenPair A → Result F (TokenPair A)) (identity : Identity A) (provider : String)
    (has_refresh : Bool) (leeway : ℤ) (checked_at again_at issued_at : ℕ) (s : S) where
  abbrev wants_refresh : TokenPair A → Bool
  wants_refresh =
      needs_refresh tokens is_auth_error refresh identity provider has_refresh leeway checked_at
        again_at issued_at

  -- The session of a token that the store holds.
  abbrev pub IsCurrent : Session A → S → Type 0
  IsCurrent v after =
      (v.identity ≡ identity)
      × (v.expires_at ≡ v.token.expires_at)
      × (tokens.get after identity provider ≡ ok v.token)
      × ((after ≡ s) × (wants_refresh v.token ≡ false)
          ⊎ ((old : TokenPair A) × (tokens.get s identity provider ≡ ok old)
              × (wants_refresh old ≡ true)
              × (has_refresh ≡ true)
              × (refresh old ≡ ok v.token)))

  abbrev IsCurrentRun : Run S F (Session A) → Type 0
  IsCurrentRun r = (v : Session A) → r.result ≡ ok v → IsCurrent v r.store

  module _ (law : IsLawful tokens) where
    saved-IsCurrent :
        (r : Result F S) (old fresh : TokenPair A)
        → tokens.put s identity provider fresh ≡ r
        → tokens.get s identity provider ≡ ok old
        → wants_refresh old ≡ true
        → has_refresh ≡ true
        → refresh old ≡ ok fresh
        → IsCurrentRun (
            save_session tokens is_auth_error refresh identity provider has_refresh leeway
              checked_at again_at issued_at s fresh r)
    saved-IsCurrent (err x) old fresh put got wants has renewed = λ v h. err-ne-ok h
    saved-IsCurrent (ok s') old fresh put got wants has renewed = λ v h.
        let e = ok-inj h in
        (
          ap (λ (w : Session A). w.identity) (sym e),
          ap (λ (w : Session A). w.expires_at) (sym e)
              ∙ ap (λ (w : Session A). w.token.expires_at) e,
          law s s' identity provider fresh put ∙ ap (λ (w : Session A). ok w.token) e,
          inr (old, got, wants, has, renewed ∙ ap (λ (w : Session A). ok w.token) e),
        )

    renewed-IsCurrent :
        (r : Result F (TokenPair A)) (old : TokenPair A)
        → refresh old ≡ r
        → tokens.get s identity provider ≡ ok old
        → wants_refresh old ≡ true
        → has_refresh ≡ true
        → IsCurrentRun (
            renew_session tokens is_auth_error refresh identity provider has_refresh leeway
              checked_at again_at issued_at s r)
    renewed-IsCurrent (err x) old tried got wants has = λ v h. err-ne-ok h
    renewed-IsCurrent (ok fresh) old tried got wants has =
        saved-IsCurrent (tokens.put s identity provider fresh) old fresh refl got wants has tried

    choice-IsCurrent :
        (has : Bool)
        → has_refresh ≡ has
        → (t : TokenPair A) → tokens.get s identity provider ≡ ok t
        → wants_refresh t ≡ true
        → IsCurrentRun (
            if has
            then renew_session tokens is_auth_error refresh identity provider has_refresh leeway
                checked_at again_at issued_at s
                (refresh t)
            else record { result = err no_refresh_arrow; store = s })
    choice-IsCurrent false e t got stale = λ v h. err-ne-ok h
    choice-IsCurrent true e t got stale = renewed-IsCurrent (refresh t) t refl got stale e

    loaded-IsCurrent :
        (r : Result F (TokenPair A))
        → tokens.get s identity provider ≡ r
        → IsCurrentRun (
            session_from tokens is_auth_error refresh identity provider has_refresh leeway
              checked_at again_at issued_at s r)
    loaded-IsCurrent (err x) got = λ v h. err-ne-ok h
    loaded-IsCurrent (ok t) got = elim (Bool-cases (wants_refresh t)) [
      | inr fresh_enough ↦ rw fresh_enough (λ v h.
          let e = ok-inj h in
          (
            ap (λ (w : Session A). w.identity) (sym e),
            ap (λ (w : Session A). w.expires_at) (sym e)
                ∙ ap (λ (w : Session A). w.token.expires_at) e,
            got ∙ ap (λ (w : Session A). ok w.token) e,
            inl (refl, ap (λ (w : Session A). wants_refresh w.token) (sym e) ∙ fresh_enough),
          ))
      | inl stale ↦ rw stale (choice-IsCurrent has_refresh refl t got stale)
    ]

    -- If CurrentSession succeeds over a store that gives back what was put, then the session is that
    -- of the token the store holds afterwards: the token that was there, when it needs no refresh,
    -- or else the one that the refresh of it gave.
    pub current_session-IsCurrent :
        (v : Session A)
        → (current_session tokens is_auth_error refresh identity provider has_refresh leeway
            checked_at again_at issued_at s).result
          ≡ ok v
        → IsCurrent v
            (current_session tokens is_auth_error refresh identity provider has_refresh leeway
              checked_at again_at issued_at s).store
    unfolding current_session
    current_session-IsCurrent = loaded-IsCurrent (tokens.get s identity provider) refl
