-- ===== src/OAuth/Okta/Replies.antt =====
-- auth/oauth/providers/okta/okta.go: what the replies of the token endpoint become.
use sibyl.Prelude.{
  ℕ, ◌≤◌, ◌<◌, ◌≡◌, ◌↔◌, refl, sym, ap, ◌∙◌, String, true, false, [], ◌∷◌, Option, none, Result,
  Result-cases, ok, err, ok-inj, err-ne-ok, ◌==◌, nat_eq, inl, inr, Bool-cases, arith,
}
use sibyl.Prelude.Int.{ℤ}
use sibyl.Prelude.Maps.{GoMap}
use sibyl.Http.{HttpRequest, HttpResponse, HttpClient, is_success}
use sibyl.OAuth.Types.{TokenPair}
use sibyl.OAuth.Fields.{AnyValue, string_field, number_field, expiry_after}
use sibyl.OAuth.Okta.{no_refresh_token, read_token, post_form, okta_refresh}

module _ {N O F : Type 0} (decode : String → Result F (GoMap (AnyValue N O))) (truncate : N → ℤ)
    (atoi : String → Option ℤ) where
  -- A reply in the 200s, whose body is JSON with an access token: the pair is read from it.
  abbrev pub IsGranted : ℕ → HttpResponse F → TokenPair (AnyValue N O) → Type 0
  IsGranted now r t =
      (200 ≤ r.status_code)
      × (r.status_code < 300)
      × ((raw : GoMap (AnyValue N O)) × (decode r.body ≡ ok raw)
          × ((string_field raw "access_token" == "") ≡ false)
          × (record {
            access_token = string_field raw "access_token";
            refresh_token = string_field raw "refresh_token";
            token_type = string_field raw "token_type";
            expires_at = expiry_after now (number_field truncate atoi raw "expires_in");
            scope = string_field raw "scope";
            raw = raw;
          }
              ≡ t))

  success-le : (n : ℕ) → is_success n ≡ true → 200 ≤ n
  success-le n h = ground (arith, h)

  success-lt : (n : ℕ) → is_success n ≡ true → n < 300
  success-lt n h = ground (arith, h)

  success-of_bounds : (n : ℕ) → 200 ≤ n → n < 300 → is_success n ≡ true
  success-of_bounds n h k = ground (arith, h, k)

  read_token-IsGranted :
      (now : ℕ) (r : HttpResponse F) (t : TokenPair (AnyValue N O))
      → read_token decode truncate atoi now r ≡ ok t
      → IsGranted now r t
  read_token-IsGranted now r t h = elim (Bool-cases (nat_eq r.status_code 401)) [
    | inl refused ↦ err-ne-ok (rw refused at h)
    | inr other ↦ elim (Bool-cases (is_success r.status_code)) [
      | inr failed ↦ err-ne-ok (rw (other, failed) at h)
      | inl success ↦ elim (Result-cases (decode r.body)) [
        | inl (e, unreadable) ↦ err-ne-ok (rw (other, success, unreadable) at h)
        | inr (raw, decoded) ↦ elim (Bool-cases (string_field raw "access_token" == "")) [
          | inl missing ↦ err-ne-ok (rw (other, success, decoded, missing) at h)
          | inr present ↦ (
            success-le r.status_code success,
            success-lt r.status_code success,
            (raw, decoded, present, ok-inj (rw (other, success, decoded, present) at h)),
          )
        ]
      ]
    ]
  ]

  success-ne-refused : (n : ℕ) → is_success n ≡ true → nat_eq n 401 ≡ false
  success-ne-refused n h = ground (arith, h)

  IsGranted-read_token :
      (now : ℕ) (r : HttpResponse F) (t : TokenPair (AnyValue N O))
      → IsGranted now r t
      → read_token decode truncate atoi now r ≡ ok t
  IsGranted-read_token now r t (low, high, (raw, decoded, present, same)) =
      let success = success-of_bounds r.status_code low high in
      rw (success-ne-refused r.status_code success, success, decoded, present) (ap ok same)

-- A form with the client and the refresh token of the pair, posted to the token endpoint.
abbrev pub refresh_request :
    {A : Type 0} → (GoMap String → String) → String → String → TokenPair A → HttpRequest
refresh_request encode endpoint client_id t = record {
  method = "POST";
  url = endpoint;
  headers =
      ("Content-Type", "application/x-www-form-urlencoded") ∷ ("Accept", "application/json") ∷ [];
  body = encode (
      ("grant_type", "refresh_token")
      ∷ ("client_id", client_id)
      ∷ ("refresh_token", t.refresh_token)
      ∷ []);
}

module _ {N O F : Type 0} (client : HttpClient F) (encode : GoMap String → String)
    (decode : String → Result F (GoMap (AnyValue N O))) (truncate : N → ℤ)
    (atoi : String → Option ℤ) (now : ℕ) (endpoint client_id : String) where
  okta_refresh-ok :
      (t t' : TokenPair (AnyValue N O))
      → client.cannot_build "POST" endpoint ≡ none
      → okta_refresh client encode decode truncate atoi now endpoint client_id t ≡ ok t'
      → ((t.refresh_token == "") ≡ false)
        × ((r : HttpResponse F) × (client.send (refresh_request encode endpoint client_id t) ≡ ok r)
            × IsGranted decode truncate atoi now r t')
  unfolding okta_refresh post_form
  okta_refresh-ok t t' buildable h = elim (Bool-cases (t.refresh_token == "")) [
    | inl nothing ↦ err-ne-ok (rw nothing at h)
    | inr present ↦
        elim (Result-cases (client.send (refresh_request encode endpoint client_id t))) [
          | inl (e, failed) ↦ err-ne-ok (rw (present, buildable, failed) at h)
          | inr (r, sent) ↦ (
            present,
            (
              r,
              sent,
              read_token-IsGranted decode truncate atoi now r t'
                  (rw (present, buildable, sent) at h),
            ),
          )
        ]
  ]

  -- Where requests can be built: Refresh succeeds exactly for a pair with a refresh token whose request,
  -- the form with that refresh token, the token endpoint answers in the 200s, with JSON that has an
  -- access token. The new pair holds the fields of the reply, with the expiry that `expiry_after`
  -- computes from now and its expires_in.
  pub okta_refresh_iff :
      (t t' : TokenPair (AnyValue N O))
      → client.cannot_build "POST" endpoint ≡ none
      → (okta_refresh client encode decode truncate atoi now endpoint client_id t ≡ ok t') ↔ (
          ((t.refresh_token == "") ≡ false)
          × ((r : HttpResponse F) × (client.send (refresh_request encode endpoint client_id t)
                ≡ ok r)
              × IsGranted decode truncate atoi now r t'))
  unfolding okta_refresh post_form
  okta_refresh_iff t t' buildable = (
    okta_refresh-ok t t' buildable,
    λ (present, (r, sent, granted)).
        rw (present, buildable, sent) (IsGranted-read_token decode truncate atoi now r t' granted),
  )

  -- A reply without a refresh token leaves the new pair without one, and the next Refresh fails.
  pub okta_refresh-okta_refresh :
      (t t' : TokenPair (AnyValue N O)) (r : HttpResponse F) (raw : GoMap (AnyValue N O))
      → client.cannot_build "POST" endpoint ≡ none
      → client.send (refresh_request encode endpoint client_id t) ≡ ok r
      → decode r.body ≡ ok raw
      → string_field raw "refresh_token" ≡ ""
      → okta_refresh client encode decode truncate atoi now endpoint client_id t ≡ ok t'
      → okta_refresh client encode decode truncate atoi now endpoint client_id t'
        ≡ err no_refresh_token
  unfolding okta_refresh
  okta_refresh-okta_refresh t t' r raw buildable sent decoded omitted h =
      let (present, (r', sent', (low, high, (raw', decoded', given, same)))) =
        okta_refresh-ok t t' buildable h in
      let same_reply = ok-inj (sym sent ∙ sent') in
      let same_raw = ok-inj (sym decoded ∙ ap (λ x. decode x.body) same_reply ∙ decoded') in
      let none_left : t'.refresh_token ≡ "" =
        sym (ap (λ x. x.refresh_token) same)
        ∙ ap (λ m. string_field m "refresh_token") (sym same_raw)
        ∙ omitted in
      rw none_left refl
