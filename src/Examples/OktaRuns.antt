-- ===== src/Examples/OktaRuns.antt =====
-- auth/oauth/providers/okta/okta.go: an endpoint that answers one request.
use sibyl.Prelude.{
  ℕ, ◌≡◌, ◌↔◌, refl, String, [], ◌∷◌, none, Result, ok, err, ◌==◌, false, if◌then◌else◌,
}
use sibyl.Prelude.Int.{pos}
use sibyl.Prelude.Maps.{GoMap, get}
use sibyl.Prelude.Texts.{trim_right_where}
use sibyl.Http.{HttpResponse, HttpClient}
use sibyl.OAuth.Types.{TokenPair}
use sibyl.OAuth.Fields.{AnyValue, string, int}
use sibyl.OAuth.Okta.{endpoints_of, OktaError, okta_refresh, post_form}
use sibyl.OAuth.Okta.Replies.{IsGranted, refresh_request, okta_refresh_iff}

abbrev the_client : HttpClient String
the_client = record {
  cannot_build = λ m u. none;
  send = λ request.
      if request.url == "https://okta/v1/token"
      then ok (record { status_code = 200; body = "json"; read_error = none })
      else err "no route";
}

abbrev the_reply : GoMap (AnyValue ℕ ℕ)
the_reply = ("access_token", string "new") ∷ ("expires_in", int (pos 60)) ∷ []

abbrev old_pair : TokenPair (AnyValue ℕ ℕ)
old_pair = record {
  access_token = "old";
  refresh_token = "r";
  token_type = "Bearer";
  expires_at = 1;
  scope = "";
  raw = [];
}

abbrev new_pair : TokenPair (AnyValue ℕ ℕ)
new_pair = record {
  access_token = "new";
  refresh_token = "";
  token_type = "";
  expires_at = 60000000007;
  scope = "";
  raw = the_reply;
}

abbrev refreshed : TokenPair (AnyValue ℕ ℕ) → Result (OktaError String) (TokenPair (AnyValue ℕ ℕ))
refreshed =
    okta_refresh the_client (λ form. "form") (λ body. ok the_reply) (λ n. pos n) (λ s. none) 7
      "https://okta/v1/token" "id"

endpoints_run : (endpoints_of "https://okta//").token ≡ "https://okta/v1/token"
unfolding trim_right_where
endpoints_run = refl

okta_refresh_run : refreshed old_pair ≡ ok new_pair
unfolding okta_refresh post_form get
okta_refresh_run = refl

okta_refresh_iff_example : (refreshed old_pair ≡ ok new_pair) ↔ (
    ((old_pair.refresh_token == "") ≡ false)
    × ((r : HttpResponse String) × (the_client.send
            (refresh_request (λ form. "form") "https://okta/v1/token" "id" old_pair)
          ≡ ok r)
        × IsGranted {F = String} (λ body. ok the_reply) (λ n. pos n) (λ s. none) 7 r new_pair))
okta_refresh_iff_example =
    okta_refresh_iff the_client (λ form. "form") (λ body. ok the_reply) (λ n. pos n) (λ s. none) 7
      "https://okta/v1/token" "id" old_pair new_pair refl
