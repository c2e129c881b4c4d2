-- ===== src/OAuth/Okta.antt =====
-- auth/oauth/providers/okta/okta.go: NewProvider and its arrows. The HTTP client, encoding/json and
-- url.Values.Encode are parameters; a form is a map, which is written out sorted by its keys.
pub mod Replies
use sibyl.Prelude.{
  ℕ, suc, ◌+◌, ◌-◌, ◌*◌, ◌%◌, String, Bool, false, List, [], ◌∷◌, Option, none, some, Result, ok,
  err, ◌>>=◌, ◌>>◌, fail_if, map_err, if◌then◌else◌, ◌==◌, not, ◌&&◌, ◌||◌, leb, ltb, nat_eq,
}
use sibyl.Prelude.Int.{ℤ, pos, negsuc}
use sibyl.Prelude.Maps.{GoMap, get, put}
use sibyl.Prelude.Texts.{joined, join, trim_right_char}
use sibyl.Http.{HttpRequest, HttpResponse, HttpClient, is_success}
use sibyl.OAuth.Fields.{AnyValue, string_field, number_field, expiry_after}
use sibyl.OAuth.Types.{
  AuthRequest, AuthorizeRedirect, ExchangeRequest, TokenPair, Identity, Provider,
}

pub record OktaConfig : Type 0 where
  pub client_id : String
  pub issuer : String

pub data OktaError (F : Type 0) : Type 0 where
  client_id_required issuer_required no_refresh_token : OktaError F
  build_failed http_failed parse_failed : F → OktaError F
  authentication_error : (status : ℕ) (body : String) → OktaError F
  bad_status : (status : ℕ) (body : String) → OktaError F
  missing_access_token missing_sub : OktaError F

pub record Endpoints : Type 0 where
  pub authorize : String
  pub token : String
  pub user_info : String
  pub revoke : String

abbrev pub endpoints_of : String → Endpoints
endpoints_of issuer =
    let base = trim_right_char "/" issuer in
    record {
      authorize = joined base "/v1/authorize";
      token = joined base "/v1/token";
      user_info = joined base "/v1/userinfo";
      revoke = joined base "/v1/revoke";
    }

-- `now` is the reading of the clock when the reply has been read.
abbrev pub token_pair :
    {N O : Type 0}
    → (N → ℤ)
    → (String → Option ℤ)
    → ℕ
    → GoMap (AnyValue N O)
    → TokenPair (AnyValue N O)
token_pair truncate atoi now raw = record {
  access_token = string_field raw "access_token";
  refresh_token = string_field raw "refresh_token";
  token_type = string_field raw "token_type";
  expires_at = expiry_after now (number_field truncate atoi raw "expires_in");
  scope = string_field raw "scope";
  raw = raw;
}

module _ {N O F : Type 0} (decode : String → Result F (GoMap (AnyValue N O))) where
  abbrev pub read_identity : HttpResponse F → Result (OktaError F) (Identity (AnyValue N O))
  read_identity r = do
    fail_if (nat_eq r.status_code 401 || nat_eq r.status_code 403)
        (authentication_error r.status_code r.body)
    fail_if (not (is_success r.status_code)) (bad_status r.status_code r.body)
    raw ← map_err parse_failed (decode r.body)
    fail_if (string_field raw "sub" == "") missing_sub
    ok (record {
      canonical = joined "okta:" (string_field raw "sub");
      provider = "okta";
      provider_id = string_field raw "sub";
      email = string_field raw "email";
      display_name = string_field raw "name";
      raw = raw;
    })

  module _ (truncate : N → ℤ) (atoi : String → Option ℤ) where
    abbrev pub read_token : ℕ → HttpResponse F → Result (OktaError F) (TokenPair (AnyValue N O))
    read_token now r = do
      fail_if (nat_eq r.status_code 401) (authentication_error r.status_code r.body)
      fail_if (not (is_success r.status_code)) (bad_status r.status_code r.body)
      raw ← map_err parse_failed (decode r.body)
      fail_if (string_field raw "access_token" == "") missing_access_token
      ok (token_pair truncate atoi now raw)

abbrev pub unless_unbuilt : {F : Type 0} → Option F → HttpRequest → Result (OktaError F) HttpRequest
unless_unbuilt none request = ok request
unless_unbuilt (some e) request = err (build_failed e)

abbrev pub error_of : {F R : Type 0} → Result (OktaError F) R → Option (OktaError F)
error_of (ok r) = none
error_of (err e) = some e

abbrev pub exchange_form : String → ExchangeRequest → GoMap String
exchange_form client_id i =
    ("grant_type", "authorization_code")
    ∷ ("client_id", client_id)
    ∷ ("code", i.code.code)
    ∷ ("code_verifier", i.code_verifier)
    ∷ ("redirect_uri", i.redirect_uri)
    ∷ []

abbrev pub refresh_form : {A : Type 0} → String → TokenPair A → GoMap String
refresh_form client_id t =
    ("grant_type", "refresh_token")
    ∷ ("client_id", client_id)
    ∷ ("refresh_token", t.refresh_token)
    ∷ []

abbrev pub revoke_form : {A : Type 0} → String → TokenPair A → GoMap String
revoke_form client_id t =
    ("client_id", client_id) ∷ ("token", t.access_token) ∷ ("token_type_hint", "access_token") ∷ []

abbrev pub authorize_query : String → AuthRequest → GoMap String
authorize_query client_id i =
    ("client_id", client_id)
    ∷ ("response_type", "code")
    ∷ ("redirect_uri", i.redirect_uri)
    ∷ ("scope", join " " i.scopes)
    ∷ ("state", i.state)
    ∷ ("code_challenge", i.code_challenge)
    ∷ ("code_challenge_method", "S256")
    ∷ []

module _ (encode : GoMap String → String) where
  abbrev pub post : String → GoMap String → GoMap String → HttpRequest
  post url headers form = record {
    method = "POST";
    url = url;
    headers = headers;
    body = encode form;
  }

  abbrev pub okta_authorize : String → String → AuthRequest → AuthorizeRedirect
  okta_authorize endpoint client_id i = record {
    url = joined endpoint (joined "?" (encode (authorize_query client_id i)));
    state = i.state;
    code_verifier = i.code_verifier;
  }

module _ {N O F : Type 0} (client : HttpClient F) (encode : GoMap String → String)
    (decode : String → Result F (GoMap (AnyValue N O))) (truncate : N → ℤ)
    (atoi : String → Option ℤ) where
  abbrev pub built : String → String → HttpRequest → Result (OktaError F) HttpRequest
  built method url request = unless_unbuilt (client.cannot_build method url) request

  unfoldable pub post_form :
      ℕ → String → GoMap String → Result (OktaError F) (TokenPair (AnyValue N O))
  post_form now endpoint form = do
    request ← built "POST" endpoint (
        post encode endpoint
          (("Content-Type", "application/x-www-form-urlencoded")
            ∷ ("Accept", "application/json")
            ∷ [])
          form)
    r ← map_err http_failed (client.send request)
    read_token decode truncate atoi now r

  unfoldable pub okta_exchange :
      ℕ → String → String → ExchangeRequest → Result (OktaError F) (TokenPair (AnyValue N O))
  okta_exchange now endpoint client_id i = post_form now endpoint (exchange_form client_id i)

  unfoldable pub okta_refresh :
      ℕ
      → String
      → String
      → TokenPair (AnyValue N O)
      → Result (OktaError F) (TokenPair (AnyValue N O))
  okta_refresh now endpoint client_id t = do
    fail_if (t.refresh_token == "") no_refresh_token
    post_form now endpoint (refresh_form client_id t)

  unfoldable pub okta_whoami :
      String → TokenPair (AnyValue N O) → Result (OktaError F) (Identity (AnyValue N O))
  okta_whoami endpoint t = do
    request ← built "GET" endpoint (record {
      method = "GET";
      url = endpoint;
      headers =
          ("Authorization", joined "Bearer " t.access_token) ∷ ("Accept", "application/json") ∷ [];
      body = "";
    })
    r ← map_err http_failed (client.send request)
    read_identity decode r

  abbrev pub okta_revoke :
      String → String → TokenPair (AnyValue N O) → Result (OktaError F) (Unit {0})
  okta_revoke endpoint client_id t = do
    request ← built "POST" endpoint (
        post encode endpoint (("Content-Type", "application/x-www-form-urlencoded") ∷ [])
          (revoke_form client_id t))
    r ← map_err http_failed (client.send request)
    fail_if (not (is_success r.status_code)) (bad_status r.status_code r.body)

  unfoldable pub new_okta_provider :
      ℕ → OktaConfig → Result (OktaError F) (Provider (AnyValue N O) (OktaError F))
  new_okta_provider now cfg = do
    fail_if (cfg.client_id == "") client_id_required
    fail_if (cfg.issuer == "") issuer_required
    let endpoints = endpoints_of cfg.issuer
    ok (record {
      name = "okta";
      authorize = λ i. ok (okta_authorize encode endpoints.authorize cfg.client_id i);
      exchange = okta_exchange now endpoints.token cfg.client_id;
      refresh = okta_refresh now endpoints.token cfg.client_id;
      whoami = okta_whoami endpoints.user_info;
      revoke = some (λ t. error_of (okta_revoke endpoints.revoke cfg.client_id t));
    })
