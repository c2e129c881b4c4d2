-- ===== src/Examples/FlowRuns.antt =====
-- auth/oauth/: one flow with its activities, over a store of one token.
use sibyl.Prelude.{ℕ, refl, sym, ap, String, [], ◌∷◌, none, some, ok, err, ok-inj}
use sibyl.Prelude.Int.{pos}
use sibyl.Prelude.Maps.{GoMap, get}
use sibyl.OAuth.Types.{TokenPair, Identity, Session, Provider}
use sibyl.OAuth.Refresh.{TokenStore}
use sibyl.OAuth.Flow.{OAuthFlowInput, oauth_flow}
use sibyl.OAuth.Performed.{
  exchange_activity, whoami_activity, store_activity, IsPerformed, performed-IsStored,
}

abbrev the_token : TokenPair ℕ
the_token = record {
  access_token = "new";
  refresh_token = "r";
  token_type = "Bearer";
  expires_at = 99;
  scope = "";
  raw = [];
}

abbrev no_token : TokenPair ℕ
no_token = record {
  access_token = "";
  refresh_token = "";
  token_type = "";
  expires_at = 0;
  scope = "";
  raw = [];
}

abbrev eve : Identity ℕ
eve = record {
  canonical = "okta:3";
  provider = "okta";
  provider_id = "3";
  email = "";
  display_name = "Eve";
  raw = [];
}

abbrev cell : TokenStore (TokenPair ℕ) ℕ String
cell = record { get = λ s i p. ok s; put = λ s i p t. ok t }

abbrev okta : GoMap (Provider ℕ String)
okta =
    (
      "okta",
      record {
        name = "okta";
        authorize = λ r. err "not asked";
        exchange = λ i. ok the_token;
        refresh = λ t. ok t;
        whoami = λ t. ok eve;
        revoke = none;
      },
    )
    ∷ []

abbrev the_flow : OAuthFlowInput
the_flow = record {
  provider = "okta";
  state = "s1";
  code_verifier = "v";
  redirect_uri = "http://x";
  store_key = "k";
  callback_timeout = pos 0;
}

abbrev the_session : Session ℕ
the_session = record { identity = eve; token = the_token; issued_at = 21; expires_at = 99 }

performed-IsStored_example :
    IsPerformed cell okta
      (("k", no_token) ∷ [])
      the_flow
      (some (record { code = "c"; state = "s1" }))
      the_session
unfolding oauth_flow exchange_activity whoami_activity store_activity get
performed-IsStored_example =
    performed-IsStored cell okta (("k", no_token) ∷ []) (λ s s' i p t h. ap ok (sym (ok-inj h))) 21
      the_flow (some (record { code = "c"; state = "s1" })) the_session refl
