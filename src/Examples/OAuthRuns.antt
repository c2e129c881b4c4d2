-- ===== src/Examples/OAuthRuns.antt =====
-- auth/oauth/: one token, a store of one entry, a refresh, and one callback.
use sibyl.Prelude.{
  ℕ, ◌≡◌, ◌↔◌, refl, length, nat_eq, sym, ap, ok-inj, String, Bool, true, List, [], ◌∷◌, none, some,
  Result, ok, err, if◌then◌else◌, ◌==◌,
}
use sibyl.Prelude.Int.{pos}
use sibyl.Prelude.Maps.{GoMap, get}
use sibyl.OAuth.Types.{
  TokenPair, Identity, Session, AuthCode, AuthRequest, AuthorizeRedirect, Provider,
}
use sibyl.OAuth.Store.{same_key, key_of, Tokens, Codec, get_token, put_token, insert}
use sibyl.OAuth.Stored.{get_token-put_token}
use sibyl.OAuth.Refresh.{TokenStore, with_refresh, IsAnswer, with_refresh-IsAnswer, current_session}
use sibyl.OAuth.Cipher.{Aead, encrypt, decrypt, decrypt_iff-encrypt}
use sibyl.Agents.{AgentContext}
use sibyl.Agents.Credentials.{run_with_oauth}
use sibyl.Agents.Credentials.Injected.{IsOAuthRun, run_with_oauth-IsOAuthRun}
use sibyl.OAuth.Current.{IsCurrent, current_session-IsCurrent}
use sibyl.OAuth.Flow.{OAuthFlowInput}
use sibyl.OAuth.Callback.{
  unknown_state, parse_callback, handle_callback, StartFlowInput, start_flow,
}
use sibyl.OAuth.Routing.{IsRouted, handle_callback-once, start_flow-IsRouted}

abbrev a_token : String → ℕ → TokenPair ℕ
a_token text time = record {
  access_token = text;
  refresh_token = "r";
  token_type = "Bearer";
  expires_at = time;
  scope = "";
  raw = [];
}

abbrev ann : Identity ℕ
ann = record {
  canonical = "okta:1";
  provider = "okta";
  provider_id = "1";
  email = "";
  display_name = "Ann";
  raw = [];
}

-- Bytes are the tokens themselves.
abbrev plain : Codec ℕ (TokenPair ℕ) String
plain = record {
  encrypt = λ b. ok b;
  decrypt = λ b. ok b;
  marshal = λ t. ok t;
  unmarshal = λ b. ok b;
}

abbrev one_token : Tokens ℕ (TokenPair ℕ)
one_token =
    (
      record { canonical = "okta:1"; provider = "okta" },
      record {
        identity = ann;
        provider = "okta";
        token = a_token "t" 9;
        expires_at = 9;
        updated_at = 3;
      },
    )
    ∷ []

get_token-put_token_example : get_token plain none one_token ann "okta" ≡ (
    if same_key (key_of ann "okta") (key_of ann "okta")
    then ok (a_token "t" 9)
    else get_token plain none [] ann "okta")
unfolding put_token insert
get_token-put_token_example =
    get_token-put_token plain (λ p c h. ap ok (sym (ok-inj h))) (λ t b h. ap ok (sym (ok-inj h))) 3
      [] one_token ann ann "okta" "okta" (a_token "t" 9) refl

-- A store of one cell.
abbrev cell : TokenStore (TokenPair ℕ) ℕ String
cell = record { get = λ s i p. ok s; put = λ s i p t. ok t }

abbrev said : String → String
said e = e

abbrev is_401 : String → Bool
is_401 e = e == "401"

abbrev new_token : TokenPair ℕ → Result String (TokenPair ℕ)
new_token t = ok (a_token "new" 99)

-- The call is refused with the old token.
abbrev ask_with : ℕ → TokenPair ℕ → Result String ℕ
ask_with n t = if t.access_token == "new" then ok 7 else err "401"

with_refresh-IsAnswer_example :
    IsAnswer cell is_401 new_token ann "okta" ask_with
      (a_token "old" 5)
      7
      (with_refresh cell is_401 new_token ann "okta" ask_with (a_token "old" 5)).store
unfolding with_refresh
with_refresh-IsAnswer_example =
    with_refresh-IsAnswer cell is_401 new_token ann "okta" ask_with (a_token "old" 5)
      (λ s s' i p t h. ap ok (sym (ok-inj h))) 7 refl

abbrev new_session : Session ℕ
new_session = record { identity = ann; token = a_token "new" 99; issued_at = 21; expires_at = 99 }

current_session-IsCurrent_example :
    IsCurrent cell is_401 new_token ann "okta" true
      (pos 1)
      20
      20
      21
      (a_token "old" 5)
      new_session
      (current_session cell is_401 new_token ann "okta" true
        (pos 1)
        20
        20
        21
        (a_token "old" 5)).store
unfolding current_session
current_session-IsCurrent_example =
    current_session-IsCurrent cell is_401 new_token ann "okta" true (pos 1) 20 20 21
      (a_token "old" 5) (λ s s' i p t h. ap ok (sym (ok-inj h))) new_session refl

abbrev read_query : String → Result String (GoMap (List String))
read_query raw = ok (("code", "c" ∷ []) ∷ ("state", "s1" ∷ []) ∷ [])

abbrev delivers : String → AuthCode → Result String (Unit {0})
delivers workflow code = ok tt

abbrev routes : GoMap String
routes = ("s0", "w0") ∷ ("s1", "w1") ∷ []

handle_callback-once_example :
    (code : AuthCode) × (workflow : String) × (parse_callback read_query "q" ≡ ok code)
    × (get routes code.state ≡ some workflow)
    × ((handle_callback delivers read_query routes "q").signal ≡ some (workflow, code))
    × ((j : String)
        → get (handle_callback delivers read_query routes "q").table j
          ≡ (if code.state == j then none else get routes j))
    × ((handle_callback delivers read_query
          (handle_callback delivers read_query routes "q").table
          "q").result
        ≡ err unknown_state)
    × ((handle_callback delivers read_query
          (handle_callback delivers read_query routes "q").table
          "q").signal
        ≡ none)
unfolding handle_callback parse_callback get
handle_callback-once_example = handle_callback-once delivers read_query routes "q" refl

abbrev redirects : AuthRequest → Result String AuthorizeRedirect
redirects r = ok (record { url = "http://o"; state = r.state; code_verifier = r.code_verifier })

abbrev okta : GoMap (Provider ℕ String)
okta =
    (
      "okta",
      record {
        name = "okta";
        authorize = redirects;
        exchange = λ i. ok (a_token "new" 99);
        refresh = new_token;
        whoami = λ t. ok ann;
        revoke = none;
      },
    )
    ∷ []

abbrev made_request : String → String → List String → Result String AuthRequest
made_request p uri scopes = ok (record {
  provider = p;
  scopes = scopes;
  redirect_uri = uri;
  state = "s1";
  code_verifier = "v";
  code_challenge = "h";
})

abbrev starts : String → OAuthFlowInput → Result String (Unit {0})
starts w i = ok tt

abbrev start_input : StartFlowInput
start_input = record {
  provider = "okta";
  scopes = [];
  redirect_uri = "http://x";
  store_key = "k";
  task_queue = "q";
  workflow_id_prefix = "";
}

start_flow-IsRouted_example :
    IsRouted okta made_request "id" starts [] start_input
      (start_flow okta made_request "id" starts [] start_input).result
      (start_flow okta made_request "id" starts [] start_input).table
start_flow-IsRouted_example = start_flow-IsRouted okta made_request "id" starts [] start_input

-- Sealing adds nothing but the nonce, which is one byte.
abbrev open_seal : Aead String
open_seal = record { nonce_size = 1; seal = λ n p. p; unseal = λ n s. ok s }

decrypt_iff-encrypt_example : decrypt open_seal (9 ∷ 1 ∷ 2 ∷ []) ≡ ok (1 ∷ 2 ∷ []) ↔ (
    (nonce : List ℕ) × (length nonce ≡ 1)
    × (encrypt open_seal (ok nonce) (1 ∷ 2 ∷ []) ≡ ok (9 ∷ 1 ∷ 2 ∷ [])))
decrypt_iff-encrypt_example =
    decrypt_iff-encrypt open_seal (λ n s p size. (λ h. ok-inj h, λ h. ap ok h)) (9 ∷ 1 ∷ 2 ∷ [])
      (1 ∷ 2 ∷ [])

abbrev is_not_found : String → Bool
is_not_found e = e == "token not found"

abbrev as_ann : AgentContext → ℕ → Result String (Identity ℕ)
as_ann context request = ok ann

-- The request becomes 1 with the new token.
abbrev attach : AgentContext → ℕ → TokenPair ℕ → Result String ℕ
attach context request t = if t.access_token == "new" then ok 1 else ok request

abbrev answer_one : ℕ → AgentContext → ℕ → Result String ℕ
answer_one n context request = if nat_eq request 1 then ok 7 else err "401"

abbrev by_ann : AgentContext
by_ann = record {
  agent_id = "a";
  workflow_id = "w";
  run_id = "r";
  invoked_by = "okta:1";
  extra = [];
}

run_with_oauth-IsOAuthRun_example :
    IsOAuthRun is_401 is_not_found said cell new_token "okta" as_ann attach answer_one by_ann 0
      (a_token "old" 5)
      (ok 7)
      (a_token "new" 99)
unfolding run_with_oauth with_refresh
run_with_oauth-IsOAuthRun_example =
    run_with_oauth-IsOAuthRun is_401 is_not_found said cell new_token "okta" as_ann attach
      answer_one by_ann 0 (a_token "old" 5) (λ s s' i p t h. ap ok (sym (ok-inj h)))
