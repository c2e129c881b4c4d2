-- ===== src/OAuth/Callback.antt =====
-- auth/oauth/request.go, auth/oauth/start.go and auth/oauth/callback.go, with MemoryStateMapper and
-- ParseCallback of auth/oauth/activities.go. Random bytes, net/url, the hash of PKCE and the Temporal
-- client are parameters. Reading random bytes may fail.
use sibyl.Prelude.{
  String, true, false, List, ◌∷◌, Option, none, some, Result, ok, err, ◌>>=◌, ◌>>◌, fail_if,
  map_err, if◌then◌else◌, ◌==◌,
}
use sibyl.Prelude.Int.{pos}
use sibyl.Prelude.Maps.{GoMap, get, put, delete}
use sibyl.Prelude.Texts.{joined}
use sibyl.OAuth.Types.{AuthRequest, AuthorizeRedirect, AuthCode, Provider}
use sibyl.OAuth.Flow.{OAuthFlowInput}

-- `randomBase64URL` is called twice; `state` and `verifier` are what the calls return.
unfoldable pub new_auth_request :
    {F : Type 0}
    → Result F String
    → Result F String
    → (String → String)
    → String
    → String
    → List String
    → Result F AuthRequest
new_auth_request state verifier challenge provider redirect_uri scopes = do
  s ← state
  v ← verifier
  ok (record {
    provider = provider;
    scopes = scopes;
    redirect_uri = redirect_uri;
    state = s;
    code_verifier = v;
    code_challenge = challenge v;
  })

pub data OAuthError (F : Type 0) : Type 0 where
  required_missing provider_not_registered state_empty : OAuthError F
  missing_code_or_state unknown_state : OAuthError F
  provider_error : (error description : String) → OAuthError F
  request_failed authorize_failed execute_failed query_malformed signal_failed : F → OAuthError F

-- MemoryStateMapper.Put
abbrev pub mapper_put :
    {F : Type 0} → GoMap String → String → String → Result (OAuthError F) (GoMap String)
mapper_put table state workflow =
    if state == "" then err state_empty else ok (put table state workflow)

-- `url.Values.Get`
abbrev first_value : Option (List String) → String
first_value (some (v ∷ vs)) = v
first_value _ = ""

abbrev value_of : GoMap (List String) → String → String
value_of values k = first_value (get values k)

unfoldable pub parse_callback :
    {F : Type 0}
    → (String → Result F (GoMap (List String)))
    → String
    → Result (OAuthError F) AuthCode
parse_callback parse_query raw = do
  v ← map_err query_malformed (parse_query raw)
  fail_if (if value_of v "error" == "" then false else true)
      (provider_error (value_of v "error") (value_of v "error_description"))
  fail_if (if value_of v "code" == "" then true else value_of v "state" == "") missing_code_or_state
  ok (record { code = value_of v "code"; state = value_of v "state" })

-- What a request did: the answer, the signal that was sent, and the table afterwards.
pub record Handled (F : Type 0) : Type 0 where
  pub result : Result (OAuthError F) (Unit {0})
  pub signal : Option (String × AuthCode)
  pub table : GoMap String

module _ {F : Type 0} (signal_workflow : String → AuthCode → Result F (Unit {0})) where
  abbrev signalled : GoMap String → String → AuthCode → Result F (Unit {0}) → Handled F
  signalled table workflow code (err e) = record {
    result = err (signal_failed e);
    signal = none;
    table = table;
  }
  signalled table workflow code (ok done) = record {
    result = ok tt;
    signal = some (workflow, code);
    table = delete table code.state;
  }

  abbrev looked_up : GoMap String → AuthCode → Option String → Handled F
  looked_up table code none = record { result = err unknown_state; signal = none; table = table }
  looked_up table code (some workflow) =
      signalled table workflow code (signal_workflow workflow code)

  abbrev parsed : GoMap String → Result (OAuthError F) AuthCode → Handled F
  parsed table (err e) = record { result = err e; signal = none; table = table }
  parsed table (ok code) = looked_up table code (get table code.state)

  unfoldable pub handle_callback :
      (String → Result F (GoMap (List String))) → GoMap String → String → Handled F
  handle_callback parse_query table raw = parsed table (parse_callback parse_query raw)

pub record StartFlowInput : Type 0 where
  pub provider : String
  pub scopes : List String
  pub redirect_uri : String
  pub store_key : String
  pub task_queue : String
  pub workflow_id_prefix : String

pub record StartFlowResult : Type 0 where
  pub auth_url : String
  pub workflow_id : String
  pub state : String

abbrev pub workflow_id_of : StartFlowInput → String → String
workflow_id_of i short =
    let prefix = if i.workflow_id_prefix == "" then "oauth-flow" else i.workflow_id_prefix in
    joined prefix (joined "-" (joined i.provider (joined "-" short)))

-- The input the workflow is started with; its callback timeout is left at zero.
abbrev pub flow_input : StartFlowInput → AuthorizeRedirect → OAuthFlowInput
flow_input i r = record {
  provider = i.provider;
  state = r.state;
  code_verifier = r.code_verifier;
  redirect_uri = i.redirect_uri;
  store_key = i.store_key;
  callback_timeout = pos 0;
}

pub record Started (F : Type 0) : Type 0 where
  pub result : Result (OAuthError F) StartFlowResult
  pub table : GoMap String

abbrev requirements : {F : Type 0} → StartFlowInput → Result (OAuthError F) (Unit {0})
requirements i = do
  fail_if (i.provider == "") required_missing
  fail_if (i.redirect_uri == "") required_missing
  fail_if (i.store_key == "") required_missing
  fail_if (i.task_queue == "") required_missing

module _ {A F : Type 0} (providers : GoMap (Provider A F))
    (new_request : String → String → List String → Result F AuthRequest) (short_id : String)
    (execute : String → OAuthFlowInput → Result F (Unit {0})) where
  abbrev registered : Option (Provider A F) → Result (OAuthError F) (Provider A F)
  registered none = err provider_not_registered
  registered (some p) = ok p

  -- The steps before the table is written.
  abbrev pub prepare : StartFlowInput → Result (OAuthError F) AuthorizeRedirect
  prepare i = do
    fine ← requirements i
    p ← registered (get providers i.provider)
    r ← map_err request_failed (new_request i.provider i.redirect_uri i.scopes)
    map_err authorize_failed (p.authorize r)

  abbrev pub executed :
      GoMap String → StartFlowInput → AuthorizeRedirect → Result F (Unit {0}) → Started F
  executed table i r (err e) = record {
    result = err (execute_failed e);
    table = delete table r.state;
  }
  executed table i r (ok done) = record {
    result =
        ok (record { auth_url = r.url; workflow_id = workflow_id_of i short_id; state = r.state });
    table = table;
  }

  abbrev pub mapped :
      GoMap String
      → StartFlowInput
      → AuthorizeRedirect
      → Result (OAuthError F) (GoMap String)
      → Started F
  mapped table i r (err e) = record { result = err e; table = table }
  mapped table i r (ok written) =
      executed written i r (execute (workflow_id_of i short_id) (flow_input i r))

  abbrev pub prepared :
      GoMap String → StartFlowInput → Result (OAuthError F) AuthorizeRedirect → Started F
  prepared table i (err e) = record { result = err e; table = table }
  prepared table i (ok r) = mapped table i r (mapper_put table r.state (workflow_id_of i short_id))

  unfoldable pub start_flow : GoMap String → StartFlowInput → Started F
  start_flow table i = prepared table i (prepare i)
