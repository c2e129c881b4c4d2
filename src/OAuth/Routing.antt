-- ===== src/OAuth/Routing.antt =====
-- How a callback finds the flow that StartFlow began, for auth/oauth/start.go and
-- auth/oauth/callback.go.
use sibyl.Prelude.{
  ◌≡◌, ◌⊎◌, refl, ◌∙◌, String, List, Option-cases, none, some, Result, Result-cases, err-ne-ok, ok,
  err, if◌then◌else◌, inl, inr, Bool-cases, ◌==◌, eq_refl,
}
use sibyl.Prelude.Maps.{GoMap, get, put, get-put, get-delete}
use sibyl.OAuth.Types.{AuthRequest, AuthorizeRedirect, AuthCode, Provider}
use sibyl.OAuth.Flow.{OAuthFlowInput}
use sibyl.OAuth.Callback.{
  OAuthError, unknown_state, parse_callback, handle_callback, StartFlowInput, StartFlowResult,
  flow_input, workflow_id_of, executed, prepare, start_flow,
}

module _ {F : Type 0} (signal_workflow : String → AuthCode → Result F (Unit {0}))
    (parse_query : String → Result F (GoMap (List String))) (table : GoMap String)
    (raw : String) where
  -- A callback that is answered with success was for a state in the table, signalled that state's
  -- workflow with the code, and took the state out of the table and nothing else: the same callback
  -- again is refused as unknown and signals nothing.
  pub handle_callback-once :
      (handle_callback signal_workflow parse_query table raw).result ≡ ok tt
      → (code : AuthCode) × (workflow : String) × (parse_callback parse_query raw ≡ ok code)
        × (get table code.state ≡ some workflow)
        × ((handle_callback signal_workflow parse_query table raw).signal ≡ some (workflow, code))
        × ((j : String)
            → get (handle_callback signal_workflow parse_query table raw).table j
              ≡ (if code.state == j then none else get table j))
        × ((handle_callback signal_workflow parse_query
              (handle_callback signal_workflow parse_query table raw).table
              raw).result
            ≡ err unknown_state)
        × ((handle_callback signal_workflow parse_query
              (handle_callback signal_workflow parse_query table raw).table
              raw).signal
            ≡ none)
  unfolding handle_callback
  handle_callback-once h = elim (Result-cases (parse_callback parse_query raw)) [
    | inl (e, refused) ↦ err-ne-ok (rw refused at h)
    | inr (code, parsed_as) ↦ elim (Option-cases (get table code.state)) [
      | inl unknown ↦ err-ne-ok (rw (parsed_as, unknown) at h)
      | inr (workflow, known) ↦ elim (Result-cases (signal_workflow workflow code)) [
        | inl (e, refused) ↦ err-ne-ok (rw (parsed_as, known, refused) at h)
        | inr (done, sent) ↦
            let gone = get-delete table code.state code.state in
            let gone' = rw (eq_refl code.state) at gone in
            (
              code,
              workflow,
              parsed_as,
              known,
              rw (parsed_as, known, sent) refl,
              rw (parsed_as, known, sent) (get-delete table code.state),
              rw (parsed_as, known, sent, gone') refl,
              rw (parsed_as, known, sent, gone') refl,
            )
      ]
    ]
  ]

module _ {A F : Type 0} (providers : GoMap (Provider A F))
    (new_request : String → String → List String → Result F AuthRequest) (short_id : String)
    (execute : String → OAuthFlowInput → Result F (Unit {0})) (table : GoMap String)
    (i : StartFlowInput) where
  abbrev pub IsRouted : Result (OAuthError F) StartFlowResult → GoMap String → Type 0
  IsRouted (ok v) after =
      (j : String) → get after j ≡ (if v.state == j then some v.workflow_id else get table j)
  IsRouted (err e) after = (j : String) → (get after j ≡ get table j) ⊎ (get after j ≡ none)

  executed-IsRouted :
      (r : AuthorizeRedirect) (o : Result F (Unit {0}))
      → let s =
          executed providers new_request short_id execute
            (put table r.state (workflow_id_of i short_id))
            i
            r
            o in
        IsRouted s.result s.table
  executed-IsRouted r (ok done) = λ j. get-put table r.state j (workflow_id_of i short_id)
  executed-IsRouted r (err e) = λ j. elim (Bool-cases (r.state == j)) [
    | inl same ↦
        inr (get-delete (put table r.state (workflow_id_of i short_id)) r.state j ∙ rw same refl)
    | inr other ↦ inl (
        get-delete (put table r.state (workflow_id_of i short_id)) r.state j
        ∙ rw other (get-put table r.state j (workflow_id_of i short_id) ∙ rw other refl))
  ]

  -- A StartFlow that succeeds adds one route to the table: the state it returns leads to the workflow
  -- it returns. One that fails adds none.
  pub start_flow-IsRouted :
      IsRouted
        (start_flow providers new_request short_id execute table i).result
        (start_flow providers new_request short_id execute table i).table
  unfolding start_flow
  start_flow-IsRouted = elim (Result-cases (prepare providers new_request short_id execute i)) [
    | inl (e, refused) ↦ rw refused (λ j. inl refl)
    | inr (r, made) ↦ elim (Bool-cases (r.state == "")) [
      | inl blank ↦ rw (made, blank) (λ j. inl refl)
      | inr proper ↦
          rw (made, proper)
            (executed-IsRouted r (execute (workflow_id_of i short_id) (flow_input i r)))
    ]
  ]
