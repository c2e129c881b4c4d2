-- ===== src/Review/Reviewed.antt =====
-- What PRReviewWorkflow of agent/review_workflow.go and its activities promise.
use sibyl.Prelude.{
  ℕ, ◌-◌, ◌≡◌, ◌⊎◌, refl, sym, String, true, false, [], ◌∷◌, ◌++◌, Option, none, some, Result, ok,
  err, ◌==◌, Bool-cases, Result-cases, inl, inr,
}
use Prim.Native.Nat.{◌/◌}
use mathlib.Core.Path.{subst}
use sibyl.Agents.{Returned}
use sibyl.Events.{activity_started, activity_completed, error_text}
use sibyl.Streaming.{Streamed, shown, complete_with_streaming-IsShown}
use sibyl.Review.{
  PrReviewInput, PrReviewOutput, ReviewError, invalid_input, parse_failed, security_failed,
  tests_failed, style_failed, synthesize_failed, ReviewActivities, analyzer_input, synthesize_input,
  pr_review_workflow, Completions, complete_is_nil, ActivityRun, or_error, stream_of, applied, ran,
  guarded, run_analyzer, AnalyzerInput,
}

module _ {F : Type 0} (acts : ReviewActivities F) (start end : ℕ) (i : PrReviewInput) where
  abbrev Audited : String → Result F String → Type 0
  Audited parsed r =
      ((i.diff == "") ≡ false)
      × (acts.parse_diff i ≡ ok parsed)
      × (acts.security_audit (record {
        node_id = "security_audit";
        parse_text = parsed;
        streaming = i.streaming_backend;
      })
          ≡ r)

  abbrev Covered : String → String → Result F String → Type 0
  Covered parsed security r =
      Audited parsed (ok security)
      × (acts.test_coverage (record {
        node_id = "test_coverage";
        parse_text = parsed;
        streaming = i.streaming_backend;
      })
          ≡ r)

  abbrev Styled : String → String → String → Result F String → Type 0
  Styled parsed security tests r =
      Covered parsed security (ok tests)
      × (acts.style_check (record {
        node_id = "style_check";
        parse_text = parsed;
        streaming = i.streaming_backend;
      })
          ≡ r)

  abbrev Synthesized : String → String → String → String → Result F String → Type 0
  Synthesized parsed security tests style r =
      Styled parsed security tests (ok style)
      × (acts.synthesize_review (record {
        node_id = "synthesize";
        security = security;
        tests = tests;
        style = style;
        streaming = i.streaming_backend;
      })
          ≡ r)

  -- How a review ends.
  abbrev pub IsReview : Result (ReviewError F) PrReviewOutput → Type 0
  IsReview (ok out) =
      Synthesized out.parse out.security out.tests out.style (ok out.synthesis)
      × (out.duration_ms ≡ (end - start) / 1000000)
  IsReview (err invalid_input) = (i.diff == "") ≡ true
  IsReview (err (parse_failed e)) = ((i.diff == "") ≡ false) × (acts.parse_diff i ≡ err e)
  IsReview (err (security_failed e)) = (parsed : String) × Audited parsed (err e)
  IsReview (err (tests_failed e)) =
      (parsed : String) × (security : String) × Covered parsed security (err e)
  IsReview (err (style_failed e)) =
      (parsed : String) × (security : String) × (tests : String) × Styled parsed security tests
        (err e)
  IsReview (err (synthesize_failed e)) =
      (parsed : String) × (security : String) × (tests : String) × (style : String) × Synthesized
        parsed security tests style (err e)

  -- A result that is known ends the review as that result does.
  ends :
      (r : Result (ReviewError F) PrReviewOutput)
      → pr_review_workflow acts start end i ≡ r
      → IsReview r
      → IsReview (pr_review_workflow acts start end i)
  ends r same h = subst IsReview (sym same) h

  -- An empty diff is refused. For any other the activities run with inputs that name their node and
  -- pass on the streaming flag: the three analyzers on the parsed text, the synthesis on the answers of
  -- the security, test and style analyzers. The output holds what each returned and the milliseconds
  -- between the readings of the clock. A failure is that of the first activity, in the order parse,
  -- security, tests, style, synthesis, that fails.
  pub pr_review_workflow-IsReview : IsReview (pr_review_workflow acts start end i)
  unfolding pr_review_workflow
  pr_review_workflow-IsReview = elim (Bool-cases (i.diff == "")) [
    | inl empty ↦ ends (err invalid_input) (rw empty refl) empty
    | inr given ↦ elim (Result-cases (acts.parse_diff i)) [
      | inl (e, f) ↦ ends (err (parse_failed e)) (rw (given, f) refl) (given, f)
      | inr (parsed, a) ↦
          elim (Result-cases (acts.security_audit (analyzer_input i parsed "security_audit"))) [
            | inl (e, f) ↦
                ends (err (security_failed e)) (rw (given, a, f) refl) (parsed, (given, a, f))
            | inr (security, b) ↦
                elim (Result-cases (acts.test_coverage (analyzer_input i parsed "test_coverage"))) [
                  | inl (e, f) ↦
                      ends (err (tests_failed e)) (rw (given, a, b, f) refl)
                        (parsed, security, ((given, a, b), f))
                  | inr (tests, c) ↦
                      elim (Result-cases
                        (acts.style_check (analyzer_input i parsed "style_check"))) [
                          | inl (e, f) ↦
                              ends (err (style_failed e)) (rw (given, a, b, c, f) refl)
                                (parsed, security, tests, (((given, a, b), c), f))
                          | inr (style, d) ↦
                              elim (Result-cases (
                                acts.synthesize_review (synthesize_input i security tests style))) [
                                  | inl (e, f) ↦
                                      ends (err (synthesize_failed e))
                                        (rw (given, a, b, c, d, f) refl)
                                        (
                                          parsed,
                                          security,
                                          tests,
                                          style,
                                          ((((given, a, b), c), d), f),
                                        )
                                  | inr (synthesis, g) ↦
                                      ends
                                        (ok (record {
                                          parse = parsed;
                                          security = security;
                                          tests = tests;
                                          style = style;
                                          synthesis = synthesis;
                                          duration_ms = (end - start) / 1000000;
                                        }))
                                        (rw (given, a, b, c, d, g) refl)
                                        (((((given, a, b), c), d), g), refl)
                                ]
                        ]
                ]
          ]
    ]
  ]

module _ {A E : Type 0} (message : E → String) (a : Completions E) where
  -- A run of an activity with that name and node.
  abbrev pub IsActivityRun : String → String → ℕ → ActivityRun A E → Type 0
  IsActivityRun name node took r =
      (a.complete ≡ none) × (r.result ≡ err complete_is_nil) × (r.events ≡ [])
      ⊎ ((called : Streamed A E) × (r.events
            ≡ activity_started name node
              ∷ (called.events
                  ++ activity_completed name node (error_text message called.error) took ∷ []))
          × (shown called.events ≡ called.text)
          × (r.result ≡ or_error called.error called.text))

  guarded-IsActivityRun :
      (name node : String) (took : ℕ) (called : Streamed A E)
      (o : Option (String → String → Returned E String))
      → a.complete ≡ o
      → shown called.events ≡ called.text
      → IsActivityRun name node took (guarded (ran message a name node took called) o)
  guarded-IsActivityRun name node took called none absent h = inl (absent, refl, refl)
  guarded-IsActivityRun name node took called (some complete) there h = inr (called, refl, h, refl)

  -- An analyzer without a model fails and emits nothing. Any other emits its start, then events that
  -- show the text of the answer, streamed or not, and then its end with the error of the call, if it
  -- has one; it returns the text that was shown, or else the error.
  pub run_analyzer-IsActivityRun :
      (name system user : String) (took : ℕ) (i : AnalyzerInput)
      → IsActivityRun name i.node_id took (run_analyzer message a name system user took i)
  unfolding run_analyzer
  run_analyzer-IsActivityRun name system user took i =
      guarded-IsActivityRun name i.node_id took _ a.complete refl (
        complete_with_streaming-IsShown A (stream_of i.streaming a.stream system user)
          (applied system user a.complete) i.node_id)
