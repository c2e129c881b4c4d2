-- ===== src/Review.antt =====
-- agent/review_workflow.go: PRReviewWorkflow and its activities. In the workflow an activity is a
-- function of its input that gives what it returns after Temporal's retries.
pub mod Reviewed
use sibyl.Prelude.{
  ℕ, ◌-◌, String, Bool, true, false, List, [], ◌∷◌, ◌++◌, Option, none, some, Result, ok, err,
  ◌>>=◌, ◌>>◌, fail_if, map_err, if◌then◌else◌, ◌==◌, length,
}
use Prim.Native.Nat.{◌/◌}
use sibyl.Prelude.Texts.{joined, decimal}
use sibyl.Agents.{Returned}
use sibyl.Events.{Payload, activity_started, activity_completed, error_text}
use sibyl.Streaming.{TokenChunk, Streamed, complete_with_streaming}

pub record PrReviewInput : Type 0 where
  pub diff : String
  pub streaming_backend : Bool

pub record PrReviewOutput : Type 0 where
  pub parse : String
  pub security : String
  pub tests : String
  pub style : String
  pub synthesis : String
  pub duration_ms : ℕ

pub record AnalyzerInput : Type 0 where
  pub node_id : String
  pub parse_text : String
  pub streaming : Bool

pub record SynthesizeInput : Type 0 where
  pub node_id : String
  pub security : String
  pub tests : String
  pub style : String
  pub streaming : Bool

pub data ReviewError (F : Type 0) : Type 0 where
  invalid_input : ReviewError F
  parse_failed security_failed tests_failed style_failed synthesize_failed : F → ReviewError F

-- The activities that the workflow names.
pub record ReviewActivities (F : Type 0) : Type 0 where
  pub parse_diff : PrReviewInput → Result F String
  pub security_audit : AnalyzerInput → Result F String
  pub test_coverage : AnalyzerInput → Result F String
  pub style_check : AnalyzerInput → Result F String
  pub synthesize_review : SynthesizeInput → Result F String

abbrev pub analyzer_input : PrReviewInput → String → String → AnalyzerInput
analyzer_input i parsed node = record {
  node_id = node;
  parse_text = parsed;
  streaming = i.streaming_backend;
}

abbrev pub synthesize_input : PrReviewInput → String → String → String → SynthesizeInput
synthesize_input i security tests style = record {
  node_id = "synthesize";
  security = security;
  tests = tests;
  style = style;
  streaming = i.streaming_backend;
}

-- The three futures run at the same time; their results are taken in this order.
unfoldable pub pr_review_workflow :
    {F : Type 0}
    → ReviewActivities F
    → ℕ
    → ℕ
    → PrReviewInput
    → Result (ReviewError F) PrReviewOutput
pr_review_workflow acts start end i = do
  fail_if (i.diff == "") invalid_input
  parsed ← map_err parse_failed (acts.parse_diff i)
  security ←
      map_err security_failed (acts.security_audit (analyzer_input i parsed "security_audit"))
  tests ← map_err tests_failed (acts.test_coverage (analyzer_input i parsed "test_coverage"))
  style ← map_err style_failed (acts.style_check (analyzer_input i parsed "style_check"))
  synthesis ←
      map_err synthesize_failed (acts.synthesize_review (synthesize_input i security tests style))
  ok (record {
    parse = parsed;
    security = security;
    tests = tests;
    style = style;
    synthesis = synthesis;
    duration_ms = (end - start) / 1000000;
  })

-- The part of `Activities` that these activities use; a nil function is `none`.
pub record Completions (E : Type 0) : Type 0 where
  pub complete : Option (String → String → Returned E String)
  pub stream : Option (String → String → Result E (List (TokenChunk E)))

pub data ActivityError (E : Type 0) : Type 0 where
  complete_is_nil : ActivityError E
  completion_failed : E → ActivityError E

-- What an activity returns, and the events it emits.
pub record ActivityRun (A E : Type 0) : Type 0 where
  pub result : Result (ActivityError E) String
  pub events : List (Payload A)

abbrev pub or_error : {E : Type 0} → Option E → String → Result (ActivityError E) String
or_error none out = ok out
or_error (some e) out = err (completion_failed e)

module _ {E : Type 0} where
  -- The stream is used only when it is asked for and there is one.
  abbrev pub stream_of :
      Bool
      → Option (String → String → Result E (List (TokenChunk E)))
      → String
      → String
      → Option (Result E (List (TokenChunk E)))
  stream_of false stream system user = none
  stream_of true none system user = none
  stream_of true (some stream) system user = some (stream system user)

  abbrev pub applied :
      String → String → Option (String → String → Returned E String) → Option (Returned E String)
  applied system user none = none
  applied system user (some complete) = some (complete system user)

abbrev pub guarded :
    {A E : Type 0}
    → ActivityRun A E
    → Option (String → String → Returned E String)
    → ActivityRun A E
guarded run none = record { result = err complete_is_nil; events = [] }
guarded run (some complete) = run

abbrev pub synthesis_prompt : SynthesizeInput → String
synthesis_prompt i =
    joined
      "Synthesize the following three reviews into one concise final verdict (5-7 sentences). End with **APPROVE** or **REQUEST CHANGES**.\n\n## Security review\n"
      (joined i.security (
        joined "\n\n## Test coverage review\n"
          (joined i.tests (joined "\n\n## Style review\n" i.style))))

module _ {A E : Type 0} (message : E → String) (a : Completions E) where
  abbrev pub call_llm_with_streaming : String → String → String → Bool → Streamed A E
  call_llm_with_streaming system user call_id streaming =
      complete_with_streaming (stream_of streaming a.stream system user)
        (applied system user a.complete) call_id

  abbrev pub ran : String → String → ℕ → Streamed A E → ActivityRun A E
  ran name node took called = record {
    result = or_error called.error called.text;
    events =
        activity_started name node
        ∷ (called.events
            ++ activity_completed name node (error_text message called.error) took ∷ []);
  }

  -- `took` is how long the call of the model took, in milliseconds.
  unfoldable pub run_analyzer : String → String → String → ℕ → AnalyzerInput → ActivityRun A E
  run_analyzer name system user took i =
      guarded (ran name i.node_id took (call_llm_with_streaming system user i.node_id i.streaming))
        a.complete

  abbrev pub security_audit : ℕ → AnalyzerInput → ActivityRun A E
  security_audit took i =
      run_analyzer "SecurityAudit" "You are a security-focused code reviewer."
        (joined
          "Audit this change for security risks: SQL injection, unsanitized user input, hard-coded secrets, path traversal, insecure deserialization, missing authorization checks. Be concise (3-4 sentences). The change summary follows:\n\n"
          i.parse_text)
        took i

  abbrev pub test_coverage : ℕ → AnalyzerInput → ActivityRun A E
  test_coverage took i =
      run_analyzer "TestCoverage" "You are a code-quality reviewer focused on testing."
        (joined
          "Assess whether this change has adequate test coverage. Look for: new functions without tests, edge cases not exercised, integration tests missing. Be concise (3-4 sentences). The change summary follows:\n\n"
          i.parse_text)
        took i

  abbrev pub style_check : ℕ → AnalyzerInput → ActivityRun A E
  style_check took i =
      run_analyzer "StyleCheck" "You are a code-style reviewer focused on Go idioms."
        (joined
          "Review this change for style and idiom issues: naming, error handling, package conventions, godoc completeness, gofmt compliance. Be concise (3-4 sentences). The change summary follows:\n\n"
          i.parse_text)
        took i

  -- The body is that of the analyzers, with its own prompts.
  unfoldable pub synthesize_review : ℕ → SynthesizeInput → ActivityRun A E
  synthesize_review took i =
      guarded
        (ran "SynthesizeReview" i.node_id took (
          call_llm_with_streaming
            "You are a senior code reviewer combining three specialist reviews into one final verdict."
            (synthesis_prompt i) i.node_id i.streaming))
        a.complete

-- `diff_length` is the number of bytes of the diff.
abbrev pub parse_diff : {A : Type 0} → ℕ → ℕ → ActivityRun A (Unit {0})
parse_diff diff_length took = record {
  result = ok (
      joined "Parsed diff ("
        (joined (decimal diff_length) " chars). Files appear to touch: agent/, cmd/, worker/."));
  events =
      activity_started "ParseDiff" "parse_diff"
      ∷ activity_completed "ParseDiff" "parse_diff" "" took
      ∷ [];
}
