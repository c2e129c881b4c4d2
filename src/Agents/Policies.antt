-- ===== src/Agents/Policies.antt =====
-- agents/verdict.go: NeverAskPolicy; agents/predicates.go: SeverityIn, ConfidenceBelow.
use sibyl.Prelude.{◌≡◌, refl, String, Bool, false, List, [], Option, none, some, contains}
use sibyl.Prelude.Int.{pos}
use sibyl.Channels.Types.{Message, ChannelError}
use sibyl.Agents.{Returned, AgentContext, Arrow, PolicyPredicate}
use sibyl.Agents.Verdict.{VerdictPolicy, Desk, continue_with, with_human_verdict}

abbrev empty_message : Message
empty_message = record {
  subject = record { kind = ""; id = "" };
  title = "";
  body = "";
  severity = "";
  evidence = [];
  actions = [];
  links = [];
  workflow_ref = record { workflow_id = ""; run_id = ""; trace_url = "" };
  metadata = [];
}

abbrev pub never_ask : {A F R : Type 0} → VerdictPolicy A F R
never_ask = record {
  required = λ ctx output. false;
  render = λ ctx output. empty_message;
  await_opts = λ ctx output. record { timeout = pos 0; options = [] };
  on_verdict = λ ctx output v. record { value = output; error = none };
}

unfoldable pub severity_in : {R : Type 0} → (R → String) → List String → PolicyPredicate R
severity_in severity severities ctx output = contains severities (severity output)

-- `is_below` compares float64.
unfoldable pub confidence_below : {R C : Type 0} → (C → C → Bool) → (R → C) → C → PolicyPredicate R
confidence_below is_below confidence threshold ctx output = is_below (confidence output) threshold

module _ {A E F R : Type 0} (hitl_await : ChannelError E → F) (desk : Desk A E) where
  abbrev returned : R → Option F → Returned F R
  returned output e = record { value = output; error = e }

  continue_with-never_ask :
      (ctx : AgentContext) (output : R) (e : Option F)
      → continue_with hitl_await desk never_ask ctx output e ≡ returned output e
  continue_with-never_ask ctx output none = refl
  continue_with-never_ask ctx output (some e) = refl

  -- Under NeverAskPolicy the behaviour is the agent itself.
  pub with_human_verdict-never_ask :
      {Q : Type 0} (inner : Arrow F Q R) (ctx : AgentContext) (req : Q)
      → with_human_verdict hitl_await desk never_ask inner ctx req ≡ inner ctx req
  unfolding with_human_verdict
  with_human_verdict-never_ask inner ctx req =
      let r = inner ctx req in continue_with-never_ask ctx r.value r.error
