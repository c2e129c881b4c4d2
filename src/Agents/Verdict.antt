-- ===== src/Agents/Verdict.antt =====
-- agents/verdict.go: WithHumanVerdict, and the policies.
use sibyl.Prelude.{
  String, Bool, true, List, [], ◌∷◌, Option, none, some, Result, ok, err, if◌then◌else◌, ◌==◌,
  is_empty,
}
use sibyl.Prelude.Int.{ℤ, pos}
use sibyl.Prelude.Maps.{GoMap, get, put}
use sibyl.Channels.Types.{
  Message, WorkflowRef, Receipt, Verdict, AwaitOpts, ChannelError, timed_out, PostResult,
  Dispatcher,
}
use sibyl.Channels.Post.{notify}
use sibyl.Channels.Race.{Arrival, await}
use sibyl.Converge.{is_not_positive}
use sibyl.Agents.{Returned, AgentContext, Behavior, PolicyPredicate}

-- The interface `VerdictPolicy`.
pub record VerdictPolicy (A F R : Type 0) : Type 0 where
  pub required : AgentContext → R → Bool
  pub render : AgentContext → R → Message
  pub await_opts : AgentContext → R → AwaitOpts
  pub on_verdict : AgentContext → R → Verdict A → Returned F R

-- The two methods of the Dispatcher that the behaviour calls.
pub record Desk (A E : Type 0) : Type 0 where
  pub notify : Message → Result (ChannelError E) (PostResult E)
  pub await : List Receipt → AwaitOpts → Result (ChannelError E) (Verdict A)

abbrev pub dispatcher_desk :
    {A E : Type 0} → (List (Arrival A E) → List (Arrival A E)) → Dispatcher A E → Desk A E
dispatcher_desk arrival_order d = record { notify = notify d; await = await arrival_order d }

abbrev pub no_verdict : {A : Type 0} → Verdict A
no_verdict = record {
  choice = "";
  actor = record { canonical = ""; display_name = ""; email = ""; source = ""; raw = [] };
  channel = "";
  recorded = 0;
  raw = [];
}

abbrev named : String → GoMap String → Option String → GoMap String
named agent_id metadata (some known) = metadata
named agent_id metadata none = if agent_id == "" then metadata else put metadata "agent_id" agent_id

abbrev linked : AgentContext → Message → WorkflowRef
linked ac msg =
    if msg.workflow_ref.workflow_id == ""
    then record { workflow_id = ac.workflow_id; run_id = ac.run_id; trace_url = "" }
    else msg.workflow_ref

-- The message with its reference back to the workflow.
unfoldable pub with_reference : AgentContext → Message → Message
with_reference ac msg = if ac.workflow_id == "" then msg else record msg {
  workflow_ref = linked ac msg;
  metadata = named ac.agent_id msg.metadata (get msg.metadata "agent_id");
}

module _ {A E F R : Type 0} (hitl_await : ChannelError E → F) (desk : Desk A E)
    (policy : VerdictPolicy A F R) where
  abbrev pub judged : AgentContext → R → Result (ChannelError E) (Verdict A) → Returned F R
  judged ctx output (ok v) = policy.on_verdict ctx output v
  judged ctx output (err timed_out) = policy.on_verdict ctx output no_verdict
  judged ctx output (err e) = record { value = output; error = some (hitl_await e) }

  abbrev pub asked : AgentContext → R → Result (ChannelError E) (PostResult E) → Returned F R
  asked ctx output (err e) = policy.on_verdict ctx output no_verdict
  asked ctx output (ok r) =
      if is_empty r.receipts
      then policy.on_verdict ctx output no_verdict
      else judged ctx output (desk.await r.receipts (policy.await_opts ctx output))

  abbrev pub reviewed : AgentContext → R → Returned F R
  reviewed ctx output =
      let answer = asked ctx output (desk.notify (with_reference ctx (policy.render ctx output))) in
      if policy.required ctx output then answer else record { value = output; error = none }

  abbrev pub continue_with : AgentContext → R → Option F → Returned F R
  continue_with ctx output (some e) = record { value = output; error = some e }
  continue_with ctx output none = reviewed ctx output

  unfoldable pub with_human_verdict : {Q : Type 0} → Behavior F Q R
  with_human_verdict inner ctx req = let r = inner ctx req in continue_with ctx r.value r.error

-- `zero` is Go's zero value of the response type.
pub record AlwaysAskPolicy (F R : Type 0) : Type 0 where
  pub zero_value : R
  pub render_fn : Option (AgentContext → R → Message)
  pub timeout : ℤ
  pub allowed_choices : List String
  pub on_reject : Option (AgentContext → R → Returned F R)
  pub on_snooze : Option (AgentContext → R → Returned F R)
  pub on_timeout : Option (AgentContext → R → Returned F R)

abbrev or_else_return :
    {F R : Type 0}
    → Option (AgentContext → R → Returned F R)
    → Returned F R
    → AgentContext
    → R
    → Returned F R
or_else_return none default ctx output = default
or_else_return (some f) default ctx output = f ctx output

module _ {F R : Type 0} (snoozed : F) (p : AlwaysAskPolicy F R) where
  unfoldable pub always_ask_on_verdict : {A : Type 0} → AgentContext → R → Verdict A → Returned F R
  always_ask_on_verdict ctx output v =
      if v.choice == "accept"
      then record { value = output; error = none }
      else if v.choice == "reject"
      then or_else_return p.on_reject (record { value = p.zero_value; error = none }) ctx output
      else if v.choice == "snooze"
      then or_else_return p.on_snooze (record { value = output; error = some snoozed }) ctx output
      else or_else_return p.on_timeout (record { value = output; error = none }) ctx output

abbrev review_message : Message
review_message = record {
  subject = record { kind = ""; id = "" };
  title = "Agent output requires review";
  body = "";
  severity = "";
  evidence = [];
  actions = [];
  links = [];
  workflow_ref = record { workflow_id = ""; run_id = ""; trace_url = "" };
  metadata = [];
}

abbrev render_by : {R : Type 0} → Option (AgentContext → R → Message) → AgentContext → R → Message
render_by none ctx output = review_message
render_by (some f) ctx output = f ctx output

-- 30 minutes in nanoseconds.
abbrev half_an_hour : ℤ
half_an_hour = pos 1800000000000

module _ {F R : Type 0} (p : AlwaysAskPolicy F R) where
  unfoldable pub always_ask_opts : AgentContext → R → AwaitOpts
  always_ask_opts ctx output = record {
    timeout = if is_not_positive p.timeout then half_an_hour else p.timeout;
    options =
        if is_empty p.allowed_choices
        then "accept" ∷ "reject" ∷ "snooze" ∷ []
        else p.allowed_choices;
  }

  abbrev pub always_ask : {A : Type 0} → F → VerdictPolicy A F R
  always_ask snoozed = record {
    required = λ ctx output. true;
    render = render_by p.render_fn;
    await_opts = always_ask_opts;
    on_verdict = always_ask_on_verdict snoozed p;
  }

abbrev required_by :
    {R : Type 0} → Option (PolicyPredicate R) → PolicyPredicate R → PolicyPredicate R
required_by none inner = inner
required_by (some p) inner = p

abbrev pub with_predicate :
    {A F R : Type 0} → VerdictPolicy A F R → Option (PolicyPredicate R) → VerdictPolicy A F R
with_predicate inner p = record inner { required = required_by p inner.required }
