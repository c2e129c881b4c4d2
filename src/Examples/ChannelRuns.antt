-- ===== src/Examples/ChannelRuns.antt =====
-- channels/ and agents/: a desk with a mail channel that posts and waits, and a pager that cannot wait.
use sibyl.Prelude.{
  ℕ, ◌+◌, ◌≡◌, ◌⊎◌, refl, String, List, [], ◌∷◌, none, some, Result, ok, err, All, length, is_empty,
  false,
}
use sibyl.Prelude.Int.{pos}
use sibyl.Channels.Types.{
  Message, Receipt, Verdict, AwaitOpts, ChannelError, timed_out, no_target, all_waiters_failed,
  router_failed, Channel, PostResult, Target, Router, Dispatcher,
}
use sibyl.Channels.Setup.{passthrough_resolver, fixed_router}
use sibyl.Channels.Post.{channel_names, notify}
use sibyl.Channels.Delivery.{IsDelivery, notify_outcome}
use sibyl.Channels.Race.{Arrival, first_verdict, normalize}
use sibyl.Channels.Verdicts.{IsTimeout, first_choice, first_verdict_lem}
use sibyl.Agents.{AgentContext, Arrow}
use sibyl.Agents.Verdict.{Desk, dispatcher_desk, AlwaysAskPolicy, always_ask, with_human_verdict}
use sibyl.Agents.Asking.{IsBackedUp, with_human_verdict_lem}

abbrev a_message : Message
a_message = record {
  subject = record { kind = "finding"; id = "7" };
  title = "look";
  body = "";
  severity = "HIGH";
  evidence = [];
  actions = [];
  links = [];
  workflow_ref = record { workflow_id = ""; run_id = ""; trace_url = "" };
  metadata = [];
}

abbrev mail_receipt : Receipt
mail_receipt = record { channel = "mail"; target = "ops"; native = "1"; meta = [] }

abbrev verdict_by_mail : String → Verdict ℕ
verdict_by_mail choice = record {
  choice = choice;
  actor = record { canonical = ""; display_name = ""; email = ""; source = ""; raw = [] };
  channel = "mail";
  recorded = 0;
  raw = [];
}

abbrev post_mail : String → Message → Result String Receipt
post_mail target msg = ok mail_receipt

abbrev wait_mail : List Receipt → AwaitOpts → Result (ChannelError String) (Verdict ℕ)
wait_mail rs opts = ok (verdict_by_mail "reject")

abbrev mail : Channel ℕ String
mail = record { name = "mail"; notify = some post_mail; await = some wait_mail }

abbrev to_mail : Router String
to_mail = fixed_router "mail" "ops"

abbrev mail_desk : Dispatcher ℕ String
mail_desk = record {
  channels = ("mail", mail) ∷ [];
  router = some to_mail;
  resolver = passthrough_resolver;
}

notify_outcome_example :
    ((e : String) × (to_mail (channel_names mail_desk) a_message ≡ err e)
      × (notify mail_desk a_message ≡ err (router_failed e)))
    ⊎ (to_mail (channel_names mail_desk) a_message ≡ ok [])
      × (notify mail_desk a_message ≡ err no_target)
    ⊎ ((ts : List Target) × (r : PostResult String) × (to_mail (channel_names mail_desk) a_message
          ≡ ok ts)
        × (is_empty ts ≡ false)
        × (notify mail_desk a_message ≡ ok r)
        × IsDelivery mail_desk to_mail a_message ts r)
notify_outcome_example = notify_outcome mail_desk to_mail a_message refl

abbrev late_then_chosen : List (Arrival ℕ String)
late_then_chosen = err timed_out ∷ ok (verdict_by_mail "accept") ∷ []

first_verdict_lem_example :
    ((v : Verdict ℕ) × (first_choice late_then_chosen ≡ some v)
      × (first_verdict mail_desk (length late_then_chosen) 0 late_then_chosen
          ≡ ok (normalize mail_desk.resolver v)))
    ⊎ (first_choice late_then_chosen ≡ none)
      × All IsTimeout late_then_chosen
      × (first_verdict mail_desk (length late_then_chosen) 0 late_then_chosen ≡ err timed_out)
    ⊎ (first_choice late_then_chosen ≡ none)
      × (All IsTimeout late_then_chosen → ⊥)
      × (first_verdict mail_desk (length late_then_chosen) 0 late_then_chosen
          ≡ err all_waiters_failed)
first_verdict_lem_example = first_verdict_lem mail_desk late_then_chosen

abbrev as_arrived : List (Arrival ℕ String) → List (Arrival ℕ String)
as_arrived xs = xs

abbrev desk : Desk ℕ String
desk = dispatcher_desk as_arrived mail_desk

abbrev always : AlwaysAskPolicy String ℕ
always = record {
  zero_value = 0;
  render_fn = none;
  timeout = pos 0;
  allowed_choices = [];
  on_reject = none;
  on_snooze = none;
  on_timeout = none;
}

abbrev no_context : AgentContext
no_context = record { agent_id = ""; workflow_id = ""; run_id = ""; invoked_by = ""; extra = [] }

abbrev await_text : ChannelError String → String
await_text e = "hitl await"

abbrev add_one : Arrow String ℕ ℕ
add_one ctx n = record { value = n + 1; error = none }

with_human_verdict_lem_example :
    ((e : String) × ((add_one no_context 4).error ≡ some e)
      × (with_human_verdict await_text desk
            (always_ask always {A = ℕ} "snoozed")
            add_one
            no_context
            4
          ≡ add_one no_context 4))
    ⊎ ((add_one no_context 4).error ≡ none)
      × IsBackedUp await_text "snoozed" desk always no_context (add_one no_context 4).value (
          with_human_verdict await_text desk
            (always_ask always {A = ℕ} "snoozed")
            add_one
            no_context
            4)
with_human_verdict_lem_example =
    with_human_verdict_lem await_text "snoozed" desk always no_context add_one 4 refl refl refl
