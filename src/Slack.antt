-- ===== src/Slack.antt =====
-- channels/slack/slack.go: the Slack adapter. The client, the clock and the end of the context are
-- parameters; everything that changes in a wait is given by the number of the poll, from zero.
pub mod Render
pub mod Reacted
use sibyl.Prelude.{
  ℕ, zero, suc, ◌+◌, String, Bool, true, false, List, [], ◌∷◌, Option, none, some, Result, ok, err,
  ◌>>=◌, ◌>>◌, fail_if, map_err, if◌then◌else◌, is_empty, ltb, ◌==◌, contains, not,
}
use sibyl.Prelude.Int.{ℤ, pos, negsuc}
use sibyl.Prelude.Maps.{GoMap, get, or_else}
use sibyl.Prelude.Texts.{joined}
use sibyl.Channels.Types.{
  Message, Receipt, Identity, Verdict, AwaitOpts, ChannelError, timed_out, adapter_failed, Channel,
}
use sibyl.Slack.Render.{PostOptions, default_render}

pub record Reaction : Type 0 where
  pub name : String
  pub users : List String
  pub count : ℤ

pub record UserInfo : Type 0 where
  pub id : String
  pub display_name : String
  pub email : String
  pub real_name : String

pub record Client (E : Type 0) : Type 0 where
  pub post : String → PostOptions → Result E String
  pub get_reactions : ℕ → String → String → Result E (List Reaction)
  pub get_user_info : ℕ → String → Result E UserInfo

-- A nil map and a nil function are `none`.
pub record Config : Type 0 where
  pub poll_interval : ℤ
  pub verdict_by_reaction : Option (GoMap String)
  pub render : Option (Message → PostOptions)

-- The configuration after `applyDefaults`.
pub record Settings : Type 0 where
  pub poll_interval : ℕ
  pub verdict_by_reaction : GoMap String
  pub render : Message → PostOptions

abbrev pub positive_or : ℕ → ℤ → ℕ
positive_or d (pos zero) = d
positive_or d (pos (suc n)) = suc n
positive_or d (negsuc n) = d

unfoldable pub apply_defaults : Config → Settings
apply_defaults c = record {
  poll_interval = positive_or 5000000000 c.poll_interval;
  verdict_by_reaction =
      or_else c.verdict_by_reaction
        (("white_check_mark", "accept") ∷ ("x", "reject") ∷ ("zzz", "snooze") ∷ []);
  render = or_else c.render default_render;
}

-- Go's `any`, of what a verdict carries along.
pub record AnyOf (A : Type 0) : Type 0 where
  pub of_string : String → A
  pub of_int : ℤ → A
  pub of_strings : List String → A

pub data SetupError : Type 0 where
  name_required client_required : SetupError

-- Whether the options of a wait let an action through; no options let through everything.
abbrev pub is_allowed : List String → String → Bool
is_allowed [] action = true
is_allowed (o ∷ options) action = contains (o ∷ options) action

-- The action and the user of a reaction that counts as a verdict.
abbrev pub first_user : String → List String → Option (String × String)
first_user action [] = none
first_user action (u ∷ users) = some (action, u)

abbrev pub valid_action : List String → List String → Option String → Option (String × String)
valid_action options users none = none
valid_action options users (some action) =
    if is_allowed options action then first_user action users else none

abbrev pub reads_as : GoMap String → List String → Reaction → Option (String × String)
reads_as actions options r = valid_action options r.users (get actions r.name)

module _ {A E : Type 0} (any : AnyOf A) (client : Client E) (name : String) where
  abbrev passthrough : String → Identity
  passthrough user = record {
    canonical = joined name (joined ":" user);
    display_name = "";
    email = "";
    source = "slack-passthrough";
    raw = [];
  }

  abbrev known_as : String → Result E UserInfo → Identity
  known_as user (err e) = passthrough user
  known_as user (ok info) = record (passthrough user) {
    display_name = if info.display_name == "" then info.real_name else info.display_name;
    email = info.email;
    source = "slack-lookup";
  }

  abbrev pub lookup_actor : ℕ → String → Identity
  lookup_actor poll user = known_as user (client.get_user_info poll user)

  abbrev pub verdict_of : ℕ → ℕ → Reaction → String → String → Verdict A
  verdict_of poll now r action user = record {
    choice = action;
    actor = lookup_actor poll user;
    channel = name;
    recorded = now;
    raw =
        ("reaction", any.of_string r.name)
        ∷ ("count", any.of_int r.count)
        ∷ ("users", any.of_strings r.users)
        ∷ [];
  }

  -- `clock` is the time at the end of a poll, and `ended` the error of the context if it ends
  -- before the next one.
  module _ (actions : GoMap String) (clock : ℕ → ℕ) (ended : ℕ → Option E)
      (options : List String) where
    abbrev read_or :
        ℕ → Reaction → Option (String × String) → Option (Verdict A) → Option (Verdict A)
    read_or poll r none rest = rest
    read_or poll r (some (action, user)) rest = some (verdict_of poll (clock poll) r action user)

    unfoldable pub first_reaction : ℕ → List Reaction → Option (Verdict A)
    first_reaction poll [] = none
    first_reaction poll (r ∷ rs) =
        let rest = first_reaction poll rs in read_or poll r (reads_as actions options r) rest

    abbrev reactions_or_none : ℕ → Result E (List Reaction) → Option (Verdict A)
    reactions_or_none poll (err e) = none
    reactions_or_none poll (ok rs) = first_reaction poll rs

    -- What the reactions to one receipt say.
    abbrev pub read_receipt : ℕ → Receipt → Option (Verdict A)
    read_receipt poll r =
        if r.channel == name
        then reactions_or_none poll (client.get_reactions poll r.target r.native)
        else none

    abbrev first_some : Option (Verdict A) → Option (Verdict A) → Option (Verdict A)
    first_some none rest = rest
    first_some (some v) rest = some v

    unfoldable pub read_receipts : ℕ → List Receipt → Option (Verdict A)
    read_receipts poll [] = none
    read_receipts poll (r ∷ rs) =
        let rest = read_receipts poll rs in first_some (read_receipt poll r) rest

    abbrev wait_more :
        Option E
        → Option (Result (ChannelError E) (Verdict A))
        → Option (Result (ChannelError E) (Verdict A))
    wait_more none rest = rest
    wait_more (some e) rest = some (err (adapter_failed e))

    abbrev after_poll :
        ℕ
        → ℕ
        → Option (Verdict A)
        → Option (Result (ChannelError E) (Verdict A))
        → Option (Result (ChannelError E) (Verdict A))
    after_poll deadline poll (some v) rest = some (ok v)
    after_poll deadline poll none rest =
        if ltb deadline (clock poll) then some (err timed_out) else wait_more (ended poll) rest

    -- The first argument counts the polls that are allowed; `none` when they were not enough.
    unfoldable pub polls : ℕ → ℕ → List Receipt → ℕ → Option (Result (ChannelError E) (Verdict A))
    polls zero deadline receipts poll = none
    polls (suc more) deadline receipts poll =
        let rest = polls more deadline receipts (suc poll) in
        after_poll deadline poll (read_receipts poll receipts) rest

abbrev pub deadline_of : ℕ → ℤ → ℕ
deadline_of start timeout = start + positive_or 1800000000000 timeout

-- The code waits without a limit on the polls; `start` is the time at which it begins.
module _ {A E : Type 0} (any : AnyOf A) (clock : ℕ → ℕ) (ended : ℕ → Option E)
    (start more : ℕ) where
  unfoldable pub await_reaction :
      Client E
      → String
      → Settings
      → List Receipt
      → AwaitOpts
      → Option (Result (ChannelError E) (Verdict A))
  await_reaction client name settings receipts opts =
      polls any client name settings.verdict_by_reaction clock ended opts.options more
        (deadline_of start opts.timeout) receipts 0

unfoldable pub notify_slack :
    {E : Type 0} → Client E → String → Settings → String → Message → Result E Receipt
notify_slack client name settings target message = do
  ts ← client.post target (settings.render message)
  ok (record { channel = name; target = target; native = ts; meta = [] })

-- What the closures of `New` share; a nil client is `none`.
abbrev given_client :
    {E : Type 0} → Config → Option (Client E) → Result SetupError (Client E × Settings)
given_client config none = err client_required
given_client config (some client) = ok (client, apply_defaults config)

unfoldable pub new_slack :
    {E : Type 0} → String → Option (Client E) → Config → Result SetupError (Client E × Settings)
new_slack name client config = do fail_if (name == "") name_required; given_client config client
