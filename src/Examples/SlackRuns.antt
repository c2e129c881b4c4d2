-- ===== src/Examples/SlackRuns.antt =====
-- channels/slack/slack.go: a reaction in the second poll.
use sibyl.Prelude.{
  ℕ, zero, suc, ◌≡◌, refl, String, List, [], ◌∷◌, none, some, Option, Result, ok, err,
}
use sibyl.Prelude.Int.{pos}
use sibyl.Prelude.Maps.{get}
use sibyl.Channels.Types.{Receipt, AwaitOpts}
use sibyl.Slack.{
  Reaction, Client, Settings, AnyOf, apply_defaults, deadline_of, await_reaction, verdict_of, polls,
  read_receipts, first_reaction,
}
use sibyl.Slack.Reacted.{IsAwaited, await_reaction-IsAwaited}

-- What Go's `any` holds is left out.
abbrev nothing : AnyOf ℕ
nothing = record { of_string = λ s. 0; of_int = λ n. 0; of_strings = λ us. 0 }

abbrev thumbs : List Reaction
thumbs =
    record { name = "tada"; users = "U1" ∷ []; count = pos 1 }
    ∷ record { name = "x"; users = "U2" ∷ "U3" ∷ []; count = pos 2 }
    ∷ []

abbrev reactions_at : ℕ → String → String → Result String (List Reaction)
reactions_at zero target native = err "rate limited"
reactions_at (suc n) target native = ok thumbs

abbrev desk : Client String
desk = record {
  post = λ target opts. ok "1";
  get_reactions = reactions_at;
  get_user_info = λ poll user. err "not supported";
}

abbrev usual : Settings
usual = apply_defaults (record { poll_interval = pos 0; verdict_by_reaction = none; render = none })

abbrev posted : List Receipt
posted = record { channel = "slack"; target = "C1"; native = "1"; meta = [] } ∷ []

abbrev accept_or_reject : AwaitOpts
accept_or_reject = record { timeout = pos 0; options = "accept" ∷ "reject" ∷ [] }

abbrev second : ℕ → ℕ
second n = n

abbrev lasting : ℕ → Option String
lasting n = none

rejected_by_second :
    await_reaction nothing second lasting 0 3 desk "slack" usual posted accept_or_reject
    ≡ some (
        ok (
          verdict_of nothing desk "slack" 1 1
            (record { name = "x"; users = "U2" ∷ "U3" ∷ []; count = pos 2 })
            "reject"
            "U2"))
unfolding await_reaction apply_defaults polls read_receipts first_reaction get
rejected_by_second = refl

await_reaction-IsAwaited_example :
    IsAwaited nothing desk "slack" usual.verdict_by_reaction second lasting accept_or_reject.options
      (deadline_of 0 accept_or_reject.timeout)
      posted
      0
      3
      (await_reaction nothing second lasting 0 3 desk "slack" usual posted accept_or_reject)
await_reaction-IsAwaited_example =
    await_reaction-IsAwaited nothing desk "slack" usual second lasting 0 3 posted accept_or_reject
