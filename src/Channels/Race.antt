-- ===== src/Channels/Race.antt =====
-- `Dispatcher.Await` and `normalize` of channels/channels.go.
use sibyl.Prelude.{
  ℕ, ◌+◌, String, List, [], ◌∷◌, ◌++◌, Option, none, some, Result, ok, err, ◌>>=◌, ◌>>◌, fail_if,
  if◌then◌else◌, ◌==◌, nat_eq, is_empty, length,
}
use sibyl.Prelude.Maps.{GoMap, get, put, get_or}
use sibyl.Channels.Types.{
  Receipt, Identity, Verdict, AwaitOpts, ChannelError, timed_out, no_receipts, all_waiters_failed,
  unknown_channel, await_not_supported, Channel, IdentityResolver, Dispatcher,
}

-- groups[r.Channel] = append(groups[r.Channel], r)
unfoldable pub group : GoMap (List Receipt) → List Receipt → GoMap (List Receipt)
group m [] = m
group m (r ∷ rs) = group (put m r.channel (get_or m r.channel [] ++ r ∷ [])) rs

abbrev pub Arrival : Type 0 → Type 0 → Type 0
Arrival A E = Result (ChannelError E) (Verdict A)

abbrev pub count_timeout : {E : Type 0} → ChannelError E → ℕ
count_timeout timed_out = 1
count_timeout _ = 0

module _ {A E : Type 0} where
  abbrev resolved : Verdict A → Result E Identity → Verdict A
  resolved v (ok actor) = record v { actor = actor }
  resolved v (err e) = v

  unfoldable pub normalize : IdentityResolver E → Verdict A → Verdict A
  normalize resolver v =
      let looked_up = resolved v (resolver v.channel v.actor.canonical v.actor.raw) in
      if v.actor.canonical == "" then looked_up else v

  abbrev await_with :
      Dispatcher A E
      → String
      → List Receipt
      → AwaitOpts
      → Option (List Receipt → AwaitOpts → Arrival A E)
      → Arrival A E
  await_with d name rs opts none = err (await_not_supported name)
  await_with d name rs opts (some await) = do v ← await rs opts; ok (normalize d.resolver v)

  abbrev await_on :
      Dispatcher A E → String → List Receipt → AwaitOpts → Option (Channel A E) → Arrival A E
  await_on d name rs opts none = err (unknown_channel name)
  await_on d name rs opts (some ch) = await_with d name rs opts ch.await

  abbrev waiter :
      List Receipt
      → AwaitOpts
      → Option (List Receipt → AwaitOpts → Arrival A E)
      → List (Arrival A E)
  waiter rs opts none = []
  waiter rs opts (some await) = await rs opts ∷ []

  -- What the goroutines that the multi-channel path starts will send.
  unfoldable pub start_waiters :
      Dispatcher A E
      → AwaitOpts
      → GoMap (List Receipt)
      → Result (ChannelError E) (List (Arrival A E))
  start_waiters d opts [] = ok []
  start_waiters d opts ((name, rs) ∷ groups) = elim (get d.channels name) [
    | none ↦ err (unknown_channel name)
    | some ch ↦ do more ← start_waiters d opts groups; ok (waiter rs opts ch.await ++ more)
  ]

  -- The loop over `out`: what arrives, in the order of arrival.
  unfoldable pub first_verdict : Dispatcher A E → ℕ → ℕ → List (Arrival A E) → Arrival A E
  first_verdict d expected timeouts [] =
      if nat_eq timeouts expected then err timed_out else err all_waiters_failed
  first_verdict d expected timeouts (ok v ∷ rest) =
      let later = first_verdict d expected timeouts rest in
      if v.choice == "" then later else ok (normalize d.resolver v)
  first_verdict d expected timeouts (err e ∷ rest) =
      first_verdict d expected (timeouts + count_timeout e) rest

  module _ (arrival_order : List (Arrival A E) → List (Arrival A E)) where
    abbrev race : Dispatcher A E → AwaitOpts → GoMap (List Receipt) → Arrival A E
    race d opts groups = do
      waiters ← start_waiters d opts groups
      first_verdict d (length waiters) 0 (arrival_order waiters)

    abbrev pub await_groups : Dispatcher A E → AwaitOpts → GoMap (List Receipt) → Arrival A E
    await_groups d opts ((name, rs) ∷ []) = await_on d name rs opts (get d.channels name)
    await_groups d opts groups = race d opts groups

    unfoldable pub await : Dispatcher A E → List Receipt → AwaitOpts → Arrival A E
    await d receipts opts = do
      fail_if (is_empty receipts) no_receipts
      await_groups d opts (group [] receipts)
