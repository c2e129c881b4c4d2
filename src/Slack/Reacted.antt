-- ===== src/Slack/Reacted.antt =====
-- Which reactions the Slack adapter of channels/slack/slack.go takes for a verdict.
use sibyl.Prelude.{
  ℕ, zero, suc, ◌≡◌, refl, String, true, false, List, [], ◌∷◌, Option, none, some, Result, ok, err,
  ltb, ◌==◌, eq_iff, Any, Bool-cases, inl, inr,
}
use sibyl.Prelude.Maps.{GoMap, get}
use sibyl.Channels.Types.{Receipt, Verdict, AwaitOpts, ChannelError, timed_out, adapter_failed}
use sibyl.Slack.{
  Reaction, Client, Settings, AnyOf, is_allowed, first_user, valid_action, reads_as, verdict_of,
  read_or, first_reaction, reactions_or_none, read_receipt, first_some, read_receipts, wait_more,
  after_poll, polls, deadline_of, await_reaction,
}

module _ {A E : Type 0} (any : AnyOf A) (client : Client E) (name : String) (actions : GoMap String)
    (clock : ℕ → ℕ) (ended : ℕ → Option E) (options : List String) where
  -- A reaction says what a verdict says.
  abbrev Says : ℕ → Verdict A → Reaction → Type 0
  Says poll v x =
      (action : String) × (get actions x.name ≡ some action)
      × (is_allowed options action ≡ true)
      × (user : String) × (users : List String) × (x.users ≡ user ∷ users)
      × (v ≡ verdict_of any client name poll (clock poll) x action user)

  -- The receipt is one of this adapter, and a reaction to its message says so.
  abbrev BackedBy : ℕ → Verdict A → Receipt → Type 0
  BackedBy poll v r =
      (r.channel ≡ name)
      × (rs : List Reaction) × (client.get_reactions poll r.target r.native ≡ ok rs)
      × Any (Says poll v) rs

  abbrev BackedByOr : ℕ → Receipt → Option (Verdict A) → Type 0
  BackedByOr poll r none = Unit
  BackedByOr poll r (some v) = BackedBy poll v r

  abbrev pub receipts_say : ℕ → List Receipt → Option (Verdict A)
  receipts_say = read_receipts any client name actions clock ended options

  abbrev Backed : ℕ → List Receipt → Option (Verdict A) → Type 0
  Backed poll receipts none = Unit
  Backed poll receipts (some v) = Any (BackedBy poll v) receipts

  abbrev Said : ℕ → List Reaction → Option (Verdict A) → Type 0
  Said poll rs none = Unit
  Said poll rs (some v) = Any (Says poll v) rs

  abbrev Meant : Reaction → Option (String × String) → Type 0
  Meant x none = Unit
  Meant x (some (action, user)) =
      (get actions x.name ≡ some action)
      × (is_allowed options action ≡ true)
      × (users : List String) × (x.users ≡ user ∷ users)

  first_user-Meant :
      (x : Reaction) (action : String) (us : List String)
      → get actions x.name ≡ some action
      → is_allowed options action ≡ true
      → x.users ≡ us
      → Meant x (first_user action us)
  first_user-Meant x action [] known allowed e = tt
  first_user-Meant x action (u ∷ us) known allowed e = (known, allowed, us, e)

  valid_action-Meant :
      (x : Reaction) (o : Option String)
      → get actions x.name ≡ o
      → Meant x (valid_action options x.users o)
  valid_action-Meant x none known = tt
  valid_action-Meant x (some action) known = elim (Bool-cases (is_allowed options action)) [
    | inl allowed ↦ rw allowed (first_user-Meant x action x.users known allowed refl)
    | inr barred ↦ rw barred tt
  ]

  read_or-Said :
      (poll : ℕ) (x : Reaction) (rs : List Reaction) (o : Option (String × String))
      (rest : Option (Verdict A))
      → Meant x o
      → Said poll rs rest
      → Said poll (x ∷ rs) (read_or any client name actions clock ended options poll x o rest)
  read_or-Said poll x rs none none m s = tt
  read_or-Said poll x rs none (some v) m s = inr s
  read_or-Said poll x rs (some (action, user)) rest (known, allowed, users, e) s =
      inl (action, known, allowed, user, users, e, refl)

  first_reaction-Said :
      (poll : ℕ) (rs : List Reaction)
      → Said poll rs (first_reaction any client name actions clock ended options poll rs)
  unfolding first_reaction
  first_reaction-Said poll [] = tt
  first_reaction-Said poll (x ∷ rs) =
      read_or-Said poll x rs (reads_as actions options x) _
        (valid_action-Meant x (get actions x.name) refl) (first_reaction-Said poll rs)

  Said-Backed :
      (poll : ℕ) (r : Receipt) (rs : List Reaction) (o : Option (Verdict A))
      → r.channel ≡ name
      → client.get_reactions poll r.target r.native ≡ ok rs
      → Said poll rs o
      → BackedByOr poll r o
  Said-Backed poll r rs none mine read said = tt
  Said-Backed poll r rs (some v) mine read said = (mine, rs, read, said)

  reactions-Backed :
      (poll : ℕ) (r : Receipt) (answer : Result E (List Reaction))
      → r.channel ≡ name
      → client.get_reactions poll r.target r.native ≡ answer
      → BackedByOr poll r
          (reactions_or_none any client name actions clock ended options poll answer)
  reactions-Backed poll r (err x) mine read = tt
  reactions-Backed poll r (ok rs) mine read =
      Said-Backed poll r rs _ mine read (first_reaction-Said poll rs)

  read_receipt-Backed :
      (poll : ℕ) (r : Receipt)
      → BackedByOr poll r (read_receipt any client name actions clock ended options poll r)
  read_receipt-Backed poll r = elim (Bool-cases (r.channel == name)) [
    | inl mine ↦ rw mine (reactions-Backed poll r _ ((eq_iff _ _).0 mine) refl)
    | inr other ↦ rw other tt
  ]

  first_some-Backed :
      (poll : ℕ) (r : Receipt) (rs : List Receipt) (o rest : Option (Verdict A))
      → BackedByOr poll r o
      → Backed poll rs rest
      → Backed poll (r ∷ rs) (first_some any client name actions clock ended options o rest)
  first_some-Backed poll r rs none none b h = tt
  first_some-Backed poll r rs none (some v) b h = inr h
  first_some-Backed poll r rs (some v) rest b h = inl b

  read_receipts-Backed : (poll : ℕ) (rs : List Receipt) → Backed poll rs (receipts_say poll rs)
  unfolding read_receipts
  read_receipts-Backed poll [] = tt
  read_receipts-Backed poll (r ∷ rs) =
      first_some-Backed poll r rs _ _ (read_receipt-Backed poll r) (read_receipts-Backed poll rs)

  module _ (deadline : ℕ) (receipts : List Receipt) where
    -- No poll before this one found a verdict.
    abbrev Silent : ℕ → Type 0
    Silent zero = Unit
    Silent (suc n) = Silent n × (receipts_say n receipts ≡ none)

    -- So many polls from one on ended by the deadline.
    abbrev Early : ℕ → ℕ → Type 0
    Early poll zero = Unit
    Early poll (suc more) = (ltb deadline (clock poll) ≡ false) × Early (suc poll) more

    -- How a wait ends.
    abbrev IsEnd : Result (ChannelError E) (Verdict A) → Type 0
    IsEnd (ok v) = (n : ℕ) × Silent n × Any (BackedBy n v) receipts
    IsEnd (err timed_out) = (n : ℕ) × Silent (suc n) × (ltb deadline (clock n) ≡ true)
    IsEnd (err (adapter_failed e)) =
        (n : ℕ) × Silent (suc n) × (ltb deadline (clock n) ≡ false) × (ended n ≡ some e)
    IsEnd (err _) = ⊥

    abbrev pub IsAwaited : ℕ → ℕ → Option (Result (ChannelError E) (Verdict A)) → Type 0
    IsAwaited poll more none = Early poll more
    IsAwaited poll more (some r) = IsEnd r

    IsAwaited-suc :
        (poll more : ℕ) (r : Option (Result (ChannelError E) (Verdict A)))
        → ltb deadline (clock poll) ≡ false
        → IsAwaited (suc poll) more r
        → IsAwaited poll (suc more) r
    IsAwaited-suc poll more none early h = (early, h)
    IsAwaited-suc poll more (some r) early h = h

    wait_more-IsAwaited :
        (poll more : ℕ) (o : Option E) (rest : Option (Result (ChannelError E) (Verdict A)))
        → Silent (suc poll)
        → ltb deadline (clock poll) ≡ false
        → ended poll ≡ o
        → IsAwaited (suc poll) more rest
        → IsAwaited poll (suc more) (wait_more any client name actions clock ended options o rest)
    wait_more-IsAwaited poll more none rest silent early alive h =
        IsAwaited-suc poll more rest early h
    wait_more-IsAwaited poll more (some e) rest silent early over h = (poll, silent, early, over)

    after_poll-IsAwaited :
        (poll more : ℕ) (o : Option (Verdict A))
        (rest : Option (Result (ChannelError E) (Verdict A)))
        → Silent poll
        → receipts_say poll receipts ≡ o
        → Backed poll receipts o
        → (Silent (suc poll) → IsAwaited (suc poll) more rest)
        → IsAwaited poll
            (suc more)
            (after_poll any client name actions clock ended options deadline poll o rest)
    after_poll-IsAwaited poll more (some v) rest silent says b go = (poll, silent, b)
    after_poll-IsAwaited poll more none rest silent says b go =
        elim (Bool-cases (ltb deadline (clock poll))) [
          | inl late ↦ rw late (poll, (silent, says), late)
          | inr early ↦ rw early (
              wait_more-IsAwaited poll more (ended poll) rest (silent, says) early refl
                (go (silent, says)))
        ]

    polls-IsAwaited :
        (more poll : ℕ)
        → Silent poll
        → IsAwaited poll more
            (polls any client name actions clock ended options more deadline receipts poll)
    unfolding polls
    polls-IsAwaited zero poll silent = tt
    polls-IsAwaited (suc more) poll silent =
        after_poll-IsAwaited poll more (receipts_say poll receipts) _ silent refl
          (read_receipts-Backed poll receipts) (polls-IsAwaited more (suc poll))

module _ {A E : Type 0} (any : AnyOf A) (client : Client E) (name : String) (settings : Settings)
    (clock : ℕ → ℕ) (ended : ℕ → Option E) (start more : ℕ) (receipts : List Receipt)
    (opts : AwaitOpts) where
  -- The wait of the Slack adapter ends with a verdict only if, in the poll that ends it, a user
  -- reacted to the message of a receipt of this adapter, with a reaction that stands for the choice,
  -- and the options allow the choice; no poll before that found one. It times out only at the end of a
  -- poll after the deadline, when no poll found a verdict, and fails otherwise only with the end of
  -- the context. It goes on past a number of polls only if all of them ended by the deadline.
  pub await_reaction-IsAwaited :
      IsAwaited any client name settings.verdict_by_reaction clock ended opts.options
        (deadline_of start opts.timeout)
        receipts
        0
        more
        (await_reaction any clock ended start more client name settings receipts opts)
  unfolding await_reaction
  await_reaction-IsAwaited =
      polls-IsAwaited any client name settings.verdict_by_reaction clock ended opts.options
        (deadline_of start opts.timeout) receipts more 0 tt
