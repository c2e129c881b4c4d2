-- ===== src/Channels/Delivery.antt =====
-- What `Dispatcher.Notify` of channels/channels.go delivers.
use sibyl.Prelude.{
  ◌+◌, ◌≡◌, ◌⊎◌, ◌∙◌, refl, ap, String, List, [], ◌∷◌, ◌++◌, Option, none, some, Result, ok, err,
  length, is_empty, false, arith, Result-cases, inl, inr,
}
use mathlib.Core.List.{append_assoc, append-nil}
use sibyl.Prelude.Maps.{GoMap, get}
use sibyl.Channels.Types.{
  Message, Receipt, no_target, router_failed, Channel, PostResult, PostError, channel_unknown,
  not_supported, post_failed, Target, Router, Dispatcher,
}
use sibyl.Channels.Post.{posted, post_with, post_on, post_all, channel_names, notify}

-- What became of the post to one target.
abbrev pub Attempt : Type 0 → Type 0
Attempt E = Result (PostError E) Receipt

module _ {E : Type 0} where
  abbrev pub receipts_of : List (Attempt E) → List Receipt
  receipts_of [] = []
  receipts_of (ok x ∷ os) = x ∷ receipts_of os
  receipts_of (err e ∷ os) = receipts_of os

  abbrev pub errors_of : List (Attempt E) → List (PostError E)
  errors_of [] = []
  errors_of (ok x ∷ os) = errors_of os
  errors_of (err e ∷ os) = e ∷ errors_of os

  abbrev and_then : PostResult E → List (Attempt E) → PostResult E
  and_then r os = record {
    receipts = r.receipts ++ receipts_of os;
    errors = r.errors ++ errors_of os;
  }

  and_then-cons :
      (r : PostResult E) (o : Attempt E) (os : List (Attempt E))
      → and_then (and_then r (o ∷ [])) os ≡ and_then r (o ∷ os)
  and_then-cons r (ok x) os =
      rw (append_assoc r.receipts (x ∷ []) (receipts_of os), append-nil r.errors) refl
  and_then-cons r (err e) os =
      rw (append_assoc r.errors (e ∷ []) (errors_of os), append-nil r.receipts) refl

module _ {A E : Type 0} (channels : GoMap (Channel A E)) (msg : Message) where
  -- What the post to a target comes to: the receipt of its channel, which was given the address and
  -- the message; or the error that says which channel is unknown, cannot post, or failed to.
  abbrev pub IsAttempt : Target → Attempt E → Type 0
  IsAttempt t (ok x) =
      (ch : Channel A E) × (get channels t.channel ≡ some ch)
      × (send : String → Message → Result E Receipt) × (ch.notify ≡ some send)
      × (send t.target msg ≡ ok x)
  IsAttempt t (err (channel_unknown name)) = (name ≡ t.channel) × (get channels t.channel ≡ none)
  IsAttempt t (err (not_supported name)) =
      (name ≡ t.channel)
      × (ch : Channel A E) × (get channels t.channel ≡ some ch)
      × (ch.notify ≡ none)
  IsAttempt t (err (post_failed name e)) =
      (name ≡ t.channel)
      × (ch : Channel A E) × (get channels t.channel ≡ some ch)
      × (send : String → Message → Result E Receipt) × (ch.notify ≡ some send)
      × (send t.target msg ≡ err e)

  -- One attempt for each target, in their order.
  abbrev pub AreAttempts : List Target → List (Attempt E) → Type 0
  AreAttempts [] [] = Unit
  AreAttempts [] (o ∷ os) = ⊥
  AreAttempts (t ∷ ts) [] = ⊥
  AreAttempts (t ∷ ts) (o ∷ os) = IsAttempt t o × AreAttempts ts os

  abbrev IsStep : Target → PostResult E → PostResult E → Type 0
  IsStep t r r' = (o : Attempt E) × IsAttempt t o × (r' ≡ and_then r (o ∷ []))

  posted-IsStep :
      (t : Target) (r : PostResult E) (ch : Channel A E)
      (send : String → Message → Result E Receipt) (o : Result E Receipt)
      → get channels t.channel ≡ some ch
      → ch.notify ≡ some send
      → send t.target msg ≡ o
      → IsStep t r (posted t o r)
  posted-IsStep t r ch send (ok x) found able sent =
      (ok x, (ch, found, send, able, sent), rw (append-nil r.errors) refl)
  posted-IsStep t r ch send (err e) found able sent = (
    err (post_failed t.channel e),
    (refl, ch, found, send, able, sent),
    rw (append-nil r.receipts) refl,
  )

  post_with-IsStep :
      (t : Target) (r : PostResult E) (ch : Channel A E)
      (o : Option (String → Message → Result E Receipt))
      → get channels t.channel ≡ some ch
      → ch.notify ≡ o
      → IsStep t r (post_with msg t o r)
  post_with-IsStep t r ch none found unable =
      (err (not_supported t.channel), (refl, ch, found, unable), rw (append-nil r.receipts) refl)
  post_with-IsStep t r ch (some send) found able =
      posted-IsStep t r ch send (send t.target msg) found able refl

  post_on-IsStep :
      (t : Target) (r : PostResult E) (o : Option (Channel A E))
      → get channels t.channel ≡ o
      → IsStep t r (post_on msg t o r)
  post_on-IsStep t r none missing =
      (err (channel_unknown t.channel), (refl, missing), rw (append-nil r.receipts) refl)
  post_on-IsStep t r (some ch) found = post_with-IsStep t r ch ch.notify found refl

  post_all-AreAttempts :
      (ts : List Target) (r : PostResult E)
      → (os : List (Attempt E)) × AreAttempts ts os × (post_all channels msg ts r ≡ and_then r os)
  unfolding post_all
  post_all-AreAttempts [] r = ([], tt, rw (append-nil r.receipts, append-nil r.errors) refl)
  post_all-AreAttempts (t ∷ ts) r =
      let (o, tried, step) = post_on-IsStep t r (get channels t.channel) refl in
      let (os, later, rest) = post_all-AreAttempts ts (post_on msg t (get channels t.channel) r) in
      (o ∷ os, (tried, later), rest ∙ ap (λ x. and_then x os) step ∙ and_then-cons r o os)

  AreAttempts-count :
      (ts : List Target) (os : List (Attempt E))
      → AreAttempts ts os
      → length (receipts_of os) + length (errors_of os) ≡ length ts
  AreAttempts-count [] [] h = refl
  AreAttempts-count [] (o ∷ os) h = absurd h
  AreAttempts-count (t ∷ ts) [] h = absurd h
  AreAttempts-count (t ∷ ts) (ok x ∷ os) h = omega (arith, AreAttempts-count ts os h.1)
  AreAttempts-count (t ∷ ts) (err e ∷ os) h = omega (arith, AreAttempts-count ts os h.1)

module _ {A E : Type 0} (d : Dispatcher A E) (router : Router E) (msg : Message) where
  abbrev pub IsDelivery : List Target → PostResult E → Type 0
  IsDelivery ts r =
      (os : List (Attempt E)) × AreAttempts d.channels msg ts os
      × (r.receipts ≡ receipts_of os)
      × (r.errors ≡ errors_of os)
      × (length r.receipts + length r.errors ≡ length ts)

  -- With a router set, Notify fails with the router's error, or because the router chose nothing.
  -- Where the router chose a target, every target is tried in order, whatever became of the others:
  -- its channel, if there is one that can post, gets the message for the address of the target. Each
  -- is reported as exactly one receipt, the one of the channel, or one error, which names the channel.
  pub notify_outcome :
      d.router ≡ some router
      → ((e : E) × (router (channel_names d) msg ≡ err e) × (notify d msg ≡ err (router_failed e)))
        ⊎ (router (channel_names d) msg ≡ ok []) × (notify d msg ≡ err no_target)
        ⊎ ((ts : List Target) × (r : PostResult E) × (router (channel_names d) msg ≡ ok ts)
            × (is_empty ts ≡ false)
            × (notify d msg ≡ ok r)
            × IsDelivery ts r)
  unfolding notify
  notify_outcome set = elim (Result-cases (router (channel_names d) msg)) [
    | inl (e, failed) ↦ inl (e, failed, rw (set, failed) refl)
    | inr ([], none_chosen) ↦ inr (inl (none_chosen, rw (set, none_chosen) refl))
    | inr (t ∷ ts, chosen) ↦
        let (os, tried, e) =
          post_all-AreAttempts d.channels msg (t ∷ ts) (record { receipts = []; errors = [] }) in
        inr (
          inr (
            t ∷ ts,
            record { receipts = receipts_of os; errors = errors_of os },
            chosen,
            refl,
            rw (set, chosen) (ap ok e),
            (os, tried, refl, refl, AreAttempts-count d.channels msg (t ∷ ts) os tried),
          ))
  ]
