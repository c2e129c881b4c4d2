-- ===== src/Broker/Shutdown.antt =====
-- Where the broker of agent/broker.go panics: channels that are closed while they are still in use.
use sibyl.Prelude.{
  ℕ, zero, suc, ◌≡◌, ◌⊎◌, ◌∙◌, refl, ap, String, Bool, true, false, List, [], ◌∷◌, ◌++◌, some, ok,
  err, if◌then◌else◌, get_elem?, nat_eq, arith, Bool-cases, inl, inr, ok-inj, err-ne-ok,
}
use mathlib.Core.Path.{subst}
use mathlib.Core.Option
use sibyl.Broker.{
  Buffered, MemoryBroker, send_on_closed_channel, close_of_closed_channel, update_at, shut, once,
  all_ids, shut_each, cancel, cancel_all, cancel_with, close, send, send_chosen,
}

abbrev pub has : List ℕ → ℕ → Bool
has [] i = false
has (j ∷ js) i = let rest = has js i in if nat_eq j i then true else rest

module _ {Ev : Type 0} where
  get_elem?-update_at :
      (f : Buffered Ev → Buffered Ev) (j i : ℕ) (cs : List (Buffered Ev)) (c : Buffered Ev)
      → get_elem? cs i ≡ some c
      → get_elem? (update_at j f cs) i ≡ some (if nat_eq j i then f c else c)
  get_elem?-update_at f j i [] c h = ground (arith, h)
  get_elem?-update_at f zero zero (d ∷ cs) c h = ap (Option.map f) h
  get_elem?-update_at f zero (suc i) (d ∷ cs) c h = ground (arith, h)
  get_elem?-update_at f (suc j) zero (d ∷ cs) c h = ground (arith, h)
  get_elem?-update_at f (suc j) (suc i) (d ∷ cs) c h =
      ground (arith, get_elem?-update_at f j i cs c h)

  shut_each-again :
      (js : List ℕ) (i : ℕ) (cs : List (Buffered Ev)) (c : Buffered Ev)
      → get_elem? cs i ≡ some (shut c)
      → get_elem? (shut_each js cs) i ≡ some (shut c)
  unfolding shut_each
  shut_each-again [] i cs c h = h
  shut_each-again (j ∷ js) i cs c h = shut_each-again js i (update_at j shut cs) c (
      get_elem?-update_at shut j i cs (shut c) h
      ∙ elim (Bool-cases (nat_eq j i)) [ inl same ↦ rw same refl | inr other ↦ rw other refl ])

  get_elem?-shut_each :
      (js : List ℕ) (i : ℕ) (cs : List (Buffered Ev)) (c : Buffered Ev)
      → has js i ≡ true
      → get_elem? cs i ≡ some c
      → get_elem? (shut_each js cs) i ≡ some (shut c)
  unfolding shut_each
  get_elem?-shut_each [] i cs c m h = cc
  get_elem?-shut_each (j ∷ js) i cs c m h = elim (Bool-cases (nat_eq j i)) [
    | inl same ↦
        shut_each-again js i (update_at j shut cs) c
          (get_elem?-update_at shut j i cs c h ∙ rw same refl)
    | inr other ↦
        get_elem?-shut_each js i (update_at j shut cs) c (rw other at m)
          (get_elem?-update_at shut j i cs c h ∙ rw other refl)
  ]

  -- After Close, the first call of the cancel function of any subscriber that Close found panics with
  -- the close of a closed channel, for subscribers of one workflow and of all.
  pub cancel-close :
      (b : MemoryBroker Ev) (w : String) (i : ℕ) (c : Buffered Ev)
      → b.is_closed ≡ false
      → has (all_ids b.workflow_subs ++ b.all_subs) i ≡ true
      → get_elem? b.channels i ≡ some c
      → c.is_cancelled ≡ false
      → (cancel w i (close b) ≡ err close_of_closed_channel)
        × (cancel_all i (close b) ≡ err close_of_closed_channel)
  unfolding cancel cancel_all close
  cancel-close b w i c open' member found first =
      let e =
        get_elem?-shut_each (all_ids b.workflow_subs ++ b.all_subs) i b.channels c member found in
      (rw (open', e, first) refl, rw (open', e, first) refl)

  -- What the first call of a cancel function leaves of a channel that was still open is closed, so a
  -- send that was counted before panics, whatever else the cancel function did.
  send-cancel_with :
      (b changed after : MemoryBroker Ev) (i k : ℕ) (e : Ev) (c : Buffered Ev)
      → get_elem? b.sending k ≡ some (e, i)
      → get_elem? b.channels i ≡ some c
      → c.is_cancelled ≡ false
      → changed.sending ≡ b.sending
      → cancel_with i (get_elem? b.channels i) b changed ≡ ok after
      → send k after ≡ err send_on_closed_channel
  unfolding send
  send-cancel_with b changed after i k e c pending found first same_sends cancelled =
      let same : nat_eq i i ≡ true = ground arith in
      let closed = get_elem?-update_at once i i b.channels c found in
      elim (Bool-cases c.is_closed) [
        | inl was_shut ↦ err-ne-ok (rw (found, first, was_shut) at cancelled)
        | inr usable ↦
            subst (λ x. send_chosen k (get_elem? x.sending k) x ≡ err send_on_closed_channel)
              (ok-inj (rw (found, first, usable) at cancelled))
              (rw (same_sends, pending, closed, same) refl)
      ]

  -- If a subscriber of one workflow or of all is cancelled, by the first call of its cancel function,
  -- while a Publish that counted it has not yet sent to it, that send panics, since the channel is
  -- closed.
  pub send-cancel :
      (b after : MemoryBroker Ev) (w : String) (i k : ℕ) (e : Ev) (c : Buffered Ev)
      → get_elem? b.sending k ≡ some (e, i)
      → get_elem? b.channels i ≡ some c
      → c.is_cancelled ≡ false
      → (cancel w i b ≡ ok after) ⊎ (cancel_all i b ≡ ok after)
      → send k after ≡ err send_on_closed_channel
  unfolding cancel cancel_all
  send-cancel b after w i k e c pending found first (inl cancelled) =
      send-cancel_with b _ after i k e c pending found first refl cancelled
  send-cancel b after w i k e c pending found first (inr cancelled) =
      send-cancel_with b _ after i k e c pending found first refl cancelled
