-- ===== src/Broker/Steps.antt =====
-- What every run of the broker of agent/broker.go keeps, in any interleaving of its operations.
use sibyl.Prelude.{
  ℕ, zero, suc, ◌≤◌, ◌<◌, ◌≡◌, refl, ap, String, List, [], ◌∷◌, ◌++◌, Option, none, some, ok-inj,
  err-ne-ok, ok, length, length-append, get_elem?, All, All-append, arith, Bool-cases, inl, inr,
  ltb,
}
use mathlib.Core.Path.{subst}
use sibyl.Prelude.Maps.{or_else}
use sibyl.Prelude.Int.{ℤ, pos, negsuc}
use sibyl.Broker.{
  Buffered, MemoryBroker, empty_broker, update_at, new_channel, size_or, rest_of, push, send_to,
  send_chosen, shut, once, cancel_with, pop, begin_publish, send, subscribe, subscribe_all, cancel,
  cancel_all, shut_each, all_ids, close, receive,
}

-- One operation, or one send of a Publish that is under way.
pub data Step {Ev : Type 0} (workflow_id : Ev → String)
    : MemoryBroker Ev → MemoryBroker Ev → Type 0 where
  publishes : (e : Ev) (b : MemoryBroker Ev) → Step workflow_id b (begin_publish workflow_id e b)
  sends : (k : ℕ) (b c : MemoryBroker Ev) → send k b ≡ ok c → Step workflow_id b c
  subscribes :
      (w : String) (buffer : ℤ) (b : MemoryBroker Ev) → Step workflow_id b (subscribe w buffer b)
  subscribes_all : (buffer : ℤ) (b : MemoryBroker Ev) → Step workflow_id b (subscribe_all buffer b)
  cancels :
      (w : String) (i : ℕ) (b c : MemoryBroker Ev) → cancel w i b ≡ ok c → Step workflow_id b c
  cancels_all : (i : ℕ) (b c : MemoryBroker Ev) → cancel_all i b ≡ ok c → Step workflow_id b c
  closes : (b : MemoryBroker Ev) → Step workflow_id b (close b)
  receives : (i : ℕ) (b : MemoryBroker Ev) → Step workflow_id b (receive i b)

pub data Reachable {Ev : Type 0} (workflow_id : Ev → String) : MemoryBroker Ev → Type 0 where
  starts : Reachable workflow_id empty_broker
  continues :
      (b c : MemoryBroker Ev)
      → Reachable workflow_id b
      → Step workflow_id b c
      → Reachable workflow_id c

size_or-pos : (default : ℕ) (n : ℤ) → 1 ≤ default → 1 ≤ size_or default n
size_or-pos default (pos zero) h = h
size_or-pos default (pos (suc n)) h = omega arith
size_or-pos default (negsuc n) h = h

module _ {Ev : Type 0} where
  abbrev pub IsBounded : Buffered Ev → Type 0
  IsBounded c = (1 ≤ c.capacity) × (length c.buffer ≤ c.capacity)

  All-update_at :
      (f : Buffered Ev → Buffered Ev)
      → ((c : Buffered Ev) → IsBounded c → IsBounded (f c))
      → (i : ℕ) (cs : List (Buffered Ev)) → All IsBounded cs
      → All IsBounded (update_at i f cs)
  All-update_at f h i [] p = tt
  All-update_at f h zero (c ∷ cs) p = (h c p.0, p.1)
  All-update_at f h (suc i) (c ∷ cs) p = (p.0, All-update_at f h i cs p.1)

  -- An update at a channel that has room.
  All-push :
      (e : Ev) (i : ℕ) (cs : List (Buffered Ev)) (c : Buffered Ev)
      → get_elem? cs i ≡ some c
      → length c.buffer < c.capacity
      → All IsBounded cs
      → All IsBounded (update_at i (push e) cs)
  All-push e i [] c found room p = tt
  All-push e zero (d ∷ cs) c found room p =
      let same : d ≡ c = ap (λ o. or_else o d) found in
      (
        (
          p.0.0,
          omega (
            arith,
            length-append d.buffer (e ∷ []),
            room,
            ap (λ (x : Buffered Ev). length x.buffer) same,
            ap (λ (x : Buffered Ev). x.capacity) same,
          ),
        ),
        p.1,
      )
  All-push e (suc i) (d ∷ cs) c found room p = (p.0, All-push e i cs c found room p.1)

  length-rest_of-le : (xs : List Ev) → length (rest_of xs) ≤ length xs
  length-rest_of-le [] = omega arith
  length-rest_of-le (x ∷ xs) = omega arith

  pop-IsBounded : (c : Buffered Ev) → IsBounded c → IsBounded (pop c)
  pop-IsBounded c h = (h.0, omega (arith, length-rest_of-le c.buffer, h.1))

  shut_each-IsBounded :
      (js : List ℕ) (cs : List (Buffered Ev)) → All IsBounded cs → All IsBounded (shut_each js cs)
  unfolding shut_each
  shut_each-IsBounded [] cs p = p
  shut_each-IsBounded (i ∷ js) cs p =
      shut_each-IsBounded js (update_at i shut cs) (All-update_at shut (λ c h. h) i cs p)

  new_channel-IsBounded :
      (cs : List (Buffered Ev)) (n : ℕ)
      → 1 ≤ n
      → All IsBounded cs
      → All IsBounded (cs ++ new_channel n ∷ [])
  new_channel-IsBounded cs n h p =
      All-append IsBounded cs (new_channel n ∷ []) p ((h, omega arith), tt)

  abbrev IsSound : MemoryBroker Ev → Type 0
  IsSound b = All IsBounded b.channels

  send_to-IsSound :
      (e : Ev) (i : ℕ) (o : Option (Buffered Ev)) (b c : MemoryBroker Ev)
      → get_elem? b.channels i ≡ o
      → IsSound b
      → send_to e i o b ≡ ok c
      → IsSound c
  send_to-IsSound e i none b c found p h = err-ne-ok h
  send_to-IsSound e i (some d) b c found p h = elim (Bool-cases d.is_closed) [
    | inl was_shut ↦ err-ne-ok (rw was_shut at h)
    | inr usable ↦ elim (Bool-cases (ltb (length d.buffer) d.capacity)) [
      | inl room ↦
          subst (λ (x : MemoryBroker Ev). All IsBounded x.channels)
            (ok-inj (rw (usable, room) at h))
            (All-push e i b.channels d found (ground (arith, room)) p)
      | inr full ↦
          subst (λ (x : MemoryBroker Ev). All IsBounded x.channels)
            (ok-inj (rw (usable, full) at h)) p
    ]
  ]

  send_chosen-IsSound :
      (k : ℕ) (o : Option (Ev × ℕ)) (b c : MemoryBroker Ev)
      → IsSound b
      → send_chosen k o b ≡ ok c
      → IsSound c
  send_chosen-IsSound k none b c p h =
      subst (λ (x : MemoryBroker Ev). All IsBounded x.channels) (ok-inj h) p
  send_chosen-IsSound k (some (e, i)) b c p h =
      send_to-IsSound e i (get_elem? b.channels i) _ c refl p h

  cancel_with-IsSound :
      (i : ℕ) (o : Option (Buffered Ev)) (b after c : MemoryBroker Ev)
      → IsSound b
      → cancel_with i o b after ≡ ok c
      → IsSound c
  cancel_with-IsSound i none b after c p h = err-ne-ok h
  cancel_with-IsSound i (some d) b after c p h = elim (Bool-cases d.is_cancelled) [
    | inl before ↦
        subst (λ (x : MemoryBroker Ev). All IsBounded x.channels) (ok-inj (rw before at h)) p
    | inr first ↦ elim (Bool-cases d.is_closed) [
      | inl was_shut ↦ err-ne-ok (rw (first, was_shut) at h)
      | inr usable ↦
          subst (λ (x : MemoryBroker Ev). All IsBounded x.channels)
            (ok-inj (rw (first, usable) at h)) (All-update_at once (λ c h. h) i b.channels p)
    ]
  ]

module _ {Ev : Type 0} (workflow_id : Ev → String) where
  Step-IsSound : (b c : MemoryBroker Ev) → Step workflow_id b c → IsSound b → IsSound c
  unfolding begin_publish send subscribe subscribe_all cancel cancel_all close receive
  Step-IsSound b _ (publishes e _) p = elim (Bool-cases b.is_closed) [
    | inl was_shut ↦ rw was_shut p
    | inr usable ↦ rw usable p
  ]
  Step-IsSound b c (sends k _ _ h) p = send_chosen-IsSound k (get_elem? b.sending k) b c p h
  Step-IsSound b _ (subscribes w n _) p =
      new_channel-IsBounded b.channels (size_or 64 n) (size_or-pos 64 n (omega arith)) p
  Step-IsSound b _ (subscribes_all n _) p =
      new_channel-IsBounded b.channels (size_or 256 n) (size_or-pos 256 n (omega arith)) p
  Step-IsSound b c (cancels w i _ _ h) p = cancel_with-IsSound i (get_elem? b.channels i) b _ c p h
  Step-IsSound b c (cancels_all i _ _ h) p =
      cancel_with-IsSound i (get_elem? b.channels i) b _ c p h
  Step-IsSound b _ (closes _) p = elim (Bool-cases b.is_closed) [
    | inl was_shut ↦ rw was_shut p
    | inr usable ↦
        rw usable (shut_each-IsBounded (all_ids b.workflow_subs ++ b.all_subs) b.channels p)
  ]
  Step-IsSound b _ (receives i _) p = All-update_at pop pop-IsBounded i b.channels p

  -- In every state the broker reaches, by any interleaving of its operations and of the sends of the
  -- publishes under way, each channel has room for at least one event and holds at most as many as it
  -- has room for.
  pub Reachable-IsBounded :
      (b : MemoryBroker Ev) → Reachable workflow_id b → All IsBounded b.channels
  Reachable-IsBounded _ starts = tt
  Reachable-IsBounded _ (continues b c r s) = Step-IsSound b c s (Reachable-IsBounded b r)
