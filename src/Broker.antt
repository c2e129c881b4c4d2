-- ===== src/Broker.antt =====
-- agent/broker.go: MemoryBroker. A channel is its buffer, and a subscription the number of its channel.
-- Publish counts and snapshots first and then sends without the lock, so the sends that are under way
-- are part of the state, and other operations may come between them. `Ev` is the interface Event.
pub mod Steps
pub mod Shutdown
use sibyl.Prelude.{
  ℕ, zero, suc, ◌+◌, String, Bool, true, false, not, List, [], ◌∷◌, ◌++◌, map, Option, none, some,
  Result, ok, err, ◌>>=◌, ◌>>◌, fail_if, if◌then◌else◌, length, get_elem?, keep, is_empty, nat_eq,
  ltb, flatten,
}
use sibyl.Prelude.Int.{ℤ, pos, negsuc}
use sibyl.Prelude.Maps.{GoMap, get_or, put, delete}

pub record Buffered (Ev : Type 0) : Type 0 where
  pub capacity : ℕ
  pub buffer : List Ev
  pub is_closed : Bool
  pub is_cancelled : Bool

pub record MemoryBroker (Ev : Type 0) : Type 0 where
  pub channels : List (Buffered Ev)
  pub workflow_subs : GoMap (List ℕ)
  pub all_subs : List ℕ
  pub published : ℕ
  pub dropped : ℕ
  pub is_closed : Bool
  pub sending : List (Ev × ℕ)

-- What Go panics with; `no_such_channel` is a number that no subscription has.
pub data Panic : Type 0 where
  send_on_closed_channel close_of_closed_channel no_such_channel : Panic

abbrev pub empty_broker : {Ev : Type 0} → MemoryBroker Ev
empty_broker = record {
  channels = [];
  workflow_subs = [];
  all_subs = [];
  published = 0;
  dropped = 0;
  is_closed = false;
  sending = [];
}

abbrev pub update_at : {A : Type 0} → ℕ → (A → A) → List A → List A
update_at i f [] = []
update_at zero f (x ∷ xs) = f x ∷ xs
update_at (suc i) f (x ∷ xs) = x ∷ update_at i f xs

abbrev pub without : ℕ → List ℕ → List ℕ
without i [] = []
without i (j ∷ js) = let rest = without i js in if nat_eq j i then js else j ∷ rest

abbrev pub size_or : ℕ → ℤ → ℕ
size_or default (pos zero) = default
size_or default (pos (suc n)) = suc n
size_or default (negsuc n) = default

abbrev pub new_channel : {Ev : Type 0} → ℕ → Buffered Ev
new_channel n = record { capacity = n; buffer = []; is_closed = false; is_cancelled = false }

abbrev pub targets : {Ev : Type 0} → MemoryBroker Ev → String → List ℕ
targets b workflow = get_or b.workflow_subs workflow [] ++ b.all_subs

abbrev to_send : {Ev : Type 0} → Ev → List ℕ → List (Ev × ℕ)
to_send e [] = []
to_send e (i ∷ is) = (e, i) ∷ to_send e is

-- The part of Publish that ends with the unlock.
unfoldable pub begin_publish :
    {Ev : Type 0} → (Ev → String) → Ev → MemoryBroker Ev → MemoryBroker Ev
begin_publish workflow_id e b = if b.is_closed then b else record b {
  published = b.published + 1;
  sending = b.sending ++ to_send e (targets b (workflow_id e));
}

abbrev pub push : {Ev : Type 0} → Ev → Buffered Ev → Buffered Ev
push e c = record c { buffer = c.buffer ++ e ∷ [] }

abbrev pub offer : {Ev : Type 0} → Ev → ℕ → Buffered Ev → MemoryBroker Ev → MemoryBroker Ev
offer e i c b =
    if ltb (length c.buffer) c.capacity
    then record b { channels = update_at i (push e) b.channels }
    else record b { dropped = b.dropped + 1 }

abbrev pub send_to :
    {Ev : Type 0} → Ev → ℕ → Option (Buffered Ev) → MemoryBroker Ev → Result Panic (MemoryBroker Ev)
send_to e i none b = err no_such_channel
send_to e i (some c) b = do fail_if c.is_closed send_on_closed_channel; ok (offer e i c b)

abbrev pub drop_at : {A : Type 0} → ℕ → List A → List A
drop_at i [] = []
drop_at zero (x ∷ xs) = xs
drop_at (suc i) (x ∷ xs) = x ∷ drop_at i xs

abbrev pub send_chosen :
    {Ev : Type 0} → ℕ → Option (Ev × ℕ) → MemoryBroker Ev → Result Panic (MemoryBroker Ev)
send_chosen k none b = ok b
send_chosen k (some (e, i)) b =
    send_to e i (get_elem? b.channels i) (record b { sending = drop_at k b.sending })

-- One send of a Publish that is under way.
unfoldable pub send : {Ev : Type 0} → ℕ → MemoryBroker Ev → Result Panic (MemoryBroker Ev)
send k b = send_chosen k (get_elem? b.sending k) b

unfoldable pub subscribe : {Ev : Type 0} → String → ℤ → MemoryBroker Ev → MemoryBroker Ev
subscribe workflow buffer b = record b {
  channels = b.channels ++ new_channel (size_or 64 buffer) ∷ [];
  workflow_subs =
      put b.workflow_subs workflow (get_or b.workflow_subs workflow [] ++ length b.channels ∷ []);
}

unfoldable pub subscribe_all : {Ev : Type 0} → ℤ → MemoryBroker Ev → MemoryBroker Ev
subscribe_all buffer b = record b {
  channels = b.channels ++ new_channel (size_or 256 buffer) ∷ [];
  all_subs = b.all_subs ++ length b.channels ∷ [];
}

abbrev pub shut : {Ev : Type 0} → Buffered Ev → Buffered Ev
shut c = record c { is_closed = true }

abbrev pub once : {Ev : Type 0} → Buffered Ev → Buffered Ev
once c = record c { is_closed = true; is_cancelled = true }

abbrev pub unsubscribed : GoMap (List ℕ) → String → List ℕ → GoMap (List ℕ)
unsubscribed m workflow rest = if is_empty rest then delete m workflow else put m workflow rest

-- `subs` is the broker without the subscription.
abbrev pub cancel_with :
    {Ev : Type 0}
    → ℕ
    → Option (Buffered Ev)
    → MemoryBroker Ev
    → MemoryBroker Ev
    → Result Panic (MemoryBroker Ev)
cancel_with i none b subs = err no_such_channel
cancel_with i (some c) b subs =
    let after = record subs { channels = update_at i once b.channels } in
    if c.is_cancelled then ok b else if c.is_closed then err close_of_closed_channel else ok after

-- The cancel function of Subscribe, whose second call does nothing.
unfoldable pub cancel :
    {Ev : Type 0} → String → ℕ → MemoryBroker Ev → Result Panic (MemoryBroker Ev)
cancel workflow i b = cancel_with i (get_elem? b.channels i) b (record b {
  workflow_subs =
      unsubscribed b.workflow_subs workflow (without i (get_or b.workflow_subs workflow []));
})

-- The cancel function of SubscribeAll.
unfoldable pub cancel_all : {Ev : Type 0} → ℕ → MemoryBroker Ev → Result Panic (MemoryBroker Ev)
cancel_all i b =
    cancel_with i (get_elem? b.channels i) b (record b { all_subs = without i b.all_subs })

-- `safeClose` on each channel, which closes again without a panic.
unfoldable pub shut_each : {Ev : Type 0} → List ℕ → List (Buffered Ev) → List (Buffered Ev)
shut_each [] cs = cs
shut_each (i ∷ is) cs = shut_each is (update_at i shut cs)

abbrev pub all_ids : GoMap (List ℕ) → List ℕ
all_ids [] = []
all_ids ((k, is) ∷ m) = is ++ all_ids m

unfoldable pub close : {Ev : Type 0} → MemoryBroker Ev → MemoryBroker Ev
close b =
    let subs = all_ids b.workflow_subs ++ b.all_subs in
    if b.is_closed then b else record b {
      is_closed = true;
      workflow_subs = [];
      all_subs = [];
      channels = shut_each subs b.channels;
    }

abbrev pub rest_of : {A : Type 0} → List A → List A
rest_of [] = []
rest_of (x ∷ xs) = xs

abbrev pub pop : {Ev : Type 0} → Buffered Ev → Buffered Ev
pop c = record c { buffer = rest_of c.buffer }

-- A subscriber takes the next event of its channel.
unfoldable pub receive : {Ev : Type 0} → ℕ → MemoryBroker Ev → MemoryBroker Ev
receive i b = record b { channels = update_at i pop b.channels }
