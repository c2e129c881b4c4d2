-- ===== src/Examples/BrokerRuns.antt =====
-- agent/broker.go: one subscriber of all workflows, with room for one event.
use sibyl.Prelude.{◌≡◌, refl, String, true, false, [], ◌∷◌, err, inr, All}
use sibyl.Prelude.Int.{pos}
use sibyl.Broker.{
  MemoryBroker, Buffered, send_on_closed_channel, close_of_closed_channel, empty_broker,
  begin_publish, send, subscribe_all, cancel, cancel_all, close,
}
use sibyl.Broker.Steps.{
  IsBounded, publishes, subscribes_all, Reachable, starts, continues, Reachable-IsBounded,
}
use sibyl.Broker.Shutdown.{cancel-close, send-cancel}

-- An event is the ID of its workflow.
abbrev itself : String → String
itself e = e

abbrev one_place : Buffered String
one_place = record { capacity = 1; buffer = []; is_closed = false; is_cancelled = false }

abbrev listening : MemoryBroker String
listening = record empty_broker { channels = one_place ∷ []; all_subs = 0 ∷ [] }

-- A Publish has counted and made its snapshot.
abbrev publishing : MemoryBroker String
publishing = record listening { published = 1; sending = ("w", 0) ∷ [] }

abbrev cancelled : MemoryBroker String
cancelled = record publishing {
  channels = record { capacity = 1; buffer = []; is_closed = true; is_cancelled = true } ∷ [];
  all_subs = [];
}

subscribed-Reachable : Reachable itself (subscribe_all (pos 1) empty_broker)
subscribed-Reachable = continues empty_broker _ starts (subscribes_all (pos 1) empty_broker)

publishing-Reachable :
    Reachable itself (begin_publish itself "w" (subscribe_all (pos 1) empty_broker))
publishing-Reachable =
    continues _ _ subscribed-Reachable (publishes "w" (subscribe_all (pos 1) empty_broker))

Reachable-IsBounded_example :
    All IsBounded (begin_publish itself "w" (subscribe_all (pos 1) empty_broker)).channels
Reachable-IsBounded_example =
    Reachable-IsBounded itself (begin_publish itself "w" (subscribe_all (pos 1) empty_broker))
      publishing-Reachable

cancel-close_example :
    (cancel "w" 0 (close listening) ≡ err close_of_closed_channel)
    × (cancel_all 0 (close listening) ≡ err close_of_closed_channel)
cancel-close_example = cancel-close listening "w" 0 one_place refl refl refl refl

send-cancel_example : send 0 cancelled ≡ err send_on_closed_channel
unfolding cancel_all
send-cancel_example =
    send-cancel publishing cancelled "w" 0 0 "w" one_place refl refl refl (inr refl)
