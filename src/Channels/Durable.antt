-- ===== src/Channels/Durable.antt =====
-- channels/temporal/temporal.go: the activities that run Notify and Await of a dispatcher, and how a
-- workflow calls them. The heartbeats are left out.
use sibyl.Prelude.{ℕ, zero, suc, ◌+◌, Option, none, some, Result, ok, err, nat_eq, if◌then◌else◌}
use sibyl.Prelude.Int.{ℤ, pos, negsuc}
use sibyl.Channels.Types.{Dispatcher}

pub data BindingError : Type 0 where
  dispatcher_required : BindingError

-- A nil dispatcher is `none`.
unfoldable pub new_activities :
    {A E : Type 0} → Option (Dispatcher A E) → Result BindingError (Dispatcher A E)
new_activities none = err dispatcher_required
new_activities (some d) = ok d

-- Times are in nanoseconds.
pub record ActivityTerms : Type 0 where
  pub start_to_close_timeout : ℕ
  pub heartbeat_timeout : ℕ
  pub initial_interval : ℕ
  pub maximum_attempts : ℕ

-- The options of a context with a timeout stay as they are.
unfoldable pub post_terms : ActivityTerms → ActivityTerms
post_terms given =
    if nat_eq given.start_to_close_timeout 0
    then record {
      start_to_close_timeout = 30000000000;
      heartbeat_timeout = 0;
      initial_interval = 1000000000;
      maximum_attempts = 3;
    }
    else given

abbrev pub wait_of : ℤ → ℕ
wait_of (pos zero) = 1800000000000
wait_of (pos (suc n)) = suc n
wait_of (negsuc n) = 1800000000000

-- Five minutes more than the wait, and no second attempt.
unfoldable pub await_terms : ℤ → ActivityTerms
await_terms timeout = record {
  start_to_close_timeout = wait_of timeout + 300000000000;
  heartbeat_timeout = 30000000000;
  initial_interval = 0;
  maximum_attempts = 1;
}
