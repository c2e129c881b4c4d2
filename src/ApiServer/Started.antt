-- ===== src/ApiServer/Started.antt =====
-- cmd/api-server/main.go: who sees the event that POST /run publishes.
use sibyl.Prelude.{
  ℕ, ◌≡◌, refl, ap, String, [], ◌∷◌, ◌++◌, Option, none, some, Result, ok, err, Bool-cases, inl,
  inr, ◌==◌,
}
use mathlib.Core.List.{append-nil}
use sibyl.Broker.{MemoryBroker, begin_publish, subscribe, targets, new_channel}
use sibyl.Events.{Event, workflow_of}
use sibyl.Review.{PrReviewInput}
use sibyl.ApiServer.{
  Ran, workflow_id, answered, run_decoded, handle_run, diff_or_default, review_input, started_event,
  subscribed,
}

begin_publish-unseen :
    {Ev : Type 0} (id : Ev → String) (e : Ev) (b : MemoryBroker Ev)
    → targets b (id e) ≡ []
    → ((begin_publish id e b).sending ≡ b.sending) × ((begin_publish id e b).channels ≡ b.channels)
unfolding begin_publish
begin_publish-unseen id e b h = elim (Bool-cases b.is_closed) [
  | inl closed ↦ rw closed (refl, refl)
  | inr running ↦ rw (running, h) (append-nil b.sending, refl)
]

module _ {A F : Type 0} (execute : String → PrReviewInput → Option F) (request : String → A)
    (now : ℕ) (uuid : String) where
  abbrev IsUnseen : MemoryBroker (Event A) → Ran A F → Type 0
  IsUnseen b r = (r.broker.sending ≡ b.sending) × (r.broker.channels ≡ b.channels)

  answered-IsUnseen :
      (diff : String) (failed : Option F) (b : MemoryBroker (Event A))
      → targets b (workflow_id execute request now uuid) ≡ []
      → IsUnseen b (answered execute request now uuid diff failed b)
  answered-IsUnseen diff (some e) b h = (refl, refl)
  answered-IsUnseen diff none b h =
      begin_publish-unseen workflow_of
        (started_event request now (workflow_id execute request now uuid) diff) b h

  run_decoded-IsUnseen :
      (body : Result F String) (b : MemoryBroker (Event A))
      → targets b (workflow_id execute request now uuid) ≡ []
      → IsUnseen b (run_decoded execute request now uuid body b)
  run_decoded-IsUnseen (err e) b h = (refl, refl)
  run_decoded-IsUnseen (ok diff) b h =
      answered-IsUnseen (diff_or_default diff)
        (execute (workflow_id execute request now uuid) (review_input (diff_or_default diff))) b h

  handle_run-IsUnseen :
      (method : String) (body : Result F String) (b : MemoryBroker (Event A))
      → targets b (workflow_id execute request now uuid) ≡ []
      → IsUnseen b (handle_run execute request now uuid method body b)
  unfolding handle_run
  handle_run-IsUnseen method body b h = elim (Bool-cases (method == "POST")) [
    | inl post ↦ rw post (run_decoded-IsUnseen body b h)
    | inr other ↦ rw other (refl, refl)
  ]

  -- Where nobody subscribes to the new identifier, which the client does not have before the answer,
  -- or to all events: whoever subscribes to it after POST /run starts with an empty channel, and no
  -- send is owed that was not owed before, so the event of the start reaches no one.
  pub subscribed-handle_run :
      (method : String) (body : Result F String) (b : MemoryBroker (Event A))
      → targets b (workflow_id execute request now uuid) ≡ []
      → let b' =
          subscribed
            (workflow_id execute request now uuid)
            (handle_run execute request now uuid method body b).broker in
        (b'.channels ≡ b.channels ++ new_channel 256 ∷ []) × (b'.sending ≡ b.sending)
  unfolding subscribe
  subscribed-handle_run method body b h =
      let (owed, same) = handle_run-IsUnseen method body b h in
      (ap (λ cs. cs ++ new_channel 256 ∷ []) same, owed)
