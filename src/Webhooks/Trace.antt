-- ===== src/Webhooks/Trace.antt =====
-- What can happen to a webhook dispatcher and its stores, one event at a time: a method is called,
-- an awaited answer or pause of a delivery comes to its end, a write succeeds or fails. Between two
-- events no code of packages/server/src/webhooks.ts runs.
use loyalty_interchange_prot.Base.{
  String, ◌≡◌, Bool, true, false, Option, List, [], ◌∷◌, get_or, option_elim, if◌then◌else◌,
}
use loyalty_interchange_prot.Base.Assoc.{Assoc, lookup, insert, erase}
use loyalty_interchange_prot.Webhooks.State.{
  LoyaltyEvent, WebhookSubscription, ManagedSubscription, OutboxEntry, ArchiveEntry, Write, put,
  remove, save_history, subscriptions_changed, is_sending, is_sleeping, is_returned, Flight,
  Dispatcher, Setup,
}
use loyalty_interchange_prot.Webhooks.Dispatcher.{attempt, take_answer}
use loyalty_interchange_prot.Webhooks.Methods.{
  emit, resume_pending, upsert_subscription, remove_subscription, rotate_secret, retry_delivery,
  replay_delivery,
}

-- what the stores hold: the outbox by delivery id, as a WebhookOutboxStore lists it
pub record Stored : Type 0 where
  pub outbox : Assoc OutboxEntry
  pub history : List ArchiveEntry
  pub subscriptions : List ManagedSubscription

-- a write that succeeds
unfoldable pub apply_write : Write → Stored → Stored
apply_write (put entry) s = record s { outbox = insert entry.delivery_id entry s.outbox }
apply_write (remove id) s = record s { outbox = erase id s.outbox }
apply_write (save_history history) s = record s { history = history }
apply_write (subscriptions_changed subscriptions) s = record s { subscriptions = subscriptions }

unfoldable pub apply_writes : List Write → Stored → Stored
unfolding apply_write
apply_writes [] s = s
apply_writes (w ∷ ws) s = apply_writes ws (apply_write w s)

-- a dispatcher with its stores
pub record System : Type 0 where
  pub dispatcher : Dispatcher
  pub stored : Stored

-- `emitted` to `replayed` are the calls; `answer` ends a request, `wake` a pause, `settled` runs the
-- `finally` of a delivery that has returned; `written` and `write_failed` end the first write.
pub data Event : Type 0 where
  emitted : LoyaltyEvent → Event
  resumed : Event
  upserted : String → WebhookSubscription → Event
  unsubscribed : String → Event
  rotated : String → String → Event
  retried : String → Event
  replayed : String → Event
  answer : String → Option String → Event
  wake : String → Event
  settled : String → Event
  written : Event
  write_failed : Event

-- the first write that waits is taken off, and made or lost
unfoldable pub end_first : (Write → Stored → Stored) → List Write → System → System
end_first f [] s = s
end_first f (w ∷ ws) s = record {
  dispatcher = record s.dispatcher { writes = ws };
  stored = f w s.stored;
}

abbrev pub put_flight : String → Dispatcher × Flight → Dispatcher
put_flight id (d, f) = record d { pending = insert id f d.pending }

module _ (setup : Setup) (now : String) where
  -- the delivery waits for its destination, and hears of it
  unfoldable pub answer_flight : String → Option String → Flight → Dispatcher → Dispatcher
  unfolding take_answer
  answer_flight id result f d =
      if is_sending f.phase then put_flight id (take_answer setup now result f d) else d

  -- the pause before the next attempt is over
  unfoldable pub wake_flight : String → Flight → Dispatcher → Dispatcher
  unfolding attempt
  wake_flight id f d =
      if is_sleeping f.phase
      then put_flight id (attempt now f.subscription f.current f.cycle_attempt d)
      else d

  -- `pending.delete`
  unfoldable pub settle_flight : String → Flight → Dispatcher → Dispatcher
  settle_flight id f d =
      if is_returned f.phase then record d { pending = erase id d.pending } else d

  abbrev pub on_flight : String → (Flight → Dispatcher → Dispatcher) → Dispatcher → Dispatcher
  on_flight id f d = option_elim (lookup id d.pending) d (λ x. f x d)

  -- what an event does to the dispatcher, the writes' ends left out
  unfoldable pub dispatch : Event → Dispatcher → Dispatcher
  unfolding emit resume_pending upsert_subscription remove_subscription rotate_secret retry_delivery
      replay_delivery answer_flight wake_flight settle_flight
  dispatch (emitted event) d = emit setup now event d
  dispatch resumed d = resume_pending setup now d
  dispatch (upserted random_id input) d = get_or (upsert_subscription setup random_id input d) d
  dispatch (unsubscribed id) d = (remove_subscription setup id d).0
  dispatch (rotated id secret) d = get_or (rotate_secret setup id secret d) d
  dispatch (retried id) d = (retry_delivery setup now id d).0
  dispatch (replayed id) d = (replay_delivery setup now id d).0
  dispatch (answer id result) d = on_flight id (answer_flight id result) d
  dispatch (wake id) d = on_flight id (wake_flight id) d
  dispatch (settled id) d = on_flight id (settle_flight id) d
  dispatch written d = d
  dispatch write_failed d = d

  unfoldable pub step : Event → System → System
  unfolding dispatch end_first apply_write
  step written s = end_first apply_write s.dispatcher.writes s
  step write_failed s = end_first (λ w t. t) s.dispatcher.writes s
  step e s = record s { dispatcher = dispatch e s.dispatcher }

-- events at their times, in order
unfoldable pub run : Setup → List (String × Event) → System → System
unfolding step
run setup [] s = s
run setup ((now, e) ∷ es) s = run setup es (step setup now e s)

-- the writes that wait, made one after another
unfoldable pub flush_writes : Setup → List Write → System → System
unfolding step
flush_writes setup [] s = s
flush_writes setup (w ∷ ws) s = flush_writes setup ws (step setup "" written s)

unfoldable pub flush : Setup → System → System
unfolding flush_writes
flush setup s = flush_writes setup s.dispatcher.writes s

-- no write is lost
abbrev pub is_loss : Event → Bool
is_loss write_failed = true
is_loss _ = false

unfoldable pub IsLossless : List (String × Event) → Type 0
IsLossless [] = Unit {0}
IsLossless ((now, e) ∷ es) = (is_loss e ≡ false) × IsLossless es
