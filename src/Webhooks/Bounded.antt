-- ===== src/Webhooks/Bounded.antt =====
-- The history's bound, whatever happens: `record` in packages/server/src/webhooks.ts.
use loyalty_interchange_prot.Base.{◌≤◌, ◌<◌, String, List, [], ◌∷◌, length, arith}
use loyalty_interchange_prot.Webhooks.State.{ManagedSubscription, Write, Dispatcher, Setup}
use loyalty_interchange_prot.Webhooks.Dispatcher.{
  persist, enqueue, dequeue, record_delivery, persist_subscriptions,
}
use loyalty_interchange_prot.Webhooks.Trace.{
  Stored, System, Event, emitted, resumed, upserted, unsubscribed, rotated, retried, replayed,
  answer, wake, settled, written, write_failed, end_first, step, run,
}
use loyalty_interchange_prot.Webhooks.Kept.{IsKept, dispatch-kept}
use loyalty_interchange_prot.Webhooks.Durable.{length-recorded}
use loyalty_interchange_prot.Webhooks.Restart.{loaded, create, loaded-bounded}

module _ (setup : Setup) where
  abbrev IsBounded : Dispatcher → Type 0
  IsBounded d = length d.history ≤ setup.history_limit

  IsBounded-IsKept : IsKept setup IsBounded
  unfolding enqueue dequeue record_delivery persist_subscriptions persist
  IsBounded-IsKept = record {
    enqueued = λ entry d h. h;
    dequeued = λ id d h. h;
    recorded = λ a d h. ground (arith, length-recorded setup a d.history);
    told = λ d h. ground arith;
    subscriptions = λ l d h. h;
    pending = λ m d h. h;
  }

  end_first-IsBounded :
      (f : Write → Stored → Stored) (ws : List Write) (s : System)
      → IsBounded s.dispatcher
      → IsBounded (end_first f ws s).dispatcher
  unfolding end_first
  end_first-IsBounded f [] s h = h
  end_first-IsBounded f (w ∷ ws) s h = h

  step-IsBounded :
      (now : String) (e : Event) (s : System)
      → IsBounded s.dispatcher
      → IsBounded (step setup now e s).dispatcher
  unfolding step
  step-IsBounded now written s h = end_first-IsBounded _ s.dispatcher.writes s h
  step-IsBounded now write_failed s h = end_first-IsBounded _ s.dispatcher.writes s h
  step-IsBounded now (emitted x) s h =
      dispatch-kept setup IsBounded-IsKept now (emitted x) s.dispatcher h
  step-IsBounded now resumed s h = dispatch-kept setup IsBounded-IsKept now resumed s.dispatcher h
  step-IsBounded now (upserted r x) s h =
      dispatch-kept setup IsBounded-IsKept now (upserted r x) s.dispatcher h
  step-IsBounded now (unsubscribed x) s h =
      dispatch-kept setup IsBounded-IsKept now (unsubscribed x) s.dispatcher h
  step-IsBounded now (rotated x y) s h =
      dispatch-kept setup IsBounded-IsKept now (rotated x y) s.dispatcher h
  step-IsBounded now (retried x) s h =
      dispatch-kept setup IsBounded-IsKept now (retried x) s.dispatcher h
  step-IsBounded now (replayed x) s h =
      dispatch-kept setup IsBounded-IsKept now (replayed x) s.dispatcher h
  step-IsBounded now (answer x r) s h =
      dispatch-kept setup IsBounded-IsKept now (answer x r) s.dispatcher h
  step-IsBounded now (wake x) s h = dispatch-kept setup IsBounded-IsKept now (wake x) s.dispatcher h
  step-IsBounded now (settled x) s h =
      dispatch-kept setup IsBounded-IsKept now (settled x) s.dispatcher h

  run-IsBounded :
      (es : List (String × Event)) (s : System)
      → IsBounded s.dispatcher
      → IsBounded (run setup es s).dispatcher
  unfolding run
  run-IsBounded [] s h = h
  run-IsBounded ((now, e) ∷ es) s h =
      run-IsBounded es (step setup now e s) (step-IsBounded now e s h)

  -- Where the limit is not zero, a dispatcher created over any stores never keeps more deliveries in its history than the limit,
  -- whatever events follow, lost writes among them.
  pub length-history-run :
      (subscriptions : List ManagedSubscription) (stored : Stored) (es : List (String × Event))
      → 0 < setup.history_limit
      → length
          (run setup es (record {
            dispatcher = create setup subscriptions stored;
            stored = stored;
          })).dispatcher.history
        ≤ setup.history_limit
  unfolding create
  length-history-run subscriptions stored es h =
      let d = loaded setup subscriptions stored in
      run-IsBounded es (record { dispatcher = persist_subscriptions setup d; stored = stored })
        (IsBounded-IsKept.told d (loaded-bounded setup subscriptions stored h))
