-- ===== src/Webhooks/Restart.antt =====
-- Restarts: `WebhookDispatcher.create` over the stores that a dispatcher has written to, in
-- packages/server/src/webhooks.ts.
use loyalty_interchange_prot.Base.{
  ◌<◌, ◌==◌, Bool-cases, inl, inr, ℕ, ◌-◌, ◌≤◌, String, ◌≡◌, refl, ◌∙◌, sym, subst, true, false,
  List, [], ◌∷◌, length, arith, if◌then◌else◌,
}
use loyalty_interchange_prot.Base.Assoc.{values}
use loyalty_interchange_prot.Base.Lists.{drop, length-drop}
use loyalty_interchange_prot.Webhooks.State.{ManagedSubscription, Write, Dispatcher, Setup}
use loyalty_interchange_prot.Webhooks.Dispatcher.{persist_subscriptions}
use loyalty_interchange_prot.Webhooks.Trace.{
  Stored, apply_write, apply_writes, System, Event, emitted, resumed, upserted, unsubscribed,
  rotated, retried, replayed, answer, wake, settled, written, write_failed, dispatch, end_first,
  step, run, flush_writes, flush, IsLossless, is_loss,
}
use loyalty_interchange_prot.Webhooks.Kept.{dispatch-kept}
use loyalty_interchange_prot.Webhooks.Queue.{IsQueue, queue_all, queue_all-values}
use loyalty_interchange_prot.Webhooks.Durable.{IsDurable, IsDurable-IsKept}

-- `list.slice(-limit)`, which is the whole list where the limit is zero
unfoldable pub slice_last : {A : Type 0} → ℕ → List A → List A
unfolding drop
slice_last limit xs = if limit == 0 then xs else drop (length xs - limit) xs

-- what the constructor and the stores give, given the subscriptions that the constructor builds
unfoldable pub loaded : Setup → List ManagedSubscription → Stored → Dispatcher
unfolding queue_all slice_last
loaded setup subscriptions stored = record {
  subscriptions = subscriptions;
  queued = queue_all (values stored.outbox) [];
  history = if setup.has_history_store then slice_last setup.history_limit stored.history else [];
  pending = [];
  writes = [];
}

-- `create`
unfoldable pub create : Setup → List ManagedSubscription → Stored → Dispatcher
unfolding loaded persist_subscriptions
create setup subscriptions stored = persist_subscriptions setup (loaded setup subscriptions stored)

module _ (setup : Setup) where
  abbrev pub IsSynced : System → Type 0
  IsSynced s = IsDurable setup s.stored s.dispatcher

  end_first-IsSynced :
      (ws : List Write) (s : System)
      → s.dispatcher.writes ≡ ws
      → IsSynced s
      → IsSynced (end_first apply_write ws s)
  unfolding end_first apply_writes
  end_first-IsSynced [] s e k = k
  end_first-IsSynced (w ∷ ws) s e k = record {
    outbox = rw e at k.outbox;
    archive = λ h. rw e at (k.archive h);
    queue = k.queue;
    bounded = k.bounded;
  }

  kept :
      (now : String) (e : Event) (s : System)
      → IsSynced s
      → IsDurable setup s.stored (dispatch setup now e s.dispatcher)
  kept now e s k = dispatch-kept setup (IsDurable-IsKept setup s.stored) now e s.dispatcher k

  step-IsSynced :
      (now : String) (e : Event) (s : System)
      → is_loss e ≡ false
      → IsSynced s
      → IsSynced (step setup now e s)
  unfolding step
  step-IsSynced now written s h k = end_first-IsSynced s.dispatcher.writes s refl k
  step-IsSynced now write_failed s h k = absurd (cc)
  step-IsSynced now (emitted x) s h k = kept now (emitted x) s k
  step-IsSynced now resumed s h k = kept now resumed s k
  step-IsSynced now (upserted r x) s h k = kept now (upserted r x) s k
  step-IsSynced now (unsubscribed x) s h k = kept now (unsubscribed x) s k
  step-IsSynced now (rotated x y) s h k = kept now (rotated x y) s k
  step-IsSynced now (retried x) s h k = kept now (retried x) s k
  step-IsSynced now (replayed x) s h k = kept now (replayed x) s k
  step-IsSynced now (answer x r) s h k = kept now (answer x r) s k
  step-IsSynced now (wake x) s h k = kept now (wake x) s k
  step-IsSynced now (settled x) s h k = kept now (settled x) s k

  run-IsSynced :
      (es : List (String × Event)) (s : System)
      → IsLossless es
      → IsSynced s
      → IsSynced (run setup es s)
  unfolding run IsLossless
  run-IsSynced [] s h k = k
  run-IsSynced ((now, e) ∷ es) s h k =
      run-IsSynced es (step setup now e s) h.1 (step-IsSynced now e s h.0 k)

  -- all writes that wait are made
  flushed : (ws : List Write) (s : System) → System
  flushed ws s = record {
    dispatcher = record s.dispatcher { writes = [] };
    stored = apply_writes ws s.stored;
  }

  flush_writes-eq-flushed :
      (ws : List Write) (s : System)
      → s.dispatcher.writes ≡ ws
      → flush_writes setup ws s ≡ flushed ws s
  unfolding flush_writes flushed apply_writes step end_first
  flush_writes-eq-flushed [] s e = ground arith
  flush_writes-eq-flushed (w ∷ ws) s e = rw e (
      flush_writes-eq-flushed ws
        (record {
          dispatcher = record s.dispatcher { writes = ws };
          stored = apply_write w s.stored;
        })
        refl)

  flush-eq-flushed : (s : System) → flush setup s ≡ flushed s.dispatcher.writes s
  unfolding flush
  flush-eq-flushed s = flush_writes-eq-flushed s.dispatcher.writes s refl

module _ (setup : Setup) (subscriptions : List ManagedSubscription) where
  slice_last-short : {A : Type 0} (n : ℕ) (xs : List A) → length xs ≤ n → slice_last n xs ≡ xs
  unfolding slice_last drop
  slice_last-short n xs h =
      let none_dropped : length xs - n ≡ 0 = omega arith in
      elim (Bool-cases (n == 0)) [ inl e ↦ rw e refl | inr e ↦ rw (e, none_dropped) refl ]

  loaded-queued :
      (stored : Stored)
      → IsQueue stored.outbox
      → (loaded setup subscriptions stored).queued ≡ stored.outbox
  unfolding loaded
  loaded-queued stored q = queue_all-values stored.outbox q

  loaded-history :
      (stored : Stored)
      → setup.has_history_store ≡ true
      → length stored.history ≤ setup.history_limit
      → (loaded setup subscriptions stored).history ≡ stored.history
  unfolding loaded
  loaded-history stored has b = rw has (slice_last-short setup.history_limit stored.history b)

  pub loaded-bounded :
      (stored : Stored)
      → 0 < setup.history_limit
      → length (loaded setup subscriptions stored).history ≤ setup.history_limit
  unfolding loaded slice_last
  loaded-bounded stored h =
      ground (arith, length-drop (length stored.history - setup.history_limit) stored.history)

  loaded-short :
      (stored : Stored)
      → length stored.history ≤ setup.history_limit
      → length (loaded setup subscriptions stored).history ≤ setup.history_limit
  unfolding loaded
  loaded-short stored b = ground (arith, slice_last-short setup.history_limit stored.history b)

  loaded-IsDurable :
      (stored : Stored)
      → IsQueue stored.outbox
      → length stored.history ≤ setup.history_limit
      → IsDurable setup stored (loaded setup subscriptions stored)
  unfolding apply_writes loaded
  loaded-IsDurable stored q b = record {
    outbox = sym (loaded-queued stored q);
    archive = λ has. sym (loaded-history stored has b);
    queue = subst IsQueue (sym (loaded-queued stored q)) q;
    bounded = loaded-short stored b;
  }

  created-IsDurable :
      (stored : Stored)
      → IsQueue stored.outbox
      → length stored.history ≤ setup.history_limit
      → IsDurable setup stored (create setup subscriptions stored)
  unfolding create
  created-IsDurable stored q b =
      (IsDurable-IsKept setup stored).told _ (loaded-IsDurable stored q b)

  -- telling of the subscriptions changes neither the queue nor the history
  told-same :
      (d : Dispatcher)
      → ((persist_subscriptions setup d).queued ≡ d.queued)
        × ((persist_subscriptions setup d).history ≡ d.history)
  unfolding persist_subscriptions
  told-same d = ground arith

  -- what a dispatcher created over the flushed stores has
  create-flushed :
      (s : System)
      → setup.has_history_store ≡ true
      → IsSynced setup s
      → ((create setup subscriptions (flushed setup s.dispatcher.writes s).stored).queued
          ≡ s.dispatcher.queued)
        × ((create setup subscriptions (flushed setup s.dispatcher.writes s).stored).history
            ≡ s.dispatcher.history)
  unfolding create flushed
  create-flushed s has k =
      let stored = apply_writes s.dispatcher.writes s.stored in
      let same = told-same (loaded setup subscriptions stored) in
      (
        same.0 ∙ loaded-queued stored (subst IsQueue (sym k.outbox) k.queue) ∙ k.outbox,
        same.1 ∙ loaded-history stored has (rw (k.archive has) k.bounded) ∙ k.archive has,
      )

  -- With a history store, after any events that lose no write, and once the writes that wait are made,
  -- a dispatcher that is created over the same stores has the queue and the history that the old one
  -- has, where the stores that the old one began with hold a keyed outbox and a history within the
  -- limit.
  pub create-run :
      (stored : Stored) (es : List (String × Event))
      → setup.has_history_store ≡ true
      → IsQueue stored.outbox
      → length stored.history ≤ setup.history_limit
      → IsLossless es
      → let s =
          run setup es
            (record { dispatcher = create setup subscriptions stored; stored = stored }) in
        ((create setup subscriptions (flush setup s).stored).queued ≡ s.dispatcher.queued)
        × ((create setup subscriptions (flush setup s).stored).history ≡ s.dispatcher.history)
  create-run stored es has q b h =
      let s =
        run setup es (record { dispatcher = create setup subscriptions stored; stored = stored }) in
      rw (flush-eq-flushed setup s)
        (create-flushed s has (run-IsSynced setup es _ h (created-IsDurable stored q b)))
