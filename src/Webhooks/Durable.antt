-- ===== src/Webhooks/Durable.antt =====
-- What holds after any events: the history's bound, and that the outbox follows the queue.
use loyalty_interchange_prot.Base.{
  ◌-◌, ◌≤◌, String, ◌≡◌, refl, ap, true, Bool-cases, inl, inr, List, [], ◌∷◌, ◌++◌, length, arith,
}
use loyalty_interchange_prot.Base.Assoc.{Assoc, insert, erase}
use loyalty_interchange_prot.Base.Lists.{length-drop}
use loyalty_interchange_prot.Webhooks.State.{
  OutboxEntry, ArchiveEntry, Write, put, remove, save_history, subscriptions_changed, Dispatcher,
  Setup,
}
use loyalty_interchange_prot.Webhooks.Dispatcher.{
  enqueue, dequeue, recorded, record_delivery, persist_subscriptions,
}
use loyalty_interchange_prot.Webhooks.Trace.{Stored, apply_write, apply_writes}
use loyalty_interchange_prot.Webhooks.Queue.{IsQueue, enqueue-IsQueue, erase-IsQueue}
use loyalty_interchange_prot.Webhooks.Kept.{IsKept}

pub length-recorded :
    (setup : Setup) (a : ArchiveEntry) (h : List ArchiveEntry)
    → length (recorded setup a h) ≤ setup.history_limit
unfolding recorded
length-recorded setup a h =
    let longer : List ArchiveEntry = h ++ a ∷ [] in
    omega (arith, length-drop (length longer - setup.history_limit) longer)

apply_writes-append :
    (ws vs : List Write) (s : Stored)
    → apply_writes (ws ++ vs) s ≡ apply_writes vs (apply_writes ws s)
unfolding apply_writes
apply_writes-append [] vs s = refl
apply_writes-append (w ∷ ws) vs s = apply_writes-append ws vs (apply_write w s)

-- one more write
outbox-persist :
    (stored : Stored) (w : Write) (ws : List Write) (q q' : Assoc OutboxEntry)
    → (apply_writes ws stored).outbox ≡ q
    → ((s : Stored) → s.outbox ≡ q → (apply_write w s).outbox ≡ q')
    → (apply_writes (ws ++ w ∷ []) stored).outbox ≡ q'
unfolding apply_writes
outbox-persist stored w ws q q' h f =
    rw (apply_writes-append ws (w ∷ []) stored) (f (apply_writes ws stored) h)

history-persist :
    (stored : Stored) (w : Write) (ws : List Write) (q q' : List ArchiveEntry)
    → (apply_writes ws stored).history ≡ q
    → ((s : Stored) → s.history ≡ q → (apply_write w s).history ≡ q')
    → (apply_writes (ws ++ w ∷ []) stored).history ≡ q'
unfolding apply_writes
history-persist stored w ws q q' h f =
    rw (apply_writes-append ws (w ∷ []) stored) (f (apply_writes ws stored) h)

-- The writes that wait bring the outbox to the queue, and the archive, where there is one, to the
-- history; the queue is keyed, and the history stays in its bound.
pub record IsDurable (setup : Setup) (stored : Stored) (d : Dispatcher) : Type 0 where
  pub outbox : (apply_writes d.writes stored).outbox ≡ d.queued
  pub archive : setup.has_history_store ≡ true → (apply_writes d.writes stored).history ≡ d.history
  pub queue : IsQueue d.queued
  pub bounded : length d.history ≤ setup.history_limit

module _ (setup : Setup) (stored : Stored) where
  enqueue-IsDurable :
      (entry : OutboxEntry) (d : Dispatcher)
      → IsDurable setup stored d
      → IsDurable setup stored (enqueue entry d)
  unfolding enqueue apply_write
  enqueue-IsDurable entry d k = record {
    outbox =
        outbox-persist stored (put entry) d.writes d.queued _ k.outbox
          (λ s e. ap (insert entry.delivery_id entry) e);
    archive = λ h.
        history-persist stored (put entry) d.writes d.history d.history (k.archive h) (λ s e. e);
    queue = enqueue-IsQueue entry d.queued k.queue;
    bounded = k.bounded;
  }

  dequeue-IsDurable :
      (id : String) (d : Dispatcher)
      → IsDurable setup stored d
      → IsDurable setup stored (dequeue id d)
  unfolding dequeue apply_write
  dequeue-IsDurable id d k = record {
    outbox =
        outbox-persist stored (remove id) d.writes d.queued _ k.outbox (λ s e. ap (erase id) e);
    archive = λ h.
        history-persist stored (remove id) d.writes d.history d.history (k.archive h) (λ s e. e);
    queue = erase-IsQueue id d.queued k.queue;
    bounded = k.bounded;
  }

  record_delivery-IsDurable :
      (a : ArchiveEntry) (d : Dispatcher)
      → IsDurable setup stored d
      → IsDurable setup stored (record_delivery setup a d)
  unfolding record_delivery apply_write
  record_delivery-IsDurable a d k = elim (Bool-cases setup.has_history_store) [
    | inl e ↦ rw e (record {
      outbox = outbox-persist stored (save_history _) d.writes d.queued _ k.outbox (λ s e. e);
      archive = λ h.
          history-persist stored (save_history _) d.writes d.history _ (k.archive e) (λ s e. refl);
      queue = k.queue;
      bounded = length-recorded setup a d.history;
    })
    | inr e ↦ rw e (record {
      outbox = k.outbox;
      archive = λ h. absurd (cc);
      queue = k.queue;
      bounded = length-recorded setup a d.history;
    })
  ]

  persist_subscriptions-IsDurable :
      (d : Dispatcher)
      → IsDurable setup stored d
      → IsDurable setup stored (persist_subscriptions setup d)
  unfolding persist_subscriptions apply_write
  persist_subscriptions-IsDurable d k = elim (Bool-cases setup.tells_subscriptions) [
    | inl e ↦ rw e (record {
      outbox =
          outbox-persist stored (subscriptions_changed _) d.writes d.queued _ k.outbox (λ s e. e);
      archive = λ h.
          history-persist stored (subscriptions_changed _) d.writes d.history _ (k.archive h)
            (λ s e. e);
      queue = k.queue;
      bounded = k.bounded;
    })
    | inr e ↦ simp e k
  ]

  pub IsDurable-IsKept : IsKept setup (IsDurable setup stored)
  IsDurable-IsKept = record {
    enqueued = enqueue-IsDurable;
    dequeued = dequeue-IsDurable;
    recorded = record_delivery-IsDurable;
    told = persist_subscriptions-IsDurable;
    subscriptions = λ l d k. record {
      outbox = k.outbox;
      archive = k.archive;
      queue = k.queue;
      bounded = k.bounded;
    };
    pending = λ m d k. record {
      outbox = k.outbox;
      archive = k.archive;
      queue = k.queue;
      bounded = k.bounded;
    };
  }
