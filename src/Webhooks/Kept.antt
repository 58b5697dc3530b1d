-- ===== src/Webhooks/Kept.antt =====
-- What the primitive writes of a dispatcher keep, every event keeps: one rule for each of
-- `queued.set`, `queued.delete`, `record`, `persistSubscriptions` and the two plain assignments.
use loyalty_interchange_prot.Base.{
  ℕ, ◌+◌, String, Bool-cases, Option, none, some, Option-cases, inl, inr, List, [], ◌∷◌, str_eq,
  find, leb, ltb, get_or, option_elim,
}
use loyalty_interchange_prot.Base.Assoc.{Assoc, lookup, values, has}
use loyalty_interchange_prot.Webhooks.State.{
  LoyaltyEvent, WebhookSubscription, ManagedSubscription, OutboxEntry, ArchiveEntry, Flight,
  Dispatcher, Setup, is_deliverable, is_removed, is_sending, is_sleeping, is_returned,
}
use loyalty_interchange_prot.Webhooks.Dispatcher.{
  enqueue, dequeue, record_delivery, persist_subscriptions, delivery_state, advance, attempt,
  attempt_limit, next_round, take_answer, schedule,
}
use loyalty_interchange_prot.Webhooks.Methods.{
  for_all, emit, emit_to, takes, resume_pending, resume_entry, subscription_for, managed,
  upsert_subscription, remove_subscription, drop_entry, with_secret, rotate_secret, retry_delivery,
  outbox_entry, find_last, replay_delivery,
}
use loyalty_interchange_prot.Webhooks.Trace.{
  Event, emitted, resumed, upserted, unsubscribed, rotated, retried, replayed, answer, wake,
  settled, written, write_failed, answer_flight, wake_flight, settle_flight, dispatch,
}

-- closed under the primitive writes
pub record IsKept (setup : Setup) (P : Dispatcher → Type 0) : Type 0 where
  pub enqueued : (entry : OutboxEntry) (d : Dispatcher) → P d → P (enqueue entry d)
  pub dequeued : (id : String) (d : Dispatcher) → P d → P (dequeue id d)
  pub recorded : (a : ArchiveEntry) (d : Dispatcher) → P d → P (record_delivery setup a d)
  pub told : (d : Dispatcher) → P d → P (persist_subscriptions setup d)
  pub subscriptions :
      (l : List ManagedSubscription) (d : Dispatcher) → P d → P (record d { subscriptions = l })
  pub pending : (m : Assoc Flight) (d : Dispatcher) → P d → P (record d { pending = m })

module _ (setup : Setup) {P : Dispatcher → Type 0} (k : IsKept setup P) (now : String) where
  advance-kept :
      (s : ManagedSubscription) (next : OutboxEntry) (d : Dispatcher) → P d → P (advance s next d).0
  unfolding advance
  advance-kept s next d p = elim (Bool-cases (is_removed (delivery_state d.subscriptions s))) [
    | inl e ↦ rw e p
    | inr e ↦ rw e (k.enqueued next d p)
  ]

  attempt-kept :
      (s : ManagedSubscription) (current : OutboxEntry) (n : ℕ) (d : Dispatcher)
      → P d
      → P (attempt now s current n d).0
  unfolding attempt
  attempt-kept s current n d p =
      elim (Bool-cases (is_deliverable (delivery_state d.subscriptions s))) [
        | inl e ↦ rw e (advance-kept s _ d p)
        | inr e ↦ rw e p
      ]

  next_round-kept :
      (s : ManagedSubscription) (current : OutboxEntry) (n : ℕ) (error : String) (d : Dispatcher)
      → P d
      → P (next_round setup now s current n error d).0
  unfolding next_round
  next_round-kept s current n error d p = elim (Bool-cases (leb n (attempt_limit setup s))) [
    | inl e ↦ rw e (elim (Bool-cases (ltb 1 n)) [
      | inl l ↦ rw l p
      | inr l ↦ rw l (attempt-kept s current n d p)
    ])
    | inr e ↦ rw e (k.recorded _ d p)
  ]

  take_answer-kept :
      (result : Option String) (f : Flight) (d : Dispatcher)
      → P d
      → P (take_answer setup now result f d).0
  unfolding take_answer
  take_answer-kept none f d p = k.recorded _ _ (k.dequeued _ d p)
  take_answer-kept (some error) f d p =
      let next : OutboxEntry = record f.current { last_error = some error; updated_at = now } in
      let step = advance f.subscription next d in
      let kept = advance-kept f.subscription next d p in
      elim (Bool-cases (is_deliverable step.1)) [
        | inl e ↦ rw e (next_round-kept f.subscription next (f.cycle_attempt + 1) error step.0 kept)
        | inr e ↦ rw e kept
      ]

  schedule-kept :
      (entry : OutboxEntry) (s : ManagedSubscription) (d : Dispatcher)
      → P d
      → P (schedule setup now entry s d)
  unfolding schedule
  schedule-kept entry s d p = elim (Bool-cases (has entry.delivery_id d.pending)) [
    | inl e ↦ rw e p
    | inr e ↦ rw e (k.pending _ _ (next_round-kept s entry 1 _ d p))
  ]

  for_all-kept :
      {A : Type 0} (f : A → Dispatcher → Dispatcher)
      → ((x : A) (d : Dispatcher) → P d → P (f x d))
      → (xs : List A) (d : Dispatcher) → P d
      → P (for_all f xs d)
  unfolding for_all
  for_all-kept f h [] d p = p
  for_all-kept f h (x ∷ xs) d p = for_all-kept f h xs (f x d) (h x d p)

  emit_to-kept :
      (event : LoyaltyEvent) (s : ManagedSubscription) (d : Dispatcher)
      → P d
      → P (emit_to setup now event s d)
  unfolding emit_to
  emit_to-kept event s d p = elim (Bool-cases (takes s event)) [
    | inl e ↦ rw e (schedule-kept _ s _ (k.enqueued _ d p))
    | inr e ↦ rw e p
  ]

  resume_entry-kept :
      (entry : OutboxEntry) (d : Dispatcher) → P d → P (resume_entry setup now entry d)
  unfolding resume_entry
  resume_entry-kept entry d p = elim (Option-cases (subscription_for entry.url d.subscriptions)) [
    | inl e ↦ rw e p
    | inr (s, e) ↦ rw e (schedule-kept entry s d p)
  ]

  upsert_subscription-kept :
      (random_id : String) (input : WebhookSubscription) (d : Dispatcher)
      → P d
      → P (get_or (upsert_subscription setup random_id input d) d)
  unfolding upsert_subscription
  upsert_subscription-kept random_id input d p =
      elim (Option-cases (managed setup random_id input)) [
        | inl e ↦ rw (get_or, e) p
        | inr (s, e) ↦ rw (get_or, e) (k.told _ (k.subscriptions _ d p))
      ]

  drop_entry-kept :
      (url : String) (entry : OutboxEntry) (d : Dispatcher) → P d → P (drop_entry url entry d)
  unfolding drop_entry
  drop_entry-kept url entry d p = elim (Bool-cases (str_eq entry.url url)) [
    | inl e ↦ rw e (k.dequeued _ d p)
    | inr e ↦ rw e p
  ]

  remove_subscription-kept :
      (id : String) (d : Dispatcher) → P d → P (remove_subscription setup id d).0
  unfolding remove_subscription
  remove_subscription-kept id d p =
      elim (Option-cases (find (λ c. str_eq c.subscription_id id) d.subscriptions)) [
        | inl e ↦ rw (remove_subscription, e) p
        | inr (s, e) ↦
            rw (remove_subscription, e)
              (k.told _ (
                for_all-kept (drop_entry s.url) (drop_entry-kept s.url) (values d.queued) _
                  (k.subscriptions _ d p)))
      ]

  rotate_secret-kept :
      (id secret : String) (d : Dispatcher) → P d → P (get_or (rotate_secret setup id secret d) d)
  unfolding rotate_secret
  rotate_secret-kept id secret d p =
      elim (Option-cases (find (λ c. str_eq c.subscription_id id) d.subscriptions)) [
        | inl e ↦ rw (get_or, e) p
        | inr (s, e) ↦ rw (get_or, e) (upsert_subscription-kept "" (with_secret secret s) d p)
      ]

  retry_delivery-kept : (id : String) (d : Dispatcher) → P d → P (retry_delivery setup now id d).0
  unfolding retry_delivery
  retry_delivery-kept id d p = elim (Option-cases (lookup id d.queued)) [
    | inl e ↦ rw (retry_delivery, e) p
    | inr (entry, e) ↦
        rw (retry_delivery, e)
          (elim (Option-cases (subscription_for entry.url d.subscriptions)) [
            | inl f ↦ rw f p
            | inr (s, f) ↦ rw f (schedule-kept entry s d p)
          ])
  ]

  replay_delivery-kept : (id : String) (d : Dispatcher) → P d → P (replay_delivery setup now id d).0
  unfolding replay_delivery
  replay_delivery-kept id d p =
      elim (Option-cases (find_last (λ a. str_eq a.delivery_id id) d.history)) [
        | inl e ↦ rw (replay_delivery, e) p
        | inr (a, e) ↦
            rw (replay_delivery, e)
              (elim (Option-cases (subscription_for a.url d.subscriptions)) [
                | inl f ↦ rw f p
                | inr (s, f) ↦
                    rw f
                      (schedule-kept (outbox_entry setup now a.event a.url) s _ (k.enqueued _ d p))
              ])
      ]

  answer_flight-kept :
      (id : String) (result : Option String) (f : Flight) (d : Dispatcher)
      → P d
      → P (answer_flight setup now id result f d)
  unfolding answer_flight
  answer_flight-kept id result f d p = elim (Bool-cases (is_sending f.phase)) [
    | inl e ↦ rw e (k.pending _ _ (take_answer-kept result f d p))
    | inr e ↦ rw e p
  ]

  wake_flight-kept :
      (id : String) (f : Flight) (d : Dispatcher) → P d → P (wake_flight setup now id f d)
  unfolding wake_flight
  wake_flight-kept id f d p = elim (Bool-cases (is_sleeping f.phase)) [
    | inl e ↦ rw e (k.pending _ _ (attempt-kept f.subscription f.current f.cycle_attempt d p))
    | inr e ↦ rw e p
  ]

  settle_flight-kept :
      (id : String) (f : Flight) (d : Dispatcher) → P d → P (settle_flight setup now id f d)
  unfolding settle_flight
  settle_flight-kept id f d p = elim (Bool-cases (is_returned f.phase)) [
    | inl e ↦ rw e (k.pending _ d p)
    | inr e ↦ rw e p
  ]

  on_flight-kept :
      (o : Option Flight) (g : Flight → Dispatcher → Dispatcher) (d : Dispatcher)
      → ((f : Flight) → P (g f d))
      → P d
      → P (option_elim o d (λ f. g f d))
  on_flight-kept none g d h p = p
  on_flight-kept (some f) g d h p = h f

  -- what the primitive writes keep, every event keeps
  pub dispatch-kept : (e : Event) (d : Dispatcher) → P d → P (dispatch setup now e d)
  unfolding dispatch emit resume_pending
  dispatch-kept (emitted event) d p = for_all-kept _ (emit_to-kept event) d.subscriptions d p
  dispatch-kept resumed d p = for_all-kept _ resume_entry-kept (values d.queued) d p
  dispatch-kept (upserted random_id input) d p = upsert_subscription-kept random_id input d p
  dispatch-kept (unsubscribed id) d p = remove_subscription-kept id d p
  dispatch-kept (rotated id secret) d p = rotate_secret-kept id secret d p
  dispatch-kept (retried id) d p = retry_delivery-kept id d p
  dispatch-kept (replayed id) d p = replay_delivery-kept id d p
  dispatch-kept (answer id result) d p =
      on_flight-kept (lookup id d.pending) (answer_flight setup now id result) d
        (λ f. answer_flight-kept id result f d p) p
  dispatch-kept (wake id) d p =
      on_flight-kept (lookup id d.pending) (wake_flight setup now id) d
        (λ f. wake_flight-kept id f d p) p
  dispatch-kept (settled id) d p =
      on_flight-kept (lookup id d.pending) (settle_flight setup now id) d
        (λ f. settle_flight-kept id f d p) p
  dispatch-kept written d p = p
  dispatch-kept write_failed d p = p
