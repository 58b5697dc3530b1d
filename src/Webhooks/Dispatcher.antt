-- ===== src/Webhooks/Dispatcher.antt =====
-- The methods of `class WebhookDispatcher` in packages/server/src/webhooks.ts. What `deliver` does
-- between two awaits is one function here: `next_round`, `take_answer` and `attempt`.
use loyalty_interchange_prot.Base.{
  ℕ, option_elim, ◌+◌, ◌-◌, ◌*◌, ◌^◌, String, ◌&&◌, Option, none, some, List, [], ◌∷◌, ◌++◌, str_eq,
  length, find, ltb, leb, if◌then◌else◌,
}
use loyalty_interchange_prot.Base.Int.{pos_part}
use loyalty_interchange_prot.Base.Assoc.{insert, erase, has}
use loyalty_interchange_prot.Base.Lists.{drop}
use loyalty_interchange_prot.Webhooks.State.{
  ManagedSubscription, OutboxEntry, DeliveryStatus, delivered, failed, ArchiveEntry, Write, put,
  remove, save_history, subscriptions_changed, Phase, sending, returned, sleeping, DeliveryState,
  active, paused, removed, is_deliverable, is_removed, Flight, Dispatcher, Setup,
}

-- `persist`
unfoldable pub persist : Write → Dispatcher → Dispatcher
persist w d = record d { writes = d.writes ++ w ∷ [] }

-- `this.queued.set(…)`, then `this.persist(() => this.outbox.put(…))`
unfoldable pub enqueue : OutboxEntry → Dispatcher → Dispatcher
unfolding persist
enqueue entry d =
    persist (put entry) (record d { queued = insert entry.delivery_id entry d.queued })

-- `this.queued.delete(…)`, then `this.persist(() => this.outbox.remove(…))`
unfoldable pub dequeue : String → Dispatcher → Dispatcher
unfolding persist
dequeue id d = persist (remove id) (record d { queued = erase id d.queued })

-- `subscriptionDeliveryState`
unfoldable pub delivery_state : List ManagedSubscription → ManagedSubscription → DeliveryState
delivery_state subscriptions subscription =
    option_elim
      (find
        (λ c.
          str_eq c.subscription_id subscription.subscription_id && str_eq c.url subscription.url)
        subscriptions)
      removed (λ configured. if configured.active then active else paused)

-- `advance`: whether the delivery goes on; a removed subscription's entry is not queued again
unfoldable pub advance : ManagedSubscription → OutboxEntry → Dispatcher → Dispatcher × DeliveryState
unfolding enqueue delivery_state
advance subscription next d =
    let state = delivery_state d.subscriptions subscription in
    (if is_removed state then d else enqueue next d, state)

abbrev pub flight : ManagedSubscription → OutboxEntry → ℕ → Phase → Flight
flight subscription current cycle_attempt phase = record {
  subscription = subscription;
  current = current;
  cycle_attempt = cycle_attempt;
  phase = phase;
}

-- one round of the loop, from the check after the pause to the request
unfoldable pub attempt :
    String → ManagedSubscription → OutboxEntry → ℕ → Dispatcher → Dispatcher × Flight
unfolding advance delivery_state
attempt now subscription current cycle_attempt d =
    if is_deliverable (delivery_state d.subscriptions subscription)
    then (let next : OutboxEntry = record current {
      attempts = current.attempts + 1;
      last_error = none;
      updated_at = now;
    } in
        let (d', state) = advance subscription next d in
        (
          d',
          flight subscription next cycle_attempt
              (if is_deliverable state then sending else returned),
        ))
    else (d, flight subscription current cycle_attempt returned)

abbrev pub archive_entry :
    String → ManagedSubscription → OutboxEntry → DeliveryStatus → Option String → ArchiveEntry
archive_entry now subscription current status last_error = record {
  delivery_id = current.delivery_id;
  event = current.event;
  url = subscription.url;
  attempts = current.attempts;
  status = status;
  completed_at = now;
  last_error = last_error;
}

module _ (setup : Setup) where
  -- the history after `record`
  unfoldable pub recorded : ArchiveEntry → List ArchiveEntry → List ArchiveEntry
  unfolding drop
  recorded entry history =
      let longer = history ++ entry ∷ [] in drop (length longer - setup.history_limit) longer

  -- `record`
  unfoldable pub record_delivery : ArchiveEntry → Dispatcher → Dispatcher
  unfolding recorded persist
  record_delivery entry d =
      let history = recorded entry d.history in
      let d' = record d { history = history } in
      if setup.has_history_store then persist (save_history history) d' else d'

  -- `persistSubscriptions`
  unfoldable pub persist_subscriptions : Dispatcher → Dispatcher
  unfolding persist
  persist_subscriptions d =
      if setup.tells_subscriptions then persist (subscriptions_changed d.subscriptions) d else d

  -- the attempts that a subscription's deliveries get in a cycle
  unfoldable pub attempt_limit : ManagedSubscription → ℕ
  attempt_limit subscription =
      pos_part (option_elim subscription.retry_policy setup.max_attempts (λ p. p.max_attempts))

  -- the pause before the attempt of this number
  unfoldable pub backoff : ManagedSubscription → ℕ → ℕ
  backoff subscription cycle_attempt =
      pos_part (option_elim subscription.retry_policy setup.backoff_ms (λ p. p.backoff_ms))
      * 2 ^ (cycle_attempt - 2)

  -- the loop's test: the next round, or the end of a cycle without success
  unfoldable pub next_round :
      String → ManagedSubscription → OutboxEntry → ℕ → String → Dispatcher → Dispatcher × Flight
  unfolding attempt record_delivery attempt_limit backoff
  next_round now subscription current cycle_attempt last_error d =
      if leb cycle_attempt (attempt_limit subscription)
      then (if ltb 1 cycle_attempt
          then (
            d,
            flight subscription current cycle_attempt
                (sleeping (backoff subscription cycle_attempt)),
          )
          else attempt now subscription current cycle_attempt d)
      else (
        record_delivery (archive_entry now subscription current failed (some last_error)) d,
        flight subscription current cycle_attempt returned,
      )

  -- after `fetch`: nothing is thrown and the status is 2xx, or the text of what went wrong
  unfoldable pub take_answer : String → Option String → Flight → Dispatcher → Dispatcher × Flight
  unfolding dequeue record_delivery advance next_round
  take_answer now none f d = (
    record_delivery (archive_entry now f.subscription f.current delivered none)
        (dequeue f.current.delivery_id d),
    flight f.subscription f.current f.cycle_attempt returned,
  )
  take_answer now (some error) f d =
      let next : OutboxEntry = record f.current { last_error = some error; updated_at = now } in
      let (d', state) = advance f.subscription next d in
      if is_deliverable state
      then next_round now f.subscription next (f.cycle_attempt + 1) error d'
      else (d', flight f.subscription f.current f.cycle_attempt returned)

  -- `schedule`
  unfoldable pub schedule : String → OutboxEntry → ManagedSubscription → Dispatcher → Dispatcher
  unfolding next_round
  schedule now entry subscription d =
      if has entry.delivery_id d.pending
      then d
      else (let (d', f) = next_round now subscription entry 1 "delivery was not attempted" d in
          record d' { pending = insert entry.delivery_id f d'.pending })
