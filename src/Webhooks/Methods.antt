-- ===== src/Webhooks/Methods.antt =====
-- The public methods of `class WebhookDispatcher` in packages/server/src/webhooks.ts. Each is given
-- the time that `now()` reads as a text.
use loyalty_interchange_prot.Base.{
  ℕ, String, ◌⧺◌, Bool, true, false, not, ◌&&◌, ◌||◌, Option, none, some, List, [], ◌∷◌, str_eq,
  ◌==◌, get_or, option_elim, length, any, find, filter, ltb, if◌then◌else◌,
}
use loyalty_interchange_prot.Base.Int.{pos, ltb_ℤ}
use loyalty_interchange_prot.Base.Assoc.{lookup, values}
use loyalty_interchange_prot.Webhooks.State.{
  LoyaltyEvent, RetryPolicy, WebhookSubscription, ManagedSubscription, OutboxEntry, DeliveryStatus,
  delivered, failed, ArchiveEntry, Dispatcher, Setup, delivery_id,
}
use loyalty_interchange_prot.Webhooks.Dispatcher.{enqueue, dequeue, persist_subscriptions, schedule}

-- one pass of a loop over `this.queued.values()` and the like
unfoldable pub for_all :
    {A : Type 0} → (A → Dispatcher → Dispatcher) → List A → Dispatcher → Dispatcher
for_all f [] d = d
for_all f (x ∷ xs) d = for_all f xs (f x d)

-- `[...new Set(xs)]`: the first of each text
unfoldable pub distinct_texts : List String → List String
distinct_texts [] = []
distinct_texts (x ∷ xs) = x ∷ filter (λ y. not (str_eq x y)) (distinct_texts xs)

-- `this.subscriptions[index] = subscription`, or `push` where none has the id
unfoldable pub put_subscription :
    ManagedSubscription → List ManagedSubscription → List ManagedSubscription
put_subscription s [] = s ∷ []
put_subscription s (c ∷ cs) =
    if str_eq c.subscription_id s.subscription_id then s ∷ cs else c ∷ put_subscription s cs

-- the subscription that a stored delivery goes to
unfoldable pub subscription_for : String → List ManagedSubscription → Option ManagedSubscription
subscription_for url = find (λ c. str_eq c.url url && c.active)

-- whether a subscription takes an event
unfoldable pub takes : ManagedSubscription → LoyaltyEvent → Bool
takes s event = s.active && option_elim s.events true (any (λ t. str_eq t event.type))

-- `retry_policy` is refused; its numbers are integers here
abbrev pub is_bad_policy : RetryPolicy → Bool
is_bad_policy p =
    ltb_ℤ p.max_attempts (pos 1)
    || (ltb_ℤ (pos 10) p.max_attempts
        || (ltb_ℤ p.backoff_ms (pos 0) || ltb_ℤ p.timeout_ms (pos 100)))

-- a subscription's entry in the loop of `removeSubscription`
unfoldable pub drop_entry : String → OutboxEntry → Dispatcher → Dispatcher
unfolding dequeue
drop_entry url entry d = if str_eq entry.url url then dequeue entry.delivery_id d else d

-- the last that a test holds of: `[...xs].reverse().find(p)`
unfoldable pub find_last : (ArchiveEntry → Bool) → List ArchiveEntry → Option ArchiveEntry
find_last p [] = none
find_last p (x ∷ xs) = elim (find_last p xs) [
  | some y ↦ some y
  | none ↦ if p x then some x else none
]

-- `{ ...subscription, secret }`
abbrev pub with_secret : String → ManagedSubscription → WebhookSubscription
with_secret secret s = record {
  subscription_id = some s.subscription_id;
  url = s.url;
  secret = secret;
  events = s.events;
  active = some s.active;
  retry_policy = s.retry_policy;
}

module _ (setup : Setup) where
  abbrev pub outbox_entry : String → LoyaltyEvent → String → OutboxEntry
  outbox_entry now event url = record {
    delivery_id = delivery_id setup event url;
    event = event;
    url = url;
    attempts = 0;
    created_at = now;
    updated_at = now;
    last_error = none;
  }

  -- one subscription's turn in `emit`
  unfoldable pub emit_to : String → LoyaltyEvent → ManagedSubscription → Dispatcher → Dispatcher
  unfolding enqueue schedule takes
  emit_to now event subscription d =
      if takes subscription event
      then (let entry =
            get_or (lookup (delivery_id setup event subscription.url) d.queued)
              (outbox_entry now event subscription.url) in
          schedule setup now entry subscription (enqueue entry d))
      else d

  -- `emit`
  unfoldable pub emit : String → LoyaltyEvent → Dispatcher → Dispatcher
  unfolding for_all emit_to
  emit now event d = for_all (emit_to now event) d.subscriptions d

  -- one entry's turn in `resumePending`
  unfoldable pub resume_entry : String → OutboxEntry → Dispatcher → Dispatcher
  unfolding schedule subscription_for
  resume_entry now entry d =
      option_elim (subscription_for entry.url d.subscriptions) d
        (λ subscription. schedule setup now entry subscription d)

  -- `resumePending`
  unfoldable pub resume_pending : String → Dispatcher → Dispatcher
  unfolding for_all resume_entry
  resume_pending now d = for_all (resume_entry now) (values d.queued) d

  -- the subscription that `upsertSubscription` builds, or none where it throws
  unfoldable pub managed : String → WebhookSubscription → Option ManagedSubscription
  unfolding distinct_texts
  managed random_id input = elim (setup.safe_outbound_url input.url) [
    | none ↦ none
    | some url ↦
        if ltb (setup.text_length input.secret) 16
          || option_elim input.retry_policy false is_bad_policy
        then none
        else some (record {
          subscription_id = get_or input.subscription_id ("webhook_" ⧺ random_id);
          url = url;
          secret = input.secret;
          events = elim input.events [ none ↦ none | some texts ↦ some (distinct_texts texts) ];
          active = get_or input.active true;
          retry_policy = input.retry_policy;
        })
  ]

  -- `upsertSubscription`; none where it throws, with nothing changed
  unfoldable pub upsert_subscription : String → WebhookSubscription → Dispatcher → Option Dispatcher
  unfolding managed put_subscription persist_subscriptions
  upsert_subscription random_id input d = elim (managed random_id input) [
    | none ↦ none
    | some s ↦ some (
        persist_subscriptions setup
          (record d { subscriptions = put_subscription s d.subscriptions }))
  ]

  -- `removeSubscription`, with its result
  unfoldable pub remove_subscription : String → Dispatcher → Dispatcher × Bool
  unfolding for_all drop_entry persist_subscriptions
  remove_subscription id d = elim (find (λ c. str_eq c.subscription_id id) d.subscriptions) [
    | none ↦ (d, false)
    | some s ↦ (
      persist_subscriptions setup (
          for_all (drop_entry s.url) (values d.queued) (record d {
            subscriptions = filter (λ c. not (str_eq c.subscription_id id)) d.subscriptions;
          })),
      true,
    )
  ]

  -- `rotateSecret`; none where it throws
  unfoldable pub rotate_secret : String → String → Dispatcher → Option Dispatcher
  unfolding upsert_subscription
  rotate_secret id secret d = elim (find (λ c. str_eq c.subscription_id id) d.subscriptions) [
    | none ↦ none
    | some s ↦ upsert_subscription "" (with_secret secret s) d
  ]

  -- `retryDelivery`, with its result
  unfoldable pub retry_delivery : String → String → Dispatcher → Dispatcher × Bool
  unfolding schedule subscription_for
  retry_delivery now id d = elim (lookup id d.queued) [
    | none ↦ (d, false)
    | some entry ↦
        option_elim (subscription_for entry.url d.subscriptions) (d, false)
          (λ s. (schedule setup now entry s d, true))
  ]

  -- `replayDelivery`, with its result
  unfoldable pub replay_delivery : String → String → Dispatcher → Dispatcher × Bool
  unfolding find_last enqueue schedule subscription_for
  replay_delivery now id d = elim (find_last (λ a. str_eq a.delivery_id id) d.history) [
    | none ↦ (d, false)
    | some archived ↦
        option_elim (subscription_for archived.url d.subscriptions) (d, false)
          (λ s.
            let entry = outbox_entry now archived.event archived.url in
            (schedule setup now entry s (enqueue entry d), true))
  ]

abbrev pub status_eq : DeliveryStatus → DeliveryStatus → Bool
status_eq delivered delivered = true
status_eq failed failed = true
status_eq _ _ = false

-- WebhookDeliveryHealth, without its rate and time
pub record DeliveryHealth : Type 0 where
  pub enabled : Bool
  pub subscription_count : ℕ
  pub pending_count : ℕ
  pub recent_total : ℕ
  pub recent_succeeded : ℕ
  pub recent_failed : ℕ
  pub healthy : Bool

-- `deliveryHealth`
unfoldable pub delivery_health : Dispatcher → DeliveryHealth
delivery_health d =
    let succeeded = length (filter (λ a. status_eq a.status delivered) d.history) in
    let failures = length (filter (λ a. status_eq a.status failed) d.history) in
    let on = any (λ s. s.active) d.subscriptions in
    record {
      enabled = on;
      subscription_count = length (filter (λ s. s.active) d.subscriptions);
      pending_count = length d.queued;
      recent_total = length d.history;
      recent_succeeded = succeeded;
      recent_failed = failures;
      healthy = on && (length d.queued == 0 && failures == 0);
    }
