-- ===== src/Webhooks/Tests.antt =====
-- Examples of webhook deliveries: one subscription, one event, and its cycle of attempts.
use loyalty_interchange_prot.Base.{
  ℕ, ◌+◌, ◌≤◌, String, ◌≡◌, refl, true, not, none, some, List, [], ◌++◌, ◌∷◌, map, length, find,
  filter, str_eq, arith,
}
use loyalty_interchange_prot.Base.Int.{pos}
use loyalty_interchange_prot.Base.Assoc.{lookup, insert, erase}
use loyalty_interchange_prot.Base.Json.{null}
use loyalty_interchange_prot.Webhooks.State.{
  LoyaltyEvent, ManagedSubscription, OutboxEntry, delivered, failed, is_returned, Dispatcher, Setup,
  delivery_id,
}
use loyalty_interchange_prot.Webhooks.Dispatcher.{attempt_limit, delivery_state}
use loyalty_interchange_prot.Webhooks.Methods.{outbox_entry, remove_subscription}
use loyalty_interchange_prot.Webhooks.Trace.{
  Stored, System, Event, emitted, answer, wake, settled, written, run, flush, IsLossless,
}
use loyalty_interchange_prot.Webhooks.Queue.{IsQueue}
use loyalty_interchange_prot.Webhooks.Journal.{
  OutboxState, Journal, unsupported_version, JournalEvent, put_called, remove_called, save_done,
  save_failed, open_journal, run_store,
}
use loyalty_interchange_prot.Webhooks.Restart.{create, create-run}
use loyalty_interchange_prot.Webhooks.Bounded.{length-history-run}
use loyalty_interchange_prot.Webhooks.Cycle.{deliver_cycle, deliver_cycle-ends}
use loyalty_interchange_prot.Webhooks.Rounds.{IsOpen, Archived}
use loyalty_interchange_prot.Webhooks.Delivered.{deliver_cycle-delivers, deliver_cycle-fails}
use loyalty_interchange_prot.Webhooks.Removal.{remove_subscription-queued}

abbrev setup : Setup
setup = record {
  max_attempts = pos 2;
  backoff_ms = pos 250;
  history_limit = 5;
  has_history_store = true;
  tells_subscriptions = true;
  sha256_hex = λ t. t;
  safe_outbound_url = some;
  text_length = λ t. 20;
  nul = "|";
}

abbrev shop : ManagedSubscription
shop = record {
  subscription_id = "w1";
  url = "https://shop";
  secret = "0123456789abcdef";
  events = none;
  active = true;
  retry_policy = none;
}

abbrev accrued : LoyaltyEvent
accrued = record { id = "e1"; source = "lip"; type = "accrued"; rest = null }

abbrev entry : OutboxEntry
entry = outbox_entry setup "2026" accrued shop.url

-- stores that still hold one delivery
abbrev stored : Stored
stored = record { outbox = (entry.delivery_id, entry) ∷ []; history = []; subscriptions = [] }

stored-IsQueue : IsQueue stored.outbox
unfolding IsQueue lookup
stored-IsQueue = (refl, refl, tt)

-- an event is emitted again, answered with an error, answered well
abbrev events : List (String × Event)
events =
    ("t1", emitted accrued)
    ∷ ("t2", written)
    ∷ ("t3", answer entry.delivery_id (some "HTTP 500"))
    ∷ ("t4", wake entry.delivery_id)
    ∷ ("t5", answer entry.delivery_id none)
    ∷ ("t6", settled entry.delivery_id)
    ∷ []

abbrev ran : System
ran = run setup events (record { dispatcher = create setup (shop ∷ []) stored; stored = stored })

events-IsLossless : IsLossless events
unfolding IsLossless
events-IsLossless = (refl, (refl, (refl, (refl, (refl, (refl, tt))))))

create-run_example :
    ((create setup (shop ∷ []) (flush setup ran).stored).queued ≡ ran.dispatcher.queued)
    × ((create setup (shop ∷ []) (flush setup ran).stored).history ≡ ran.dispatcher.history)
create-run_example =
    create-run setup (shop ∷ []) stored events refl stored-IsQueue (omega arith) events-IsLossless

-- the delivery is through after its second attempt
delivered_test :
    (ran.dispatcher.queued ≡ []) × (map (λ a. a.attempts) ran.dispatcher.history ≡ 2 ∷ [])
unfolding run create lookup insert erase attempt_limit delivery_state delivery_id
delivered_test = (refl, refl)

length-history-run_example : length ran.dispatcher.history ≤ 5
length-history-run_example = length-history-run setup (shop ∷ []) stored events (omega arith)

abbrev dispatcher : Dispatcher
dispatcher = record {
  subscriptions = shop ∷ [];
  queued = (entry.delivery_id, entry) ∷ [];
  history = [];
  pending = [];
  writes = [];
}

dispatcher-IsOpen : IsOpen shop dispatcher
unfolding IsQueue lookup delivery_state
dispatcher-IsOpen = record { on = refl; queue = (refl, refl, tt) }

-- nothing else happens
abbrev quiet : ℕ → Dispatcher → Dispatcher
quiet n d = d

deliver_cycle-ends_example :
    (is_returned
        (deliver_cycle setup "t" quiet shop entry (some "a" ∷ some "b" ∷ []) dispatcher).1.phase
      ≡ true)
    × ((deliver_cycle setup "t" quiet shop entry
          (some "a" ∷ some "b" ∷ [])
          dispatcher).1.current.attempts
        ≤ entry.attempts + attempt_limit setup shop)
unfolding attempt_limit
deliver_cycle-ends_example =
    deliver_cycle-ends setup "t" quiet shop entry (some "a" ∷ some "b" ∷ []) dispatcher
      (omega arith)

deliver_cycle-delivers_example :
    (lookup entry.delivery_id
        (deliver_cycle setup "t" quiet shop entry (some "a" ∷ none ∷ []) dispatcher).0.queued
      ≡ none)
    × Archived entry.delivery_id delivered 2
        (deliver_cycle setup "t" quiet shop entry (some "a" ∷ none ∷ []) dispatcher).0
unfolding attempt_limit
deliver_cycle-delivers_example =
    deliver_cycle-delivers setup "t" quiet shop (λ n d k. k) entry ("a" ∷ []) [] dispatcher
      (omega arith) (omega arith) dispatcher-IsOpen

deliver_cycle-fails_example :
    ((e : OutboxEntry) × (lookup entry.delivery_id
          (deliver_cycle setup "t" quiet shop entry (some "a" ∷ some "b" ∷ []) dispatcher).0.queued
        ≡ some e)
      × (e.attempts ≡ entry.attempts + attempt_limit setup shop))
    × Archived entry.delivery_id failed
        (entry.attempts + attempt_limit setup shop)
        (deliver_cycle setup "t" quiet shop entry (some "a" ∷ some "b" ∷ []) dispatcher).0
unfolding attempt_limit
deliver_cycle-fails_example =
    deliver_cycle-fails setup "t" quiet shop (λ n d k. k) entry "a" ("b" ∷ []) dispatcher
      (omega arith) refl dispatcher-IsOpen

remove_subscription-queued_example :
    ((remove_subscription setup "w1" dispatcher).0.queued
      ≡ filter (λ e. not (str_eq e.1.url shop.url)) dispatcher.queued)
    × (find
          (λ c. str_eq c.subscription_id "w1")
          (remove_subscription setup "w1" dispatcher).0.subscriptions
        ≡ none)
remove_subscription-queued_example =
    remove_subscription-queued setup "w1" shop dispatcher refl dispatcher-IsOpen.queue

-- a store that holds an entry; it is removed, which is saved, and put again, which is not
abbrev one_saved : OutboxState
one_saved = record { version = 1; deliveries = entry ∷ [] }

abbrev one_journal : Journal
one_journal = record {
  entries = (entry.delivery_id, entry) ∷ [];
  saved = some one_saved;
  waiting = 0;
}

abbrev journal_events : List JournalEvent
journal_events = remove_called entry.delivery_id ∷ []

abbrev unsaved_events : List JournalEvent
unsaved_events = put_called entry ∷ save_failed ∷ []

-- the entry that was put is lost with the journal
run_journal_test :
    (run_store journal_events ((entry.delivery_id, entry) ∷ []) ≡ [])
    × (run_store (journal_events ++ save_done ∷ unsaved_events) ((entry.delivery_id, entry) ∷ [])
        ≡ (entry.delivery_id, entry) ∷ [])
unfolding run_store insert erase lookup delivery_id
run_journal_test = (refl, refl)

-- a later version is refused
open_journal_test :
    open_journal (some (record { version = 2; deliveries = [] })) ≡ unsupported_version 2
unfolding open_journal
open_journal_test = refl
