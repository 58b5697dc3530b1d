-- ===== src/Webhooks/Journal.antt =====
-- The durable outbox: `class WebhookOutboxJournal` in packages/server/src/webhook-outbox.ts, over a
-- store that keeps the last state that was saved. A save writes the entries of the time it runs at,
-- or fails and writes nothing; `tail` goes on after either.
pub mod Reopened
use loyalty_interchange_prot.Base.{
  ℕ, zero, suc, ◌<◌, ◌≡◌, refl, sym, ap, subst, ◌∙◌, String, Bool, true, false, not, Bool-cases,
  Option-cases, inl, inr, Option, some, option_elim, List, [], ◌∷◌, ◌++◌, ◌==◌, if◌then◌else◌,
  arith,
}
use loyalty_interchange_prot.Base.Assoc.{Assoc, lookup, insert, erase, has, values, erase_absent}
use loyalty_interchange_prot.Webhooks.State.{OutboxEntry}
use loyalty_interchange_prot.Webhooks.Queue.{
  IsQueue, enqueue-IsQueue, erase-IsQueue, queue_all-IsQueue, queue_all, queue_all-values,
}

-- WebhookOutboxState, with the version that was read
pub record OutboxState : Type 0 where
  pub version : ℕ
  pub deliveries : List OutboxEntry

-- the journal's entries, what its store holds, and the saves that `tail` has still to make
pub record Journal : Type 0 where
  pub entries : Assoc OutboxEntry
  pub saved : Option OutboxState
  pub waiting : ℕ

-- what `create` returns, or the error that names the version it read
pub data Opened : Type 0 where
  opened : Journal → Opened
  unsupported_version : ℕ → Opened

-- the entries of what a store holds
unfoldable pub stored_entries : Option OutboxState → Assoc OutboxEntry
unfolding queue_all
stored_entries stored = queue_all (option_elim stored [] (λ state. state.deliveries)) []

-- `create`, from what the store holds
unfoldable pub open_journal : Option OutboxState → Opened
unfolding stored_entries
open_journal stored =
    let version = option_elim stored 1 (λ state. state.version) in
    if not (version == 1)
    then unsupported_version version
    else opened (record { entries = stored_entries stored; saved = stored; waiting = 0 })

-- `put`
unfoldable pub put_entry : OutboxEntry → Journal → Journal
put_entry entry j = record j {
  entries = insert entry.delivery_id entry j.entries;
  waiting = suc j.waiting;
}

-- `remove`: an entry that is not there needs no save
unfoldable pub remove_entry : String → Journal → Journal
remove_entry id j =
    if has id j.entries
    then record j { entries = erase id j.entries; waiting = suc j.waiting }
    else j

-- the next save that `enqueueSave` has put on the tail runs, and the store takes it or rejects it
unfoldable pub save_next : Bool → Journal → Journal
save_next taken j = elim j.waiting [
  | zero ↦ j
  | suc n ↦ record j {
    saved = if taken then some (record { version = 1; deliveries = values j.entries }) else j.saved;
    waiting = n;
  }
]

-- what happens to a journal: its methods are called, and its saves run
pub data JournalEvent : Type 0 where
  put_called : OutboxEntry → JournalEvent
  remove_called : String → JournalEvent
  save_done save_failed : JournalEvent

unfoldable pub journal_step : JournalEvent → Journal → Journal
unfolding put_entry remove_entry save_next
journal_step (put_called entry) j = put_entry entry j
journal_step (remove_called id) j = remove_entry id j
journal_step save_done j = save_next true j
journal_step save_failed j = save_next false j

unfoldable pub run_journal : List JournalEvent → Journal → Journal
unfolding journal_step
run_journal [] j = j
run_journal (e ∷ es) j = run_journal es (journal_step e j)

-- What a WebhookOutboxStore promises: a map of entries by their delivery ids, where a save is not
-- seen.
unfoldable pub store_step : JournalEvent → Assoc OutboxEntry → Assoc OutboxEntry
store_step (put_called entry) m = insert entry.delivery_id entry m
store_step (remove_called id) m = erase id m
store_step save_done m = m
store_step save_failed m = m

unfoldable pub run_store : List JournalEvent → Assoc OutboxEntry → Assoc OutboxEntry
unfolding store_step
run_store [] m = m
run_store (e ∷ es) m = run_store es (store_step e m)

abbrev pub is_done : JournalEvent → Bool
is_done save_done = true
is_done _ = false

-- no save is done among the events
unfoldable pub HasNoSave : List JournalEvent → Type 0
HasNoSave [] = Unit {0}
HasNoSave (e ∷ es) = (is_done e ≡ false) × HasNoSave es
