-- ===== src/Webhooks/Rounds.antt =====
-- One round of a delivery whose subscription stays active: packages/server/src/webhooks.ts,
-- `deliver`.
use loyalty_interchange_prot.Base.{
  ℕ, suc, ◌+◌, ◌-◌, ◌<◌, String, ◌≡◌, refl, ap, ◌∙◌, true, false, Bool-cases, inl, inr, none, some,
  List, [], ◌∷◌, ◌++◌, length, leb, ltb, str_eq_iff, arith,
}
use loyalty_interchange_prot.Base.Assoc.{Assoc, lookup, erase, lookup-insert_self}
use loyalty_interchange_prot.Base.Lists.{last?, length-append, last?-drop_append}
use loyalty_interchange_prot.Webhooks.State.{
  ManagedSubscription, OutboxEntry, ArchiveEntry, DeliveryStatus, delivered, failed, DeliveryState,
  is_deliverable, is_removed, sending, is_sending, Dispatcher, Setup,
}
use loyalty_interchange_prot.Webhooks.Dispatcher.{
  flight, persist, recorded, record_delivery, enqueue, dequeue, delivery_state, advance, attempt,
  attempt_limit, next_round, take_answer, archive_entry,
}
use loyalty_interchange_prot.Webhooks.Queue.{IsQueue, enqueue-IsQueue}
use loyalty_interchange_prot.Webhooks.Cycle.{woken, one_round}

last?-recorded :
    (setup : Setup) (a : ArchiveEntry) (h : List ArchiveEntry)
    → 0 < setup.history_limit
    → last? (recorded setup a h) ≡ some a
unfolding recorded
last?-recorded setup a h k =
    let longer : List ArchiveEntry = h ++ a ∷ [] in
    last?-drop_append (length longer - setup.history_limit) h a
      (omega (arith, length-append h (a ∷ [])))

lookup-erase : (id : String) (m : Assoc OutboxEntry) → IsQueue m → lookup id (erase id m) ≡ none
unfolding lookup erase IsQueue
lookup-erase id [] k = refl
lookup-erase id ((j, e) ∷ m) k = ground (arith, str_eq_iff j id, lookup-erase id m k.2)

kept_of_active : (st : DeliveryState) → is_deliverable st ≡ true → is_removed st ≡ false
kept_of_active st h = ground arith

-- the subscription is active, and the queue is keyed
pub record IsOpen (s : ManagedSubscription) (d : Dispatcher) : Type 0 where
  pub on : is_deliverable (delivery_state d.subscriptions s) ≡ true
  pub queue : IsQueue d.queued

pub enqueue-IsOpen :
    (s : ManagedSubscription) (entry : OutboxEntry) (d : Dispatcher)
    → IsOpen s d
    → IsOpen s (enqueue entry d)
unfolding enqueue
enqueue-IsOpen s entry d k = record { on = k.on; queue = enqueue-IsQueue entry d.queued k.queue }

-- an attempt under an active subscription sends
pub attempt-sends :
    (now : String) (s : ManagedSubscription) (current : OutboxEntry) (n : ℕ) (d : Dispatcher)
    → IsOpen s d
    → let next : OutboxEntry = record current {
      attempts = current.attempts + 1;
      last_error = none;
      updated_at = now;
    } in
      attempt now s current n d ≡ (enqueue next d, flight s next n sending)
unfolding attempt advance
attempt-sends now s current n d k =
    simp (k.on, kept_of_active (delivery_state d.subscriptions s) k.on)

lt→leb : (c n : ℕ) → c < n → leb (c + 1) n ≡ true
lt→leb c n h = ground arith

one_lt : (c : ℕ) → 0 < c → ltb 1 (c + 1) ≡ true
one_lt c h = ground arith

pub leb_of_lt : (n k : ℕ) → k < n → leb 1 n ≡ true
leb_of_lt n k h = ground arith

past_limit : (c n : ℕ) → c ≡ n → leb (c + 1) n ≡ false
past_limit c n h = ground arith

pub attempts_in_all : (a l n : ℕ) → l + 1 ≡ n → a + n ≡ a + 1 + l
attempts_in_all a l n h = omega arith

enqueue-queued :
    (entry : OutboxEntry) (d : Dispatcher)
    → lookup entry.delivery_id (enqueue entry d).queued ≡ some entry
unfolding enqueue
enqueue-queued entry d = lookup-insert_self entry.delivery_id entry d.queued

pub add_zero : (a : ℕ) → a + 0 ≡ a
add_zero a = omega arith

pub add_suc : (a b : ℕ) → a + suc b ≡ a + 1 + b
add_suc a b = omega arith

-- what stands archived last: a delivery's end, after so many attempts
abbrev pub Archived : String → DeliveryStatus → ℕ → Dispatcher → Type 0
Archived id status attempts d =
    (a : ArchiveEntry) × (last? d.history ≡ some a)
    × (a.delivery_id ≡ id)
    × (a.status ≡ status)
    × (a.attempts ≡ attempts)

-- the entry after a failed attempt, and after the start of the next
abbrev pub missed : String → String → OutboxEntry → OutboxEntry
missed now error current = record current { last_error = some error; updated_at = now }

abbrev pub begun : String → OutboxEntry → OutboxEntry
begun now current = record current {
  attempts = current.attempts + 1;
  last_error = none;
  updated_at = now;
}

module _ (setup : Setup) (now : String) (other : ℕ → Dispatcher → Dispatcher)
    (s : ManagedSubscription)
    (keeps : (n : ℕ) (d : Dispatcher) → IsOpen s d → IsOpen s (other n d)) where
  -- a failed attempt that is not the last
  pub one_round-fails :
      (error : String) (current : OutboxEntry) (c n : ℕ) (d : Dispatcher)
      → 0 < c
      → c < attempt_limit setup s
      → IsOpen s d
      → (d' : Dispatcher) × IsOpen s d'
        × (one_round setup now other (some error) n (d, flight s current c sending)
            ≡ (d', flight s (begun now (missed now error current)) (c + 1) sending))
  unfolding one_round woken take_answer next_round advance
  one_round-fails error current c n d pos_c h k =
      let k' = enqueue-IsOpen s (missed now error current) (other n d) (keeps n d k) in
      let d' = enqueue (missed now error current) (other n d) in
      let k'' = keeps (n + 1) d' k' in
      (
        enqueue (begun now (missed now error current)) (other (n + 1) d'),
        enqueue-IsOpen s _ _ k'',
        simp (
          (keeps n d k).on,
          kept_of_active (delivery_state (other n d).subscriptions s) (keeps n d k).on,
          lt→leb c (attempt_limit setup s) h,
          one_lt c pos_c,
          attempt-sends now s (missed now error current) (c + 1) (other (n + 1) d') k'',
        ),
      )

  last?-record_delivery :
      (a : ArchiveEntry) (d : Dispatcher)
      → 0 < setup.history_limit
      → last? (record_delivery setup a d).history ≡ some a
  unfolding record_delivery persist
  last?-record_delivery a d h = elim (Bool-cases setup.has_history_store) [
    | inl e ↦ simp e (last?-recorded setup a d.history h)
    | inr e ↦ simp e (last?-recorded setup a d.history h)
  ]

  record_delivery-queued :
      (a : ArchiveEntry) (d : Dispatcher) → (record_delivery setup a d).queued ≡ d.queued
  unfolding record_delivery persist
  record_delivery-queued a d = ground arith

  -- an answer of 2xx ends the cycle
  pub one_round-succeeds :
      (current : OutboxEntry) (c n : ℕ) (d : Dispatcher)
      → 0 < setup.history_limit
      → IsOpen s d
      → let x = one_round setup now other none n (d, flight s current c sending) in
        (is_sending x.1.phase ≡ false)
        × (lookup current.delivery_id x.0.queued ≡ none)
        × Archived current.delivery_id delivered current.attempts x.0
  unfolding one_round woken take_answer dequeue
  one_round-succeeds current c n d h k =
      let a = archive_entry now s current delivered none in
      let d' = dequeue current.delivery_id (other n d) in
      (
        refl,
        ap (lookup current.delivery_id) (record_delivery-queued a d')
            ∙ lookup-erase current.delivery_id (other n d).queued (keeps n d k).queue,
        (a, last?-record_delivery a d' h, refl, refl, refl),
      )

  -- the last attempt fails
  pub one_round-gives_up :
      (error : String) (current : OutboxEntry) (c n : ℕ) (d : Dispatcher)
      → 0 < setup.history_limit
      → c ≡ attempt_limit setup s
      → IsOpen s d
      → let x = one_round setup now other (some error) n (d, flight s current c sending) in
        (is_sending x.1.phase ≡ false)
        × (lookup current.delivery_id x.0.queued ≡ some (missed now error current))
        × Archived current.delivery_id failed current.attempts x.0
  unfolding one_round woken take_answer next_round advance
  one_round-gives_up error current c n d h e k =
      let current' = missed now error current in
      let a = archive_entry now s current' failed (some error) in
      let d' = enqueue current' (other n d) in
      simp
        (
          (keeps n d k).on,
          kept_of_active (delivery_state (other n d).subscriptions s) (keeps n d k).on,
          past_limit c (attempt_limit setup s) e,
        )
        (
          refl,
          ap (lookup current.delivery_id) (record_delivery-queued a d')
              ∙ enqueue-queued current' (other n d),
          (a, last?-record_delivery a d' h, refl, refl, refl),
        )
