-- ===== src/Webhooks/Removal.antt =====
-- What `removeSubscription` leaves in the queue: packages/server/src/webhooks.ts.
use loyalty_interchange_prot.Base.{
  String, ◌≡◌, ◌≢◌, refl, ap, ◌∙◌, Bool, not, Bool-cases, inl, inr, none, some, List, [], ◌∷◌,
  str_eq, str_eq_iff, find, filter, if◌then◌else◌, arith,
}
use loyalty_interchange_prot.Base.Assoc.{Assoc, lookup, erase, values}
use loyalty_interchange_prot.Webhooks.State.{ManagedSubscription, OutboxEntry, Dispatcher, Setup}
use loyalty_interchange_prot.Webhooks.Dispatcher.{persist, dequeue, persist_subscriptions}
use loyalty_interchange_prot.Webhooks.Methods.{for_all, drop_entry, remove_subscription}
use loyalty_interchange_prot.Webhooks.Queue.{IsQueue}

-- the queue after the loop
erased : String → List OutboxEntry → Assoc OutboxEntry → Assoc OutboxEntry
erased url [] q = q
erased url (e ∷ es) q = erased url es (if str_eq e.url url then erase e.delivery_id q else q)

for_all-queued :
    (url : String) (es : List OutboxEntry) (d : Dispatcher)
    → (for_all (drop_entry url) es d).queued ≡ erased url es d.queued
unfolding for_all drop_entry dequeue persist erased
for_all-queued url [] d = refl
for_all-queued url (e ∷ es) d = elim (Bool-cases (str_eq e.url url)) [
  | inl h ↦ rw (for_all, erased, h) (for_all-queued url es (dequeue e.delivery_id d))
  | inr h ↦ rw (for_all, erased, h) (for_all-queued url es d)
]

erase-front :
    (k j : String) (e : OutboxEntry) (q : Assoc OutboxEntry)
    → k ≢ j
    → erase j ((k, e) ∷ q) ≡ (k, e) ∷ erase j q
unfolding erase
erase-front k j e q n = ground (arith, str_eq_iff k j)

-- a key that no listed entry has stays in front
erased-cons :
    (url k : String) (e : OutboxEntry) (r q : Assoc OutboxEntry)
    → IsQueue r
    → lookup k r ≡ none
    → erased url (values r) ((k, e) ∷ q) ≡ (k, e) ∷ erased url (values r) q
unfolding erased IsQueue lookup erase
erased-cons url k e [] q h n = refl
erased-cons url k e ((j, x) ∷ r) q h n = elim (Bool-cases (str_eq x.url url)) [
  | inl m ↦
      rw (erased, m)
        (ap (erased url (values r))
            (erase-front k x.delivery_id e q (λ same. ground (arith, str_eq_iff j k)))
          ∙ erased-cons url k e r (erase x.delivery_id q) h.2 (ground (arith, str_eq_iff j k)))
  | inr m ↦ rw (erased, m) (erased-cons url k e r q h.2 (ground (arith, str_eq_iff j k)))
]

-- The loop over a keyed queue leaves the entries of the other addresses.
erased-values :
    (url : String) (q : Assoc OutboxEntry)
    → IsQueue q
    → erased url (values q) q ≡ filter (λ e. not (str_eq e.1.url url)) q
unfolding IsQueue erased erase
erased-values url [] h = refl
erased-values url ((k, e) ∷ q) h = elim (Bool-cases (str_eq e.url url)) [
  | inl m ↦
      rw (erased, m)
        (ap (erased url (values q)) (ground (arith, h.0, str_eq_iff k e.delivery_id))
          ∙ erased-values url q h.2)
  | inr m ↦
      rw (erased, m)
        (erased-cons url k e q q h.2 h.1 ∙ ap (λ t. (k, e) ∷ t) (erased-values url q h.2))
]

for_all-subscriptions :
    (url : String) (es : List OutboxEntry) (d : Dispatcher)
    → (for_all (drop_entry url) es d).subscriptions ≡ d.subscriptions
unfolding for_all drop_entry dequeue persist
for_all-subscriptions url [] d = refl
for_all-subscriptions url (e ∷ es) d = elim (Bool-cases (str_eq e.url url)) [
  | inl h ↦ rw (for_all, h) (for_all-subscriptions url es (dequeue e.delivery_id d))
  | inr h ↦ rw (for_all, h) (for_all-subscriptions url es d)
]

told_parts :
    (setup : Setup) (d : Dispatcher)
    → ((persist_subscriptions setup d).queued ≡ d.queued)
      × ((persist_subscriptions setup d).subscriptions ≡ d.subscriptions)
unfolding persist_subscriptions persist
told_parts setup d = ground arith

find-filter-not :
    (p : ManagedSubscription → Bool) (xs : List ManagedSubscription)
    → find p (filter (λ c. not (p c)) xs) ≡ none
find-filter-not p [] = refl
find-filter-not p (x ∷ xs) = ground (arith, find-filter-not p xs)

-- A subscription that is found is gone after its removal, with it every queued delivery to its
-- address and no other: the rest of a keyed queue stays as it was, in order.
pub remove_subscription-queued :
    (setup : Setup) (id : String) (s : ManagedSubscription) (d : Dispatcher)
    → find (λ c. str_eq c.subscription_id id) d.subscriptions ≡ some s
    → IsQueue d.queued
    → let d' = (remove_subscription setup id d).0 in
      (d'.queued ≡ filter (λ e. not (str_eq e.1.url s.url)) d.queued)
      × (find (λ c. str_eq c.subscription_id id) d'.subscriptions ≡ none)
unfolding remove_subscription
remove_subscription-queued setup id s d found h =
    let subscriptions = filter (λ c. not (str_eq c.subscription_id id)) d.subscriptions in
    let loop =
      for_all (drop_entry s.url) (values d.queued) (record d { subscriptions = subscriptions }) in
    rw (remove_subscription, found)
      (
        (told_parts setup loop).0
            ∙ for_all-queued s.url (values d.queued) (record d { subscriptions = subscriptions })
            ∙ erased-values s.url d.queued h,
        ap (find (λ c. str_eq c.subscription_id id)) (
              (told_parts setup loop).1
              ∙ for_all-subscriptions s.url (values d.queued)
                  (record d { subscriptions = subscriptions }))
            ∙ find-filter-not (λ c. str_eq c.subscription_id id) d.subscriptions,
      )
