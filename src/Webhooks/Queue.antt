-- ===== src/Webhooks/Queue.antt =====
-- Queues of deliveries, keyed by delivery id, and how `create` builds one from the outbox's entries.
use loyalty_interchange_prot.Base.{
  String, ◌≡◌, refl, ap, ◌∙◌, Bool-cases, inl, inr, none, List, [], ◌∷◌, str_eq, str_eq_iff, arith,
}
use loyalty_interchange_prot.Base.Assoc.{Assoc, lookup, insert, erase, values, lookup-insert_ne}
use loyalty_interchange_prot.Base.Entries.{HasDistinctKeys, set_all, set_all-distinct}
use loyalty_interchange_prot.Webhooks.State.{OutboxEntry}

-- each entry stands under its own delivery id, and under no other key
unfoldable pub IsQueue : Assoc OutboxEntry → Type 0
IsQueue [] = Unit {0}
IsQueue ((k, entry) ∷ rest) = (entry.delivery_id ≡ k) × (lookup k rest ≡ none) × IsQueue rest

lookup-erase-none :
    (k j : String) (m : Assoc OutboxEntry) → lookup k m ≡ none → lookup k (erase j m) ≡ none
unfolding lookup erase
lookup-erase-none k j [] h = refl
lookup-erase-none k j ((i, e) ∷ m) h =
    ground (arith, str_eq_iff i k, str_eq_iff i j, lookup-erase-none k j m)

pub enqueue-IsQueue :
    (entry : OutboxEntry) (m : Assoc OutboxEntry)
    → IsQueue m
    → IsQueue (insert entry.delivery_id entry m)
unfolding IsQueue lookup insert
enqueue-IsQueue entry [] k = (refl, refl, tt)
enqueue-IsQueue entry ((j, e) ∷ m) k = elim (Bool-cases (str_eq j entry.delivery_id)) [
  | inl e ↦ rw e (refl, rw (← (str_eq_iff j entry.delivery_id).0 e) k.1, k.2)
  | inr e ↦ rw e (
    k.0,
    lookup-insert_ne entry.delivery_id j entry m
          (λ h. ground (arith, str_eq_iff j entry.delivery_id))
        ∙ k.1,
    enqueue-IsQueue entry m k.2,
  )
]

pub erase-IsQueue : (id : String) (m : Assoc OutboxEntry) → IsQueue m → IsQueue (erase id m)
unfolding IsQueue erase
erase-IsQueue id [] k = tt
erase-IsQueue id ((j, e) ∷ m) k = elim (Bool-cases (str_eq j id)) [
  | inl h ↦ rw h k.2
  | inr h ↦ rw h (k.0, lookup-erase-none j id m k.1, erase-IsQueue id m k.2)
]

-- `for (const entry of …) dispatcher.queued.set(entry.delivery_id, entry)`
unfoldable pub queue_all : List OutboxEntry → Assoc OutboxEntry → Assoc OutboxEntry
queue_all [] q = q
queue_all (e ∷ es) q = queue_all es (insert e.delivery_id e q)

pub queue_all-IsQueue :
    (es : List OutboxEntry) (q : Assoc OutboxEntry) → IsQueue q → IsQueue (queue_all es q)
unfolding queue_all
queue_all-IsQueue [] q k = k
queue_all-IsQueue (e ∷ es) q k =
    queue_all-IsQueue es (insert e.delivery_id e q) (enqueue-IsQueue e q k)

-- the entries are set under the keys that they stand under
queue_all-eq-set_all : (q p : Assoc OutboxEntry) → IsQueue q → queue_all (values q) p ≡ set_all q p
unfolding queue_all set_all IsQueue
queue_all-eq-set_all [] p k = refl
queue_all-eq-set_all ((j, e) ∷ q) p k =
    ap (λ i. queue_all (values q) (insert i e p)) k.0 ∙ queue_all-eq-set_all q (insert j e p) k.2

IsQueue-HasDistinctKeys : (q : Assoc OutboxEntry) → IsQueue q → HasDistinctKeys q
unfolding IsQueue HasDistinctKeys
IsQueue-HasDistinctKeys [] k = tt
IsQueue-HasDistinctKeys ((j, e) ∷ q) k = (k.1, IsQueue-HasDistinctKeys q k.2)

-- a queue is what its entries alone rebuild
pub queue_all-values : (q : Assoc OutboxEntry) → IsQueue q → queue_all (values q) [] ≡ q
queue_all-values q k =
    queue_all-eq-set_all q [] k ∙ set_all-distinct q (IsQueue-HasDistinctKeys q k)
