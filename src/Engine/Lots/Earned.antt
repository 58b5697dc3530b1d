-- ===== src/Engine/Lots/Earned.antt =====
-- Lots that belong to entries of the ledger, and what keeps that of them.
use loyalty_interchange_prot.Base.{
  ℕ, ◌-◌, ◌+◌, String, ◌≡◌, subst, ◌==◌, Bool, Bool-cases, Option-cases, inl, inr, some, List, [],
  ◌∷◌, Option, Ordering, filter, str_eq, str_eq_iff, arith,
}
use loyalty_interchange_prot.Base.Assoc.{Assoc, lookup, insert}
use loyalty_interchange_prot.Base.Sort.{sort, sorted_insert, not_after}
use loyalty_interchange_prot.Engine.State.{Env, State, PointLot, Consumption}
use loyalty_interchange_prot.Protocol.Primitives.{LoyaltyUnit}
use loyalty_interchange_prot.Protocol.Loyalty.{LedgerEntry}
use loyalty_interchange_prot.Engine.Lots.{
  Lots, with_remaining, min_ℕ, consume_loop, restore_loop, open_lots, expired_lots, lot_order,
}

module _ (ledger : Assoc LedgerEntry) where
  -- an entry of the ledger stands under the lot's key, of the lot's member and unit
  abbrev pub EarnedBy : String → PointLot → Type 0
  EarnedBy key lot =
      (e : LedgerEntry) × (lookup key ledger ≡ some e)
      × (e.member_id ≡ lot.member_id)
      × (lot.unit ≡ some e.unit)

  unfoldable pub IsEarned : Lots → Type 0
  IsEarned [] = Unit {0}
  IsEarned ((k, lot) ∷ rest) = EarnedBy k lot × IsEarned rest

  pub filter-IsEarned :
      (p : String × PointLot → Bool) (m : Lots) → IsEarned m → IsEarned (filter p m)
  unfolding IsEarned
  filter-IsEarned p [] h = tt
  filter-IsEarned p ((j, lot) ∷ m) h = elim (Bool-cases (p (j, lot))) [
    | inl e ↦ rw e (h.0, filter-IsEarned p m h.1)
    | inr e ↦ rw e (filter-IsEarned p m h.1)
  ]

  module _ (cmp : String × PointLot → String × PointLot → Ordering) where
    sorted_insert-IsEarned :
        (j : String) (lot : PointLot) (m : Lots)
        → EarnedBy j lot
        → IsEarned m
        → IsEarned (sorted_insert cmp (j, lot) m)
    unfolding IsEarned sorted_insert
    sorted_insert-IsEarned j lot [] e h = (e, tt)
    sorted_insert-IsEarned j lot ((i, other) ∷ m) e h =
        elim (Bool-cases (not_after (cmp (j, lot) (i, other)))) [
          | inl first ↦ rw first (e, h)
          | inr later ↦ rw later (h.0, sorted_insert-IsEarned j lot m e h.1)
        ]

    pub sort-IsEarned : (m : Lots) → IsEarned m → IsEarned (sort cmp m)
    unfolding IsEarned sort
    sort-IsEarned [] h = tt
    sort-IsEarned ((j, lot) ∷ m) h =
        sorted_insert-IsEarned j lot (sort cmp m) h.0 (sort-IsEarned m h.1)

  pub insert-IsEarned :
      (j : String) (lot : PointLot) (m : Lots)
      → EarnedBy j lot
      → IsEarned m
      → IsEarned (insert j lot m)
  unfolding IsEarned insert
  insert-IsEarned j lot [] e h = (e, tt)
  insert-IsEarned j lot ((i, other) ∷ m) e h = elim (Bool-cases (str_eq i j)) [
    | inl same ↦ rw same (e, h.1)
    | inr away ↦ rw away (h.0, insert-IsEarned j lot m e h.1)
  ]

  pub lookup-IsEarned :
      (j : String) (lot : PointLot) (m : Lots) → IsEarned m → lookup j m ≡ some lot → EarnedBy j lot
  unfolding IsEarned lookup
  lookup-IsEarned j lot [] h found = cc
  lookup-IsEarned j lot ((i, other) ∷ m) h found = elim (Bool-cases (str_eq i j)) [
    | inl same ↦
        let is_lot : other ≡ lot = ground (arith, same, found) in
        subst (λ k. EarnedBy k lot) ((str_eq_iff i j).0 same) (subst (EarnedBy i) is_lot h.0)
    | inr away ↦ lookup-IsEarned j lot m h.1 (ground (arith, away, found))
  ]

  -- Drawing on earned lots and giving them back keeps lots earned.
  pub consume_loop-IsEarned :
      (n : ℕ) (rest lots : Lots)
      → IsEarned rest
      → IsEarned lots
      → IsEarned (consume_loop n rest lots).0
  unfolding IsEarned consume_loop
  consume_loop-IsEarned n [] lots k h = h
  consume_loop-IsEarned n ((j, lot) ∷ rest) lots k h =
      let taken = min_ℕ lot.remaining n in
      let left : PointLot = with_remaining lot (lot.remaining - taken) in
      let drawn =
        consume_loop-IsEarned (n - taken) rest (insert j left lots) k.1
          (insert-IsEarned j left lots k.0 h) in
      elim (Bool-cases (n == 0)) [ inl e ↦ rw e h | inr e ↦ rw e drawn ]

  pub restore_loop-IsEarned :
      (items : List Consumption) (lots : Lots)
      → IsEarned lots
      → IsEarned (restore_loop items lots).1
  unfolding restore_loop
  restore_loop-IsEarned [] lots h = h
  restore_loop-IsEarned (item ∷ items) lots h = elim (Option-cases (lookup item.entry_id lots)) [
    | inl e ↦ rw (restore_loop, e) h
    | inr (lot, e) ↦
        rw (restore_loop, e)
          (restore_loop-IsEarned items _ (
            insert-IsEarned item.entry_id (with_remaining lot (lot.remaining + item.amount)) lots
              (lookup-IsEarned item.entry_id lot lots h e) h))
  ]

pub open_lots-IsEarned :
    (env : Env) (s : State) (member_id : String) (unit : LoyaltyUnit)
    → IsEarned s.ledger s.point_lots
    → IsEarned s.ledger (open_lots env s member_id unit)
unfolding open_lots
open_lots-IsEarned env s member_id unit k =
    sort-IsEarned s.ledger (lot_order env) _ (filter-IsEarned s.ledger _ s.point_lots k)

pub expired_lots-IsEarned :
    (env : Env) (s : State) (member_id : Option String) (unit : Option LoyaltyUnit)
    → IsEarned s.ledger s.point_lots
    → IsEarned s.ledger (expired_lots env s member_id unit)
unfolding expired_lots
expired_lots-IsEarned env s member_id unit k =
    sort-IsEarned s.ledger (lot_order env) _ (filter-IsEarned s.ledger _ s.point_lots k)

-- A ledger that keeps its entries earns what it earned.
pub IsEarned-kept :
    (l l' : Assoc LedgerEntry) (m : Lots)
    → ((id : String) (e : LedgerEntry) → lookup id l ≡ some e → lookup id l' ≡ some e)
    → IsEarned l m
    → IsEarned l' m
unfolding IsEarned
IsEarned-kept l l' [] kept h = tt
IsEarned-kept l l' ((k, lot) ∷ m) kept h =
    let (e, found, member, unit) = h.0 in
    ((e, kept k e found, member, unit), IsEarned-kept l l' m kept h.1)
