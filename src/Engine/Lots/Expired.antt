-- ===== src/Engine/Lots/Expired.antt =====
-- Lots that have expired.
use loyalty_interchange_prot.Base.{
  String, ◌≡◌, refl, sym, ap, ◌∙◌, Bool, true, ◌&&◌, Option, none, some, List, [], ◌∷◌, option_elim,
  filter, leb, ltb, str_eq, str_eq_iff, arith,
}
use loyalty_interchange_prot.Base.Assoc.{lookup, insert, lookup-insert_self, lookup-insert_ne}
use loyalty_interchange_prot.Exec.{returned, pure, gets, modify, ◌>>=◌, for_each}
use loyalty_interchange_prot.Protocol.Primitives.{LoyaltyUnit, unit_eq}
use loyalty_interchange_prot.Engine.State.{Env, State, PointLot}
use loyalty_interchange_prot.Engine.Ledger.{add_ledger, lot_of_entry}
use loyalty_interchange_prot.Engine.Lots.{
  Lots, lot_unit, with_remaining, expired_lots, expire_lot, expire_point_lots, lot_order,
}
use loyalty_interchange_prot.Engine.Lots.Keyed.{
  expired_lots-IsKeyed, IsKeyed, filter-IsKeyed, lookup-sort_keyed,
}

-- the lots after the loop
unfoldable emptied : List (String × PointLot) → Lots → Lots
emptied [] lots = lots
emptied ((key, lot) ∷ rest) lots = emptied rest (insert key (with_remaining lot 0) lots)

for_each-emptied :
    (env : Env) (candidates : List (String × PointLot)) (s : State)
    → ((for_each (expire_lot env) candidates s).0 ≡ returned tt)
      × ((for_each (expire_lot env) candidates s).1.point_lots ≡ emptied candidates s.point_lots)
unfolding for_each expire_lot emptied ◌>>=◌ modify gets pure add_ledger lot_of_entry
for_each-emptied env [] s = (refl, refl)
for_each-emptied env ((key, lot) ∷ rest) s =
    for_each-emptied env rest (expire_lot env (key, lot) s).1

lookup-emptied-none :
    (k : String) (candidates : List (String × PointLot)) (lots : Lots)
    → lookup k candidates ≡ none
    → lookup k (emptied candidates lots) ≡ lookup k lots
unfolding lookup emptied
lookup-emptied-none k [] lots h = refl
lookup-emptied-none k ((j, lot) ∷ rest) lots h = ground (
  arith,
  str_eq_iff j k,
  lookup-insert_ne j k (with_remaining lot 0) lots,
  lookup-emptied-none k rest (insert j (with_remaining lot 0) lots),
)

lookup-emptied-some :
    (k : String) (candidates : List (String × PointLot)) (lots : Lots) (lot : PointLot)
    → IsKeyed candidates
    → lookup k candidates ≡ some lot
    → lookup k (emptied candidates lots) ≡ some (with_remaining lot 0)
unfolding lookup emptied IsKeyed
lookup-emptied-some k [] lots lot keyed h = ground arith
lookup-emptied-some k ((j, other) ∷ rest) lots lot keyed h = ground (
  arith,
  keyed,
  h,
  str_eq_iff j k,
  lookup-insert_self j (with_remaining other 0) lots,
  lookup-emptied-none j rest (insert j (with_remaining other 0) lots),
  lookup-emptied-some k rest (insert j (with_remaining other 0) lots) lot,
)

lookup-filter-some :
    (p : String × PointLot → Bool) (k : String) (m : Lots) (lot : PointLot)
    → lookup k m ≡ some lot
    → p (k, lot) ≡ true
    → lookup k (filter p m) ≡ some lot
unfolding lookup
lookup-filter-some p k [] lot h g = ground arith
lookup-filter-some p k ((j, other) ∷ m) lot h g =
    ground (arith, h, g, str_eq_iff j k, lookup-filter-some p k m lot)

-- whether a call that expires lots of a member and a unit, or of all, is to expire a lot
unfoldable pub is_due : Env → State → Option String → Option LoyaltyUnit → PointLot → Bool
is_due env s member_id unit lot =
    option_elim member_id true (str_eq lot.member_id)
    && option_elim unit true (unit_eq (lot_unit s.program lot))
    && leb (env.date_parse lot.expires_at) env.now

module _ (env : Env) (s : State) (member_id : Option String) (unit : Option LoyaltyUnit) where
  -- A lot that is due and not empty is in the list.
  lookup-expired_lots :
      (k : String) (lot : PointLot)
      → IsKeyed s.point_lots
      → lookup k s.point_lots ≡ some lot
      → is_due env s member_id unit lot ≡ true
      → ltb 0 lot.remaining ≡ true
      → lookup k (expired_lots env s member_id unit) ≡ some lot
  unfolding expired_lots is_due
  lookup-expired_lots k lot keyed h due left =
      lookup-sort_keyed (lot_order env) k _ (filter-IsKeyed s.point_lots _ s.point_lots keyed)
      ∙ lookup-filter-some _ k s.point_lots lot h (ground (arith, due, left))

  left_over :
      (k : String) (lot : PointLot) (o : Option PointLot)
      → IsKeyed s.point_lots
      → lookup k (expired_lots env s member_id unit) ≡ o
      → lookup k (emptied (expired_lots env s member_id unit) s.point_lots) ≡ some lot
      → is_due env s member_id unit lot ≡ true
      → lot.remaining ≡ 0
  left_over k lot none keyed h after due = ground (
    arith,
    lookup-emptied-none k (expired_lots env s member_id unit) s.point_lots h,
    lookup-expired_lots k lot keyed,
  )
  left_over k lot (some before) keyed h after due = ground (
    arith,
    lookup-emptied-some k (expired_lots env s member_id unit) s.point_lots before
        (expired_lots-IsKeyed env s member_id unit keyed) h,
  )

-- Where each lot stands under the entry id that it names, `expire_point_lots`, for a member and a
-- unit or for all, returns, and a lot that stands there afterwards and is due has no points left.
pub expire_point_lots_empties :
    (env : Env) (s : State) (member_id : Option String) (unit : Option LoyaltyUnit) (k : String)
    (lot : PointLot)
    → IsKeyed s.point_lots
    → lookup k (expire_point_lots env member_id unit s).1.point_lots ≡ some lot
    → is_due env s member_id unit lot ≡ true
    → ((expire_point_lots env member_id unit s).0 ≡ returned tt) × (lot.remaining ≡ 0)
unfolding expire_point_lots ◌>>=◌ gets
expire_point_lots_empties env s member_id unit k lot keyed h due =
    let candidates = expired_lots env s member_id unit in
    let (returns, lots) = for_each-emptied env candidates s in
    (
      returns,
      left_over env s member_id unit k lot (lookup k candidates) keyed refl
          (ap (lookup k) (sym lots) ∙ h) due,
    )
