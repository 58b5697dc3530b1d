-- ===== src/Engine/Lots.antt =====
-- Lots of points that expire: `consumePointLots`, `restorePointLots` and `expirePointLots`.
pub mod Keyed
pub mod Earned
pub mod Restored
pub mod Expired
use loyalty_interchange_prot.Base.{
  ℕ, ◌+◌, ◌-◌, String, Bool, true, false, ◌&&◌, Option, none, some, List, [], ◌∷◌, Ordering, get_or,
  option_elim, filter, leb, ltb, ◌==◌, str_eq, if◌then◌else◌,
}
use loyalty_interchange_prot.Base.Int.{pos, neg}
use loyalty_interchange_prot.Base.Assoc.{Assoc, lookup, insert, erase}
use loyalty_interchange_prot.Base.Sort.{sort, then_by}
use loyalty_interchange_prot.Exec.{
  pure, throw, gets, modify, ◌>>=◌, ◌>>◌, not_found, branch, for_each, do_if,
}
use loyalty_interchange_prot.Protocol.Primitives.{LoyaltyUnit, unit_eq}
use loyalty_interchange_prot.Protocol.Loyalty.{expiration}
use loyalty_interchange_prot.Protocol.Program.{ProgramDefinition}
use loyalty_interchange_prot.Engine.State.{Env, State, Method, PointLot, Consumption}
use loyalty_interchange_prot.Engine.Ledger.{ledger_input, primary_unit, add_ledger}

abbrev pub Lots : Type 0
Lots = Assoc PointLot

-- `lot.unit ?? this.primaryUnit()`
abbrev pub lot_unit : ProgramDefinition → PointLot → LoyaltyUnit
lot_unit program lot = get_or lot.unit (primary_unit program)

-- a lot with another number of points left
abbrev pub with_remaining : PointLot → ℕ → PointLot
with_remaining lot n = record lot { remaining = n }

abbrev pub min_ℕ : ℕ → ℕ → ℕ
min_ℕ a b = if leb a b then a else b

-- the loop over the sorted lots; each lot is written back under its key
unfoldable pub consume_loop : ℕ → List (String × PointLot) → Lots → Lots × List Consumption
consume_loop remaining [] lots = (lots, [])
consume_loop remaining ((key, lot) ∷ rest) lots =
    let taken = min_ℕ lot.remaining remaining in
    let (lots', consumed) =
      consume_loop (remaining - taken) rest
        (insert key (with_remaining lot (lot.remaining - taken)) lots) in
    if remaining == 0
    then (lots, [])
    else (lots', record { entry_id = lot.entry_id; amount = taken } ∷ consumed)

-- the loop that gives back; a lot that is missing stops it
unfoldable pub restore_loop : List Consumption → Lots → Bool × Lots
restore_loop [] lots = (true, lots)
restore_loop (item ∷ rest) lots = elim (lookup item.entry_id lots) [
  | none ↦ (false, lots)
  | some lot ↦
      restore_loop rest
        (insert item.entry_id (with_remaining lot (lot.remaining + item.amount)) lots)
]

unfoldable pub restore_point_lots : String → Method (Unit {0})
unfolding restore_loop
restore_point_lots consumption_id = do
  consumed ← gets (λ s. get_or (lookup consumption_id s.point_lot_consumptions) [])
  lots ← gets (λ s. s.point_lots)
  let (complete, lots') = restore_loop consumed lots
  modify (λ s. record s { point_lots = lots' })
  do_if (if complete then false else true) (throw not_found 500)
  modify (λ s. record s { point_lot_consumptions = erase consumption_id s.point_lot_consumptions })

module _ (env : Env) where
  -- by expiry and then by entry
  unfoldable pub lot_order : String × PointLot → String × PointLot → Ordering
  lot_order left right =
      then_by (env.locale_compare left.1.expires_at right.1.expires_at)
        (env.locale_compare left.1.entry_id right.1.entry_id)

  -- the lots that `consumePointLots` draws on, in order
  unfoldable pub open_lots : State → String → LoyaltyUnit → List (String × PointLot)
  open_lots s member_id unit = sort lot_order (
      filter
        (λ e.
          str_eq e.1.member_id member_id
          && unit_eq (lot_unit s.program e.1) unit
          && ltb 0 e.1.remaining)
        s.point_lots)

  unfoldable pub consume_point_lots : String → LoyaltyUnit → ℕ → Option String → Method (Unit {0})
  unfolding open_lots consume_loop
  consume_point_lots member_id unit amount consumption_id = do
    s ← gets (λ s. s)
    let (lots, consumed) = consume_loop amount (open_lots s member_id unit) s.point_lots
    modify (λ s. record s { point_lots = lots })
    branch consumption_id (pure tt) (λ id.
        do_if (elim consumed [ [] ↦ false | _ ∷ _ ↦ true ])
          (modify (λ s. record s {
            point_lot_consumptions = insert id consumed s.point_lot_consumptions;
          })))

  -- the lots that have expired, in order
  unfoldable pub expired_lots :
      State → Option String → Option LoyaltyUnit → List (String × PointLot)
  expired_lots s member_id unit = sort lot_order (
      filter
        (λ e.
          ltb 0 e.1.remaining
          && option_elim member_id true (str_eq e.1.member_id)
          && option_elim unit true (unit_eq (lot_unit s.program e.1))
          && leb (env.date_parse e.1.expires_at) env.now)
        s.point_lots)

  -- one expired lot: it is emptied, and the ledger says so
  unfoldable pub expire_lot : String × PointLot → Method (Unit {0})
  expire_lot (key, lot) = do
    modify (λ s. record s { point_lots = insert key (with_remaining lot 0) s.point_lots })
    program ← gets (λ s. s.program)
    let input =
        ledger_input lot.member_id expiration (lot_unit program lot) (neg (pos lot.remaining))
    add_ledger env (record input { related_entry_id = some lot.entry_id })
    pure tt

  unfoldable pub expire_point_lots : Option String → Option LoyaltyUnit → Method (Unit {0})
  unfolding expired_lots expire_lot
  expire_point_lots member_id unit = do
    lots ← gets (λ s. expired_lots s member_id unit)
    for_each expire_lot lots
