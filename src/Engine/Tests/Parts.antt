-- ===== src/Engine/Tests/Parts.antt =====
-- Examples of parts of calls: lots, funding, an order's eligible spend, an adjustment.
use loyalty_interchange_prot.Base.{ℕ, String, ◌≡◌, refl, true, none, some, [], ◌∷◌, arith}
use loyalty_interchange_prot.Base.Int.{pos, neg, negsuc, ◌+ℤ◌, ◌-ℤ◌, ◌*ℤ◌, ◌≤ℤ◌, sum_by}
use loyalty_interchange_prot.Base.Assoc.{lookup, insert}
use loyalty_interchange_prot.Base.Json.{null}
use loyalty_interchange_prot.Exec.{returned, ◌>>=◌, pure, gets, throw_if, for_each, modify}
use loyalty_interchange_prot.Protocol.Primitives.{points, Money, merchant, brand, unit_eq}
use loyalty_interchange_prot.Protocol.Loyalty.{discount, LedgerEntry, accrual}
use loyalty_interchange_prot.Protocol.Order.{
  FoodserviceOrder, OrderLine, OrderAdjustment, web, paid, item, partial_refund, is_paid,
}
use loyalty_interchange_prot.Protocol.Program.{RewardDefinition}
use loyalty_interchange_prot.Protocol.Validation.{
  validate_foodservice_order, order_issues, line_issues, parent_issues, money_fields,
  expected_total, validate_funding_shares,
}
use loyalty_interchange_prot.Engine.State.{State, PointLot}
use loyalty_interchange_prot.Engine.Calls.{new_engine}
use loyalty_interchange_prot.Engine.Lots.{
  consume_point_lots, restore_point_lots, expire_point_lots, expired_lots, expire_lot, lot_order,
}
use loyalty_interchange_prot.Engine.Lots.Keyed.{IsKeyed}
use loyalty_interchange_prot.Engine.Lots.Expired.{is_due, expire_point_lots_empties}
use loyalty_interchange_prot.Base.Sort.{sort, sorted_insert}
use loyalty_interchange_prot.Engine.Ledger.{add_ledger, lot_of_entry}
use loyalty_interchange_prot.Engine.Lots.Restored.{restore_point_lots-consume_point_lots}
use loyalty_interchange_prot.Engine.Funding.{funding_allocations}
use loyalty_interchange_prot.Engine.Funding.Paid.{
  paid as paid_amounts, value_of, paid-funding_allocations,
}
use loyalty_interchange_prot.Engine.Earning.{
  eligible_spend, amount_for_unit, points_for, safe_amount, points_for_signed_spend,
}
use loyalty_interchange_prot.Engine.Earning.Bounds.{eligible_spend_bounds}
use loyalty_interchange_prot.Engine.Adjustment.{
  adjusted_amount, raw_amount, clamp_debit, prior_adjustments,
}
use loyalty_interchange_prot.Engine.Adjustment.Debits.{left_of, adjusted_amount_lower}
use loyalty_interchange_prot.Engine.Tests.Data.{env, program}

abbrev lot : String → ℕ → PointLot
lot id remaining = record {
  entry_id = id;
  member_id = "m1";
  remaining = remaining;
  expires_at = "2026";
  unit = none;
}

abbrev stocked : State
stocked = record (new_engine program) {
  point_lots = ("e1", lot "e1" 30) ∷ ("e2", lot "e2" 0) ∷ ("e3", lot "e3" 40) ∷ [];
}

restore_point_lots-consume_point_lots_example :
    (consume_point_lots env "m1" points 50 (some "c1") >>= λ _. restore_point_lots "c1") stocked
    ≡ (returned tt, stocked)
unfolding IsKeyed lookup
restore_point_lots-consume_point_lots_example =
    restore_point_lots-consume_point_lots env "m1" points 50 "c1" stocked
      (refl, refl, (refl, refl, (refl, refl, tt))) refl

abbrev euros : ℕ → Money
euros n = record { amount = pos n; currency = "EUR" }

-- three parties that share 101 cents
abbrev reward : RewardDefinition
reward = record {
  reward_id = "w1";
  name = none;
  points_cost = 20;
  cost = none;
  effect = discount (euros 101) [];
  funding =
      record { party_id = "a"; party_type = brand; share_bps = 3333; amount = none }
      ∷ record { party_id = "b"; party_type = merchant; share_bps = 3333; amount = none }
      ∷ record { party_id = "c"; party_type = merchant; share_bps = 3334; amount = none }
      ∷ [];
  available_from = none;
  available_until = none;
  metadata = none;
}

paid-funding_allocations_example : paid_amounts (funding_allocations env reward) ≡ pos 101
unfolding value_of validate_funding_shares sum_by ◌+ℤ◌
paid-funding_allocations_example = paid-funding_allocations env reward "EUR" 101 refl refl

-- one line of 2 times 500, less 100, with a tax of 90
abbrev line : OrderLine
line = record {
  line_id = "l1";
  kind = item;
  product_id = "burger";
  parent_line_id = none;
  quantity = pos 2;
  unit_price = euros 500;
  subtotal = euros 1000;
  discount = euros 100;
  tax = euros 90;
  category_ids = none;
  tags = none;
  loyalty_eligible = none;
}

abbrev order : FoodserviceOrder
order = record {
  order_id = "o1";
  scope = record {
    program_id = "p";
    brand_id = "b";
    merchant_id = "m";
    location_id = "l";
    franchisee_id = none;
  };
  member_id = some "m1";
  channel = web;
  status = paid;
  lines = line ∷ [];
  totals = record {
    subtotal = euros 1000;
    discount = euros 100;
    tax = euros 90;
    tip = euros 0;
    service_charge = euros 0;
    total = euros 990;
  };
  tenders = none;
  raw = null;
}

eligible_spend_bounds_example :
    (pos 0 ≤ℤ eligible_spend none order) × (eligible_spend none order ≤ℤ (pos 1000 -ℤ pos 100))
unfolding validate_foodservice_order order_issues line_issues parent_issues money_fields
    expected_total sum_by ◌+ℤ◌ ◌-ℤ◌ ◌*ℤ◌ is_paid
eligible_spend_bounds_example = eligible_spend_bounds (λ o. true) none order refl

-- a refund of 700 on an order that earned 5 points, of 1 point for 100
abbrev refund : OrderAdjustment
refund = record {
  adjustment_id = "a1";
  original_order_id = "o1";
  type = partial_refund;
  reason = "returned";
  occurred_at = "2026";
  order_total_delta = record { amount = neg (pos 700); currency = "EUR" };
  eligible_spend_delta = record { amount = neg (pos 700); currency = "EUR" };
  lines = none;
  raw = null;
}

abbrev earned : LedgerEntry
earned = record {
  entry_id = "|";
  member_id = "m1";
  program_id = "p";
  account_id = "points:m1";
  operation = accrual;
  unit = points;
  amount = pos 5;
  occurred_at = "2026";
  expires_at = none;
  related_entry_id = none;
  order_id = some "o1";
  location_id = none;
  adjustment_id = none;
  reservation_id = none;
  classification = none;
  reason = none;
  qualifies_for_tier = none;
}

adjusted_amount_lower_example :
    pos 0 ≤ℤ (left_of "o1" points (some earned) (new_engine program) +ℤ negsuc 4)
unfolding adjusted_amount raw_amount clamp_debit prior_adjustments points_for_signed_spend
    amount_for_unit points_for safe_amount sum_by ◌+ℤ◌ ◌-ℤ◌ ◌>>=◌ gets pure throw_if unit_eq
adjusted_amount_lower_example =
    adjusted_amount_lower env refund (some earned) 10000 points (negsuc 4) (new_engine program)
      (new_engine program) refl (omega arith)

abbrev stale : State
stale = record (new_engine program) {
  point_lots = ("e1", record (lot "e1" 30) { expires_at = "late" }) ∷ ("e2", lot "e2" 20) ∷ [];
}

abbrev spent_lot : PointLot
spent_lot = record (lot "e1" 0) { expires_at = "late" }

expire_point_lots_empties_example :
    ((expire_point_lots env (some "m1") none stale).0 ≡ returned tt) × (spent_lot.remaining ≡ 0)
unfolding IsKeyed is_due lookup insert expire_point_lots expired_lots expire_lot for_each ◌>>=◌ gets
    modify pure add_ledger lot_of_entry sort sorted_insert lot_order
expire_point_lots_empties_example =
    expire_point_lots_empties env stale (some "m1") none "e1" spent_lot
      (refl, refl, (refl, refl, tt)) refl refl
