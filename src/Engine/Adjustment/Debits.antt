-- ===== src/Engine/Adjustment/Debits.antt =====
-- How much an adjustment of an order takes.
use loyalty_interchange_prot.Base.{ℕ, String, ◌≡◌, ap, true, ◌&&◌, Option, arith, if◌then◌else◌}
use loyalty_interchange_prot.Base.Int.{ℤ, pos, ◌+ℤ◌, ◌≤ℤ◌, ltb_ℤ, +ℤ_parts}
use loyalty_interchange_prot.Exec.{Outcome, returned, threw, proceed, pure, gets, ◌>>=◌}
use loyalty_interchange_prot.Protocol.Primitives.{LoyaltyUnit}
use loyalty_interchange_prot.Protocol.Loyalty.{LedgerEntry}
use loyalty_interchange_prot.Protocol.Order.{OrderAdjustment}
use loyalty_interchange_prot.Engine.State.{Env, State}
use loyalty_interchange_prot.Engine.Adjustment.{
  prior_adjustments, clamp_debit, original_amount, raw_amount, adjusted_amount,
}

clamp_debit_lower : (amount left : ℤ) → pos 0 ≤ℤ left → pos 0 ≤ℤ (left +ℤ clamp_debit amount left)
unfolding clamp_debit
clamp_debit_lower amount left h = ground (arith, +ℤ_parts left (clamp_debit amount left))

debit_lower :
    (amount left : ℤ)
    → pos 0 ≤ℤ left
    → pos 0 ≤ℤ (left +ℤ (if ltb_ℤ amount (pos 0) && true then clamp_debit amount left else amount))
debit_lower amount left h = ground (arith, +ℤ_parts left amount, clamp_debit_lower amount left)

module _ (order_id : String) (unit : LoyaltyUnit) (original : Option LedgerEntry) where
  -- what an order has earned of the unit and not given back
  abbrev pub left_of : State → ℤ
  left_of s = original_amount original +ℤ prior_adjustments s order_id unit

  debit_from :
      (o : Outcome ℤ) (u t : State) (amount : ℤ)
      → proceed o
          (λ x. gets (λ s. prior_adjustments s order_id unit) >>= λ prior. pure (
            if ltb_ℤ x (pos 0) && true
            then clamp_debit x (original_amount original +ℤ prior)
            else x))
          u
        ≡ (returned amount, t)
      → pos 0 ≤ℤ left_of t
      → pos 0 ≤ℤ (left_of t +ℤ amount)
  unfolding ◌>>=◌ gets pure
  debit_from (threw e) u t amount h k = ground arith
  debit_from (returned x) u t amount h k =
      ground (arith, ap (λ r. r.0) h, ap (λ r. r.1) h, debit_lower x (left_of u))

-- When an order that has accrued is adjusted, by whatever adjustment and at whatever multiplier,
-- and its original entry and its adjustments so far do not add up to less than zero in a unit, then
-- they do not with the amount of this adjustment either.
pub adjusted_amount_lower :
    (env : Env) (a : OrderAdjustment) (original : Option LedgerEntry) (multiplier_bps : ℕ)
    (unit : LoyaltyUnit) (amount : ℤ) (s t : State)
    → adjusted_amount env a true original multiplier_bps unit s ≡ (returned amount, t)
    → pos 0 ≤ℤ left_of a.original_order_id unit original t
    → pos 0 ≤ℤ (left_of a.original_order_id unit original t +ℤ amount)
unfolding adjusted_amount ◌>>=◌
adjusted_amount_lower env a original multiplier_bps unit amount s t h k =
    let r = raw_amount env a true original multiplier_bps unit s in
    debit_from a.original_order_id unit original r.0 r.1 t amount h k
