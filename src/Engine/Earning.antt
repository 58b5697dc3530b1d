-- ===== src/Engine/Earning.antt =====
-- What an order earns: `assertOrder`, `eligibleSpend`, `isEligibleLine`, `amountForUnit`,
-- `pointsForSignedSpend` and `accrualAmounts`.
pub mod Bounds
use loyalty_interchange_prot.Base.{
  ℕ, ◌*◌, ◌/◌, String, Bool, true, false, not, Option, List, [], ◌∷◌, get_or, option_elim, any,
  filter, map, ltb, str_eq, if◌then◌else◌,
}
use loyalty_interchange_prot.Base.Int.{ℤ, pos, neg, abs, pos_part, ◌-ℤ◌, ltb_ℤ, sum_by}
use loyalty_interchange_prot.Exec.{
  pure, gets, ◌>>=◌, ◌>>◌, throw_if, or_throw, map_each, invalid_order, invalid_program,
  invalid_state, conflict, currency_mismatch, runtime_error,
}
use loyalty_interchange_prot.Protocol.Primitives.{LoyaltyUnit, visits, stamps, credits, Member}
use loyalty_interchange_prot.Protocol.Order.{
  FoodserviceOrder, OrderLine, OrderChannel, counter, drive_thru, kiosk, web, mobile, pickup,
  delivery, catering, third_party, other, channel_eq, kind_eq,
}
use loyalty_interchange_prot.Protocol.Loyalty.{UnitAmount}
use loyalty_interchange_prot.Protocol.Program.{ProgramDefinition, EarningPolicy}
use loyalty_interchange_prot.Protocol.Validation.{validate_foodservice_order}
use loyalty_interchange_prot.Engine.State.{Env, Method}
use loyalty_interchange_prot.Engine.Ledger.{account_units}

abbrev pub all_order_channels : List OrderChannel
all_order_channels =
    counter ∷ drive_thru ∷ kiosk ∷ web ∷ mobile ∷ pickup ∷ delivery ∷ catering ∷ third_party ∷ other
    ∷ []

-- `Number.MAX_SAFE_INTEGER`
abbrev pub max_safe_integer : ℕ
max_safe_integer = 9007199254740991

-- `this.assertProgramId(programId)`
unfoldable pub assert_program_id : String → Method (Unit {0})
assert_program_id program_id = do
  program ← gets (λ s. s.program)
  throw_if (not (str_eq program_id program.program_id)) invalid_program 404

abbrev pub is_empty {ℓ} : {A : Type ℓ} → List A → Bool
is_empty [] = true
is_empty (_ ∷ _) = false

unfoldable pub assert_order : Env → FoodserviceOrder → Member → Method (Unit {0})
assert_order env order member = do
  throw_if (not (is_empty (validate_foodservice_order env.order_matches_schema order)))
      invalid_order 422
  assert_program_id order.scope.program_id
  throw_if (not (str_eq order.scope.program_id member.program_id)) conflict 409
  throw_if (option_elim order.member_id false (λ id. not (str_eq id member.member_id))) conflict 409
  program ← gets (λ s. s.program)
  throw_if (not (str_eq order.totals.total.currency program.currency)) currency_mismatch 409

-- `list?.includes(value)` and `values?.some((value) => list?.includes(value))`
abbrev pub includes : Option (List String) → String → Bool
includes list value = option_elim list false (any (str_eq value))

abbrev pub includes_some : Option (List String) → Option (List String) → Bool
includes_some list wanted = option_elim wanted false (any (includes list))

unfoldable pub is_eligible_line : Option EarningPolicy → OrderLine → Bool
is_eligible_line policy line =
    if not (get_or line.loyalty_eligible true)
    then false
    else option_elim policy true (λ p.
      if includes p.excluded_product_ids line.product_id
      then false
      else if option_elim p.excluded_line_kinds false (any (kind_eq line.kind))
      then false
      else if includes_some p.excluded_category_ids line.category_ids
      then false
      else not (includes_some p.excluded_tags line.tags))

unfoldable pub eligible_spend : Option EarningPolicy → FoodserviceOrder → ℤ
unfolding is_eligible_line
eligible_spend policy order =
    sum_by (λ line. line.subtotal.amount -ℤ line.discount.amount)
      (filter (is_eligible_line policy) order.lines)

-- An amount beyond the safe integers is refused.
unfoldable pub safe_amount : ℕ → Method ℤ
safe_amount amount = do throw_if (ltb max_safe_integer amount) invalid_state 422; pure (pos amount)

-- points per spend, in basis points of the multiplier
unfoldable pub points_for : ProgramDefinition → ℕ → ℕ → ℕ
points_for program spend multiplier_bps =
    spend
    * program.earn_rate.points
    * multiplier_bps
    / (program.earn_rate.spend_minor_units * 10000)

-- The spend of the earn rate is positive, as `assertProgram` has it. A policy that is missing is
-- read as an object, which throws.
unfoldable pub amount_for_unit : LoyaltyUnit → ℤ → ℕ → Method ℤ
unfolding safe_amount points_for
amount_for_unit credits minor_units multiplier_bps = do
  program ← gets (λ s. s.program)
  policy ← or_throw program.wallet_credit_policy runtime_error 500
  safe_amount (pos_part minor_units * policy.earn_bps / 10000)
amount_for_unit visits minor_units multiplier_bps = do
  program ← gets (λ s. s.program)
  policy ← or_throw program.visit_stamp_policy runtime_error 500
  pure (pos policy.amount_per_order)
amount_for_unit stamps minor_units multiplier_bps = do
  program ← gets (λ s. s.program)
  policy ← or_throw program.visit_stamp_policy runtime_error 500
  pure (pos policy.amount_per_order)
amount_for_unit _ minor_units multiplier_bps = do
  program ← gets (λ s. s.program)
  safe_amount (points_for program (pos_part minor_units) multiplier_bps)

unfoldable pub points_for_signed_spend : LoyaltyUnit → ℤ → ℕ → Method ℤ
points_for_signed_spend unit minor_units multiplier_bps = do
  magnitude ← amount_for_unit unit (pos (abs minor_units)) multiplier_bps
  pure (if ltb_ℤ minor_units (pos 0) then neg magnitude else magnitude)

abbrev pub no_amounts : ProgramDefinition → List UnitAmount
no_amounts program = map (λ unit. record { unit = unit; amount = pos 0 }) (account_units program)

-- whether the order's channel and its eligible spend let it earn
unfoldable pub earns : ProgramDefinition → FoodserviceOrder → Bool
unfolding eligible_spend
earns program order =
    let policy = program.earning_policy in
    let channels =
      option_elim policy all_order_channels (λ p. get_or p.eligible_channels all_order_channels) in
    let minimum = option_elim policy 0 (λ p. get_or p.minimum_eligible_spend_minor_units 0) in
    if not (any (channel_eq order.channel) channels)
    then false
    else not (ltb_ℤ (eligible_spend policy order) (pos minimum))

unfoldable pub accrual_amounts : FoodserviceOrder → ℕ → Method (List UnitAmount)
unfolding earns
accrual_amounts order multiplier_bps = do
  program ← gets (λ s. s.program)
  if not (earns program order)
      then pure (no_amounts program)
      else map_each
          (λ unit. do
            amount ←
                amount_for_unit unit (eligible_spend program.earning_policy order) multiplier_bps
            pure (record { unit = unit; amount = amount }))
          (account_units program)
