-- ===== src/Engine/Earning/Bounds.antt =====
-- What a valid order can earn on.
use loyalty_interchange_prot.Base.{
  String, ◌≡◌, refl, Bool, true, false, not, Option, List, [], ◌∷◌, ◌++◌, any, filter, str_eq,
  arith,
}
use loyalty_interchange_prot.Base.Int.{
  ℤ, pos, ◌-ℤ◌, ◌*ℤ◌, ◌≤ℤ◌, ltb_ℤ, eqb_ℤ, sum_by, +ℤ_parts, -ℤ_parts,
}
use loyalty_interchange_prot.Protocol.Order.{FoodserviceOrder, OrderLine}
use loyalty_interchange_prot.Protocol.Program.{EarningPolicy}
use loyalty_interchange_prot.Protocol.Validation.{
  Issue, currency, total_mismatch, subtotal_mismatch, discount_mismatch, money_fields,
  duplicate_line, line_subtotal_mismatch, negative_line, discount_exceeds_line, issue_if,
  is_negative, line_money, line_issues, order_issues, validate_foodservice_order, expected_total,
}
use loyalty_interchange_prot.Engine.Earning.{is_eligible_line, eligible_spend}

append_empty : (xs ys : List Issue) → xs ++ ys ≡ [] → (xs ≡ []) × (ys ≡ [])
append_empty [] ys h = (refl, h)
append_empty (x ∷ xs) ys h = ground arith

issue_if_none : (b : Bool) (issue : Issue) → issue_if b issue ≡ [] → b ≡ false
issue_if_none b issue h = ground arith

not-false : (b : Bool) → not b ≡ false → b ≡ true
not-false b h = ground arith

-- the money that a line's price leaves after its discount
abbrev net : OrderLine → ℤ
net line = line.subtotal.amount -ℤ line.discount.amount

net_lower :
    (line : OrderLine) → ltb_ℤ line.subtotal.amount line.discount.amount ≡ false → pos 0 ≤ℤ net line
net_lower line h = ground (arith, -ℤ_parts line.subtotal.amount line.discount.amount)

-- a line without issues has a net that is not negative
line_issues_none :
    (seen : List String) (line : OrderLine) (lines : List OrderLine)
    → line_issues seen (line ∷ lines) ≡ []
    → (pos 0 ≤ℤ net line) × (line_issues (line.line_id ∷ seen) lines ≡ [])
unfolding line_issues
line_issues_none seen line lines h =
    let (_, h1) =
      append_empty (issue_if (any (str_eq line.line_id) seen) (duplicate_line line.line_id)) _ h in
    let (_, h2) =
      append_empty
        (issue_if (not (eqb_ℤ line.subtotal.amount (line.unit_price.amount *ℤ line.quantity)))
          (line_subtotal_mismatch line.line_id))
        _ h1 in
    let (_, h3) =
      append_empty (issue_if (any is_negative (line_money line)) (negative_line line.line_id)) _
        h2 in
    let (exceeds, rest) =
      append_empty
        (issue_if (ltb_ℤ line.subtotal.amount line.discount.amount)
          (discount_exceeds_line line.line_id))
        _ h3 in
    (net_lower line (issue_if_none _ (discount_exceeds_line line.line_id) exceeds), rest)

-- the nets of the lines that a filter keeps stay within those of all lines
kept_bounds :
    (p : OrderLine → Bool) (seen : List String) (lines : List OrderLine)
    → line_issues seen lines ≡ []
    → (pos 0 ≤ℤ sum_by net (filter p lines))
      × (sum_by net (filter p lines) ≤ℤ (
          sum_by (λ line. line.subtotal.amount) lines
          -ℤ sum_by (λ line. line.discount.amount) lines))
unfolding sum_by
kept_bounds p seen [] h = (omega arith, ground (arith, -ℤ_parts (pos 0) (pos 0)))
kept_bounds p seen (line ∷ lines) h =
    let (lower, rest) = line_issues_none seen line lines h in
    let (low, high) = kept_bounds p (line.line_id ∷ seen) lines rest in
    grind (arith, low, high, lower, -ℤ_parts, +ℤ_parts)

-- The checks of an order that come before and after those of its lines.
order_parts :
    (order : FoodserviceOrder)
    → order_issues order ≡ []
    → (line_issues [] order.lines ≡ [])
      × (eqb_ℤ order.totals.subtotal.amount (sum_by (λ line. line.subtotal.amount) order.lines)
          ≡ true)
      × (eqb_ℤ order.totals.discount.amount (sum_by (λ line. line.discount.amount) order.lines)
          ≡ true)
unfolding order_issues
order_parts order h =
    let t = order.totals in
    let (_, h1) =
      append_empty
        (issue_if (any (λ money. not (str_eq money.currency t.total.currency)) (money_fields order))
          currency)
        _ h in
    let (_, h2) =
      append_empty (issue_if (not (eqb_ℤ (expected_total t) t.total.amount)) total_mismatch) _ h1 in
    let (on_lines, h3) = append_empty (line_issues [] order.lines) _ h2 in
    let (subtotals, h4) =
      append_empty
        (issue_if
          (not (eqb_ℤ t.subtotal.amount (sum_by (λ line. line.subtotal.amount) order.lines)))
          subtotal_mismatch)
        _ h3 in
    let (discounts, _) =
      append_empty
        (issue_if
          (not (eqb_ℤ t.discount.amount (sum_by (λ line. line.discount.amount) order.lines)))
          discount_mismatch)
        _ h4 in
    (
      on_lines,
      not-false _ (issue_if_none _ subtotal_mismatch subtotals),
      not-false _ (issue_if_none _ discount_mismatch discounts),
    )

totals_bound :
    (spend total_subtotal total_discount subtotal discount : ℤ)
    → eqb_ℤ total_subtotal subtotal ≡ true
    → eqb_ℤ total_discount discount ≡ true
    → spend ≤ℤ (subtotal -ℤ discount)
    → spend ≤ℤ (total_subtotal -ℤ total_discount)
totals_bound spend a b c d h g k = ground (arith, -ℤ_parts a b, -ℤ_parts c d)

valid_parts :
    (matches_schema : FoodserviceOrder → Bool) (order : FoodserviceOrder)
    → validate_foodservice_order matches_schema order ≡ []
    → order_issues order ≡ []
unfolding validate_foodservice_order
valid_parts matches_schema order h = ground arith

-- An order without issues, whatever the schema check and the earning policy, has an eligible spend
-- that is not negative and at most the order's subtotal less its discount.
pub eligible_spend_bounds :
    (matches_schema : FoodserviceOrder → Bool) (policy : Option EarningPolicy)
    (order : FoodserviceOrder)
    → validate_foodservice_order matches_schema order ≡ []
    → (pos 0 ≤ℤ eligible_spend policy order)
      × (eligible_spend policy order
          ≤ℤ (order.totals.subtotal.amount -ℤ order.totals.discount.amount))
unfolding eligible_spend
eligible_spend_bounds matches_schema policy order h =
    let (on_lines, subtotals, discounts) = order_parts order (valid_parts matches_schema order h) in
    let (low, high) = kept_bounds (is_eligible_line policy) [] order.lines on_lines in
    (low, totals_bound _ _ _ _ _ subtotals discounts high)
