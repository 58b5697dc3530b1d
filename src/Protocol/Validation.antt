-- ===== src/Protocol/Validation.antt =====
-- Semantic checks of orders and funding: packages/protocol/src/validation.ts. The structural check
-- is the ajv package's, and a parameter.
use loyalty_interchange_prot.Base.{
  String, Bool, true, false, not, ◌&&◌, List, [], ◌∷◌, ◌++◌, map, any, option_elim, str_eq,
  if◌then◌else◌,
}
use loyalty_interchange_prot.Base.Int.{ℤ, pos, ◌+ℤ◌, ◌-ℤ◌, ◌*ℤ◌, ltb_ℤ, eqb_ℤ, sum_by}
use loyalty_interchange_prot.Protocol.Primitives.{Money, FundingShare}
use loyalty_interchange_prot.Protocol.Order.{OrderLine, OrderTotals, FoodserviceOrder, is_paid}

-- the issues, by what they are about
pub data Issue : Type 0 where
  structure currency total_mismatch : Issue
  duplicate_line line_subtotal_mismatch negative_line discount_exceeds_line : String → Issue
  subtotal_mismatch discount_mismatch tax_mismatch negative_totals negative_tender : Issue
  missing_parent own_parent : String → Issue
  tender_mismatch : Issue

abbrev pub issue_if : Bool → Issue → List Issue
issue_if true issue = issue ∷ []
issue_if false issue = []

-- `Object.values(order.totals)`
abbrev pub totals_values : OrderTotals → List Money
totals_values t = t.subtotal ∷ t.discount ∷ t.tax ∷ t.tip ∷ t.service_charge ∷ t.total ∷ []

-- the four amounts of each line
abbrev pub line_money : OrderLine → List Money
line_money line = line.unit_price ∷ line.subtotal ∷ line.discount ∷ line.tax ∷ []

abbrev pub all_line_money : List OrderLine → List Money
all_line_money [] = []
all_line_money (line ∷ lines) = line_money line ++ all_line_money lines

unfoldable pub money_fields : FoodserviceOrder → List Money
money_fields order =
    all_line_money order.lines
    ++ (totals_values order.totals
        ++ option_elim order.tenders [] (λ tenders. map (λ tender. tender.amount) tenders))

abbrev pub is_negative : Money → Bool
is_negative money = ltb_ℤ money.amount (pos 0)

-- the loop over the lines; `seen` are the line ids before
unfoldable pub line_issues : List String → List OrderLine → List Issue
line_issues seen [] = []
line_issues seen (line ∷ lines) =
    issue_if (any (str_eq line.line_id) seen) (duplicate_line line.line_id)
    ++ (issue_if (not (eqb_ℤ line.subtotal.amount (line.unit_price.amount *ℤ line.quantity)))
          (line_subtotal_mismatch line.line_id)
        ++ (issue_if (any is_negative (line_money line)) (negative_line line.line_id)
            ++ (issue_if (ltb_ℤ line.subtotal.amount line.discount.amount)
                  (discount_exceeds_line line.line_id)
                ++ line_issues (line.line_id ∷ seen) lines)))

-- the loop over the lines' parents; `ids` are all line ids
unfoldable pub parent_issues : List String → List OrderLine → List Issue
parent_issues ids [] = []
parent_issues ids (line ∷ lines) =
    option_elim line.parent_line_id [] (λ parent.
      issue_if (not (any (str_eq parent) ids)) (missing_parent line.line_id)
      ++ issue_if (str_eq parent line.line_id) (own_parent line.line_id))
    ++ parent_issues ids lines

-- what a valid order's total is made of
unfoldable pub expected_total : OrderTotals → ℤ
expected_total t =
    t.subtotal.amount -ℤ t.discount.amount +ℤ t.tax.amount +ℤ t.tip.amount
    +ℤ t.service_charge.amount

unfoldable pub order_issues : FoodserviceOrder → List Issue
unfolding money_fields line_issues parent_issues expected_total
order_issues order =
    let t = order.totals in
    issue_if (any (λ money. not (str_eq money.currency t.total.currency)) (money_fields order))
      currency
    ++ (issue_if (not (eqb_ℤ (expected_total t) t.total.amount)) total_mismatch
        ++ (line_issues [] order.lines
            ++ (issue_if
                  (not
                    (eqb_ℤ t.subtotal.amount (sum_by (λ line. line.subtotal.amount) order.lines)))
                  subtotal_mismatch
                ++ (issue_if
                      (not (
                        eqb_ℤ t.discount.amount
                          (sum_by (λ line. line.discount.amount) order.lines)))
                      discount_mismatch
                    ++ (issue_if
                          (not (eqb_ℤ t.tax.amount (sum_by (λ line. line.tax.amount) order.lines)))
                          tax_mismatch
                        ++ (issue_if (any is_negative (totals_values t)) negative_totals
                            ++ (issue_if
                                  (option_elim order.tenders false
                                    (any (λ tender. is_negative tender.amount)))
                                  negative_tender
                                ++ (parent_issues (map (λ line. line.line_id) order.lines)
                                      order.lines
                                    ++ issue_if
                                        (is_paid order.status
                                          && option_elim order.tenders false (λ tenders. not (
                                              eqb_ℤ
                                                (sum_by (λ tender. tender.amount.amount) tenders)
                                                t.total.amount)))
                                        tender_mismatch))))))))

-- the schema's answer comes first
unfoldable pub validate_foodservice_order :
    (FoodserviceOrder → Bool) → FoodserviceOrder → List Issue
unfolding order_issues
validate_foodservice_order matches_schema order =
    if matches_schema order then order_issues order else structure ∷ []

-- whether the shares total 10,000 basis points
unfoldable pub validate_funding_shares : List FundingShare → Bool
validate_funding_shares shares = eqb_ℤ (sum_by (λ share. pos share.share_bps) shares) (pos 10000)
