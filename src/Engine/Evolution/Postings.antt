-- ===== src/Engine/Evolution/Postings.antt =====
-- Accruals and adjustments evolve the state.
use loyalty_interchange_prot.Base.{ℕ, zero, suc, String, ◌≡◌, Bool, Option, List}
use loyalty_interchange_prot.Base.Int.{ℤ}
use loyalty_interchange_prot.Exec.Follows.{Follows, Follows-bind}
use loyalty_interchange_prot.Protocol.Primitives.{LoyaltyUnit, RequestContext}
use loyalty_interchange_prot.Protocol.Order.{OrderAdjustment}
use loyalty_interchange_prot.Protocol.Loyalty.{UnitAmount, LedgerEntry}
use loyalty_interchange_prot.Protocol.Program.{VisitStampPolicy}
use loyalty_interchange_prot.Protocol.Messages.{OrderRequest, AdjustmentRequest, ManualRequest}
use loyalty_interchange_prot.Engine.State.{Env, AccrualRecord, MutationRecord}
use loyalty_interchange_prot.Engine.Ledger.{LedgerInput}
use loyalty_interchange_prot.Engine.Accrual.{
  post_amount, issue_cycle, issue_cycles, issue_threshold_rewards, accrue_again, accrue_new,
  accrual_body, post_accrual,
}
use loyalty_interchange_prot.Engine.Adjustment.{
  post_expiring, raw_amount, adjusted_amount, adjust_unit, repeat_adjustment, record_adjustment,
  adjust_new, check_adjustment, adjust_body, adjust_order, manual_expiry, manual_new, manual_body,
  post_manual_adjustment,
}
use loyalty_interchange_prot.Engine.Evolution.Order.{Evolves, Evolves-preorder}
use loyalty_interchange_prot.Engine.Evolution.Operations.{
  method_rules, once-Evolves, issue_reward-Evolves, adjustments-Evolves,
}

module _ (env : Env) (distinct : (n m : ℕ) (p q : String) → env.ids n p ≡ env.ids m q → n ≡ m) where
  post_amount-Evolves :
      (q : OrderRequest) (a : UnitAmount) → Follows (Evolves env.ids) (post_amount env q a)
  unfolding post_amount
  post_amount-Evolves q a = search method_rules depth 12

  issue_cycle-Evolves :
      (m : String) (c : RequestContext) (p : VisitStampPolicy) (n : ℕ)
      → Follows (Evolves env.ids) (issue_cycle env m c p n)
  unfolding issue_cycle
  issue_cycle-Evolves m c p n = search (method_rules, issue_reward-Evolves) depth 12

  issue_cycles-Evolves :
      (m : String) (c : RequestContext) (p : VisitStampPolicy) (left n : ℕ)
      → Follows (Evolves env.ids) (issue_cycles env m c p left n)
  unfolding issue_cycles
  issue_cycles-Evolves m c p zero n = search method_rules
  issue_cycles-Evolves m c p (suc left) n =
      Follows-bind (Evolves-preorder env.ids) (issue_cycle env m c p (suc n)) _
        (issue_cycle-Evolves m c p (suc n)) (λ _. issue_cycles-Evolves m c p left (suc n))

  issue_threshold_rewards-Evolves :
      (m : String) (c : RequestContext)
      → Follows (Evolves env.ids) (issue_threshold_rewards env m c)
  unfolding issue_threshold_rewards
  issue_threshold_rewards-Evolves m c = search (method_rules, issue_cycles-Evolves) depth 14

  accrue_again-Evolves :
      (q : OrderRequest) (facts : String) (r : AccrualRecord)
      → Follows (Evolves env.ids) (accrue_again env q facts r)
  unfolding accrue_again
  accrue_again-Evolves q facts r = search method_rules depth 12

  accrue_new-Evolves :
      (q : OrderRequest) (facts : String) → Follows (Evolves env.ids) (accrue_new env q facts)
  unfolding accrue_new
  accrue_new-Evolves q facts =
      search (method_rules, post_amount-Evolves, issue_threshold_rewards-Evolves) depth 16

  accrual_body-Evolves : (q : OrderRequest) → Follows (Evolves env.ids) (accrual_body env q)
  unfolding accrual_body
  accrual_body-Evolves q = search (method_rules, accrue_again-Evolves, accrue_new-Evolves) depth 14

  pub post_accrual-Evolves : (q : OrderRequest) → Follows (Evolves env.ids) (post_accrual env q)
  unfolding post_accrual
  post_accrual-Evolves q = search (method_rules, once-Evolves, accrual_body-Evolves) depth 8

  post_expiring-Evolves :
      (i : LedgerInput) (unit : LoyaltyUnit) (a : ℤ)
      → Follows (Evolves env.ids) (post_expiring env i unit a)
  unfolding post_expiring
  post_expiring-Evolves i unit a = search method_rules depth 12

  raw_amount-Evolves :
      (a : OrderAdjustment) (accrued : Bool) (e : Option LedgerEntry) (bps : ℕ) (unit : LoyaltyUnit)
      → Follows (Evolves env.ids) (raw_amount env a accrued e bps unit)
  unfolding raw_amount
  raw_amount-Evolves a accrued e bps unit = search method_rules depth 12

  adjusted_amount-Evolves :
      (a : OrderAdjustment) (accrued : Bool) (e : Option LedgerEntry) (bps : ℕ) (unit : LoyaltyUnit)
      → Follows (Evolves env.ids) (adjusted_amount env a accrued e bps unit)
  unfolding adjusted_amount
  adjusted_amount-Evolves a accrued e bps unit = search (method_rules, raw_amount-Evolves) depth 12

  adjust_unit-Evolves :
      (q : AdjustmentRequest) (accrued : Bool) (es : List LedgerEntry) (bps : ℕ)
      (unit : LoyaltyUnit)
      → Follows (Evolves env.ids) (adjust_unit env q accrued es bps unit)
  unfolding adjust_unit
  adjust_unit-Evolves q accrued es bps unit =
      search (method_rules, adjusted_amount-Evolves, post_expiring-Evolves) depth 12

  repeat_adjustment-Evolves :
      (c : RequestContext) (facts : String) (r : MutationRecord)
      → Follows (Evolves env.ids) (repeat_adjustment env c facts r)
  unfolding repeat_adjustment
  repeat_adjustment-Evolves c facts r = search method_rules depth 12

  record_adjustment-Evolves :
      (id : String) (r : MutationRecord) → Follows (Evolves env.ids) (record_adjustment env id r)
  unfolding record_adjustment
  record_adjustment-Evolves id r = adjustments-Evolves env.ids _

  adjust_new-Evolves :
      (q : AdjustmentRequest) (facts : String) → Follows (Evolves env.ids) (adjust_new env q facts)
  unfolding adjust_new
  adjust_new-Evolves q facts =
      search (method_rules, adjust_unit-Evolves, record_adjustment-Evolves) depth 16

  check_adjustment-Evolves :
      (a : OrderAdjustment) → Follows (Evolves env.ids) (check_adjustment env a)
  unfolding check_adjustment
  check_adjustment-Evolves a = search method_rules depth 12

  adjust_body-Evolves : (q : AdjustmentRequest) → Follows (Evolves env.ids) (adjust_body env q)
  unfolding adjust_body
  adjust_body-Evolves q =
      search (method_rules, check_adjustment-Evolves, repeat_adjustment-Evolves, adjust_new-Evolves)
        depth 14

  pub adjust_order-Evolves :
      (q : AdjustmentRequest) → Follows (Evolves env.ids) (adjust_order env q)
  unfolding adjust_order
  adjust_order-Evolves q = search (method_rules, once-Evolves, adjust_body-Evolves) depth 8

  manual_expiry-Evolves :
      (q : ManualRequest) (unit : LoyaltyUnit)
      → Follows (Evolves env.ids) (manual_expiry env q unit)
  unfolding manual_expiry
  manual_expiry-Evolves q unit = search method_rules depth 12

  manual_new-Evolves :
      (q : ManualRequest) (unit : LoyaltyUnit) (facts : String)
      → Follows (Evolves env.ids) (manual_new env q unit facts)
  unfolding manual_new
  manual_new-Evolves q unit facts =
      search (method_rules, manual_expiry-Evolves, record_adjustment-Evolves) depth 14

  manual_body-Evolves : (q : ManualRequest) → Follows (Evolves env.ids) (manual_body env q)
  unfolding manual_body
  manual_body-Evolves q =
      search (method_rules, manual_new-Evolves, repeat_adjustment-Evolves) depth 16

  pub post_manual_adjustment-Evolves :
      (q : ManualRequest) → Follows (Evolves env.ids) (post_manual_adjustment env q)
  unfolding post_manual_adjustment
  post_manual_adjustment-Evolves q =
      search (method_rules, once-Evolves, manual_body-Evolves) depth 8
