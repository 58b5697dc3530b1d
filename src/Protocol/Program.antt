-- ===== src/Protocol/Program.antt =====
-- The program that an engine serves: packages/reference/src/config.ts and the definitions of
-- packages/protocol/src/account.ts that it is made of.
use loyalty_interchange_prot.Base.{ℕ, String, Bool, Option, List}
use loyalty_interchange_prot.Base.Json.{Json, Fields}
use loyalty_interchange_prot.Protocol.Primitives.{LoyaltyUnit, FundingShare}
use loyalty_interchange_prot.Protocol.Order.{OrderChannel, LineKind}
use loyalty_interchange_prot.Protocol.Loyalty.{RewardEffect, UnitAmount}

-- ProgramAccountDefinitionSchema
pub record ProgramAccount : Type 0 where
  pub unit : LoyaltyUnit
  pub unit_label : Option String
  pub is_primary : Bool

pub data MetricSource : Type 0 where
  current_balance lifetime_earned qualification_earned : MetricSource

-- MetricDefinition
pub record MetricDefinition : Type 0 where
  pub metric_id : String
  pub name : String
  pub unit : LoyaltyUnit
  pub source : MetricSource

-- TierDefinitionSchema
pub record TierDefinition : Type 0 where
  pub tier_id : String
  pub name : String
  pub qualification_metric_id : String
  pub minimum : ℕ
  pub earn_multiplier_bps : Option ℕ

-- TierQualificationPolicySchema, its annual period flattened
pub record TierPolicy : Type 0 where
  pub metric_id : String
  pub starts_month : ℕ
  pub starts_day : ℕ
  pub time_zone : String
  pub effective_from : Option String

-- PointExpirationPolicySchema
pub record ExpirationPolicy : Type 0 where
  pub days : ℕ
  pub warning_days : List ℕ

-- RewardDefinition
pub record RewardDefinition : Type 0 where
  pub reward_id : String
  pub name : Option String
  pub points_cost : ℕ
  pub cost : Option UnitAmount
  pub effect : RewardEffect
  pub funding : List FundingShare
  pub available_from : Option String
  pub available_until : Option String
  pub metadata : Option Fields

-- EarningPolicyDefinition
pub record EarningPolicy : Type 0 where
  pub minimum_eligible_spend_minor_units : Option ℕ
  pub eligible_channels : Option (List OrderChannel)
  pub excluded_product_ids : Option (List String)
  pub excluded_category_ids : Option (List String)
  pub excluded_tags : Option (List String)
  pub excluded_line_kinds : Option (List LineKind)

-- VisitStampPolicy
pub record VisitStampPolicy : Type 0 where
  pub unit : LoyaltyUnit
  pub amount_per_order : ℕ
  pub threshold : ℕ
  pub reset_on_issue : Bool
  pub issue_reward_id : String
  pub issued_reward_ttl_seconds : Option ℕ

-- WalletCreditPolicy
pub record WalletCreditPolicy : Type 0 where
  pub earn_bps : ℕ

-- MembershipPlanDefinition
pub record MembershipPlan : Type 0 where
  pub plan_id : String
  pub name : String
  pub earn_multiplier_bps : Option ℕ

-- EarnRate
pub record EarnRate : Type 0 where
  pub points : ℕ
  pub spend_minor_units : ℕ

-- ProgramDefinition; the plans are those of the membership policy
pub record ProgramDefinition : Type 0 where
  pub program_id : String
  pub currency : String
  pub accounts : Option (List ProgramAccount)
  pub metrics : Option (List MetricDefinition)
  pub tiers : Option (List TierDefinition)
  pub tier_policy : Option TierPolicy
  pub point_expiration : Option ExpirationPolicy
  pub balance_expiration : Option ExpirationPolicy
  pub earning_policy : Option EarningPolicy
  pub visit_stamp_policy : Option VisitStampPolicy
  pub wallet_credit_policy : Option WalletCreditPolicy
  pub membership_policy : Option (List MembershipPlan)
  pub earn_rate : EarnRate
  pub evaluation_ttl_seconds : ℕ
  pub reservation_ttl_seconds : ℕ
  pub rewards : List RewardDefinition
  pub raw : Json
