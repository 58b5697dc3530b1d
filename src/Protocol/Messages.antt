-- ===== src/Protocol/Messages.antt =====
-- Requests and responses: packages/protocol/src/loyalty.ts, member.ts and account.ts. A request
-- carries `raw`, the request as it was received, which is what the idempotency check fingerprints.
use loyalty_interchange_prot.Base.{ℕ, String, Bool, Option, List}
use loyalty_interchange_prot.Base.Int.{ℤ}
use loyalty_interchange_prot.Base.Json.{Json}
use loyalty_interchange_prot.Protocol.Primitives.{
  LoyaltyUnit, RequestContext, ResponseContext, IdentityReference, Member, Balance,
}
use loyalty_interchange_prot.Protocol.Order.{FoodserviceOrder, OrderAdjustment}
use loyalty_interchange_prot.Protocol.Loyalty.{
  UnitAmount, Classification, LedgerEntry, LedgerOperation, Reservation, IssuedRewardStatus,
  Artifact, IssuedReward, AccountMetric, ExpiringBalance, TierProgress, RewardCandidate,
}

-- MemberLookupRequestSchema
pub record MemberLookupRequest : Type 0 where
  pub context : RequestContext
  pub program_id : String
  pub identity : IdentityReference
  pub raw : Json

-- MemberEnrollRequestSchema
pub record MemberEnrollRequest : Type 0 where
  pub context : RequestContext
  pub program_id : String
  pub identity : IdentityReference
  pub member_id : Option String
  pub attributes : Option Json
  pub raw : Json

-- MemberAccountRequestSchema
pub record MemberAccountRequest : Type 0 where
  pub context : RequestContext
  pub member_id : String
  pub program_id : String
  pub raw : Json

-- EvaluationRequestSchema and AccrualPostRequestSchema
pub record OrderRequest : Type 0 where
  pub context : RequestContext
  pub member_id : String
  pub order : FoodserviceOrder
  pub raw : Json

-- RedemptionReserveRequestSchema
pub record ReserveRequest : Type 0 where
  pub context : RequestContext
  pub redemption_id : String
  pub member_id : String
  pub reward_id : String
  pub issued_reward_id : Option String
  pub order : FoodserviceOrder
  pub raw : Json

-- RedemptionCaptureRequestSchema
pub record CaptureRequest : Type 0 where
  pub context : RequestContext
  pub reservation_id : String
  pub order_id : String
  pub raw : Json

-- RedemptionReverseRequestSchema
pub record ReverseRequest : Type 0 where
  pub context : RequestContext
  pub reservation_id : String
  pub reason : String
  pub raw : Json

-- IssuedRewardIssueRequestSchema
pub record IssueRequest : Type 0 where
  pub context : RequestContext
  pub issued_reward_id : String
  pub member_id : String
  pub program_id : String
  pub reward_id : String
  pub expires_at : Option String
  pub artifact : Option Artifact
  pub raw : Json

-- IssuedRewardListRequestSchema
pub record IssuedListRequest : Type 0 where
  pub context : RequestContext
  pub member_id : String
  pub program_id : String
  pub statuses : Option (List IssuedRewardStatus)
  pub raw : Json

-- IssuedRewardCancelRequestSchema
pub record IssuedCancelRequest : Type 0 where
  pub context : RequestContext
  pub issued_reward_id : String
  pub reason : String
  pub raw : Json

-- OrderAdjustmentRequestSchema
pub record AdjustmentRequest : Type 0 where
  pub context : RequestContext
  pub member_id : String
  pub program_id : String
  pub adjustment : OrderAdjustment
  pub raw : Json

-- ManualAdjustmentRequestSchema
pub record ManualRequest : Type 0 where
  pub context : RequestContext
  pub member_id : String
  pub program_id : String
  pub adjustment_id : String
  pub unit : Option LoyaltyUnit
  pub amount : ℤ
  pub classification : Classification
  pub reason : String
  pub qualifies_for_tier : Bool
  pub expires_at : Option String
  pub raw : Json

-- LedgerListRequestSchema
pub record LedgerListRequest : Type 0 where
  pub context : RequestContext
  pub member_id : String
  pub program_id : String
  pub account_id : Option String
  pub operations : Option (List LedgerOperation)
  pub occurred_from : Option String
  pub occurred_until : Option String
  pub cursor : Option String
  pub limit : Option ℕ
  pub raw : Json

-- what a response holds beside its context, one constructor for each response schema
pub data ResponseBody : Type 0 where
  lookup_body : Option Member → List Balance → ResponseBody
  enroll_body : Member → List Balance → ResponseBody
  account_body :
      Member
      → List Balance
      → List AccountMetric
      → List ExpiringBalance
      → Option TierProgress
      → ResponseBody
  evaluation_body :
      String
      → String
      → String
      → UnitAmount
      → List UnitAmount
      → List RewardCandidate
      → List Balance
      → String
      → ResponseBody
  ledger_body : LedgerEntry → List LedgerEntry → List Balance → ResponseBody
  ledger_list_body : List LedgerEntry → Option String → ResponseBody
  issued_reward_body : IssuedReward → ResponseBody
  issued_list_body : List IssuedReward → ResponseBody
  reservation_body : Reservation → List Balance → ResponseBody

pub record Response : Type 0 where
  pub context : ResponseContext
  pub body : ResponseBody
