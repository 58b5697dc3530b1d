-- ===== src/Protocol/Loyalty.antt =====
-- Ledger entries, reservations, issued rewards, requests and responses:
-- packages/protocol/src/loyalty.ts, member.ts and account.ts.
use loyalty_interchange_prot.Base.{ℕ, String, Bool, Option, List, ◌==◌}
use loyalty_interchange_prot.Base.Int.{ℤ}
use loyalty_interchange_prot.Base.Json.{Json}
use loyalty_interchange_prot.Protocol.Primitives.{Money, LoyaltyUnit, FundingShare}

-- AccrualAmountSchema; also a reward's and a reservation's cost
pub record UnitAmount : Type 0 where
  pub unit : LoyaltyUnit
  pub amount : ℤ

-- DiscountAllocationSchema
pub record DiscountAllocation : Type 0 where
  pub line_id : Option String
  pub amount : Money

-- RewardEffectSchema, its members that the engine reads
pub data RewardEffect : Type 0 where
  discount : Money → List DiscountAllocation → RewardEffect
  free_item : ℕ → Money → RewardEffect
  custom_effect : String → Json → RewardEffect

-- LedgerOperationSchema
pub data LedgerOperation : Type 0 where
  accrual redemption reversal adjustment expiration manual : LedgerOperation

abbrev operation_code : LedgerOperation → ℕ
operation_code accrual = 0
operation_code redemption = 1
operation_code reversal = 2
operation_code adjustment = 3
operation_code expiration = 4
operation_code manual = 5

unfoldable pub operation_eq : LedgerOperation → LedgerOperation → Bool
operation_eq a b = operation_code a == operation_code b

unfoldable pub operation_text : LedgerOperation → String
operation_text accrual = "accrual"
operation_text redemption = "redemption"
operation_text reversal = "reversal"
operation_text adjustment = "adjustment"
operation_text expiration = "expiration"
operation_text manual = "manual"

-- ManualAdjustmentClassificationSchema
pub data Classification : Type 0 where
  bonus gift migration service_recovery correction_of : Classification

unfoldable pub classification_text : Classification → String
classification_text bonus = "bonus"
classification_text gift = "gift"
classification_text migration = "migration"
classification_text service_recovery = "service_recovery"
classification_text correction_of = "correction"

-- LedgerEntrySchema
pub record LedgerEntry : Type 0 where
  pub entry_id : String
  pub member_id : String
  pub program_id : String
  pub account_id : String
  pub operation : LedgerOperation
  pub unit : LoyaltyUnit
  pub amount : ℤ
  pub occurred_at : String
  pub expires_at : Option String
  pub related_entry_id : Option String
  pub order_id : Option String
  pub location_id : Option String
  pub adjustment_id : Option String
  pub reservation_id : Option String
  pub classification : Option Classification
  pub reason : Option String
  pub qualifies_for_tier : Option Bool

-- the statuses of a RedemptionReservationSchema
pub data ReservationStatus : Type 0 where
  reserved captured reversed expired : ReservationStatus

abbrev reservation_status_code : ReservationStatus → ℕ
reservation_status_code reserved = 0
reservation_status_code captured = 1
reservation_status_code reversed = 2
reservation_status_code expired = 3

unfoldable pub reservation_status_eq : ReservationStatus → ReservationStatus → Bool
reservation_status_eq a b = reservation_status_code a == reservation_status_code b

-- RedemptionReservationSchema
pub record Reservation : Type 0 where
  pub reservation_id : String
  pub redemption_id : String
  pub member_id : String
  pub reward_id : String
  pub issued_reward_id : Option String
  pub order_id : String
  pub location_id : Option String
  pub status : ReservationStatus
  pub cost : UnitAmount
  pub effect : RewardEffect
  pub funding : List FundingShare
  pub created_at : String
  pub expires_at : String
  pub captured_at : Option String
  pub reversed_at : Option String

-- IssuedRewardStatusSchema
pub data IssuedRewardStatus : Type 0 where
  issued redeemed cancelled lapsed : IssuedRewardStatus

abbrev issued_status_code : IssuedRewardStatus → ℕ
issued_status_code issued = 0
issued_status_code redeemed = 1
issued_status_code cancelled = 2
issued_status_code lapsed = 3

unfoldable pub issued_status_eq : IssuedRewardStatus → IssuedRewardStatus → Bool
issued_status_eq a b = issued_status_code a == issued_status_code b

pub data ArtifactType : Type 0 where
  code_artifact qr_code : ArtifactType

unfoldable pub artifact_text : ArtifactType → String
artifact_text code_artifact = "code"
artifact_text qr_code = "qr_code"

-- IssuedRewardArtifactSchema
pub record Artifact : Type 0 where
  pub type : ArtifactType
  pub value : String

-- IssuedRewardSchema; `lapsed` is the status "expired"
pub record IssuedReward : Type 0 where
  pub issued_reward_id : String
  pub member_id : String
  pub program_id : String
  pub reward_id : String
  pub status : IssuedRewardStatus
  pub issued_at : String
  pub expires_at : Option String
  pub redeemed_at : Option String
  pub cancelled_at : Option String
  pub cancellation_reason : Option String
  pub artifact : Option Artifact

-- AccountMetricSchema
pub record AccountMetric : Type 0 where
  pub metric_id : String
  pub unit : LoyaltyUnit
  pub amount : ℤ
  pub as_of : String

-- ExpiringBalanceSchema
pub record ExpiringBalance : Type 0 where
  pub account_id : String
  pub unit : LoyaltyUnit
  pub amount : ℕ
  pub expires_at : String

-- TierProgressSchema
pub record TierProgress : Type 0 where
  pub current_tier_id : String
  pub qualification_metric_id : String
  pub current_amount : ℕ
  pub next_tier_id : Option String
  pub remaining_to_next : Option ℕ
  pub progress_bps : ℕ
  pub is_top_tier : Bool

-- RewardCandidateSchema
pub record RewardCandidate : Type 0 where
  pub reward_id : String
  pub name : Option String
  pub is_available : Bool
  pub unavailable_reasons : List String
  pub cost : UnitAmount
  pub effect : RewardEffect
  pub funding : List FundingShare
