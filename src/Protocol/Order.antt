-- ===== src/Protocol/Order.antt =====
-- Orders and order adjustments: packages/protocol/src/order.ts.
use loyalty_interchange_prot.Base.{ℕ, String, Bool, Option, List, ◌==◌}
use loyalty_interchange_prot.Base.Int.{ℤ}
use loyalty_interchange_prot.Base.Json.{Json}
use loyalty_interchange_prot.Protocol.Primitives.{Money, ProgramScope}

-- OrderChannelSchema
pub data OrderChannel : Type 0 where
  counter drive_thru kiosk web mobile pickup delivery catering third_party other : OrderChannel

abbrev channel_code : OrderChannel → ℕ
channel_code counter = 0
channel_code drive_thru = 1
channel_code kiosk = 2
channel_code web = 3
channel_code mobile = 4
channel_code pickup = 5
channel_code delivery = 6
channel_code catering = 7
channel_code third_party = 8
channel_code other = 9

unfoldable pub channel_eq : OrderChannel → OrderChannel → Bool
channel_eq a b = channel_code a == channel_code b

-- OrderStatusSchema
pub data OrderStatus : Type 0 where
  is_open authorized paid partially_refunded refunded voided : OrderStatus

unfoldable pub is_paid : OrderStatus → Bool
is_paid paid = Bool.true
is_paid _ = Bool.false

-- the kinds of an OrderLineSchema
pub data LineKind : Type 0 where
  item modifier fee : LineKind

abbrev kind_code : LineKind → ℕ
kind_code item = 0
kind_code modifier = 1
kind_code fee = 2

unfoldable pub kind_eq : LineKind → LineKind → Bool
kind_eq a b = kind_code a == kind_code b

-- OrderLineSchema
pub record OrderLine : Type 0 where
  pub line_id : String
  pub kind : LineKind
  pub product_id : String
  pub parent_line_id : Option String
  pub quantity : ℤ
  pub unit_price : Money
  pub subtotal : Money
  pub discount : Money
  pub tax : Money
  pub category_ids : Option (List String)
  pub tags : Option (List String)
  pub loyalty_eligible : Option Bool

-- OrderTotalsSchema
pub record OrderTotals : Type 0 where
  pub subtotal : Money
  pub discount : Money
  pub tax : Money
  pub tip : Money
  pub service_charge : Money
  pub total : Money

-- TenderSchema, of which only the amount is read
pub record Tender : Type 0 where
  pub tender_id : String
  pub amount : Money

-- FoodserviceOrderSchema; `raw` is the order as it was received, which is what is fingerprinted
pub record FoodserviceOrder : Type 0 where
  pub order_id : String
  pub scope : ProgramScope
  pub member_id : Option String
  pub channel : OrderChannel
  pub status : OrderStatus
  pub lines : List OrderLine
  pub totals : OrderTotals
  pub tenders : Option (List Tender)
  pub raw : Json

-- the types of an OrderAdjustmentSchema
pub data AdjustmentType : Type 0 where
  partial_refund full_refund void correction : AdjustmentType

unfoldable pub is_correction : AdjustmentType → Bool
is_correction correction = Bool.true
is_correction _ = Bool.false

-- `["full_refund", "void"].includes(type)`
unfoldable pub is_full_refund_or_void : AdjustmentType → Bool
is_full_refund_or_void full_refund = Bool.true
is_full_refund_or_void void = Bool.true
is_full_refund_or_void _ = Bool.false

-- LineAdjustmentSchema
pub record LineAdjustment : Type 0 where
  pub line_id : String
  pub quantity_delta : ℤ
  pub subtotal_delta : Money

-- OrderAdjustmentSchema, with the adjustment as it was received
pub record OrderAdjustment : Type 0 where
  pub adjustment_id : String
  pub original_order_id : String
  pub type : AdjustmentType
  pub reason : String
  pub occurred_at : String
  pub order_total_delta : Money
  pub eligible_spend_delta : Money
  pub lines : Option (List LineAdjustment)
  pub raw : Json
