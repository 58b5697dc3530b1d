-- ===== src/Protocol/Primitives.antt =====
-- Shared primitives: packages/protocol/src/primitives.ts and member.ts, with the Boolean tests that
-- `===` makes on their enumerations. Identifiers and dates are strings that the schemas keep
-- non-empty, so `x && …` on an optional one asks only whether it is there.
use loyalty_interchange_prot.Base.{ℕ, String, ◌≡◌, ◌↔◌, Bool, Option, List, arith, ◌==◌}
use loyalty_interchange_prot.Base.Int.{ℤ}
use loyalty_interchange_prot.Base.Json.{Json}

-- MoneySchema
pub record Money : Type 0 where
  pub amount : ℤ
  pub currency : String

-- LoyaltyUnitSchema
pub data LoyaltyUnit : Type 0 where
  points visits stamps credits custom : LoyaltyUnit

abbrev unit_code : LoyaltyUnit → ℕ
unit_code points = 0
unit_code visits = 1
unit_code stamps = 2
unit_code credits = 3
unit_code custom = 4

-- the unit as the string that it is
unfoldable pub unit_text : LoyaltyUnit → String
unit_text points = "points"
unit_text visits = "visits"
unit_text stamps = "stamps"
unit_text credits = "credits"
unit_text custom = "custom"

unfoldable pub unit_eq : LoyaltyUnit → LoyaltyUnit → Bool
unit_eq a b = unit_code a == unit_code b

pub unit_eq_iff : (a b : LoyaltyUnit) → (unit_eq a b ≡ Bool.true) ↔ (a ≡ b)
unfolding unit_eq
unit_eq_iff a b = ground arith

-- SourceSystemSchema
pub record SourceSystem : Type 0 where
  pub system : String
  pub instance_id : Option String

-- RequestContextSchema; the version and the profile are literals
pub record RequestContext : Type 0 where
  pub request_id : String
  pub idempotency_key : String
  pub occurred_at : String
  pub source : SourceSystem

-- ResponseContextSchema
pub record ResponseContext : Type 0 where
  pub request_id : String
  pub processed_at : String

-- ProgramScopeSchema
pub record ProgramScope : Type 0 where
  pub program_id : String
  pub brand_id : String
  pub merchant_id : String
  pub location_id : String
  pub franchisee_id : Option String

-- FundingPartyTypeSchema
pub data FundingPartyType : Type 0 where
  brand franchisee location merchant partner : FundingPartyType

unfoldable pub party_type_text : FundingPartyType → String
party_type_text brand = "brand"
party_type_text franchisee = "franchisee"
party_type_text location = "location"
party_type_text merchant = "merchant"
party_type_text partner = "partner"

-- FundingShareSchema
pub record FundingShare : Type 0 where
  pub party_id : String
  pub party_type : FundingPartyType
  pub share_bps : ℕ
  pub amount : Option Money

-- the types of an IdentityReferenceSchema
pub data IdentityType : Type 0 where
  loyalty_id token email_hash phone_hash external : IdentityType

abbrev identity_code : IdentityType → ℕ
identity_code loyalty_id = 0
identity_code token = 1
identity_code email_hash = 2
identity_code phone_hash = 3
identity_code external = 4

unfoldable pub identity_text : IdentityType → String
identity_text loyalty_id = "loyalty_id"
identity_text token = "token"
identity_text email_hash = "email_hash"
identity_text phone_hash = "phone_hash"
identity_text external = "external"

unfoldable pub identity_type_eq : IdentityType → IdentityType → Bool
identity_type_eq a b = identity_code a == identity_code b

-- IdentityReferenceSchema
pub record IdentityReference : Type 0 where
  pub type : IdentityType
  pub value : String
  pub issuer : Option String

-- the statuses of a MemberSchema
pub data MemberStatus : Type 0 where
  active suspended closed : MemberStatus

unfoldable pub is_active : MemberStatus → Bool
is_active active = Bool.true
is_active suspended = Bool.false
is_active closed = Bool.false

-- MemberSchema
pub record Member : Type 0 where
  pub member_id : String
  pub program_id : String
  pub status : MemberStatus
  pub joined_at : String
  pub tier_id : Option String
  pub identities : List IdentityReference
  pub attributes : Option Json

-- BalanceSchema
pub record Balance : Type 0 where
  pub account_id : String
  pub member_id : String
  pub program_id : String
  pub unit : LoyaltyUnit
  pub amount : ℤ
  pub reserved : ℤ
  pub available : ℤ
  pub as_of : String
