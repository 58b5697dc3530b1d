-- ===== src/Engine/State.antt =====
-- What the engine keeps, and what it takes from its surroundings: `class LoyaltyEngine`.
use loyalty_interchange_prot.Base.{ℕ, suc, ◌+◌, ◌*◌, String, Bool, Option, List, Ordering}
use loyalty_interchange_prot.Base.Int.{ℤ}
use loyalty_interchange_prot.Base.Assoc.{Assoc}
use loyalty_interchange_prot.Base.Json.{Json}
use loyalty_interchange_prot.Exec.{Exec, returned}
use loyalty_interchange_prot.Protocol.Primitives.{LoyaltyUnit, Member}
use loyalty_interchange_prot.Protocol.Order.{FoodserviceOrder}
use loyalty_interchange_prot.Protocol.Loyalty.{LedgerEntry, Reservation, IssuedReward}
use loyalty_interchange_prot.Protocol.Program.{ProgramDefinition}
use loyalty_interchange_prot.Protocol.Messages.{Response}

-- LedgerCursor; its version is a literal
pub record LedgerCursor : Type 0 where
  pub query : String
  pub entry_id : String

-- what JSON a cursor's text holds: none, `null`, something else, or a cursor
pub data CursorText : Type 0 where
  malformed null_text other_text : CursorText
  cursor_text : LedgerCursor → CursorText

-- a calendar date, as `Intl.DateTimeFormat` gives it for a time zone
pub record LocalDate : Type 0 where
  pub year : ℕ
  pub month : ℕ
  pub day : ℕ

-- What the engine calls and does not implement: the clock, the id generator, the JavaScript
-- runtime's dates, time zones, string orders and digests, its JSON and base64 texts of cursors, and the schema checks of
-- the ajv package. `now` is the time of the call at hand, in milliseconds: one call reads one time. The
-- n-th id that the generator hands out for a prefix is `ids n prefix`.
pub record Env : Type 0 where
  pub now : ℕ
  pub ids : ℕ → String → String
  pub date_parse : String → ℕ
  pub to_iso : ℕ → String
  pub local_date : String → ℕ → LocalDate
  pub locale_compare : String → String → Ordering
  pub number_text : ℕ → String
  pub stringify : Json → Option String
  pub sha256_hex : String → String
  pub order_matches_schema : FoodserviceOrder → Bool
  pub encode_cursor : LedgerCursor → String
  pub decode_cursor : String → CursorText
  pub is_date_of_2024 : ℕ → ℕ → Bool
  pub knows_time_zone : String → Bool
  pub catalog_matches_schema : ProgramDefinition → Bool

-- ReferencePointLot
pub record PointLot : Type 0 where
  pub entry_id : String
  pub member_id : String
  pub remaining : ℕ
  pub expires_at : String
  pub unit : Option LoyaltyUnit

-- ReferencePointLotConsumption
pub record Consumption : Type 0 where
  pub entry_id : String
  pub amount : ℕ

-- ReferenceIdempotencyRecord
pub record IdempotencyRecord : Type 0 where
  pub fingerprint : String
  pub response : Response

-- AccrualRecord
pub record AccrualRecord : Type 0 where
  pub entry_id : String
  pub entry_ids : Option (List String)
  pub fingerprint : String
  pub multiplier_bps : ℕ

-- MutationRecord
pub record MutationRecord : Type 0 where
  pub entry_id : String
  pub entry_ids : Option (List String)
  pub fingerprint : String

-- ReservationRecord
pub record ReservationRecord : Type 0 where
  pub reservation_id : String
  pub fingerprint : String

-- the private fields; `id_count` counts the ids that the generator has handed out
pub record State : Type 0 where
  pub program : ProgramDefinition
  pub id_count : ℕ
  pub members : Assoc Member
  pub identity_index : Assoc String
  pub points : Assoc ℤ
  pub reservations : Assoc Reservation
  pub ledger : Assoc LedgerEntry
  pub point_lots : Assoc PointLot
  pub point_lot_consumptions : Assoc (List Consumption)
  pub idempotency : Assoc IdempotencyRecord
  pub accruals_by_order : Assoc AccrualRecord
  pub adjustments : Assoc MutationRecord
  pub reservations_by_redemption : Assoc ReservationRecord
  pub issued_rewards : Assoc IssuedReward

-- a method of the engine
abbrev pub Method : Type 0 → Type 0
Method A = Exec State A

module _ (env : Env) where
  -- `this.ids(prefix)`
  unfoldable pub next_id : String → Method String
  next_id prefix s = (returned (env.ids s.id_count prefix), record s { id_count = suc s.id_count })

  -- `this.isoNow()`
  abbrev pub iso_now : String
  iso_now = env.to_iso env.now

  -- `this.futureIso(seconds)`
  abbrev pub future_iso : ℕ → String
  future_iso seconds = env.to_iso (env.now + seconds * 1000)
