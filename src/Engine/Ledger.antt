-- ===== src/Engine/Ledger.antt =====
-- Accounts and the ledger: `primaryUnit`, `accountUnits`, `assertAccountUnit`, `balanceKey`,
-- `expirationPolicy`, `pointExpirationIso` and `addLedger` of the engine.
use loyalty_interchange_prot.Base.{
  suc, ◌+◌, ◌*◌, String, ◌⧺◌, Bool, true, false, ◌&&◌, Option, none, some, List, [], ◌∷◌, map,
  get_or, option_elim, any, find, ◌==◌, if◌then◌else◌,
}
use loyalty_interchange_prot.Base.Int.{ℤ, pos, pos_part, ltb_ℤ, ◌+ℤ◌}
use loyalty_interchange_prot.Base.Assoc.{Assoc, lookup, insert}
use loyalty_interchange_prot.Exec.{
  returned, pure, throw, gets, ◌>>=◌, ◌>>◌, throw_if, invalid_program, branch,
}
use loyalty_interchange_prot.Protocol.Primitives.{LoyaltyUnit, points, credits, unit_eq, unit_text}
use loyalty_interchange_prot.Protocol.Loyalty.{LedgerEntry, LedgerOperation, Classification}
use loyalty_interchange_prot.Protocol.Program.{ProgramDefinition, ExpirationPolicy}
use loyalty_interchange_prot.Engine.State.{Env, State, Method, PointLot, iso_now}

unfoldable pub account_units : ProgramDefinition → List LoyaltyUnit
account_units program =
    option_elim program.accounts (points ∷ []) (λ accounts. map (λ account. account.unit) accounts)

unfoldable pub primary_unit : ProgramDefinition → LoyaltyUnit
primary_unit program = option_elim program.accounts points (λ accounts.
    option_elim (find (λ account. account.is_primary) accounts) points (λ account. account.unit))

unfoldable pub assert_account_unit : LoyaltyUnit → Method (Unit {0})
unfolding account_units
assert_account_unit unit = do
  program ← gets (λ s. s.program)
  throw_if (if any (unit_eq unit) (account_units program) then false else true) invalid_program 422

-- the key of a member's account among the balances
unfoldable pub balance_key : ProgramDefinition → String → LoyaltyUnit → String
balance_key program member_id unit =
    if unit_eq unit (primary_unit program) then member_id else (unit_text unit ⧺ ":") ⧺ member_id

unfoldable pub expiration_policy : ProgramDefinition → LoyaltyUnit → Option ExpirationPolicy
expiration_policy program unit =
    if unit_eq unit points
    then program.point_expiration
    else if unit_eq unit credits
    then program.balance_expiration
    else none

-- what `addLedger` is given
pub record LedgerInput : Type 0 where
  pub member_id : String
  pub operation : LedgerOperation
  pub unit : Option LoyaltyUnit
  pub amount : ℤ
  pub expires_at : Option String
  pub related_entry_id : Option String
  pub order_id : Option String
  pub location_id : Option String
  pub adjustment_id : Option String
  pub reservation_id : Option String
  pub classification : Option Classification
  pub reason : Option String
  pub qualifies_for_tier : Option Bool
  pub create_point_lot : Bool

-- the fields that most entries leave out
abbrev pub ledger_input : String → LedgerOperation → LoyaltyUnit → ℤ → LedgerInput
ledger_input member_id operation unit amount = record {
  member_id = member_id;
  operation = operation;
  unit = some unit;
  amount = amount;
  expires_at = none;
  related_entry_id = none;
  order_id = none;
  location_id = none;
  adjustment_id = none;
  reservation_id = none;
  classification = none;
  reason = none;
  qualifies_for_tier = none;
  create_point_lot = false;
}

module _ (env : Env) where
  unfoldable pub point_expiration_iso : LoyaltyUnit → Method String
  point_expiration_iso unit = do
    program ← gets (λ s. s.program)
    branch (expiration_policy program unit) (throw invalid_program 500) (λ policy. do
      throw_if (policy.days == 0) invalid_program 500
      pure (env.to_iso (env.now + policy.days * 86400000)))

  -- the entry that `addLedger` writes
  unfoldable pub new_entry : State → LedgerInput → LedgerEntry
  new_entry s input =
      let unit = get_or input.unit (primary_unit s.program) in
      record {
        entry_id = env.ids s.id_count "ledger";
        member_id = input.member_id;
        program_id = s.program.program_id;
        account_id = (unit_text unit ⧺ ":") ⧺ input.member_id;
        operation = input.operation;
        unit = unit;
        amount = input.amount;
        occurred_at = iso_now env;
        expires_at = input.expires_at;
        related_entry_id = input.related_entry_id;
        order_id = input.order_id;
        location_id = input.location_id;
        adjustment_id = input.adjustment_id;
        reservation_id = input.reservation_id;
        classification = input.classification;
        reason = input.reason;
        qualifies_for_tier = input.qualifies_for_tier;
      }

  -- the lot of an entry that earns an amount which expires
  unfoldable pub lot_of_entry : LedgerInput → LedgerEntry → Assoc PointLot → Assoc PointLot
  lot_of_entry input entry lots = option_elim input.expires_at lots (λ expires_at.
      if input.create_point_lot && ltb_ℤ (pos 0) input.amount
      then insert entry.entry_id
          (record {
            entry_id = entry.entry_id;
            member_id = input.member_id;
            remaining = pos_part input.amount;
            expires_at = expires_at;
            unit = some entry.unit;
          })
          lots
      else lots)

  -- the id is drawn, and the entry, the balance and the lot are written
  unfoldable pub add_ledger : LedgerInput → Method LedgerEntry
  add_ledger input s =
      let entry = new_entry s input in
      let key = balance_key s.program input.member_id entry.unit in
      (
        returned entry,
        record s {
          id_count = suc s.id_count;
          ledger = insert entry.entry_id entry s.ledger;
          points = insert key (get_or (lookup key s.points) (pos 0) +ℤ input.amount) s.points;
          point_lots = lot_of_entry input entry s.point_lots;
        },
      )
