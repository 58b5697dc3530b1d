-- ===== src/Engine/Snapshot.antt =====
-- Snapshots: `exportState`, `replaceState`, `hydrate` and `restoreMap` of
-- packages/reference/src/engine.ts.
pub mod Restored
use loyalty_interchange_prot.Base.{
  ℕ, String, Bool, true, false, not, ◌&&◌, ◌||◌, Option, none, some, List, [], ◌∷◌, str_eq, ◌==◌,
  get_or, length, if◌then◌else◌,
}
use loyalty_interchange_prot.Base.Int.{ℤ, pos}
use loyalty_interchange_prot.Base.Assoc.{Assoc, insert, has}
use loyalty_interchange_prot.Base.Entries.{set_all}
use loyalty_interchange_prot.Exec.{
  returned, threw, ErrorCode, invalid_state, pure, gets, modify, throw, throw_if, branch, for_each,
  ◌>>=◌, ◌>>◌,
}
use loyalty_interchange_prot.Protocol.Primitives.{LoyaltyUnit, Member}
use loyalty_interchange_prot.Protocol.Loyalty.{LedgerEntry, Reservation, IssuedReward}
use loyalty_interchange_prot.Protocol.Program.{ProgramDefinition}
use loyalty_interchange_prot.Engine.State.{
  Env, State, Method, PointLot, Consumption, IdempotencyRecord, AccrualRecord, MutationRecord,
  ReservationRecord, iso_now,
}
use loyalty_interchange_prot.Engine.Fingerprint.{fingerprint}
use loyalty_interchange_prot.Engine.Ledger.{account_units, balance_key}

-- LoyaltyEngineState
pub record EngineSnapshot : Type 0 where
  pub version : ℕ
  pub program_id : String
  pub program_fingerprint : String
  pub saved_at : String
  pub members : List (String × Member)
  pub identity_index : List (String × String)
  pub points : List (String × ℤ)
  pub reservations : List (String × Reservation)
  pub ledger : List (String × LedgerEntry)
  pub point_lots : List (String × PointLot)
  pub point_lot_consumptions : List (String × List Consumption)
  pub idempotency : List (String × IdempotencyRecord)
  pub accruals_by_order : List (String × AccrualRecord)
  pub adjustments : List (String × MutationRecord)
  pub reservations_by_redemption : List (String × ReservationRecord)
  pub issued_rewards : Option (List (String × IssuedReward))

module _ {V : Type 0} where
  -- `new Map(entries)` of `restoreMap`: none where a key stands twice
  unfoldable pub restored_map : List (String × V) → Option (Assoc V)
  unfolding set_all
  restored_map entries =
      let m = set_all entries [] in if length m == length entries then some m else none

  -- `this.restoreMap(target, …)`, where the target is one of the engine's maps: the restored entries
  -- are set in it, beside what it holds
  unfoldable pub restore_map :
      List (String × V) → (State → Assoc V) → (Assoc V → State → State) → Method (Unit {0})
  unfolding restored_map set_all
  restore_map entries get put =
      branch (restored_map entries) (throw invalid_state 500)
        (λ restored. modify (λ s. put (set_all restored (get s)) s))

-- `if (!this.points.has(key)) this.points.set(key, 0)` for every account unit
unfoldable pub fill_balances : ProgramDefinition → String → List LoyaltyUnit → Assoc ℤ → Assoc ℤ
fill_balances program id [] balances = balances
fill_balances program id (unit ∷ units) balances =
    let key = balance_key program id unit in
    fill_balances program id units
      (if has key balances then balances else insert key (pos 0) balances)

-- one member's turn in `hydrate`
unfoldable pub check_member : String × Member → Method (Unit {0})
unfolding fill_balances
check_member (id, member) = do
  known ← gets (λ s. has id s.points)
  throw_if (not (str_eq member.member_id id) || not known) invalid_state 500
  modify (λ s. record s { points = fill_balances s.program id (account_units s.program) s.points })

-- an engine with the program and no entries in its maps
unfoldable pub cleared : State → State
cleared s = record {
  program = s.program;
  id_count = s.id_count;
  members = [];
  identity_index = [];
  points = [];
  reservations = [];
  ledger = [];
  point_lots = [];
  point_lot_consumptions = [];
  idempotency = [];
  accruals_by_order = [];
  adjustments = [];
  reservations_by_redemption = [];
  issued_rewards = [];
}

-- the maps of a snapshot, one after the other
unfoldable pub restore_maps : EngineSnapshot → Method (Unit {0})
unfolding restore_map
restore_maps snapshot = do
  restore_map snapshot.members (λ s. s.members) (λ m s. record s { members = m })
  restore_map snapshot.identity_index (λ s. s.identity_index)
      (λ m s. record s { identity_index = m })
  restore_map snapshot.points (λ s. s.points) (λ m s. record s { points = m })
  restore_map snapshot.reservations (λ s. s.reservations) (λ m s. record s { reservations = m })
  restore_map snapshot.ledger (λ s. s.ledger) (λ m s. record s { ledger = m })
  restore_map snapshot.point_lots (λ s. s.point_lots) (λ m s. record s { point_lots = m })
  restore_map snapshot.point_lot_consumptions (λ s. s.point_lot_consumptions)
      (λ m s. record s { point_lot_consumptions = m })
  restore_map snapshot.idempotency (λ s. s.idempotency) (λ m s. record s { idempotency = m })
  restore_map snapshot.accruals_by_order (λ s. s.accruals_by_order)
      (λ m s. record s { accruals_by_order = m })
  restore_map snapshot.adjustments (λ s. s.adjustments) (λ m s. record s { adjustments = m })
  restore_map snapshot.reservations_by_redemption (λ s. s.reservations_by_redemption)
      (λ m s. record s { reservations_by_redemption = m })
  restore_map (get_or snapshot.issued_rewards []) (λ s. s.issued_rewards)
      (λ m s. record s { issued_rewards = m })

module _ (env : Env) where
  -- `exportState`
  unfoldable pub export_state : Method EngineSnapshot
  export_state = do
    raw ← gets (λ s. s.program.raw)
    program_fingerprint ← fingerprint env raw
    gets (λ s. record {
      version = 1;
      program_id = s.program.program_id;
      program_fingerprint = program_fingerprint;
      saved_at = iso_now env;
      members = s.members;
      identity_index = s.identity_index;
      points = s.points;
      reservations = s.reservations;
      ledger = s.ledger;
      point_lots = s.point_lots;
      point_lot_consumptions = s.point_lot_consumptions;
      idempotency = s.idempotency;
      accruals_by_order = s.accruals_by_order;
      adjustments = s.adjustments;
      reservations_by_redemption = s.reservations_by_redemption;
      issued_rewards = some s.issued_rewards;
    })

  -- the first test of `hydrate`
  unfoldable pub check_snapshot : EngineSnapshot → Method (Unit {0})
  check_snapshot snapshot = do
    program ← gets (λ s. s.program)
    throw_if (not (snapshot.version == 1) || not (str_eq snapshot.program_id program.program_id))
        invalid_state 500
    expected ← fingerprint env program.raw
    throw_if (not (str_eq snapshot.program_fingerprint expected)) invalid_state 500

  -- `hydrate`
  unfoldable pub hydrate : EngineSnapshot → Method (Unit {0})
  unfolding check_snapshot restore_maps check_member
  hydrate snapshot = do
    check_snapshot snapshot
    restore_maps snapshot
    members ← gets (λ s. s.members)
    for_each check_member members

  -- `replaceState`; the program has passed the constructor's checks before
  unfoldable pub replace_state : EngineSnapshot → Method (Unit {0})
  unfolding hydrate cleared
  replace_state snapshot s = elim (hydrate snapshot (cleared s)).0 [
    | threw e ↦ (threw e, s)
    | returned _ ↦ hydrate snapshot (cleared s)
  ]
