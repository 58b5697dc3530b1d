-- ===== src/Engine/Tests/Snapshots.antt =====
-- An example of a snapshot: one member, taken into an empty engine.
use loyalty_interchange_prot.Base.{◌≡◌, refl, none, some, [], ◌∷◌}
use loyalty_interchange_prot.Base.Int.{pos}
use loyalty_interchange_prot.Base.Assoc.{lookup}
use loyalty_interchange_prot.Base.Entries.{HasDistinctKeys}
use loyalty_interchange_prot.Exec.{returned, gets, ◌>>=◌, branch, pure}
use loyalty_interchange_prot.Protocol.Primitives.{Member, active, unit_eq}
use loyalty_interchange_prot.Engine.State.{State}
use loyalty_interchange_prot.Engine.Fingerprint.{fingerprint, digest_of}
use loyalty_interchange_prot.Engine.Ledger.{account_units, balance_key, primary_unit}
use loyalty_interchange_prot.Engine.Calls.{new_engine}
use loyalty_interchange_prot.Engine.Snapshot.{EngineSnapshot, export_state, replace_state}
use loyalty_interchange_prot.Engine.Snapshot.Restored.{
  HasBalances, HasMembers, IsWhole, replace_state-export_state,
}
use loyalty_interchange_prot.Engine.Tests.Data.{env, program}

abbrev ann : Member
ann = record {
  member_id = "m1";
  program_id = "p";
  status = active;
  joined_at = "2026";
  tier_id = none;
  identities = [];
  attributes = none;
}

-- one member with its balance
abbrev one_member : State
one_member = record (new_engine program) {
  id_count = 4;
  members = ("m1", ann) ∷ [];
  points = ("m1", pos 50) ∷ [];
}

one_member-IsWhole : IsWhole one_member
unfolding HasDistinctKeys HasMembers HasBalances lookup account_units balance_key primary_unit
    unit_eq
one_member-IsWhole = record {
  members = (refl, tt);
  identity_index = tt;
  points = (refl, tt);
  reservations = tt;
  ledger = tt;
  point_lots = tt;
  point_lot_consumptions = tt;
  idempotency = tt;
  accruals_by_order = tt;
  adjustments = tt;
  reservations_by_redemption = tt;
  issued_rewards = tt;
  accounts = (refl, refl, (refl, tt), tt);
}

abbrev ann_snapshot : EngineSnapshot
ann_snapshot = record {
  version = 1;
  program_id = "p";
  program_fingerprint = "text";
  saved_at = "2026";
  members = ("m1", ann) ∷ [];
  identity_index = [];
  points = ("m1", pos 50) ∷ [];
  reservations = [];
  ledger = [];
  point_lots = [];
  point_lot_consumptions = [];
  idempotency = [];
  accruals_by_order = [];
  adjustments = [];
  reservations_by_redemption = [];
  issued_rewards = some [];
}

-- an engine with entries of its own, which a replacement of its state drops
abbrev occupied : State
occupied = record (new_engine program) { id_count = 9; points = ("m9", pos 7) ∷ [] }

replace_state-export_state_example :
    replace_state env ann_snapshot occupied ≡ (returned tt, record one_member { id_count = 9 })
unfolding export_state gets ◌>>=◌ fingerprint branch digest_of pure
replace_state-export_state_example =
    replace_state-export_state env one_member occupied ann_snapshot one_member-IsWhole refl refl
