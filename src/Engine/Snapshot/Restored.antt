-- ===== src/Engine/Snapshot/Restored.antt =====
-- Restoring what was exported.
use loyalty_interchange_prot.Base.{
  ℕ, String, ◌≡◌, ◌≢◌, refl, ap, subst, ◌∙◌, true, Option-cases, inl, inr, none, some, List, [],
  ◌∷◌, str_eq_iff, length, ◌==◌, arith,
}
use loyalty_interchange_prot.Base.Int.{ℤ}
use loyalty_interchange_prot.Base.Assoc.{Assoc, has}
use loyalty_interchange_prot.Base.Entries.{HasDistinctKeys, set_all-distinct}
use loyalty_interchange_prot.Exec.{
  returned, pure, gets, modify, throw, throw_if, branch, for_each, ◌>>=◌,
}
use loyalty_interchange_prot.Protocol.Primitives.{LoyaltyUnit, Member}
use loyalty_interchange_prot.Protocol.Program.{ProgramDefinition}
use loyalty_interchange_prot.Engine.State.{Env, State, iso_now}
use loyalty_interchange_prot.Engine.Fingerprint.{digest_of, fingerprint}
use loyalty_interchange_prot.Engine.Ledger.{account_units, balance_key}
use loyalty_interchange_prot.Engine.Snapshot.{
  EngineSnapshot, restored_map, restore_map, fill_balances, check_member, cleared, restore_maps,
  export_state, check_snapshot, hydrate, replace_state,
}

same_length : {V : Type 0} (m : Assoc V) → (length m == length m) ≡ true
same_length m = ground arith

-- every account unit of a member has its balance
unfoldable pub HasBalances : ProgramDefinition → String → List LoyaltyUnit → Assoc ℤ → Type 0
HasBalances program id [] balances = Unit {0}
HasBalances program id (unit ∷ units) balances =
    (has (balance_key program id unit) balances ≡ true) × HasBalances program id units balances

fill_balances-same :
    (program : ProgramDefinition) (id : String) (units : List LoyaltyUnit) (balances : Assoc ℤ)
    → HasBalances program id units balances
    → fill_balances program id units balances ≡ balances
unfolding fill_balances HasBalances
fill_balances-same program id [] balances h = refl
fill_balances-same program id (unit ∷ units) balances h =
    rw h.0 (fill_balances-same program id units balances h.1)

-- every member stands under its id, and has its balances
unfoldable pub HasMembers : ProgramDefinition → Assoc ℤ → Assoc Member → Type 0
HasMembers program balances [] = Unit {0}
HasMembers program balances ((id, member) ∷ members) =
    (member.member_id ≡ id)
    × (has id balances ≡ true)
    × HasBalances program id (account_units program) balances
    × HasMembers program balances members

-- What the maps of an engine are: no key stands twice in one, and each member stands under its id
-- with the balances of its account units.
pub record IsWhole (s : State) : Type 0 where
  pub members : HasDistinctKeys s.members
  pub identity_index : HasDistinctKeys s.identity_index
  pub points : HasDistinctKeys s.points
  pub reservations : HasDistinctKeys s.reservations
  pub ledger : HasDistinctKeys s.ledger
  pub point_lots : HasDistinctKeys s.point_lots
  pub point_lot_consumptions : HasDistinctKeys s.point_lot_consumptions
  pub idempotency : HasDistinctKeys s.idempotency
  pub accruals_by_order : HasDistinctKeys s.accruals_by_order
  pub adjustments : HasDistinctKeys s.adjustments
  pub reservations_by_redemption : HasDistinctKeys s.reservations_by_redemption
  pub issued_rewards : HasDistinctKeys s.issued_rewards
  pub accounts : HasMembers s.program s.points s.members

check_member-same :
    (id : String) (member : Member) (s : State)
    → member.member_id ≡ id
    → has id s.points ≡ true
    → HasBalances s.program id (account_units s.program) s.points
    → check_member (id, member) s ≡ (returned tt, s)
unfolding check_member ◌>>=◌ gets throw_if modify
check_member-same id member s e k h = simp (
  (str_eq_iff member.member_id id).1 e,
  k,
  fill_balances-same s.program id (account_units s.program) s.points h,
)

for_each-check_member :
    (members : Assoc Member) (s : State)
    → HasMembers s.program s.points members
    → for_each check_member members s ≡ (returned tt, s)
unfolding for_each HasMembers ◌>>=◌ pure
for_each-check_member [] s h = refl
for_each-check_member ((id, member) ∷ members) s h =
    rw (check_member-same id member s h.0 h.1 h.2) (for_each-check_member members s h.3)

-- the snapshot of a state
exported : Env → String → State → EngineSnapshot
exported env f s = record {
  version = 1;
  program_id = s.program.program_id;
  program_fingerprint = f;
  saved_at = iso_now env;
  members = s.members;
  identity_index = s.identity_index;
  points = s.points;
  reservations = s.reservations;
  ledger = s.ledger;
  point_lots = s.point_lots;
  point_lot_consumptions = s.point_lot_consumptions;
  idempotency = s.idempotency;
  accruals_by_order = s.accruals_by_order;
  adjustments = s.adjustments;
  reservations_by_redemption = s.reservations_by_redemption;
  issued_rewards = some s.issued_rewards;
}

restore_maps-exported :
    (env : Env) (f : String) (s : State)
    → IsWhole s
    → restore_maps (exported env f s) (cleared s) ≡ (returned tt, s)
unfolding restore_maps restore_map restored_map exported cleared branch modify ◌>>=◌
restore_maps-exported env f s w = simp (
  same_length,
  set_all-distinct s.members w.members,
  set_all-distinct s.identity_index w.identity_index,
  set_all-distinct s.points w.points,
  set_all-distinct s.reservations w.reservations,
  set_all-distinct s.ledger w.ledger,
  set_all-distinct s.point_lots w.point_lots,
  set_all-distinct s.point_lot_consumptions w.point_lot_consumptions,
  set_all-distinct s.idempotency w.idempotency,
  set_all-distinct s.accruals_by_order w.accruals_by_order,
  set_all-distinct s.adjustments w.adjustments,
  set_all-distinct s.reservations_by_redemption w.reservations_by_redemption,
  set_all-distinct s.issued_rewards w.issued_rewards,
)

cleared-program : (s : State) → (cleared s).program ≡ s.program
unfolding cleared
cleared-program s = refl

check_snapshot-exported :
    (env : Env) (f : String) (s t : State)
    → digest_of env s.program.raw ≡ some f
    → t.program ≡ s.program
    → check_snapshot env (exported env f s) t ≡ (returned tt, t)
unfolding check_snapshot exported fingerprint branch gets throw_if ◌>>=◌ pure
check_snapshot-exported env f s t d e =
    simp
      (e, d, (str_eq_iff s.program.program_id s.program.program_id).1 refl, (str_eq_iff f f).1 refl)

hydrate-exported :
    (env : Env) (f : String) (s : State)
    → IsWhole s
    → digest_of env s.program.raw ≡ some f
    → hydrate env (exported env f s) (cleared s) ≡ (returned tt, s)
unfolding hydrate ◌>>=◌ gets
hydrate-exported env f s w d =
    rw
      (
        check_snapshot-exported env f s (cleared s) d (cleared-program s),
        restore_maps-exported env f s w,
      )
      (for_each-check_member s.members s w.accounts)

export_state-none :
    (env : Env) (s : State) (snapshot : EngineSnapshot)
    → digest_of env s.program.raw ≡ none
    → (export_state env s).0 ≢ returned snapshot
unfolding export_state fingerprint branch gets throw ◌>>=◌
export_state-none env s snapshot d h = ground (arith, d)

export_state-some :
    (env : Env) (f : String) (s : State) (snapshot : EngineSnapshot)
    → digest_of env s.program.raw ≡ some f
    → (export_state env s).0 ≡ returned snapshot
    → exported env f s ≡ snapshot
unfolding export_state exported fingerprint branch gets ◌>>=◌ pure
export_state-some env f s snapshot d h = ground (arith, d)

replace_state-hydrated :
    (env : Env) (snapshot : EngineSnapshot) (t u : State)
    → hydrate env snapshot (cleared t) ≡ (returned tt, u)
    → replace_state env snapshot t ≡ (returned tt, u)
unfolding replace_state
replace_state-hydrated env snapshot t u h = rw (replace_state, h) h

cleared-same :
    (s t : State) → t.program ≡ s.program → cleared t ≡ cleared (record s { id_count = t.id_count })
unfolding cleared
cleared-same s t e = ap (λ p. cleared (record s { program = p; id_count = t.id_count })) e

IsWhole-with : (s : State) (n : ℕ) → IsWhole s → IsWhole (record s { id_count = n })
IsWhole-with s n w = record {
  members = w.members;
  identity_index = w.identity_index;
  points = w.points;
  reservations = w.reservations;
  ledger = w.ledger;
  point_lots = w.point_lots;
  point_lot_consumptions = w.point_lot_consumptions;
  idempotency = w.idempotency;
  accruals_by_order = w.accruals_by_order;
  adjustments = w.adjustments;
  reservations_by_redemption = w.reservations_by_redemption;
  issued_rewards = w.issued_rewards;
  accounts = w.accounts;
}

-- A snapshot that an engine exports, whose maps hold no key twice and whose members have their
-- balances, restores in any engine of the same program every map as it was.
pub replace_state-export_state :
    (env : Env) (s t : State) (snapshot : EngineSnapshot)
    → IsWhole s
    → t.program ≡ s.program
    → (export_state env s).0 ≡ returned snapshot
    → replace_state env snapshot t ≡ (returned tt, record s { id_count = t.id_count })
unfolding exported
replace_state-export_state env s t snapshot w e h =
    elim (Option-cases (digest_of env s.program.raw)) [
      | inl none_there ↦ absurd (export_state-none env s snapshot none_there h)
      | inr (f, d) ↦
          subst (λ x. replace_state env x t ≡ (returned tt, record s { id_count = t.id_count }))
            (export_state-some env f s snapshot d h)
            (replace_state-hydrated env (exported env f s) t (record s { id_count = t.id_count })
              (ap (hydrate env (exported env f s)) (cleared-same s t e)
                ∙ hydrate-exported env f (record s { id_count = t.id_count })
                    (IsWhole-with s t.id_count w) d))
    ]
