-- ===== src/Engine/Program.antt =====
-- The check of a program and its replacement: the constructor's checks,
-- `assertCompatibleProgramUpdate` and `reconfigureProgram` of packages/reference/src/engine.ts.
pub mod Accepted
pub mod Replaced
use Prim.Native.Char.{code}
use loyalty_interchange_prot.Base.{
  ℕ, String, Bool, true, false, not, ◌&&◌, ◌||◌, Option, none, some, List, [], ◌∷◌, map, str_eq,
  ◌==◌, ltb, leb, get_or, option_elim, length, any, all, filter, find, head?, is_some,
  if◌then◌else◌,
}
use loyalty_interchange_prot.Base.Int.{ℤ, pos, eqb_ℤ, ltb_ℤ, sum_by}
use loyalty_interchange_prot.Base.Assoc.{Assoc, keys, values}
use loyalty_interchange_prot.Exec.{
  returned, ErrorCode, invalid_program, conflict, pure, gets, modify, throw_if, for_each, ◌>>=◌,
  ◌>>◌,
}
use loyalty_interchange_prot.Protocol.Primitives.{
  LoyaltyUnit, points, visits, stamps, credits, unit_eq, Money,
}
use loyalty_interchange_prot.Protocol.Order.{channel_eq}
use loyalty_interchange_prot.Protocol.Loyalty.{
  RewardEffect, discount, free_item, custom_effect, UnitAmount, IssuedReward, issued,
  issued_status_eq,
}
use loyalty_interchange_prot.Protocol.Program.{
  ProgramAccount, MetricDefinition, MetricSource, current_balance, lifetime_earned,
  qualification_earned, TierDefinition, TierPolicy, ExpirationPolicy, RewardDefinition,
  MembershipPlan, VisitStampPolicy, ProgramDefinition,
}
use loyalty_interchange_prot.Protocol.Validation.{validate_funding_shares}
use loyalty_interchange_prot.Engine.State.{Env, State, Method}
use loyalty_interchange_prot.Engine.Ledger.{account_units, primary_unit}
use loyalty_interchange_prot.Engine.Balances.{balance}
use loyalty_interchange_prot.Engine.Tiers.{sorted_tiers}
use loyalty_interchange_prot.Engine.Snapshot.{fill_balances}
use loyalty_interchange_prot.Engine.Checks.{has_unit, accounts_of, is_refused}

-- the loop over the members that `reconfigureProgram` ends with
unfoldable pub fill_members : ProgramDefinition → List String → Assoc ℤ → Assoc ℤ
fill_members program [] balances = balances
fill_members program (id ∷ ids) balances =
    fill_members program ids (fill_balances program id (account_units program) balances)

-- `assertCompatibleProgramUpdate`
unfoldable pub assert_compatible_program_update :
    ProgramDefinition → ProgramDefinition → Method (Unit {0})
assert_compatible_program_update current next = do
  throw_if (not (str_eq next.program_id current.program_id)) invalid_program 409
  throw_if (not (str_eq next.currency current.currency)) invalid_program 409
  throw_if (not (unit_eq (primary_unit next) (primary_unit current))) invalid_program 409

-- an active issued reward that the next program does not have
unfoldable pub loses_reward : ProgramDefinition → State → Bool
loses_reward program s =
    any
      (λ r.
        issued_status_eq r.status issued
        && not (any (λ reward. str_eq reward.reward_id r.reward_id) program.rewards))
      (values s.issued_rewards)

-- the new program, with a balance for every account of every member
unfoldable pub take_program : ProgramDefinition → State → State
unfolding fill_balances
take_program program s = record s {
  program = program;
  points = fill_members program (keys s.members) s.points;
}

module _ (env : Env) where
  -- the constructor: `assertProgram`, and the check of the catalog
  unfoldable pub construct : ProgramDefinition → Method (Unit {0})
  unfolding is_refused
  construct p = do
    throw_if (is_refused env p) invalid_program 400
    throw_if (not (env.catalog_matches_schema p)) invalid_program 400

  -- `some` over the members: the balances of one account until one is not zero
  unfoldable pub any_balance : LoyaltyUnit → List String → Method Bool
  any_balance unit [] = pure false
  any_balance unit (id ∷ ids) = do
    b ← balance env id unit
    if eqb_ℤ b.amount (pos 0) then any_balance unit ids else pure true

  -- `find` over the accounts: whether one that is removed has a balance
  unfoldable pub removed_account : List LoyaltyUnit → List LoyaltyUnit → Method Bool
  unfolding any_balance
  removed_account next_units [] = pure false
  removed_account next_units (unit ∷ units) =
      if has_unit unit next_units then removed_account next_units units else (do
        ids ← gets (λ s. keys s.members)
        found ← any_balance unit ids
        if found then pure true else removed_account next_units units)

  -- what `reconfigureProgram` tests before it changes the program
  unfoldable pub check_reconfigure : ProgramDefinition → Method (Unit {0})
  unfolding construct assert_compatible_program_update removed_account loses_reward
  check_reconfigure program = do
    construct program
    current ← gets (λ s. s.program)
    assert_compatible_program_update current program
    active ← gets (loses_reward program)
    throw_if active conflict 409
    found ← removed_account (map (λ a. a.unit) (accounts_of program)) (account_units current)
    throw_if found conflict 409

  -- `reconfigureProgram`
  unfoldable pub reconfigure_program : ProgramDefinition → Method (Unit {0})
  unfolding check_reconfigure take_program
  reconfigure_program program = do check_reconfigure program; modify (take_program program)
