-- ===== src/Engine/Tests/Programs.antt =====
-- Examples of programs: one that is accepted, and its replacement in an empty engine.
use loyalty_interchange_prot.Base.{ℕ, String, true, false, ◌≡◌, ◌≤◌, ◌⊎◌, refl, none, some, [], ◌∷◌}
use loyalty_interchange_prot.Base.Int.{pos, ◌+ℤ◌, sum_by}
use loyalty_interchange_prot.Base.Sort.{sort, sorted_insert}
use loyalty_interchange_prot.Exec.{
  returned, threw, EngineError, ◌>>=◌, throw_if, pure, gets, modify,
}
use loyalty_interchange_prot.Protocol.Primitives.{points, custom, unit_eq, merchant}
use loyalty_interchange_prot.Protocol.Loyalty.{AccountMetric, TierProgress, free_item}
use loyalty_interchange_prot.Protocol.Validation.{validate_funding_shares}
use loyalty_interchange_prot.Protocol.Program.{
  ProgramDefinition, TierDefinition, lifetime_earned, RewardDefinition,
}
use loyalty_interchange_prot.Engine.Ledger.{account_units, primary_unit}
use loyalty_interchange_prot.Engine.Tiers.{
  sorted_tiers, last_reached, progress_between, tier_progress,
}
use loyalty_interchange_prot.Engine.Tiers.Highest.{IsHighest, metric_amount}
use loyalty_interchange_prot.Engine.Funding.{funding_allocations}
use loyalty_interchange_prot.Engine.Funding.Paid.{paid, value_of}
use loyalty_interchange_prot.Engine.Calls.{new_engine}
use loyalty_interchange_prot.Engine.Calls.History.{new_engine-WellFormed}
use loyalty_interchange_prot.Engine.Checks.{bad_accounts, is_refused}
use loyalty_interchange_prot.Engine.Program.{construct, reconfigure_program}
use loyalty_interchange_prot.Engine.Program.Accepted.{construct-tier_progress, construct-paid}
use loyalty_interchange_prot.Engine.Program.Replaced.{IsReplacement, reconfigure_program-program}
use loyalty_interchange_prot.Engine.Tests.Data.{env, distinct, program}

abbrev tier_of : String → ℕ → TierDefinition
tier_of id minimum = record {
  tier_id = id;
  name = id;
  qualification_metric_id = "spent";
  minimum = minimum;
  earn_multiplier_bps = none;
}

abbrev coffee : RewardDefinition
coffee = record {
  reward_id = "coffee";
  name = none;
  points_cost = 100;
  cost = none;
  effect = free_item 1 (record { amount = pos 300; currency = "EUR" });
  funding =
      record { party_id = "shop"; party_type = merchant; share_bps = 10000; amount = none } ∷ [];
  available_from = none;
  available_until = none;
  metadata = none;
}

abbrev tiered : ProgramDefinition
tiered = record program {
  metrics = some (
      record { metric_id = "spent"; name = "spent"; unit = points; source = lifetime_earned } ∷ []);
  tiers = some (tier_of "gold" 100 ∷ tier_of "bronze" 0 ∷ tier_of "silver" 50 ∷ []);
  rewards = coffee ∷ [];
}

tiered-accepted : (construct env tiered (new_engine program)).0 ≡ returned tt
unfolding construct ◌>>=◌ throw_if is_refused sorted_tiers sort sorted_insert primary_unit unit_eq
    validate_funding_shares sum_by ◌+ℤ◌ pure
tiered-accepted = refl

abbrev spent : AccountMetric
spent = record { metric_id = "spent"; unit = points; amount = pos 60; as_of = "2026" }

abbrev silver_progress : TierProgress
silver_progress = record {
  current_tier_id = "silver";
  qualification_metric_id = "spent";
  current_amount = 60;
  next_tier_id = some "gold";
  remaining_to_next = some 40;
  progress_bps = 2000;
  is_top_tier = false;
}

construct-tier_progress_example :
    ((tier : TierDefinition) × ("silver" ≡ tier.tier_id) × IsHighest tiered 60 tier)
    × (60 ≡ metric_amount (spent ∷ []) "spent")
    × (2000 ≤ 10000)
unfolding sorted_tiers sort sorted_insert last_reached progress_between tier_progress
construct-tier_progress_example =
    construct-tier_progress env tiered (new_engine program) (spent ∷ []) silver_progress
      tiered-accepted refl

construct-paid_example : paid (funding_allocations env coffee) ≡ pos 300
unfolding value_of
construct-paid_example =
    construct-paid env tiered (new_engine program) "coffee" coffee
      (record { amount = pos 300; currency = "EUR" }) tiered-accepted refl refl

reconfigure_program-program_example :
    let (o, t) = reconfigure_program env tiered (new_engine program) in
    ((o ≡ returned tt) × (t.program ≡ tiered) × IsReplacement env (new_engine program) tiered)
    ⊎ ((e : EngineError) × (o ≡ threw e) × (t.program ≡ program))
reconfigure_program-program_example =
    reconfigure_program-program env distinct tiered (new_engine program)
      (new_engine-WellFormed env distinct program)

-- the replacement is accepted
reconfigured_test : (reconfigure_program env tiered (new_engine program)).0 ≡ returned tt
unfolding reconfigure_program construct ◌>>=◌ throw_if is_refused sorted_tiers sort sorted_insert
    primary_unit unit_eq validate_funding_shares sum_by ◌+ℤ◌ pure gets modify account_units
reconfigured_test = refl

-- an account in a unit of its own makes, which `assertProgram` refuses
abbrev with_custom : ProgramDefinition
with_custom = record program {
  accounts = some (
      record { unit = points; unit_label = none; is_primary = true }
      ∷ record { unit = custom; unit_label = none; is_primary = false }
      ∷ []);
}

with_custom_test : bad_accounts with_custom ≡ true
unfolding bad_accounts unit_eq
with_custom_test = refl
