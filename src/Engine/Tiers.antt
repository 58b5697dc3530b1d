-- ===== src/Engine/Tiers.antt =====
-- Metrics, tiers and multipliers: `accountMetrics`, `isInCurrentQualificationPeriod`,
-- `tierProgress`, `tierMultiplierBps`, `earningMultiplierBps`, `activeMembershipPlan` and
-- `membershipUnavailable`.
pub mod Ascending
pub mod Highest
use Prim.Native.String.{count, compare as compare_text}
use loyalty_interchange_prot.Base.{
  ℕ, zero, suc, ◌-◌, ◌*◌, ◌/◌, String, ◌⧺◌, Bool, true, false, not, ◌&&◌, ◌||◌, Option, none, some,
  List, [], ◌∷◌, Ordering, compare, get_or, option_elim, any, find, filter, get_elem?, head?, leb,
  ltb, ◌==◌, str_eq, if◌then◌else◌,
}
use loyalty_interchange_prot.Base.Int.{pos_part, sum_by}
use loyalty_interchange_prot.Base.Assoc.{lookup, values}
use loyalty_interchange_prot.Base.Sort.{sort}
use loyalty_interchange_prot.Base.Json.{Json, str, arr, obj, Items, nil, cons, get_field}
use loyalty_interchange_prot.Exec.{pure, gets, ◌>>=◌, ◌>>◌, map_each}
use loyalty_interchange_prot.Protocol.Primitives.{unit_eq}
use loyalty_interchange_prot.Protocol.Loyalty.{
  AccountMetric, TierProgress, LedgerEntry, accrual, adjustment, manual, operation_eq,
}
use loyalty_interchange_prot.Protocol.Program.{
  ProgramDefinition, MetricDefinition, MetricSource, current_balance, qualification_earned,
  TierDefinition, TierPolicy, MembershipPlan, RewardDefinition,
}
use loyalty_interchange_prot.Engine.State.{Env, State, Method, iso_now}
use loyalty_interchange_prot.Engine.Ledger.{assert_account_unit}
use loyalty_interchange_prot.Engine.Balances.{balance}

-- `text.padStart(n, "0")`
unfoldable pub zeros : ℕ → String
zeros zero = ""
zeros (suc n) = "0" ⧺ zeros n

unfoldable pub pad_start : ℕ → String → String
unfolding zeros
pad_start n text = zeros (n - count text) ⧺ text

unfoldable pub is_current_balance : MetricSource → Bool
is_current_balance current_balance = true
is_current_balance _ = false

unfoldable pub is_qualification_earned : MetricSource → Bool
is_qualification_earned qualification_earned = true
is_qualification_earned _ = false

-- `left.minimum - right.minimum`
abbrev pub tier_order : TierDefinition → TierDefinition → Ordering
tier_order left right = compare left.minimum right.minimum

unfoldable pub sorted_tiers : ProgramDefinition → List TierDefinition
sorted_tiers program = sort tier_order (get_or program.tiers [])

-- the index of the last tier whose minimum is reached; `index` is that of the list's head
unfoldable pub last_reached : ℕ → ℕ → ℕ → List TierDefinition → ℕ
last_reached amount current index [] = current
last_reached amount current index (tier ∷ tiers) =
    last_reached amount (if leb tier.minimum amount then index else current) (suc index) tiers

-- what `tierProgress` returns between two tiers, or at the top
unfoldable pub progress_between : String → ℕ → TierDefinition → Option TierDefinition → TierProgress
progress_between metric_id amount current none = record {
  current_tier_id = current.tier_id;
  qualification_metric_id = metric_id;
  current_amount = amount;
  next_tier_id = none;
  remaining_to_next = none;
  progress_bps = 10000;
  is_top_tier = true;
}
progress_between metric_id amount current (some next) =
    let bps = (amount - current.minimum) * 10000 / (next.minimum - current.minimum) in
    record {
      current_tier_id = current.tier_id;
      qualification_metric_id = metric_id;
      current_amount = amount;
      next_tier_id = some next.tier_id;
      remaining_to_next = some (next.minimum - amount);
      progress_bps = if leb 10000 bps then 10000 else bps;
      is_top_tier = false;
    }

-- The first tier starts at zero, as `assertProgram` has it.
unfoldable pub tier_progress : ProgramDefinition → List AccountMetric → Option TierProgress
unfolding sorted_tiers last_reached progress_between
tier_progress program metrics =
    let tiers = sorted_tiers program in
    option_elim (head? tiers) none (λ first.
      let metric_id = first.qualification_metric_id in
      let amount =
        option_elim (find (λ metric. str_eq metric.metric_id metric_id) metrics) 0
          (λ metric. pos_part metric.amount) in
      let index = last_reached amount 0 0 tiers in
      option_elim (get_elem? tiers index) none
        (λ current. some (progress_between metric_id amount current (get_elem? tiers (suc index)))))

-- whether a reward's list of plans names a plan
unfoldable pub items_include : String → Items → Bool
items_include id nil = false
items_include id (cons (str s) xs) = if str_eq s id then true else items_include id xs
items_include id (cons _ xs) = items_include id xs

module _ (env : Env) where
  -- `businessDateInZone`
  unfoldable pub business_date_in_zone : ℕ → String → String
  unfolding pad_start
  business_date_in_zone date time_zone =
      let local = env.local_date time_zone date in
      pad_start 4 (env.number_text local.year)
      ⧺ "-"
      ⧺ pad_start 2 (env.number_text local.month)
      ⧺ "-"
      ⧺ pad_start 2 (env.number_text local.day)

  -- the year in which the qualification period of a date began
  unfoldable pub qualification_period_key : TierPolicy → ℕ → ℕ
  qualification_period_key policy date =
      let local = env.local_date policy.time_zone date in
      if ltb policy.starts_month local.month
        || (policy.starts_month == local.month && leb policy.starts_day local.day)
      then local.year
      else local.year - 1

  unfoldable pub is_in_current_qualification_period : ProgramDefinition → String → Bool
  unfolding qualification_period_key business_date_in_zone
  is_in_current_qualification_period program occurred_at =
      option_elim program.tier_policy false (λ policy.
        let occurred = env.date_parse occurred_at in
        (qualification_period_key policy occurred == qualification_period_key policy env.now)
        && option_elim policy.effective_from true (λ from.
          elim (compare_text (business_date_in_zone occurred policy.time_zone) from) [
            | Ordering.lt ↦ false
            | _ ↦ true
          ]))

  -- whether an entry counts for a metric that sums over the ledger
  unfoldable pub counts_for_metric :
      ProgramDefinition → MetricDefinition → String → LedgerEntry → Bool
  unfolding is_in_current_qualification_period
  counts_for_metric program metric member_id entry =
      str_eq entry.member_id member_id
      && unit_eq entry.unit metric.unit
      && any (operation_eq entry.operation) (accrual ∷ adjustment ∷ manual ∷ [])
      && (not (is_qualification_earned metric.source)
          || (is_in_current_qualification_period program entry.occurred_at
              && (not (operation_eq entry.operation manual)
                  || get_or entry.qualifies_for_tier false)))

  unfoldable pub account_metric : String → MetricDefinition → Method AccountMetric
  unfolding counts_for_metric
  account_metric member_id metric = do
    assert_account_unit metric.unit
    amount ←
        if is_current_balance metric.source
        then (do held ← balance env member_id metric.unit; pure held.amount)
        else gets (λ s.
          sum_by (λ entry. entry.amount)
            (filter (counts_for_metric s.program metric member_id) (values s.ledger)))
    pure (record {
      metric_id = metric.metric_id;
      unit = metric.unit;
      amount = amount;
      as_of = iso_now env;
    })

  unfoldable pub account_metrics : String → Method (List AccountMetric)
  account_metrics member_id = do
    metrics ← gets (λ s. get_or s.program.metrics [])
    map_each (account_metric member_id) metrics

  unfoldable pub tier_multiplier_bps : String → Method ℕ
  tier_multiplier_bps member_id = do
    metrics ← account_metrics member_id
    program ← gets (λ s. s.program)
    pure (
        option_elim (tier_progress program metrics) 10000 (λ progress.
          option_elim
            (find (λ tier. str_eq tier.tier_id progress.current_tier_id) (get_or program.tiers []))
            10000 (λ tier. get_or tier.earn_multiplier_bps 10000)))

  -- the plan that a membership among a member's attributes names, while it is active
  unfoldable pub plan_of_membership : ProgramDefinition → Json → Option MembershipPlan
  plan_of_membership program (obj membership) = elim (get_field "status" membership) [
    | some (str status) ↦ elim (get_field "plan_id" membership) [
      | some (str plan_id) ↦ elim (get_field "valid_until" membership) [
        | some (str valid_until) ↦
            if not (str_eq status "active") || leb (env.date_parse valid_until) env.now
            then none
            else find (λ plan. str_eq plan.plan_id plan_id) (get_or program.membership_policy [])
        | _ ↦ none
      ]
      | _ ↦ none
    ]
    | _ ↦ none
  ]
  plan_of_membership program _ = none

  unfoldable pub active_membership_plan : State → String → Option MembershipPlan
  unfolding plan_of_membership
  active_membership_plan s member_id = option_elim (lookup member_id s.members) none (λ member.
      elim member.attributes [
        | some (obj attributes) ↦
            option_elim (get_field "membership" attributes) none (plan_of_membership s.program)
        | _ ↦ none
      ])

  unfoldable pub earning_multiplier_bps : String → Method ℕ
  earning_multiplier_bps member_id = do
    tier ← tier_multiplier_bps member_id
    plan ← gets (λ s. active_membership_plan s member_id)
    let membership = option_elim plan 10000 (λ plan. get_or plan.earn_multiplier_bps 10000)
    pure (tier * membership / 10000)

  -- the first entry of the list is what a plan has to match
  unfoldable pub membership_unavailable : State → RewardDefinition → String → Bool
  unfolding active_membership_plan
  membership_unavailable s reward member_id = elim reward.metadata [
    | some metadata ↦ elim (get_field "membership_plan_ids" metadata) [
      | some (arr (cons first rest)) ↦
          option_elim (active_membership_plan s member_id) true
            (λ plan. not (items_include plan.plan_id (cons first rest)))
      | _ ↦ false
    ]
    | none ↦ false
  ]
