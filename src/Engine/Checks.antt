-- ===== src/Engine/Checks.antt =====
-- Whether `assertProgram` of packages/reference/src/engine.ts refuses a program. All its throws are of
-- one kind, so each of its tests is a Boolean here. Numbers that the model's types keep integral and
-- not negative are not tested for that again.
use Prim.Native.Char.{code}
use loyalty_interchange_prot.Base.{
  ℕ, String, Bool, true, false, not, ◌&&◌, ◌||◌, Option, none, some, List, [], ◌∷◌, map, str_eq,
  ◌==◌, ltb, leb, get_or, option_elim, length, any, all, filter, find, head?, is_some,
  if◌then◌else◌,
}
use loyalty_interchange_prot.Base.Int.{pos, eqb_ℤ, ltb_ℤ, sum_by}
use loyalty_interchange_prot.Protocol.Primitives.{
  LoyaltyUnit, points, visits, stamps, credits, unit_eq, Money,
}
use loyalty_interchange_prot.Protocol.Order.{channel_eq}
use loyalty_interchange_prot.Protocol.Loyalty.{
  RewardEffect, discount, free_item, custom_effect, UnitAmount,
}
use loyalty_interchange_prot.Protocol.Program.{
  ProgramAccount, MetricDefinition, current_balance, lifetime_earned, qualification_earned,
  TierDefinition, ExpirationPolicy, RewardDefinition, ProgramDefinition,
}
use loyalty_interchange_prot.Protocol.Validation.{validate_funding_shares}
use loyalty_interchange_prot.Engine.State.{Env}
use loyalty_interchange_prot.Engine.Ledger.{primary_unit}
use loyalty_interchange_prot.Engine.Tiers.{sorted_tiers}

-- `new Set(xs).size !== xs.length`, and the tests with a set of the ids before
unfoldable pub has_duplicates : {A : Type 0} → (A → A → Bool) → List A → Bool
has_duplicates eq [] = false
has_duplicates eq (x ∷ xs) = any (eq x) xs || has_duplicates eq xs

abbrev pub has_unit : LoyaltyUnit → List LoyaltyUnit → Bool
has_unit unit = any (unit_eq unit)

abbrev codes : String → List ℕ
codes String.[] = []
codes (String.◌∷◌ c s) = code c ∷ codes s

-- `/^[A-Z]{3}$/`
unfoldable pub is_currency : String → Bool
is_currency text = length (codes text) == 3 && all (λ c. leb b'A' c && leb c b'Z') (codes text)

-- the program's own fields and its earning policy
unfoldable pub bad_basics : ProgramDefinition → Bool
unfolding is_currency has_duplicates
bad_basics p =
    str_eq p.program_id ""
    || (not (is_currency p.currency)
        || (p.earn_rate.spend_minor_units == 0
            || (p.evaluation_ttl_seconds == 0
                || (p.reservation_ttl_seconds == 0
                    || option_elim p.earning_policy false (λ earning.
                      option_elim earning.eligible_channels false (λ channels.
                        length channels == 0 || has_duplicates channel_eq channels))))))

unfoldable pub bad_expiration : Option ExpirationPolicy → Bool
bad_expiration policy =
    option_elim policy false
      (λ e. e.days == 0 || any (λ days. days == 0 || leb e.days days) e.warning_days)

-- `program.accounts ?? [{ unit: "points", … }]`
abbrev pub accounts_of : ProgramDefinition → List ProgramAccount
accounts_of p =
    get_or p.accounts (record { unit = points; unit_label = some "points"; is_primary = true } ∷ [])

-- the units that an account may have
abbrev allowed_units : List LoyaltyUnit
allowed_units = points ∷ visits ∷ stamps ∷ credits ∷ []

unfoldable pub bad_accounts : ProgramDefinition → Bool
unfolding has_duplicates
bad_accounts p =
    let units = map (λ a. a.unit) (accounts_of p) in
    length units == 0
    || (has_duplicates unit_eq units
        || (any (λ unit. not (has_unit unit allowed_units)) units
            || (not (length (filter (λ a. a.is_primary) (accounts_of p)) == 1)
                || (has_unit visits units && has_unit stamps units
                    || (is_some p.point_expiration && not (has_unit points units)
                        || (is_some p.balance_expiration && not (has_unit credits units)
                            || (not (has_unit points units)
                                && ltb 0 (length (get_or p.tiers [])))))))))

unfoldable pub bad_metrics : ProgramDefinition → Bool
unfolding has_duplicates
bad_metrics p =
    let metrics = get_or p.metrics [] in
    has_duplicates str_eq (map (λ m. m.metric_id) metrics)
    || any (λ m. not (has_unit m.unit (map (λ a. a.unit) (accounts_of p)))) metrics

abbrev pub metric_named : ProgramDefinition → String → Option MetricDefinition
metric_named p id = find (λ m. str_eq m.metric_id id) (get_or p.metrics [])

-- a threshold that the tier before has too
unfoldable pub repeats_minimum : List TierDefinition → Bool
repeats_minimum [] = false
repeats_minimum (tier ∷ []) = false
repeats_minimum (tier ∷ next ∷ tiers) =
    tier.minimum == next.minimum || repeats_minimum (next ∷ tiers)

-- the ladder, sorted
unfoldable pub bad_ladder : ProgramDefinition → List TierDefinition → Bool
unfolding repeats_minimum has_duplicates
bad_ladder p [] = false
bad_ladder p (first ∷ tiers) =
    not (first.minimum == 0)
    || (option_elim (metric_named p first.qualification_metric_id) true
          (λ m. not (unit_eq m.unit points))
        || (has_duplicates str_eq (map (λ t. t.tier_id) (first ∷ tiers))
            || (any (λ t. not (str_eq t.qualification_metric_id first.qualification_metric_id))
                  (first ∷ tiers)
                || repeats_minimum (first ∷ tiers))))

unfoldable pub bad_tier_policy : Env → ProgramDefinition → Bool
bad_tier_policy env p =
    option_elim p.tier_policy
      (any
        (λ m. elim m.source [
          | qualification_earned ↦ true
          | current_balance ↦ false
          | lifetime_earned ↦ false
        ])
        (get_or p.metrics []))
      (λ policy.
        not (
          option_elim (head? (sorted_tiers p)) false
            (λ first. str_eq policy.metric_id first.qualification_metric_id))
        || (not (is_some (metric_named p policy.metric_id))
            || (not (env.is_date_of_2024 policy.starts_month policy.starts_day)
                || not (env.knows_time_zone policy.time_zone))))

abbrev pub effect_money : RewardEffect → List Money
effect_money (discount amount allocations) = amount ∷ map (λ a. a.amount) allocations
effect_money (free_item _ max_value) = max_value ∷ []
effect_money (custom_effect _ _) = []

abbrev pub reconciles : RewardEffect → Bool
reconciles (discount amount allocations) =
    eqb_ℤ (sum_by (λ a. a.amount.amount) allocations) amount.amount
reconciles (free_item _ _) = true
reconciles (custom_effect _ _) = true

-- one reward; its cost is in an account's unit
unfoldable pub bad_reward : Env → ProgramDefinition → RewardDefinition → Bool
bad_reward env p r =
    let cost : UnitAmount =
      get_or r.cost (record { unit = primary_unit p; amount = pos r.points_cost }) in
    ltb_ℤ cost.amount (pos 0)
    || (not (has_unit cost.unit (map (λ a. a.unit) (accounts_of p)))
        || (not (validate_funding_shares r.funding)
            || (any (λ m. not (str_eq m.currency p.currency) || ltb_ℤ m.amount (pos 0))
                  (effect_money r.effect)
                || (not (reconciles r.effect)
                    || option_elim r.available_from false (λ from.
                      option_elim r.available_until false
                        (λ until. ltb (env.date_parse until) (env.date_parse from)))))))

unfoldable pub bad_rewards : Env → ProgramDefinition → Bool
unfolding bad_reward has_duplicates
bad_rewards env p =
    has_duplicates str_eq (map (λ r. r.reward_id) p.rewards) || any (bad_reward env p) p.rewards

unfoldable pub bad_wallet : ProgramDefinition → Bool
bad_wallet p =
    if has_unit credits (map (λ a. a.unit) (accounts_of p))
    then option_elim p.wallet_credit_policy true (λ w. w.earn_bps == 0 || ltb 10000 w.earn_bps)
    else is_some p.wallet_credit_policy || is_some p.balance_expiration

unfoldable pub bad_membership : ProgramDefinition → Bool
unfolding has_duplicates
bad_membership p = option_elim p.membership_policy false (λ plans.
    any
      (λ plan.
        str_eq plan.plan_id ""
        || (str_eq plan.name "" || option_elim plan.earn_multiplier_bps false (λ b. b == 0)))
      plans
    || (has_duplicates str_eq (map (λ plan. plan.plan_id) plans) || length plans == 0))

-- the unit that the visit policy must have
abbrev pub visit_unit : ProgramDefinition → Option LoyaltyUnit
visit_unit p =
    let units = map (λ a. a.unit) (accounts_of p) in
    if has_unit stamps units
    then some stamps
    else if has_unit visits units
    then some visits
    else none

unfoldable pub bad_visits : ProgramDefinition → Bool
bad_visits p = option_elim (visit_unit p) (is_some p.visit_stamp_policy) (λ unit.
    option_elim p.visit_stamp_policy true (λ v.
      not (unit_eq v.unit unit)
      || (v.amount_per_order == 0
          || (v.threshold == 0
              || (not (any (λ r. str_eq r.reward_id v.issue_reward_id) p.rewards)
                  || option_elim v.issued_reward_ttl_seconds false (λ ttl. ltb ttl 60))))))

module _ (env : Env) where
  -- whether `assertProgram` throws
  unfoldable pub is_refused : ProgramDefinition → Bool
  unfolding bad_basics bad_expiration bad_accounts bad_metrics bad_ladder bad_tier_policy
      bad_rewards bad_wallet bad_membership bad_visits
  is_refused p =
      bad_basics p
      || (bad_expiration p.point_expiration
          || (bad_expiration p.balance_expiration
              || (bad_accounts p
                  || (bad_metrics p
                      || (bad_ladder p (sorted_tiers p)
                          || (bad_tier_policy env p
                              || (bad_rewards env p
                                  || (bad_wallet p || (bad_membership p || bad_visits p)))))))))
