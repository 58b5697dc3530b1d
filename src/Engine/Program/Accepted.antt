-- ===== src/Engine/Program/Accepted.antt =====
-- What holds of a program that the constructor takes.
use loyalty_interchange_prot.Base.{
  ◌≤◌, String, ◌≡◌, refl, sym, ap, subst, ◌∙◌, Bool, true, false, not, ◌||◌, Bool-cases,
  Option-cases, inl, inr, none, some, List, [], ◌∷◌, str_eq, head?, find, any, arith,
}
use loyalty_interchange_prot.Base.Int.{pos, negsuc, ltb_ℤ, ℤ}
use loyalty_interchange_prot.Exec.{returned, throw_if, ◌>>=◌, throw}
use loyalty_interchange_prot.Protocol.Primitives.{Money}
use loyalty_interchange_prot.Protocol.Loyalty.{
  AccountMetric, TierProgress, RewardEffect, discount, free_item, custom_effect,
}
use loyalty_interchange_prot.Protocol.Program.{ProgramDefinition, TierDefinition, RewardDefinition}
use loyalty_interchange_prot.Protocol.Validation.{validate_funding_shares}
use loyalty_interchange_prot.Engine.State.{Env, State}
use loyalty_interchange_prot.Engine.Tiers.{sorted_tiers, tier_progress}
use loyalty_interchange_prot.Engine.Tiers.Highest.{
  IsHighest, metric_amount, tier_progress-IsHighest,
}
use loyalty_interchange_prot.Engine.Funding.{funding_allocations}
use loyalty_interchange_prot.Engine.Funding.Paid.{paid, value_of, paid-funding_allocations}
use loyalty_interchange_prot.Engine.Checks.{
  bad_basics, bad_expiration, bad_accounts, bad_metrics, bad_ladder, bad_tier_policy, bad_reward,
  bad_rewards, is_refused, effect_money,
}
use loyalty_interchange_prot.Engine.Program.{construct}

or_false : (a b : Bool) → (a || b) ≡ false → (a ≡ false) × (b ≡ false)
or_false a b h = ground arith

not-false : (b : Bool) → not b ≡ false → b ≡ true
not-false b h = ground arith

-- the constructor returns only for a program that is not refused
accepted :
    (env : Env) (p : ProgramDefinition) (s : State)
    → (construct env p s).0 ≡ returned tt
    → is_refused env p ≡ false
unfolding construct throw_if ◌>>=◌ throw
accepted env p s h = ground arith

-- the parts of an accepted program that the theorems use
record IsAccepted (env : Env) (p : ProgramDefinition) : Type 0 where
  ladder : bad_ladder p (sorted_tiers p) ≡ false
  rewards : bad_rewards env p ≡ false

IsAccepted-parts : (env : Env) (p : ProgramDefinition) → is_refused env p ≡ false → IsAccepted env p
unfolding is_refused
IsAccepted-parts env p h =
    let basics = or_false (bad_basics p) _ h in
    let first = or_false (bad_expiration p.point_expiration) _ basics.1 in
    let second = or_false (bad_expiration p.balance_expiration) _ first.1 in
    let accounts = or_false (bad_accounts p) _ second.1 in
    let metrics = or_false (bad_metrics p) _ accounts.1 in
    let ladder = or_false (bad_ladder p (sorted_tiers p)) _ metrics.1 in
    let policy = or_false (bad_tier_policy env p) _ ladder.1 in
    let rewards = or_false (bad_rewards env p) _ policy.1 in
    record { ladder = ladder.0; rewards = rewards.0 }

ladder_first :
    (p : ProgramDefinition) (tiers : List TierDefinition)
    → bad_ladder p tiers ≡ false
    → (first : TierDefinition) → head? tiers ≡ some first
    → first.minimum ≡ 0
unfolding bad_ladder
ladder_first p [] h first e = cc
ladder_first p (tier ∷ tiers) h first e = ground arith

-- the tier progress of a program without tiers is none
tier_progress-none :
    (p : ProgramDefinition) (metrics : List AccountMetric)
    → head? (sorted_tiers p) ≡ none
    → tier_progress p metrics ≡ none
unfolding tier_progress
tier_progress-none p metrics h = rw h refl

-- In a program that the constructor accepts, a member's progress has the member's amount of the metric
-- that it names; it names one of the program's tiers, which the amount reaches and which is not below
-- any other of the tiers that it reaches; and the progress to the next tier is at most 10000 basis
-- points.
pub construct-tier_progress :
    (env : Env) (p : ProgramDefinition) (s : State) (metrics : List AccountMetric)
    (progress : TierProgress)
    → (construct env p s).0 ≡ returned tt
    → tier_progress p metrics ≡ some progress
    → ((tier : TierDefinition) × (progress.current_tier_id ≡ tier.tier_id)
        × IsHighest p progress.current_amount tier)
      × (progress.current_amount ≡ metric_amount metrics progress.qualification_metric_id)
      × (progress.progress_bps ≤ 10000)
construct-tier_progress env p s metrics progress h e =
    elim (Option-cases (head? (sorted_tiers p))) [
      | inl empty ↦ absurd (cc (tier_progress-none p metrics empty))
      | inr (first, at_head) ↦
          let (tier, amount, metric, bounded) =
            tier_progress-IsHighest p metrics first progress at_head
              (ladder_first p (sorted_tiers p) (IsAccepted-parts env p (accepted env p s h)).ladder
                first at_head)
              e in
          (tier, amount ∙ ap (metric_amount metrics) (sym metric), bounded)
    ]

found_good :
    (bad good : RewardDefinition → Bool) (rewards : List RewardDefinition) (r : RewardDefinition)
    → any bad rewards ≡ false
    → find good rewards ≡ some r
    → bad r ≡ false
found_good bad good [] r h e = cc
found_good bad good (x ∷ rewards) r h e = elim (Bool-cases (good x)) [
  | inl here ↦
      let same : x ≡ r = ground (arith, here, e) in
      subst (λ y. bad y ≡ false) same (ground (arith, h))
  | inr there ↦ found_good bad good rewards r (ground (arith, h)) (ground (arith, there, e))
]

-- what the check of one reward leaves
good_reward :
    (env : Env) (p : ProgramDefinition) (r : RewardDefinition)
    → bad_reward env p r ≡ false
    → (validate_funding_shares r.funding ≡ true)
      × (any
            (λ m. not (str_eq m.currency p.currency) || ltb_ℤ m.amount (pos 0))
            (effect_money r.effect)
          ≡ false)
unfolding bad_reward
good_reward env p r h =
    let cost = or_false _ _ h in
    let unit = or_false _ _ cost.1 in
    let funding = or_false _ _ unit.1 in
    let money = or_false _ _ funding.1 in
    (not-false (validate_funding_shares r.funding) funding.0, money.0)

worth_of :
    (effect : RewardEffect) (currency : String) (money : Money)
    → value_of effect ≡ some money
    → any (λ m. not (str_eq m.currency currency) || ltb_ℤ m.amount (pos 0)) (effect_money effect)
      ≡ false
    → ltb_ℤ money.amount (pos 0) ≡ false
unfolding value_of
worth_of (discount amount allocations) currency money e h =
    let same : amount ≡ money = ground (arith, e) in
    subst (λ m. ltb_ℤ m.amount (pos 0) ≡ false) same (ground (arith, h))
worth_of (free_item n amount) currency money e h =
    let same : amount ≡ money = ground (arith, e) in
    subst (λ m. ltb_ℤ m.amount (pos 0) ≡ false) same (ground (arith, h))
worth_of (custom_effect name value) currency money e h = cc

paid_worth :
    (env : Env) (r : RewardDefinition) (amount : ℤ) (currency : String)
    → value_of r.effect ≡ some (record { amount = amount; currency = currency })
    → ltb_ℤ amount (pos 0) ≡ false
    → validate_funding_shares r.funding ≡ true
    → paid (funding_allocations env r) ≡ amount
paid_worth env r (pos n) currency e h v = paid-funding_allocations env r currency n e v
paid_worth env r (negsuc n) currency e h v = absurd (ground (arith, h))

-- In a program that the constructor accepts, what the funding parties of a reward pay adds up to
-- what the reward's effect is worth, for each reward with a worth that is found by its id.
pub construct-paid :
    (env : Env) (p : ProgramDefinition) (s : State) (id : String) (r : RewardDefinition)
    (money : Money)
    → (construct env p s).0 ≡ returned tt
    → find (λ r. str_eq r.reward_id id) p.rewards ≡ some r
    → value_of r.effect ≡ some money
    → paid (funding_allocations env r) ≡ money.amount
unfolding bad_rewards
construct-paid env p s id r money h found worth =
    let all_good = or_false _ _ (IsAccepted-parts env p (accepted env p s h)).rewards in
    let good =
      good_reward env p r
        (found_good (bad_reward env p) (λ r. str_eq r.reward_id id) p.rewards r all_good.1 found) in
    paid_worth env r money.amount money.currency worth
      (worth_of r.effect p.currency money worth good.1) good.0
