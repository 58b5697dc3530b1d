-- ===== src/Engine/Tiers/Highest.antt =====
-- Which tier a member is in.
use loyalty_interchange_prot.Base.{
  ℕ, suc, ◌≤◌, String, ◌≡◌, refl, sym, ap, subst, ◌∙◌, Option, none, some, List, [], ◌∷◌, find,
  str_eq, get_or, option_elim, get_elem?, head?, arith,
}
use loyalty_interchange_prot.Base.Int.{pos_part}
use loyalty_interchange_prot.Base.Sort.{StandsIn, sort-StandsIn_from, sort-StandsIn_to}
use loyalty_interchange_prot.Protocol.Loyalty.{AccountMetric, TierProgress}
use loyalty_interchange_prot.Protocol.Program.{ProgramDefinition, TierDefinition}
use loyalty_interchange_prot.Engine.Tiers.{
  tier_order, sorted_tiers, last_reached, progress_between, tier_progress,
}
use loyalty_interchange_prot.Engine.Tiers.Ascending.{
  IsAscending, sort-IsAscending, ascending_between, reached_before, current_reached,
}

-- One of a program's tiers that an amount reaches, and that no other of them which the amount reaches
-- stands above.
pub record IsHighest (program : ProgramDefinition) (amount : ℕ) (tier : TierDefinition)
    : Type 0 where
  pub listed : StandsIn (get_or program.tiers []) tier
  pub reached : tier.minimum ≤ amount
  pub highest :
      (other : TierDefinition)
      → StandsIn (get_or program.tiers []) other
      → other.minimum ≤ amount
      → other.minimum ≤ tier.minimum

highest_of :
    (amount : ℕ) (first tier : TierDefinition) (tiers : List TierDefinition)
    → IsAscending 0 tiers
    → head? tiers ≡ some first
    → first.minimum ≡ 0
    → get_elem? tiers (last_reached amount 0 0 tiers) ≡ some tier
    → (tier.minimum ≤ amount)
      × ((j : ℕ) (other : TierDefinition)
          → get_elem? tiers j ≡ some other
          → other.minimum ≤ amount
          → other.minimum ≤ tier.minimum)
highest_of amount first tier [] k h zero_first at = ground arith
highest_of amount first tier (x ∷ tiers) k h zero_first at = (
  current_reached amount (last_reached amount 0 0 (x ∷ tiers)) x tiers tier
      (ground (arith, h, zero_first)) refl at,
  λ j other g le.
      ascending_between 0 j (last_reached amount 0 0 (x ∷ tiers)) (x ∷ tiers) other tier k g at
        (let before = reached_before amount 0 0 j (x ∷ tiers) other g le in omega arith),
)

found :
    {A B : Type 0} (o : Option A) (f : A → Option B) (b : B)
    → option_elim o none f ≡ some b
    → (a : A) × (o ≡ some a) × (f a ≡ some b)
found none f b h = ground arith
found (some a) f b h = (a, refl, h)

progress_between_lem :
    (metric_id : String) (amount : ℕ) (current : TierDefinition) (next : Option TierDefinition)
    → ((progress_between metric_id amount current next).current_tier_id ≡ current.tier_id)
      × ((progress_between metric_id amount current next).current_amount ≡ amount)
      × ((progress_between metric_id amount current next).qualification_metric_id ≡ metric_id)
      × ((progress_between metric_id amount current next).progress_bps ≤ 10000)
unfolding progress_between
progress_between_lem metric_id amount current none = (refl, refl, refl, omega arith)
progress_between_lem metric_id amount current (some next) = (refl, refl, refl, ground arith)

abbrev index_at : ProgramDefinition → ℕ → ℕ
index_at program amount = last_reached amount 0 0 (sorted_tiers program)

-- the rest of `tier_progress`, when the metric's amount is known
IsHighest-at :
    (program : ProgramDefinition) (metric_id : String) (amount : ℕ) (first : TierDefinition)
    (p : TierProgress)
    → head? (sorted_tiers program) ≡ some first
    → first.minimum ≡ 0
    → option_elim (get_elem? (sorted_tiers program) (index_at program amount)) none (λ current.
      some (
        progress_between metric_id amount current
          (get_elem? (sorted_tiers program) (suc (index_at program amount)))))
      ≡ some p
    → ((tier : TierDefinition) × (p.current_tier_id ≡ tier.tier_id)
        × IsHighest program p.current_amount tier)
      × (p.current_amount ≡ amount)
      × (p.qualification_metric_id ≡ metric_id)
      × (p.progress_bps ≤ 10000)
unfolding sorted_tiers
IsHighest-at program metric_id amount first p h zero_first progress =
    let tiers = get_or program.tiers [] in
    let next = get_elem? (sorted_tiers program) (suc (index_at program amount)) in
    let (tier, at, same) =
      found (get_elem? (sorted_tiers program) (index_at program amount))
        (λ current. some (progress_between metric_id amount current next)) p progress in
    let (named, of_amount, of_metric, bounded) = progress_between_lem metric_id amount tier next in
    let is_p : progress_between metric_id amount tier next ≡ p = ground (arith, same) in
    let amount_p : p.current_amount ≡ amount = sym (ap (λ q. q.current_amount) is_p) ∙ of_amount in
    let (reached, highest) =
      highest_of amount first tier (sorted_tiers program)
        (sort-IsAscending (get_or program.tiers [])) h zero_first at in
    (
      (
        tier,
        sym (ap (λ q. q.current_tier_id) is_p) ∙ named,
        record {
          listed = sort-StandsIn_from tier_order tier tiers (index_at program amount, at);
          reached = omega arith;
          highest = λ other stands le.
              let (j, g) = sort-StandsIn_to tier_order other tiers stands in
              highest j other g (omega arith);
        },
      ),
      amount_p,
      sym (ap (λ q. q.qualification_metric_id) is_p) ∙ of_metric,
      subst (λ q. q.progress_bps ≤ 10000) is_p bounded,
    )

-- the amount of a metric among a member's, at least zero
abbrev pub metric_amount : List AccountMetric → String → ℕ
metric_amount metrics id =
    option_elim (find (λ metric. str_eq metric.metric_id id) metrics) 0
      (λ metric. pos_part metric.amount)

-- Where the lowest tier of a program starts at zero, a member's progress has the member's amount of
-- the metric that it names, which is the lowest tier's; it names one of the program's tiers, which
-- the amount reaches and which is not below any other of the tiers that it reaches; and the progress
-- to the next tier is at most 10000 basis points.
pub tier_progress-IsHighest :
    (program : ProgramDefinition) (metrics : List AccountMetric) (first : TierDefinition)
    (p : TierProgress)
    → head? (sorted_tiers program) ≡ some first
    → first.minimum ≡ 0
    → tier_progress program metrics ≡ some p
    → ((tier : TierDefinition) × (p.current_tier_id ≡ tier.tier_id)
        × IsHighest program p.current_amount tier)
      × (p.current_amount ≡ metric_amount metrics first.qualification_metric_id)
      × (p.qualification_metric_id ≡ first.qualification_metric_id)
      × (p.progress_bps ≤ 10000)
unfolding tier_progress
tier_progress-IsHighest program metrics first p h zero_first progress =
    let (lowest, at_head, h1) = found (head? (sorted_tiers program)) _ p progress in
    let same : lowest ≡ first = ground (arith, h, at_head) in
    subst
      (λ t.
        ((tier : TierDefinition) × (p.current_tier_id ≡ tier.tier_id)
          × IsHighest program p.current_amount tier)
        × (p.current_amount ≡ metric_amount metrics t.qualification_metric_id)
        × (p.qualification_metric_id ≡ t.qualification_metric_id)
        × (p.progress_bps ≤ 10000))
      same (IsHighest-at program lowest.qualification_metric_id _ first p h zero_first h1)
