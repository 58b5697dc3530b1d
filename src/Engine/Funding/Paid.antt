-- ===== src/Engine/Funding/Paid.antt =====
-- What the funding parties pay, read back from the reward's funding as responses carry it.
use loyalty_interchange_prot.Base.{
  ℕ, suc, ◌+◌, ◌-◌, ◌≤◌, ◌≡◌, refl, ap, true, ◌∙◌, String, List, [], ◌∷◌, Option, some, none,
  Ordering, length, arith, ◌==◌, leb, option_elim, if◌then◌else◌,
}
use loyalty_interchange_prot.Base.Int.{ℤ, pos, ◌+ℤ◌, sum_by}
use loyalty_interchange_prot.Base.Sort.{sort, sorted_insert}
use loyalty_interchange_prot.Protocol.Primitives.{FundingShare, Money}
use loyalty_interchange_prot.Protocol.Loyalty.{RewardEffect, discount, free_item, custom_effect}
use loyalty_interchange_prot.Protocol.Validation.{validate_funding_shares}
use loyalty_interchange_prot.Protocol.Program.{RewardDefinition}
use loyalty_interchange_prot.Engine.State.{Env}
use loyalty_interchange_prot.Engine.Funding.{
  Allocation, allocations_from, allocated, hand_out, rank, settled, amount_at, funded_shares,
  funding_allocations,
}
use loyalty_interchange_prot.Engine.Funding.Totals.{total_bps, allocated-settled}

-- the parts with an index
unfoldable occurrences : ℕ → List Allocation → ℕ
occurrences i [] = 0
occurrences i (a ∷ parts) = (if a.index == i then 1 else 0) + occurrences i parts

-- the parts from an index on, together
unfoldable total_from : ℕ → List Allocation → ℕ
total_from i [] = 0
total_from i (a ∷ parts) = (if leb i a.index then a.amount else 0) + total_from i parts

occurrences-allocations_from :
    (value i index : ℕ) (shares : List FundingShare)
    → occurrences i (allocations_from value index shares)
      ≡ (if leb index i then if leb (suc i) (index + length shares) then 1 else 0 else 0)
unfolding occurrences allocations_from
occurrences-allocations_from value i index [] = ground arith
occurrences-allocations_from value i index (share ∷ shares) =
    ground (arith, occurrences-allocations_from value i (suc index) shares)

occurrences-hand_out :
    (i n : ℕ) (parts : List Allocation) → occurrences i (hand_out n parts) ≡ occurrences i parts
unfolding occurrences hand_out
occurrences-hand_out i n [] = refl
occurrences-hand_out i n (a ∷ parts) = ground (arith, occurrences-hand_out i (n - 1) parts)

module _ (cmp : Allocation → Allocation → Ordering) where
  occurrences-sorted_insert :
      (i : ℕ) (a : Allocation) (parts : List Allocation)
      → occurrences i (sorted_insert cmp a parts) ≡ occurrences i (a ∷ parts)
  unfolding sorted_insert occurrences
  occurrences-sorted_insert i a [] = refl
  occurrences-sorted_insert i a (b ∷ parts) = ground (arith, occurrences-sorted_insert i a parts)

  occurrences-sort :
      (i : ℕ) (parts : List Allocation) → occurrences i (sort cmp parts) ≡ occurrences i parts
  unfolding sort occurrences
  occurrences-sort i [] = refl
  occurrences-sort i (a ∷ parts) =
      ground (arith, occurrences-sort i parts, occurrences-sorted_insert i a (sort cmp parts))

amount_at-absent :
    (i : ℕ) (parts : List Allocation) → occurrences i parts ≡ 0 → amount_at i parts ≡ 0
unfolding occurrences amount_at
amount_at-absent i [] h = refl
amount_at-absent i (a ∷ parts) h = ground (arith, amount_at-absent i parts)

-- A part that occurs once is split off.
total_from-suc :
    (i : ℕ) (parts : List Allocation)
    → occurrences i parts ≤ 1
    → total_from i parts ≡ amount_at i parts + total_from (suc i) parts
unfolding occurrences amount_at total_from
total_from-suc i [] h = refl
total_from-suc i (a ∷ parts) h = ground (arith, total_from-suc i parts, amount_at-absent i parts)

total_from-zero : (parts : List Allocation) → total_from 0 parts ≡ allocated parts
unfolding total_from allocated
total_from-zero [] = refl
total_from-zero (a ∷ parts) = ground (arith, total_from-zero parts)

total_from-end :
    (i : ℕ) (parts : List Allocation)
    → ((j : ℕ) → i ≤ j → occurrences j parts ≡ 0)
    → total_from i parts ≡ 0
unfolding occurrences total_from
total_from-end i [] h = refl
total_from-end i (a ∷ parts) h =
    ground (arith, h a.index, total_from-end i parts (λ j k. ground (arith, h j k)))

-- the amounts of shares, together
unfoldable pub paid : List FundingShare → ℤ
paid shares = sum_by (λ share. option_elim share.amount (pos 0) (λ m. m.amount)) shares

paid-funded_shares :
    (currency : String) (index : ℕ) (shares : List FundingShare) (parts : List Allocation)
    → ((j : ℕ) → occurrences j parts ≤ 1)
    → ((j : ℕ) → index + length shares ≤ j → occurrences j parts ≡ 0)
    → paid (funded_shares currency index shares parts) ≡ pos (total_from index parts)
unfolding paid sum_by funded_shares ◌+ℤ◌
paid-funded_shares currency index [] parts once none_after =
    ground (arith, total_from-end index parts (λ j k. none_after j (omega arith)))
paid-funded_shares currency index (share ∷ shares) parts once none_after = ground (
  arith,
  total_from-suc index parts (once index),
  paid-funded_shares currency (suc index) shares parts once (λ j k. none_after j (omega arith)),
)

occurrences-settled :
    (env : Env) (value j : ℕ) (shares : List FundingShare)
    → occurrences j (settled env value shares) ≡ (if leb (suc j) (length shares) then 1 else 0)
unfolding settled
occurrences-settled env value j shares =
    let parts = allocations_from value 0 shares in
    occurrences-hand_out j (value - allocated parts) (sort (rank env) parts)
    ∙ (occurrences-sort (rank env) j parts
        ∙ (occurrences-allocations_from value j 0 shares ∙ ground arith))

paid-settled :
    (env : Env) (currency : String) (value : ℕ) (shares : List FundingShare)
    → total_bps shares ≡ 10000
    → paid (funded_shares currency 0 shares (settled env value shares)) ≡ pos value
paid-settled env currency value shares h =
    paid-funded_shares currency 0 shares (settled env value shares)
      (λ j. ground (arith, occurrences-settled env value j shares))
      (λ j k. ground (arith, occurrences-settled env value j shares))
    ∙ ap pos (total_from-zero (settled env value shares) ∙ allocated-settled env value shares h)

-- the money that an effect gives away, where it names an amount
unfoldable pub value_of : RewardEffect → Option Money
value_of (discount value _) = some value
value_of (free_item _ value) = some value
value_of (custom_effect _ _) = none

summed_bps :
    (shares : List FundingShare)
    → sum_by (λ share. pos share.share_bps) shares ≡ pos (total_bps shares)
unfolding sum_by total_bps ◌+ℤ◌
summed_bps [] = refl
summed_bps (share ∷ shares) = ground (arith, summed_bps shares)

-- the check of the shares, which a program passes before an engine takes it
validated_bps :
    (shares : List FundingShare) → validate_funding_shares shares ≡ true → total_bps shares ≡ 10000
unfolding validate_funding_shares
validated_bps shares h = ground (arith, h, summed_bps shares)

-- Where a reward's effect is worth an amount that is not negative and its funding shares pass
-- `validate_funding_shares`, the amounts that the funding parties pay add up to what the effect is
-- worth.
pub paid-funding_allocations :
    (env : Env) (reward : RewardDefinition) (currency : String) (value : ℕ)
    → value_of reward.effect ≡ some (record { amount = pos value; currency = currency })
    → validate_funding_shares reward.funding ≡ true
    → paid (funding_allocations env reward) ≡ pos value
unfolding funding_allocations value_of
paid-funding_allocations env reward currency value worth h =
    ground (arith, paid-settled env currency value reward.funding (validated_bps reward.funding h))
