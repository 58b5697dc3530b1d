-- ===== src/Engine/Funding.antt =====
-- Who pays for a reward: `fundingAllocations`, by largest remainders.
pub mod Totals
pub mod Paid
use loyalty_interchange_prot.Base.{
  ℕ, suc, ◌+◌, ◌-◌, ◌*◌, ◌/◌, ◌%◌, String, ◌⧺◌, some, List, [], ◌∷◌, Ordering, compare, ◌==◌,
  if◌then◌else◌,
}
use loyalty_interchange_prot.Base.Int.{pos, pos_part}
use loyalty_interchange_prot.Base.Sort.{sort, then_by}
use loyalty_interchange_prot.Protocol.Primitives.{FundingShare, party_type_text}
use loyalty_interchange_prot.Protocol.Loyalty.{discount, free_item, custom_effect}
use loyalty_interchange_prot.Protocol.Program.{RewardDefinition}
use loyalty_interchange_prot.Engine.State.{Env}

-- one share's part: its place, its whole amount, what is left of it, and its name for ties
pub record Allocation : Type 0 where
  pub index : ℕ
  pub amount : ℕ
  pub remainder : ℕ
  pub tie_break : String

-- each share's part of `value`; `index` is the place of the list's head
unfoldable pub allocations_from : ℕ → ℕ → List FundingShare → List Allocation
allocations_from value index [] = []
allocations_from value index (share ∷ shares) =
    record {
      index = index;
      amount = value * share.share_bps / 10000;
      remainder = value * share.share_bps % 10000;
      tie_break = (party_type_text share.party_type ⧺ ":") ⧺ share.party_id;
    }
    ∷ allocations_from value (suc index) shares

unfoldable pub allocated : List Allocation → ℕ
allocated [] = 0
allocated (a ∷ rest) = a.amount + allocated rest

-- largest remainder first
unfoldable pub rank : Env → Allocation → Allocation → Ordering
rank env left right =
    then_by (compare right.remainder left.remainder)
      (env.locale_compare left.tie_break right.tie_break)

-- the loop over the ranked parts: one unit each, until none is left
unfoldable pub hand_out : ℕ → List Allocation → List Allocation
hand_out unallocated [] = []
hand_out unallocated (a ∷ rest) =
    let given = hand_out (unallocated - 1) rest in
    if unallocated == 0 then a ∷ rest else record a { amount = a.amount + 1 } ∷ given

-- `allocations[index]`, found among the ranked parts, which are the same objects
unfoldable pub amount_at : ℕ → List Allocation → ℕ
amount_at index [] = 0
amount_at index (a ∷ rest) = if a.index == index then a.amount else amount_at index rest

unfoldable pub funded_shares : String → ℕ → List FundingShare → List Allocation → List FundingShare
funded_shares currency index [] parts = []
funded_shares currency index (share ∷ shares) parts =
    record share {
      amount = some (record { amount = pos (amount_at index parts); currency = currency });
    }
    ∷ funded_shares currency (suc index) shares parts

-- the parts after the hand-out, for a value in minor units
unfoldable pub settled : Env → ℕ → List FundingShare → List Allocation
unfolding allocations_from allocated rank hand_out
settled env value shares =
    let allocations = allocations_from value 0 shares in
    hand_out (value - allocated allocations) (sort (rank env) allocations)

-- Money of an effect is not negative, as `assertProgram` has it.
unfoldable pub funding_allocations : Env → RewardDefinition → List FundingShare
unfolding settled funded_shares amount_at
funding_allocations env reward = elim reward.effect [
  | discount value _ ↦
      funded_shares value.currency 0 reward.funding
        (settled env (pos_part value.amount) reward.funding)
  | free_item _ value ↦
      funded_shares value.currency 0 reward.funding
        (settled env (pos_part value.amount) reward.funding)
  | custom_effect _ _ ↦ reward.funding
]
