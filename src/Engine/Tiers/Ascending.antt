-- ===== src/Engine/Tiers/Ascending.antt =====
-- Tiers in the order of their minimums, and the last one that an amount reaches.
use loyalty_interchange_prot.Base.{
  ℕ, zero, suc, ◌+◌, ◌≤◌, ◌≡◌, refl, ◌∙◌, ◌⊎◌, inl, some, List, [], ◌∷◌, get_elem?, leb, arith,
  if◌then◌else◌,
}
use loyalty_interchange_prot.Base.Sort.{sort, sorted_insert}
use loyalty_interchange_prot.Protocol.Program.{TierDefinition}
use loyalty_interchange_prot.Engine.Tiers.{tier_order, last_reached}

-- minimums that do not fall, from a bound on
unfoldable pub IsAscending : ℕ → List TierDefinition → Type 0
IsAscending low [] = Unit {0}
IsAscending low (tier ∷ tiers) = (low ≤ tier.minimum) × IsAscending tier.minimum tiers

sorted_insert-IsAscending :
    (low : ℕ) (tier : TierDefinition) (tiers : List TierDefinition)
    → low ≤ tier.minimum
    → IsAscending low tiers
    → IsAscending low (sorted_insert tier_order tier tiers)
unfolding IsAscending sorted_insert
sorted_insert-IsAscending low tier [] h k = (h, tt)
sorted_insert-IsAscending low tier (other ∷ tiers) h k =
    ground (arith, h, k, sorted_insert-IsAscending other.minimum tier tiers)

pub sort-IsAscending : (tiers : List TierDefinition) → IsAscending 0 (sort tier_order tiers)
unfolding IsAscending sort
sort-IsAscending [] = tt
sort-IsAscending (tier ∷ tiers) =
    sorted_insert-IsAscending 0 tier (sort tier_order tiers) (omega arith) (sort-IsAscending tiers)

ascending_from :
    (low i : ℕ) (tiers : List TierDefinition) (tier : TierDefinition)
    → IsAscending low tiers
    → get_elem? tiers i ≡ some tier
    → low ≤ tier.minimum
unfolding IsAscending
ascending_from low i [] tier k h = ground arith
ascending_from low zero (other ∷ tiers) tier k h = ground (arith, k, h)
ascending_from low (suc i) (other ∷ tiers) tier k h =
    ground (arith, k, ascending_from other.minimum i tiers tier k.1 h)

pub ascending_between :
    (low i j : ℕ) (tiers : List TierDefinition) (a b : TierDefinition)
    → IsAscending low tiers
    → get_elem? tiers i ≡ some a
    → get_elem? tiers j ≡ some b
    → i ≤ j
    → a.minimum ≤ b.minimum
unfolding IsAscending
ascending_between low i j [] a b k g h le = ground arith
ascending_between low zero zero (other ∷ tiers) a b k g h le = ground arith
ascending_between low zero (suc j) (other ∷ tiers) a b k g h le =
    ground (arith, k, g, ascending_from other.minimum j tiers b k.1 h)
ascending_between low (suc i) zero (other ∷ tiers) a b k g h le = ground arith
ascending_between low (suc i) (suc j) (other ∷ tiers) a b k g h le =
    ascending_between other.minimum i j tiers a b k.1 g h (omega arith)

-- the index only grows
last_reached_lower :
    (amount current index : ℕ) (tiers : List TierDefinition)
    → current ≤ index
    → current ≤ last_reached amount current index tiers
unfolding last_reached
last_reached_lower amount current index [] h = omega arith
last_reached_lower amount current index (tier ∷ tiers) h = ground (
  arith,
  last_reached_lower amount current (suc index) tiers,
  last_reached_lower amount index (suc index) tiers,
)

-- A tier that is reached does not stand after the last one.
pub reached_before :
    (amount current index j : ℕ) (tiers : List TierDefinition) (tier : TierDefinition)
    → get_elem? tiers j ≡ some tier
    → tier.minimum ≤ amount
    → index + j ≤ last_reached amount current index tiers
unfolding last_reached
reached_before amount current index j [] tier h le = ground arith
reached_before amount current index zero (other ∷ tiers) tier h le =
    ground (arith, h, last_reached_lower amount index (suc index) tiers)
reached_before amount current index (suc j) (other ∷ tiers) tier h le = ground (
  arith,
  reached_before amount (if leb other.minimum amount then index else current) (suc index) j tiers
      tier h le,
)

-- The last one is the one to start with, or stands in the list.
last_reached_is :
    (amount current index : ℕ) (tiers : List TierDefinition)
    → (last_reached amount current index tiers ≡ current)
      ⊎ (index ≤ last_reached amount current index tiers)
unfolding last_reached
last_reached_is amount current index [] = inl refl
last_reached_is amount current index (tier ∷ tiers) = ground (
  arith,
  last_reached_is amount current (suc index) tiers,
  last_reached_lower amount index (suc index) tiers,
)

-- The last one is reached, where the one to start with stands before the list.
reached_at :
    (amount current index j : ℕ) (tiers : List TierDefinition) (tier : TierDefinition)
    → suc current ≤ index
    → last_reached amount current index tiers ≡ index + j
    → get_elem? tiers j ≡ some tier
    → tier.minimum ≤ amount
unfolding last_reached
reached_at amount current index j [] tier before at h = ground arith
reached_at amount current index zero (other ∷ tiers) tier before at h =
    ground (arith, h, at, last_reached_is amount current (suc index) tiers)
reached_at amount current index (suc j) (other ∷ tiers) tier before at h =
    reached_at amount (if leb other.minimum amount then index else current) (suc index) j tiers tier
      (ground arith) (at ∙ omega arith) h

-- The tier at the last index reached, where the first tier starts at zero.
pub current_reached :
    (amount : ℕ) (i : ℕ) (first : TierDefinition) (tiers : List TierDefinition)
    (tier : TierDefinition)
    → first.minimum ≡ 0
    → last_reached amount 0 0 (first ∷ tiers) ≡ i
    → get_elem? (first ∷ tiers) i ≡ some tier
    → tier.minimum ≤ amount
unfolding last_reached
current_reached amount zero first tiers tier zero_first at h = ground (arith, h)
current_reached amount (suc i) first tiers tier zero_first at h =
    reached_at amount 0 1 i tiers tier (omega arith) (ground (arith, at)) h
