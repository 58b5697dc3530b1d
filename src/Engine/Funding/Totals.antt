-- ===== src/Engine/Funding/Totals.antt =====
-- What the funding parties pay together.
use loyalty_interchange_prot.Base.{
  ℕ, suc, ◌+◌, ◌-◌, ◌*◌, ◌≤◌, ◌≡◌, refl, ap, List, [], ◌∷◌, Ordering, length, arith,
}
use loyalty_interchange_prot.Base.Sort.{sort, sorted_insert}
use loyalty_interchange_prot.Protocol.Primitives.{FundingShare}
use loyalty_interchange_prot.Engine.State.{Env}
use loyalty_interchange_prot.Engine.Funding.{
  Allocation, allocations_from, allocated, hand_out, rank, settled,
}

-- the shares together, in basis points
unfoldable pub total_bps : List FundingShare → ℕ
total_bps [] = 0
total_bps (share ∷ shares) = share.share_bps + total_bps shares

-- Rounding down takes less than one unit from each share.
allocated_bounds :
    (value index : ℕ) (shares : List FundingShare)
    → (10000 * allocated (allocations_from value index shares) ≤ value * total_bps shares)
      × (value * total_bps shares
          ≤ 10000 * allocated (allocations_from value index shares)
            + 9999 * length (allocations_from value index shares))
unfolding allocations_from allocated total_bps
allocated_bounds value index [] = (omega arith, omega arith)
allocated_bounds value index (share ∷ shares) =
    let (low, high) = allocated_bounds value (suc index) shares in (omega arith, omega arith)

module _ (cmp : Allocation → Allocation → Ordering) where
  sorted_insert-keeps :
      (a : Allocation) (parts : List Allocation)
      → (allocated (sorted_insert cmp a parts) ≡ a.amount + allocated parts)
        × (length (sorted_insert cmp a parts) ≡ suc (length parts))
  unfolding sorted_insert allocated
  sorted_insert-keeps a [] = (refl, refl)
  sorted_insert-keeps a (b ∷ parts) = ground (arith, sorted_insert-keeps a parts)

  sort-keeps :
      (parts : List Allocation)
      → (allocated (sort cmp parts) ≡ allocated parts) × (length (sort cmp parts) ≡ length parts)
  unfolding sort allocated
  sort-keeps [] = (refl, refl)
  sort-keeps (a ∷ parts) = ground (arith, sort-keeps parts, sorted_insert-keeps a (sort cmp parts))

-- Units are handed out while parts are left.
allocated-hand_out :
    (n : ℕ) (parts : List Allocation)
    → n ≤ length parts
    → allocated (hand_out n parts) ≡ allocated parts + n
unfolding hand_out allocated
allocated-hand_out n [] h = omega arith
allocated-hand_out n (a ∷ parts) h = ground (arith, allocated-hand_out (n - 1) parts)

-- Where the shares add up to 10000 basis points, the parts of a value add up to the value.
pub allocated-settled :
    (env : Env) (value : ℕ) (shares : List FundingShare)
    → total_bps shares ≡ 10000
    → allocated (settled env value shares) ≡ value
unfolding settled
allocated-settled env value shares h =
    let parts = allocations_from value 0 shares in
    let (low, high) = allocated_bounds value 0 shares in
    let (same, as_long) = sort-keeps (rank env) parts in
    let exact : value * total_bps shares ≡ value * 10000 = ap (λ b. value * b) h in
    let handed =
      allocated-hand_out (value - allocated parts) (sort (rank env) parts) (omega arith) in
    omega arith
