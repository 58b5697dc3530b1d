-- ===== src/Engine/Lots/Keyed.antt =====
-- Lots that stand under the entry ids that they name, and what filters and sorts keep of that.
use loyalty_interchange_prot.Base.{
  ℕ, ◌-◌, ◌+◌, String, ◌≡◌, refl, Bool, Option, Option-cases, inl, inr, none, some, List, [], ◌∷◌,
  Ordering, filter, str_eq_iff, arith,
}
use loyalty_interchange_prot.Base.Assoc.{lookup, insert, lookup-insert_ne}
use loyalty_interchange_prot.Base.Sort.{sort, sorted_insert}
use loyalty_interchange_prot.Engine.State.{Env, State, PointLot, Consumption}
use loyalty_interchange_prot.Protocol.Primitives.{LoyaltyUnit}
use loyalty_interchange_prot.Engine.Lots.{
  Lots, with_remaining, min_ℕ, consume_loop, restore_loop, open_lots, expired_lots, lot_order,
}

-- each lot stands under the entry id that it names, and under no other key
unfoldable pub IsKeyed : Lots → Type 0
IsKeyed [] = Unit {0}
IsKeyed ((k, lot) ∷ rest) = (lot.entry_id ≡ k) × (lookup k rest ≡ none) × IsKeyed rest

-- each listed lot is the one that stands under its key
unfoldable pub IsHeld : List (String × PointLot) → Lots → Type 0
IsHeld [] lots = Unit {0}
IsHeld ((k, lot) ∷ rest) lots = (lookup k lots ≡ some lot) × IsHeld rest lots

module _ (lots : Lots) (p : String × PointLot → Bool) where
  pub lookup-filter : (k : String) (m : Lots) → lookup k m ≡ none → lookup k (filter p m) ≡ none
  unfolding lookup
  lookup-filter k [] h = refl
  lookup-filter k ((j, lot) ∷ m) h = ground (arith, lookup-filter k m)

  pub filter-IsKeyed : (m : Lots) → IsKeyed m → IsKeyed (filter p m)
  unfolding IsKeyed
  filter-IsKeyed [] k = tt
  filter-IsKeyed ((j, lot) ∷ m) k = ground (arith, k, filter-IsKeyed m, lookup-filter j m)

  pub filter-IsHeld : (m : Lots) → IsHeld m lots → IsHeld (filter p m) lots
  unfolding IsHeld
  filter-IsHeld [] h = tt
  filter-IsHeld ((j, lot) ∷ m) h = ground (arith, h, filter-IsHeld m)

module _ (cmp : String × PointLot → String × PointLot → Ordering) where
  lookup-sorted_insert :
      (k j : String) (lot : PointLot) (m : Lots)
      → lookup k ((j, lot) ∷ m) ≡ none
      → lookup k (sorted_insert cmp (j, lot) m) ≡ none
  unfolding lookup sorted_insert
  lookup-sorted_insert k j lot [] h = h
  lookup-sorted_insert k j lot ((i, other) ∷ m) h = ground (arith, lookup-sorted_insert k j lot m)

  pub lookup-sort : (k : String) (m : Lots) → lookup k m ≡ none → lookup k (sort cmp m) ≡ none
  unfolding lookup sort
  lookup-sort k [] h = refl
  lookup-sort k ((j, lot) ∷ m) h =
      ground (arith, lookup-sort k m, lookup-sorted_insert k j lot (sort cmp m))

  sorted_insert-IsKeyed :
      (j : String) (lot : PointLot) (m : Lots)
      → lot.entry_id ≡ j
      → lookup j m ≡ none
      → IsKeyed m
      → IsKeyed (sorted_insert cmp (j, lot) m)
  unfolding IsKeyed lookup sorted_insert
  sorted_insert-IsKeyed j lot [] e h k = (e, refl, tt)
  sorted_insert-IsKeyed j lot ((i, other) ∷ m) e h k = ground (
    arith,
    e,
    h,
    k,
    str_eq_iff i j,
    str_eq_iff j i,
    sorted_insert-IsKeyed j lot m,
    lookup-sorted_insert i j lot m,
  )

  pub sort-IsKeyed : (m : Lots) → IsKeyed m → IsKeyed (sort cmp m)
  unfolding IsKeyed sort
  sort-IsKeyed [] k = tt
  sort-IsKeyed ((j, lot) ∷ m) k =
      sorted_insert-IsKeyed j lot (sort cmp m) k.0 (lookup-sort j m k.1) (sort-IsKeyed m k.2)

  lookup-sorted_insert_keyed :
      (k j : String) (lot : PointLot) (m : Lots)
      → lookup j m ≡ none
      → lookup k (sorted_insert cmp (j, lot) m) ≡ lookup k ((j, lot) ∷ m)
  unfolding lookup sorted_insert
  lookup-sorted_insert_keyed k j lot [] h = refl
  lookup-sorted_insert_keyed k j lot ((i, other) ∷ m) h =
      ground (
        arith,
        str_eq_iff i j,
        str_eq_iff i k,
        str_eq_iff j k,
        lookup-sorted_insert_keyed k j lot m,
      )

  pub lookup-sort_keyed : (k : String) (m : Lots) → IsKeyed m → lookup k (sort cmp m) ≡ lookup k m
  unfolding IsKeyed lookup sort
  lookup-sort_keyed k [] h = refl
  lookup-sort_keyed k ((j, lot) ∷ m) h = ground (
    arith,
    h,
    lookup-sort j m,
    lookup-sort_keyed k m,
    lookup-sorted_insert_keyed k j lot (sort cmp m),
  )

  module _ (lots : Lots) where
    sorted_insert-IsHeld :
        (j : String) (lot : PointLot) (m : Lots)
        → lookup j lots ≡ some lot
        → IsHeld m lots
        → IsHeld (sorted_insert cmp (j, lot) m) lots
    unfolding IsHeld sorted_insert
    sorted_insert-IsHeld j lot [] e h = (e, tt)
    sorted_insert-IsHeld j lot ((i, other) ∷ m) e h =
        ground (arith, e, h, sorted_insert-IsHeld j lot m)

    pub sort-IsHeld : (m : Lots) → IsHeld m lots → IsHeld (sort cmp m) lots
    unfolding IsHeld sort
    sort-IsHeld [] h = tt
    sort-IsHeld ((j, lot) ∷ m) h = sorted_insert-IsHeld j lot (sort cmp m) h.0 (sort-IsHeld m h.1)

-- a map holds its own entries
insert-IsHeld :
    (j : String) (v : PointLot) (m lots : Lots)
    → lookup j m ≡ none
    → IsHeld m lots
    → IsHeld m ((j, v) ∷ lots)
unfolding IsHeld lookup
insert-IsHeld j v [] lots h g = tt
insert-IsHeld j v ((i, lot) ∷ m) lots h g =
    ground (arith, g, str_eq_iff i j, str_eq_iff j i, insert-IsHeld j v m lots)

pub IsKeyed-IsHeld : (m : Lots) → IsKeyed m → IsHeld m m
unfolding IsKeyed IsHeld lookup
IsKeyed-IsHeld [] k = tt
IsKeyed-IsHeld ((j, lot) ∷ m) k =
    (ground (arith, str_eq_iff j j), insert-IsHeld j lot m m k.1 (IsKeyed-IsHeld m k.2))

pub insert-IsKeyed :
    (j : String) (lot : PointLot) (m : Lots)
    → lot.entry_id ≡ j
    → IsKeyed m
    → IsKeyed (insert j lot m)
unfolding IsKeyed lookup insert
insert-IsKeyed j lot [] e k = (e, refl, tt)
insert-IsKeyed j lot ((i, other) ∷ m) e k = ground (
  arith,
  e,
  k,
  str_eq_iff i j,
  str_eq_iff j i,
  insert-IsKeyed j lot m,
  lookup-insert_ne j i lot m,
)

pub lookup-IsKeyed :
    (j : String) (m : Lots) (lot : PointLot) → IsKeyed m → lookup j m ≡ some lot → lot.entry_id ≡ j
unfolding IsKeyed lookup
lookup-IsKeyed j [] lot k h = ground arith
lookup-IsKeyed j ((i, other) ∷ m) lot k h =
    ground (arith, k, h, str_eq_iff i j, lookup-IsKeyed j m lot)

-- The three loops over lots keep each lot under its entry id.
pub consume_loop-IsKeyed :
    (n : ℕ) (rest : List (String × PointLot)) (lots : Lots)
    → IsKeyed rest
    → IsKeyed lots
    → IsKeyed (consume_loop n rest lots).0
unfolding IsKeyed consume_loop
consume_loop-IsKeyed n [] lots k h = h
consume_loop-IsKeyed n ((j, lot) ∷ rest) lots k h =
    let taken = min_ℕ lot.remaining n in
    let left : PointLot = with_remaining lot (lot.remaining - taken) in
    ground (
      arith,
      k,
      h,
      insert-IsKeyed j left lots k.0 h,
      consume_loop-IsKeyed (n - taken) rest (insert j left lots) k.2,
    )

pub restore_loop-IsKeyed :
    (items : List Consumption) (lots : Lots) → IsKeyed lots → IsKeyed (restore_loop items lots).1
unfolding restore_loop
restore_loop-IsKeyed [] lots h = h
restore_loop-IsKeyed (item ∷ items) lots h = elim (Option-cases (lookup item.entry_id lots)) [
  | inl e ↦ rw (restore_loop, e) h
  | inr (lot, e) ↦
      rw (restore_loop, e)
        (restore_loop-IsKeyed items _ (
          insert-IsKeyed item.entry_id (with_remaining lot (lot.remaining + item.amount)) lots
            (lookup-IsKeyed item.entry_id lots lot h e) h))
]

pub open_lots-IsKeyed :
    (env : Env) (s : State) (member_id : String) (unit : LoyaltyUnit)
    → IsKeyed s.point_lots
    → IsKeyed (open_lots env s member_id unit)
unfolding open_lots
open_lots-IsKeyed env s member_id unit k =
    sort-IsKeyed (lot_order env) _ (filter-IsKeyed s.point_lots _ s.point_lots k)

pub expired_lots-IsKeyed :
    (env : Env) (s : State) (member_id : Option String) (unit : Option LoyaltyUnit)
    → IsKeyed s.point_lots
    → IsKeyed (expired_lots env s member_id unit)
unfolding expired_lots
expired_lots-IsKeyed env s member_id unit k =
    sort-IsKeyed (lot_order env) _ (filter-IsKeyed s.point_lots _ s.point_lots k)
