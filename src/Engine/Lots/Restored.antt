-- ===== src/Engine/Lots/Restored.antt =====
-- Lots that are consumed and given back.
use loyalty_interchange_prot.Base.{
  ℕ, ◌+◌, ◌-◌, String, ◌≡◌, refl, ap, ◌∙◌, true, false, none, some, List, [], ◌∷◌, str_eq_iff,
  get_or, arith,
}
use loyalty_interchange_prot.Base.Assoc.{
  lookup, insert, erase, lookup-insert_self, lookup-insert_ne, insert-insert_self, insert_same,
  insert-insert_ne, erase-insert, erase_absent,
}
use loyalty_interchange_prot.Exec.{returned, pure, gets, modify, ◌>>=◌, branch, do_if}
use loyalty_interchange_prot.Protocol.Primitives.{LoyaltyUnit}
use loyalty_interchange_prot.Engine.State.{Env, State, PointLot, Consumption}
use loyalty_interchange_prot.Engine.Lots.Keyed.{
  IsKeyed, IsHeld, open_lots-IsKeyed, filter-IsHeld, sort-IsHeld, IsKeyed-IsHeld,
}
use loyalty_interchange_prot.Engine.Lots.{
  Lots, with_remaining, min_ℕ, consume_loop, restore_loop, restore_point_lots, open_lots,
  consume_point_lots, lot_order,
}

module _ (k : String) (v : PointLot) where
  -- a write under a key that the loop does not touch
  consume_loop-insert :
      (n : ℕ) (rest : List (String × PointLot)) (lots : Lots) (x : PointLot)
      → lookup k rest ≡ none
      → lookup k lots ≡ some x
      → ((consume_loop n rest (insert k v lots)).0 ≡ insert k v (consume_loop n rest lots).0)
        × ((consume_loop n rest (insert k v lots)).1 ≡ (consume_loop n rest lots).1)
  unfolding consume_loop lookup
  consume_loop-insert n [] lots x h g = (refl, refl)
  consume_loop-insert n ((j, lot) ∷ rest) lots x h g =
      let taken = min_ℕ lot.remaining n in
      let left : PointLot = with_remaining lot (lot.remaining - taken) in
      ground (
        arith,
        str_eq_iff j k,
        insert-insert_ne k j v left x lots,
        lookup-insert_ne j k left lots,
        consume_loop-insert (n - taken) rest (insert j left lots) x,
      )

lookup-consume_loop :
    (k : String) (n : ℕ) (rest : List (String × PointLot)) (lots : Lots)
    → lookup k rest ≡ none
    → lookup k (consume_loop n rest lots).0 ≡ lookup k lots
unfolding consume_loop lookup
lookup-consume_loop k n [] lots h = refl
lookup-consume_loop k n ((j, lot) ∷ rest) lots h =
    let taken = min_ℕ lot.remaining n in
    let left : PointLot = with_remaining lot (lot.remaining - taken) in
    ground (
      arith,
      str_eq_iff j k,
      lookup-insert_ne j k left lots,
      lookup-consume_loop k (n - taken) rest (insert j left lots),
    )

restored_lot :
    (lot : PointLot) (n : ℕ)
    → with_remaining lot (lot.remaining - min_ℕ lot.remaining n + min_ℕ lot.remaining n) ≡ lot
restored_lot lot n =
    let exact : lot.remaining - min_ℕ lot.remaining n + min_ℕ lot.remaining n ≡ lot.remaining =
      ground arith in
    ap (with_remaining lot) exact

-- a lot that is given back is as it was, and so is the map
insert_restored :
    (j : String) (left lot : PointLot) (lots : Lots)
    → lookup j lots ≡ some lot
    → insert j lot (insert j left lots) ≡ lots
insert_restored j left lot lots h = insert-insert_self j lot left lots ∙ insert_same j lot lots h

restore-consume_loop :
    (n : ℕ) (rest : List (String × PointLot)) (lots : Lots)
    → IsKeyed rest
    → IsHeld rest lots
    → restore_loop (consume_loop n rest lots).1 (consume_loop n rest lots).0 ≡ (true, lots)
unfolding consume_loop restore_loop IsKeyed IsHeld
restore-consume_loop n [] lots k h = refl
restore-consume_loop n ((j, lot) ∷ rest) lots k h =
    let taken = min_ℕ lot.remaining n in
    let left : PointLot = with_remaining lot (lot.remaining - taken) in
    let lots' = (consume_loop (n - taken) rest lots).0 in
    ground (
      arith,
      k,
      h,
      restored_lot lot n,
      consume_loop-insert j left (n - taken) rest lots lot,
      lookup-insert_self j left lots',
      insert_restored j left lot lots',
      lookup-consume_loop j (n - taken) rest lots,
      restore-consume_loop (n - taken) rest lots,
    )

open_lots-IsHeld :
    (env : Env) (s : State) (member_id : String) (unit : LoyaltyUnit)
    → IsKeyed s.point_lots
    → IsHeld (open_lots env s member_id unit) s.point_lots
unfolding open_lots
open_lots-IsHeld env s member_id unit k =
    sort-IsHeld (lot_order env) s.point_lots _
      (filter-IsHeld s.point_lots _ s.point_lots (IsKeyed-IsHeld s.point_lots k))

-- giving back, when it is known what was consumed and that its lots are all there
restored :
    (id : String) (u : State) (consumed : List Consumption) (lots : Lots)
    → get_or (lookup id u.point_lot_consumptions) [] ≡ consumed
    → restore_loop consumed u.point_lots ≡ (true, lots)
    → restore_point_lots id u ≡ (
      returned tt,
      record u { point_lots = lots; point_lot_consumptions = erase id u.point_lot_consumptions },
    )
unfolding restore_point_lots ◌>>=◌ gets modify pure do_if
restored id u consumed lots h g = ground (arith, ap (λ c. restore_loop c u.point_lots) h ∙ g)

-- the end of the two calls, when what was consumed is known
given_back :
    (id : String) (s : State) (consumed : List Consumption) (lots : Lots)
    → restore_loop consumed lots ≡ (true, s.point_lots)
    → lookup id s.point_lot_consumptions ≡ none
    → (do_if
            (elim consumed [ [] ↦ false | _ ∷ _ ↦ true ])
            (modify (λ s. record s {
              point_lot_consumptions = insert id consumed s.point_lot_consumptions;
            }))
          >>= λ _. restore_point_lots id)
        (record s { point_lots = lots })
      ≡ (returned tt, s)
unfolding restore_point_lots ◌>>=◌ gets modify pure do_if
given_back id s [] lots h g =
    restored id (record s { point_lots = lots }) [] lots (ap (λ o. get_or o []) g) refl
    ∙ ap
        (λ m. (
          returned tt,
          record s { point_lots = m; point_lot_consumptions = erase id s.point_lot_consumptions },
        ))
        (ap (λ e. e.1) h)
    ∙ ap (λ m. (returned tt, record s { point_lot_consumptions = m }))
        (erase_absent id s.point_lot_consumptions g)
given_back id s (c ∷ rest) lots h g =
    restored id
      (record s {
        point_lots = lots;
        point_lot_consumptions = insert id (c ∷ rest) s.point_lot_consumptions;
      })
      (c ∷ rest) s.point_lots
      (ap (λ o. get_or o []) (lookup-insert_self id (c ∷ rest) s.point_lot_consumptions)) h
    ∙ ap (λ m. (returned tt, record s { point_lot_consumptions = m }))
        (erase-insert id (c ∷ rest) s.point_lot_consumptions g)

-- Where each lot stands under the entry id that it names and nothing is recorded under the
-- consumption's id, consuming points of a unit, however many, and then giving back what was
-- consumed returns, and leaves the state as it was.
pub restore_point_lots-consume_point_lots :
    (env : Env) (member_id : String) (unit : LoyaltyUnit) (amount : ℕ) (id : String) (s : State)
    → IsKeyed s.point_lots
    → lookup id s.point_lot_consumptions ≡ none
    → (consume_point_lots env member_id unit amount (some id) >>= λ _. restore_point_lots id) s
      ≡ (returned tt, s)
unfolding consume_point_lots restore_point_lots open_lots ◌>>=◌ gets modify pure branch do_if
restore_point_lots-consume_point_lots env member_id unit amount id s k h =
    let candidates = open_lots env s member_id unit in
    given_back id s (consume_loop amount candidates s.point_lots).1
      (consume_loop amount candidates s.point_lots).0
      (restore-consume_loop amount candidates s.point_lots
        (open_lots-IsKeyed env s member_id unit k) (open_lots-IsHeld env s member_id unit k))
      h
