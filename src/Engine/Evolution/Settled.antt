-- ===== src/Engine/Evolution/Settled.antt =====
-- What stays put: the methods that a capture or a reversal calls before it writes the reservation
-- leave a reservation alone that is not due to expire.
use loyalty_interchange_prot.Base.{ℕ, String, ◌≡◌, refl, Option, some, List}
use loyalty_interchange_prot.Base.Assoc.{lookup, lookup-map_values}
use loyalty_interchange_prot.Exec.{modify}
use loyalty_interchange_prot.Exec.Follows.{IsPreorder, Follows, follows_rules}
use loyalty_interchange_prot.Protocol.Primitives.{LoyaltyUnit}
use loyalty_interchange_prot.Protocol.Loyalty.{Reservation, IssuedReward}
use loyalty_interchange_prot.Engine.State.{Env, State, PointLot, Consumption}
use loyalty_interchange_prot.Engine.Ledger.{LedgerInput, assert_account_unit, add_ledger}
use loyalty_interchange_prot.Engine.Lots.{
  Lots, consume_point_lots, restore_point_lots, expire_lot, expire_point_lots,
}
use loyalty_interchange_prot.Engine.Balances.{expire_reservation, expire_all_reservations, balance}
use loyalty_interchange_prot.Engine.Redemption.{
  debit, give_back, reissue, undo_capture, put_issued_reward,
}

module _ (env : Env) (key : String) (r : Reservation) (settled : expire_reservation env r ≡ r) where
  -- the reservation under the key is still there as it was
  abbrev pub Stays : State → State → Type 0
  Stays s t = lookup key s.reservations ≡ some r → lookup key t.reservations ≡ some r

  pub Stays-preorder : IsPreorder Stays
  Stays-preorder = record { reflexive = λ s h. h; transitive = λ s t u f g h. g (f h) }

  pub lots-Stays : (f : State → Lots) → Follows Stays (modify (λ s. record s { point_lots = f s }))
  unfolding modify
  lots-Stays f = record { from = λ s h. h }

  pub consumptions-Stays :
      (f : State → List (String × List Consumption))
      → Follows Stays (modify (λ s. record s { point_lot_consumptions = f s }))
  unfolding modify
  consumptions-Stays f = record { from = λ s h. h }

  pub add_ledger-Stays : (input : LedgerInput) → Follows Stays (add_ledger env input)
  unfolding add_ledger
  add_ledger-Stays input = record { from = λ s h. h }

  pub expire_all-Stays : Follows Stays (expire_all_reservations env)
  unfolding expire_all_reservations modify
  expire_all-Stays = record { from = λ s h. rw (lookup-map_values, h, settled) refl }

  pub assert_account_unit-Stays : (unit : LoyaltyUnit) → Follows Stays (assert_account_unit unit)
  unfolding assert_account_unit
  assert_account_unit-Stays unit = search (follows_rules, Stays-preorder) depth 8

  pub consume-Stays :
      (m : String) (unit : LoyaltyUnit) (n : ℕ) (id : Option String)
      → Follows Stays (consume_point_lots env m unit n id)
  unfolding consume_point_lots
  consume-Stays m unit n id =
      search (follows_rules, Stays-preorder, lots-Stays, consumptions-Stays) depth 12

  pub restore-Stays : (id : String) → Follows Stays (restore_point_lots id)
  unfolding restore_point_lots
  restore-Stays id = search (follows_rules, Stays-preorder, lots-Stays, consumptions-Stays) depth 12

  expire_lot-Stays : (e : String × PointLot) → Follows Stays (expire_lot env e)
  unfolding expire_lot
  expire_lot-Stays (k, lot) =
      search (follows_rules, Stays-preorder, lots-Stays, add_ledger-Stays) depth 12

  pub expire_lots-Stays :
      (m : Option String) (unit : Option LoyaltyUnit) → Follows Stays (expire_point_lots env m unit)
  unfolding expire_point_lots
  expire_lots-Stays m unit = search (follows_rules, Stays-preorder, expire_lot-Stays) depth 8

  pub balance-Stays : (m : String) (unit : LoyaltyUnit) → Follows Stays (balance env m unit)
  unfolding balance
  balance-Stays m unit =
      search (follows_rules, Stays-preorder, expire_all-Stays, expire_lots-Stays) depth 8

  pub debit-Stays : (x : Reservation) → Follows Stays (debit env x)
  unfolding debit
  debit-Stays x = search (follows_rules, Stays-preorder, consume-Stays, add_ledger-Stays) depth 8

  give_back-Stays : (x : Reservation) → Follows Stays (give_back env x)
  unfolding give_back
  give_back-Stays x =
      search (follows_rules, Stays-preorder, restore-Stays, add_ledger-Stays, expire_lots-Stays)
        depth 8

  put_issued-Stays : (id : String) (x : IssuedReward) → Follows Stays (put_issued_reward id x)
  unfolding put_issued_reward modify
  put_issued-Stays id x = record { from = λ s h. h }

  reissue-Stays : (id : Option String) → Follows Stays (reissue env id)
  unfolding reissue
  reissue-Stays id = search (follows_rules, Stays-preorder, put_issued-Stays) depth 12

  pub undo_capture-Stays : (x : Reservation) → Follows Stays (undo_capture env x)
  unfolding undo_capture
  undo_capture-Stays x =
      search
        (follows_rules, Stays-preorder, assert_account_unit-Stays, give_back-Stays, reissue-Stays)
        depth 10
