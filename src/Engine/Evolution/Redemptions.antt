-- ===== src/Engine/Evolution/Redemptions.antt =====
-- `reserve`, `capture` and `reverse` evolve the state.
use loyalty_interchange_prot.Base.{ℕ, String, ◌≡◌, refl, Bool, true, false, not, Option, arith}
use loyalty_interchange_prot.Base.Int.{pos, ltb_ℤ}
use loyalty_interchange_prot.Base.Assoc.{Assoc}
use loyalty_interchange_prot.Exec.{modify, do_if}
use loyalty_interchange_prot.Exec.Follows.{Follows, Follows-do_if}
use loyalty_interchange_prot.Protocol.Loyalty.{
  UnitAmount, Reservation, reserved, captured, reversed, expired, reservation_status_eq,
  IssuedReward,
}
use loyalty_interchange_prot.Protocol.Program.{RewardDefinition}
use loyalty_interchange_prot.Protocol.Messages.{ReserveRequest, CaptureRequest, ReverseRequest}
use loyalty_interchange_prot.Engine.State.{Env, State, ReservationRecord}
use loyalty_interchange_prot.Engine.Ledger.{assert_account_unit}
use loyalty_interchange_prot.Engine.Balances.{expire_reservation, balance}
use loyalty_interchange_prot.Engine.Redemption.{
  get_reservation, put_issued_reward, claim_issued_reward, check_affordable, new_reservation,
  make_reservation, reserve_new, reserve_again, reserve_body, reserve, debit, redeem_issued_reward,
  capture_reserved, capture_body, capture, captured_reservation, give_back, reissue, undo_capture,
  reversed_reservation, reverse_live, reverse_body, reverse,
}
use loyalty_interchange_prot.Engine.Evolution.Order.{may_become, Moves, Evolves, Evolves-preorder}
use loyalty_interchange_prot.Engine.Evolution.Writes.{Follows-modify}
use loyalty_interchange_prot.Engine.Evolution.Methods.{assert_account_unit-Evolves, balance-Evolves}
use loyalty_interchange_prot.Engine.Evolution.Operations.{
  method_rules, once-Evolves, issued-Evolves, refresh_issued_reward-Evolves,
}
use loyalty_interchange_prot.Engine.Evolution.Settled
use loyalty_interchange_prot.Engine.Evolution.Guarded.{
  From, Held, From-bind, From-throw_if, From-if, Held-put, refresh_then, draw_then,
}

redemptions-Evolves :
    (ids : ℕ → String → String) (f : State → Assoc ReservationRecord)
    → Follows (Evolves ids) (modify (λ s. record s { reservations_by_redemption = f s }))
redemptions-Evolves ids f = Follows-modify ids _ (λ s. record {
  program = refl;
  id_count = refl;
  points = refl;
  ledger = refl;
  reservations = refl;
  point_lots = refl;
})

capture-Moves :
    (env : Env) (r : Reservation)
    → reservation_status_eq r.status reserved ≡ true
    → Moves r (captured_reservation env r)
unfolding may_become reservation_status_eq
capture-Moves env r h = ground arith

reverse-Moves :
    (env : Env) (r : Reservation)
    → reservation_status_eq r.status reversed ≡ false
    → reservation_status_eq r.status expired ≡ false
    → Moves r (reversed_reservation env r)
unfolding may_become reservation_status_eq
reverse-Moves env r h k = ground arith

not-false : {b : Bool} → not b ≡ false → b ≡ true
not-false h = ground arith

module _ (env : Env) (distinct : (n m : ℕ) (p q : String) → env.ids n p ≡ env.ids m q → n ≡ m) where
  put_issued_reward-Evolves :
      (key : String) (r : IssuedReward) → Follows (Evolves env.ids) (put_issued_reward key r)
  unfolding put_issued_reward
  put_issued_reward-Evolves key r = issued-Evolves env.ids _

  claim_issued_reward-Evolves :
      (q : ReserveRequest) (id : String) → Follows (Evolves env.ids) (claim_issued_reward env q id)
  unfolding claim_issued_reward
  claim_issued_reward-Evolves q id = search (method_rules, refresh_issued_reward-Evolves) depth 14

  check_affordable-Evolves :
      (q : ReserveRequest) (reward : RewardDefinition) (cost : UnitAmount)
      → Follows (Evolves env.ids) (check_affordable env q reward cost)
  unfolding check_affordable
  check_affordable-Evolves q reward cost = search method_rules depth 12

  make_reservation-Evolves :
      (q : ReserveRequest) (reward : RewardDefinition) (cost : UnitAmount) (x : Option IssuedReward)
      (ttl : ℕ) (facts : String)
      → Follows (Evolves env.ids) (make_reservation env q reward cost x ttl facts)
  unfolding make_reservation
  make_reservation-Evolves q reward cost x ttl facts =
      draw_then env distinct (λ id. new_reservation env q reward cost x ttl id) _
        λ id. search (method_rules, redemptions-Evolves)

  reserve_new-Evolves :
      (q : ReserveRequest) (facts : String) → Follows (Evolves env.ids) (reserve_new env q facts)
  unfolding reserve_new
  reserve_new-Evolves q facts =
      search
        (
          method_rules, claim_issued_reward-Evolves, check_affordable-Evolves,
          make_reservation-Evolves,
        )
        depth 16

  reserve_again-Evolves :
      (q : ReserveRequest) (facts : String) (r : ReservationRecord)
      → Follows (Evolves env.ids) (reserve_again env q facts r)
  unfolding reserve_again get_reservation
  reserve_again-Evolves q facts r = search method_rules depth 12

  reserve_body-Evolves : (q : ReserveRequest) → Follows (Evolves env.ids) (reserve_body env q)
  unfolding reserve_body
  reserve_body-Evolves q =
      search (method_rules, reserve_new-Evolves, reserve_again-Evolves) depth 14

  pub reserve-Evolves : (q : ReserveRequest) → Follows (Evolves env.ids) (reserve env q)
  unfolding reserve
  reserve-Evolves q = search (method_rules, once-Evolves, reserve_body-Evolves) depth 8

  debit-Evolves : (r : Reservation) → Follows (Evolves env.ids) (debit env r)
  unfolding debit
  debit-Evolves r = search method_rules depth 10

  redeem_issued_reward-Evolves :
      (id : Option String) → Follows (Evolves env.ids) (redeem_issued_reward env id)
  unfolding redeem_issued_reward
  redeem_issued_reward-Evolves id = search (method_rules, put_issued_reward-Evolves) depth 14

  give_back-Evolves : (r : Reservation) → Follows (Evolves env.ids) (give_back env r)
  unfolding give_back
  give_back-Evolves r = search method_rules depth 10

  reissue-Evolves : (id : Option String) → Follows (Evolves env.ids) (reissue env id)
  unfolding reissue
  reissue-Evolves id = search (method_rules, put_issued_reward-Evolves) depth 14

  undo_capture-Evolves : (r : Reservation) → Follows (Evolves env.ids) (undo_capture env r)
  unfolding undo_capture
  undo_capture-Evolves r = search (method_rules, give_back-Evolves, reissue-Evolves) depth 10

  module _ (r : Reservation) (settled : expire_reservation env r ≡ r) where
    capture_reserved-Held :
        (q : CaptureRequest)
        → reservation_status_eq r.status reserved ≡ true
        → Follows (From env.ids (Held env.ids q.reservation_id r)) (capture_reserved env q r)
    unfolding capture_reserved
    capture_reserved-Held q live =
        From-bind env.ids (Held env.ids q.reservation_id r) (assert_account_unit r.cost.unit) _
          (assert_account_unit-Evolves env distinct r.cost.unit)
          (Settled.assert_account_unit-Stays env q.reservation_id r settled r.cost.unit)
          λ _.
            From-bind env.ids (Held env.ids q.reservation_id r)
              (balance env r.member_id r.cost.unit) _
              (balance-Evolves env distinct r.member_id r.cost.unit)
              (Settled.balance-Stays env q.reservation_id r settled r.member_id r.cost.unit)
              λ held.
                From-throw_if env.ids (Held env.ids q.reservation_id r)
                  (ltb_ℤ held.amount r.cost.amount) _ _ _
                  λ _.
                    From-bind env.ids (Held env.ids q.reservation_id r)
                      (do_if (ltb_ℤ (pos 0) r.cost.amount) (debit env r)) _
                      (Follows-do_if (Evolves-preorder env.ids) (ltb_ℤ (pos 0) r.cost.amount) _
                        (debit-Evolves r))
                      (Follows-do_if (Settled.Stays-preorder env q.reservation_id r settled)
                        (ltb_ℤ (pos 0) r.cost.amount) _
                        (Settled.debit-Stays env q.reservation_id r settled r))
                      λ _.
                        Held-put env.ids q.reservation_id r (captured_reservation env r) _
                          (capture-Moves env r live)
                          (search (method_rules, redeem_issued_reward-Evolves))

    reverse_live-Held :
        (q : ReverseRequest)
        → reservation_status_eq r.status reversed ≡ false
        → Follows (From env.ids (Held env.ids q.reservation_id r)) (reverse_live env q r)
    unfolding reverse_live
    reverse_live-Held q open_status =
        From-throw_if env.ids (Held env.ids q.reservation_id r)
          (reservation_status_eq r.status expired) _ _ _
          λ not_expired.
            From-bind env.ids (Held env.ids q.reservation_id r)
              (do_if (reservation_status_eq r.status captured) (undo_capture env r)) _
              (Follows-do_if (Evolves-preorder env.ids) (reservation_status_eq r.status captured) _
                (undo_capture-Evolves r))
              (Follows-do_if (Settled.Stays-preorder env q.reservation_id r settled)
                (reservation_status_eq r.status captured) _
                (Settled.undo_capture-Stays env q.reservation_id r settled r))
              λ _.
                Held-put env.ids q.reservation_id r (reversed_reservation env r) _
                  (reverse-Moves env r open_status not_expired) (search method_rules)

  capture_body-Evolves : (q : CaptureRequest) → Follows (Evolves env.ids) (capture_body env q)
  unfolding capture_body
  capture_body-Evolves q = refresh_then env q.reservation_id _ λ r settled.
      From-throw_if env.ids (Held env.ids q.reservation_id r) _ _ _ _ λ _.
        From-if env.ids (Held env.ids q.reservation_id r) (reservation_status_eq r.status captured)
          _ _ (search method_rules)
          λ _.
            From-throw_if env.ids (Held env.ids q.reservation_id r)
              (reservation_status_eq r.status expired) _ _ _
              λ _.
                From-throw_if env.ids (Held env.ids q.reservation_id r)
                  (not (reservation_status_eq r.status reserved)) _ _ _
                  λ live. capture_reserved-Held r settled q (not-false live)

  pub capture-Evolves : (q : CaptureRequest) → Follows (Evolves env.ids) (capture env q)
  unfolding capture
  capture-Evolves q = search (method_rules, once-Evolves, capture_body-Evolves) depth 8

  reverse_body-Evolves : (q : ReverseRequest) → Follows (Evolves env.ids) (reverse_body env q)
  unfolding reverse_body
  reverse_body-Evolves q = refresh_then env q.reservation_id _ λ r settled.
      From-if env.ids (Held env.ids q.reservation_id r) (reservation_status_eq r.status reversed) _
        _ (search method_rules) λ open_status. reverse_live-Held r settled q open_status

  pub reverse-Evolves : (q : ReverseRequest) → Follows (Evolves env.ids) (reverse env q)
  unfolding reverse
  reverse-Evolves q = search (method_rules, once-Evolves, reverse_body-Evolves) depth 8
