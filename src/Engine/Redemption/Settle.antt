-- ===== src/Engine/Redemption/Settle.antt =====
-- `capture` and `reverse`.
use loyalty_interchange_prot.Base.{String, not, Option, none, some, str_eq, if◌then◌else◌}
use loyalty_interchange_prot.Base.Int.{pos, neg, abs, ltb_ℤ}
use loyalty_interchange_prot.Base.Assoc.{lookup}
use loyalty_interchange_prot.Exec.{
  pure, gets, ◌>>=◌, ◌>>◌, throw_if, or_throw, branch, do_if, ErrorCode,
}
use loyalty_interchange_prot.Protocol.Loyalty.{
  Reservation, reserved, captured, reversed, expired, reservation_status_eq, issued, redeemed,
  issued_status_eq, redemption, reversal,
}
use loyalty_interchange_prot.Protocol.Messages.{Response, CaptureRequest, ReverseRequest}
use loyalty_interchange_prot.Engine.State.{Env, Method, iso_now}
use loyalty_interchange_prot.Engine.Ledger.{ledger_input, assert_account_unit, add_ledger}
use loyalty_interchange_prot.Engine.Lots.{consume_point_lots, restore_point_lots, expire_point_lots}
use loyalty_interchange_prot.Engine.Balances.{balance, expire_reservation}
use loyalty_interchange_prot.Engine.Once.{once, reservation_response}
use loyalty_interchange_prot.Engine.Redemption.Parts.{
  get_reservation, put_reservation, put_issued_reward,
}

module _ (env : Env) where
  -- a reservation under its key, expired if it is due, and written back
  unfoldable pub refresh_reservation : String → Method Reservation
  unfolding get_reservation put_reservation
  refresh_reservation id = do
    stored ← get_reservation id
    let reservation = expire_reservation env stored
    put_reservation id reservation
    pure reservation

  -- the debit of a capture: the lots, and the ledger
  unfoldable pub debit : Reservation → Method (Unit {0})
  debit r = do
    consume_point_lots env r.member_id r.cost.unit (abs r.cost.amount) (some r.reservation_id)
    let input = ledger_input r.member_id redemption r.cost.unit (neg r.cost.amount)
    add_ledger env (record input {
      order_id = some r.order_id;
      location_id = r.location_id;
      reservation_id = some r.reservation_id;
    })
    pure tt

  abbrev pub captured_reservation : Reservation → Reservation
  captured_reservation r = record r { status = captured; captured_at = some (iso_now env) }

  -- the issued reward of a captured reservation is used up
  unfoldable pub redeem_issued_reward : Option String → Method (Unit {0})
  unfolding put_issued_reward
  redeem_issued_reward id = branch id (pure tt) (λ id. do
    found ← gets (λ s. lookup id s.issued_rewards)
    reward ← or_throw found ErrorCode.invalid_state 409
    throw_if (not (issued_status_eq reward.status issued)) ErrorCode.invalid_state 409
    put_issued_reward id (record reward { status = redeemed; redeemed_at = some (iso_now env) }))

  unfoldable pub capture_reserved : CaptureRequest → Reservation → Method Response
  capture_reserved request r = do
    assert_account_unit r.cost.unit
    held ← balance env r.member_id r.cost.unit
    throw_if (ltb_ℤ held.amount r.cost.amount) ErrorCode.insufficient_balance 409
    do_if (ltb_ℤ (pos 0) r.cost.amount) (debit r)
    put_reservation request.reservation_id (captured_reservation r)
    redeem_issued_reward r.issued_reward_id
    reservation_response env request.context (captured_reservation r)

  unfoldable pub capture_body : CaptureRequest → Method Response
  unfolding refresh_reservation capture_reserved
  capture_body request = do
    r ← refresh_reservation request.reservation_id
    throw_if (not (str_eq r.order_id request.order_id)) ErrorCode.conflict 409
    if reservation_status_eq r.status captured
        then reservation_response env request.context r
        else (do
          throw_if (reservation_status_eq r.status expired) ErrorCode.expired 409
          throw_if (not (reservation_status_eq r.status reserved)) ErrorCode.invalid_state 409
          capture_reserved request r)

  unfoldable pub capture : CaptureRequest → Method Response
  unfolding capture_body
  capture request = once env "redemption.capture" request.context request.raw (capture_body request)

  -- the credit of a reversal: the lots, the ledger, and what has expired since
  unfoldable pub give_back : Reservation → Method (Unit {0})
  give_back r = do
    restore_point_lots r.reservation_id
    let input = ledger_input r.member_id reversal r.cost.unit r.cost.amount
    add_ledger env (record input {
      order_id = some r.order_id;
      location_id = r.location_id;
      reservation_id = some r.reservation_id;
    })
    expire_point_lots env (some r.member_id) (some r.cost.unit)

  -- the issued reward of a reversed redemption can be used again
  unfoldable pub reissue : Option String → Method (Unit {0})
  unfolding put_issued_reward
  reissue id = branch id (pure tt) (λ id. do
    found ← gets (λ s. lookup id s.issued_rewards)
    branch found (pure tt) (λ reward.
        do_if (issued_status_eq reward.status redeemed)
          (put_issued_reward id (record reward { status = issued; redeemed_at = none }))))

  unfoldable pub undo_capture : Reservation → Method (Unit {0})
  unfolding give_back reissue
  undo_capture r = do
    assert_account_unit r.cost.unit
    do_if (ltb_ℤ (pos 0) r.cost.amount) (give_back r)
    reissue r.issued_reward_id

  abbrev pub reversed_reservation : Reservation → Reservation
  reversed_reservation r = record r { status = reversed; reversed_at = some (iso_now env) }

  unfoldable pub reverse_live : ReverseRequest → Reservation → Method Response
  reverse_live request r = do
    throw_if (reservation_status_eq r.status expired) ErrorCode.expired 409
    do_if (reservation_status_eq r.status captured) (undo_capture r)
    put_reservation request.reservation_id (reversed_reservation r)
    reservation_response env request.context (reversed_reservation r)

  unfoldable pub reverse_body : ReverseRequest → Method Response
  unfolding refresh_reservation reverse_live
  reverse_body request = do
    r ← refresh_reservation request.reservation_id
    if reservation_status_eq r.status reversed
        then reservation_response env request.context r
        else reverse_live request r

  unfoldable pub reverse : ReverseRequest → Method Response
  unfolding reverse_body
  reverse request = once env "redemption.reverse" request.context request.raw (reverse_body request)
