-- ===== src/Engine/Redemption/Reserve.antt =====
-- `reserve`.
use loyalty_interchange_prot.Base.{
  ℕ, String, not, ◌||◌, Option, none, some, find, str_eq, option_elim, is_some,
}
use loyalty_interchange_prot.Base.Int.{pos, ltb_ℤ}
use loyalty_interchange_prot.Base.Assoc.{lookup, insert}
use loyalty_interchange_prot.Exec.{
  pure, gets, modify, ◌>>=◌, ◌>>◌, throw_if, or_throw, branch, ErrorCode,
}
use loyalty_interchange_prot.Protocol.Loyalty.{
  UnitAmount, Reservation, reserved, IssuedReward, issued, issued_status_eq,
}
use loyalty_interchange_prot.Protocol.Program.{RewardDefinition}
use loyalty_interchange_prot.Protocol.Messages.{Response, ReserveRequest}
use loyalty_interchange_prot.Engine.State.{
  Env, Method, ReservationRecord, next_id, iso_now, future_iso,
}
use loyalty_interchange_prot.Engine.Fingerprint.{fingerprint}
use loyalty_interchange_prot.Engine.Balances.{balance}
use loyalty_interchange_prot.Engine.Tiers.{membership_unavailable}
use loyalty_interchange_prot.Engine.Earning.{assert_order}
use loyalty_interchange_prot.Engine.Funding.{funding_allocations}
use loyalty_interchange_prot.Engine.Once.{once, reservation_response}
use loyalty_interchange_prot.Engine.Issued.{active_member, is_held, refresh_issued_reward}
use loyalty_interchange_prot.Engine.Redemption.Parts.{
  reward_cost, reward_window_reason, get_reservation, put_reservation, redemption_facts,
}

module _ (env : Env) where
  -- the issued reward that is to be redeemed, checked
  unfoldable pub claim_issued_reward : ReserveRequest → String → Method IssuedReward
  claim_issued_reward request id = do
    found ← gets (λ s. lookup id s.issued_rewards)
    stored ← or_throw found ErrorCode.not_found 404
    reward ← refresh_issued_reward env id stored
    throw_if
        (not (str_eq reward.member_id request.member_id)
          || not (str_eq reward.reward_id request.reward_id))
        ErrorCode.conflict 409
    throw_if (not (issued_status_eq reward.status issued)) ErrorCode.invalid_state 409
    held ← gets (λ s. is_held s reward.issued_reward_id)
    throw_if held ErrorCode.conflict 409
    pure reward

  abbrev pub new_reservation :
      ReserveRequest
      → RewardDefinition
      → UnitAmount
      → Option IssuedReward
      → ℕ
      → String
      → Reservation
  new_reservation request reward cost issued_reward ttl id = record {
    reservation_id = id;
    redemption_id = request.redemption_id;
    member_id = request.member_id;
    reward_id = reward.reward_id;
    issued_reward_id = option_elim issued_reward none (λ r. some r.issued_reward_id);
    order_id = request.order.order_id;
    location_id = some request.order.scope.location_id;
    status = reserved;
    cost = record { unit = cost.unit; amount = option_elim issued_reward cost.amount (λ _. pos 0) };
    effect = reward.effect;
    funding = funding_allocations env reward;
    created_at = iso_now env;
    expires_at = future_iso env ttl;
    captured_at = none;
    reversed_at = none;
  }

  -- the checks that only a redemption against the balance has to pass
  unfoldable pub check_affordable :
      ReserveRequest → RewardDefinition → UnitAmount → Method (Unit {0})
  check_affordable request reward cost = do
    unavailable ← gets (λ s. membership_unavailable env s reward request.member_id)
    throw_if unavailable ErrorCode.reward_not_available 409
    held ← balance env request.member_id cost.unit
    throw_if (ltb_ℤ held.available cost.amount) ErrorCode.insufficient_balance 409

  -- the reservation is stored, and the redemption id stands for it
  unfoldable pub make_reservation :
      ReserveRequest
      → RewardDefinition
      → UnitAmount
      → Option IssuedReward
      → ℕ
      → String
      → Method Response
  make_reservation request reward cost issued_reward ttl facts = do
    id ← next_id env "reservation"
    put_reservation id (new_reservation request reward cost issued_reward ttl id)
    modify (λ s. record s {
      reservations_by_redemption =
          insert request.redemption_id (record { reservation_id = id; fingerprint = facts })
            s.reservations_by_redemption;
    })
    reservation_response env request.context
        (new_reservation request reward cost issued_reward ttl id)

  unfoldable pub reserve_new : ReserveRequest → String → Method Response
  unfolding claim_issued_reward check_affordable make_reservation
  reserve_new request facts = do
    program ← gets (λ s. s.program)
    reward ←
        or_throw (find (λ candidate. str_eq candidate.reward_id request.reward_id) program.rewards)
          ErrorCode.reward_not_found 404
    throw_if (is_some (reward_window_reason env reward)) ErrorCode.reward_not_available 409
    issued_reward ←
        branch request.issued_reward_id (pure none)
          (λ id. do claimed ← claim_issued_reward request id; pure (some claimed))
    let cost = reward_cost program reward
    branch issued_reward (check_affordable request reward cost) (λ _. pure tt)
    make_reservation request reward cost issued_reward program.reservation_ttl_seconds facts

  unfoldable pub reserve_again : ReserveRequest → String → ReservationRecord → Method Response
  reserve_again request facts existing = do
    throw_if (not (str_eq existing.fingerprint facts)) ErrorCode.conflict 409
    reservation ← get_reservation existing.reservation_id
    reservation_response env request.context reservation

  unfoldable pub reserve_body : ReserveRequest → Method Response
  unfolding reserve_new reserve_again
  reserve_body request = do
    member ← active_member request.member_id
    assert_order env request.order member
    facts ← fingerprint env (redemption_facts request)
    existing ← gets (λ s. lookup request.redemption_id s.reservations_by_redemption)
    branch existing (reserve_new request facts) (reserve_again request facts)

  unfoldable pub reserve : ReserveRequest → Method Response
  unfolding reserve_body
  reserve request = once env "redemption.reserve" request.context request.raw (reserve_body request)
