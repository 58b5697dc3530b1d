-- ===== src/Engine/Redemption/Parts.antt =====
-- What the calls of a redemption share: `rewardCost`, `rewardWindowReason` and `getReservation`.
use loyalty_interchange_prot.Base.{
  String, false, Option, none, some, ltb, get_or, option_elim, if◌then◌else◌,
}
use loyalty_interchange_prot.Base.Int.{pos}
use loyalty_interchange_prot.Base.Assoc.{lookup, insert}
use loyalty_interchange_prot.Base.Json.{Json, str, obj, field, end, str_or_undefined}
use loyalty_interchange_prot.Exec.{gets, modify, ◌>>=◌, or_throw, ErrorCode}
use loyalty_interchange_prot.Protocol.Loyalty.{UnitAmount, Reservation, IssuedReward}
use loyalty_interchange_prot.Protocol.Program.{ProgramDefinition, RewardDefinition}
use loyalty_interchange_prot.Protocol.Messages.{ReserveRequest}
use loyalty_interchange_prot.Engine.State.{Env, Method}
use loyalty_interchange_prot.Engine.Ledger.{primary_unit}

unfoldable pub reward_cost : ProgramDefinition → RewardDefinition → UnitAmount
reward_cost program reward =
    get_or reward.cost (record { unit = primary_unit program; amount = pos reward.points_cost })

-- whether the reward's window is open; outside it the reason is given
unfoldable pub reward_window_reason : Env → RewardDefinition → Option String
reward_window_reason env reward =
    if option_elim reward.available_from false (λ from. ltb env.now (env.date_parse from))
    then some "not_yet_available"
    else if option_elim reward.available_until false (λ until. ltb (env.date_parse until) env.now)
    then some "no_longer_available"
    else none

unfoldable pub get_reservation : String → Method Reservation
get_reservation id = do
  found ← gets (λ s. lookup id s.reservations)
  or_throw found ErrorCode.not_found 404

-- a reservation object that has changed, under its key
unfoldable pub put_reservation : String → Reservation → Method (Unit {0})
put_reservation key r = modify (λ s. record s { reservations = insert key r s.reservations })

unfoldable pub put_issued_reward : String → IssuedReward → Method (Unit {0})
put_issued_reward key reward =
    modify (λ s. record s { issued_rewards = insert key reward s.issued_rewards })

-- what a redemption id stands for
abbrev pub redemption_facts : ReserveRequest → Json
redemption_facts request = obj (
    field "member_id" (str request.member_id) (
      field "reward_id" (str request.reward_id) (
        field "issued_reward_id" (str_or_undefined request.issued_reward_id)
          (field "order" request.order.raw end))))
