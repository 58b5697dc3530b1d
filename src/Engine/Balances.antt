-- ===== src/Engine/Balances.antt =====
-- Reservations that time out, and balances: `expireReservation`, `expireAllReservations`,
-- `balance`, `balances` and `expiringBalances`.
use loyalty_interchange_prot.Base.{
  String, ◌⧺◌, ◌&&◌, some, List, get_or, filter, leb, str_eq, if◌then◌else◌,
}
use loyalty_interchange_prot.Base.Int.{ℤ, pos, ◌-ℤ◌, sum_by}
use loyalty_interchange_prot.Base.Assoc.{lookup, values, map_values}
use loyalty_interchange_prot.Exec.{gets, modify, ◌>>=◌, ◌>>◌, map_each}
use loyalty_interchange_prot.Protocol.Primitives.{LoyaltyUnit, unit_eq, unit_text, Balance}
use loyalty_interchange_prot.Protocol.Loyalty.{
  Reservation, reserved, expired, reservation_status_eq,
}
use loyalty_interchange_prot.Engine.State.{Env, State, Method, iso_now}
use loyalty_interchange_prot.Engine.Ledger.{balance_key, account_units}
use loyalty_interchange_prot.Engine.Lots.{expire_point_lots}

module _ (env : Env) where
  unfoldable pub expire_reservation : Reservation → Reservation
  expire_reservation r =
      if reservation_status_eq r.status reserved && leb (env.date_parse r.expires_at) env.now
      then record r { status = expired }
      else r

  unfoldable pub expire_all_reservations : Method (Unit {0})
  expire_all_reservations =
      modify (λ s. record s { reservations = map_values expire_reservation s.reservations })

  -- what a member's active reservations hold of a unit
  unfoldable pub reserved_amount : State → String → LoyaltyUnit → ℤ
  reserved_amount s member_id unit =
      sum_by (λ r. r.cost.amount)
        (filter
          (λ r.
            str_eq r.member_id member_id
            && reservation_status_eq r.status reserved
            && unit_eq r.cost.unit unit)
          (values s.reservations))

  unfoldable pub stored_amount : State → String → LoyaltyUnit → ℤ
  stored_amount s member_id unit =
      get_or (lookup (balance_key s.program member_id unit) s.points) (pos 0)

  -- the balance as the state has it
  unfoldable pub balance_of : State → String → LoyaltyUnit → Balance
  unfolding reserved_amount stored_amount
  balance_of s member_id unit =
      let amount = stored_amount s member_id unit in
      let held = reserved_amount s member_id unit in
      record {
        account_id = (unit_text unit ⧺ ":") ⧺ member_id;
        member_id = member_id;
        program_id = s.program.program_id;
        unit = unit;
        amount = amount;
        reserved = held;
        available = amount -ℤ held;
        as_of = iso_now env;
      }

  unfoldable pub balance : String → LoyaltyUnit → Method Balance
  balance member_id unit = do
    expire_all_reservations
    expire_point_lots env (some member_id) (some unit)
    gets (λ s. balance_of s member_id unit)

  unfoldable pub balances : String → Method (List Balance)
  balances member_id = do
    units ← gets (λ s. account_units s.program)
    map_each (balance member_id) units
