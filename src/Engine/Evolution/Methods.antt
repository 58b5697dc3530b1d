-- ===== src/Engine/Evolution/Methods.antt =====
-- Methods below the operations evolve the state: balances, metrics, multipliers, snapshots.
use loyalty_interchange_prot.Base.{ℕ, String, ◌≡◌, refl, List, arith}
use loyalty_interchange_prot.Base.Int.{ℤ}
use loyalty_interchange_prot.Base.Json.{Json}
use loyalty_interchange_prot.Exec.Follows.{Follows, follows_rules}
use loyalty_interchange_prot.Protocol.Primitives.{LoyaltyUnit, Member, RequestContext}
use loyalty_interchange_prot.Protocol.Loyalty.{LedgerEntry, Reservation}
use loyalty_interchange_prot.Protocol.Order.{FoodserviceOrder}
use loyalty_interchange_prot.Protocol.Program.{MetricDefinition}
use loyalty_interchange_prot.Engine.State.{Env, next_id}
use loyalty_interchange_prot.Engine.Fingerprint.{
  fingerprint, idempotency_fingerprint_v1, idempotency_fingerprint_v2,
}
use loyalty_interchange_prot.Engine.Ledger.{assert_account_unit, point_expiration_iso}
use loyalty_interchange_prot.Engine.Balances.{balance, balances}
use loyalty_interchange_prot.Engine.Tiers.{
  account_metric, account_metrics, tier_multiplier_bps, earning_multiplier_bps,
}
use loyalty_interchange_prot.Engine.Earning.{
  assert_program_id, assert_order, amount_for_unit, points_for_signed_spend, accrual_amounts,
}
use loyalty_interchange_prot.Engine.Once.{ledger_response, reservation_response, member_snapshot}
use loyalty_interchange_prot.Engine.Issued.{active_member}
use loyalty_interchange_prot.Engine.Evolution.Order.{Evolves, Evolves-preorder, Moves-refl}
use loyalty_interchange_prot.Engine.Evolution.Lots.{expire_point_lots-Evolves}
use loyalty_interchange_prot.Engine.Evolution.Writes.{expire_all_reservations-Evolves}

module _ (env : Env) (distinct : (n m : ℕ) (p q : String) → env.ids n p ≡ env.ids m q → n ≡ m) where
  pub fingerprint-Evolves : (v : Json) → Follows (Evolves env.ids) (fingerprint env v)
  unfolding fingerprint
  fingerprint-Evolves v = search (follows_rules, Evolves-preorder)

  pub fingerprint_v1-Evolves :
      (v : Json) → Follows (Evolves env.ids) (idempotency_fingerprint_v1 env v)
  unfolding idempotency_fingerprint_v1
  fingerprint_v1-Evolves v = fingerprint-Evolves _

  pub fingerprint_v2-Evolves :
      (v : Json) → Follows (Evolves env.ids) (idempotency_fingerprint_v2 env v)
  unfolding idempotency_fingerprint_v2
  fingerprint_v2-Evolves v = fingerprint-Evolves _

  pub assert_account_unit-Evolves :
      (unit : LoyaltyUnit) → Follows (Evolves env.ids) (assert_account_unit unit)
  unfolding assert_account_unit
  assert_account_unit-Evolves unit = search (follows_rules, Evolves-preorder)

  pub point_expiration_iso-Evolves :
      (unit : LoyaltyUnit) → Follows (Evolves env.ids) (point_expiration_iso env unit)
  unfolding point_expiration_iso
  point_expiration_iso-Evolves unit = search (follows_rules, Evolves-preorder) depth 8

  pub balance-Evolves :
      (m : String) (unit : LoyaltyUnit) → Follows (Evolves env.ids) (balance env m unit)
  unfolding balance
  balance-Evolves m unit =
      search
        (
          follows_rules,
          Evolves-preorder,
          expire_all_reservations-Evolves,
          expire_point_lots-Evolves env distinct,
        )
        depth 8

  pub balances-Evolves : (m : String) → Follows (Evolves env.ids) (balances env m)
  unfolding balances
  balances-Evolves m = search (follows_rules, Evolves-preorder, balance-Evolves) depth 8

  account_metric-Evolves :
      (m : String) (metric : MetricDefinition)
      → Follows (Evolves env.ids) (account_metric env m metric)
  unfolding account_metric
  account_metric-Evolves m metric =
      search (follows_rules, Evolves-preorder, assert_account_unit-Evolves, balance-Evolves) depth
        10

  pub account_metrics-Evolves : (m : String) → Follows (Evolves env.ids) (account_metrics env m)
  unfolding account_metrics
  account_metrics-Evolves m =
      search (follows_rules, Evolves-preorder, account_metric-Evolves) depth 8

  tier_multiplier_bps-Evolves : (m : String) → Follows (Evolves env.ids) (tier_multiplier_bps env m)
  unfolding tier_multiplier_bps
  tier_multiplier_bps-Evolves m =
      search (follows_rules, Evolves-preorder, account_metrics-Evolves) depth 8

  pub earning_multiplier_bps-Evolves :
      (m : String) → Follows (Evolves env.ids) (earning_multiplier_bps env m)
  unfolding earning_multiplier_bps
  earning_multiplier_bps-Evolves m =
      search (follows_rules, Evolves-preorder, tier_multiplier_bps-Evolves) depth 8

  pub active_member-Evolves : (m : String) → Follows (Evolves env.ids) (active_member m)
  unfolding active_member
  active_member-Evolves m = search (follows_rules, Evolves-preorder) depth 8

  pub assert_program_id-Evolves : (id : String) → Follows (Evolves env.ids) (assert_program_id id)
  unfolding assert_program_id
  assert_program_id-Evolves id = search (follows_rules, Evolves-preorder) depth 8

  pub assert_order-Evolves :
      (order : FoodserviceOrder) (m : Member) → Follows (Evolves env.ids) (assert_order env order m)
  unfolding assert_order
  assert_order-Evolves order m =
      search (follows_rules, Evolves-preorder, assert_program_id-Evolves) depth 12

  amount_for_unit-Evolves :
      (unit : LoyaltyUnit) (spend : ℤ) (bps : ℕ)
      → Follows (Evolves env.ids) (amount_for_unit unit spend bps)
  unfolding amount_for_unit
  amount_for_unit-Evolves LoyaltyUnit.credits spend bps =
      search (follows_rules, Evolves-preorder) depth 10
  amount_for_unit-Evolves _ spend bps = search (follows_rules, Evolves-preorder) depth 10

  pub points_for_signed_spend-Evolves :
      (unit : LoyaltyUnit) (spend : ℤ) (bps : ℕ)
      → Follows (Evolves env.ids) (points_for_signed_spend unit spend bps)
  unfolding points_for_signed_spend
  points_for_signed_spend-Evolves unit spend bps =
      search (follows_rules, Evolves-preorder, amount_for_unit-Evolves) depth 8

  pub accrual_amounts-Evolves :
      (order : FoodserviceOrder) (bps : ℕ) → Follows (Evolves env.ids) (accrual_amounts order bps)
  unfolding accrual_amounts
  accrual_amounts-Evolves order bps =
      search (follows_rules, Evolves-preorder, amount_for_unit-Evolves) depth 12

  -- an id that is drawn for anything but an entry or a reservation
  pub next_id-Evolves : (prefix : String) → Follows (Evolves env.ids) (next_id env prefix)
  unfolding next_id
  next_id-Evolves prefix = record {
    from = λ s w. record {
      well_formed = record {
        ledger_fresh = λ n h. w.ledger_fresh n (omega arith);
        reservation_fresh = λ n h. w.reservation_fresh n (omega arith);
        balanced = w.balanced;
        lots_keyed = w.lots_keyed;
        lots_earned = w.lots_earned;
      };
      program_same = refl;
      count_le = omega arith;
      ledger_kept = λ id e h. h;
      reservations_move = λ id r h. (r, h, Moves-refl r);
    };
  }

  pub member_snapshot-Evolves : (m : Member) → Follows (Evolves env.ids) (member_snapshot env m)
  unfolding member_snapshot
  member_snapshot-Evolves m =
      search (follows_rules, Evolves-preorder, account_metrics-Evolves) depth 8

  pub ledger_response-Evolves :
      (c : RequestContext) (e : LedgerEntry) (es : List LedgerEntry)
      → Follows (Evolves env.ids) (ledger_response env c e es)
  unfolding ledger_response
  ledger_response-Evolves c e es =
      search (follows_rules, Evolves-preorder, balances-Evolves) depth 8

  pub reservation_response-Evolves :
      (c : RequestContext) (r : Reservation)
      → Follows (Evolves env.ids) (reservation_response env c r)
  unfolding reservation_response
  reservation_response-Evolves c r =
      search (follows_rules, Evolves-preorder, balances-Evolves) depth 8
