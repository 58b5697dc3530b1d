-- ===== src/Engine/Evolution/Operations.antt =====
-- The operations evolve the state: idempotent calls, issued rewards, accruals and adjustments.
use loyalty_interchange_prot.Base.{ℕ, String, ◌≡◌, refl}
use loyalty_interchange_prot.Base.Assoc.{Assoc}
use loyalty_interchange_prot.Base.Json.{Json}
use loyalty_interchange_prot.Exec.{modify}
use loyalty_interchange_prot.Exec.Follows.{Follows, follows_rules, Follows-bind}
use loyalty_interchange_prot.Protocol.Primitives.{RequestContext}
use loyalty_interchange_prot.Protocol.Loyalty.{IssuedReward}
use loyalty_interchange_prot.Protocol.Program.{RewardDefinition}
use loyalty_interchange_prot.Protocol.Messages.{
  Response, IssueRequest, IssuedListRequest, IssuedCancelRequest, OrderRequest,
}
use loyalty_interchange_prot.Engine.State.{
  Env, State, Method, IdempotencyRecord, AccrualRecord, MutationRecord,
}
use loyalty_interchange_prot.Engine.Once.{replay, run_and_record, once}
use loyalty_interchange_prot.Engine.Issued.{
  issue_again, issue_new, issue_body, issue_reward, expire_issued_rewards, refresh_issued_reward,
  list_body, list_issued_rewards, cancel_live, cancel_body, cancel_issued_reward,
}
use loyalty_interchange_prot.Engine.Accrual.{reward_candidate, evaluate_body, evaluate}
use loyalty_interchange_prot.Engine.Evolution.Order.{Evolves, Evolves-preorder}
use loyalty_interchange_prot.Engine.Evolution.Writes.{Follows-modify, add_ledger-Evolves}
use loyalty_interchange_prot.Engine.Evolution.Methods
use loyalty_interchange_prot.Engine.Evolution.Lots

module _ (ids : ℕ → String → String) where
  pub idempotency-Evolves :
      (f : State → Assoc IdempotencyRecord)
      → Follows (Evolves ids) (modify (λ s. record s { idempotency = f s }))
  idempotency-Evolves f = Follows-modify ids _ (λ s. record {
    program = refl;
    id_count = refl;
    points = refl;
    ledger = refl;
    reservations = refl;
    point_lots = refl;
  })

  pub issued-Evolves :
      (f : State → Assoc IssuedReward)
      → Follows (Evolves ids) (modify (λ s. record s { issued_rewards = f s }))
  issued-Evolves f = Follows-modify ids _ (λ s. record {
    program = refl;
    id_count = refl;
    points = refl;
    ledger = refl;
    reservations = refl;
    point_lots = refl;
  })

  pub accruals-Evolves :
      (f : State → Assoc AccrualRecord)
      → Follows (Evolves ids) (modify (λ s. record s { accruals_by_order = f s }))
  accruals-Evolves f = Follows-modify ids _ (λ s. record {
    program = refl;
    id_count = refl;
    points = refl;
    ledger = refl;
    reservations = refl;
    point_lots = refl;
  })

  pub adjustments-Evolves :
      (f : State → Assoc MutationRecord)
      → Follows (Evolves ids) (modify (λ s. record s { adjustments = f s }))
  adjustments-Evolves f = Follows-modify ids _ (λ s. record {
    program = refl;
    id_count = refl;
    points = refl;
    ledger = refl;
    reservations = refl;
    point_lots = refl;
  })

pub ruleset method_rules = (
  follows_rules, Evolves-preorder, add_ledger-Evolves, idempotency-Evolves, issued-Evolves,
  accruals-Evolves, adjustments-Evolves, Lots.consume_point_lots-Evolves,
  Lots.restore_point_lots-Evolves, Lots.expire_point_lots-Evolves, Methods.fingerprint-Evolves,
  Methods.fingerprint_v1-Evolves, Methods.fingerprint_v2-Evolves,
  Methods.assert_account_unit-Evolves, Methods.point_expiration_iso-Evolves,
  Methods.balance-Evolves, Methods.balances-Evolves, Methods.account_metrics-Evolves,
  Methods.earning_multiplier_bps-Evolves, Methods.active_member-Evolves,
  Methods.assert_program_id-Evolves, Methods.assert_order-Evolves,
  Methods.points_for_signed_spend-Evolves, Methods.accrual_amounts-Evolves, Methods.next_id-Evolves,
  Methods.member_snapshot-Evolves, Methods.ledger_response-Evolves,
  Methods.reservation_response-Evolves,
)

module _ (env : Env) (distinct : (n m : ℕ) (p q : String) → env.ids n p ≡ env.ids m q → n ≡ m) where
  pub replay-Evolves :
      (c : RequestContext) (raw : Json) (r : IdempotencyRecord)
      → Follows (Evolves env.ids) (replay env c raw r)
  unfolding replay
  replay-Evolves c raw r = search method_rules depth 12

  run_and_record-Evolves :
      (key : String) (raw : Json) (run : Method Response)
      → Follows (Evolves env.ids) run
      → Follows (Evolves env.ids) (run_and_record env key raw run)
  unfolding run_and_record
  run_and_record-Evolves key raw run h = search method_rules depth 10

  -- An idempotent call evolves the state if what it runs does.
  pub once-Evolves :
      (op : String) (c : RequestContext) (raw : Json) (run : Method Response)
      → Follows (Evolves env.ids) run
      → Follows (Evolves env.ids) (once env op c raw run)
  unfolding once
  once-Evolves op c raw run h =
      search (method_rules, run_and_record-Evolves, replay-Evolves) depth 8

  issue_again-Evolves :
      (q : IssueRequest) (r : IssuedReward) → Follows (Evolves env.ids) (issue_again env q r)
  unfolding issue_again
  issue_again-Evolves q r = search method_rules depth 12

  issue_new-Evolves : (q : IssueRequest) → Follows (Evolves env.ids) (issue_new env q)
  unfolding issue_new
  issue_new-Evolves q = search method_rules depth 10

  issue_body-Evolves : (q : IssueRequest) → Follows (Evolves env.ids) (issue_body env q)
  unfolding issue_body
  issue_body-Evolves q = search (method_rules, issue_new-Evolves, issue_again-Evolves) depth 14

  pub issue_reward-Evolves : (q : IssueRequest) → Follows (Evolves env.ids) (issue_reward env q)
  unfolding issue_reward
  issue_reward-Evolves q = search (method_rules, once-Evolves, issue_body-Evolves) depth 8

  expire_issued_rewards-Evolves :
      (m : String) → Follows (Evolves env.ids) (expire_issued_rewards env m)
  unfolding expire_issued_rewards
  expire_issued_rewards-Evolves m = issued-Evolves env.ids _

  pub refresh_issued_reward-Evolves :
      (key : String) (r : IssuedReward)
      → Follows (Evolves env.ids) (refresh_issued_reward env key r)
  unfolding refresh_issued_reward
  refresh_issued_reward-Evolves key r = search method_rules depth 8

  list_body-Evolves : (q : IssuedListRequest) → Follows (Evolves env.ids) (list_body env q)
  unfolding list_body
  list_body-Evolves q = search (method_rules, expire_issued_rewards-Evolves) depth 10

  pub list_issued_rewards-Evolves :
      (q : IssuedListRequest) → Follows (Evolves env.ids) (list_issued_rewards env q)
  unfolding list_issued_rewards
  list_issued_rewards-Evolves q = search (method_rules, once-Evolves, list_body-Evolves) depth 8

  cancel_live-Evolves :
      (q : IssuedCancelRequest) (r : IssuedReward) → Follows (Evolves env.ids) (cancel_live env q r)
  unfolding cancel_live
  cancel_live-Evolves q r = search method_rules depth 12

  cancel_body-Evolves : (q : IssuedCancelRequest) → Follows (Evolves env.ids) (cancel_body env q)
  unfolding cancel_body
  cancel_body-Evolves q =
      search (method_rules, refresh_issued_reward-Evolves, cancel_live-Evolves) depth 10

  pub cancel_issued_reward-Evolves :
      (q : IssuedCancelRequest) → Follows (Evolves env.ids) (cancel_issued_reward env q)
  unfolding cancel_issued_reward
  cancel_issued_reward-Evolves q = search (method_rules, once-Evolves, cancel_body-Evolves) depth 8

  reward_candidate-Evolves :
      (m : String) (r : RewardDefinition) → Follows (Evolves env.ids) (reward_candidate env m r)
  unfolding reward_candidate
  reward_candidate-Evolves m r = search method_rules depth 12

  evaluate_body-Evolves : (q : OrderRequest) → Follows (Evolves env.ids) (evaluate_body env q)
  unfolding evaluate_body
  evaluate_body-Evolves q = search (method_rules, reward_candidate-Evolves) depth 16

  pub evaluate-Evolves : (q : OrderRequest) → Follows (Evolves env.ids) (evaluate env q)
  unfolding evaluate
  evaluate-Evolves q = search (method_rules, once-Evolves, evaluate_body-Evolves) depth 8
