-- ===== src/Engine/Accrual.antt =====
-- Earning: `evaluate`, `postAccrual`, `issueThresholdRewards` and `rewardCandidate`.
use loyalty_interchange_prot.Base.{
  ℕ, zero, suc, ◌+◌, ◌-◌, ◌/◌, String, ◌⧺◌, true, false, not, ◌&&◌, Option, none, some, List, [],
  ◌∷◌, map, ◌++◌, find, filter, length, somes, ltb, head?, str_eq, get_or, option_elim, is_some,
  if◌then◌else◌,
}
use text.Mathlib.Text.{starts_with}
use loyalty_interchange_prot.Base.Int.{ℤ, pos, neg, pos_part, ltb_ℤ, max_ℤ, sum_by}
use loyalty_interchange_prot.Base.Assoc.{lookup, insert, keys, values}
use loyalty_interchange_prot.Base.Json.{Json, str, obj, field, end, str_or_undefined}
use loyalty_interchange_prot.Exec.{
  pure, gets, modify, ◌>>=◌, ◌>>◌, throw_if, or_throw, branch, do_if, map_each, invalid_state,
  conflict, runtime_error,
}
use loyalty_interchange_prot.Protocol.Primitives.{RequestContext, LoyaltyUnit, unit_eq}
use loyalty_interchange_prot.Protocol.Order.{is_paid}
use loyalty_interchange_prot.Protocol.Loyalty.{
  UnitAmount, LedgerEntry, accrual, adjustment, operation_eq, RewardCandidate,
}
use loyalty_interchange_prot.Protocol.Program.{
  ProgramDefinition, RewardDefinition, VisitStampPolicy,
}
use loyalty_interchange_prot.Protocol.Messages.{
  Response, OrderRequest, IssueRequest, evaluation_body,
}
use loyalty_interchange_prot.Engine.State.{Env, State, Method, AccrualRecord, next_id, future_iso}
use loyalty_interchange_prot.Engine.Fingerprint.{fingerprint}
use loyalty_interchange_prot.Engine.Ledger.{
  ledger_input, primary_unit, expiration_policy, point_expiration_iso, add_ledger,
}
use loyalty_interchange_prot.Engine.Balances.{balance, balances}
use loyalty_interchange_prot.Engine.Tiers.{earning_multiplier_bps, membership_unavailable}
use loyalty_interchange_prot.Engine.Earning.{assert_order, accrual_amounts}
use loyalty_interchange_prot.Engine.Funding.{funding_allocations}
use loyalty_interchange_prot.Engine.Once.{once, response_context, ledger_response}
use loyalty_interchange_prot.Engine.Issued.{active_member, issue_reward}
use loyalty_interchange_prot.Engine.Redemption.{reward_cost, reward_window_reason}

-- what an order id stands for
abbrev pub accrual_facts : OrderRequest → Json
accrual_facts request =
    obj (field "member_id" (str request.member_id) (field "order" request.order.raw end))

-- the entries that a record names, those that are there
unfoldable pub recorded_entries : State → String → Option (List String) → List LedgerEntry
recorded_entries s entry_id entry_ids =
    somes (map (λ id. lookup id s.ledger) (get_or entry_ids (entry_id ∷ [])))

-- `entries.find(({ unit }) => unit === this.primaryUnit()) ?? entries[0]!`
unfoldable pub primary_entry : ProgramDefinition → List LedgerEntry → Option LedgerEntry
primary_entry program entries =
    option_elim (find (λ entry. unit_eq entry.unit (primary_unit program)) entries) (head? entries)
      some

-- the context of a request that the engine makes for itself, as JSON
unfoldable pub context_json : RequestContext → Json
context_json context = obj (
    field "protocol_version" (str "1.0") (
      field "profile" (str "foodservice/1.0") (
        field "request_id" (str context.request_id) (
          field "idempotency_key" (str context.idempotency_key) (
            field "occurred_at" (str context.occurred_at) (
              field "source"
                (obj (
                  field "system" (str context.source.system)
                    (field "instance" (str_or_undefined context.source.instance_id) end)))
                end))))))

module _ (env : Env) where
  unfoldable pub reward_candidate : String → RewardDefinition → Method RewardCandidate
  reward_candidate member_id reward = do
    program ← gets (λ s. s.program)
    let cost = reward_cost program reward
    held ← balance env member_id cost.unit
    unavailable ← gets (λ s. membership_unavailable env s reward member_id)
    let reasons =
        (if ltb_ℤ held.available cost.amount then "insufficient_balance" ∷ [] else [])
        ++ (option_elim (reward_window_reason env reward) [] (λ reason. reason ∷ [])
            ++ (if unavailable then "membership_required" ∷ [] else []))
    pure (record {
      reward_id = reward.reward_id;
      name = reward.name;
      is_available = elim reasons [ [] ↦ true | _ ∷ _ ↦ false ];
      unavailable_reasons = reasons;
      cost = cost;
      effect = reward.effect;
      funding = funding_allocations env reward;
    })

  unfoldable pub evaluate_body : OrderRequest → Method Response
  unfolding reward_candidate
  evaluate_body request = do
    member ← active_member request.member_id
    assert_order env request.order member
    program ← gets (λ s. s.program)
    rewards ← map_each (reward_candidate request.member_id) program.rewards
    multiplier_bps ← earning_multiplier_bps env request.member_id
    amounts ← accrual_amounts request.order multiplier_bps
    let primary = primary_unit program
    let estimated =
        get_or (find (λ a. unit_eq a.unit primary) amounts)
          (record { unit = primary; amount = pos 0 })
    id ← next_id env "eval"
    held ← balances env request.member_id
    pure (record {
      context = response_context env request.context;
      body =
          evaluation_body id request.member_id request.order.order_id estimated
            (if ltb 1 (length amounts) then amounts else []) rewards held
            (future_iso env program.evaluation_ttl_seconds);
    })

  unfoldable pub evaluate : OrderRequest → Method Response
  unfolding evaluate_body
  evaluate request = once env "order.evaluate" request.context request.raw (evaluate_body request)

  -- the entry of one unit's amount, with a lot if it can expire
  unfoldable pub post_amount : OrderRequest → UnitAmount → Method LedgerEntry
  post_amount request amount = do
    program ← gets (λ s. s.program)
    let input = ledger_input request.member_id accrual amount.unit amount.amount
    let located = record input {
      order_id = some request.order.order_id;
      location_id = some request.order.scope.location_id;
    }
    if ltb_ℤ (pos 0) amount.amount && is_some (expiration_policy program amount.unit)
        then (do
          expires_at ← point_expiration_iso env amount.unit
          add_ledger env (record located { expires_at = some expires_at; create_point_lot = true }))
        else add_ledger env located

  -- the id of the n-th reward that a stamp card has earned a member
  abbrev pub cycle_prefix : String → String
  cycle_prefix member_id = "stamp-" ⧺ member_id ⧺ "-"

  -- the request that the engine makes for a full card
  abbrev pub cycle_request :
      String → RequestContext → ProgramDefinition → VisitStampPolicy → ℕ → IssueRequest
  cycle_request member_id context program policy cycle =
      let id = cycle_prefix member_id ⧺ env.number_text cycle in
      let inner = record context {
        request_id = context.request_id ⧺ ":stamp:" ⧺ env.number_text cycle;
        idempotency_key = id;
      } in
      let expires_at =
        option_elim policy.issued_reward_ttl_seconds none
          (λ seconds. some (future_iso env seconds)) in
      record {
        context = inner;
        issued_reward_id = id;
        member_id = member_id;
        program_id = program.program_id;
        reward_id = policy.issue_reward_id;
        expires_at = expires_at;
        artifact = none;
        raw = obj (
            field "context" (context_json inner) (
              field "issued_reward_id" (str id) (
                field "member_id" (str member_id) (
                  field "program_id" (str program.program_id) (
                    field "reward_id" (str policy.issue_reward_id)
                      (field "expires_at" (str_or_undefined expires_at) end))))));
      }

  -- one turn of the loop: the reward of a cycle, and the card's reset
  unfoldable pub issue_cycle : String → RequestContext → VisitStampPolicy → ℕ → Method (Unit {0})
  issue_cycle member_id context policy cycle = do
    program ← gets (λ s. s.program)
    issue_reward env (cycle_request member_id context program policy cycle)
    do_if policy.reset_on_issue (do
      let input = ledger_input member_id adjustment policy.unit (neg (pos policy.threshold))
      add_ledger env (record input {
        adjustment_id = some (cycle_prefix member_id ⧺ env.number_text cycle ⧺ "-reset");
        reason = some "Stamp-card threshold reset";
        qualifies_for_tier = some false;
      })
      pure tt)

  -- `while (issuedCycles < eligibleCycles)`, on the cycles that are left
  unfoldable pub issue_cycles :
      String → RequestContext → VisitStampPolicy → ℕ → ℕ → Method (Unit {0})
  unfolding issue_cycle
  issue_cycles member_id context policy zero cycles = pure tt
  issue_cycles member_id context policy (suc left) cycles = do
    issue_cycle member_id context policy (suc cycles)
    issue_cycles member_id context policy left (suc cycles)

  -- what a member has ever stamped
  unfoldable pub stamped : State → String → LoyaltyUnit → ℤ
  stamped s member_id unit =
      sum_by (λ entry. max_ℤ (pos 0) entry.amount)
        (filter
          (λ entry.
            str_eq entry.member_id member_id
            && operation_eq entry.operation accrual
            && unit_eq entry.unit unit)
          (values s.ledger))

  -- A negative balance earns no cycle; the threshold is positive, as `assertProgram` has it.
  unfoldable pub issue_threshold_rewards : String → RequestContext → Method (Unit {0})
  unfolding issue_cycles stamped
  issue_threshold_rewards member_id context = do
    program ← gets (λ s. s.program)
    branch program.visit_stamp_policy (pure tt) (λ policy. do
      issued_cycles ← gets (λ s.
          length (filter (λ id. starts_with id (cycle_prefix member_id)) (keys s.issued_rewards)))
      eligible_cycles ←
          if policy.reset_on_issue
          then (do
            held ← balance env member_id policy.unit
            pure (pos_part held.amount / policy.threshold + issued_cycles))
          else gets (λ s. pos_part (stamped s member_id policy.unit) / policy.threshold)
      issue_cycles member_id context policy (eligible_cycles - issued_cycles) issued_cycles)

  unfoldable pub accrue_again : OrderRequest → String → AccrualRecord → Method Response
  accrue_again request facts existing = do
    throw_if (not (str_eq existing.fingerprint facts)) conflict 409
    found ← gets (λ s. lookup existing.entry_id s.ledger)
    entry ← or_throw found conflict 409
    throw_if (not (str_eq entry.member_id request.member_id)) conflict 409
    entries ← gets (λ s. recorded_entries s existing.entry_id existing.entry_ids)
    ledger_response env request.context entry entries

  unfoldable pub accrue_new : OrderRequest → String → Method Response
  unfolding post_amount issue_threshold_rewards
  accrue_new request facts = do
    multiplier_bps ← earning_multiplier_bps env request.member_id
    amounts ← accrual_amounts request.order multiplier_bps
    entries ← map_each (post_amount request) amounts
    program ← gets (λ s. s.program)
    entry ← or_throw (primary_entry program entries) runtime_error 500
    modify (λ s. record s {
      accruals_by_order =
          insert request.order.order_id
            (record {
              entry_id = entry.entry_id;
              entry_ids = some (map (λ e. e.entry_id) entries);
              fingerprint = facts;
              multiplier_bps = multiplier_bps;
            })
            s.accruals_by_order;
    })
    issue_threshold_rewards request.member_id request.context
    ledger_response env request.context entry entries

  unfoldable pub accrual_body : OrderRequest → Method Response
  unfolding accrue_new accrue_again
  accrual_body request = do
    member ← active_member request.member_id
    assert_order env request.order member
    throw_if (not (is_paid request.order.status)) invalid_state 409
    facts ← fingerprint env (accrual_facts request)
    existing ← gets (λ s. lookup request.order.order_id s.accruals_by_order)
    branch existing (accrue_new request facts) (accrue_again request facts)

  unfoldable pub post_accrual : OrderRequest → Method Response
  unfolding accrual_body
  post_accrual request = once env "accrual.post" request.context request.raw (accrual_body request)
