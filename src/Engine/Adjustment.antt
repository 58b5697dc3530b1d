-- ===== src/Engine/Adjustment.antt =====
-- Adjustments: `adjustOrder` and `postManualAdjustment`.
pub mod Debits
use loyalty_interchange_prot.Base.{
  ℕ, String, Bool, true, false, not, ◌&&◌, ◌||◌, Option, none, some, List, [], ◌∷◌, map, find,
  filter, any, str_eq, get_or, option_elim, is_some, if◌then◌else◌,
}
use loyalty_interchange_prot.Base.Int.{ℤ, pos, neg, abs, ltb_ℤ, eqb_ℤ, max_ℤ, ◌+ℤ◌, sum_by}
use loyalty_interchange_prot.Base.Assoc.{lookup, insert, values}
use loyalty_interchange_prot.Base.Json.{
  Json, str, number, boolean, obj, field, end, str_or_undefined,
}
use loyalty_interchange_prot.Exec.{
  pure, gets, modify, ◌>>=◌, ◌>>◌, throw_if, or_throw, branch, do_if, map_each, currency_mismatch,
  invalid_state, conflict, not_found, expired, runtime_error,
}
use loyalty_interchange_prot.Protocol.Primitives.{
  RequestContext, LoyaltyUnit, points, credits, unit_eq, unit_text,
}
use loyalty_interchange_prot.Protocol.Order.{OrderAdjustment, is_correction, is_full_refund_or_void}
use loyalty_interchange_prot.Protocol.Loyalty.{
  LedgerEntry, adjustment, manual, operation_eq, classification_text,
}
use loyalty_interchange_prot.Protocol.Messages.{Response, AdjustmentRequest, ManualRequest}
use loyalty_interchange_prot.Engine.State.{Env, State, Method, MutationRecord}
use loyalty_interchange_prot.Engine.Fingerprint.{fingerprint}
use loyalty_interchange_prot.Engine.Ledger.{
  LedgerInput, ledger_input, primary_unit, account_units, assert_account_unit, expiration_policy,
  point_expiration_iso, add_ledger,
}
use loyalty_interchange_prot.Engine.Lots.{consume_point_lots, expire_point_lots}
use loyalty_interchange_prot.Engine.Tiers.{earning_multiplier_bps}
use loyalty_interchange_prot.Engine.Earning.{assert_program_id, points_for_signed_spend}
use loyalty_interchange_prot.Engine.Once.{once, ledger_response}
use loyalty_interchange_prot.Engine.Issued.{active_member, expiry_passed}
use loyalty_interchange_prot.Engine.Accrual.{recorded_entries, primary_entry}

-- the sum of what adjustments of an order have posted to a unit
unfoldable pub prior_adjustments : State → String → LoyaltyUnit → ℤ
prior_adjustments s order_id unit =
    sum_by (λ entry. entry.amount)
      (filter
        (λ entry.
          option_elim entry.order_id false (λ id. str_eq id order_id)
          && operation_eq entry.operation adjustment
          && unit_eq entry.unit unit)
        (values s.ledger))

-- A debit takes no more than what is left of the original entry.
unfoldable pub clamp_debit : ℤ → ℤ → ℤ
clamp_debit amount left = max_ℤ amount (neg (max_ℤ (pos 0) left))

-- whether a unit is earned by spend
abbrev pub is_spend_unit : LoyaltyUnit → Bool
is_spend_unit unit = unit_eq unit points || unit_eq unit credits

abbrev pub original_amount : Option LedgerEntry → ℤ
original_amount entry = option_elim entry (pos 0) (λ e. e.amount)

-- what an order adjustment stands for
abbrev pub adjustment_facts : AdjustmentRequest → Json
adjustment_facts request = obj (
    field "member_id" (str request.member_id)
      (field "program_id" (str request.program_id) (field "adjustment" request.adjustment.raw end)))

-- what a manual adjustment stands for
abbrev pub manual_facts : ManualRequest → LoyaltyUnit → Json
manual_facts request unit = obj (
    field "member_id" (str request.member_id) (
      field "program_id" (str request.program_id) (
        field "adjustment_id" (str request.adjustment_id) (
          field "unit" (str (unit_text unit)) (
            field "amount" (number request.amount) (
              field "classification" (str (classification_text request.classification)) (
                field "reason" (str request.reason) (
                  field "qualifies_for_tier" (boolean request.qualifies_for_tier)
                    (field "expires_at" (str_or_undefined request.expires_at) end)))))))))

module _ (env : Env) where
  -- an entry that earns an amount which expires gets its expiry and its lot
  unfoldable pub post_expiring : LedgerInput → LoyaltyUnit → ℤ → Method LedgerEntry
  post_expiring input unit amount = do
    program ← gets (λ s. s.program)
    if ltb_ℤ (pos 0) amount && is_some (expiration_policy program unit)
        then (do
          expires_at ← point_expiration_iso env unit
          add_ledger env (record input { expires_at = some expires_at; create_point_lot = true }))
        else add_ledger env input

  -- the amount of one unit before the clamp
  unfoldable pub raw_amount :
      OrderAdjustment → Bool → Option LedgerEntry → ℕ → LoyaltyUnit → Method ℤ
  raw_amount a accrued original multiplier_bps unit =
      if is_spend_unit unit
      then if accrued && not (is_some original)
        then pure (pos 0)
        else points_for_signed_spend unit a.eligible_spend_delta.amount multiplier_bps
      else pure (if is_full_refund_or_void a.type then neg (original_amount original) else pos 0)

  -- the amount of one unit
  unfoldable pub adjusted_amount :
      OrderAdjustment → Bool → Option LedgerEntry → ℕ → LoyaltyUnit → Method ℤ
  unfolding raw_amount
  adjusted_amount a accrued original multiplier_bps unit = do
    amount ← raw_amount a accrued original multiplier_bps unit
    prior ← gets (λ s. prior_adjustments s a.original_order_id unit)
    pure (
        if ltb_ℤ amount (pos 0) && accrued
        then clamp_debit amount (original_amount original +ℤ prior)
        else amount)

  unfoldable pub adjust_unit :
      AdjustmentRequest → Bool → List LedgerEntry → ℕ → LoyaltyUnit → Method LedgerEntry
  unfolding adjusted_amount post_expiring
  adjust_unit request accrued originals multiplier_bps unit = do
    let original = find (λ candidate. unit_eq candidate.unit unit) originals
    amount ← adjusted_amount request.adjustment accrued original multiplier_bps unit
    do_if (ltb_ℤ amount (pos 0)) (consume_point_lots env request.member_id unit (abs amount) none)
    let input = ledger_input request.member_id adjustment unit amount
    post_expiring
        (record input {
          order_id = some request.adjustment.original_order_id;
          adjustment_id = some request.adjustment.adjustment_id;
        })
        unit amount

  -- `const existing = this.ledger.get(…)` of an adjustment that was made before
  unfoldable pub repeat_adjustment : RequestContext → String → MutationRecord → Method Response
  repeat_adjustment context facts existing = do
    throw_if (not (str_eq existing.fingerprint facts)) conflict 409
    found ← gets (λ s. lookup existing.entry_id s.ledger)
    entry ← or_throw found not_found 500
    ledger_response env context entry (entry ∷ [])

  unfoldable pub record_adjustment : String → MutationRecord → Method (Unit {0})
  record_adjustment id made = modify (λ s. record s { adjustments = insert id made s.adjustments })

  unfoldable pub adjust_new : AdjustmentRequest → String → Method Response
  unfolding adjust_unit record_adjustment
  adjust_new request facts = do
    let a = request.adjustment
    accrued ← gets (λ s. lookup a.original_order_id s.accruals_by_order)
    multiplier_bps ←
        branch accrued (earning_multiplier_bps env request.member_id) (λ r. pure r.multiplier_bps)
    originals ← gets (λ s. option_elim accrued [] (λ r. recorded_entries s r.entry_id r.entry_ids))
    program ← gets (λ s. s.program)
    entries ←
        map_each (adjust_unit request (is_some accrued) originals multiplier_bps)
          (account_units program)
    entry ← or_throw (primary_entry program entries) runtime_error 500
    record_adjustment a.adjustment_id (record {
      entry_id = entry.entry_id;
      entry_ids = some (map (λ e. e.entry_id) entries);
      fingerprint = facts;
    })
    ledger_response env request.context entry entries

  -- the checks of an order adjustment's money
  unfoldable pub check_adjustment : OrderAdjustment → Method (Unit {0})
  check_adjustment a = do
    program ← gets (λ s. s.program)
    let foreign = λ (currency : String). not (str_eq currency program.currency)
    throw_if (foreign a.eligible_spend_delta.currency) currency_mismatch 409
    throw_if
        (foreign a.order_total_delta.currency
          || foreign a.eligible_spend_delta.currency
          || any (λ line. foreign line.subtotal_delta.currency) (get_or a.lines []))
        currency_mismatch 409
    throw_if
        (not (is_correction a.type)
          && (ltb_ℤ (pos 0) a.order_total_delta.amount
              || ltb_ℤ (pos 0) a.eligible_spend_delta.amount))
        invalid_state 409

  unfoldable pub adjust_body : AdjustmentRequest → Method Response
  unfolding check_adjustment repeat_adjustment adjust_new
  adjust_body request = do
    active_member request.member_id
    expire_point_lots env (some request.member_id) none
    check_adjustment request.adjustment
    facts ← fingerprint env (adjustment_facts request)
    existing ← gets (λ s. lookup request.adjustment.adjustment_id s.adjustments)
    branch existing (adjust_new request facts) (repeat_adjustment request.context facts)

  unfoldable pub adjust_order : AdjustmentRequest → Method Response
  unfolding adjust_body
  adjust_order request = do
    assert_program_id request.program_id
    once env "order.adjust" request.context request.raw (adjust_body request)

  -- the expiry that a manual credit gets
  unfoldable pub manual_expiry : ManualRequest → LoyaltyUnit → Method (Option String)
  manual_expiry request unit = do
    program ← gets (λ s. s.program)
    if ltb_ℤ (pos 0) request.amount
        then branch request.expires_at
            (if is_some (expiration_policy program unit)
              then (do at ← point_expiration_iso env unit; pure (some at))
              else pure none)
            (λ at. pure (some at))
        else pure none

  unfoldable pub manual_new : ManualRequest → LoyaltyUnit → String → Method Response
  unfolding manual_expiry record_adjustment
  manual_new request unit facts = do
    do_if (ltb_ℤ request.amount (pos 0))
        (consume_point_lots env request.member_id unit (abs request.amount) none)
    expires_at ← manual_expiry request unit
    let input = ledger_input request.member_id manual unit request.amount
    entry ← add_ledger env (record input {
      adjustment_id = some request.adjustment_id;
      classification = some request.classification;
      reason = some request.reason;
      qualifies_for_tier = some request.qualifies_for_tier;
      expires_at = expires_at;
      create_point_lot = is_some expires_at;
    })
    record_adjustment request.adjustment_id
        (record { entry_id = entry.entry_id; entry_ids = none; fingerprint = facts })
    ledger_response env request.context entry (entry ∷ [])

  unfoldable pub manual_body : ManualRequest → Method Response
  unfolding manual_new repeat_adjustment
  manual_body request = do
    active_member request.member_id
    program ← gets (λ s. s.program)
    let unit = get_or request.unit (primary_unit program)
    assert_account_unit unit
    expire_point_lots env (some request.member_id) (some unit)
    throw_if (eqb_ℤ request.amount (pos 0)) invalid_state 409
    throw_if (ltb_ℤ request.amount (pos 0) && is_some request.expires_at) invalid_state 409
    throw_if (expiry_passed env request.expires_at) expired 409
    facts ← fingerprint env (manual_facts request unit)
    existing ← gets (λ s. lookup request.adjustment_id s.adjustments)
    branch existing (manual_new request unit facts) (repeat_adjustment request.context facts)

  unfoldable pub post_manual_adjustment : ManualRequest → Method Response
  unfolding manual_body
  post_manual_adjustment request = do
    assert_program_id request.program_id
    once env "ledger.manual" request.context request.raw (manual_body request)
