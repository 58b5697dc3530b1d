-- ===== src/Engine/Calls.antt =====
-- The engine as its clients see it: an engine without state, its calls, and what sequences of calls
-- reach. The calls are the public methods of `LoyaltyEngine` that this library models.
pub mod History
use loyalty_interchange_prot.Base.{ℕ, String, Option, [], List}
use loyalty_interchange_prot.Base.Json.{Json}
use loyalty_interchange_prot.Protocol.Program.{ProgramDefinition}
use loyalty_interchange_prot.Protocol.Messages.{
  MemberLookupRequest, MemberEnrollRequest, MemberAccountRequest, OrderRequest, ReserveRequest,
  CaptureRequest, ReverseRequest, IssueRequest, IssuedListRequest, IssuedCancelRequest,
  AdjustmentRequest, ManualRequest, LedgerListRequest,
}
use loyalty_interchange_prot.Engine.State.{Env, State}
use loyalty_interchange_prot.Engine.Members.{
  lookup_member, enroll, get_account, cancel_member, erase_member, set_member_membership,
}
use loyalty_interchange_prot.Engine.Accrual.{evaluate, post_accrual}
use loyalty_interchange_prot.Engine.Issued.{issue_reward, list_issued_rewards, cancel_issued_reward}
use loyalty_interchange_prot.Engine.Redemption.{reserve, capture, reverse}
use loyalty_interchange_prot.Engine.Adjustment.{adjust_order, post_manual_adjustment}
use loyalty_interchange_prot.Engine.Listing.{list_ledger, get_ledger, inspect_ledger}

-- the maps of an engine that is constructed without a stored state
abbrev pub new_engine : ProgramDefinition → State
new_engine program = record {
  program = program;
  id_count = 0;
  members = [];
  identity_index = [];
  points = [];
  reservations = [];
  ledger = [];
  point_lots = [];
  point_lot_consumptions = [];
  idempotency = [];
  accruals_by_order = [];
  adjustments = [];
  reservations_by_redemption = [];
  issued_rewards = [];
}

pub data Call : Type 0 where
  lookup_call : MemberLookupRequest → Call
  enroll_call : MemberEnrollRequest → Call
  account_call : MemberAccountRequest → Call
  evaluate_call : OrderRequest → Call
  accrual_call : OrderRequest → Call
  issue_call : IssueRequest → Call
  list_issued_call : IssuedListRequest → Call
  cancel_issued_call : IssuedCancelRequest → Call
  reserve_call : ReserveRequest → Call
  capture_call : CaptureRequest → Call
  reverse_call : ReverseRequest → Call
  adjust_call : AdjustmentRequest → Call
  manual_call : ManualRequest → Call
  cancel_member_call : String → Call
  erase_member_call : String → Call
  membership_call : String → Option Json → Call
  list_ledger_call : LedgerListRequest → Call
  get_ledger_call inspect_ledger_call : Call

-- the state after a call, whether it returns or throws
unfoldable pub perform : Env → Call → State → State
perform env (lookup_call q) s = (lookup_member env q s).1
perform env (enroll_call q) s = (enroll env q s).1
perform env (account_call q) s = (get_account env q s).1
perform env (evaluate_call q) s = (evaluate env q s).1
perform env (accrual_call q) s = (post_accrual env q s).1
perform env (issue_call q) s = (issue_reward env q s).1
perform env (list_issued_call q) s = (list_issued_rewards env q s).1
perform env (cancel_issued_call q) s = (cancel_issued_reward env q s).1
perform env (reserve_call q) s = (reserve env q s).1
perform env (capture_call q) s = (capture env q s).1
perform env (reverse_call q) s = (reverse env q s).1
perform env (adjust_call q) s = (adjust_order env q s).1
perform env (manual_call q) s = (post_manual_adjustment env q s).1
perform env (cancel_member_call id) s = (cancel_member env id s).1
perform env (erase_member_call id) s = (erase_member env id s).1
perform env (membership_call id x) s = (set_member_membership env id x s).1
perform env (list_ledger_call q) s = (list_ledger env q s).1
perform env get_ledger_call s = (get_ledger env s).1
perform env inspect_ledger_call s = (inspect_ledger env s).1

-- the same surroundings at another time
abbrev pub at_time : Env → ℕ → Env
at_time env now = record env { now = now }
