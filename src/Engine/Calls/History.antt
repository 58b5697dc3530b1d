-- ===== src/Engine/Calls/History.antt =====
-- Sequences of calls, each at its own time, and what holds after them.
use loyalty_interchange_prot.Base.{ℕ, String, ◌≡◌, refl, some}
use loyalty_interchange_prot.Base.Assoc.{lookup}
use loyalty_interchange_prot.Protocol.Primitives.{LoyaltyUnit}
use loyalty_interchange_prot.Protocol.Loyalty.{LedgerEntry, Reservation}
use loyalty_interchange_prot.Protocol.Program.{ProgramDefinition}
use loyalty_interchange_prot.Engine.State.{Env, State}
use loyalty_interchange_prot.Engine.Ledger.{balance_key}
use loyalty_interchange_prot.Engine.Balances.{stored_amount}
use loyalty_interchange_prot.Engine.Lots.Earned.{IsEarned}
use loyalty_interchange_prot.Engine.Lots.Keyed.{IsKeyed}
use loyalty_interchange_prot.Engine.Calls.{
  new_engine, Call, lookup_call, enroll_call, account_call, evaluate_call, accrual_call, issue_call,
  list_issued_call, cancel_issued_call, reserve_call, capture_call, reverse_call, adjust_call,
  manual_call, cancel_member_call, erase_member_call, membership_call, list_ledger_call,
  get_ledger_call, inspect_ledger_call, perform, at_time,
}
use loyalty_interchange_prot.Engine.Evolution.{
  key_sum, Moves, WellFormed, Evolution, Evolution-refl, Evolution-trans,
}
use loyalty_interchange_prot.Engine.Evolution.Operations.{
  issue_reward-Evolves, list_issued_rewards-Evolves, cancel_issued_reward-Evolves, evaluate-Evolves,
}
use loyalty_interchange_prot.Engine.Evolution.Listings.{
  list_ledger-Evolves, get_ledger-Evolves, inspect_ledger-Evolves,
}
use loyalty_interchange_prot.Engine.Evolution.Postings.{
  post_accrual-Evolves, adjust_order-Evolves, post_manual_adjustment-Evolves,
}
use loyalty_interchange_prot.Engine.Evolution.Redemptions.{
  reserve-Evolves, capture-Evolves, reverse-Evolves,
}
use loyalty_interchange_prot.Engine.Evolution.Enrolment.{
  lookup-Evolves, get_account-Evolves, cancel_member-Evolves, erase_member-Evolves,
  set_member_membership-Evolves, NoEntries, enrolled_id, enroll-From,
}

-- An enrolment is admissible where no entry stands under a key of the accounts that it opens;
-- every other call is admissible everywhere.
abbrev pub IsAdmissible : Env → Call → State → Type 0
IsAdmissible env (enroll_call q) s = NoEntries (enrolled_id env q s.id_count) s
IsAdmissible env _ s = Unit {0}

-- the states that calls lead to
pub data Reach (env : Env) (s : State) : State → Type 0 where
  here : Reach env s s
  call :
      {t : State}
      → Reach env s t
      → (now : ℕ) (c : Call) → IsAdmissible env c t
      → Reach env s (perform (at_time env now) c t)

module _ (env : Env) (distinct : (n m : ℕ) (p q : String) → env.ids n p ≡ env.ids m q → n ≡ m) where
  perform-Evolution :
      (now : ℕ) (c : Call) (s : State)
      → IsAdmissible env c s
      → WellFormed env.ids s
      → Evolution env.ids s (perform (at_time env now) c s)
  unfolding perform
  perform-Evolution now (lookup_call q) s a w =
      (lookup-Evolves (at_time env now) distinct q).from s w
  perform-Evolution now (enroll_call q) s a w =
      (enroll-From (at_time env now) distinct q s.id_count).from s w (refl, a)
  perform-Evolution now (account_call q) s a w =
      (get_account-Evolves (at_time env now) distinct q).from s w
  perform-Evolution now (evaluate_call q) s a w =
      (evaluate-Evolves (at_time env now) distinct q).from s w
  perform-Evolution now (accrual_call q) s a w =
      (post_accrual-Evolves (at_time env now) distinct q).from s w
  perform-Evolution now (issue_call q) s a w =
      (issue_reward-Evolves (at_time env now) distinct q).from s w
  perform-Evolution now (list_issued_call q) s a w =
      (list_issued_rewards-Evolves (at_time env now) distinct q).from s w
  perform-Evolution now (cancel_issued_call q) s a w =
      (cancel_issued_reward-Evolves (at_time env now) distinct q).from s w
  perform-Evolution now (reserve_call q) s a w =
      (reserve-Evolves (at_time env now) distinct q).from s w
  perform-Evolution now (capture_call q) s a w =
      (capture-Evolves (at_time env now) distinct q).from s w
  perform-Evolution now (reverse_call q) s a w =
      (reverse-Evolves (at_time env now) distinct q).from s w
  perform-Evolution now (adjust_call q) s a w =
      (adjust_order-Evolves (at_time env now) distinct q).from s w
  perform-Evolution now (manual_call q) s a w =
      (post_manual_adjustment-Evolves (at_time env now) distinct q).from s w
  perform-Evolution now (cancel_member_call id) s a w =
      (cancel_member-Evolves (at_time env now) distinct id).from s w
  perform-Evolution now (erase_member_call id) s a w =
      (erase_member-Evolves (at_time env now) distinct id).from s w
  perform-Evolution now (membership_call id x) s a w =
      (set_member_membership-Evolves (at_time env now) distinct id x).from s w
  perform-Evolution now (list_ledger_call q) s a w =
      (list_ledger-Evolves (at_time env now) distinct q).from s w
  perform-Evolution now get_ledger_call s a w =
      (get_ledger-Evolves (at_time env now) distinct).from s w
  perform-Evolution now inspect_ledger_call s a w =
      (inspect_ledger-Evolves (at_time env now) distinct).from s w

  Reach-Evolution : {s t : State} → WellFormed env.ids s → Reach env s t → Evolution env.ids s t
  Reach-Evolution {s} w here = Evolution-refl env.ids s w
  Reach-Evolution w (call {t} r now c a) =
      let e = Reach-Evolution w r in
      Evolution-trans env.ids e (perform-Evolution now c t a e.well_formed)

  pub new_engine-WellFormed :
      (program : ProgramDefinition) → WellFormed env.ids (new_engine program)
  unfolding lookup key_sum IsKeyed IsEarned
  new_engine-WellFormed program = record {
    ledger_fresh = λ n h. refl;
    reservation_fresh = λ n h. refl;
    balanced = λ key. refl;
    lots_keyed = tt;
    lots_earned = tt;
  }

  -- After any admissible calls on a new engine, with ids that never repeat, every stored balance is
  -- the sum of the ledger entries under its key.
  pub stored_amount-eq-key_sum :
      (program : ProgramDefinition) {t : State} (member_id : String) (unit : LoyaltyUnit)
      → Reach env (new_engine program) t
      → stored_amount env t member_id unit
        ≡ key_sum t.program (balance_key t.program member_id unit) t.ledger
  unfolding stored_amount
  stored_amount-eq-key_sum program {t} member_id unit r =
      (Reach-Evolution (new_engine-WellFormed program) r).well_formed.balanced
        (balance_key t.program member_id unit)

  -- After any admissible calls on a new engine, with ids that never repeat, every point lot stands
  -- under the entry id that it names and no two under one id, and the ledger has an entry under that
  -- id, of the lot's member and unit.
  pub point_lots-IsEarned :
      (program : ProgramDefinition) {t : State}
      → Reach env (new_engine program) t
      → IsKeyed t.point_lots × IsEarned t.ledger t.point_lots
  point_lots-IsEarned program r =
      let w = (Reach-Evolution (new_engine-WellFormed program) r).well_formed in
      (w.lots_keyed, w.lots_earned)

  -- From a well-formed state, with ids that never repeat, admissible calls change or remove no
  -- ledger entry.
  pub ledger_append_only :
      {s t : State} (id : String) (e : LedgerEntry)
      → WellFormed env.ids s
      → Reach env s t
      → lookup id s.ledger ≡ some e
      → lookup id t.ledger ≡ some e
  ledger_append_only id e w r = (Reach-Evolution w r).ledger_kept id e

  -- From a well-formed state, with ids that never repeat, admissible calls keep every reservation
  -- with its member, order, reward, issued reward and cost, and its status only moves on: from
  -- reserved to any, from captured to reversed, from reversed and expired to none other.
  pub reservations_move_on :
      {s t : State} (id : String) (r : Reservation)
      → WellFormed env.ids s
      → Reach env s t
      → lookup id s.reservations ≡ some r
      → (r' : Reservation) × (lookup id t.reservations ≡ some r') × Moves r r'
  reservations_move_on id r w reach = (Reach-Evolution w reach).reservations_move id r
