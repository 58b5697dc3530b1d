-- ===== src/Engine/Tests/Calls.antt =====
-- Examples of calls: enrolment and a manual posting, a capture, and idempotent calls.
use loyalty_interchange_prot.Base.{
  ℕ, suc, ◌≤◌, String, ◌≡◌, ◌≢◌, ◌⊎◌, refl, none, some, [], ◌∷◌, str_eq_iff, arith,
}
use loyalty_interchange_prot.Base.Int.{pos, negsuc, ◌+ℤ◌}
use loyalty_interchange_prot.Base.Assoc.{lookup, insert}
use loyalty_interchange_prot.Base.Json.{null, str}
use loyalty_interchange_prot.Exec.{
  returned, threw, idempotency_conflict, pure, ◌>>=◌, modify, gets, branch, throw_if, throw,
}
use loyalty_interchange_prot.Protocol.Primitives.{points}
use loyalty_interchange_prot.Protocol.Loyalty.{LedgerEntry, Reservation, manual, reserved, discount}
use loyalty_interchange_prot.Protocol.Messages.{Response, lookup_body}
use loyalty_interchange_prot.Engine.State.{Env, State, next_id}
use loyalty_interchange_prot.Engine.Ledger.{balance_key}
use loyalty_interchange_prot.Engine.Fingerprint.{
  stable_value, payload_v1, payload_v2, digest_of, fingerprint, idempotency_fingerprint_v1,
  idempotency_fingerprint_v2,
}
use loyalty_interchange_prot.Engine.Once.{
  once, once_key, replay, matches_record, run_and_record, with_replayed_request_id,
}
use loyalty_interchange_prot.Engine.Once.Replay.{once_replay}
use loyalty_interchange_prot.Engine.Once.Again.{once_again}
use loyalty_interchange_prot.Engine.Balances.{stored_amount}
use loyalty_interchange_prot.Engine.Lots.Earned.{IsEarned}
use loyalty_interchange_prot.Engine.Lots.Keyed.{IsKeyed}
use loyalty_interchange_prot.Engine.Calls.{
  new_engine, enroll_call, manual_call, capture_call, perform, at_time,
}
use loyalty_interchange_prot.Engine.Calls.History.{
  Reach, stored_amount-eq-key_sum, point_lots-IsEarned, ledger_append_only, reservations_move_on,
}
use loyalty_interchange_prot.Engine.Evolution.{key_sum, WellFormed, Moves}
use loyalty_interchange_prot.Engine.Tests.Data.{
  marks, marks_injective, env, distinct, program, context, enroll_ann, give_ann, capture_one,
}

abbrev enrolled : State
enrolled = perform (at_time env 1000) (enroll_call enroll_ann) (new_engine program)

abbrev given : State
given = perform (at_time env 2000) (manual_call give_ann) enrolled

enrolled-Reach : Reach env (new_engine program) enrolled
unfolding key_sum
enrolled-Reach = Reach.call Reach.here 1000 (enroll_call enroll_ann) (λ unit. refl)

given-Reach : Reach env (new_engine program) given
given-Reach = Reach.call enrolled-Reach 2000 (manual_call give_ann) tt

stored_amount-eq-key_sum_example :
    stored_amount env given "m1" points
    ≡ key_sum given.program (balance_key given.program "m1" points) given.ledger
stored_amount-eq-key_sum_example =
    stored_amount-eq-key_sum env distinct program "m1" points given-Reach

-- points that expire, which open a lot, and a correction that draws on it
abbrev lasting : State
lasting =
    perform (at_time env 3000)
      (manual_call (record give_ann {
        context = context "r4" "k4";
        adjustment_id = "a2";
        expires_at = some "2027";
      }))
      given

abbrev corrected : State
corrected =
    perform (at_time env 4000)
      (manual_call
        (record give_ann { context = context "r5" "k5"; adjustment_id = "a3"; amount = negsuc 29 }))
      lasting

corrected-Reach : Reach env (new_engine program) corrected
corrected-Reach = Reach.call (Reach.call given-Reach 3000 _ tt) 4000 _ tt

point_lots-IsEarned_example :
    IsKeyed corrected.point_lots × IsEarned corrected.ledger corrected.point_lots
point_lots-IsEarned_example = point_lots-IsEarned env distinct program corrected-Reach

-- an entry of 50 points, and a reservation of 20
abbrev entry : LedgerEntry
entry = record {
  entry_id = "|";
  member_id = "m1";
  program_id = "p";
  account_id = "points:m1";
  operation = manual;
  unit = points;
  amount = pos 50;
  occurred_at = "2026";
  expires_at = none;
  related_entry_id = none;
  order_id = none;
  location_id = none;
  adjustment_id = some "a1";
  reservation_id = none;
  classification = none;
  reason = none;
  qualifies_for_tier = none;
}

abbrev reservation : Reservation
reservation = record {
  reservation_id = "||";
  redemption_id = "d1";
  member_id = "m1";
  reward_id = "w1";
  issued_reward_id = none;
  order_id = "o1";
  location_id = none;
  status = reserved;
  cost = record { unit = points; amount = pos 20 };
  effect = discount (record { amount = pos 500; currency = "EUR" }) [];
  funding = [];
  created_at = "2026";
  expires_at = "2026";
  captured_at = none;
  reversed_at = none;
}

abbrev holding : State
holding = record (new_engine program) {
  id_count = 3;
  points = (balance_key program "m1" points, pos 50) ∷ [];
  ledger = ("|", entry) ∷ [];
  reservations = ("||", reservation) ∷ [];
}

-- a map with one key that the generator has passed
passed_key :
    {V : Type 0} (k n : ℕ) (v : V) → suc k ≤ n → lookup (marks n) ((marks k, v) ∷ []) ≡ none
unfolding lookup
passed_key k n v h = ground (arith, str_eq_iff (marks k) (marks n), marks_injective k n)

holding-WellFormed : WellFormed env.ids holding
unfolding lookup key_sum ◌+ℤ◌ marks IsKeyed IsEarned
holding-WellFormed = record {
  ledger_fresh = λ n h. passed_key 1 n entry (omega arith);
  reservation_fresh = λ n h. passed_key 2 n reservation (omega arith);
  balanced = λ key. ground arith;
  lots_keyed = tt;
  lots_earned = tt;
}

abbrev captured_state : State
captured_state = perform (at_time env 3000) (capture_call capture_one) holding

captured-Reach : Reach env holding captured_state
captured-Reach = Reach.call Reach.here 3000 (capture_call capture_one) tt

ledger_append_only_example : lookup "|" captured_state.ledger ≡ some entry
unfolding lookup
ledger_append_only_example =
    ledger_append_only env distinct "|" entry holding-WellFormed captured-Reach refl

reservations_move_on_example :
    (r : Reservation) × (lookup "||" captured_state.reservations ≡ some r) × Moves reservation r
unfolding lookup
reservations_move_on_example =
    reservations_move_on env distinct "||" reservation holding-WellFormed captured-Reach refl

abbrev answer : Response
answer = record {
  context = record { request_id = "r1"; processed_at = "2026" };
  body = lookup_body none [];
}

abbrev answered : State
answered = (once env "op" (context "r1" "k1") null (next_id env "x" >>= λ _. pure answer) holding).1

once_replay_example :
    once (record env { now = 5000 }) "op" (context "r9" "k1") null (pure answer) answered
    ≡ (returned (with_replayed_request_id answer "r9"), answered)
unfolding lookup once run_and_record once_key ◌>>=◌ gets branch modify pure next_id
    idempotency_fingerprint_v2 fingerprint digest_of payload_v2
once_replay_example =
    once_replay env 5000 "op" (context "r1" "k1") (context "r9" "k1") null null
      (next_id env "x" >>= λ _. pure answer) (pure answer) answer holding answered refl refl refl
      refl

-- a world that serializes null and texts
abbrev texts_env : Env
texts_env = record env {
  stringify = λ value. elim value [ str text ↦ some text | _ ↦ some "null" ];
}

abbrev answered_null : State
answered_null = (once texts_env "op" (context "r1" "k1") null (pure answer) holding).1

abbrev null_text : String
null_text = "null"

abbrev other : String
other = "other"

-- another payload under the key of the first call, at a later time
once_again_example :
    let again =
      once
        (record texts_env { now = 5000 })
        "op"
        (context "r9" "k1")
        (str "other")
        (pure answer)
        answered_null in
    (((null_text ≡ other) ⊎ (null_text ≡ other))
      × (again ≡ (returned (with_replayed_request_id answer "r9"), answered_null)))
    ⊎ ((null_text ≢ other)
        × (null_text ≢ other)
        × (again ≡ (threw (record { code = idempotency_conflict; status = 409 }), answered_null)))
unfolding lookup once run_and_record once_key ◌>>=◌ gets branch modify pure stable_value payload_v1
    idempotency_fingerprint_v2 fingerprint digest_of payload_v2
once_again_example =
    once_again texts_env 5000 "op" (context "r1" "k1") (context "r9" "k1") null (str "other")
      (pure answer) (pure answer) answer "null" "other" "other" holding answered_null refl refl refl
      refl refl refl (λ same. same) (λ same. same)

-- the other payload is refused
once_again_test :
    (once
      (record texts_env { now = 5000 })
      "op"
      (context "r9" "k1")
      (str "other")
      (pure answer)
      answered_null).0
    ≡ threw (record { code = idempotency_conflict; status = 409 })
unfolding once replay matches_record run_and_record once_key ◌>>=◌ gets branch modify pure throw_if
    throw stable_value payload_v1 idempotency_fingerprint_v1 idempotency_fingerprint_v2 fingerprint
    digest_of payload_v2 lookup insert
once_again_test = refl
