-- ===== src/Engine/Evolution/Enrolment.antt =====
-- Members: the operations that leave balances alone evolve the state, and so does `enroll` where
-- the new member's accounts have no entries yet.
use loyalty_interchange_prot.Base.{
  ℕ, String, ◌≡◌, refl, inl, inr, Option, none, some, List, [], ◌∷◌, str_eq, str_eq_iff, get_or,
  arith, Bool-cases,
}
use loyalty_interchange_prot.Base.Int.{ℤ, pos}
use loyalty_interchange_prot.Base.Json.{Json}
use loyalty_interchange_prot.Base.Assoc.{Assoc, lookup, lookup-insert}
use loyalty_interchange_prot.Exec.{modify, pure, gets, ◌>>=◌, branch}
use loyalty_interchange_prot.Exec.Follows.{Follows, follows_rules}
use loyalty_interchange_prot.Protocol.Primitives.{LoyaltyUnit, Member, RequestContext}
use loyalty_interchange_prot.Protocol.Program.{ProgramDefinition}
use loyalty_interchange_prot.Protocol.Messages.{
  Response, MemberLookupRequest, MemberEnrollRequest, MemberAccountRequest,
}
use loyalty_interchange_prot.Engine.State.{Env, State, Method, next_id}
use loyalty_interchange_prot.Engine.Ledger.{balance_key, account_units}
use loyalty_interchange_prot.Engine.Earning.{assert_program_id}
use loyalty_interchange_prot.Engine.Once.{once}
use loyalty_interchange_prot.Engine.Members.{
  put_member, zero_balances, find_member, expiring_balances, lookup_member_body, lookup_member,
  enrolled_response, new_member, add_member, enroll_with, enroll_new, enroll_again, enrollment,
  enroll, account_of, get_account, cancel_member, inspect_member_erasure, forget_member,
  erase_member, set_member_membership,
}
use loyalty_interchange_prot.Engine.Evolution.Order.{
  key_sum, Moves-refl, WellFormed, Evolution, Evolution-trans, Evolves,
}
use loyalty_interchange_prot.Engine.Evolution.Methods.{next_id-Evolves}
use loyalty_interchange_prot.Engine.Evolution.Writes.{Follows-modify}
use loyalty_interchange_prot.Engine.Evolution.Operations.{
  method_rules, once-Evolves, replay-Evolves,
}
use loyalty_interchange_prot.Engine.Evolution.Guarded.{
  From, Keeps-preorder, From-any, From-bind, From-throw_if, From-then, From-branch,
}

module _ (env : Env) (distinct : (n m : ℕ) (p q : String) → env.ids n p ≡ env.ids m q → n ≡ m) where
  put_member-Evolves : (key : String) (m : Member) → Follows (Evolves env.ids) (put_member key m)
  unfolding put_member
  put_member-Evolves key m = Follows-modify env.ids _ (λ s. record {
    program = refl;
    id_count = refl;
    points = refl;
    ledger = refl;
    reservations = refl;
    point_lots = refl;
  })

  find_member-Evolves : (key : String) → Follows (Evolves env.ids) (find_member key)
  unfolding find_member
  find_member-Evolves key = search method_rules

  forget_member-Evolves :
      (key : String) (m : Member) → Follows (Evolves env.ids) (forget_member env key m)
  unfolding forget_member
  forget_member-Evolves key m = Follows-modify env.ids _ (λ s. record {
    program = refl;
    id_count = refl;
    points = refl;
    ledger = refl;
    reservations = refl;
    point_lots = refl;
  })

  expiring_balances-Evolves : (m : String) → Follows (Evolves env.ids) (expiring_balances env m)
  unfolding expiring_balances
  expiring_balances-Evolves m = search method_rules depth 8

  lookup_member-Evolves :
      (q : MemberLookupRequest) → Follows (Evolves env.ids) (lookup_member_body env q)
  unfolding lookup_member_body
  lookup_member-Evolves q = search method_rules depth 14

  pub lookup-Evolves : (q : MemberLookupRequest) → Follows (Evolves env.ids) (lookup_member env q)
  unfolding lookup_member
  lookup-Evolves q = search (method_rules, once-Evolves, lookup_member-Evolves) depth 8

  account_of-Evolves : (q : MemberAccountRequest) → Follows (Evolves env.ids) (account_of env q)
  unfolding account_of
  account_of-Evolves q = search (method_rules, expiring_balances-Evolves) depth 16

  pub get_account-Evolves :
      (q : MemberAccountRequest) → Follows (Evolves env.ids) (get_account env q)
  unfolding get_account
  get_account-Evolves q = search (method_rules, once-Evolves, account_of-Evolves) depth 8

  pub cancel_member-Evolves : (key : String) → Follows (Evolves env.ids) (cancel_member env key)
  unfolding cancel_member
  cancel_member-Evolves key =
      search (method_rules, find_member-Evolves, put_member-Evolves) depth 10

  inspect-Evolves : (key : String) → Follows (Evolves env.ids) (inspect_member_erasure env key)
  unfolding inspect_member_erasure
  inspect-Evolves key = search (method_rules, find_member-Evolves) depth 10

  pub erase_member-Evolves : (key : String) → Follows (Evolves env.ids) (erase_member env key)
  unfolding erase_member
  erase_member-Evolves key =
      search (method_rules, find_member-Evolves, forget_member-Evolves, inspect-Evolves) depth 10

  pub set_member_membership-Evolves :
      (key : String) (x : Option Json) → Follows (Evolves env.ids) (set_member_membership env key x)
  unfolding set_member_membership
  set_member_membership-Evolves key x =
      search (method_rules, find_member-Evolves, put_member-Evolves) depth 10

  enrolled_response-Evolves :
      (q : MemberEnrollRequest) (m : Member) → Follows (Evolves env.ids) (enrolled_response env q m)
  unfolding enrolled_response
  enrolled_response-Evolves q m = search method_rules depth 10

  enroll_again-Evolves :
      (q : MemberEnrollRequest) (id : String) → Follows (Evolves env.ids) (enroll_again env q id)
  unfolding enroll_again
  enroll_again-Evolves q id = search (method_rules, enrolled_response-Evolves) depth 12

-- what a zeroed account holds afterwards: nothing, or what it held
lookup-zero_balances :
    (program : ProgramDefinition) (id : String) (units : List LoyaltyUnit) (points : Assoc ℤ)
    (key : String) (sum : ℤ)
    → ((unit : LoyaltyUnit) → balance_key program id unit ≡ key → sum ≡ pos 0)
    → get_or (lookup key points) (pos 0) ≡ sum
    → get_or (lookup key (zero_balances program id units points)) (pos 0) ≡ sum
unfolding zero_balances
lookup-zero_balances program id [] points key sum empty h = h
lookup-zero_balances program id (unit ∷ units) points key sum empty h =
    lookup-zero_balances program id units _ key sum empty (
      rw lookup-insert (elim (Bool-cases (str_eq (balance_key program id unit) key)) [
        | inl here ↦ rw here (ground (arith, empty unit ((str_eq_iff _ key).0 here)))
        | inr away ↦ rw away h
      ]))

-- the id that a request enrols: its own, or the next of the generator
abbrev pub enrolled_id : Env → MemberEnrollRequest → ℕ → String
enrolled_id env q n = get_or q.member_id (env.ids n "member")

-- No entry stands under a key of the accounts that `id` would get.
abbrev pub NoEntries : String → State → Type 0
NoEntries id s =
    (unit : LoyaltyUnit) → key_sum s.program (balance_key s.program id unit) s.ledger ≡ pos 0

module _ (env : Env) (distinct : (n m : ℕ) (p q : String) → env.ids n p ≡ env.ids m q → n ≡ m) where
  -- The balances of a new member start at zero, and so do the sums.
  add_member-Evolution :
      (s : State) (key : String) (m : Member)
      → WellFormed env.ids s
      → NoEntries m.member_id s
      → Evolution env.ids s (add_member env key m s).1
  unfolding add_member modify
  add_member-Evolution s key m w empty = record {
    well_formed = record {
      ledger_fresh = w.ledger_fresh;
      reservation_fresh = w.reservation_fresh;
      balanced = λ k.
          lookup-zero_balances s.program m.member_id (account_units s.program) s.points k
            (key_sum s.program k s.ledger) (λ unit same. rw same at (empty unit)) (w.balanced k);
      lots_keyed = w.lots_keyed;
      lots_earned = w.lots_earned;
    };
    program_same = refl;
    count_le = omega arith;
    ledger_kept = λ id e h. h;
    reservations_move = λ id r h. (r, h, Moves-refl r);
  }

  module _ (q : MemberEnrollRequest) (n : ℕ) where
    -- the count is `n`, and the accounts to come have no entries
    abbrev Ready : State → Type 0
    Ready s = (s.id_count ≡ n) × NoEntries (enrolled_id env q n) s

    abbrev ReadyEvolves : State → State → Type 0
    ReadyEvolves = From env.ids (NoEntries (enrolled_id env q n))

    add_member-From :
        (key : String) (m : Member)
        → m.member_id ≡ enrolled_id env q n
        → Follows ReadyEvolves (add_member env key m)
    add_member-From key m same = record {
      from = λ s w empty. add_member-Evolution s key m w (rw same empty);
    }

    -- from the choice of the id on
    enroll_with-From :
        (key : String) (id : String)
        → id ≡ enrolled_id env q n
        → Follows ReadyEvolves (enroll_with env q key id)
    unfolding enroll_with
    enroll_with-From key id same =
        From-bind env.ids (NoEntries (enrolled_id env q n)) (gets _) _ (search method_rules)
          (search (follows_rules, Keeps-preorder))
          λ taken. From-throw_if env.ids (NoEntries (enrolled_id env q n)) taken _ _ _ λ _.
            From-bind env.ids (NoEntries (enrolled_id env q n)) (gets _) _ (search method_rules)
              (search (follows_rules, Keeps-preorder))
              λ tier_id.
                From-then env.ids (NoEntries (enrolled_id env q n)) _ _
                  (add_member-From key (new_member env q tier_id id) same)
                  (λ _. enrolled_response-Evolves env distinct q _)

    enroll_choice :
        (key : String) (o : Option String)
        → q.member_id ≡ o
        → (s : State) → WellFormed env.ids s
        → Ready s
        → Evolution env.ids s ((branch o (next_id env "member") pure >>= enroll_with env q key) s).1
    unfolding ◌>>=◌ branch next_id pure
    enroll_choice key none e s w ready =
        let step = (next_id-Evolves env distinct "member").from s w in
        Evolution-trans env.ids step (
          (enroll_with-From key (env.ids s.id_count "member") (rw (e, ready.0) refl)).from _
            step.well_formed ready.1)
    enroll_choice key (some id) e s w ready = (enroll_with-From key id (rw e refl)).from s w ready.1

    enroll_new-From : (key : String) → Follows (From env.ids Ready) (enroll_new env q key)
    unfolding enroll_new
    enroll_new-From key = record { from = enroll_choice key q.member_id refl }

    enrollment-From : Follows (From env.ids Ready) (enrollment env q)
    unfolding enrollment
    enrollment-From =
        From-bind env.ids Ready (gets _) _ (search method_rules)
          (search (follows_rules, Keeps-preorder))
          λ existing.
            From-branch env.ids Ready existing _ _ (enroll_new-From _)
              (λ id. From-any env.ids Ready (enroll_again-Evolves env distinct q id))

    once-From :
        (op : String) (c : RequestContext) (raw : Json) (run : Method Response)
        → Follows (From env.ids Ready) run
        → Follows (From env.ids Ready) (once env op c raw run)
    unfolding once
    once-From op c raw run h =
        From-bind env.ids Ready (gets _) _ (search method_rules)
          (search (follows_rules, Keeps-preorder))
          λ prior.
            From-branch env.ids Ready prior _ _
              (From-then env.ids Ready run _ h (λ response. search method_rules depth 8))
              (λ p. From-any env.ids Ready (replay-Evolves env distinct c raw p))

    -- Enrolling evolves a state in which the new member's accounts have no entries.
    pub enroll-From : Follows (From env.ids Ready) (enroll env q)
    unfolding enroll assert_program_id
    enroll-From =
        From-bind env.ids Ready (assert_program_id q.program_id) _ (search method_rules)
          (search (follows_rules, Keeps-preorder))
          λ _. once-From "member.enroll" q.context q.raw (enrollment env q) enrollment-From
