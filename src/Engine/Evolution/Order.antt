-- ===== src/Engine/Evolution/Order.antt =====
-- Well-formed states, the moves of a reservation, and the preorder on states.
use loyalty_interchange_prot.Base.{
  ℕ, ◌≤◌, String, ◌≡◌, refl, ◌∙◌, Bool, true, false, none, some, [], ◌∷◌, str_eq, get_or, arith,
  if◌then◌else◌,
}
use loyalty_interchange_prot.Base.Int.{ℤ, pos, ◌+ℤ◌}
use loyalty_interchange_prot.Base.Assoc.{Assoc, lookup}
use loyalty_interchange_prot.Exec.Follows.{IsPreorder}
use loyalty_interchange_prot.Protocol.Loyalty.{
  LedgerEntry, Reservation, ReservationStatus, reserved, captured, reversed, expired,
}
use loyalty_interchange_prot.Protocol.Program.{ProgramDefinition}
use loyalty_interchange_prot.Engine.State.{State}
use loyalty_interchange_prot.Engine.Ledger.{balance_key}
use loyalty_interchange_prot.Engine.Lots.Keyed.{IsKeyed}
use loyalty_interchange_prot.Engine.Lots.Earned.{IsEarned}

-- what the ledger's entries under one balance key add up to
abbrev pub key_amount : ProgramDefinition → String → LedgerEntry → ℤ
key_amount program key entry =
    if str_eq (balance_key program entry.member_id entry.unit) key then entry.amount else pos 0

unfoldable pub key_sum : ProgramDefinition → String → Assoc LedgerEntry → ℤ
key_sum program key [] = pos 0
key_sum program key ((_, entry) ∷ ledger) =
    key_amount program key entry +ℤ key_sum program key ledger

-- the transitions of a reservation, and staying
unfoldable pub may_become : ReservationStatus → ReservationStatus → Bool
may_become reserved _ = true
may_become captured captured = true
may_become captured reversed = true
may_become reversed reversed = true
may_become expired expired = true
may_become _ _ = false

-- a later form of a reservation: the facts of the redemption stay
pub record Moves (r r' : Reservation) : Type 0 where
  pub status : may_become r.status r'.status ≡ true
  pub member_id : r'.member_id ≡ r.member_id
  pub order_id : r'.order_id ≡ r.order_id
  pub reward_id : r'.reward_id ≡ r.reward_id
  pub cost : r'.cost ≡ r.cost
  pub issued_reward_id : r'.issued_reward_id ≡ r.issued_reward_id

may_become_refl : (a : ReservationStatus) → may_become a a ≡ true
unfolding may_become
may_become_refl reserved = refl
may_become_refl captured = refl
may_become_refl reversed = refl
may_become_refl expired = refl

may_become_trans :
    (a b c : ReservationStatus)
    → may_become a b ≡ true
    → may_become b c ≡ true
    → may_become a c ≡ true
unfolding may_become
may_become_trans a b c h k = ground arith

pub Moves-refl : (r : Reservation) → Moves r r
Moves-refl r = record {
  status = may_become_refl r.status;
  member_id = refl;
  order_id = refl;
  reward_id = refl;
  cost = refl;
  issued_reward_id = refl;
}

pub Moves-trans : {a b c : Reservation} → Moves a b → Moves b c → Moves a c
Moves-trans {a} {b} {c} h k = record {
  status = may_become_trans a.status b.status c.status h.status k.status;
  member_id = k.member_id ∙ h.member_id;
  order_id = k.order_id ∙ h.order_id;
  reward_id = k.reward_id ∙ h.reward_id;
  cost = k.cost ∙ h.cost;
  issued_reward_id = k.issued_reward_id ∙ h.issued_reward_id;
}

module _ (ids : ℕ → String → String) where
  -- The ids to come are unused, every balance is the sum of its entries, and every lot stands under
  -- the id of an entry of the ledger, of its member and unit.
  pub record WellFormed (s : State) : Type 0 where
    pub ledger_fresh : (n : ℕ) → s.id_count ≤ n → lookup (ids n "ledger") s.ledger ≡ none
    pub reservation_fresh :
        (n : ℕ) → s.id_count ≤ n → lookup (ids n "reservation") s.reservations ≡ none
    pub balanced :
        (key : String) → get_or (lookup key s.points) (pos 0) ≡ key_sum s.program key s.ledger
    pub lots_keyed : IsKeyed s.point_lots
    pub lots_earned : IsEarned s.ledger s.point_lots

  -- What holds of a later state: it is well-formed, entries are never changed or removed, and
  -- reservations only move on.
  pub record Evolution (s t : State) : Type 0 where
    pub well_formed : WellFormed t
    pub program_same : t.program ≡ s.program
    pub count_le : s.id_count ≤ t.id_count
    pub ledger_kept :
        (id : String) (e : LedgerEntry) → lookup id s.ledger ≡ some e → lookup id t.ledger ≡ some e
    pub reservations_move :
        (id : String) (r : Reservation)
        → lookup id s.reservations ≡ some r
        → (r' : Reservation) × (lookup id t.reservations ≡ some r') × Moves r r'

  abbrev pub Evolves : State → State → Type 0
  Evolves s t = WellFormed s → Evolution s t

  pub Evolution-refl : (s : State) → WellFormed s → Evolution s s
  Evolution-refl s w = record {
    well_formed = w;
    program_same = refl;
    count_le = omega arith;
    ledger_kept = λ id e h. h;
    reservations_move = λ id r h. (r, h, Moves-refl r);
  }

  pub Evolution-trans : {s t u : State} → Evolution s t → Evolution t u → Evolution s u
  Evolution-trans h k = record {
    well_formed = k.well_formed;
    program_same = k.program_same ∙ h.program_same;
    count_le = omega arith;
    ledger_kept = λ id e found. k.ledger_kept id e (h.ledger_kept id e found);
    reservations_move = λ id r found.
        let (r', found', moves) = h.reservations_move id r found in
        let (r'', found'', moves') = k.reservations_move id r' found' in
        (r'', found'', Moves-trans moves moves');
  }

  pub Evolves-preorder : IsPreorder Evolves
  Evolves-preorder = record {
    reflexive = Evolution-refl;
    transitive = λ s t u h k w. let e = h w in Evolution-trans e (k e.well_formed);
  }
