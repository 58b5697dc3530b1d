-- ===== src/Engine/Evolution/Writes.antt =====
-- The writes of the engine that evolve the state: the ledger, expiries, and the writes that leave
-- ledger, balances and reservations alone.
use loyalty_interchange_prot.Base.{
  ℕ, suc, ◌≤◌, String, ◌≡◌, refl, sym, ◌∙◌, Bool, true, false, Option, none, some, [], ◌∷◌,
  if◌then◌else◌, ◌++◌, str_eq, str_eq_iff, get_or, arith, inl, inr, Bool-cases,
}
use loyalty_interchange_prot.Base.Int.{ℤ, pos, ◌+ℤ◌, int_laws}
use loyalty_interchange_prot.Base.Assoc.{
  Assoc, lookup, insert, lookup-insert, lookup-insert_self, lookup-insert_ne, lookup-map_values,
  insert-append,
}
use loyalty_interchange_prot.Exec.Follows.{Follows}
use loyalty_interchange_prot.Exec.{modify}
use loyalty_interchange_prot.Protocol.Loyalty.{LedgerEntry, Reservation, reservation_status_eq}
use loyalty_interchange_prot.Protocol.Program.{ProgramDefinition}
use loyalty_interchange_prot.Engine.State.{Env, State, PointLot}
use loyalty_interchange_prot.Engine.Ledger.{
  LedgerInput, balance_key, new_entry, lot_of_entry, add_ledger,
}
use loyalty_interchange_prot.Engine.Lots.{Lots}
use loyalty_interchange_prot.Engine.Lots.Keyed.{IsKeyed, insert-IsKeyed}
use loyalty_interchange_prot.Engine.Lots.Earned.{IsEarned, IsEarned-kept, insert-IsEarned}
use loyalty_interchange_prot.Engine.Balances.{expire_reservation, expire_all_reservations}
use loyalty_interchange_prot.Engine.Evolution.Order.{
  key_amount, key_sum, may_become, Moves, Moves-refl, Evolves,
}

key_sum-append :
    (program : ProgramDefinition) (key id : String) (e : LedgerEntry) (ledger : Assoc LedgerEntry)
    → key_sum program key (ledger ++ (id, e) ∷ [])
      ≡ key_sum program key ledger +ℤ key_amount program key e
unfolding key_sum
key_sum-append program key id e [] = omega int_laws
key_sum-append program key id e ((j, old) ∷ ledger) =
    rw (key_sum-append program key id e ledger) (omega int_laws)

-- A new entry adds its amount under its own key.
pub key_sum-insert :
    (program : ProgramDefinition) (key id : String) (e : LedgerEntry) (ledger : Assoc LedgerEntry)
    → lookup id ledger ≡ none
    → key_sum program key (insert id e ledger)
      ≡ key_sum program key ledger +ℤ key_amount program key e
key_sum-insert program key id e ledger h =
    rw (insert-append id e ledger h) (key_sum-append program key id e ledger)

pub expire_reservation-Moves : (env : Env) (r : Reservation) → Moves r (expire_reservation env r)
unfolding expire_reservation may_become reservation_status_eq
expire_reservation-Moves env r = ground arith

opened-IsKeyed :
    (b : Bool) (j : String) (lot : PointLot) (lots : Lots)
    → lot.entry_id ≡ j
    → IsKeyed lots
    → IsKeyed (if b then insert j lot lots else lots)
opened-IsKeyed true j lot lots e k = insert-IsKeyed j lot lots e k
opened-IsKeyed false j lot lots e k = k

lot_of_entry-IsKeyed :
    (env : Env) (input : LedgerInput) (e : LedgerEntry) (lots : Lots) (o : Option String)
    → input.expires_at ≡ o
    → IsKeyed lots
    → IsKeyed (lot_of_entry env input e lots)
unfolding lot_of_entry
lot_of_entry-IsKeyed env input e lots none h k = rw (lot_of_entry, h) k
lot_of_entry-IsKeyed env input e lots (some at) h k =
    rw (lot_of_entry, h) (opened-IsKeyed _ e.entry_id _ lots refl k)

opened-IsEarned :
    (b : Bool) (e : LedgerEntry) (lot : PointLot) (lots : Lots) (ledger : Assoc LedgerEntry)
    → lot.member_id ≡ e.member_id
    → lot.unit ≡ some e.unit
    → IsEarned (insert e.entry_id e ledger) lots
    → IsEarned (insert e.entry_id e ledger) (if b then insert e.entry_id lot lots else lots)
opened-IsEarned true e lot lots ledger member unit k =
    insert-IsEarned (insert e.entry_id e ledger) e.entry_id lot lots
      (e, lookup-insert_self e.entry_id e ledger, sym member, unit) k
opened-IsEarned false e lot lots ledger member unit k = k

-- the lot of a new entry is earned by it
lot_of_entry-IsEarned :
    (env : Env) (input : LedgerInput) (e : LedgerEntry) (lots : Lots) (ledger : Assoc LedgerEntry)
    (o : Option String)
    → input.expires_at ≡ o
    → e.member_id ≡ input.member_id
    → IsEarned (insert e.entry_id e ledger) lots
    → IsEarned (insert e.entry_id e ledger) (lot_of_entry env input e lots)
unfolding lot_of_entry
lot_of_entry-IsEarned env input e lots ledger none h same k = rw (lot_of_entry, h) k
lot_of_entry-IsEarned env input e lots ledger (some at) h same k =
    rw (lot_of_entry, h) (opened-IsEarned _ e _ lots ledger (sym same) refl k)

-- the fields that evolution speaks of
pub record SameCore (s t : State) : Type 0 where
  pub program : t.program ≡ s.program
  pub id_count : t.id_count ≡ s.id_count
  pub points : t.points ≡ s.points
  pub ledger : t.ledger ≡ s.ledger
  pub reservations : t.reservations ≡ s.reservations
  pub point_lots : t.point_lots ≡ s.point_lots

module _ (ids : ℕ → String → String) where
  -- What leaves these fields alone evolves the state.
  pub SameCore-Evolves : (s t : State) → SameCore s t → Evolves ids s t
  SameCore-Evolves s t c w = record {
    well_formed = record {
      ledger_fresh = λ n h. rw c.ledger (w.ledger_fresh n (omega (arith, c.id_count)));
      reservation_fresh =
          λ n h. rw c.reservations (w.reservation_fresh n (omega (arith, c.id_count)));
      balanced = λ key. rw (c.points, c.ledger, c.program) (w.balanced key);
      lots_keyed = rw c.point_lots w.lots_keyed;
      lots_earned = rw (c.point_lots, c.ledger) w.lots_earned;
    };
    program_same = c.program;
    count_le = omega (arith, c.id_count);
    ledger_kept = λ id e h. rw c.ledger h;
    reservations_move = λ id r h. (r, rw c.reservations h, Moves-refl r);
  }

  pub Follows-modify :
      (f : State → State) → ((s : State) → SameCore s (f s)) → Follows (Evolves ids) (modify f)
  unfolding modify
  Follows-modify f same = record { from = λ s. SameCore-Evolves s (f s) (same s) }

  -- Every new entry is counted in the balance that it names.
  balanced_step :
      (program : ProgramDefinition) (points : Assoc ℤ) (ledger : Assoc LedgerEntry)
      (key id : String) (e : LedgerEntry) (at : String)
      → lookup id ledger ≡ none
      → get_or (lookup key points) (pos 0) ≡ key_sum program key ledger
      → at ≡ balance_key program e.member_id e.unit
      → get_or
          (lookup key (insert at (get_or (lookup at points) (pos 0) +ℤ e.amount) points))
          (pos 0)
        ≡ key_sum program key (insert id e ledger)
  balanced_step program points ledger key id e at new old same =
      rw (lookup-insert, key_sum-insert program key id e ledger new, ← old, ← same)
        (elim (Bool-cases (str_eq at key)) [
          | inl here ↦ let there : at ≡ key = (str_eq_iff at key).0 here in rw (here, there) refl
          | inr away ↦ rw away (omega int_laws)
        ])

  pub lookup-insert_fresh {ℓ} :
      {V : Type ℓ} (distinct : (n m : ℕ) (p q : String) → ids n p ≡ ids m q → n ≡ m) (n m : ℕ)
      (p q : String) (v : V) (t : Assoc V)
      → suc n ≤ m
      → lookup (ids m q) t ≡ none
      → lookup (ids m q) (insert (ids n p) v t) ≡ none
  lookup-insert_fresh distinct n m p q v t h none_before =
      lookup-insert_ne _ _ v t (λ same. absurd (omega (arith, distinct n m p q same))) ∙ none_before

module _ (env : Env) (distinct : (n m : ℕ) (p q : String) → env.ids n p ≡ env.ids m q → n ≡ m) where
  pub add_ledger-Evolves : (input : LedgerInput) → Follows (Evolves env.ids) (add_ledger env input)
  unfolding add_ledger new_entry
  add_ledger-Evolves input = record {
    from = λ s w.
        let fresh = w.ledger_fresh s.id_count (omega arith) in
        let entry = new_entry env s input in
        record {
          well_formed = record {
            ledger_fresh = λ n h.
                lookup-insert_fresh env.ids distinct _ n _ _ _ _ h (w.ledger_fresh n (omega arith));
            reservation_fresh = λ n h. w.reservation_fresh n (omega arith);
            balanced = λ key.
                balanced_step env.ids s.program s.points s.ledger key _ _ _ fresh (w.balanced key)
                  refl;
            lots_keyed =
                lot_of_entry-IsKeyed env input _ s.point_lots input.expires_at refl w.lots_keyed;
            lots_earned =
                lot_of_entry-IsEarned env input entry s.point_lots s.ledger input.expires_at refl
                  refl
                  (IsEarned-kept s.ledger _ s.point_lots
                    (λ id e found.
                      lookup-insert_ne _ id _ s.ledger (λ same. cc (rw same at fresh)) ∙ found)
                    w.lots_earned);
          };
          program_same = refl;
          count_le = omega arith;
          ledger_kept = λ id e found.
              lookup-insert_ne _ id _ s.ledger (λ same. cc (rw same at fresh)) ∙ found;
          reservations_move = λ id r found. (r, found, Moves-refl r);
        };
  }

  pub expire_all_reservations-Evolves : Follows (Evolves env.ids) (expire_all_reservations env)
  unfolding expire_all_reservations modify
  expire_all_reservations-Evolves = record {
    from = λ s w. record {
      well_formed = record {
        ledger_fresh = w.ledger_fresh;
        reservation_fresh = λ n h. rw (lookup-map_values, w.reservation_fresh n h);
        balanced = w.balanced;
        lots_keyed = w.lots_keyed;
        lots_earned = w.lots_earned;
      };
      program_same = refl;
      count_le = omega arith;
      ledger_kept = λ id e found. found;
      reservations_move = λ id r found.
          (expire_reservation env r, rw (lookup-map_values, found), expire_reservation-Moves env r);
    };
  }
