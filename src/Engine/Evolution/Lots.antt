-- ===== src/Engine/Evolution/Lots.antt =====
-- The methods on lots evolve the state.
use loyalty_interchange_prot.Base.{
  ℕ, String, ◌≡◌, refl, true, false, get_or, if◌then◌else◌, Option, some, List, [], ◌∷◌, arith,
}
use loyalty_interchange_prot.Base.Assoc.{Assoc, lookup, insert, erase}
use loyalty_interchange_prot.Base.Int.{pos, neg}
use loyalty_interchange_prot.Protocol.Loyalty.{expiration}
use loyalty_interchange_prot.Engine.Ledger.{ledger_input, add_ledger}
use loyalty_interchange_prot.Exec.{
  Outcome, returned, threw, proceed, modify, gets, pure, for_each, ◌>>=◌, do_if, branch, throw,
  not_found,
}
use loyalty_interchange_prot.Exec.Follows.{Follows, follows_rules}
use loyalty_interchange_prot.Protocol.Primitives.{LoyaltyUnit}
use loyalty_interchange_prot.Engine.State.{Env, State, Method, PointLot, Consumption}
use loyalty_interchange_prot.Engine.Lots.{
  Lots, lot_unit, with_remaining, consume_loop, restore_loop, open_lots, expired_lots,
  consume_point_lots, restore_point_lots, expire_lot, expire_point_lots,
}
use loyalty_interchange_prot.Engine.Lots.Keyed.{
  IsKeyed, insert-IsKeyed, consume_loop-IsKeyed, restore_loop-IsKeyed, open_lots-IsKeyed,
  expired_lots-IsKeyed,
}
use loyalty_interchange_prot.Engine.Lots.Earned.{
  EarnedBy, IsEarned, IsEarned-kept, insert-IsEarned, consume_loop-IsEarned, restore_loop-IsEarned,
  open_lots-IsEarned, expired_lots-IsEarned,
}
use loyalty_interchange_prot.Engine.Evolution.Order.{
  Evolution, Evolution-refl, Evolution-trans, Evolves, Evolves-preorder, Moves-refl,
}
use loyalty_interchange_prot.Engine.Evolution.Writes.{Follows-modify, add_ledger-Evolves}

module _ (ids : ℕ → String → String) where
  -- Other lots that stand under entries of their own may take the place of the lots.
  lots-Evolves :
      (s : State) (lots : Lots)
      → (IsKeyed s.point_lots → IsKeyed lots)
      → (IsEarned s.ledger s.point_lots → IsEarned s.ledger lots)
      → Evolves ids s (record s { point_lots = lots })
  lots-Evolves s lots keyed earned w = record {
    well_formed = record {
      ledger_fresh = w.ledger_fresh;
      reservation_fresh = w.reservation_fresh;
      balanced = w.balanced;
      lots_keyed = keyed w.lots_keyed;
      lots_earned = earned w.lots_earned;
    };
    program_same = refl;
    count_le = omega arith;
    ledger_kept = λ id e h. h;
    reservations_move = λ id r h. (r, h, Moves-refl r);
  }

  consumptions-Evolves :
      (f : State → Assoc (List Consumption))
      → Follows (Evolves ids) (modify (λ s. record s { point_lot_consumptions = f s }))
  consumptions-Evolves f = Follows-modify ids _ (λ s. record {
    program = refl;
    id_count = refl;
    points = refl;
    ledger = refl;
    reservations = refl;
    point_lots = refl;
  })

  -- a method that writes other lots first
  after_lots :
      {A : Type 0} (s : State) (lots : Lots) (rest : Method A)
      → (IsKeyed s.point_lots → IsKeyed lots)
      → (IsEarned s.ledger s.point_lots → IsEarned s.ledger lots)
      → Follows (Evolves ids) rest
      → Evolves ids s (rest (record s { point_lots = lots })).1
  after_lots s lots rest keyed earned h =
      (Evolves-preorder ids).transitive s (record s { point_lots = lots }) _
        (lots-Evolves s lots keyed earned) (h.from (record s { point_lots = lots }))

ruleset lot_rules = (follows_rules, Evolves-preorder, consumptions-Evolves, add_ledger-Evolves)

module _ (env : Env) (distinct : (n m : ℕ) (p q : String) → env.ids n p ≡ env.ids m q → n ≡ m) where
  pub consume_point_lots-Evolves :
      (m : String) (unit : LoyaltyUnit) (n : ℕ) (id : Option String)
      → Follows (Evolves env.ids) (consume_point_lots env m unit n id)
  unfolding consume_point_lots ◌>>=◌ gets modify
  consume_point_lots-Evolves m unit n id = record {
    from = λ s.
        let (lots, consumed) = consume_loop n (open_lots env s m unit) s.point_lots in
        after_lots env.ids s lots
          (branch id (pure tt) (λ id.
            do_if (elim consumed [ [] ↦ false | _ ∷ _ ↦ true ])
              (modify (λ s. record s {
                point_lot_consumptions = insert id consumed s.point_lot_consumptions;
              }))))
          (λ k.
            consume_loop-IsKeyed n (open_lots env s m unit) s.point_lots
              (open_lots-IsKeyed env s m unit k) k)
          (λ k.
            consume_loop-IsEarned s.ledger n (open_lots env s m unit) s.point_lots
              (open_lots-IsEarned env s m unit k) k)
          (search lot_rules depth 12);
  }

  pub restore_point_lots-Evolves : (id : String) → Follows (Evolves env.ids) (restore_point_lots id)
  unfolding restore_point_lots ◌>>=◌ gets modify
  restore_point_lots-Evolves id = record {
    from = λ s.
        let consumed = get_or (lookup id s.point_lot_consumptions) [] in
        let (complete, lots) = restore_loop consumed s.point_lots in
        after_lots env.ids s lots
          (do_if (if complete then false else true) (throw not_found 500) >>= λ _.
            modify (λ s. record s { point_lot_consumptions = erase id s.point_lot_consumptions }))
          (restore_loop-IsKeyed consumed s.point_lots)
          (restore_loop-IsEarned s.ledger consumed s.point_lots) (search lot_rules depth 12);
  }

  expire_lot-Evolves :
      (key : String) (lot : PointLot) (s : State)
      → lot.entry_id ≡ key
      → EarnedBy s.ledger key lot
      → Evolves env.ids s (expire_lot env (key, lot) s).1
  unfolding expire_lot ◌>>=◌ gets modify
  expire_lot-Evolves key lot s e earned =
      let input =
        ledger_input lot.member_id expiration (lot_unit s.program lot) (neg (pos lot.remaining)) in
      after_lots env.ids s (insert key (with_remaining lot 0) s.point_lots)
        (add_ledger env (record input { related_entry_id = some lot.entry_id }) >>= λ _. pure tt)
        (insert-IsKeyed key (with_remaining lot 0) s.point_lots e)
        (insert-IsEarned s.ledger key (with_remaining lot 0) s.point_lots earned)
        (search (lot_rules, add_ledger-Evolves env distinct) depth 12)

  -- a method that goes on where another has ended
  go_on :
      (o : Outcome (Unit {0})) (m : Method (Unit {0})) (s t : State)
      → Evolution env.ids s t
      → Evolution env.ids t (m t).1
      → Evolution env.ids s (proceed o (λ _. m) t).1
  go_on (returned _) m s t e f = Evolution-trans env.ids e f
  go_on (threw _) m s t e f = e

  -- Lots that are earned stay so while others expire.
  expire_lots-Evolves :
      (lots : Lots) (s : State)
      → IsKeyed lots
      → IsEarned s.ledger lots
      → Evolves env.ids s (for_each (expire_lot env) lots s).1
  unfolding for_each IsKeyed IsEarned ◌>>=◌ pure
  expire_lots-Evolves [] s k earned w = Evolution-refl env.ids s w
  expire_lots-Evolves ((key, lot) ∷ lots) s k earned w =
      let t = (expire_lot env (key, lot) s).1 in
      let e = expire_lot-Evolves key lot s k.0 earned.0 w in
      go_on (expire_lot env (key, lot) s).0 (for_each (expire_lot env) lots) s t e (
        expire_lots-Evolves lots t k.2 (IsEarned-kept s.ledger t.ledger lots e.ledger_kept earned.1)
          e.well_formed)

  pub expire_point_lots-Evolves :
      (m : Option String) (unit : Option LoyaltyUnit)
      → Follows (Evolves env.ids) (expire_point_lots env m unit)
  unfolding expire_point_lots ◌>>=◌ gets
  expire_point_lots-Evolves m unit = record {
    from = λ s w.
        expire_lots-Evolves (expired_lots env s m unit) s
          (expired_lots-IsKeyed env s m unit w.lots_keyed)
          (expired_lots-IsEarned env s m unit w.lots_earned) w;
  }
