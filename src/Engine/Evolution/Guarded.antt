-- ===== src/Engine/Evolution/Guarded.antt =====
-- Evolution from a state whose reservation under a key is known: the rules for a capture and a
-- reversal, which read a reservation, work, and write it back.
use loyalty_interchange_prot.Base.{
  ℕ, suc, String, ◌≡◌, refl, ◌∙◌, inl, inr, Bool, true, false, Option, none, some, str_eq,
  str_eq_iff, arith, Bool-cases, Option-cases, if◌then◌else◌,
}
use loyalty_interchange_prot.Base.Assoc.{
  lookup, insert, lookup-insert, lookup-insert_self, lookup-insert_ne,
}
use loyalty_interchange_prot.Exec.{
  ErrorCode, Outcome, returned, threw, proceed, ◌>>=◌, throw, modify, throw_if, gets, or_throw,
  pure, branch,
}
use loyalty_interchange_prot.Exec.Follows.{IsPreorder, Follows}
use loyalty_interchange_prot.Protocol.Loyalty.{Reservation, reservation_status_eq}
use loyalty_interchange_prot.Engine.State.{Env, State, Method, next_id}
use loyalty_interchange_prot.Engine.Balances.{expire_reservation}
use loyalty_interchange_prot.Engine.Redemption.{
  get_reservation, put_reservation, refresh_reservation,
}
use loyalty_interchange_prot.Engine.Evolution.Order.{
  Moves, Moves-refl, WellFormed, Evolution, Evolution-refl, Evolution-trans, Evolves,
}
use loyalty_interchange_prot.Engine.Evolution.Writes.{expire_reservation-Moves, lookup-insert_fresh}

module _ (ids : ℕ → String → String) where
  -- A reservation that is written back under its key has to have moved on.
  pub put_reservation-Evolution :
      (s : State) (key : String) (r r' : Reservation)
      → WellFormed ids s
      → lookup key s.reservations ≡ some r
      → Moves r r'
      → Evolution ids s (put_reservation key r' s).1
  unfolding put_reservation modify
  put_reservation-Evolution s key r r' w found moves = record {
    well_formed = record {
      ledger_fresh = w.ledger_fresh;
      reservation_fresh = λ n h.
          lookup-insert_ne key _ r' s.reservations
            (λ same. cc (rw (← same) at (w.reservation_fresh n h)))
          ∙ w.reservation_fresh n h;
      balanced = w.balanced;
      lots_keyed = w.lots_keyed;
      lots_earned = w.lots_earned;
    };
    program_same = refl;
    count_le = omega arith;
    ledger_kept = λ id e h. h;
    reservations_move = λ id x h. elim (Bool-cases (str_eq key id)) [
      | inl here ↦
          let same : key ≡ id = (str_eq_iff key id).0 here in
          let old : r ≡ x = cc in (r', rw (lookup-insert, here) refl, rw old at moves)
      | inr away ↦ (x, rw (lookup-insert, away) h, Moves-refl x)
    ];
  }

module _ (ids : ℕ → String → String) (P : State → Type 0) where
  -- evolution from a state of which `P` is known
  abbrev pub From : State → State → Type 0
  From s t = WellFormed ids s → P s → Evolution ids s t

  -- `P` stays true
  abbrev pub Keeps : State → State → Type 0
  Keeps s t = P s → P t

  pub Keeps-preorder : IsPreorder Keeps
  Keeps-preorder = record { reflexive = λ s h. h; transitive = λ s t u f g h. g (f h) }

  pub From-any : {A : Type 0} {m : Method A} → Follows (Evolves ids) m → Follows From m
  From-any h = record { from = λ s w known. h.from s w }

  pub From-bind :
      {A B : Type 0} (m : Method A) (f : A → Method B)
      → Follows (Evolves ids) m
      → Follows Keeps m
      → ((a : A) → Follows From (f a))
      → Follows From (m >>= f)
  unfolding ◌>>=◌
  From-bind {A} {B} m f evolves keeps rest = record {
    from = λ s w known.
        let e = evolves.from s w in
        Evolution-trans ids e (after (m s).0 (m s).1 e.well_formed (keeps.from s known));
  }
    where
      after :
          (o : Outcome A) (t : State) → WellFormed ids t → P t → Evolution ids t (proceed o f t).1
      after (returned a) t w known = (rest a).from t w known
      after (threw e) t w known = Evolution-refl ids t w

  pub From-throw_if :
      {B : Type 0} (b : Bool) (c : ErrorCode) (n : ℕ) (f : Unit {0} → Method B)
      → (b ≡ false → Follows From (f tt))
      → Follows From (throw_if b c n >>= f)
  unfolding ◌>>=◌ throw_if
  From-throw_if true c n f rest = record { from = λ s w known. Evolution-refl ids s w }
  From-throw_if false c n f rest = record { from = (rest refl).from }

  -- what follows needs nothing more
  pub From-then :
      {A B : Type 0} (m : Method A) (f : A → Method B)
      → Follows From m
      → ((a : A) → Follows (Evolves ids) (f a))
      → Follows From (m >>= f)
  unfolding ◌>>=◌
  From-then {A} {B} m f first rest = record {
    from = λ s w known.
        let e = first.from s w known in Evolution-trans ids e (after (m s).0 (m s).1 e.well_formed);
  }
    where
      after : (o : Outcome A) (t : State) → WellFormed ids t → Evolution ids t (proceed o f t).1
      after (returned a) t w = (rest a).from t w
      after (threw e) t w = Evolution-refl ids t w

  pub From-branch :
      {A B : Type 0} (o : Option A) (m : Method B) (f : A → Method B)
      → Follows From m
      → ((a : A) → Follows From (f a))
      → Follows From (branch o m f)
  unfolding branch
  From-branch none m f hm hf = hm
  From-branch (some a) m f hm hf = hf a

  pub From-if :
      {A : Type 0} (b : Bool) (m n : Method A)
      → Follows (Evolves ids) m
      → (b ≡ false → Follows From n)
      → Follows From (if b then m else n)
  From-if true m n hm hn = From-any hm
  From-if false m n hm hn = hn refl

module _ (ids : ℕ → String → String) (key : String) (r : Reservation) where
  -- the state holds the reservation under the key
  abbrev pub Held : State → Type 0
  Held s = lookup key s.reservations ≡ some r

  pub Held-put :
      {B : Type 0} (r' : Reservation) (f : Unit {0} → Method B)
      → Moves r r'
      → Follows (Evolves ids) (f tt)
      → Follows (From ids Held) (put_reservation key r' >>= f)
  unfolding ◌>>=◌ put_reservation modify
  Held-put r' f moves rest = record {
    from = λ s w found.
        let e = put_reservation-Evolution ids s key r r' w found moves in
        Evolution-trans ids e (rest.from _ e.well_formed);
  }

expire_twice :
    (env : Env) (r : Reservation)
    → expire_reservation env (expire_reservation env r) ≡ expire_reservation env r
unfolding expire_reservation reservation_status_eq
expire_twice env r = ground arith

module _ (env : Env) where
  -- After a reservation is read and expired if due, it is there and is not due.
  pub refresh_then :
      {B : Type 0} (key : String) (f : Reservation → Method B)
      → ((r : Reservation) (settled : expire_reservation env r ≡ r)
          → Follows (From env.ids (Held env.ids key r)) (f r))
      → Follows (Evolves env.ids) (refresh_reservation env key >>= f)
  unfolding ◌>>=◌ refresh_reservation get_reservation put_reservation modify gets or_throw throw
      pure
  refresh_then key f rest = record {
    from = λ s w. elim (Option-cases (lookup key s.reservations)) [
      | inl missing ↦ rw missing (Evolution-refl env.ids s w)
      | inr (stored, found) ↦
          let r = expire_reservation env stored in
          let e =
            put_reservation-Evolution env.ids s key stored r w found
              (expire_reservation-Moves env stored) in
          rw found (
            Evolution-trans env.ids e (
              (rest r (expire_twice env stored)).from _ e.well_formed
                (lookup-insert_self key r s.reservations)))
    ];
  }

  -- A reservation under an id that is drawn for it is new.
  pub draw_then :
      {B : Type 0} (distinct : (n m : ℕ) (p q : String) → env.ids n p ≡ env.ids m q → n ≡ m)
      (r : String → Reservation) (f : String → Method B)
      → ((id : String) → Follows (Evolves env.ids) (f id))
      → Follows
          (Evolves env.ids)
          (next_id env "reservation" >>= λ id. put_reservation id (r id) >>= λ _. f id)
  unfolding ◌>>=◌ next_id put_reservation modify
  draw_then distinct r f rest = record {
    from = λ s w.
        let id = env.ids s.id_count "reservation" in
        let t = record s {
          id_count = suc s.id_count;
          reservations = insert id (r id) s.reservations;
        } in
        let e : Evolution env.ids s t = record {
          well_formed = record {
            ledger_fresh = λ n h. w.ledger_fresh n (omega arith);
            reservation_fresh = λ n h.
                lookup-insert_fresh env.ids distinct _ n _ _ _ _ h
                  (w.reservation_fresh n (omega arith));
            balanced = w.balanced;
            lots_keyed = w.lots_keyed;
            lots_earned = w.lots_earned;
          };
          program_same = refl;
          count_le = omega arith;
          ledger_kept = λ k x h. h;
          reservations_move = λ k x h. (
            x,
            lookup-insert_ne id k (r id) s.reservations
                  (λ same. cc (rw same at (w.reservation_fresh s.id_count (omega arith))))
                ∙ h,
            Moves-refl x,
          );
        } in
        Evolution-trans env.ids e ((rest id).from t e.well_formed);
  }
