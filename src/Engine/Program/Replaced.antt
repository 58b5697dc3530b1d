-- ===== src/Engine/Program/Replaced.antt =====
-- What replacing a program keeps.
use loyalty_interchange_prot.Base.{
  ℕ, String, ◌≡◌, refl, ap, subst, ◌∙◌, Bool, true, false, inl, inr, ◌⊎◌, some, List, [], ◌∷◌, any,
  str_eq, str_eq_iff, arith,
}
use loyalty_interchange_prot.Base.Int.{pos, eqb_ℤ}
use loyalty_interchange_prot.Base.Assoc.{Assoc, lookup, keys, values}
use loyalty_interchange_prot.Exec.{
  Outcome, returned, threw, EngineError, ErrorCode, conflict, throw_if, ◌>>=◌, throw, pure, gets,
  modify, proceed,
}
use loyalty_interchange_prot.Exec.Follows.{
  Follows, Follows-bind, Follows-if, Follows-pure, Follows-gets,
}
use loyalty_interchange_prot.Protocol.Primitives.{LoyaltyUnit, unit_eq_iff}
use loyalty_interchange_prot.Protocol.Loyalty.{IssuedReward, issued, issued_status_eq}
use loyalty_interchange_prot.Protocol.Program.{ProgramDefinition}
use loyalty_interchange_prot.Engine.State.{Env, State, Method}
use loyalty_interchange_prot.Engine.Ledger.{primary_unit}
use loyalty_interchange_prot.Engine.Evolution.Order.{WellFormed, Evolves, Evolves-preorder}
use loyalty_interchange_prot.Engine.Balances.{balance}
use loyalty_interchange_prot.Engine.Evolution.Methods.{balance-Evolves}
use loyalty_interchange_prot.Engine.Evolution.Operations.{method_rules}
use loyalty_interchange_prot.Engine.Checks.{has_unit, is_refused}
use loyalty_interchange_prot.Engine.Program.{
  construct, assert_compatible_program_update, any_balance, removed_account, check_reconfigure,
  loses_reward, take_program, reconfigure_program,
}

returned_proceed :
    {A B : Type 0} (o : Outcome A) (f : A → Method B) (s : State) (b : B)
    → (proceed o f s).0 ≡ returned b
    → (a : A) × (o ≡ returned a) × ((f a s).0 ≡ returned b)
returned_proceed (returned a) f s b h = (a, refl, h)
returned_proceed (threw e) f s b h = cc

-- a bind that returned: its first part did
returned_bind :
    {A B : Type 0} (m : Method A) (f : A → Method B) (s : State) (b : B)
    → ((m >>= f) s).0 ≡ returned b
    → (a : A) × ((m s).0 ≡ returned a) × ((f a (m s).1).0 ≡ returned b)
unfolding ◌>>=◌
returned_bind m f s b h = returned_proceed (m s).0 f (m s).1 b h

-- what the comparison of two programs leaves the same
pub record IsCompatible (current next : ProgramDefinition) : Type 0 where
  pub program_id : next.program_id ≡ current.program_id
  pub currency : next.currency ≡ current.currency
  pub primary : primary_unit next ≡ primary_unit current

compatible :
    (current next : ProgramDefinition) (s : State)
    → (assert_compatible_program_update current next s).0 ≡ returned tt
    → IsCompatible current next
unfolding assert_compatible_program_update throw_if throw ◌>>=◌ pure
compatible current next s h = record {
  program_id = ground (arith, h, str_eq_iff next.program_id current.program_id);
  currency = ground (arith, h, str_eq_iff next.currency current.currency);
  primary = ground (arith, h, unit_eq_iff (primary_unit next) (primary_unit current));
}

-- Every issued reward of a state that is still active is one of a program's rewards.
abbrev pub KeepsRewards : State → ProgramDefinition → Type 0
KeepsRewards s next =
    (id : String) (r : IssuedReward)
    → lookup id s.issued_rewards ≡ some r
    → r.status ≡ issued
    → any (λ reward. str_eq reward.reward_id r.reward_id) next.rewards ≡ true

-- what the checks of a replacement have made sure of
pub record IsReplacement (env : Env) (s : State) (next : ProgramDefinition) : Type 0 where
  pub accepted : is_refused env next ≡ false
  pub catalog : env.catalog_matches_schema next ≡ true
  pub compatible : IsCompatible s.program next
  pub rewards : KeepsRewards s next

constructed :
    (env : Env) (p : ProgramDefinition) (s : State)
    → (construct env p s).0 ≡ returned tt
    → (is_refused env p ≡ false) × (env.catalog_matches_schema p ≡ true)
unfolding construct throw_if throw ◌>>=◌ pure
constructed env p s h = (ground arith, ground arith)

-- one active reward that the program does not have would be found
kept_reward :
    (bad : IssuedReward → Bool) (m : Assoc IssuedReward) (id : String) (r : IssuedReward)
    → any bad (values m) ≡ false
    → lookup id m ≡ some r
    → bad r ≡ false
unfolding lookup
kept_reward bad [] id r h found = cc
kept_reward bad ((k, x) ∷ m) id r h found = ground (arith, kept_reward bad m id r)

rewards_kept : (p : ProgramDefinition) (s : State) → loses_reward p s ≡ false → KeepsRewards s p
unfolding loses_reward issued_status_eq
rewards_kept p s h id r found active =
    let is_issued : issued_status_eq r.status issued ≡ true =
      ap (λ status. issued_status_eq status issued) active in
    let kept = kept_reward _ s.issued_rewards id r h found in ground (arith, kept, is_issued)

compatible-same :
    (current next : ProgramDefinition) (s : State)
    → (assert_compatible_program_update current next s).1 ≡ s
unfolding assert_compatible_program_update throw_if throw ◌>>=◌ pure
compatible-same current next s = ground arith

not_thrown :
    (b : Bool) (code : ErrorCode) (n : ℕ) (s : State)
    → (throw_if b code n s).0 ≡ returned tt
    → b ≡ false
unfolding throw_if throw
not_thrown b code n s h = ground arith

construct-same : (env : Env) (p : ProgramDefinition) (s : State) → (construct env p s).1 ≡ s
unfolding construct throw_if throw ◌>>=◌ pure
construct-same env p s = ground arith

-- the last write, or none after a throw
settled_outcome :
    (env : Env) (o : Outcome (Unit {0})) (p : ProgramDefinition) (s u : State)
    → u.program ≡ s.program
    → (o ≡ returned tt → IsReplacement env s p)
    → let (o', t) = proceed o (λ _. modify (take_program p)) u in
      ((o' ≡ returned tt) × (t.program ≡ p) × IsReplacement env s p)
      ⊎ ((e : EngineError) × (o' ≡ threw e) × (t.program ≡ s.program))
unfolding modify take_program
settled_outcome env (returned _) p s u same good = inl (refl, refl, good refl)
settled_outcome env (threw x) p s u same good = inr (x, refl, same)

module _ (env : Env) (distinct : (n m : ℕ) (p q : String) → env.ids n p ≡ env.ids m q → n ≡ m) where
  any_balance-Evolves :
      (unit : LoyaltyUnit) (ids : List String)
      → Follows (Evolves env.ids) (any_balance env unit ids)
  unfolding any_balance
  any_balance-Evolves unit [] = search method_rules
  any_balance-Evolves unit (id ∷ ids) =
      Follows-bind (Evolves-preorder env.ids) (balance env id unit) _
        (balance-Evolves env distinct id unit)
        λ b.
          Follows-if (Evolves-preorder env.ids) (eqb_ℤ b.amount (pos 0)) _ _
            (any_balance-Evolves unit ids) (Follows-pure (Evolves-preorder env.ids) true)

  removed_account-Evolves :
      (next units : List LoyaltyUnit) → Follows (Evolves env.ids) (removed_account env next units)
  unfolding removed_account
  removed_account-Evolves next [] = search method_rules
  removed_account-Evolves next (unit ∷ units) =
      let pre = Evolves-preorder env.ids in
      Follows-if pre (has_unit unit next) _ _ (removed_account-Evolves next units) (
        Follows-bind pre (gets (λ s. keys s.members)) _ (Follows-gets pre (λ s. keys s.members))
          λ ids.
            Follows-bind pre (any_balance env unit ids) _ (any_balance-Evolves unit ids) λ found.
              Follows-if pre found _ _ (Follows-pure pre true) (removed_account-Evolves next units))

  check_reconfigure-Evolves :
      (p : ProgramDefinition) → Follows (Evolves env.ids) (check_reconfigure env p)
  unfolding check_reconfigure construct assert_compatible_program_update
  check_reconfigure-Evolves p = search (method_rules, removed_account-Evolves) depth 20

  -- what a check that returned has compared
  checked :
      (p : ProgramDefinition) (s : State)
      → (check_reconfigure env p s).0 ≡ returned tt
      → IsReplacement env s p
  unfolding check_reconfigure gets ◌>>=◌
  checked p s h =
      let same = construct-same env p s in
      let (_, e, h1) = returned_bind (construct env p) _ s tt h in
      let u = (construct env p s).1 in
      let (_, e2, h2) = returned_bind (assert_compatible_program_update u.program p) _ u tt h1 in
      let v = (assert_compatible_program_update u.program p u).1 in
      let (_, e3, _) = returned_bind (throw_if (loses_reward p v) conflict 409) _ v tt h2 in
      let (accepted, catalog) = constructed env p s e in
      record {
        accepted = accepted;
        catalog = catalog;
        compatible = subst (λ t. IsCompatible t.program p) same (compatible u.program p u e2);
        rewards = rewards_kept p s (
            subst (λ t. loses_reward p t ≡ false) (compatible-same u.program p u ∙ same)
              (not_thrown (loses_reward p v) conflict 409 v e3));
      }

  -- From a well-formed state, where ids never repeat, a replacement of the program either returns and
  -- puts the new program in its place, or throws and leaves the program. Where it returns,
  -- `assertProgram` and the schema of catalogs accept the new program, it has the id, the currency and
  -- the primary unit of the old one, and every active issued reward is one of its rewards.
  pub reconfigure_program-program :
      (p : ProgramDefinition) (s : State)
      → WellFormed env.ids s
      → let (o, t) = reconfigure_program env p s in
        ((o ≡ returned tt) × (t.program ≡ p) × IsReplacement env s p)
        ⊎ ((e : EngineError) × (o ≡ threw e) × (t.program ≡ s.program))
  unfolding reconfigure_program ◌>>=◌
  reconfigure_program-program p s w =
      let step = (check_reconfigure-Evolves p).from s w in
      settled_outcome env (check_reconfigure env p s).0 p s (check_reconfigure env p s).1
        step.program_same (checked p s)
