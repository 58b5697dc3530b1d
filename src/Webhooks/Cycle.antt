-- ===== src/Webhooks/Cycle.antt =====
-- One delivery's cycle of attempts: `deliver` in packages/server/src/webhooks.ts, with whatever else
-- happens to the dispatcher while the delivery waits.
use loyalty_interchange_prot.Base.{
  ℕ, ◌+◌, ◌-◌, ◌≤◌, ◌<◌, String, ◌≡◌, true, false, Bool-cases, inl, inr, Option, none, some, List,
  [], ◌∷◌, length, if◌then◌else◌, arith,
}
use loyalty_interchange_prot.Webhooks.State.{
  ManagedSubscription, OutboxEntry, Flight, Phase, is_sending, is_sleeping, is_returned, Dispatcher,
  Setup,
}
use loyalty_interchange_prot.Webhooks.Dispatcher.{
  advance, attempt, attempt_limit, next_round, take_answer,
}

returned_of : (p : Phase) → is_sending p ≡ false → is_sleeping p ≡ false → is_returned p ≡ true
returned_of p h k = ground arith

module _ (setup : Setup) (now : String) (other : ℕ → Dispatcher → Dispatcher) where
  -- after the pause, if there is one
  unfoldable pub woken : ℕ → Dispatcher × Flight → Dispatcher × Flight
  unfolding attempt
  woken n (d, f) =
      if is_sleeping f.phase
      then attempt now f.subscription f.current f.cycle_attempt (other n d)
      else (d, f)

  -- an answer, and the pause that may follow
  unfoldable pub one_round : Option String → ℕ → Dispatcher × Flight → Dispatcher × Flight
  unfolding woken take_answer
  one_round result n (d, f) = woken (n + 1) (take_answer setup now result f (other n d))

  -- the rest of a cycle with these answers, while the delivery has not returned
  unfoldable pub deliver : List (Option String) → ℕ → Dispatcher × Flight → Dispatcher × Flight
  unfolding one_round
  deliver [] n x = x
  deliver (r ∷ rs) n x =
      let rest = deliver rs (n + 2) (one_round r n x) in if is_sending x.1.phase then rest else x

  -- a whole cycle, as `schedule` starts it
  unfoldable pub deliver_cycle :
      ManagedSubscription → OutboxEntry → List (Option String) → Dispatcher → Dispatcher × Flight
  unfolding deliver next_round
  deliver_cycle s entry results d =
      deliver results 0 (next_round setup now s entry 1 "delivery was not attempted" d)

  -- a delivery that waits for an answer, or has returned, with so many attempts at most
  record IsBounded (s : ManagedSubscription) (most : ℕ) (f : Flight) : Type 0 where
    subscription : attempt_limit setup f.subscription ≡ attempt_limit setup s
    awake : is_sleeping f.phase ≡ false
    within : is_sending f.phase ≡ true → f.cycle_attempt ≤ attempt_limit setup s
    attempts : f.current.attempts + (attempt_limit setup s - f.cycle_attempt) ≤ most

  attempt-IsBounded :
      (s : ManagedSubscription) (most : ℕ) (current : OutboxEntry) (n : ℕ) (d : Dispatcher)
      → n ≤ attempt_limit setup s
      → current.attempts + 1 + (attempt_limit setup s - n) ≤ most
      → IsBounded s most (attempt now s current n d).1
  unfolding attempt
  attempt-IsBounded s most current n d h k = ground arith

  -- a round comes one attempt nearer to the end
  one_round-IsBounded :
      (s : ManagedSubscription) (most : ℕ) (result : Option String) (n : ℕ) (d : Dispatcher)
      (f : Flight)
      → is_sending f.phase ≡ true
      → IsBounded s most f
      → let f' = (one_round result n (d, f)).1 in
        IsBounded s most f' × (is_sending f'.phase ≡ true → f.cycle_attempt < f'.cycle_attempt)
  unfolding one_round woken take_answer next_round attempt advance
  one_round-IsBounded s most none n d f e k = ground (arith, k)
  one_round-IsBounded s most (some error) n d f e k = ground (arith, k)

  -- the first round
  next_round-IsBounded :
      (s : ManagedSubscription) (entry : OutboxEntry) (d : Dispatcher)
      → let f = (next_round setup now s entry 1 "delivery was not attempted" d).1 in
        IsBounded s (entry.attempts + attempt_limit setup s) f
        × (is_sending f.phase ≡ true → f.cycle_attempt ≡ 1)
  unfolding next_round attempt
  next_round-IsBounded s entry d = ground arith

  deliver-IsBounded :
      (s : ManagedSubscription) (most : ℕ) (results : List (Option String)) (n : ℕ) (d : Dispatcher)
      (f : Flight)
      → IsBounded s most f
      → (is_sending f.phase ≡ true → attempt_limit setup s < f.cycle_attempt + length results)
      → let f' = (deliver results n (d, f)).1 in
        (is_returned f'.phase ≡ true) × (f'.current.attempts ≤ most)
  unfolding deliver
  deliver-IsBounded s most [] n d f k h =
      let idle : is_sending f.phase ≡ false = elim (Bool-cases (is_sending f.phase)) [
        | inl e ↦ absurd (omega (arith, h e, k.within e))
        | inr e ↦ e
      ] in
      (returned_of f.phase idle k.awake, omega (arith, k.attempts))
  deliver-IsBounded s most (r ∷ rs) n d f k h = elim (Bool-cases (is_sending f.phase)) [
    | inl e ↦
        let (kept, nearer) = one_round-IsBounded s most r n d f e k in
        let next = one_round r n (d, f) in
        rw e (
          deliver-IsBounded s most rs (n + 2) next.0 next.1 kept
            (λ e'. omega (arith, h e, nearer e')))
    | inr e ↦ rw e (returned_of f.phase e k.awake, omega (arith, k.attempts))
  ]

  -- A cycle of attempts ends: given an answer to each attempt that the subscription's limit allows,
  -- a delivery has returned, whatever else happens while it waits, and it has counted at most that
  -- many attempts more.
  pub deliver_cycle-ends :
      (s : ManagedSubscription) (entry : OutboxEntry) (results : List (Option String))
      (d : Dispatcher)
      → attempt_limit setup s ≤ length results
      → let f = (deliver_cycle s entry results d).1 in
        (is_returned f.phase ≡ true) × (f.current.attempts ≤ entry.attempts + attempt_limit setup s)
  unfolding deliver_cycle
  deliver_cycle-ends s entry results d h =
      let start = next_round setup now s entry 1 "delivery was not attempted" d in
      let k = next_round-IsBounded s entry d in
      deliver-IsBounded s (entry.attempts + attempt_limit setup s) results 0 start.0 start.1 k.0
        (λ e. omega (arith, k.1 e))
