-- ===== src/Webhooks/Delivered.antt =====
-- What a cycle of attempts leaves behind while its subscription stays active: packages/server/src/
-- webhooks.ts, `deliver`.
use loyalty_interchange_prot.Base.{
  ℕ, ◌+◌, ◌≤◌, ◌<◌, String, ◌≡◌, refl, false, Option, none, some, List, [], ◌∷◌, ◌++◌, map, length,
  arith,
}
use loyalty_interchange_prot.Base.Assoc.{lookup}
use loyalty_interchange_prot.Webhooks.State.{
  ManagedSubscription, OutboxEntry, delivered, failed, Flight, sending, is_sending, Dispatcher,
  Setup,
}
use loyalty_interchange_prot.Webhooks.Dispatcher.{flight, attempt_limit, next_round}
use loyalty_interchange_prot.Webhooks.Cycle.{one_round, deliver, deliver_cycle}
use loyalty_interchange_prot.Webhooks.Rounds.{
  IsOpen, Archived, missed, begun, one_round-fails, one_round-succeeds, one_round-gives_up,
  enqueue-IsOpen, attempt-sends, leb_of_lt, add_zero, add_suc, attempts_in_all,
}

module _ (setup : Setup) (now : String) (other : ℕ → Dispatcher → Dispatcher)
    (s : ManagedSubscription)
    (keeps : (n : ℕ) (d : Dispatcher) → IsOpen s d → IsOpen s (other n d)) where
  deliver-idle :
      (rs : List (Option String)) (n : ℕ) (x : Dispatcher × Flight)
      → is_sending x.1.phase ≡ false
      → deliver setup now other rs n x ≡ x
  unfolding deliver
  deliver-idle [] n x h = refl
  deliver-idle (r ∷ rs) n x h = rw h refl

  deliver-succeeds :
      (errors : List String) (rest : List (Option String)) (current : OutboxEntry) (c n : ℕ)
      (d : Dispatcher)
      → 0 < setup.history_limit
      → 0 < c
      → c + length errors ≤ attempt_limit setup s
      → IsOpen s d
      → let x =
          deliver setup now other
            (map some errors ++ none ∷ rest)
            n
            (d, flight s current c sending) in
        (lookup current.delivery_id x.0.queued ≡ none)
        × Archived current.delivery_id delivered (current.attempts + length errors) x.0
  unfolding deliver
  deliver-succeeds [] rest current c n d h p b k =
      let next = one_round setup now other none n (d, flight s current c sending) in
      let done = one_round-succeeds setup now other s keeps current c n d h k in
      rw (deliver-idle rest (n + 2) next done.0, add_zero current.attempts) (done.1, done.2)
  deliver-succeeds (error ∷ errors) rest current c n d h p b k =
      let (d', k', e) =
        one_round-fails setup now other s keeps error current c n d p (omega arith) k in
      rw (e, add_suc current.attempts (length errors))
        (deliver-succeeds errors rest (begun now (missed now error current)) (c + 1) (n + 2) d' h
          (omega arith) (omega arith) k')

  -- An active subscription's delivery whose attempts fail until one is answered with 2xx, within the
  -- limit, leaves the queue and is archived last as delivered after that many attempts, whatever else
  -- happens while it waits that leaves the subscription active and the queue keyed by delivery id.
  pub deliver_cycle-delivers :
      (entry : OutboxEntry) (errors : List String) (rest : List (Option String)) (d : Dispatcher)
      → 0 < setup.history_limit
      → length errors < attempt_limit setup s
      → IsOpen s d
      → let x = deliver_cycle setup now other s entry (map some errors ++ none ∷ rest) d in
        (lookup entry.delivery_id x.0.queued ≡ none)
        × Archived entry.delivery_id delivered (entry.attempts + 1 + length errors) x.0
  unfolding deliver_cycle next_round
  deliver_cycle-delivers entry errors rest d h b k =
      simp (leb_of_lt (attempt_limit setup s) (length errors) b, attempt-sends now s entry 1 d k)
        (deliver-succeeds errors rest (begun now entry) 1 0 _ h (omega arith) (omega arith)
          (enqueue-IsOpen s (begun now entry) d k))

  deliver-fails :
      (error : String) (errors : List String) (current : OutboxEntry) (c n : ℕ) (d : Dispatcher)
      → 0 < setup.history_limit
      → 0 < c
      → c + length errors ≡ attempt_limit setup s
      → IsOpen s d
      → let x =
          deliver setup now other (map some (error ∷ errors)) n (d, flight s current c sending) in
        ((e : OutboxEntry) × (lookup current.delivery_id x.0.queued ≡ some e)
          × (e.attempts ≡ current.attempts + length errors))
        × Archived current.delivery_id failed (current.attempts + length errors) x.0
  unfolding deliver
  deliver-fails error [] current c n d h p b k =
      let next = one_round setup now other (some error) n (d, flight s current c sending) in
      let done = one_round-gives_up setup now other s keeps error current c n d h (omega arith) k in
      rw (deliver-idle [] (n + 2) next done.0, add_zero current.attempts)
        ((missed now error current, done.1, refl), done.2)
  deliver-fails error (error' ∷ errors) current c n d h p b k =
      let (d', k', e) =
        one_round-fails setup now other s keeps error current c n d p (omega arith) k in
      rw (e, add_suc current.attempts (length errors))
        (deliver-fails error' errors (begun now (missed now error current)) (c + 1) (n + 2) d' h
          (omega arith) (omega arith) k')

  -- An active subscription's delivery whose attempts all fail, as many as the limit allows, stays in
  -- the queue with that many attempts more and is archived last as failed, whatever else happens
  -- while it waits that leaves the subscription active and the queue keyed by delivery id.
  pub deliver_cycle-fails :
      (entry : OutboxEntry) (error : String) (errors : List String) (d : Dispatcher)
      → 0 < setup.history_limit
      → length errors + 1 ≡ attempt_limit setup s
      → IsOpen s d
      → let x = deliver_cycle setup now other s entry (map some (error ∷ errors)) d in
        ((e : OutboxEntry) × (lookup entry.delivery_id x.0.queued ≡ some e)
          × (e.attempts ≡ entry.attempts + attempt_limit setup s))
        × Archived entry.delivery_id failed (entry.attempts + attempt_limit setup s) x.0
  unfolding deliver_cycle next_round
  deliver_cycle-fails entry error errors d h b k =
      simp
        (
          leb_of_lt (attempt_limit setup s) (length errors) (omega arith),
          attempt-sends now s entry 1 d k,
        )
        (rw (attempts_in_all entry.attempts (length errors) (attempt_limit setup s) b) (
          deliver-fails error errors (begun now entry) 1 0 _ h (omega arith) (omega arith)
            (enqueue-IsOpen s (begun now entry) d k)))
