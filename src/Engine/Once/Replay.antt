-- ===== src/Engine/Once/Replay.antt =====
-- Idempotency: a repeated call answers from the record and changes nothing.
use loyalty_interchange_prot.Base.{
  ℕ, String, ◌≡◌, refl, sym, ap, ◌∙◌, Option, none, some, str_eq_iff, arith,
}
use loyalty_interchange_prot.Base.Assoc.{lookup, insert, lookup-insert_self}
use loyalty_interchange_prot.Base.Json.{Json}
use loyalty_interchange_prot.Exec.{
  Outcome, returned, threw, runtime_error, gets, pure, throw, branch, throw_if, modify, ◌>>=◌,
  proceed,
}
use loyalty_interchange_prot.Protocol.Primitives.{RequestContext}
use loyalty_interchange_prot.Protocol.Messages.{Response}
use loyalty_interchange_prot.Engine.State.{Env, State, Method, IdempotencyRecord}
use loyalty_interchange_prot.Engine.Fingerprint.{
  digest_of, fingerprint, payload_v2, idempotency_fingerprint_v2,
}
use loyalty_interchange_prot.Engine.Once.{
  with_replayed_request_id, once_key, matches_record, replay, run_and_record, run_and_record, once,
}

-- the rest of a call whose digest is known
recorded_from :
    (key : String) (r : Response) (u : State) {response : Response} {t : State} (d : Option String)
    → (branch d (throw runtime_error 500) pure >>= λ f.
          modify (λ s. record s {
            idempotency = insert key (record { fingerprint = f; response = r }) s.idempotency;
          })
          >>= λ _. pure r)
        u
      ≡ (returned response, t)
    → (f : String) × (d ≡ some f)
      × (lookup key t.idempotency ≡ some (record { fingerprint = f; response = response }))
unfolding ◌>>=◌ modify pure branch throw
recorded_from key r u {response} {t} none h = ground arith
recorded_from key r u {response} {t} (some f) h =
    (f, refl, cc (lookup-insert_self key (record { fingerprint = f; response = r }) u.idempotency))

module _ (env : Env) where
  -- what a call that returned has recorded
  recorded_as :
      (key : String) (request : Json) (o : Outcome Response) (u : State) {response : Response}
      {t : State}
      → proceed o
          (λ r. idempotency_fingerprint_v2 env request >>= λ f.
            modify (λ s. record s {
              idempotency = insert key (record { fingerprint = f; response = r }) s.idempotency;
            })
            >>= λ _. pure r)
          u
        ≡ (returned response, t)
      → (f : String) × (digest_of env (payload_v2 request) ≡ some f)
        × (lookup key t.idempotency ≡ some (record { fingerprint = f; response = response }))
  unfolding idempotency_fingerprint_v2 fingerprint
  recorded_as key request (threw e) u h = ground arith
  recorded_as key request (returned r) u h =
      recorded_from key r u (digest_of env (payload_v2 request)) h

  pub once_records :
      (operation : String) (context : RequestContext) (raw : Json) (run : Method Response)
      (response : Response) (s t : State)
      → lookup (once_key operation context) s.idempotency ≡ none
      → once env operation context raw run s ≡ (returned response, t)
      → (f : String) × (digest_of env (payload_v2 raw) ≡ some f)
        × (lookup (once_key operation context) t.idempotency
            ≡ some (record { fingerprint = f; response = response }))
  unfolding once run_and_record ◌>>=◌ gets branch
  once_records operation context raw run response s t fresh h =
      recorded_as (once_key operation context) raw (run s).0 (run s).1 (
        sym (
          ap
            (λ prior.
              branch prior (run_and_record env (once_key operation context) raw run)
                (replay env context raw) s)
            fresh)
        ∙ h)

  -- a request whose digest is the record's is answered from it
  pub replay_lem :
      (context : RequestContext) (raw : Json) (prior : IdempotencyRecord) (s : State)
      → digest_of env (payload_v2 raw) ≡ some prior.fingerprint
      → replay env context raw prior s
        ≡ (returned (with_replayed_request_id prior.response context.request_id), s)
  unfolding replay matches_record idempotency_fingerprint_v2 fingerprint ◌>>=◌ gets branch pure
      throw_if throw
  replay_lem context raw prior s h = ground (arith, str_eq_iff prior.fingerprint prior.fingerprint)

  -- a call under a key with a record replays it
  pub once_found :
      (operation : String) (context : RequestContext) (raw : Json) (run : Method Response)
      (prior : IdempotencyRecord) (s : State)
      → lookup (once_key operation context) s.idempotency ≡ some prior
      → once env operation context raw run s ≡ replay env context raw prior s
  unfolding once ◌>>=◌ gets branch
  once_found operation context raw run prior s found =
      ap
        (λ o.
          branch o (run_and_record env (once_key operation context) raw run)
            (replay env context raw) s)
        found

module _ (env : Env) (now : ℕ) where
  -- A call that found no record and returned answers again, unchanged but for the request's id,
  -- under the same key and for the same payload: at any time, for any operation to run, and
  -- without a change of the state.
  pub once_replay :
      (operation : String) (context context' : RequestContext) (raw raw' : Json)
      (run run' : Method Response) (response : Response) (s t : State)
      → lookup (once_key operation context) s.idempotency ≡ none
      → once env operation context raw run s ≡ (returned response, t)
      → once_key operation context' ≡ once_key operation context
      → payload_v2 raw' ≡ payload_v2 raw
      → once (record env { now = now }) operation context' raw' run' t
        ≡ (returned (with_replayed_request_id response context'.request_id), t)
  unfolding digest_of
  once_replay operation context context' raw raw' run run' response s t fresh h same_key
        same_payload =
      let (f, digest, found) = once_records env operation context raw run response s t fresh h in
      let prior : IdempotencyRecord = record { fingerprint = f; response = response } in
      once_found (record env { now = now }) operation context' raw' run' prior t
        (ap (λ key. lookup key t.idempotency) same_key ∙ found)
      ∙ replay_lem (record env { now = now }) context' raw' prior t
          (ap (digest_of env) same_payload ∙ digest)
