-- ===== src/Engine/Once/Again.antt =====
-- A later call under a key that was used: answered from the record, or refused.
use loyalty_interchange_prot.Base.{
  ℕ, String, ◌≡◌, ◌≢◌, refl, sym, ap, ◌∙◌, ◌⊎◌, inl, inr, Bool-cases, Option, none, some, str_eq,
  str_eq_iff, arith,
}
use loyalty_interchange_prot.Base.Assoc.{lookup}
use loyalty_interchange_prot.Base.Json.{Json}
use loyalty_interchange_prot.Exec.{
  returned, threw, idempotency_conflict, gets, pure, throw, branch, throw_if, ◌>>=◌,
}
use loyalty_interchange_prot.Protocol.Primitives.{RequestContext}
use loyalty_interchange_prot.Protocol.Messages.{Response}
use loyalty_interchange_prot.Engine.State.{Env, State, Method, IdempotencyRecord}
use loyalty_interchange_prot.Engine.Fingerprint.{
  stable_value, digest_of, fingerprint, payload_v1, payload_v2, idempotency_fingerprint_v1,
  idempotency_fingerprint_v2,
}
use loyalty_interchange_prot.Engine.Once.{
  with_replayed_request_id, once_key, matches_record, replay, once,
}
use loyalty_interchange_prot.Engine.Once.Replay.{once_records, once_found, replay_lem}

str_dec : (a b : String) → (a ≡ b) ⊎ (a ≢ b)
str_dec a b = elim (Bool-cases (str_eq a b)) [
  | inl e ↦ inl ((str_eq_iff a b).0 e)
  | inr e ↦ inr λ h. ground (arith, h, e, str_eq_iff a b)
]

module _ (env : Env) where
  refuse_lem :
      (context : RequestContext) (raw : Json) (prior : IdempotencyRecord) (current older : String)
      (s : State)
      → digest_of env (payload_v2 raw) ≡ some current
      → digest_of env (payload_v1 raw) ≡ some older
      → prior.fingerprint ≢ current
      → prior.fingerprint ≢ older
      → replay env context raw prior s
        ≡ (threw (record { code = idempotency_conflict; status = 409 }), s)
  unfolding replay matches_record idempotency_fingerprint_v1 idempotency_fingerprint_v2 fingerprint
      ◌>>=◌ gets branch pure throw_if throw
  refuse_lem context raw prior current older s h2 h1 n2 n1 =
      ground (arith, str_eq_iff prior.fingerprint current, str_eq_iff prior.fingerprint older)

  -- a request whose older digest is the record's is answered from it too
  replay_older :
      (context : RequestContext) (raw : Json) (prior : IdempotencyRecord) (current : String)
      (s : State)
      → digest_of env (payload_v2 raw) ≡ some current
      → digest_of env (payload_v1 raw) ≡ some prior.fingerprint
      → prior.fingerprint ≢ current
      → replay env context raw prior s
        ≡ (returned (with_replayed_request_id prior.response context.request_id), s)
  unfolding replay matches_record idempotency_fingerprint_v1 idempotency_fingerprint_v2 fingerprint
      ◌>>=◌ gets branch pure throw_if throw
  replay_older context raw prior current s h2 h1 n =
      ground (
        arith,
        str_eq_iff prior.fingerprint current,
        str_eq_iff prior.fingerprint prior.fingerprint,
      )

-- the text that a fingerprint digests
abbrev pub text_of : Env → Json → Option String
text_of env value = env.stringify (stable_value env.locale_compare value)

digest_of_text :
    (env : Env) (value : Json) (text : String)
    → text_of env value ≡ some text
    → digest_of env value ≡ some (env.sha256_hex text)
unfolding digest_of
digest_of_text env value text h = rw h refl

module _ (env : Env) where
  -- what a replay of a record answers, where the texts of the request are known
  replay_settles :
      (context : RequestContext) (raw : Json) (prior : IdempotencyRecord)
      (recorded current older : String) (s : State)
      → env.sha256_hex recorded ≡ prior.fingerprint
      → text_of env (payload_v2 raw) ≡ some current
      → text_of env (payload_v1 raw) ≡ some older
      → (env.sha256_hex recorded ≡ env.sha256_hex current → recorded ≡ current)
      → (env.sha256_hex recorded ≡ env.sha256_hex older → recorded ≡ older)
      → (((recorded ≡ current) ⊎ (recorded ≡ older))
          × (replay env context raw prior s
              ≡ (returned (with_replayed_request_id prior.response context.request_id), s)))
        ⊎ ((recorded ≢ current)
            × (recorded ≢ older)
            × (replay env context raw prior s
                ≡ (threw (record { code = idempotency_conflict; status = 409 }), s)))
  replay_settles context raw prior recorded current older s d h2 h1 c2 c1 =
      let d2 = digest_of_text env (payload_v2 raw) current h2 in
      let d1 = digest_of_text env (payload_v1 raw) older h1 in
      elim (str_dec prior.fingerprint (env.sha256_hex current)) [
        | inl e ↦ inl (inl (c2 (d ∙ e)), replay_lem env context raw prior s (d2 ∙ ap some (sym e)))
        | inr n2 ↦ elim (str_dec prior.fingerprint (env.sha256_hex older)) [
          | inl e ↦ inl (
            inr (c1 (d ∙ e)),
            replay_older env context raw prior (env.sha256_hex current) s d2 (d1 ∙ ap some (sym e))
                n2,
          )
          | inr n1 ↦ inr (
            λ e. n2 (sym d ∙ ap env.sha256_hex e),
            λ e. n1 (sym d ∙ ap env.sha256_hex e),
            refuse_lem env context raw prior (env.sha256_hex current) (env.sha256_hex older) s d2 d1
                n2 n1,
          )
        ]
      ]

same_digest :
    (env : Env) (value : Json) (text f : String)
    → text_of env value ≡ some text
    → digest_of env value ≡ some f
    → env.sha256_hex text ≡ f
same_digest env value text f h d = let e = digest_of_text env value text h in ground (arith, e, d)

module _ (env : Env) (now : ℕ) where
  -- Once a call has found no record and returned, a later call under its key, at any time and for
  -- any operation to run, never runs it and leaves the state as it is. It is answered from the record
  -- where the text of the first call's payload is that of the later one's, without its context or
  -- only without the request's id; where it is neither, it is refused with `idempotency_conflict`.
  -- The payloads have texts, and where the digest of the first is that of one of the other two, so is
  -- the text.
  pub once_again :
      (operation : String) (context context' : RequestContext) (raw raw' : Json)
      (run run' : Method Response) (response : Response) (recorded current older : String)
      (s t : State)
      → lookup (once_key operation context) s.idempotency ≡ none
      → once env operation context raw run s ≡ (returned response, t)
      → once_key operation context' ≡ once_key operation context
      → text_of env (payload_v2 raw) ≡ some recorded
      → text_of env (payload_v2 raw') ≡ some current
      → text_of env (payload_v1 raw') ≡ some older
      → (env.sha256_hex recorded ≡ env.sha256_hex current → recorded ≡ current)
      → (env.sha256_hex recorded ≡ env.sha256_hex older → recorded ≡ older)
      → let again = once (record env { now = now }) operation context' raw' run' t in
        (((recorded ≡ current) ⊎ (recorded ≡ older))
          × (again ≡ (returned (with_replayed_request_id response context'.request_id), t)))
        ⊎ ((recorded ≢ current)
            × (recorded ≢ older)
            × (again ≡ (threw (record { code = idempotency_conflict; status = 409 }), t)))
  once_again operation context context' raw raw' run run' response recorded current older s t fresh
        h same_key h3 h2 h1 c2 c1 =
      let (f, digest, found) = once_records env operation context raw run response s t fresh h in
      let prior : IdempotencyRecord = record { fingerprint = f; response = response } in
      let later = record env { now = now } in
      rw
        (once_found later operation context' raw' run' prior t
          (ap (λ key. lookup key t.idempotency) same_key ∙ found))
        (replay_settles later context' raw' prior recorded current older t
          (same_digest env (payload_v2 raw) recorded f h3 digest) h2 h1 c2 c1)
