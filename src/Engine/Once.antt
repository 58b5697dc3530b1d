-- ===== src/Engine/Once.antt =====
-- Idempotent calls and the parts of responses: `once`, `withReplayedRequestId`, `responseContext`,
-- `ledgerResponse`, `reservationResponse` and `memberSnapshot`.
pub mod Replay
pub mod Again
use loyalty_interchange_prot.Base.{
  String, ◌⧺◌, Bool, true, not, some, List, [], str_eq, length, ltb, option_elim, if◌then◌else◌,
}
use loyalty_interchange_prot.Base.Assoc.{lookup, insert}
use loyalty_interchange_prot.Base.Json.{Json}
use loyalty_interchange_prot.Exec.{
  pure, gets, modify, ◌>>=◌, ◌>>◌, throw_if, branch, idempotency_conflict,
}
use loyalty_interchange_prot.Protocol.Primitives.{RequestContext, ResponseContext, Member}
use loyalty_interchange_prot.Protocol.Loyalty.{LedgerEntry, Reservation}
use loyalty_interchange_prot.Protocol.Messages.{Response, ledger_body, reservation_body}
use loyalty_interchange_prot.Engine.State.{Env, Method, IdempotencyRecord, iso_now}
use loyalty_interchange_prot.Engine.Fingerprint.{
  idempotency_fingerprint_v1, idempotency_fingerprint_v2,
}
use loyalty_interchange_prot.Engine.Balances.{balances}
use loyalty_interchange_prot.Engine.Tiers.{account_metrics, tier_progress}

unfoldable pub with_replayed_request_id : Response → String → Response
with_replayed_request_id response request_id = record response {
  context = record response.context { request_id = request_id };
}

unfoldable pub once_key : String → RequestContext → String
once_key operation context = context.source.system ⧺ "|" ⧺ operation ⧺ "|" ⧺ context.idempotency_key

module _ (env : Env) where
  abbrev pub response_context : RequestContext → ResponseContext
  response_context context = record { request_id = context.request_id; processed_at = iso_now env }

  -- whether a record holds the request, under the current fingerprint or the older one
  unfoldable pub matches_record : IdempotencyRecord → Json → Method Bool
  matches_record prior request = do
    current ← idempotency_fingerprint_v2 env request
    if str_eq prior.fingerprint current then pure true else do
      older ← idempotency_fingerprint_v1 env request
      pure (str_eq prior.fingerprint older)

  unfoldable pub replay : RequestContext → Json → IdempotencyRecord → Method Response
  unfolding matches_record
  replay context request prior = do
    matches ← matches_record prior request
    throw_if (not matches) idempotency_conflict 409
    pure (with_replayed_request_id prior.response context.request_id)

  unfoldable pub run_and_record : String → Json → Method Response → Method Response
  run_and_record key request run = do
    response ← run
    fingerprint ← idempotency_fingerprint_v2 env request
    modify (λ s. record s {
      idempotency =
          insert key (record { fingerprint = fingerprint; response = response }) s.idempotency;
    })
    pure response

  unfoldable pub once : String → RequestContext → Json → Method Response → Method Response
  unfolding replay run_and_record
  once operation context request run = do
    let key = once_key operation context
    prior ← gets (λ s. lookup key s.idempotency)
    branch prior (run_and_record key request run) (replay context request)

  unfoldable pub ledger_response : RequestContext → LedgerEntry → List LedgerEntry → Method Response
  ledger_response context entry entries = do
    held ← balances env entry.member_id
    pure (record {
      context = response_context context;
      body = ledger_body entry (if ltb 1 (length entries) then entries else []) held;
    })

  unfoldable pub reservation_response : RequestContext → Reservation → Method Response
  reservation_response context reservation = do
    held ← balances env reservation.member_id
    pure (record { context = response_context context; body = reservation_body reservation held })

  -- a member as responses show it, with its tier of the moment
  unfoldable pub member_snapshot : Member → Method Member
  member_snapshot member = do
    metrics ← account_metrics env member.member_id
    program ← gets (λ s. s.program)
    pure (
        option_elim (tier_progress program metrics) member
          (λ progress. record member { tier_id = some progress.current_tier_id }))
