-- ===== src/Engine/Members/Account.antt =====
-- `getAccount`, `cancelMember`, `inspectMemberErasure`, `eraseMember` and `setMemberMembership`.
use loyalty_interchange_prot.Base.{String, Bool, Option, none, some, option_elim}
use loyalty_interchange_prot.Base.Assoc.{insert, map_values}
use loyalty_interchange_prot.Base.Json.{Json, Fields, obj, end, set_field, without}
use loyalty_interchange_prot.Exec.{pure, gets, modify, ◌>>=◌, ◌>>◌}
use loyalty_interchange_prot.Protocol.Primitives.{Member, closed}
use loyalty_interchange_prot.Protocol.Messages.{Response, MemberAccountRequest, account_body}
use loyalty_interchange_prot.Engine.State.{Env, Method}
use loyalty_interchange_prot.Engine.Lots.{expire_point_lots}
use loyalty_interchange_prot.Engine.Balances.{balances}
use loyalty_interchange_prot.Engine.Tiers.{account_metrics, tier_progress}
use loyalty_interchange_prot.Engine.Earning.{assert_program_id}
use loyalty_interchange_prot.Engine.Once.{once, response_context, member_snapshot}
use loyalty_interchange_prot.Engine.Issued.{active_member}
use loyalty_interchange_prot.Engine.Members.Parts.{
  put_member, find_member, scrub_record, erased_member, erase_identities, is_erased,
}
use loyalty_interchange_prot.Engine.Members.Enroll.{expiring_balances}

module _ (env : Env) where
  unfoldable pub account_of : MemberAccountRequest → Method Response
  unfolding expiring_balances
  account_of request = do
    member ← active_member request.member_id
    expire_point_lots env (some request.member_id) none
    metrics ← account_metrics env request.member_id
    program ← gets (λ s. s.program)
    snapshot ← member_snapshot env member
    held ← balances env request.member_id
    expiring ← expiring_balances env request.member_id
    pure (record {
      context = response_context env request.context;
      body = account_body snapshot held metrics expiring (tier_progress program metrics);
    })

  unfoldable pub get_account : MemberAccountRequest → Method Response
  unfolding account_of
  get_account request = do
    assert_program_id request.program_id
    once env "account.get" request.context request.raw (account_of request)

  unfoldable pub cancel_member : String → Method Member
  unfolding find_member put_member
  cancel_member member_id = do
    member ← find_member member_id
    let closed_member = record member { status = closed }
    put_member member_id closed_member
    member_snapshot env closed_member

  unfoldable pub inspect_member_erasure : String → Method (Bool × Member)
  unfolding find_member
  inspect_member_erasure member_id = do
    member ← find_member member_id
    snapshot ← member_snapshot env member
    pure (is_erased member_id snapshot, snapshot)

  -- the writes of an erasure
  unfoldable pub forget_member : String → Member → Method (Unit {0})
  unfolding erase_identities erased_member scrub_record
  forget_member key member = modify (λ s. record s {
    identity_index = erase_identities member.program_id member.identities s.identity_index;
    members = insert key (erased_member member) s.members;
    idempotency = map_values (scrub_record (erased_member member)) s.idempotency;
  })

  unfoldable pub erase_member : String → Method (Bool × Member)
  unfolding find_member forget_member inspect_member_erasure
  erase_member member_id = do
    member ← find_member member_id
    forget_member member_id member
    inspect_member_erasure member_id

  -- a member with the membership of a plan, or with none
  unfoldable pub with_membership : Option Json → Member → Member
  with_membership membership member =
      let attributes : Fields = elim member.attributes [ some (obj fields) ↦ fields | _ ↦ end ] in
      record member {
        attributes = some (
            obj (
              option_elim membership (without "membership" attributes)
                (λ value. set_field "membership" value attributes)));
      }

  unfoldable pub set_member_membership : String → Option Json → Method Member
  unfolding find_member put_member with_membership
  set_member_membership member_id membership = do
    member ← find_member member_id
    put_member member_id (with_membership membership member)
    member_snapshot env (with_membership membership member)
