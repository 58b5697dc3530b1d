-- ===== src/Engine/Members/Enroll.antt =====
-- `lookup`, `enroll` and `expiringBalances`.
use loyalty_interchange_prot.Base.{
  String, ◌⧺◌, not, Option, none, some, List, [], ◌∷◌, map, option_elim,
}
use loyalty_interchange_prot.Base.Assoc.{lookup, insert, has, values}
use loyalty_interchange_prot.Base.Sort.{sort}
use loyalty_interchange_prot.Exec.{
  pure, gets, modify, ◌>>=◌, ◌>>◌, throw_if, or_throw, branch, not_found, member_not_active,
  conflict,
}
use loyalty_interchange_prot.Protocol.Primitives.{unit_text, Member, active, is_active}
use loyalty_interchange_prot.Protocol.Loyalty.{ExpiringBalance}
use loyalty_interchange_prot.Protocol.Messages.{
  Response, MemberLookupRequest, MemberEnrollRequest, lookup_body, enroll_body,
}
use loyalty_interchange_prot.Engine.State.{Env, Method, next_id, iso_now}
use loyalty_interchange_prot.Engine.Ledger.{account_units}
use loyalty_interchange_prot.Engine.Lots.{expire_point_lots}
use loyalty_interchange_prot.Engine.Balances.{balances}
use loyalty_interchange_prot.Engine.Earning.{assert_program_id}
use loyalty_interchange_prot.Engine.Once.{once, response_context, member_snapshot}
use loyalty_interchange_prot.Engine.Members.Parts.{
  identity_key, base_tier_id, zero_balances, group_lots,
}

module _ (env : Env) where
  unfoldable pub expiring_balances : String → Method (List ExpiringBalance)
  unfolding group_lots
  expiring_balances member_id = do
    expire_point_lots env (some member_id) none
    gets (λ s.
        map
          (λ e. record {
            account_id = unit_text e.1.unit ⧺ ":" ⧺ member_id;
            unit = e.1.unit;
            amount = e.1.amount;
            expires_at = e.1.expires_at;
          })
          (sort (λ left right. env.locale_compare left.0 right.0)
            (group_lots s.program member_id (values s.point_lots) [])))

  unfoldable pub lookup_found : MemberLookupRequest → Member → Method Response
  lookup_found request member = do
    snapshot ← member_snapshot env member
    held ← balances env member.member_id
    pure (record {
      context = response_context env request.context;
      body = lookup_body (some snapshot) held;
    })

  unfoldable pub lookup_member_body : MemberLookupRequest → Method Response
  unfolding lookup_found
  lookup_member_body request = do
    member ← gets (λ s.
        option_elim (lookup (identity_key request.program_id request.identity) s.identity_index)
          none (λ id. lookup id s.members))
    branch member
        (pure
          (record { context = response_context env request.context; body = lookup_body none [] }))
        (lookup_found request)

  unfoldable pub lookup_member : MemberLookupRequest → Method Response
  unfolding lookup_member_body
  lookup_member request = do
    assert_program_id request.program_id
    once env "member.lookup" request.context request.raw (lookup_member_body request)

  unfoldable pub enrolled_response : MemberEnrollRequest → Member → Method Response
  enrolled_response request member = do
    snapshot ← member_snapshot env member
    held ← balances env member.member_id
    pure (record {
      context = response_context env request.context;
      body = enroll_body snapshot held;
    })

  abbrev pub new_member : MemberEnrollRequest → Option String → String → Member
  new_member request tier_id member_id = record {
    member_id = member_id;
    program_id = request.program_id;
    status = active;
    joined_at = iso_now env;
    tier_id = tier_id;
    identities = request.identity ∷ [];
    attributes = request.attributes;
  }

  -- the writes of an enrolment
  unfoldable pub add_member : String → Member → Method (Unit {0})
  unfolding zero_balances
  add_member key member = modify (λ s. record s {
    members = insert member.member_id member s.members;
    identity_index = insert key member.member_id s.identity_index;
    points = zero_balances s.program member.member_id (account_units s.program) s.points;
  })

  -- the enrolment under a member id
  unfoldable pub enroll_with : MemberEnrollRequest → String → String → Method Response
  enroll_with request key member_id = do
    taken ← gets (λ s. has member_id s.members)
    throw_if taken conflict 409
    tier_id ← gets (λ s. base_tier_id s.program)
    let member = new_member request tier_id member_id
    add_member key member
    enrolled_response request member

  unfoldable pub enroll_new : MemberEnrollRequest → String → Method Response
  unfolding enroll_with
  enroll_new request key = do
    member_id ← branch request.member_id (next_id env "member") pure
    enroll_with request key member_id

  unfoldable pub enroll_again : MemberEnrollRequest → String → Method Response
  unfolding enrolled_response
  enroll_again request existing_id = do
    found ← gets (λ s. lookup existing_id s.members)
    existing ← or_throw found not_found 500
    throw_if (not (is_active existing.status)) member_not_active 409
    enrolled_response request existing

  unfoldable pub enrollment : MemberEnrollRequest → Method Response
  enrollment request = do
    let key = identity_key request.program_id request.identity
    existing ← gets (λ s. lookup key s.identity_index)
    branch existing (enroll_new request key) (enroll_again request)

  unfoldable pub enroll : MemberEnrollRequest → Method Response
  unfolding enrollment
  enroll request = do
    assert_program_id request.program_id
    once env "member.enroll" request.context request.raw (enrollment request)
