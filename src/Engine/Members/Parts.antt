-- ===== src/Engine/Members/Parts.antt =====
-- What the calls on members share: `identityKey`, `baseTierId`, `scrubCachedMemberSnapshot`, and the
-- loops of `eraseMember` and `expiringBalances`.
use loyalty_interchange_prot.Base.{
  ℕ, ◌+◌, String, ◌⧺◌, Bool, true, false, not, ◌&&◌, Option, none, some, List, [], ◌∷◌, head?,
  str_eq, get_or, option_elim, is_some, ltb, if◌then◌else◌,
}
use loyalty_interchange_prot.Base.Int.{ℤ, pos}
use loyalty_interchange_prot.Base.Assoc.{Assoc, lookup, insert, erase}
use loyalty_interchange_prot.Exec.{gets, modify, ◌>>=◌, or_throw, member_not_found}
use loyalty_interchange_prot.Protocol.Primitives.{
  LoyaltyUnit, unit_text, IdentityReference, loyalty_id, identity_type_eq, identity_text, Member,
  closed,
}
use loyalty_interchange_prot.Protocol.Program.{ProgramDefinition}
use loyalty_interchange_prot.Protocol.Messages.{
  ResponseBody, lookup_body, enroll_body, account_body,
}
use loyalty_interchange_prot.Engine.State.{Method, PointLot, IdempotencyRecord}
use loyalty_interchange_prot.Engine.Ledger.{balance_key}
use loyalty_interchange_prot.Engine.Lots.{lot_unit}
use loyalty_interchange_prot.Engine.Balances.{balances}
use loyalty_interchange_prot.Engine.Tiers.{sorted_tiers}

-- `[programId, identity.type, identity.issuer ?? "", identity.value].join("|")`
unfoldable pub identity_key : String → IdentityReference → String
identity_key program_id identity =
    program_id
    ⧺ "|"
    ⧺ identity_text identity.type
    ⧺ "|"
    ⧺ get_or identity.issuer ""
    ⧺ "|"
    ⧺ identity.value

unfoldable pub base_tier_id : ProgramDefinition → Option String
base_tier_id program = option_elim (head? (sorted_tiers program)) none (λ tier. some tier.tier_id)

unfoldable pub put_member : String → Member → Method (Unit {0})
put_member key member = modify (λ s. record s { members = insert key member s.members })

-- the balances of a new member
unfoldable pub zero_balances : ProgramDefinition → String → List LoyaltyUnit → Assoc ℤ → Assoc ℤ
zero_balances program member_id [] balances = balances
zero_balances program member_id (unit ∷ units) balances =
    zero_balances program member_id units
      (insert (balance_key program member_id unit) (pos 0) balances)

unfoldable pub find_member : String → Method Member
find_member member_id = do
  found ← gets (λ s. lookup member_id s.members)
  or_throw found member_not_found 404

-- a member in a cached response, replaced if it is this member
unfoldable pub scrub_member : Member → Member → Member
scrub_member member cached =
    if str_eq cached.member_id member.member_id && str_eq cached.program_id member.program_id
    then member
    else cached

unfoldable pub scrub_body : Member → ResponseBody → ResponseBody
unfolding scrub_member
scrub_body member (lookup_body found held) =
    lookup_body (option_elim found none (λ cached. some (scrub_member member cached))) held
scrub_body member (enroll_body cached held) = enroll_body (scrub_member member cached) held
scrub_body member (account_body cached held metrics expiring progress) =
    account_body (scrub_member member cached) held metrics expiring progress
scrub_body member body = body

unfoldable pub scrub_record : Member → IdempotencyRecord → IdempotencyRecord
unfolding scrub_body
scrub_record member entry =
    let response = entry.response in
    record entry { response = record response { body = scrub_body member response.body } }

-- a member without identity and attributes
unfoldable pub erased_member : Member → Member
erased_member member = record member {
  status = closed;
  identities =
      record { type = loyalty_id; value = member.member_id; issuer = some "lip-erasure" } ∷ [];
  attributes = none;
}

unfoldable pub erase_identities : String → List IdentityReference → Assoc String → Assoc String
erase_identities program_id [] index = index
erase_identities program_id (identity ∷ identities) index =
    erase_identities program_id identities (erase (identity_key program_id identity) index)

-- whether a snapshot is that of an erased member
unfoldable pub is_erased : String → Member → Bool
is_erased member_id snapshot = elim snapshot.identities [
  | identity ∷ [] ↦
      elim snapshot.status [ closed ↦ true | _ ↦ false ]
      && not (is_some snapshot.attributes)
      && identity_type_eq identity.type loyalty_id
      && str_eq identity.value member_id
      && option_elim identity.issuer false (λ issuer. str_eq issuer "lip-erasure")
  | _ ↦ false
]

-- a group of lots that expire together
pub record LotGroup : Type 0 where
  pub unit : LoyaltyUnit
  pub expires_at : String
  pub amount : ℕ

-- the loop over the lots; the groups are keyed by unit and expiry
unfoldable pub group_lots :
    ProgramDefinition → String → List PointLot → Assoc LotGroup → Assoc LotGroup
group_lots program member_id [] groups = groups
group_lots program member_id (lot ∷ lots) groups =
    let unit = lot_unit program lot in
    let key = unit_text unit ⧺ "|" ⧺ lot.expires_at in
    let before = option_elim (lookup key groups) 0 (λ group. group.amount) in
    group_lots program member_id lots (
      if str_eq lot.member_id member_id && ltb 0 lot.remaining
      then insert key
          (record { unit = unit; expires_at = lot.expires_at; amount = before + lot.remaining })
          groups
      else groups)
