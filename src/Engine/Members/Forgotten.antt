-- ===== src/Engine/Members/Forgotten.antt =====
-- What `eraseMember` leaves of a member.
use loyalty_interchange_prot.Base.{
  String, ◌≡◌, ◌≢◌, refl, true, Bool-cases, ◌⊎◌, inl, inr, Option, none, some, List, [], ◌∷◌,
  str_eq, str_eq_iff, arith,
}
use loyalty_interchange_prot.Base.Assoc.{Assoc, lookup, erase, lookup-insert_self, map_values}
use loyalty_interchange_prot.Base.Entries.{HasDistinctKeys}
use loyalty_interchange_prot.Exec.{modify}
use loyalty_interchange_prot.Protocol.Primitives.{IdentityReference, Member, identity_type_eq}
use loyalty_interchange_prot.Engine.State.{Env, State, IdempotencyRecord}
use loyalty_interchange_prot.Protocol.Messages.{
  ResponseBody, lookup_body, enroll_body, account_body,
}
use loyalty_interchange_prot.Engine.Members.Parts.{
  identity_key, erase_identities, erased_member, is_erased, scrub_member, scrub_body, scrub_record,
}
use loyalty_interchange_prot.Engine.Members.Account.{forget_member}

lookup-erase_ne : (k j : String) (m : Assoc String) → k ≢ j → lookup j (erase k m) ≡ lookup j m
unfolding lookup erase
lookup-erase_ne k j [] n = refl
lookup-erase_ne k j ((i, v) ∷ m) n =
    ground (arith, n, str_eq_iff i k, str_eq_iff i j, lookup-erase_ne k j m n)

lookup-erase-none :
    (k j : String) (m : Assoc String) → lookup j m ≡ none → lookup j (erase k m) ≡ none
unfolding lookup erase
lookup-erase-none k j [] h = refl
lookup-erase-none k j ((i, v) ∷ m) h = ground (arith, lookup-erase-none k j m)

lookup-erase_self :
    (k : String) (m : Assoc String) → HasDistinctKeys m → lookup k (erase k m) ≡ none
unfolding lookup erase HasDistinctKeys
lookup-erase_self k [] h = refl
lookup-erase_self k ((i, v) ∷ m) h = ground (arith, h, str_eq_iff i k, lookup-erase_self k m)

erase-HasDistinctKeys :
    (k : String) (m : Assoc String) → HasDistinctKeys m → HasDistinctKeys (erase k m)
unfolding erase HasDistinctKeys
erase-HasDistinctKeys k [] h = tt
erase-HasDistinctKeys k ((i, v) ∷ m) h =
    ground (arith, h, erase-HasDistinctKeys k m, lookup-erase-none k i m)

lookup-erase_identities-none :
    (program_id k : String) (identities : List IdentityReference) (index : Assoc String)
    → lookup k index ≡ none
    → lookup k (erase_identities program_id identities index) ≡ none
unfolding erase_identities
lookup-erase_identities-none program_id k [] index h = h
lookup-erase_identities-none program_id k (identity ∷ identities) index h =
    lookup-erase_identities-none program_id k identities
      (erase (identity_key program_id identity) index)
      (lookup-erase-none (identity_key program_id identity) k index h)

is_erased-erased_member :
    (member : Member) → is_erased member.member_id (erased_member member) ≡ true
unfolding is_erased erased_member identity_type_eq
is_erased-erased_member member = ground (arith, str_eq_iff member.member_id member.member_id)

-- the member that a response shows
unfoldable pub shown : ResponseBody → Option Member
shown (lookup_body found held) = found
shown (enroll_body member held) = some member
shown (account_body member held metrics expiring progress) = some member
shown body = none

-- A member that a response shows: the given one, or another.
abbrev IsErasedOrOther : Member → Option Member → Type 0
IsErasedOrOther member none = Unit {0}
IsErasedOrOther member (some c) =
    (c ≡ member) ⊎ ((c.member_id ≢ member.member_id) ⊎ (c.program_id ≢ member.program_id))

-- no recorded response shows another form of the member than the given one
unfoldable pub IsScrubbed : Member → Assoc IdempotencyRecord → Type 0
IsScrubbed member [] = Unit {0}
IsScrubbed member ((_, r) ∷ records) =
    IsErasedOrOther member (shown r.response.body) × IsScrubbed member records

scrubbed_member : (member c : Member) → IsErasedOrOther member (some (scrub_member member c))
unfolding scrub_member
scrubbed_member member c = elim (Bool-cases (str_eq c.member_id member.member_id)) [
  | inl same_id ↦ elim (Bool-cases (str_eq c.program_id member.program_id)) [
    | inl same_program ↦ inl (ground (arith, same_id, same_program))
    | inr other ↦
        rw (same_id, other)
          (inr (inr λ e. ground (arith, e, other, str_eq_iff c.program_id member.program_id)))
  ]
  | inr other ↦
      rw other (inr (inl λ e. ground (arith, e, other, str_eq_iff c.member_id member.member_id)))
]

scrubbed_body :
    (member : Member) (body : ResponseBody)
    → IsErasedOrOther member (shown (scrub_body member body))
unfolding shown scrub_body
scrubbed_body member (lookup_body none held) = tt
scrubbed_body member (lookup_body (some c) held) = scrubbed_member member c
scrubbed_body member (enroll_body c held) = scrubbed_member member c
scrubbed_body member (account_body c held metrics expiring progress) = scrubbed_member member c
scrubbed_body member body = tt

map_values-IsScrubbed :
    (member : Member) (records : Assoc IdempotencyRecord)
    → IsScrubbed member (map_values (scrub_record member) records)
unfolding IsScrubbed map_values scrub_record
map_values-IsScrubbed member [] = tt
map_values-IsScrubbed member ((_, r) ∷ records) =
    (scrubbed_body member r.response.body, map_values-IsScrubbed member records)

-- none of the identities is in an index
unfoldable pub IsUnlisted : String → List IdentityReference → Assoc String → Type 0
IsUnlisted program_id [] index = Unit {0}
IsUnlisted program_id (identity ∷ identities) index =
    (lookup (identity_key program_id identity) index ≡ none)
    × IsUnlisted program_id identities index

erase_identities-IsUnlisted :
    (program_id : String) (identities : List IdentityReference) (index : Assoc String)
    → HasDistinctKeys index
    → IsUnlisted program_id identities (erase_identities program_id identities index)
unfolding IsUnlisted erase_identities
erase_identities-IsUnlisted program_id [] index h = tt
erase_identities-IsUnlisted program_id (identity ∷ identities) index h =
    let key = identity_key program_id identity in
    (
      lookup-erase_identities-none program_id key identities (erase key index)
          (lookup-erase_self key index h),
      erase_identities-IsUnlisted program_id identities (erase key index)
          (erase-HasDistinctKeys key index h),
    )

-- Where no two entries of the identity index have the same key, forgetting a member leaves none of
-- the member's identities in the index, leaves under its key a member that counts as erased, and
-- leaves no recorded response that shows a member of this id and program in another form than the
-- erased one.
pub forget_member_forgets :
    (env : Env) (key : String) (member : Member) (s : State)
    → HasDistinctKeys s.identity_index
    → let t = (forget_member env key member s).1 in
      IsUnlisted member.program_id member.identities t.identity_index
      × (lookup key t.members ≡ some (erased_member member))
      × (is_erased member.member_id (erased_member member) ≡ true)
      × IsScrubbed (erased_member member) t.idempotency
unfolding forget_member modify
forget_member_forgets env key member s distinct =
    let erased = erased_member member in
    (
      erase_identities-IsUnlisted member.program_id member.identities s.identity_index distinct,
      lookup-insert_self key erased s.members,
      is_erased-erased_member member,
      map_values-IsScrubbed erased s.idempotency,
    )
