-- ===== src/Engine/Tests/Members.antt =====
-- Examples of members: the tier of an amount, and lots that have expired.
use loyalty_interchange_prot.Base.{ℕ, ◌≤◌, String, ◌≡◌, refl, none, some, [], ◌∷◌, false}
use loyalty_interchange_prot.Base.Int.{pos}
use loyalty_interchange_prot.Base.Sort.{sort, sorted_insert}
use loyalty_interchange_prot.Protocol.Primitives.{points}
use loyalty_interchange_prot.Protocol.Loyalty.{AccountMetric, TierProgress}
use loyalty_interchange_prot.Protocol.Program.{ProgramDefinition, TierDefinition}
use loyalty_interchange_prot.Engine.Tiers.{
  sorted_tiers, last_reached, progress_between, tier_progress,
}
use loyalty_interchange_prot.Engine.Tiers.Highest.{
  IsHighest, metric_amount, tier_progress-IsHighest,
}
use loyalty_interchange_prot.Engine.Tests.Data.{env, program}
use loyalty_interchange_prot.Base.{true}
use loyalty_interchange_prot.Base.Entries.{HasDistinctKeys}
use loyalty_interchange_prot.Base.Assoc.{lookup}
use loyalty_interchange_prot.Protocol.Primitives.{Member, IdentityReference, active, email_hash}
use loyalty_interchange_prot.Protocol.Messages.{enroll_body}
use loyalty_interchange_prot.Engine.State.{State, IdempotencyRecord}
use loyalty_interchange_prot.Engine.Calls.{new_engine}
use loyalty_interchange_prot.Engine.Members.{identity_key, erased_member, is_erased, forget_member}
use loyalty_interchange_prot.Engine.Members.Forgotten.{
  IsUnlisted, IsScrubbed, forget_member_forgets,
}

abbrev tier_of : String → ℕ → TierDefinition
tier_of id minimum = record {
  tier_id = id;
  name = id;
  qualification_metric_id = "spent";
  minimum = minimum;
  earn_multiplier_bps = none;
}

abbrev tiered : ProgramDefinition
tiered = record program {
  tiers = some (tier_of "gold" 100 ∷ tier_of "bronze" 0 ∷ tier_of "silver" 50 ∷ []);
}

abbrev spent : AccountMetric
spent = record { metric_id = "spent"; unit = points; amount = pos 60; as_of = "2026" }

abbrev silver_progress : TierProgress
silver_progress = record {
  current_tier_id = "silver";
  qualification_metric_id = "spent";
  current_amount = 60;
  next_tier_id = some "gold";
  remaining_to_next = some 40;
  progress_bps = 2000;
  is_top_tier = false;
}

tier_progress-IsHighest_example :
    ((tier : TierDefinition) × ("silver" ≡ tier.tier_id) × IsHighest tiered 60 tier)
    × (60 ≡ metric_amount (spent ∷ []) "spent")
    × (spent.metric_id ≡ "spent")
    × (2000 ≤ 10000)
unfolding sorted_tiers sort sorted_insert last_reached progress_between tier_progress
tier_progress-IsHighest_example =
    tier_progress-IsHighest tiered (spent ∷ []) (tier_of "bronze" 0) silver_progress refl refl refl

abbrev mail : IdentityReference
mail = record { type = email_hash; value = "ann"; issuer = none }

abbrev ann : Member
ann = record {
  member_id = "m1";
  program_id = "p";
  status = active;
  joined_at = "2026";
  tier_id = none;
  identities = mail ∷ [];
  attributes = none;
}

-- a recorded answer that shows a member
abbrev answer_with : Member → IdempotencyRecord
answer_with member = record {
  fingerprint = "text";
  response = record {
    context = record { request_id = "r1"; processed_at = "2026" };
    body = enroll_body member [];
  };
}

abbrev known : State
known = record (new_engine program) {
  members = ("m1", ann) ∷ [];
  identity_index = (identity_key "p" mail, "m1") ∷ [];
  idempotency = ("k1", answer_with ann) ∷ [];
}

forget_member_forgets_example :
    let t = (forget_member env "m1" ann known).1 in
    IsUnlisted "p" (mail ∷ []) t.identity_index
    × (lookup "m1" t.members ≡ some (erased_member ann))
    × (is_erased "m1" (erased_member ann) ≡ true)
    × IsScrubbed (erased_member ann) t.idempotency
unfolding HasDistinctKeys lookup
forget_member_forgets_example = forget_member_forgets env "m1" ann known (refl, tt)
