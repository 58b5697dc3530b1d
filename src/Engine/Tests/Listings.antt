-- ===== src/Engine/Tests/Listings.antt =====
-- Examples of listings: three entries on pages of two.
use loyalty_interchange_prot.Base.{String, ◌≡◌, refl, none, some, List, [], ◌∷◌, arith}
use loyalty_interchange_prot.Base.Int.{pos}
use loyalty_interchange_prot.Protocol.Primitives.{points}
use loyalty_interchange_prot.Protocol.Loyalty.{LedgerEntry, manual}
use loyalty_interchange_prot.Engine.Listing.{index_after}
use loyalty_interchange_prot.Engine.Listing.Pages.{HasDistinctIds, pages, pages-eq-entries}
use loyalty_interchange_prot.Engine.Tests.Data.{env}

abbrev numbered : String → LedgerEntry
numbered id = record {
  entry_id = id;
  member_id = "m1";
  program_id = "p";
  account_id = "points:m1";
  operation = manual;
  unit = points;
  amount = pos 5;
  occurred_at = "2026";
  expires_at = none;
  related_entry_id = none;
  order_id = none;
  location_id = none;
  adjustment_id = none;
  reservation_id = none;
  classification = none;
  reason = none;
  qualifies_for_tier = none;
}

abbrev entries : List LedgerEntry
entries = numbered "e3" ∷ numbered "e2" ∷ numbered "e1" ∷ []

entries-HasDistinctIds : HasDistinctIds entries
unfolding HasDistinctIds index_after
entries-HasDistinctIds = (refl, (refl, (refl, tt)))

pages-eq-entries_example : pages env "text" 2 entries 4 none ≡ some entries
pages-eq-entries_example =
    pages-eq-entries env "text" 2 entries 4 (λ id. refl) entries-HasDistinctIds (omega arith)
      (omega arith)
