-- ===== src/Engine/Evolution/Listings.antt =====
-- The listings of the ledger evolve the state: they expire lots and reservations.
use loyalty_interchange_prot.Base.{ℕ, String, ◌≡◌}
use loyalty_interchange_prot.Exec.Follows.{Follows}
use loyalty_interchange_prot.Protocol.Messages.{LedgerListRequest}
use loyalty_interchange_prot.Engine.State.{Env}
use loyalty_interchange_prot.Engine.Listing.{
  ledger_query_fingerprint, list_ledger_body, list_ledger, get_ledger, inspect_ledger,
}
use loyalty_interchange_prot.Engine.Evolution.Order.{Evolves}
use loyalty_interchange_prot.Engine.Evolution.Writes.{expire_all_reservations-Evolves}
use loyalty_interchange_prot.Engine.Evolution.Operations.{method_rules, once-Evolves}

module _ (env : Env) (distinct : (n m : ℕ) (p q : String) → env.ids n p ≡ env.ids m q → n ≡ m) where
  query_fingerprint-Evolves :
      (q : LedgerListRequest) → Follows (Evolves env.ids) (ledger_query_fingerprint env q)
  unfolding ledger_query_fingerprint
  query_fingerprint-Evolves q = search method_rules depth 4

  list_ledger_body-Evolves :
      (q : LedgerListRequest) → Follows (Evolves env.ids) (list_ledger_body env q)
  unfolding list_ledger_body
  list_ledger_body-Evolves q = search (method_rules, query_fingerprint-Evolves) depth 12

  pub list_ledger-Evolves : (q : LedgerListRequest) → Follows (Evolves env.ids) (list_ledger env q)
  unfolding list_ledger
  list_ledger-Evolves q = search (method_rules, once-Evolves, list_ledger_body-Evolves) depth 8

  pub get_ledger-Evolves : Follows (Evolves env.ids) (get_ledger env)
  unfolding get_ledger
  get_ledger-Evolves = search method_rules depth 6

  pub inspect_ledger-Evolves : Follows (Evolves env.ids) (inspect_ledger env)
  unfolding inspect_ledger
  inspect_ledger-Evolves = search (method_rules, expire_all_reservations-Evolves) depth 8
