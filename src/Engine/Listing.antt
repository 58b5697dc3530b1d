-- ===== src/Engine/Listing.antt =====
-- Pages of the ledger: `listLedger`, `matchesLedgerQuery`, `ledgerQueryFingerprint`, `encodeCursor`,
-- `cursorStart`, `sortedLedgerClone`, `inspectLedger` and `getLedger`.
pub mod Pages
use Prim.Native.String.{compare as compare_text}
use loyalty_interchange_prot.Base.{
  ℕ, zero, suc, ◌+◌, String, Bool, true, false, not, ◌&&◌, Option, none, some, List, [], ◌∷◌,
  Ordering, compare, map, length, any, filter, get_or, option_elim, ltb, str_eq, if◌then◌else◌,
}
use loyalty_interchange_prot.Base.Assoc.{values}
use loyalty_interchange_prot.Base.Lists.{drop, take, last?}
use loyalty_interchange_prot.Base.Sort.{sort, then_by, not_after}
use loyalty_interchange_prot.Base.Json.{
  Json, Items, nil, cons, undefined, str, arr, obj, field, end, str_or_undefined,
}
use loyalty_interchange_prot.Exec.{
  pure, gets, ◌>>=◌, ◌>>◌, settle, Outcome, returned, threw, ErrorCode, invalid_cursor,
  runtime_error,
}
use loyalty_interchange_prot.Protocol.Loyalty.{
  LedgerEntry, LedgerOperation, operation_eq, operation_text, Reservation,
}
use loyalty_interchange_prot.Protocol.Messages.{Response, LedgerListRequest, ledger_list_body}
use loyalty_interchange_prot.Engine.State.{Env, State, Method, LedgerCursor, null_text, cursor_text}
use loyalty_interchange_prot.Engine.Fingerprint.{fingerprint}
use loyalty_interchange_prot.Engine.Lots.{expire_point_lots}
use loyalty_interchange_prot.Engine.Balances.{expire_all_reservations}
use loyalty_interchange_prot.Engine.Earning.{assert_program_id}
use loyalty_interchange_prot.Engine.Once.{once, response_context}
use loyalty_interchange_prot.Engine.Issued.{active_member}

-- `left >= right` on texts
abbrev pub text_ge : String → String → Bool
text_ge left right = elim (compare_text left right) [ Ordering.lt ↦ false | _ ↦ true ]

unfoldable pub matches_ledger_query : LedgerListRequest → LedgerEntry → Bool
matches_ledger_query request entry =
    str_eq entry.member_id request.member_id
    && str_eq entry.program_id request.program_id
    && option_elim request.account_id true (str_eq entry.account_id)
    && option_elim request.operations true (any (operation_eq entry.operation))
    && option_elim request.occurred_from true (text_ge entry.occurred_at)
    && option_elim request.occurred_until true (λ until. text_ge until entry.occurred_at)

-- the texts of a JSON array
unfoldable pub text_items : List String → Items
text_items [] = nil
text_items (t ∷ ts) = cons (str t) (text_items ts)

abbrev pub operations_json : Option (List LedgerOperation) → Json
operations_json none = undefined
operations_json (some operations) =
    arr (text_items (sort compare_text (map operation_text operations)))

-- `findIndex` by the entry's id, plus one
unfoldable pub index_after : String → List LedgerEntry → Option ℕ
index_after id [] = none
index_after id (entry ∷ entries) =
    if str_eq entry.entry_id id
    then some 1
    else option_elim (index_after id entries) none (λ n. some (suc n))

abbrev pub refused : ErrorCode → ℕ → Outcome ℕ
refused code status = threw (record { code = code; status = status })

-- what a listing's page holds
pub record Page : Type 0 where
  pub entries : List LedgerEntry
  pub next_cursor : Option String

module _ (env : Env) where
  unfoldable pub ledger_query_fingerprint : LedgerListRequest → Method String
  ledger_query_fingerprint request = fingerprint env (
      obj (
        field "member_id" (str request.member_id) (
          field "program_id" (str request.program_id) (
            field "account_id" (str_or_undefined request.account_id) (
              field "operations" (operations_json request.operations) (
                field "occurred_from" (str_or_undefined request.occurred_from)
                  (field "occurred_until" (str_or_undefined request.occurred_until) end)))))))

  -- newest first, and by the entry's id
  unfoldable pub newest_first : LedgerEntry → LedgerEntry → Ordering
  newest_first left right =
      then_by (compare (env.date_parse right.occurred_at) (env.date_parse left.occurred_at))
        (env.locale_compare right.entry_id left.entry_id)

  unfoldable pub matching_entries : LedgerListRequest → State → List LedgerEntry
  unfolding matches_ledger_query newest_first
  matching_entries request s =
      sort newest_first (filter (matches_ledger_query request) (values s.ledger))

  -- where a cursor's page starts; of `null`, reading the version throws a TypeError
  unfoldable pub cursor_start : String → String → List LedgerEntry → Outcome ℕ
  unfolding index_after
  cursor_start value query entries = elim (env.decode_cursor value) [
    | null_text ↦ refused runtime_error 500
    | cursor_text cursor ↦
        if not (str_eq cursor.query query)
        then refused invalid_cursor 400
        else option_elim (index_after cursor.entry_id entries) (refused invalid_cursor 400) returned
    | _ ↦ refused invalid_cursor 400
  ]

  -- where a page starts
  unfoldable pub page_start : Option String → String → List LedgerEntry → Outcome ℕ
  unfolding cursor_start
  page_start cursor query entries =
      option_elim cursor (returned 0) (λ value. cursor_start value query entries)

  -- the page from an index on
  unfoldable pub page_from : ℕ → ℕ → String → List LedgerEntry → Page
  unfolding take drop last?
  page_from start limit query entries =
      let page = take limit (drop start entries) in
      record {
        entries = page;
        next_cursor =
            if ltb (start + length page) (length entries)
            then option_elim (last? page) none (λ last.
              some (env.encode_cursor (record { query = query; entry_id = last.entry_id })))
            else none;
      }

  unfoldable pub list_ledger_body : LedgerListRequest → Method Response
  unfolding ledger_query_fingerprint matching_entries page_start page_from
  list_ledger_body request = do
    active_member request.member_id
    expire_point_lots env (some request.member_id) none
    query ← ledger_query_fingerprint request
    entries ← gets (matching_entries request)
    start ← settle (page_start request.cursor query entries)
    let page = page_from start (get_or request.limit 50) query entries
    pure (record {
      context = response_context env request.context;
      body = ledger_list_body page.entries page.next_cursor;
    })

  unfoldable pub list_ledger : LedgerListRequest → Method Response
  unfolding list_ledger_body
  list_ledger request = do
    assert_program_id request.program_id
    once env "ledger.list" request.context request.raw (list_ledger_body request)

  unfoldable pub get_ledger : Method (List LedgerEntry)
  get_ledger = do expire_point_lots env none none; gets (λ s. values s.ledger)

  unfoldable pub sorted_ledger : State → List LedgerEntry
  unfolding newest_first
  sorted_ledger s = sort newest_first (values s.ledger)

  unfoldable pub inspect_ledger : Method (List LedgerEntry × List Reservation)
  unfolding sorted_ledger
  inspect_ledger = do
    expire_all_reservations env
    expire_point_lots env none none
    gets (λ s. (sorted_ledger s, values s.reservations))
