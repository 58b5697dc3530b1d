-- ===== src/Engine/Listing/Pages.antt =====
-- Following a listing's cursors from page to page.
use loyalty_interchange_prot.Base.{
  ℕ, zero, suc, ◌+◌, ◌-◌, ◌≤◌, ◌<◌, String, ◌≡◌, refl, sym, ap, ◌∙◌, Option, none, some, List, [],
  ◌∷◌, ◌++◌, length, get_elem?, option_elim, ltb, str_eq_iff, arith, Bool-cases, inl, inr,
}
use loyalty_interchange_prot.Base.Lists.{drop, take, last?, length-drop, length-take}
use loyalty_interchange_prot.Exec.{returned, threw}
use loyalty_interchange_prot.Protocol.Loyalty.{LedgerEntry}
use loyalty_interchange_prot.Engine.State.{Env, cursor_text}
use loyalty_interchange_prot.Engine.Listing.{index_after, page_start, cursor_start, page_from}

module _ {A : Type 0} where
  take-append-drop : (n : ℕ) (xs : List A) → take n xs ++ drop n xs ≡ xs
  unfolding take drop
  take-append-drop zero xs = refl
  take-append-drop (suc n) [] = refl
  take-append-drop (suc n) (x ∷ xs) = ap (λ ys. x ∷ ys) (take-append-drop n xs)

  drop-nil : (n : ℕ) → drop {A = A} n [] ≡ []
  unfolding drop
  drop-nil zero = refl
  drop-nil (suc n) = refl

  drop_taken : (n j : ℕ) (xs : List A) → j ≡ length (take n xs) → drop j xs ≡ drop n xs
  unfolding take drop
  drop_taken zero j xs h = ap (λ i. drop i xs) h
  drop_taken (suc n) j [] h = drop-nil j
  drop_taken (suc n) zero (x ∷ xs) h = ground arith
  drop_taken (suc n) (suc j) (x ∷ xs) h = drop_taken n j xs (omega arith)

  -- after a page that is cut off, the rest of the list begins
  drop-take :
      (s n j : ℕ) (xs : List A)
      → j ≡ s + length (take n (drop s xs))
      → drop j xs ≡ drop n (drop s xs)
  unfolding take drop
  drop-take zero n j xs h = drop_taken n j xs (h ∙ omega arith)
  drop-take (suc s) n j [] h = drop-nil j ∙ sym (drop-nil n)
  drop-take (suc s) n zero (x ∷ xs) h = ground arith
  drop-take (suc s) n (suc j) (x ∷ xs) h = drop-take s n j xs (omega (arith, h))

  get_elem?-drop : (s i j : ℕ) (xs : List A) → j ≡ s + i → get_elem? (drop s xs) i ≡ get_elem? xs j
  unfolding drop
  get_elem?-drop zero i j xs h = ap (get_elem? xs) (omega arith)
  get_elem?-drop (suc s) i j [] h = refl
  get_elem?-drop (suc s) i zero (x ∷ xs) h = ground arith
  get_elem?-drop (suc s) i (suc j) (x ∷ xs) h = get_elem?-drop s i j xs (omega (arith, h))

  get_elem?-take :
      (n i : ℕ) (xs : List A) (a : A) → get_elem? (take n xs) i ≡ some a → get_elem? xs i ≡ some a
  unfolding take
  get_elem?-take zero i xs a h = ground arith
  get_elem?-take (suc n) i [] a h = ground arith
  get_elem?-take (suc n) zero (x ∷ xs) a h = h
  get_elem?-take (suc n) (suc i) (x ∷ xs) a h = get_elem?-take n i xs a h

  last-get_elem? :
      (i : ℕ) (xs : List A)
      → length xs ≡ suc i
      → (a : A) × (last? xs ≡ some a) × (get_elem? xs i ≡ some a)
  unfolding last?
  last-get_elem? i [] h = ground arith
  last-get_elem? zero (x ∷ []) h = (x, refl, refl)
  last-get_elem? zero (x ∷ y ∷ xs) h = ground arith
  last-get_elem? (suc i) (x ∷ []) h = ground arith
  last-get_elem? (suc i) (x ∷ y ∷ xs) h = last-get_elem? i (y ∷ xs) (omega arith)

module _ {A : Type 0} where
  nil_of_length : (xs : List A) → length xs ≡ 0 → xs ≡ []
  nil_of_length [] h = refl
  nil_of_length (x ∷ xs) h = ground arith

  append_nil : (xs ys : List A) → ys ≡ [] → xs ≡ xs ++ ys
  append_nil [] ys h = sym h
  append_nil (x ∷ xs) ys h = ap (λ l. x ∷ l) (append_nil xs ys h)

  -- a page that is not cut off is the rest of the list
  whole_page :
      (s n : ℕ) (xs : List A)
      → length xs ≤ s + length (take n (drop s xs))
      → take n (drop s xs) ≡ drop s xs
  whole_page s n xs h =
      let rest = drop-take s n (s + length (take n (drop s xs))) xs refl in
      let short = length-drop (s + length (take n (drop s xs))) xs in
      append_nil (take n (drop s xs)) (drop n (drop s xs))
        (sym rest ∙ nil_of_length _ (short ∙ omega arith))
      ∙ take-append-drop n (drop s xs)

  -- the last one of a page that is cut off
  last-page :
      (s n : ℕ) (xs : List A)
      → 1 ≤ n
      → s + length (take n (drop s xs)) < length xs
      → (a : A) × (last? (take n (drop s xs)) ≡ some a)
        × (i : ℕ) × (get_elem? xs i ≡ some a)
        × (suc i ≡ s + length (take n (drop s xs)))
  last-page s n xs h k =
      let i = length (take n (drop s xs)) - 1 in
      let (a, last, at) =
        last-get_elem? i (take n (drop s xs))
          (ground (arith, length-take n (drop s xs), length-drop s xs)) in
      (
        a,
        last,
        s + i,
        sym (get_elem?-drop s i (s + i) xs refl) ∙ get_elem?-take n i (drop s xs) a at,
        ground (arith, length-take n (drop s xs), length-drop s xs),
      )

-- no id twice
unfoldable pub HasDistinctIds : List LedgerEntry → Type 0
HasDistinctIds [] = Unit {0}
HasDistinctIds (e ∷ entries) = (index_after e.entry_id entries ≡ none) × HasDistinctIds entries

index_after-get_elem? :
    (i : ℕ) (entries : List LedgerEntry) (e : LedgerEntry)
    → HasDistinctIds entries
    → get_elem? entries i ≡ some e
    → index_after e.entry_id entries ≡ some (suc i)
unfolding index_after HasDistinctIds
index_after-get_elem? i [] e d h = ground arith
index_after-get_elem? zero (x ∷ entries) e d h =
    ground (arith, d, h, str_eq_iff e.entry_id e.entry_id)
index_after-get_elem? (suc i) (x ∷ entries) e d h =
    ground (arith, d, h, str_eq_iff x.entry_id e.entry_id, index_after-get_elem? i entries e d.1 h)

module _ (env : Env) (query : String) (limit : ℕ) (entries : List LedgerEntry) where
  -- The entries of a page and of those that its cursor leads to. There is none where a cursor is
  -- refused or the count of pages runs out.
  unfoldable pub pages : ℕ → Option String → Option (List LedgerEntry)
  pages zero cursor = none
  pages (suc n) cursor = elim (page_start env cursor query entries) [
    | threw e ↦ none
    | returned start ↦
        let page = page_from env start limit query entries in
        elim page.next_cursor [
          | none ↦ some page.entries
          | some next ↦ option_elim (pages n (some next)) none (λ rest. some (page.entries ++ rest))
        ]
  ]

  -- a page's cursor leads to where the page ends
  page_start-next :
      ((id : String)
        → env.decode_cursor (env.encode_cursor (record { query = query; entry_id = id }))
          ≡ cursor_text (record { query = query; entry_id = id }))
      → HasDistinctIds entries
      → (start : ℕ) (e : LedgerEntry) (i : ℕ) → get_elem? entries i ≡ some e
      → page_start env
          (some (env.encode_cursor (record { query = query; entry_id = e.entry_id })))
          query
          entries
        ≡ returned (suc i)
  unfolding page_start cursor_start
  page_start-next codec d start e i h =
      ground
        (arith, codec e.entry_id, str_eq_iff query query, index_after-get_elem? i entries e d h)

  pages_from :
      ((id : String)
        → env.decode_cursor (env.encode_cursor (record { query = query; entry_id = id }))
          ≡ cursor_text (record { query = query; entry_id = id }))
      → HasDistinctIds entries
      → 1 ≤ limit
      → (n : ℕ) (cursor : Option String) (start : ℕ)
      → page_start env cursor query entries ≡ returned start
      → length entries - start < n
      → pages n cursor ≡ some (drop start entries)
  unfolding pages page_from
  pages_from codec d l zero cursor start at fuel = ground arith
  pages_from codec d l (suc n) cursor start at fuel =
      elim (Bool-cases (ltb (start + length (take limit (drop start entries))) (length entries))) [
        | inl more ↦
            let (e, last, i, found, same) =
              last-page start limit entries l (ground (arith, more)) in
            let next = page_start-next codec d start e i found in
            let rest =
              pages_from codec d l n
                (some (env.encode_cursor (record { query = query; entry_id = e.entry_id }))) (suc i)
                next
                (ground (
                  arith,
                  same,
                  more,
                  length-take limit (drop start entries),
                  length-drop start entries,
                )) in
            let joined = take-append-drop limit (drop start entries) in
            let begins = drop-take start limit (suc i) entries same in
            ground (arith, at, more, last, rest, joined, begins)
        | inr done ↦ ground (arith, at, done, whole_page start limit entries)
      ]

-- Where no two entries have the same id, the limit is not zero, and a cursor's text is read back as
-- the cursor, the pages that the cursors lead to, from the first one on and until a page has none,
-- are all accepted, are at most as many as there are entries and one more, and put together are the
-- whole listing in its order.
pub pages-eq-entries :
    (env : Env) (query : String) (limit : ℕ) (entries : List LedgerEntry) (n : ℕ)
    → ((id : String)
        → env.decode_cursor (env.encode_cursor (record { query = query; entry_id = id }))
          ≡ cursor_text (record { query = query; entry_id = id }))
    → HasDistinctIds entries
    → 1 ≤ limit
    → length entries < n
    → pages env query limit entries n none ≡ some entries
unfolding drop page_start
pages-eq-entries env query limit entries n codec d l h =
    pages_from env query limit entries codec d l n none 0 refl (ground arith)
