-- ===== src/Catalog/Search/Pages.antt =====
-- The pages of `ProductRepository.search` (backend/app/modules/catalog/repository.py): the first one,
-- and what becomes of its cursor.
use nordmarkt.Common.{
  ℕ, ◌+◌, ◌≤◌, ◌<◌, ◌≡◌, ◌≢◌, refl, true, none, some, List, [], ◌∷◌, arith, ltb, str_eq-ne, Perm,
  take, take-all, length-take, take-take_suc, length, Bool-cases, inl, inr, ◌⊎◌,
}
use nordmarkt.Core.Errors.{Result, ok, err, data_error}
use nordmarkt.Core.Pagination.{
  Page, Base64, Base64Laws, JsonCodec, JsonLaws, Times, AsyncpgLaws, encode_cursor, decode_cursor,
}
use nordmarkt.Core.Pagination.RoundTrip.{decode_cursor-encode_cursor}
use nordmarkt.Shared.Database.{Database}
use nordmarkt.Catalog.Models.{Product}
use nordmarkt.Catalog.Search.{
  TextSearch, ProductQuery, Marker, marker_of, is_match, base_products, sort_products, last_of,
  after_cursor, listing, page_of, search_products,
}
use nordmarkt.Catalog.Search.Order.{
  last_of-take, Distinct, Descending, Distinct-select, sort-Descending, sort-Perm,
}

module _ (b : Base64) (j : JsonCodec Marker) (bl : Base64Laws b) (jl : JsonLaws j) where
  -- No marker has the empty cursor.
  encode_cursor-nonempty : (m : Marker) → encode_cursor b j m ≢ []
  unfolding decode_cursor
  encode_cursor-nonempty m e =
      let read = decode_cursor-encode_cursor b j m bl jl in
      ground (arith, read, e, bl.decode_empty, jl.loads_empty)

  module _ (d : Times) (al : AsyncpgLaws d) where
    after-refused :
        (c : List ℕ) (m : Marker) (ps : List Product)
        → c ≢ []
        → decode_cursor b j c ≡ ok m
        → after_cursor b j d (some c) ps ≡ err data_error
    after-refused [] m ps ne e = ground (arith, ne)
    after-refused (x ∷ c) m ps ne e = ground (arith, e, al.refused m.created_at)

    after_cursor-encode_cursor :
        (m : Marker) (ps : List Product)
        → after_cursor b j d (some (encode_cursor b j m)) ps ≡ err data_error
    after_cursor-encode_cursor m ps =
        after-refused _ m ps (encode_cursor-nonempty m) (decode_cursor-encode_cursor b j m bl jl)

    search_products-encode_cursor :
        (ts : TextSearch) (db : Database) (q : ProductQuery) (m : Marker)
        → search_products b j d ts db (record q { cursor = some (encode_cursor b j m) })
          ≡ err data_error
    unfolding search_products listing
    search_products-encode_cursor ts db q m =
        let same =
          after_cursor-encode_cursor m
            (base_products ts db (record q { cursor = some (encode_cursor b j m) })) in
        rw same refl

module _ (b : Base64) (j : JsonCodec Marker) (d : Times) (limit : ℕ) (found : List Product) where
  page_of-whole :
      length found ≤ limit
      → page_of b j d limit found ≡ record { items = found; next_cursor = none }
  unfolding page_of
  page_of-whole few =
      ground (arith, take-all (limit + 1) found (omega (arith, few)), take-all limit found few)

  page_of-more :
      (p : Product)
      → limit < length found
      → last_of (take limit found) ≡ some p
      → page_of b j d limit found ≡ record {
        items = take limit found;
        next_cursor = some (encode_cursor b j (marker_of d p));
      }
  unfolding page_of
  page_of-more p more last =
      let over : ltb limit (length (take (limit + 1) found)) ≡ true =
        ground (arith, length-take (limit + 1) found) in
      rw (over, take-take_suc limit found, last)

-- What the client of a search gets to see of the products that it found: all of them, if they fit on a
-- page; otherwise the first `limit`, with a cursor that the program itself refuses to go on from.
abbrev pub Shown : (ProductQuery → Result (Page Product)) → ProductQuery → List Product → Type 0
Shown search q found =
    ((length found ≤ q.limit) × (search q ≡ ok (record { items = found; next_cursor = none })))
    ⊎ ((q.limit < length found)
        × ((c : List ℕ) × (search q
              ≡ ok (record { items = take q.limit found; next_cursor = some c }))
            × (search (record q { cursor = some c }) ≡ err data_error)))

-- Over asyncpg, for a catalogue whose products have different ids, every sort but "rating" and a limit
-- above 0: a search without a cursor finds the matching products, each exactly once, strictly from the
-- newest to the oldest. If they fit on a page, it returns them all, and no cursor; otherwise the first
-- `limit` of them, and a cursor, and the same search from that cursor raises, since the driver
-- refuses the text of a time.
pub search_products-pages :
    (b : Base64) (j : JsonCodec Marker) (d : Times) (ts : TextSearch) (db : Database)
    (q : ProductQuery)
    → Base64Laws b
    → JsonLaws j
    → AsyncpgLaws d
    → Distinct db.products
    → q.sort ≢ "rating"
    → 1 ≤ q.limit
    → q.cursor ≡ none
    → (found : List Product) × Perm (base_products ts db q) found
      × Descending found
      × Shown (search_products b j d ts db) q found
unfolding search_products listing base_products is_match
search_products-pages b j d ts db q bl jl al distinct by_time positive start =
    let ps = base_products ts db q in
    let sorted = sort_products q.sort ps in
    (
      sorted,
      sort-Perm q.sort ps,
      sort-Descending q.sort (str_eq-ne by_time) ps (Distinct-select _ db.products distinct),
      elim (Bool-cases (ltb q.limit (length sorted))) [
        | inr few ↦ inl (
          ground (arith, few),
          rw (start, page_of-whole b j d q.limit sorted (ground (arith, few))) refl,
        )
        | inl more ↦
            let (p, last) = last_of-take q.limit sorted positive (ground (arith, more)) in
            inr (
              ground (arith, more),
              (
                encode_cursor b j (marker_of d p),
                rw (start, page_of-more b j d q.limit sorted p (ground (arith, more)) last) refl,
                search_products-encode_cursor b j bl jl d al ts db q (marker_of d p),
              ),
            )
      ],
    )
