-- ===== src/Catalog/Search.antt =====
-- backend/app/modules/catalog/repository.py: `ProductQuery`, and the searches of
-- `ProductRepository`.
pub mod Order
pub mod Pages
use nordmarkt.Common.{
  ℕ, ◌+◌, ◌≤◌, Bool, true, false, ◌&&◌, ◌||◌, not, Option, none, some, List, [], ◌∷◌, ◌++◌, String,
  min, max, leb, ltb, ◌==◌, str_eq, if◌then◌else◌, is_none, select, find, any, take, length, map,
}
use nordmarkt.Common.Int.{ℤ, pos, negsuc, pos_part, leb_ℤ}
use nordmarkt.Common.Texts.{truthy, ◌+s◌, starts_with, mem_text}
use nordmarkt.Core.Errors.{Result, ok, err, ◌>>=◌}
use nordmarkt.Core.Pagination.{
  Page, Base64, JsonCodec, Times, bound_time, encode_cursor, decode_cursor,
}
use nordmarkt.Shared.Database.{Database}
use nordmarkt.Catalog.Models.{Brand, Category, Product, ProductVariant}

-- What the searches take from Python and from Postgres: `str.strip`, `websearch_to_tsquery` against
-- the generated column, and ILIKE with `%` after the text.
pub record TextSearch : Type 0 where
  pub strip : String → String
  pub matches : String → Product → Bool
  pub sku_ilike : String → String → Bool

pub record ProductQuery : Type 0 where
  pub search : Option String
  pub category_path : Option String
  pub brand_slugs : List String
  pub tags : List String
  pub min_price : Option ℤ
  pub max_price : Option ℤ
  pub in_stock_only : Bool
  pub sort : String
  pub limit : ℕ
  pub cursor : Option (List ℕ)

-- `ProductQuery.__init__`, from its arguments: `search` is stripped, and `limit` is cut to 1 to 60.
unfoldable pub make_query : TextSearch → ProductQuery → ℤ → ProductQuery
make_query ts arguments limit = record arguments {
  search = elim (truthy arguments.search) [ none ↦ none | some t ↦ some (ts.strip t) ];
  limit = min (max (pos_part limit) 1) 60;
}

-- The filters of `_base_statement`, on one product and one of its variants. A filter whose argument
-- is missing, or empty, lets every row pass.
module _ (ts : TextSearch) (db : Database) (q : ProductQuery) where
  abbrev pub matches_search : Product → ProductVariant → Bool
  matches_search p v = elim (truthy q.search) [
    | none ↦ true
    | some t ↦ ts.matches t p || ts.sku_ilike t v.sku
  ]

  abbrev pub matches_category : Product → Bool
  matches_category p = elim (truthy q.category_path) [
    | none ↦ true
    | some path ↦
        any (λ c. c.id == p.category_id && (str_eq c.path path || starts_with c.path (path +s ".")))
          db.categories
  ]

  abbrev pub brand_of : Product → Option Brand
  brand_of p = elim p.brand_id [ none ↦ none | some id ↦ find (λ b. b.id == id) db.brands ]

  abbrev pub matches_brand : Product → Bool
  matches_brand p = elim q.brand_slugs [
    | [] ↦ true
    | _ ∷ _ ↦ elim (brand_of p) [ none ↦ false | some b ↦ mem_text b.slug q.brand_slugs ]
  ]

  abbrev pub matches_tags : Product → Bool
  matches_tags p = elim q.tags [ [] ↦ true | _ ∷ _ ↦ any (λ t. mem_text t p.tags) q.tags ]

  abbrev pub matches_price : ProductVariant → Bool
  matches_price v =
      elim q.min_price [ none ↦ true | some low ↦ leb_ℤ low (pos v.price_minor_units) ]
      && elim q.max_price [ none ↦ true | some high ↦ leb_ℤ (pos v.price_minor_units) high ]

  unfoldable pub is_match : Product → ProductVariant → Bool
  is_match p v =
      v.product_id == p.id
      && (p.is_published && is_none p.deleted_at)
      && matches_search p v
      && matches_category p
      && matches_brand p
      && matches_tags p
      && matches_price v
      && v.is_active

  -- The rows of `_base_statement`, before the DISTINCT: the join of the two tables.
  abbrev pub rows_of_product : Product → List (Product × ProductVariant)
  rows_of_product p = map (λ v. (p, v)) (select (is_match p) db.variants)

  rows_from : List Product → List (Product × ProductVariant)
  rows_from [] = []
  rows_from (p ∷ ps) = rows_of_product p ++ rows_from ps

  unfoldable pub base_rows : List (Product × ProductVariant)
  unfolding rows_from
  base_rows = rows_from db.products

  -- The products of the rows, each once: ids are unique in the table.
  unfoldable pub base_products : List Product
  base_products = select (λ p. any (is_match p) db.variants) db.products

-- Where a product stands in time.
pub record Position : Type 0 where
  pub created_at : ℕ
  pub id : ℕ

abbrev pub position_of : Product → Position
position_of p = record { created_at = p.created_at; id = p.id }

-- The keyset predicate of `search`.
abbrev pub is_after : Position → Product → Bool
is_after m p = ltb p.created_at m.created_at || (p.created_at == m.created_at && ltb p.id m.id)

-- The payload of a cursor: its time is the text of one.
pub record Marker : Type 0 where
  pub created_at : String
  pub id : ℕ

abbrev pub marker_of : Times → Product → Marker
marker_of d p = record { created_at = d.isoformat p.created_at; id = p.id }

-- `_SORTS.get(sort, _SORTS["relevance"])`: whether a product stands before another.
abbrev pub precedes : String → Product → Product → Bool
precedes sort p x =
    if str_eq sort "rating"
    then ltb x.rating_average p.rating_average
      || (x.rating_average == p.rating_average && ltb x.id p.id)
    else is_after (position_of p) x

-- ORDER BY, as an insertion sort; ids are unique, so no two products tie.
unfoldable pub insert_product : String → Product → List Product → List Product
insert_product sort p [] = p ∷ []
insert_product sort p (x ∷ xs) =
    if precedes sort p x then p ∷ x ∷ xs else x ∷ insert_product sort p xs

unfoldable pub sort_products : String → List Product → List Product
sort_products sort [] = []
sort_products sort (p ∷ ps) = insert_product sort p (sort_products sort ps)

abbrev pub last_of : List Product → Option Product
last_of [] = none
last_of (p ∷ []) = some p
last_of (p ∷ x ∷ ps) = last_of (x ∷ ps)

module _ (b : Base64) (j : JsonCodec Marker) (d : Times) where
  -- The WHERE clause that a cursor adds; an empty cursor counts as none. The text of the time goes to
  -- the driver as it is.
  abbrev pub after_cursor : Option (List ℕ) → List Product → Result (List Product)
  after_cursor none ps = ok ps
  after_cursor (some []) ps = ok ps
  after_cursor (some (c ∷ cs)) ps = decode_cursor b j (c ∷ cs) >>= λ marker.
      bound_time d marker.created_at >>= λ t.
      ok (select (is_after (record { created_at = t; id = marker.id })) ps)

  -- The page that the LIMIT and the rest of `search` cut from the statement's rows.
  unfoldable pub page_of : ℕ → List Product → Page Product
  page_of limit found =
      let rows = take (limit + 1) found in
      let items = take limit rows in
      record {
        items = items;
        next_cursor =
            if ltb limit (length rows)
            then elim (last_of items) [
              | none ↦ none
              | some p ↦ some (encode_cursor b j (marker_of d p))
            ]
            else none;
      }

  module _ (ts : TextSearch) (db : Database) where
    -- The statement of `search` without its LIMIT.
    unfoldable pub listing : ProductQuery → Result (List Product)
    listing q = after_cursor q.cursor (base_products ts db q) >>= λ ps. ok (sort_products q.sort ps)

    -- `search`
    unfoldable pub search_products : ProductQuery → Result (Page Product)
    unfolding page_of
    search_products q = listing q >>= λ found. ok (page_of q.limit found)

-- `count`, of distinct ids.
unfoldable pub count : TextSearch → Database → ProductQuery → ℕ
count ts db q = length (base_products ts db q)
