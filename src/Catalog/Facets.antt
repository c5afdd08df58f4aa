-- ===== src/Catalog/Facets.antt =====
-- backend/app/modules/catalog/repository.py: the figures for the filter panel, `price_bounds` and
-- `brand_facets` of `ProductRepository`.
pub mod Counts
use nordmarkt.Common.{
  ℕ, Bool, false, Option, none, some, List, [], ◌∷◌, String, min, max, ltb, ◌==◌, if◌then◌else◌,
  select, map, length,
}
use nordmarkt.Common.Int.{pos}
use nordmarkt.Shared.Database.{Database}
use nordmarkt.Catalog.Models.{Brand, Product}
use nordmarkt.Catalog.Search.{TextSearch, ProductQuery, make_query, base_rows, base_products}

-- The aggregates MIN and MAX, which are NULL on no rows.
least : List ℕ → Option ℕ
least [] = none
least (n ∷ ns) = elim (least ns) [ none ↦ some n | some m ↦ some (min n m) ]

greatest : List ℕ → Option ℕ
greatest [] = none
greatest (n ∷ ns) = elim (greatest ns) [ none ↦ some n | some m ↦ some (max n m) ]

-- `x or 0`
abbrev pub or_zero : Option ℕ → ℕ
or_zero none = 0
or_zero (some n) = n

unfoldable pub price_bounds : TextSearch → Database → ProductQuery → ℕ × ℕ
unfolding least greatest
price_bounds ts db q =
    let prices = map (λ row. row.1.price_minor_units) (base_rows ts db q) in
    (or_zero (least prices), or_zero (greatest prices))

-- The query without its brands.
unfoldable pub without_brands : TextSearch → ProductQuery → ProductQuery
without_brands ts q =
    make_query ts
      (record q { brand_slugs = []; in_stock_only = false; sort = "relevance"; cursor = none })
      (pos 24)

pub record BrandFacet : Type 0 where
  pub slug : String
  pub name : String
  pub count : ℕ

abbrev pub is_of_brand : Brand → Product → Bool
is_of_brand b p = elim p.brand_id [ none ↦ false | some id ↦ id == b.id ]

-- One group of the statement; a brand without products has no row to be grouped.
abbrev pub facet_of : List Product → Brand → List BrandFacet → List BrandFacet
facet_of products b facets =
    let n = length (select (is_of_brand b) products) in
    if n == 0 then facets else record { slug = b.slug; name = b.name; count = n } ∷ facets

unfoldable pub facets_of : List Product → List Brand → List BrandFacet
facets_of products [] = []
facets_of products (b ∷ brands) = facet_of products b (facets_of products brands)

-- ORDER BY count DESC; the statement leaves the order of ties open.
unfoldable pub insert_facet : BrandFacet → List BrandFacet → List BrandFacet
insert_facet f [] = f ∷ []
insert_facet f (x ∷ xs) = if ltb f.count x.count then x ∷ insert_facet f xs else f ∷ x ∷ xs

unfoldable pub sort_facets : List BrandFacet → List BrandFacet
unfolding insert_facet
sort_facets [] = []
sort_facets (f ∷ fs) = insert_facet f (sort_facets fs)

-- `brand_facets`: slugs are unique in the table of brands, so a group is a brand.
unfoldable pub brand_facets : TextSearch → Database → ProductQuery → List BrandFacet
unfolding facets_of sort_facets
brand_facets ts db q = sort_facets (facets_of (base_products ts db (without_brands ts q)) db.brands)
