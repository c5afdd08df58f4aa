-- ===== src/Api/Catalog.antt =====
-- backend/app/api/routers/catalog.py: the listing, the product page and the breadcrumb. The tree of
-- categories is in the child `Forest`.
pub mod Forest
use nordmarkt.Common.{ℕ, Option, none, some, List, [], ◌∷◌, String, map}
use nordmarkt.Common.Int.{ℤ, pos}
use nordmarkt.Core.Errors.{Result, ok, err, domain, DomainError, ◌>>=◌, traverse}
use nordmarkt.Core.Pagination.{Base64, JsonCodec, Times}
use nordmarkt.Shared.Database.{Database}
use nordmarkt.Shared.Localization.{resolve_translation}
use nordmarkt.Inventory.{sellable_map}
use nordmarkt.Catalog.Models.{Category}
use nordmarkt.Catalog.Search.{TextSearch, ProductQuery, Marker, make_query, search_products, count}
use nordmarkt.Catalog.Facets.{BrandFacet, brand_facets, price_bounds}
use nordmarkt.Catalog.Categories.{get_by_slug, breadcrumb}
use nordmarkt.Catalog.Prices.{money_out}
use nordmarkt.Catalog.Schemas.{
  ProductListOut, ProductDetailOut, BreadcrumbOut, BrandFacetOut, to_summary, to_detail,
  variants_of,
}

abbrev pub brand_facet_out : BrandFacet → BrandFacetOut
brand_facet_out f = record { slug = f.slug; name = f.name; count = f.count }

-- `list_products`, from its parameters.
unfoldable pub list_products :
    Base64
    → JsonCodec Marker
    → Times
    → TextSearch
    → Database
    → String
    → ProductQuery
    → ℤ
    → Result ProductListOut
list_products b j d ts db locale parameters limit = do
  let query = make_query ts parameters limit
  page ← search_products b j d ts db query
  let total = count ts db query
  let facet_rows = brand_facets ts db query
  let bounds = price_bounds ts db query
  summaries ← traverse (λ p. to_summary db p locale) page.items
  price_min ← money_out (pos bounds.0) "SEK" locale
  price_max ← money_out (pos bounds.1) "SEK" locale
  ok (record {
    items = summaries;
    facets = record {
      brands = map brand_facet_out facet_rows;
      price_min = price_min;
      price_max = price_max;
    };
    next_cursor = page.next_cursor;
    total = total;
    locale = locale;
  })

-- `get_product`
unfoldable pub get_product : Database → String → String → Result ProductDetailOut
get_product db locale slug = elim (get_by_slug slug db.products) [
  | none ↦ err (domain DomainError.not_found)
  | some product ↦
      to_detail db product locale
        (sellable_map (map (λ v. v.id) (variants_of product db.variants)) db.stock_items)
]

abbrev pub breadcrumb_out : String → Category → BreadcrumbOut
breadcrumb_out locale r = record {
  slug = r.slug;
  path = r.path;
  name = resolve_translation (some r.name) locale;
}

-- `breadcrumb`
unfoldable pub show_breadcrumb : Database → String → String → Result (List BreadcrumbOut)
show_breadcrumb db locale path = elim (breadcrumb path db.categories) [
  | [] ↦ err (domain DomainError.not_found)
  | r ∷ rows ↦ ok (map (breadcrumb_out locale) (r ∷ rows))
]
