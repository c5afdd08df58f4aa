-- ===== src/Tests/Catalogue.antt =====
-- A catalogue of two products, a brand and two categories; prices and baskets as they are shown.
use nordmarkt.Common.{
  ℕ, ◌≤◌, ◌≡◌, refl, Perm, false, none, some, List, [], ◌∷◌, arith, ltb, str_eq, eq_iff,
  if◌then◌else◌, All, any, length, true, ◌==◌, ◌||◌, str_eq, inl, inr,
}
use nordmarkt.Common.Int.{pos}
use nordmarkt.Common.Texts.{starts_with, split, join, codes, rstrip}
use nordmarkt.Shared.Slugs.{UnicodeTexts, slugify}
use nordmarkt.Shared.Slugs.Shape.{is_slug, slugify_lem}
use nordmarkt.Core.Errors.{ok}
use nordmarkt.Core.Decimal.{fix, fix_digits, excess}
use nordmarkt.Core.Money.{Money, exponents, to_decimal}
use nordmarkt.Shared.Database.{Database}
use nordmarkt.Catalog.Models.{Brand, Product, ProductVariant}
use nordmarkt.Catalog.Search.{
  search_products, TextSearch, ProductQuery, base_products, is_match, count,
}
use nordmarkt.Catalog.Search.Order.{Descending}
use nordmarkt.Catalog.Search.Pages.{Shown, search_products-pages}
use nordmarkt.Catalog.Facets.{brand_facets}
use nordmarkt.Catalog.Facets.Counts.{of_brand, brand_facets-count}
use nordmarkt.Catalog.Categories.{tree}
use nordmarkt.Catalog.Prices.{format_money}
use nordmarkt.Catalog.Prices.Digits.{read_digits, format_money-digits}
use nordmarkt.Api.Catalog.Forest.{category_tree, parent_path}
use nordmarkt.Api.Catalog.Forest.Places.{occurs}
use nordmarkt.Api.Catalog.Forest.Shape.{IsTree, fields_at, category_tree-once}
use nordmarkt.Tests.Data.{shop, house, lighting, lamp, lamp_white}
use nordmarkt.Tests.Encoding.{base64, base64_laws}
use nordmarkt.Tests.Payloads.{marker_json, marker_laws}
use nordmarkt.Tests.Tokens.{put_nat}
use nordmarkt.Core.Pagination.{Times, AsyncpgLaws}

abbrev texts : TextSearch
texts = record {
  strip = λ t. t;
  matches = λ t p. str_eq t p.slug;
  sku_ilike = λ t sku. starts_with sku t;
}

abbrev nordljus : Brand
nordljus = record {
  id = 4;
  slug = "nordljus";
  name = "Nordljus";
  country_code = none;
  logo_url = none;
}

abbrev lantern : Product
lantern = record lamp { id = 8; slug = "lantern"; brand_id = some 4; created_at = 401 }

abbrev lantern_black : ProductVariant
lantern_black = record lamp_white { id = 9; product_id = 8; sku = "LANT-B" }

abbrev store : Database
store = record shop {
  brands = nordljus ∷ [];
  products = lamp ∷ lantern ∷ [];
  variants = lamp_white ∷ lantern_black ∷ [];
}

abbrev first_page : ProductQuery
first_page = record {
  search = none;
  category_path = some "home";
  brand_slugs = [];
  tags = [];
  min_price = none;
  max_price = none;
  in_stock_only = false;
  sort = "newest";
  limit = 1;
  cursor = none;
}

abbrev times : Times
times = record { isoformat = λ t. put_nat t ""; bind_time = λ _. none }

times_laws : AsyncpgLaws times
times_laws = record { refused = λ _. refl }

search_products-pages_example :
    (found : List Product) × Perm (base_products texts store first_page) found
    × Descending found
    × Shown (search_products base64 marker_json times texts store) first_page found
unfolding base_products is_match
search_products-pages_example =
    search_products-pages base64 marker_json times texts store first_page base64_laws marker_laws
      times_laws (((λ e. ground (arith, e)), tt), (tt, tt))
      (λ e. ground (arith, e, eq_iff "newest" "rating")) (omega arith) refl

brand_facets-count_example :
    All
      (λ f. (1 ≤ f.count) × (f.count ≡ count texts store (of_brand texts first_page f.slug)))
      (brand_facets texts store first_page)
    × All
        (λ b.
          (count texts store (of_brand texts first_page b.slug) == 0
            || any (λ f. str_eq f.slug b.slug) (brand_facets texts store first_page))
          ≡ true)
        (nordljus ∷ [])
brand_facets-count_example = brand_facets-count texts store first_page (tt, tt)

abbrev price : Money
price = record { minor_units = pos 129900; currency = "SEK" }

format_money-digits_example :
    (text : List ℕ) × (format_money price "sv" ≡ ok text) × (read_digits 0 text ≡ 129900)
unfolding exponents
format_money-digits_example = format_money-digits price 2 "sv" refl (omega arith)

in_swedish :
    format_money price "sv"
    ≡ ok (b'1' ∷ 160 ∷ b'2' ∷ b'9' ∷ b'9' ∷ b',' ∷ b'0' ∷ b'0' ∷ 160 ∷ b'k' ∷ b'r' ∷ [])
unfolding format_money to_decimal exponents fix fix_digits excess
in_swedish = refl

category_tree-once_example :
    Perm (lighting ∷ house ∷ []) (tree (λ s t. false) (lighting ∷ house ∷ []))
    × ((k : ℕ)
        → occurs k (category_tree (λ s t. false) "sv" (lighting ∷ house ∷ []))
          ≡ (if ltb k 2 then 1 else 0))
    × IsTree
        (fields_at "sv" (tree (λ s t. false) (lighting ∷ house ∷ [])))
        (category_tree (λ s t. false) "sv" (lighting ∷ house ∷ []))
unfolding parent_path split join
category_tree-once_example =
    category_tree-once (λ s t. false) "sv" (lighting ∷ house ∷ [])
      (inr (λ e. ground (arith, e, eq_iff "home" "home.lighting")), (inl refl, tt))

-- Texts that are stripped, in lower case and decomposed already.
abbrev plain : UnicodeTexts
plain = record { strip = λ t. t; lower = λ t. t; nfkd = λ t. t }

slugify_lem_example :
    (is_slug (slugify plain (codes "fåtölj, röd!") 10) ≡ true)
    × (length (slugify plain (codes "fåtölj, röd!") 10) ≤ 10)
slugify_lem_example = slugify_lem plain (codes "fåtölj, röd!") 10

armchair : slugify plain (codes "fåtölj, röd!") 10 ≡ codes "fatolj-rod"
unfolding slugify rstrip
armchair = refl
