-- ===== src/Catalog/Schemas.antt =====
-- backend/app/modules/catalog/schemas.py: products as the API shows them.
use nordmarkt.Common.{
  ℕ, Bool, Option, none, some, List, [], ◌∷◌, String, ◌==◌, str_eq, if◌then◌else◌, find, select,
  map,
}
use nordmarkt.Common.Int.{pos}
use nordmarkt.Core.Errors.{Result, ok, err, Exception, ◌>>=◌, traverse}
use nordmarkt.Shared.Database.{Database}
use nordmarkt.Shared.Localization.{resolve_translation, Translated}
use nordmarkt.Inventory.{get_count}
use nordmarkt.Catalog.Models.{
  Brand, Category, Product, ProductVariant, ProductImage, default_variant,
}
use nordmarkt.Catalog.Prices.{MoneyOut, money_out}

pub record ImageOut : Type 0 where
  pub url : String
  pub alt : String
  pub width : Option ℕ
  pub height : Option ℕ

pub record VariantOut : Type 0 where
  pub id : ℕ
  pub sku : String
  pub options : Translated
  pub price : MoneyOut
  pub compare_at : Option MoneyOut
  pub is_active : Bool
  pub sellable : Option ℕ

pub record ProductSummaryOut : Type 0 where
  pub id : ℕ
  pub slug : String
  pub title : String
  pub brand : Option String
  pub price_from : MoneyOut
  pub compare_at : Option MoneyOut
  pub image : Option ImageOut
  pub rating_average : ℕ
  pub rating_count : ℕ
  pub tags : List String

pub record ProductDetailOut : Type 0 where
  pub summary : ProductSummaryOut
  pub description : String
  pub highlights : List String
  pub category_path : String
  pub images : List ImageOut
  pub variants : List VariantOut

pub record BreadcrumbOut : Type 0 where
  pub slug : String
  pub path : String
  pub name : String

pub record BrandFacetOut : Type 0 where
  pub slug : String
  pub name : String
  pub count : ℕ

pub record FacetsOut : Type 0 where
  pub brands : List BrandFacetOut
  pub price_min : MoneyOut
  pub price_max : MoneyOut

-- The fields of `meta` have names here; `total` is its key of that name.
pub record ProductListOut : Type 0 where
  pub items : List ProductSummaryOut
  pub facets : FacetsOut
  pub next_cursor : Option (List ℕ)
  pub total : ℕ
  pub locale : String

-- A price that was before, unless it is missing or zero.
abbrev pub compare_at_out : Option ℕ → String → String → Result (Option MoneyOut)
compare_at_out none currency locale = ok none
compare_at_out (some n) currency locale =
    if n == 0 then ok none else (money_out (pos n) currency locale >>= λ m. ok (some m))

abbrev pub image_out : String → ProductImage → ImageOut
image_out locale i = record {
  url = i.url;
  alt = resolve_translation (some i.alt_text) locale;
  width = i.width;
  height = i.height;
}

abbrev pub first_image : String → List ProductImage → Option ImageOut
first_image locale [] = none
first_image locale (i ∷ is) = some (image_out locale i)

abbrev pub brand_name : Product → List Brand → Option String
brand_name p brands = elim p.brand_id [
  | none ↦ none
  | some id ↦ elim (find (λ b. b.id == id) brands) [ none ↦ none | some b ↦ some b.name ]
]

-- The prices of a summary, by the default variant.
abbrev pub summary_prices : Option ProductVariant → String → Result (MoneyOut × Option MoneyOut)
summary_prices none locale = money_out (pos 0) "SEK" locale >>= λ price. ok (price, none)
summary_prices (some v) locale = money_out (pos v.price_minor_units) v.currency locale >>= λ price.
    compare_at_out v.compare_at_minor_units v.currency locale >>= λ before. ok (price, before)

unfoldable pub to_summary : Database → Product → String → Result ProductSummaryOut
to_summary db product locale =
    summary_prices (default_variant product.id db.variants) locale >>= λ prices. ok (record {
      id = product.id;
      slug = product.slug;
      title = resolve_translation (some product.title) locale;
      brand = brand_name product db.brands;
      price_from = prices.0;
      compare_at = prices.1;
      image = first_image locale product.images;
      rating_average = product.rating_average;
      rating_count = product.rating_count;
      tags = product.tags;
    })

-- `highlights.get(key)`, where an empty list counts as missing.
get_highlights : String → List (String × List String) → Option (List String)
get_highlights key [] = none
get_highlights key ((k, texts) ∷ rest) =
    if str_eq k key
    then elim texts [ [] ↦ none | t ∷ ts ↦ some (t ∷ ts) ]
    else get_highlights key rest

unfoldable pub highlights_for : String → List (String × List String) → List String
unfolding get_highlights
highlights_for locale highlights = elim (get_highlights locale highlights) [
  | some texts ↦ texts
  | none ↦ elim (get_highlights "sv" highlights) [ some texts ↦ texts | none ↦ [] ]
]

abbrev pub variant_out : String → List (ℕ × ℕ) → ProductVariant → Result VariantOut
variant_out locale stock v = money_out (pos v.price_minor_units) v.currency locale >>= λ price.
    compare_at_out v.compare_at_minor_units v.currency locale >>= λ before. ok (record {
      id = v.id;
      sku = v.sku;
      options = v.options;
      price = price;
      compare_at = before;
      is_active = v.is_active;
      sellable = some (get_count v.id stock);
    })

-- `product.variants`
abbrev pub variants_of : Product → List ProductVariant → List ProductVariant
variants_of p = select λ v. v.product_id == p.id

-- `product.category.path`
abbrev pub category_path : Product → List Category → Result String
category_path p categories = elim (find (λ c. c.id == p.category_id) categories) [
  | none ↦ err Exception.attribute_error
  | some c ↦ ok c.path
]

unfoldable pub to_detail : Database → Product → String → List (ℕ × ℕ) → Result ProductDetailOut
unfolding to_summary highlights_for
to_detail db product locale stock = to_summary db product locale >>= λ summary.
    category_path product db.categories >>= λ path.
    traverse (variant_out locale stock)
      (select (λ v. v.is_active) (variants_of product db.variants))
    >>= λ variants. ok (record {
      summary = summary;
      description = resolve_translation (some product.description) locale;
      highlights = highlights_for locale product.highlights;
      category_path = path;
      images = map (image_out locale) product.images;
      variants = variants;
    })
