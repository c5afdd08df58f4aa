-- ===== src/Catalog/Models.antt =====
-- backend/app/modules/catalog/models.py: categories, brands, products, their variants and images.
use nordmarkt.Common.{
  ℕ, Option, none, some, String, Bool, List, [], ◌∷◌, ltb, if◌then◌else◌, select, ◌==◌,
}

-- A JSONB map of locale to text.
abbrev pub Translations : Type 0
Translations = List (String × String)

-- `path` is the materialised path, with a dot between segments.
pub record Category : Type 0 where
  pub id : ℕ
  pub slug : String
  pub name : Translations
  pub parent_id : Option ℕ
  pub path : String
  pub depth : ℕ
  pub position : ℕ

pub record Brand : Type 0 where
  pub id : ℕ
  pub slug : String
  pub name : String
  pub country_code : Option String
  pub logo_url : Option String

pub record ProductImage : Type 0 where
  pub url : String
  pub alt_text : Translations
  pub position : ℕ
  pub width : Option ℕ
  pub height : Option ℕ

-- `rating_average` is a NUMERIC(3, 2), in hundredths. `images` are the product's, by position. The
-- generated column `search_vector` is a function of the texts.
pub record Product : Type 0 where
  pub id : ℕ
  pub slug : String
  pub title : Translations
  pub description : Translations
  pub highlights : List (String × List String)
  pub category_id : ℕ
  pub brand_id : Option ℕ
  pub is_published : Bool
  pub deleted_at : Option ℕ
  pub created_at : ℕ
  pub rating_average : ℕ
  pub rating_count : ℕ
  pub tags : List String
  pub images : List ProductImage

-- `vat_rate` is a NUMERIC(4, 3), in thousandths.
pub record ProductVariant : Type 0 where
  pub id : ℕ
  pub product_id : ℕ
  pub sku : String
  pub options : Translations
  pub price_minor_units : ℕ
  pub compare_at_minor_units : Option ℕ
  pub currency : String
  pub vat_rate : ℕ
  pub weight_grams : Option ℕ
  pub is_active : Bool

-- Python's `min` with a key: the first of the least.
cheapest : ProductVariant → List ProductVariant → ProductVariant
cheapest best [] = best
cheapest best (v ∷ vs) =
    cheapest (if ltb v.price_minor_units best.price_minor_units then v else best) vs

unfoldable pub default_variant : ℕ → List ProductVariant → Option ProductVariant
unfolding cheapest
default_variant product variants =
    elim (select (λ v. v.is_active) (select (λ v. v.product_id == product) variants)) [
      | [] ↦ none
      | v ∷ vs ↦ some (cheapest v vs)
    ]
