-- ===== src/Migrations/Models/Goods.antt =====
-- backend/app/modules/catalog/models.py: the tables of the catalogue, as `Base.metadata` has them.
use nordmarkt.Common.{[], ◌∷◌, none, some, List}
use nordmarkt.Migrations.Statements.{
  Index, plain_index, Table, uuid, jsonb, tsvector, text, integer, boolean, varchar, numeric,
  varchar_array, not_null, index, server_default, foreign_key, computed, at_least_zero,
  null_or_at_least, column, unique_constraint, check_constraint,
}
use nordmarkt.Migrations.Models.Mixins.{primary_key_id, sluggable, soft_delete, timestamped}

-- `Category`
abbrev pub category_model : Table
category_model = record {
  name = "categories";
  items =
      primary_key_id
      ∷ column "name" jsonb (not_null ∷ [])
      ∷ column "parent_id" uuid (foreign_key "categories" "id" (some "SET NULL") ∷ [])
      ∷ column "path" (varchar 512) (not_null ∷ index ∷ [])
      ∷ column "depth" integer (not_null ∷ [])
      ∷ column "position" integer (not_null ∷ [])
      ∷ sluggable
      ∷ timestamped;
}

-- `Brand`
abbrev pub brand_model : Table
brand_model = record {
  name = "brands";
  items =
      primary_key_id
      ∷ column "name" (varchar 160) (not_null ∷ [])
      ∷ column "country_code" (varchar 2) []
      ∷ column "logo_url" text []
      ∷ sluggable
      ∷ timestamped;
}

-- `Product`
abbrev pub product_model : Table
product_model = record {
  name = "products";
  items =
      primary_key_id
      ∷ column "title" jsonb (not_null ∷ [])
      ∷ column "description" jsonb (not_null ∷ [])
      ∷ column "highlights" jsonb (not_null ∷ [])
      ∷ column "category_id" uuid (foreign_key "categories" "id" none ∷ not_null ∷ index ∷ [])
      ∷ column "brand_id" uuid (foreign_key "brands" "id" none ∷ [])
      ∷ column "is_published" boolean (not_null ∷ index ∷ [])
      ∷ column "rating_average" (numeric 3 2) (not_null ∷ [])
      ∷ column "rating_count" integer (not_null ∷ [])
      ∷ column "tags" (varchar_array 48) (not_null ∷ [])
      ∷ column "search_vector" tsvector (
          computed
            "to_tsvector('swedish', coalesce(title->>'sv','') || ' ' || coalesce(title->>'en','') || ' ' || coalesce(description->>'sv',''))"
          ∷ [])
      ∷ soft_delete
      ∷ sluggable
      ∷ timestamped;
}

-- `ProductVariant`
abbrev pub product_variant_model : Table
product_variant_model = record {
  name = "product_variants";
  items =
      primary_key_id
      ∷ column "product_id" uuid
          (foreign_key "products" "id" (some "CASCADE") ∷ not_null ∷ index ∷ [])
      ∷ column "sku" (varchar 64) (not_null ∷ [])
      ∷ column "options" jsonb (not_null ∷ [])
      ∷ column "price_minor_units" integer (not_null ∷ [])
      ∷ column "compare_at_minor_units" integer []
      ∷ column "currency" (varchar 3) (not_null ∷ [])
      ∷ column "vat_rate" (numeric 4 3) (not_null ∷ [])
      ∷ column "weight_grams" integer []
      ∷ column "is_active" boolean (not_null ∷ server_default "true" ∷ [])
      ∷ unique_constraint ("sku" ∷ []) "uq_product_variants_sku"
      ∷ check_constraint (at_least_zero "price_minor_units") "price_non_negative"
      ∷ check_constraint (null_or_at_least "compare_at_minor_units" "price_minor_units")
          "compare_at_above_price"
      ∷ timestamped;
}

-- `ProductImage`
abbrev pub product_image_model : Table
product_image_model = record {
  name = "product_images";
  items =
      primary_key_id
      ∷ column "product_id" uuid
          (foreign_key "products" "id" (some "CASCADE") ∷ not_null ∷ index ∷ [])
      ∷ column "url" text (not_null ∷ [])
      ∷ column "alt_text" jsonb (not_null ∷ [])
      ∷ column "position" integer (not_null ∷ [])
      ∷ column "width" integer []
      ∷ column "height" integer []
      ∷ [];
}

-- The indexes of `Product.__table_args__`.
abbrev pub product_indexes : List Index
product_indexes =
    record (plain_index "ix_products_search" "products" ("search_vector" ∷ [])) { method = "gin" }
    ∷ plain_index "ix_products_category_published" "products" ("category_id" ∷ "is_published" ∷ [])
    ∷ []
