-- ===== src/Migrations/Initial/Goods.antt =====
-- backend/app/db/migrations/versions/0001_initial_schema.py: the tables of the catalogue.
use nordmarkt.Common.{[], ◌∷◌, none, some}
use nordmarkt.Migrations.Statements.{
  Table, uuid, jsonb, tsvector, timestamptz, text, integer, boolean, varchar, numeric,
  varchar_array, primary_key, not_null, unique, index, server_default, foreign_key, computed,
  at_least_zero, null_or_at_least, column, unique_constraint, check_constraint,
}
use nordmarkt.Migrations.Initial.Timestamps.{timestamps}

-- The table categories.
abbrev pub categories_table : Table
categories_table = record {
  name = "categories";
  items =
      column "id" uuid (primary_key ∷ [])
      ∷ column "slug" (varchar 160) (not_null ∷ unique ∷ index ∷ [])
      ∷ column "name" jsonb (not_null ∷ [])
      ∷ column "parent_id" uuid (foreign_key "categories" "id" (some "SET NULL") ∷ [])
      ∷ column "path" (varchar 512) (not_null ∷ index ∷ [])
      ∷ column "depth" integer (not_null ∷ server_default "0" ∷ [])
      ∷ column "position" integer (not_null ∷ server_default "0" ∷ [])
      ∷ timestamps;
}

-- The table brands.
abbrev pub brands_table : Table
brands_table = record {
  name = "brands";
  items =
      column "id" uuid (primary_key ∷ [])
      ∷ column "slug" (varchar 160) (not_null ∷ unique ∷ index ∷ [])
      ∷ column "name" (varchar 160) (not_null ∷ [])
      ∷ column "country_code" (varchar 2) []
      ∷ column "logo_url" text []
      ∷ timestamps;
}

-- The table products.
abbrev pub products_table : Table
products_table = record {
  name = "products";
  items =
      column "id" uuid (primary_key ∷ [])
      ∷ column "slug" (varchar 160) (not_null ∷ unique ∷ index ∷ [])
      ∷ column "title" jsonb (not_null ∷ [])
      ∷ column "description" jsonb (not_null ∷ [])
      ∷ column "highlights" jsonb (not_null ∷ server_default "{}" ∷ [])
      ∷ column "category_id" uuid (foreign_key "categories" "id" none ∷ not_null ∷ index ∷ [])
      ∷ column "brand_id" uuid (foreign_key "brands" "id" none ∷ [])
      ∷ column "is_published" boolean (not_null ∷ server_default "false" ∷ index ∷ [])
      ∷ column "rating_average" (numeric 3 2) (not_null ∷ server_default "0" ∷ [])
      ∷ column "rating_count" integer (not_null ∷ server_default "0" ∷ [])
      ∷ column "tags" (varchar_array 48) (not_null ∷ server_default "{}" ∷ [])
      ∷ column "search_vector" tsvector (
          computed
            "to_tsvector('swedish', coalesce(title->>'sv','') || ' ' || coalesce(title->>'en','') || ' ' || coalesce(description->>'sv',''))"
          ∷ [])
      ∷ column "deleted_at" timestamptz []
      ∷ timestamps;
}

-- The table product_variants.
abbrev pub product_variants_table : Table
product_variants_table = record {
  name = "product_variants";
  items =
      column "id" uuid (primary_key ∷ [])
      ∷ column "product_id" uuid
          (foreign_key "products" "id" (some "CASCADE") ∷ not_null ∷ index ∷ [])
      ∷ column "sku" (varchar 64) (not_null ∷ [])
      ∷ column "options" jsonb (not_null ∷ server_default "{}" ∷ [])
      ∷ column "price_minor_units" integer (not_null ∷ [])
      ∷ column "compare_at_minor_units" integer []
      ∷ column "currency" (varchar 3) (not_null ∷ server_default "SEK" ∷ [])
      ∷ column "vat_rate" (numeric 4 3) (not_null ∷ server_default "0.250" ∷ [])
      ∷ column "weight_grams" integer []
      ∷ column "is_active" boolean (not_null ∷ server_default "true" ∷ [])
      ∷ unique_constraint ("sku" ∷ []) "uq_product_variants_sku"
      ∷ check_constraint (at_least_zero "price_minor_units")
          "ck_product_variants_price_non_negative"
      ∷ check_constraint (null_or_at_least "compare_at_minor_units" "price_minor_units")
          "ck_product_variants_compare_at_above_price"
      ∷ timestamps;
}

-- The table product_images.
abbrev pub product_images_table : Table
product_images_table = record {
  name = "product_images";
  items =
      column "id" uuid (primary_key ∷ [])
      ∷ column "product_id" uuid
          (foreign_key "products" "id" (some "CASCADE") ∷ not_null ∷ index ∷ [])
      ∷ column "url" text (not_null ∷ [])
      ∷ column "alt_text" jsonb (not_null ∷ server_default "{}" ∷ [])
      ∷ column "position" integer (not_null ∷ server_default "0" ∷ [])
      ∷ column "width" integer []
      ∷ column "height" integer []
      ∷ [];
}
