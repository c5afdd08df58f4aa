-- ===== src/Migrations/Search.antt =====
-- backend/app/db/migrations/versions/0002_search_indexes.py: `upgrade` and `downgrade`.
use nordmarkt.Common.{List, [], ◌∷◌, map, true, some}
use nordmarkt.Migrations.Statements.{
  Index, Statement, create_extension, create_index, drop_index, commit, plain_index,
}

abbrev title_trgm : Index
title_trgm = record (plain_index "ix_products_title_trgm" "products" ("title" ∷ "title" ∷ [])) {
  method = "gin";
  extension = some "pg_trgm";
  concurrently = true;
  if_not_exists = true;
}

abbrev products_live : Index
products_live =
    record (plain_index "ix_products_live" "products"
      ("created_at" ∷ "id" ∷ "is_published" ∷ "deleted_at" ∷ [])) {
        condition = "is_published = true AND deleted_at IS NULL";
        concurrently = true;
        if_not_exists = true;
      }

abbrev variants_product_price : Index
variants_product_price =
    record (plain_index "ix_variants_product_price" "product_variants"
      ("product_id" ∷ "price_minor_units" ∷ "sku" ∷ "currency" ∷ "is_active" ∷ [])) {
        condition = "is_active = true";
        concurrently = true;
        if_not_exists = true;
      }

unfoldable pub upgrade : List Statement
upgrade =
    commit
    ∷ create_extension "pg_trgm"
    ∷ create_index title_trgm
    ∷ create_index products_live
    ∷ create_index variants_product_price
    ∷ []

unfoldable pub downgrade : List Statement
downgrade =
    commit
    ∷ map drop_index
        ("ix_variants_product_price" ∷ "ix_products_live" ∷ "ix_products_title_trgm" ∷ [])
