-- ===== src/Migrations/Models/Carts.antt =====
-- backend/app/modules/cart/models.py: the tables of carts, as `Base.metadata` has them.
use nordmarkt.Common.{[], ◌∷◌, none, some}
use nordmarkt.Migrations.Statements.{
  Table, uuid, timestamptz, integer, varchar, not_null, index, foreign_key, column,
  unique_constraint,
}
use nordmarkt.Migrations.Models.Mixins.{primary_key_id, timestamped}

-- `Cart`
abbrev pub cart_model : Table
cart_model = record {
  name = "carts";
  items =
      primary_key_id
      ∷ column "user_id" uuid (foreign_key "users" "id" (some "CASCADE") ∷ index ∷ [])
      ∷ column "anonymous_token" (varchar 64) (index ∷ [])
      ∷ column "currency" (varchar 3) (not_null ∷ [])
      ∷ column "locale" (varchar 5) (not_null ∷ [])
      ∷ column "checked_out_at" timestamptz []
      ∷ timestamped;
}

-- `CartItem`
abbrev pub cart_item_model : Table
cart_item_model = record {
  name = "cart_items";
  items =
      primary_key_id
      ∷ column "cart_id" uuid (foreign_key "carts" "id" (some "CASCADE") ∷ not_null ∷ [])
      ∷ column "variant_id" uuid (foreign_key "product_variants" "id" none ∷ not_null ∷ [])
      ∷ column "quantity" integer (not_null ∷ [])
      ∷ column "unit_price_minor_units" integer (not_null ∷ [])
      ∷ unique_constraint ("cart_id" ∷ "variant_id" ∷ []) "uq_cart_items_variant"
      ∷ timestamped;
}
