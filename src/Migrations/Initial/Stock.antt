-- ===== src/Migrations/Initial/Stock.antt =====
-- backend/app/db/migrations/versions/0001_initial_schema.py: the tables of the inventory.
use nordmarkt.Common.{[], ◌∷◌, none, some}
use nordmarkt.Migrations.Statements.{
  Table, uuid, timestamptz, integer, varchar, primary_key, not_null, index, server_default,
  foreign_key, at_least_zero, at_most, column, check_constraint,
}
use nordmarkt.Migrations.Initial.Timestamps.{timestamps}

-- The table stock_items.
abbrev pub stock_items_table : Table
stock_items_table = record {
  name = "stock_items";
  items =
      column "id" uuid (primary_key ∷ [])
      ∷ column "variant_id" uuid
          (foreign_key "product_variants" "id" (some "CASCADE") ∷ not_null ∷ index ∷ [])
      ∷ column "warehouse_code" (varchar 16) (not_null ∷ server_default "SE-STO" ∷ [])
      ∷ column "on_hand" integer (not_null ∷ server_default "0" ∷ [])
      ∷ column "reserved" integer (not_null ∷ server_default "0" ∷ [])
      ∷ column "low_stock_threshold" integer (not_null ∷ server_default "5" ∷ [])
      ∷ check_constraint (at_least_zero "on_hand") "ck_stock_items_on_hand_non_negative"
      ∷ check_constraint (at_least_zero "reserved") "ck_stock_items_reserved_non_negative"
      ∷ check_constraint (at_most "reserved" "on_hand") "ck_stock_items_reserved_within_on_hand"
      ∷ timestamps;
}

-- The table stock_reservations.
abbrev pub stock_reservations_table : Table
stock_reservations_table = record {
  name = "stock_reservations";
  items =
      column "id" uuid (primary_key ∷ [])
      ∷ column "variant_id" uuid (foreign_key "product_variants" "id" none ∷ not_null ∷ index ∷ [])
      ∷ column "order_id" uuid (index ∷ [])
      ∷ column "cart_id" uuid (index ∷ [])
      ∷ column "quantity" integer (not_null ∷ [])
      ∷ column "expires_at" timestamptz (not_null ∷ [])
      ∷ column "released_at" timestamptz []
      ∷ column "committed_at" timestamptz []
      ∷ timestamps;
}
