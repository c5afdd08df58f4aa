-- ===== src/Migrations/Models/Stock.antt =====
-- backend/app/modules/inventory/models.py: the tables of the inventory, as `Base.metadata` has them.
use nordmarkt.Common.{[], ◌∷◌, none, some, List, true}
use nordmarkt.Migrations.Statements.{
  Index, plain_index, Table, uuid, timestamptz, integer, varchar, not_null, index, foreign_key,
  at_least_zero, at_most, column, check_constraint,
}
use nordmarkt.Migrations.Models.Mixins.{primary_key_id, timestamped}

-- `StockItem`
abbrev pub stock_item_model : Table
stock_item_model = record {
  name = "stock_items";
  items =
      primary_key_id
      ∷ column "variant_id" uuid
          (foreign_key "product_variants" "id" (some "CASCADE") ∷ not_null ∷ index ∷ [])
      ∷ column "warehouse_code" (varchar 16) (not_null ∷ [])
      ∷ column "on_hand" integer (not_null ∷ [])
      ∷ column "reserved" integer (not_null ∷ [])
      ∷ column "low_stock_threshold" integer (not_null ∷ [])
      ∷ check_constraint (at_least_zero "on_hand") "on_hand_non_negative"
      ∷ check_constraint (at_least_zero "reserved") "reserved_non_negative"
      ∷ check_constraint (at_most "reserved" "on_hand") "reserved_within_on_hand"
      ∷ timestamped;
}

-- `StockReservation`
abbrev pub stock_reservation_model : Table
stock_reservation_model = record {
  name = "stock_reservations";
  items =
      primary_key_id
      ∷ column "variant_id" uuid (foreign_key "product_variants" "id" none ∷ not_null ∷ index ∷ [])
      ∷ column "order_id" uuid (index ∷ [])
      ∷ column "cart_id" uuid (index ∷ [])
      ∷ column "quantity" integer (not_null ∷ [])
      ∷ column "expires_at" timestamptz (not_null ∷ [])
      ∷ column "released_at" timestamptz []
      ∷ column "committed_at" timestamptz []
      ∷ timestamped;
}

-- The `Index` of `StockItem.__table_args__`, and that of `StockReservation.__table_args__`.
abbrev pub stock_item_indexes : List Index
stock_item_indexes =
    record (plain_index "uq_stock_variant_warehouse" "stock_items"
      ("variant_id" ∷ "warehouse_code" ∷ [])) { is_unique = true }
    ∷ []

abbrev pub stock_reservation_indexes : List Index
stock_reservation_indexes =
    plain_index "ix_reservations_expiry" "stock_reservations" ("released_at" ∷ "expires_at" ∷ [])
    ∷ []
