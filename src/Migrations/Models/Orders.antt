-- ===== src/Migrations/Models/Orders.antt =====
-- backend/app/modules/orders/models.py: the tables of orders, as `Base.metadata` has them.
use nordmarkt.Common.{[], ◌∷◌, none, some, List}
use nordmarkt.Migrations.Statements.{
  Index, plain_index, Table, uuid, jsonb, timestamptz, text, integer, varchar, numeric, enum,
  not_null, unique, index, foreign_key, at_least_zero, column, check_constraint,
}
use nordmarkt.Migrations.Models.Mixins.{primary_key_id, timestamped}

-- `Order`
abbrev pub order_model : Table
order_model = record {
  name = "orders";
  items =
      primary_key_id
      ∷ column "order_number" (varchar 24) (not_null ∷ unique ∷ index ∷ [])
      ∷ column "customer_id" uuid (foreign_key "users" "id" none ∷ not_null ∷ index ∷ [])
      ∷ column "status" (enum "order_status") (not_null ∷ index ∷ [])
      ∷ column "currency" (varchar 3) (not_null ∷ [])
      ∷ column "locale" (varchar 5) (not_null ∷ [])
      ∷ column "subtotal_minor_units" integer (not_null ∷ [])
      ∷ column "vat_minor_units" integer (not_null ∷ [])
      ∷ column "shipping_minor_units" integer (not_null ∷ [])
      ∷ column "discount_minor_units" integer (not_null ∷ [])
      ∷ column "total_minor_units" integer (not_null ∷ [])
      ∷ column "shipping_address" jsonb (not_null ∷ [])
      ∷ column "billing_address" jsonb (not_null ∷ [])
      ∷ column "shipping_method" (varchar 32) (not_null ∷ [])
      ∷ column "placed_at" timestamptz []
      ∷ column "paid_at" timestamptz []
      ∷ column "cancelled_at" timestamptz []
      ∷ column "cancellation_reason" text []
      ∷ check_constraint (at_least_zero "total_minor_units") "total_non_negative"
      ∷ timestamped;
}

-- `OrderItem`
abbrev pub order_item_model : Table
order_item_model = record {
  name = "order_items";
  items =
      primary_key_id
      ∷ column "order_id" uuid (foreign_key "orders" "id" (some "CASCADE") ∷ not_null ∷ [])
      ∷ column "variant_id" uuid (foreign_key "product_variants" "id" none ∷ not_null ∷ [])
      ∷ column "sku" (varchar 64) (not_null ∷ [])
      ∷ column "title_snapshot" jsonb (not_null ∷ [])
      ∷ column "options_snapshot" jsonb (not_null ∷ [])
      ∷ column "image_url" text []
      ∷ column "quantity" integer (not_null ∷ [])
      ∷ column "unit_price_minor_units" integer (not_null ∷ [])
      ∷ column "vat_rate" (numeric 4 3) (not_null ∷ [])
      ∷ column "line_total_minor_units" integer (not_null ∷ [])
      ∷ [];
}

-- The `Index` of `Order.__table_args__`.
abbrev pub order_indexes : List Index
order_indexes =
    plain_index "ix_orders_customer_created" "orders" ("customer_id" ∷ "created_at" ∷ []) ∷ []
