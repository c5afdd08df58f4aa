-- ===== src/Migrations/Initial/Orders.antt =====
-- backend/app/db/migrations/versions/0001_initial_schema.py: the tables of orders and payments.
use nordmarkt.Common.{[], ◌∷◌, none, some}
use nordmarkt.Migrations.Statements.{
  Table, uuid, jsonb, timestamptz, text, integer, varchar, numeric, enum, primary_key, not_null,
  unique, index, server_default, foreign_key, at_least_zero, column, unique_constraint,
  check_constraint,
}
use nordmarkt.Migrations.Initial.Timestamps.{timestamps}

-- The table orders.
abbrev pub orders_table : Table
orders_table = record {
  name = "orders";
  items =
      column "id" uuid (primary_key ∷ [])
      ∷ column "order_number" (varchar 24) (not_null ∷ unique ∷ index ∷ [])
      ∷ column "customer_id" uuid (foreign_key "users" "id" none ∷ not_null ∷ index ∷ [])
      ∷ column "status" (enum "order_status")
          (not_null ∷ server_default "pending_payment" ∷ index ∷ [])
      ∷ column "currency" (varchar 3) (not_null ∷ server_default "SEK" ∷ [])
      ∷ column "locale" (varchar 5) (not_null ∷ server_default "sv" ∷ [])
      ∷ column "subtotal_minor_units" integer (not_null ∷ [])
      ∷ column "vat_minor_units" integer (not_null ∷ [])
      ∷ column "shipping_minor_units" integer (not_null ∷ server_default "0" ∷ [])
      ∷ column "discount_minor_units" integer (not_null ∷ server_default "0" ∷ [])
      ∷ column "total_minor_units" integer (not_null ∷ [])
      ∷ column "shipping_address" jsonb (not_null ∷ [])
      ∷ column "billing_address" jsonb (not_null ∷ [])
      ∷ column "shipping_method" (varchar 32) (not_null ∷ server_default "standard" ∷ [])
      ∷ column "placed_at" timestamptz []
      ∷ column "paid_at" timestamptz []
      ∷ column "cancelled_at" timestamptz []
      ∷ column "cancellation_reason" text []
      ∷ check_constraint (at_least_zero "total_minor_units") "ck_orders_total_non_negative"
      ∷ timestamps;
}

-- The table order_items.
abbrev pub order_items_table : Table
order_items_table = record {
  name = "order_items";
  items =
      column "id" uuid (primary_key ∷ [])
      ∷ column "order_id" uuid (foreign_key "orders" "id" (some "CASCADE") ∷ not_null ∷ [])
      ∷ column "variant_id" uuid (foreign_key "product_variants" "id" none ∷ not_null ∷ [])
      ∷ column "sku" (varchar 64) (not_null ∷ [])
      ∷ column "title_snapshot" jsonb (not_null ∷ [])
      ∷ column "options_snapshot" jsonb (not_null ∷ server_default "{}" ∷ [])
      ∷ column "image_url" text []
      ∷ column "quantity" integer (not_null ∷ [])
      ∷ column "unit_price_minor_units" integer (not_null ∷ [])
      ∷ column "vat_rate" (numeric 4 3) (not_null ∷ [])
      ∷ column "line_total_minor_units" integer (not_null ∷ [])
      ∷ [];
}

-- The table payments.
abbrev pub payments_table : Table
payments_table = record {
  name = "payments";
  items =
      column "id" uuid (primary_key ∷ [])
      ∷ column "order_id" uuid (foreign_key "orders" "id" none ∷ not_null ∷ index ∷ [])
      ∷ column "provider" (varchar 32) (not_null ∷ server_default "swish_sandbox" ∷ [])
      ∷ column "provider_reference" (varchar 96) (not_null ∷ [])
      ∷ column "status" (enum "payment_status") (not_null ∷ server_default "initiated" ∷ [])
      ∷ column "amount_minor_units" integer (not_null ∷ [])
      ∷ column "currency" (varchar 3) (not_null ∷ server_default "SEK" ∷ [])
      ∷ column "failure_reason" text []
      ∷ column "captured_at" timestamptz []
      ∷ column "raw_response" jsonb (not_null ∷ server_default "{}" ∷ [])
      ∷ unique_constraint ("provider_reference" ∷ []) "uq_payments_provider_ref"
      ∷ timestamps;
}
