-- ===== src/Migrations/Initial.antt =====
-- backend/app/db/migrations/versions/0001_initial_schema.py: `upgrade` and `downgrade`.
mod Timestamps
mod Goods
mod People
mod Stock
mod Orders
mod Messages
use nordmarkt.Common.{List, [], ◌∷◌, ◌++◌, map, true}
use nordmarkt.Migrations.Statements.{
  Index, Statement, create_extension, create_table, drop_table, create_index, create_enum,
  drop_enum, plain_index,
}
use Goods.{
  categories_table, brands_table, products_table, product_variants_table, product_images_table,
}
use People.{users_table, addresses_table, session_tokens_table, carts_table, cart_items_table}
use Stock.{stock_items_table, stock_reservations_table}
use Orders.{orders_table, order_items_table, payments_table}
use Messages.{processed_webhooks_table, outbox_messages_table}

abbrev products_search : Index
products_search = record (plain_index "ix_products_search" "products" ("search_vector" ∷ [])) {
  method = "gin";
}

abbrev products_category_published : Index
products_category_published =
    plain_index "ix_products_category_published" "products" ("category_id" ∷ "is_published" ∷ [])

abbrev stock_variant_warehouse : Index
stock_variant_warehouse =
    record (plain_index "uq_stock_variant_warehouse" "stock_items"
      ("variant_id" ∷ "warehouse_code" ∷ [])) { is_unique = true }

abbrev reservations_expiry : Index
reservations_expiry =
    plain_index "ix_reservations_expiry" "stock_reservations" ("released_at" ∷ "expires_at" ∷ [])

abbrev order_status : Statement
order_status = create_enum "order_status" (
    "pending_payment" ∷ "paid" ∷ "packing" ∷ "shipped" ∷ "delivered" ∷ "cancelled" ∷ "refunded"
    ∷ [])

abbrev orders_customer_created : Index
orders_customer_created =
    plain_index "ix_orders_customer_created" "orders" ("customer_id" ∷ "created_at" ∷ [])

abbrev payment_status : Statement
payment_status =
    create_enum "payment_status"
      ("initiated" ∷ "authorized" ∷ "captured" ∷ "failed" ∷ "refunded" ∷ [])

abbrev pub outbox_pending : Index
outbox_pending =
    record (plain_index "ix_outbox_pending" "outbox_messages"
      ("next_attempt_at" ∷ "created_at" ∷ "published_at" ∷ [])) {
        condition = "published_at IS NULL";
      }

unfoldable pub upgrade : List Statement
upgrade =
    create_extension "uuid-ossp"
    ∷ create_table categories_table
    ∷ create_table brands_table
    ∷ create_table products_table
    ∷ create_index products_search
    ∷ create_index products_category_published
    ∷ create_table product_variants_table
    ∷ create_table product_images_table
    ∷ create_table users_table
    ∷ create_table addresses_table
    ∷ create_table session_tokens_table
    ∷ create_table stock_items_table
    ∷ create_index stock_variant_warehouse
    ∷ create_table stock_reservations_table
    ∷ create_index reservations_expiry
    ∷ create_table carts_table
    ∷ create_table cart_items_table
    ∷ order_status
    ∷ create_table orders_table
    ∷ create_index orders_customer_created
    ∷ create_table order_items_table
    ∷ payment_status
    ∷ create_table payments_table
    ∷ create_table processed_webhooks_table
    ∷ create_table outbox_messages_table
    ∷ create_index outbox_pending
    ∷ []

-- The loop of `downgrade`, in which `op.drop_table` takes each name.
unfoldable pub dropped : List Statement
dropped = map drop_table (
    "outbox_messages" ∷ "processed_webhooks" ∷ "payments" ∷ "order_items" ∷ "orders" ∷ "cart_items"
    ∷ "carts" ∷ "stock_reservations" ∷ "stock_items" ∷ "session_tokens" ∷ "addresses" ∷ "users"
    ∷ "product_images" ∷ "product_variants" ∷ "products" ∷ "brands" ∷ "categories" ∷ [])

unfoldable pub downgrade : List Statement
unfolding dropped
downgrade = dropped ++ drop_enum "payment_status" ∷ drop_enum "order_status" ∷ []
