-- ===== src/Migrations/Initial/People.antt =====
-- backend/app/db/migrations/versions/0001_initial_schema.py: the tables of accounts and carts.
use nordmarkt.Common.{[], ◌∷◌, none, some}
use nordmarkt.Migrations.Statements.{
  Table, uuid, timestamptz, text, integer, boolean, varchar, varchar_array, primary_key, not_null,
  index, server_default, foreign_key, column, unique_constraint,
}
use nordmarkt.Migrations.Initial.Timestamps.{timestamps}

-- The table users.
abbrev pub users_table : Table
users_table = record {
  name = "users";
  items =
      column "id" uuid (primary_key ∷ [])
      ∷ column "email" (varchar 320) (not_null ∷ index ∷ [])
      ∷ column "password_hash" text (not_null ∷ [])
      ∷ column "full_name" (varchar 160) (not_null ∷ [])
      ∷ column "preferred_locale" (varchar 5) (not_null ∷ server_default "sv" ∷ [])
      ∷ column "roles" (varchar_array 32) (not_null ∷ server_default "{customer}" ∷ [])
      ∷ column "is_active" boolean (not_null ∷ server_default "true" ∷ [])
      ∷ column "email_verified_at" timestamptz []
      ∷ unique_constraint ("email" ∷ []) "uq_users_email"
      ∷ timestamps;
}

-- The table addresses.
abbrev pub addresses_table : Table
addresses_table = record {
  name = "addresses";
  items =
      column "id" uuid (primary_key ∷ [])
      ∷ column "user_id" uuid (foreign_key "users" "id" (some "CASCADE") ∷ not_null ∷ [])
      ∷ column "recipient" (varchar 160) (not_null ∷ [])
      ∷ column "street" (varchar 240) (not_null ∷ [])
      ∷ column "postal_code" (varchar 16) (not_null ∷ [])
      ∷ column "city" (varchar 120) (not_null ∷ [])
      ∷ column "country_code" (varchar 2) (not_null ∷ server_default "SE" ∷ [])
      ∷ column "phone" (varchar 32) []
      ∷ column "is_default" boolean (not_null ∷ server_default "false" ∷ [])
      ∷ timestamps;
}

-- The table session_tokens.
abbrev pub session_tokens_table : Table
session_tokens_table = record {
  name = "session_tokens";
  items =
      column "id" uuid (primary_key ∷ [])
      ∷ column "user_id" uuid (foreign_key "users" "id" (some "CASCADE") ∷ not_null ∷ [])
      ∷ column "token_hash" (varchar 128) (not_null ∷ index ∷ [])
      ∷ column "user_agent" (varchar 320) []
      ∷ column "ip_address" (varchar 64) []
      ∷ column "expires_at" timestamptz (not_null ∷ [])
      ∷ column "revoked_at" timestamptz []
      ∷ timestamps;
}

-- The table carts.
abbrev pub carts_table : Table
carts_table = record {
  name = "carts";
  items =
      column "id" uuid (primary_key ∷ [])
      ∷ column "user_id" uuid (foreign_key "users" "id" (some "CASCADE") ∷ index ∷ [])
      ∷ column "anonymous_token" (varchar 64) (index ∷ [])
      ∷ column "currency" (varchar 3) (not_null ∷ server_default "SEK" ∷ [])
      ∷ column "locale" (varchar 5) (not_null ∷ server_default "sv" ∷ [])
      ∷ column "checked_out_at" timestamptz []
      ∷ timestamps;
}

-- The table cart_items.
abbrev pub cart_items_table : Table
cart_items_table = record {
  name = "cart_items";
  items =
      column "id" uuid (primary_key ∷ [])
      ∷ column "cart_id" uuid (foreign_key "carts" "id" (some "CASCADE") ∷ not_null ∷ [])
      ∷ column "variant_id" uuid (foreign_key "product_variants" "id" none ∷ not_null ∷ [])
      ∷ column "quantity" integer (not_null ∷ server_default "1" ∷ [])
      ∷ column "unit_price_minor_units" integer (not_null ∷ [])
      ∷ unique_constraint ("cart_id" ∷ "variant_id" ∷ []) "uq_cart_items_variant"
      ∷ timestamps;
}
