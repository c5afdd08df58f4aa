-- ===== src/Migrations/Models/People.antt =====
-- backend/app/modules/identity/models.py: the tables of accounts, as `Base.metadata` has them.
use nordmarkt.Common.{[], ◌∷◌, some}
use nordmarkt.Migrations.Statements.{
  Table, uuid, timestamptz, text, boolean, varchar, varchar_array, not_null, index, foreign_key,
  column, unique_constraint,
}
use nordmarkt.Migrations.Models.Mixins.{primary_key_id, timestamped}

-- `User`
abbrev pub user_model : Table
user_model = record {
  name = "users";
  items =
      primary_key_id
      ∷ column "email" (varchar 320) (not_null ∷ index ∷ [])
      ∷ column "password_hash" text (not_null ∷ [])
      ∷ column "full_name" (varchar 160) (not_null ∷ [])
      ∷ column "preferred_locale" (varchar 5) (not_null ∷ [])
      ∷ column "roles" (varchar_array 32) (not_null ∷ [])
      ∷ column "is_active" boolean (not_null ∷ [])
      ∷ column "email_verified_at" timestamptz []
      ∷ unique_constraint ("email" ∷ []) "uq_users_email"
      ∷ timestamped;
}

-- `Address`
abbrev pub address_model : Table
address_model = record {
  name = "addresses";
  items =
      primary_key_id
      ∷ column "user_id" uuid (foreign_key "users" "id" (some "CASCADE") ∷ not_null ∷ [])
      ∷ column "recipient" (varchar 160) (not_null ∷ [])
      ∷ column "street" (varchar 240) (not_null ∷ [])
      ∷ column "postal_code" (varchar 16) (not_null ∷ [])
      ∷ column "city" (varchar 120) (not_null ∷ [])
      ∷ column "country_code" (varchar 2) (not_null ∷ [])
      ∷ column "phone" (varchar 32) []
      ∷ column "is_default" boolean (not_null ∷ [])
      ∷ timestamped;
}

-- `SessionToken`
abbrev pub session_token_model : Table
session_token_model = record {
  name = "session_tokens";
  items =
      primary_key_id
      ∷ column "user_id" uuid (foreign_key "users" "id" (some "CASCADE") ∷ not_null ∷ [])
      ∷ column "token_hash" (varchar 128) (not_null ∷ index ∷ [])
      ∷ column "user_agent" (varchar 320) []
      ∷ column "ip_address" (varchar 64) []
      ∷ column "expires_at" timestamptz (not_null ∷ [])
      ∷ column "revoked_at" timestamptz []
      ∷ timestamped;
}
