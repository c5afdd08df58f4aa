-- ===== src/Migrations/Models/Payments.antt =====
-- backend/app/modules/payments/models.py: the tables of payments and webhooks, as `Base.metadata` has them.
use nordmarkt.Common.{[], ◌∷◌, none}
use nordmarkt.Migrations.Statements.{
  Table, uuid, jsonb, timestamptz, text, integer, varchar, enum, not_null, index, foreign_key,
  column, unique_constraint,
}
use nordmarkt.Migrations.Models.Mixins.{primary_key_id, timestamped}

-- `Payment`
abbrev pub payment_model : Table
payment_model = record {
  name = "payments";
  items =
      primary_key_id
      ∷ column "order_id" uuid (foreign_key "orders" "id" none ∷ not_null ∷ index ∷ [])
      ∷ column "provider" (varchar 32) (not_null ∷ [])
      ∷ column "provider_reference" (varchar 96) (not_null ∷ [])
      ∷ column "status" (enum "payment_status") (not_null ∷ [])
      ∷ column "amount_minor_units" integer (not_null ∷ [])
      ∷ column "currency" (varchar 3) (not_null ∷ [])
      ∷ column "failure_reason" text []
      ∷ column "captured_at" timestamptz []
      ∷ column "raw_response" jsonb (not_null ∷ [])
      ∷ unique_constraint ("provider_reference" ∷ []) "uq_payments_provider_ref"
      ∷ timestamped;
}

-- `ProcessedWebhook`
abbrev pub processed_webhook_model : Table
processed_webhook_model = record {
  name = "processed_webhooks";
  items =
      primary_key_id
      ∷ column "provider" (varchar 32) (not_null ∷ [])
      ∷ column "event_id" (varchar 128) (not_null ∷ [])
      ∷ column "payload" jsonb (not_null ∷ [])
      ∷ unique_constraint ("provider" ∷ "event_id" ∷ []) "uq_webhook_provider_event"
      ∷ timestamped;
}
