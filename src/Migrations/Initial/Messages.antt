-- ===== src/Migrations/Initial/Messages.antt =====
-- backend/app/db/migrations/versions/0001_initial_schema.py: the tables of webhooks and of the outbox.
use nordmarkt.Common.{[], ◌∷◌}
use nordmarkt.Migrations.Statements.{
  Table, uuid, jsonb, timestamptz, text, integer, varchar, primary_key, not_null, index,
  server_default, column, unique_constraint,
}
use nordmarkt.Migrations.Initial.Timestamps.{timestamps}

-- The table processed_webhooks.
abbrev pub processed_webhooks_table : Table
processed_webhooks_table = record {
  name = "processed_webhooks";
  items =
      column "id" uuid (primary_key ∷ [])
      ∷ column "provider" (varchar 32) (not_null ∷ [])
      ∷ column "event_id" (varchar 128) (not_null ∷ [])
      ∷ column "payload" jsonb (not_null ∷ server_default "{}" ∷ [])
      ∷ unique_constraint ("provider" ∷ "event_id" ∷ []) "uq_webhook_provider_event"
      ∷ timestamps;
}

-- The table outbox_messages.
abbrev pub outbox_messages_table : Table
outbox_messages_table = record {
  name = "outbox_messages";
  items =
      column "id" uuid (primary_key ∷ [])
      ∷ column "aggregate_type" (varchar 64) (not_null ∷ [])
      ∷ column "aggregate_id" uuid (not_null ∷ [])
      ∷ column "event_type" (varchar 96) (not_null ∷ index ∷ [])
      ∷ column "payload" jsonb (not_null ∷ [])
      ∷ column "published_at" timestamptz []
      ∷ column "attempts" integer (not_null ∷ server_default "0" ∷ [])
      ∷ column "next_attempt_at" timestamptz (not_null ∷ server_default "now()" ∷ [])
      ∷ column "last_error" text []
      ∷ timestamps;
}
