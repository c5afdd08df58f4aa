-- ===== src/Migrations/Models/Outbox.antt =====
-- backend/app/shared/outbox.py: the table of the outbox, as `Base.metadata` has them.
use nordmarkt.Common.{[], ◌∷◌, List}
use nordmarkt.Migrations.Statements.{
  Index, plain_index, Table, uuid, jsonb, timestamptz, text, integer, varchar, not_null, index,
  column,
}
use nordmarkt.Migrations.Models.Mixins.{primary_key_id, timestamped}

-- `OutboxMessage`
abbrev pub outbox_message_model : Table
outbox_message_model = record {
  name = "outbox_messages";
  items =
      primary_key_id
      ∷ column "aggregate_type" (varchar 64) (not_null ∷ [])
      ∷ column "aggregate_id" uuid (not_null ∷ [])
      ∷ column "event_type" (varchar 96) (not_null ∷ index ∷ [])
      ∷ column "payload" jsonb (not_null ∷ [])
      ∷ column "published_at" timestamptz []
      ∷ column "attempts" integer (not_null ∷ [])
      ∷ column "next_attempt_at" timestamptz (not_null ∷ [])
      ∷ column "last_error" text []
      ∷ timestamped;
}

-- The `Index` of its `__table_args__`.
abbrev pub outbox_message_indexes : List Index
outbox_message_indexes =
    record (plain_index "ix_outbox_pending" "outbox_messages"
      ("published_at" ∷ "next_attempt_at" ∷ "published_at" ∷ [])) {
        condition = "published_at IS NULL";
      }
    ∷ []
