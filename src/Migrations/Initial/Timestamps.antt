-- ===== src/Migrations/Initial/Timestamps.antt =====
-- backend/app/db/migrations/versions/0001_initial_schema.py: `_ts`.
use nordmarkt.Common.{List, [], ◌∷◌}
use nordmarkt.Migrations.Statements.{Item, column, timestamptz, server_default, not_null, index}

abbrev pub timestamps : List Item
timestamps =
    column "created_at" timestamptz (server_default "now()" ∷ not_null ∷ index ∷ [])
    ∷ column "updated_at" timestamptz (server_default "now()" ∷ not_null ∷ [])
    ∷ []
