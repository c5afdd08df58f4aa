-- ===== src/Migrations/Models/Mixins.antt =====
-- backend/app/db/base.py: the columns that the mixins of the models add.
use nordmarkt.Common.{List, [], ◌∷◌}
use nordmarkt.Migrations.Statements.{
  Item, column, uuid, varchar, timestamptz, primary_key, server_default, not_null, unique, index,
}

-- `UUIDPrimaryKey`
abbrev pub primary_key_id : Item
primary_key_id = column "id" uuid (primary_key ∷ [])

-- `Timestamped`
abbrev pub timestamped : List Item
timestamped =
    column "created_at" timestamptz (not_null ∷ server_default "now()" ∷ index ∷ [])
    ∷ column "updated_at" timestamptz (not_null ∷ server_default "now()" ∷ [])
    ∷ []

-- `SoftDelete`
abbrev pub soft_delete : Item
soft_delete = column "deleted_at" timestamptz []

-- `Sluggable`
abbrev pub sluggable : Item
sluggable = column "slug" (varchar 160) (not_null ∷ unique ∷ index ∷ [])
