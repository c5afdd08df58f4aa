-- ===== src/Tests/Deployment.antt =====
-- A database without Alembic's own table, migrated by a server that does as documented.
use nordmarkt.Common.{◌≡◌, refl, true, false, [], ◌∷◌}
use nordmarkt.Common.Texts.{mem_text}
use nordmarkt.Migrations.Statements.{Table, column, varchar, text, not_null}
use nordmarkt.Migrations.Server.{Server, Schema, all, with_version, documented, documented_laws}
use nordmarkt.Migrations.Initial
use nordmarkt.Migrations.Search
use nordmarkt.Migrations.Labels.{order_member, payment_member, labels_of, statuses_known}
use nordmarkt.Migrations.Runs.{do_run_migrations, upgrades, downgrades}
use nordmarkt.Migrations.Runs.Frame.{is_apart}
use nordmarkt.Migrations.Runs.RoundTrip.{IsFresh, migrations_round_trip}
use nordmarkt.Migrations.Runs.Observed.{at_rest}
use nordmarkt.Orders.Models.{OrderStatus}
use nordmarkt.Payments.Models.{PaymentStatus}

abbrev version_table : Table
version_table = record {
  name = "alembic_version";
  items = column "version_num" (varchar 32) (not_null ∷ []) ∷ [];
}

-- A new database that holds a table of someone else's.
abbrev notes : Table
notes = record { name = "notes"; items = column "text" text [] ∷ [] }

abbrev deployed : Schema
deployed = record {
  tables = notes ∷ [];
  indexes = [];
  enums = "mood" ∷ [];
  has_extension = λ _. false;
  heads = [];
}

abbrev server : Server
server = documented version_table

up-IsFresh : IsFresh version_table deployed
unfolding is_apart upgrades Initial.upgrade Search.upgrade
up-IsFresh = (refl, refl)

down_apart : all (is_apart (with_version version_table deployed)) downgrades ≡ true
unfolding is_apart downgrades Initial.downgrade Search.downgrade
down_apart = refl

migrations_round_trip_example :
    let (done, c') = do_run_migrations server upgrades (at_rest deployed) in
    let (undone, c'') = do_run_migrations server downgrades c' in
    let after = c''.committed in
    (done ≡ true)
    × (undone ≡ true)
    × (after.tables ≡ version_table ∷ notes ∷ [])
    × (after.indexes ≡ [])
    × (after.enums ≡ "mood" ∷ [])
    × (after.heads ≡ [])
migrations_round_trip_example =
    migrations_round_trip server (documented_laws version_table) (at_rest deployed) deployed refl
      up-IsFresh down_apart

statuses_known_example :
    ((s : OrderStatus)
      → mem_text (order_member s).0 (labels_of "order_status" Initial.upgrade) ≡ false)
    × ((s : PaymentStatus)
        → mem_text (payment_member s).0 (labels_of "payment_status" Initial.upgrade) ≡ false)
statuses_known_example = statuses_known (λ m. m.0) false (λ m. refl)
