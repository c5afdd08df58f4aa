-- ===== src/Migrations/Runs.antt =====
-- backend/app/db/migrations/env.py: `do_run_migrations`, over the statements of the revisions that
-- Alembic picks, in the order in which it runs them.
pub mod Frame
pub mod Observed
pub mod RoundTrip
use nordmarkt.Common.{Bool, true, false, List, [], ◌∷◌, ◌++◌, if◌then◌else◌}
use nordmarkt.Migrations.Statements.{Statement, commit, set_heads}
use nordmarkt.Migrations.Server.{Server}
use nordmarkt.Migrations.Initial
use nordmarkt.Migrations.Search

-- The statements from base to head, and back: 0002 follows 0001 by its `down_revision`.
unfoldable pub upgrades : List Statement
upgrades =
    Initial.upgrade
    ++ set_heads ("0001_initial_schema" ∷ []) ∷ Search.upgrade
    ++ set_heads ("0002_search_indexes" ∷ []) ∷ []

unfoldable pub downgrades : List Statement
downgrades =
    Search.downgrade
    ++ set_heads ("0001_initial_schema" ∷ []) ∷ Initial.downgrade
    ++ set_heads [] ∷ []

module _ (sv : Server) where
  -- The steps of `context.run_migrations`: the first statement that is refused raises.
  unfoldable pub run_migrations : List Statement → sv.Connection → Bool × sv.Connection
  run_migrations [] c = (true, c)
  run_migrations (st ∷ script) c =
      let (done, c') = sv.execute st c in
      let rest = run_migrations script c' in if done then rest else (false, c')

  -- `with context.begin_transaction()` round it; `true` means that nothing was raised. The first thing
  -- that `context.run_migrations` does is to see to Alembic's own table.
  unfoldable pub do_run_migrations : List Statement → sv.Connection → Bool × sv.Connection
  do_run_migrations script c =
      let (done, c') = run_migrations script (sv.ensure_version_table (sv.begin c)) in
      if done then (true, (sv.execute commit c').1) else (false, sv.rollback c')
