-- ===== src/Migrations/Runs/RoundTrip.antt =====
-- backend/app/db/migrations: up to head and back to base, in a database that holds other things too.
use nordmarkt.Common.{
  ◌≡◌, refl, Bool, true, eq_iff, false, List, [], ◌∷◌, ◌++◌, ◌∙◌, ap, any, arith, str_eq,
}
use nordmarkt.Migrations.Server.{
  Server, ServerLaws, Schema, step, attempt, allows, perform, all, documented, has_table,
  with_version,
}
use nordmarkt.Migrations.Statements.{Table}
use nordmarkt.Migrations.Initial
use nordmarkt.Migrations.Search
use nordmarkt.Migrations.Runs.{run_migrations, do_run_migrations, upgrades, downgrades}
use nordmarkt.Migrations.Runs.Frame.{beside, is_apart}
use nordmarkt.Migrations.Runs.Observed.{at_rest, started, do_run-observe, do_run-beside}

abbrev pub nothing : Schema
nothing = record { tables = []; indexes = []; enums = []; has_extension = λ _. false; heads = [] }

module _ (t : Table) where
  abbrev up : Schema
  up = (run_migrations (documented t) upgrades (started nothing)).1.schema

  abbrev down : Schema
  down = (run_migrations (documented t) downgrades (started up)).1.schema

  up-runs : (run_migrations (documented t) upgrades (started nothing)).0 ≡ true
  unfolding run_migrations upgrades Initial.upgrade Search.upgrade step attempt allows perform
  up-runs = refl

  down-runs : (run_migrations (documented t) downgrades (started up)).0 ≡ true
  unfolding run_migrations upgrades downgrades Initial.upgrade Search.upgrade Initial.downgrade
      Search.downgrade step attempt allows perform
  down-runs = refl

  down-empty : (down.tables ≡ []) × (down.indexes ≡ []) × (down.enums ≡ []) × (down.heads ≡ [])
  unfolding run_migrations upgrades downgrades Initial.upgrade Search.upgrade Initial.downgrade
      Search.downgrade step attempt allows perform
  down-empty = (refl, refl, refl, refl)

module _ {A : Type 0} (p : A → Bool) where
  any-append_last : (xs ys : List A) → any p ys ≡ true → any p (xs ++ ys) ≡ true
  any-append_last [] ys h = h
  any-append_last (x ∷ xs) ys h = ground (arith, any-append_last xs ys h)

module _ (t : Table) where
  has_table-with_version : (b : Schema) → has_table t.name (with_version t b).tables ≡ true
  has_table-with_version b = ground (arith, eq_iff t.name t.name)

  -- Where Alembic's table is there, it is left alone.
  with_version-there : (s : Schema) → has_table t.name s.tables ≡ true → with_version t s ≡ s
  with_version-there s h = rw h refl

-- The upgrade finds no revision in Alembic's table, if there is one.
abbrev pub IsFresh : Table → Schema → Type 0
IsFresh t b = (b.heads ≡ []) × (all (is_apart (with_version t b)) upgrades ≡ true)

module _ (sv : Server) (laws : ServerLaws sv) (c : sv.Connection) (b : Schema) where
  abbrev t : Table
  t = sv.version_table

  abbrev base : Schema
  base = with_version t b

  upgraded :
      sv.observe c ≡ at_rest b
      → IsFresh t b
      → ((do_run_migrations sv upgrades c).0 ≡ true)
        × (sv.observe (do_run_migrations sv upgrades c).1 ≡ at_rest (beside base (up t)))
  upgraded rest (no_heads, apart) =
      let (done, seen) = do_run-observe sv laws upgrades c in
      let start : base ≡ beside base nothing = ap (λ hs. record base { heads = hs }) no_heads in
      let run = do_run-beside t base nothing upgrades (at_rest b) start apart (up-runs t) in
      (
        done ∙ ap (λ s. (do_run_migrations (documented t) upgrades s).0) rest ∙ ap (λ r. r.0) run,
        seen ∙ ap (λ s. (do_run_migrations (documented t) upgrades s).1) rest ∙ ap (λ r. r.1) run,
      )

  downgraded :
      (c' : sv.Connection)
      → sv.observe c' ≡ at_rest (beside base (up t))
      → all (is_apart base) downgrades ≡ true
      → ((do_run_migrations sv downgrades c').0 ≡ true)
        × (sv.observe (do_run_migrations sv downgrades c').1 ≡ at_rest (beside base (down t)))
  downgraded c' seen_up apart =
      let (done, seen) = do_run-observe sv laws downgrades c' in
      let there =
        any-append_last (λ (x : Table). str_eq x.name t.name) (up t).tables base.tables
          (has_table-with_version t b) in
      let start = with_version-there t (beside base (up t)) there in
      let run =
        do_run-beside t base (up t) downgrades (at_rest (beside base (up t))) start apart
          (down-runs t) in
      (
        done
            ∙ ap (λ s. (do_run_migrations (documented t) downgrades s).0) seen_up
            ∙ ap (λ r. r.0) run,
        seen
            ∙ ap (λ s. (do_run_migrations (documented t) downgrades s).1) seen_up
            ∙ ap (λ r. r.1) run,
      )

  -- In a database at rest in which no revision is recorded, which holds nothing of the names of the
  -- migrations and nothing that depends on them, the upgrade to head and then the downgrade to base
  -- succeed. They leave the tables, indexes and enumerations that there were before, with Alembic's
  -- own table, which the upgrade creates if it is not there, and no revision recorded in it.
  pub migrations_round_trip :
      sv.observe c ≡ at_rest b
      → IsFresh sv.version_table b
      → all (is_apart (with_version sv.version_table b)) downgrades ≡ true
      → let (done, c') = do_run_migrations sv upgrades c in
        let (undone, c'') = do_run_migrations sv downgrades c' in
        let after = (sv.observe c'').committed in
        let before = with_version sv.version_table b in
        (done ≡ true)
        × (undone ≡ true)
        × (after.tables ≡ before.tables)
        × (after.indexes ≡ before.indexes)
        × (after.enums ≡ before.enums)
        × (after.heads ≡ [])
  migrations_round_trip rest fresh apart_down =
      let (done, seen) = upgraded rest fresh in
      let (undone, seen_down) = downgraded (do_run_migrations sv upgrades c).1 seen apart_down in
      let (ts, is, es, hs) = down-empty t in
      (
        done,
        undone,
        rw (seen_down, ts) refl,
        rw (seen_down, is) refl,
        rw (seen_down, es) refl,
        rw (seen_down, hs) refl,
      )
