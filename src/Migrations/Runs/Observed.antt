-- ===== src/Migrations/Runs/Observed.antt =====
-- backend/app/db/migrations/env.py: a run on a server is the run that the documentation describes,
-- and it goes the same way beside what else is in the database.
use nordmarkt.Common.{
  true, false, not, ◌&&◌, ◌≡◌, refl, List, [], ◌∷◌, Bool-cases, inl, inr, arith, ap, ◌∙◌,
}
use nordmarkt.Migrations.Statements.{Table, Statement, commit}
use nordmarkt.Migrations.Server.{
  Schema, Session, Server, ServerLaws, step, attempt, set_schema, documented, all, allows,
  is_concurrent, with_version,
}
use nordmarkt.Migrations.Runs.{run_migrations, do_run_migrations}
use nordmarkt.Migrations.Runs.Frame.{beside, beside_session, is_apart, step-beside}

module _ (sv : Server) (laws : ServerLaws sv) where
  open laws use {executed, observe-execute, observe-begin, observe-rollback, observe-ensure}

  abbrev like : Server
  like = documented sv.version_table

  run-observe :
      (script : List Statement) (c : sv.Connection)
      → ((run_migrations sv script c).0 ≡ (run_migrations like script (sv.observe c)).0)
        × (sv.observe (run_migrations sv script c).1
            ≡ (run_migrations like script (sv.observe c)).1)
  unfolding run_migrations
  run-observe [] c = (refl, refl)
  run-observe (st ∷ script) c = elim (Bool-cases (step st (sv.observe c)).0) [
    | inl done ↦
        rw (executed st c, done)
          (rw (← observe-execute st c) (run-observe script (sv.execute st c).1))
    | inr stop ↦ rw (executed st c, stop) (refl, observe-execute st c)
  ]

  begun :
      (c : sv.Connection)
      → sv.observe (sv.ensure_version_table (sv.begin c))
        ≡ like.ensure_version_table (like.begin (sv.observe c))
  begun c = observe-ensure (sv.begin c) ∙ ap like.ensure_version_table (observe-begin c)

  run-begun :
      (script : List Statement) (c : sv.Connection)
      → let start = like.ensure_version_table (like.begin (sv.observe c)) in
        let run = run_migrations sv script (sv.ensure_version_table (sv.begin c)) in
        (run.0 ≡ (run_migrations like script start).0)
        × (sv.observe run.1 ≡ (run_migrations like script start).1)
  run-begun script c = rw (← begun c) (run-observe script (sv.ensure_version_table (sv.begin c)))

  pub do_run-observe :
      (script : List Statement) (c : sv.Connection)
      → ((do_run_migrations sv script c).0 ≡ (do_run_migrations like script (sv.observe c)).0)
        × (sv.observe (do_run_migrations sv script c).1
            ≡ (do_run_migrations like script (sv.observe c)).1)
  unfolding do_run_migrations
  do_run-observe script c =
      let (done-eq, seen) = run-begun script c in
      let start = like.ensure_version_table (like.begin (sv.observe c)) in
      elim (Bool-cases (run_migrations like script start).0) [
        | inl done ↦
            rw (done-eq, done) (refl, observe-execute commit _ ∙ ap (λ s. (step commit s).1) seen)
        | inr stop ↦ rw (done-eq, stop) (refl, observe-rollback _ ∙ ap like.rollback seen)
      ]

-- What others see makes no difference to a connection.
abbrev pub Alike : Session → Session → Type 0
Alike s s' = (s.schema ≡ s'.schema) × (s.in_transaction ≡ s'.in_transaction)

attempt-Alike :
    (st : Statement) (s s' : Session)
    → Alike s s'
    → ((attempt st s).0 ≡ (attempt st s').0) × Alike (attempt st s).1 (attempt st s').1
unfolding attempt
attempt-Alike st s s' (h, k) =
    rw (h, k)
      (elim (Bool-cases (not (is_concurrent st && s'.in_transaction) && allows st s'.schema)) [
        | inl go ↦ rw go (refl, (refl, refl))
        | inr stop ↦ rw stop (refl, (refl, refl))
      ])

step-Alike :
    (st : Statement) (s s' : Session)
    → Alike s s'
    → ((step st s).0 ≡ (step st s').0) × Alike (step st s).1 (step st s').1
unfolding step
step-Alike commit s s' (h, k) = (refl, (h, refl))
step-Alike st s s' a = attempt-Alike st s s' a

module _ (t : Table) where
  run-Alike :
      (script : List Statement) (s s' : Session)
      → Alike s s'
      → let run = run_migrations (documented t) script s in
        let run' = run_migrations (documented t) script s' in (run.0 ≡ run'.0) × Alike run.1 run'.1
  unfolding run_migrations
  run-Alike [] s s' a = (refl, a)
  run-Alike (st ∷ script) s s' a =
      let (same, next) = step-Alike st s s' a in
      let rest = run-Alike script (step st s).1 (step st s').1 next in
      elim (Bool-cases (step st s').0) [
        | inl go ↦ rw (same, go) rest
        | inr stop ↦ rw (same, stop) (refl, next)
      ]

  module _ (b : Schema) where
    run-beside :
        (script : List Statement) (s : Session)
        → all (is_apart b) script ≡ true
        → (run_migrations (documented t) script s).0 ≡ true
        → run_migrations (documented t) script (beside_session b s)
          ≡ (true, beside_session b (run_migrations (documented t) script s).1)
    unfolding run_migrations
    run-beside [] s h ok = refl
    run-beside (st ∷ script) s h ok = elim (Bool-cases (step st s).0) [
      | inl go ↦
          let ok' : (run_migrations (documented t) script (step st s).1).0 ≡ true = ground arith in
          rw (step-beside b s st (ground arith) go, go)
            (run-beside script (step st s).1 (ground arith) ok')
      | inr stop ↦ absurd (ground arith)
    ]

-- All of a schema, seen by everyone, outside a transaction and in one.
abbrev pub at_rest : Schema → Session
at_rest b = record { committed = b; schema = b; in_transaction = false }

abbrev pub started : Schema → Session
started b = record { committed = b; schema = b; in_transaction = true }

-- A run that succeeds alone succeeds beside what Alembic found or made at its start, and commits all.
pub do_run-beside :
    (t : Table) (b l : Schema) (script : List Statement) (s : Session)
    → let alone = run_migrations (documented t) script (started l) in
      with_version t s.schema ≡ beside b l
      → all (is_apart b) script ≡ true
      → alone.0 ≡ true
      → do_run_migrations (documented t) script s ≡ (true, at_rest (beside b alone.1.schema))
unfolding do_run_migrations step
do_run-beside t b l script s start apart ok =
    let alone = run_migrations (documented t) script (started l) in
    let begun = set_schema (with_version t s.schema) ((documented t).begin s) in
    let (done, (schema, _)) =
      run-Alike t script begun (beside_session b (started l)) (start, refl) in
    let together = run-beside t b script (started l) apart ok in
    let done' : (run_migrations (documented t) script begun).0 ≡ true =
      done ∙ ap (λ r. r.0) together in
    let schema' : (run_migrations (documented t) script begun).1.schema ≡ beside b alone.1.schema =
      schema ∙ ap (λ r. r.1.schema) together in
    rw (done', schema') refl
