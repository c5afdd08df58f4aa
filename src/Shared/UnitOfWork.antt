-- ===== src/Shared/UnitOfWork.antt =====
-- backend/app/shared/unit_of_work.py: one transaction over the database, with the events raised in
-- it, and the monad of the services that run in it.
pub mod Keeps
use nordmarkt.Common.{ℕ, ◌+◌, List, [], ◌∷◌, ◌++◌, String, Option, none, some, Bool, if◌then◌else◌}
use nordmarkt.Core.Errors.{Exception, Result, ok, err}
use nordmarkt.Shared.Database.{Database}
use nordmarkt.Shared.Events.{DomainEvent, EventBody, aggregate_type, event_type, to_payload}
use nordmarkt.Shared.Outbox.{OutboxMessage}

-- What the services read of the world: the clock, which stands still within a request, and the
-- n-th draw of `uuid4`, of `secrets.token_urlsafe` and of an order number's random suffix.
pub record World : Type 0 where
  pub now : ℕ
  pub uuid4 : ℕ → ℕ
  pub token_urlsafe : ℕ → String
  pub order_number : ℕ → String

-- `session` is the database as the open transaction sees it, `committed` as others do; `drawn`
-- counts the random draws.
pub record UnitOfWork : Type 0 where
  pub committed : Database
  pub session : Database
  pub events : List DomainEvent
  pub drawn : ℕ

-- A call: the state comes back after a raise too, since what a session has written stays in it
-- until it is rolled back.
abbrev pub Action : Type 0 → Type 0
Action A = UnitOfWork → Result A × UnitOfWork

module _ {A : Type 0} where
  unfoldable pub pure : A → Action A
  pure a u = (ok a, u)

  unfoldable pub raise : Exception → Action A
  raise e u = (err e, u)

  -- A read of the database.
  unfoldable pub gets : (Database → A) → Action A
  gets f u = (ok (f u.session), u)

  unfoldable pub or_raise : Exception → Option A → Action A
  or_raise e none u = (err e, u)
  or_raise e (some a) u = (ok a, u)

  unfoldable pub lift : Result A → Action A
  lift r u = (r, u)

unfoldable pub raise_if : Bool → Exception → Action (Unit {0})
raise_if b e u = (if b then err e else ok tt, u)

-- A write to the database, in the session.
unfoldable pub write : (Database → Database) → Action (Unit {0})
write f u = (ok tt, record u { session = f u.session })

-- A random draw, by its number.
unfoldable pub draw : Action ℕ
draw u = (ok u.drawn, record u { drawn = u.drawn + 1 })

-- `UnitOfWork.emit`; an event takes its time from the clock.
unfoldable pub emit : World → ℕ → EventBody → Action (Unit {0})
emit w aggregate_id body u = (
  ok tt,
  record u {
    events =
        u.events ++ record { aggregate_id = aggregate_id; occurred_at = w.now; body = body } ∷ [];
  },
)

module _ {A B : Type 0} where
  abbrev pub continue : Result A → (A → Action B) → Action B
  continue (ok a) f u = f a u
  continue (err e) f u = (err e, u)

  infixl 5 ◌>>=◌ ◌>>◌
  -- Opening this opens the actions above too.
  unfoldable pub ◌>>=◌ : Action A → (A → Action B) → Action B
  unfolding pure raise gets or_raise lift raise_if write draw emit
  ◌>>=◌ m f u = let (r, u') = m u in continue r f u'

  abbrev pub ◌>>◌ : Action A → Action B → Action B
  m >> k = m >>= λ _. k

-- The rows that `commit` adds, under the ids of the draws from `n` on.
unfoldable pub outbox_rows : World → ℕ → List DomainEvent → List OutboxMessage
outbox_rows w n [] = []
outbox_rows w n (e ∷ es) =
    record {
      id = w.uuid4 n;
      aggregate_type = aggregate_type e.body;
      aggregate_id = e.aggregate_id;
      event_type = event_type e.body;
      payload = to_payload e;
      created_at = w.now;
      published_at = none;
      attempts = 0;
      next_attempt_at = w.now;
      last_error = none;
    }
    ∷ outbox_rows w (n + 1) es

abbrev count_draws : List DomainEvent → ℕ
count_draws [] = 0
count_draws (e ∷ es) = count_draws es + 1

-- `UnitOfWork.commit`: the events become rows of the same commit.
unfoldable pub commit : World → Action (Unit {0})
unfolding outbox_rows
commit w u =
    let db = record u.session { outbox = u.session.outbox ++ outbox_rows w u.drawn u.events } in
    (
      ok tt,
      record { committed = db; session = db; events = []; drawn = u.drawn + count_draws u.events },
    )

-- `session.rollback()`, which leaves the events queued.
unfoldable pub session_rollback : Action (Unit {0})
session_rollback u = (ok tt, record u { session = u.committed })

-- `UnitOfWork.rollback`
unfoldable pub rollback : Action (Unit {0})
rollback u = (ok tt, record u { session = u.committed; events = [] })

-- `__aenter__`
abbrev pub begin : Database → ℕ → UnitOfWork
begin db drawn = record { committed = db; session = db; events = []; drawn = drawn }

-- `async with UnitOfWork(...)` round a body: on an exception the session is rolled back, and it is
-- closed in any case, so what others see is what was committed.
unfoldable pub within_transaction : {A : Type 0} → Action A → Database → ℕ → Result A × Database
within_transaction body db drawn = let (r, u) = body (begin db drawn) in (r, u.committed)
