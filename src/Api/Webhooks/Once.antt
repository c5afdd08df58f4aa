-- ===== src/Api/Webhooks/Once.antt =====
-- A provider's callback is applied once: its event is recorded in the transaction that applies it.
use nordmarkt.Common.{
  ℕ, ◌≡◌, ◌≢◌, refl, sym, ◌∙◌, Bool, true, false, Option, none, some, List, [], ◌∷◌, ◌++◌, String,
  arith, any, ap, eq_iff,
}
use nordmarkt.Core.Errors.{Exception, Result, ok, err}
use nordmarkt.Shared.Database.{Database}
use nordmarkt.Shared.UnitOfWork.{
  World, UnitOfWork, ◌>>=◌, ◌>>◌, begin, commit, pure, within_transaction, session_rollback,
}
use nordmarkt.Shared.UnitOfWork.Keeps.{
  Keeps, Keeps-pure, Keeps-write, keeps_rules, Apart, apart_rules,
}
use nordmarkt.Inventory.{commit_reservation}
use nordmarkt.Inventory.Apart.{Keeps-for_each}
use nordmarkt.Orders.Models.{Order}
use nordmarkt.Orders.{mark_paid}
use nordmarkt.Orders.Atomic.{mark_paid-Apart}
use nordmarkt.Payments.Models.{Payment, ProcessedWebhook}
use nordmarkt.Payments.{PaymentGateway, capture, settle, record_webhook, is_webhook}
use nordmarkt.Api.Webhooks.{Callback, payment_callback, apply_callback, pay_order, named, accepted}

abbrev pub handled : String → String → Database → Bool
handled provider event_id db = any (is_webhook provider event_id) db.webhooks

-- The session has the event on record.
abbrev Recorded : String → String → Database → Database → Type 0
Recorded provider event_id committed session = handled provider event_id session ≡ true

module _ (provider event_id : String) where
  settle-Recorded :
      (w : World) (reference : String) (payment : Payment) (answer : Bool)
      → Keeps (Recorded provider event_id) (settle w reference payment answer)
  settle-Recorded w reference payment true = search (keeps_rules, Keeps-write) depth 9
  settle-Recorded w reference payment false = search (keeps_rules, Keeps-write) depth 9

  capture-Recorded :
      (w : World) (g : PaymentGateway) (reference : String)
      → Keeps (Recorded provider event_id) (capture w g reference)
  unfolding capture
  capture-Recorded w g reference = search (keeps_rules, settle-Recorded) depth 12

  commit_reservation-Recorded :
      (w : World) (id : ℕ) → Keeps (Recorded provider event_id) (commit_reservation w id)
  unfolding commit_reservation
  commit_reservation-Recorded w id = search (keeps_rules, Keeps-write) depth 12

  mark_paid-Recorded :
      (w : World) (order : ℕ) (reference : String)
      → Keeps (Recorded provider event_id) (mark_paid w order reference)
  unfolding mark_paid
  mark_paid-Recorded w order reference =
      search (keeps_rules, Keeps-write, commit_reservation-Recorded, Keeps-for_each) depth 20

  pay_order-Recorded :
      (w : World) (order : Option Order) (reference : String)
      → Keeps (Recorded provider event_id) (pay_order w order reference)
  pay_order-Recorded w none reference = Keeps-pure tt
  pay_order-Recorded w (some order) reference = mark_paid-Recorded w order.id reference

  apply_callback-Recorded :
      (w : World) (g : PaymentGateway) (type : String) (reference : Option String)
      → Keeps (Recorded provider event_id) (apply_callback w g type reference)
  apply_callback-Recorded w g type none = Keeps-pure tt
  apply_callback-Recorded w g type (some reference) =
      search (keeps_rules, capture-Recorded, pay_order-Recorded) depth 12

module _ {base : Database} where
  settle-Apart :
      (w : World) (reference : String) (payment : Payment) (answer : Bool)
      → Keeps (Apart base) (settle w reference payment answer)
  settle-Apart w reference payment true = search apart_rules depth 9
  settle-Apart w reference payment false = search apart_rules depth 9

  capture-Apart :
      (w : World) (g : PaymentGateway) (reference : String)
      → Keeps (Apart base) (capture w g reference)
  unfolding capture
  capture-Apart w g reference = search (apart_rules, settle-Apart) depth 12

  pay_order-Apart :
      (w : World) (order : Option Order) (reference : String)
      → Keeps (Apart base) (pay_order w order reference)
  pay_order-Apart w none reference = Keeps-pure tt
  pay_order-Apart w (some order) reference = mark_paid-Apart w order.id reference

  apply_callback-Apart :
      (w : World) (g : PaymentGateway) (type : String) (reference : Option String)
      → Keeps (Apart base) (apply_callback w g type reference)
  apply_callback-Apart w g type none = Keeps-pure tt
  apply_callback-Apart w g type (some reference) =
      search (apart_rules, capture-Apart, pay_order-Apart) depth 12

any-added :
    (provider event_id : String) (hs : List ProcessedWebhook)
    → any
        (is_webhook provider event_id)
        (hs ++ record { provider = provider; event_id = event_id } ∷ [])
      ≡ true
any-added provider event_id [] = ground (arith, eq_iff provider provider, eq_iff event_id event_id)
any-added provider event_id (h ∷ hs) = ground (arith, any-added provider event_id hs)

module _ (w : World) (g : PaymentGateway) (provider : String) (body : Callback) (db : Database)
    (drawn : ℕ) where
  abbrev run : Result ℕ × Database
  run = within_transaction (payment_callback w g provider body) db drawn

  -- The session once the event is on record.
  abbrev recorded : UnitOfWork
  recorded = record (begin db drawn) {
    session = record db {
      webhooks = db.webhooks ++ record { provider = provider; event_id = body.event_id } ∷ [];
    };
  }

  -- A callback whose event is on record is acknowledged, and changes nothing.
  pub callback_duplicate :
      body.event_id ≢ "" → handled provider body.event_id db ≡ true → run ≡ (ok accepted, db)
  unfolding within_transaction payment_callback record_webhook session_rollback ◌>>=◌
  callback_duplicate named h = ground (arith, eq_iff body.event_id "")

  callback_fresh :
      body.event_id ≢ ""
      → handled provider body.event_id db ≡ false
      → run ≡ (
          let (r, u) =
            (apply_callback w g body.type (named body.reference) >> (commit w >> pure accepted))
              recorded in
          (r, u.committed))
  unfolding within_transaction payment_callback record_webhook ◌>>=◌
  callback_fresh named h = ground (arith, eq_iff body.event_id "")

  -- A callback that fails, at the capture or at the order, commits nothing: neither the event nor
  -- any part of what it did.
  pub callback_failed : (e : Exception) → run.0 ≡ err e → run.1 ≡ db
  unfolding within_transaction payment_callback record_webhook session_rollback commit ◌>>=◌
  callback_failed e h = ground (
    arith,
    (apply_callback-Apart {base = db} w g body.type (named body.reference)).at recorded refl,
  )

  -- A callback that was applied has its event on record in the committed database.
  callback_recorded :
      body.event_id ≢ "" → run.0 ≡ ok accepted → handled provider body.event_id run.1 ≡ true
  unfolding within_transaction payment_callback record_webhook session_rollback commit ◌>>=◌
  callback_recorded named h = ground (
    arith,
    eq_iff body.event_id "",
    any-added provider body.event_id db.webhooks,
    (apply_callback-Recorded provider body.event_id w g body.type
          (nordmarkt.Api.Webhooks.named body.reference)).at
        recorded,
  )

-- Once a callback has been applied, every later delivery of its event is acknowledged and leaves
-- the database as the first one did, whatever the gateway answers by then.
pub callback_twice :
    (w w' : World) (g g' : PaymentGateway) (provider : String) (body body' : Callback)
    (db : Database) (drawn drawn' : ℕ)
    → body.event_id ≢ ""
    → body'.event_id ≡ body.event_id
    → (within_transaction (payment_callback w g provider body) db drawn).0 ≡ ok accepted
    → let after = (within_transaction (payment_callback w g provider body) db drawn).1 in
      within_transaction (payment_callback w' g' provider body') after drawn' ≡ (ok accepted, after)
callback_twice w w' g g' provider body body' db drawn drawn' ne same h =
    let after = (within_transaction (payment_callback w g provider body) db drawn).1 in
    callback_duplicate w' g' provider body' after drawn' (λ e. ne (sym same ∙ e))
      (ap (λ k. handled provider k after) same ∙ callback_recorded w g provider body db drawn ne h)
