-- ===== src/Orders/Settlement/Request.antt =====
-- A request that pays an order: `mark_paid` of backend/app/modules/orders/service.py and `commit` of
-- backend/app/shared/unit_of_work.py in one `async with UnitOfWork(...)`.
use nordmarkt.Common.{
  ℕ, ◌≡◌, refl, sym, ap, subst, false, some, none, List, [], ◌∷◌, ◌++◌, String, ◌==◌, find, modify,
  ◌⊎◌, inl, inr,
}
use nordmarkt.Core.Errors.{Result, ok, err, domain, DomainError}
use nordmarkt.Shared.Database.{Database}
use nordmarkt.Shared.Events.{DomainEvent, EventBody, Json, get, to_payload}
use nordmarkt.Shared.Outbox.{OutboxMessage}
use nordmarkt.Shared.UnitOfWork.{
  World, UnitOfWork, ◌>>=◌, ◌>>◌, commit, begin, within_transaction, outbox_rows, continue,
}
use nordmarkt.Shared.UnitOfWork.Keeps.{Keeps, Keeps-write, keeps_rules}
use nordmarkt.Inventory.{commit_reservation}
use nordmarkt.Inventory.Apart.{Keeps-for_each}
use nordmarkt.Inventory.Books.{InBalance}
use nordmarkt.Inventory.Sweep.{Distinct}
use nordmarkt.Orders.Models.{Order, OrderStatus, is_allowed}
use nordmarkt.Orders.{mark_paid}
use nordmarkt.Orders.Settlement.{mark_paid_lem, mark_paid_refused}

-- The session's outbox is left alone.
abbrev Unsent : List OutboxMessage → Database → Database → Type 0
Unsent ms committed session = session.outbox ≡ ms

commit_reservation-Unsent :
    (ms : List OutboxMessage) (w : World) (id : ℕ) → Keeps (Unsent ms) (commit_reservation w id)
unfolding commit_reservation
commit_reservation-Unsent ms w id = search (keeps_rules, Keeps-write) depth 20

mark_paid-Unsent :
    (ms : List OutboxMessage) (w : World) (id : ℕ) (reference : String)
    → Keeps (Unsent ms) (mark_paid w id reference)
unfolding mark_paid
mark_paid-Unsent ms w id reference =
    search (keeps_rules, Keeps-write, commit_reservation-Unsent, Keeps-for_each) depth 20

-- The message that tells the relay of a payment: of which order and which payment, not yet published,
-- never tried and due at once.
pub record TellsOf (w : World) (id : ℕ) (order : Order) (reference : String) (m : OutboxMessage)
    : Type 0 where
  pub aggregate : m.aggregate_id ≡ id
  pub aggregate_kind : m.aggregate_type ≡ "order"
  pub kind : m.event_type ≡ "order.paid"
  pub number : get "order_number" m.payload ≡ some (Json.text order.order_number)
  pub payment : get "payment_reference" m.payload ≡ some (Json.text reference)
  pub unpublished : m.published_at ≡ none
  pub untried : m.attempts ≡ 0
  pub due : m.next_attempt_at ≡ w.now

paid_cases :
    (s : OrderStatus) → (s ≡ OrderStatus.pending_payment) ⊎ (is_allowed s OrderStatus.paid ≡ false)
unfolding is_allowed
paid_cases OrderStatus.pending_payment = inl refl
paid_cases OrderStatus.paid = inr refl
paid_cases OrderStatus.packing = inr refl
paid_cases OrderStatus.shipped = inr refl
paid_cases OrderStatus.delivered = inr refl
paid_cases OrderStatus.cancelled = inr refl
paid_cases OrderStatus.refunded = inr refl

abbrev pub pay : World → ℕ → String → Database → ℕ → Result (Unit {0}) × Database
pay w id reference = within_transaction (mark_paid w id reference >> commit w)

module _ (w : World) (id : ℕ) (reference : String) (db : Database) (n : ℕ) (order : Order)
    (e : find (λ o. o.id == id) db.orders ≡ some order) where
  -- What a request that pays leaves: the order paid, the books balanced and one message more.
  pub record PaidAndTold (after : Database) : Type 0 where
    pub orders :
        after.orders
        ≡ modify
            (λ o. o.id == order.id)
            (λ _. record order { status = OrderStatus.paid; paid_at = some w.now })
            db.orders
    pub balanced : InBalance after
    pub told :
        (m : OutboxMessage) × (after.outbox ≡ db.outbox ++ m ∷ []) × TellsOf w id order reference m

  abbrev paid_event : DomainEvent
  paid_event = record {
    aggregate_id = id;
    occurred_at = w.now;
    body = EventBody.order_paid order.order_number reference;
  }

  commit_ok : (u : UnitOfWork) → (commit w u).0 ≡ ok tt
  unfolding commit
  commit_ok u = refl

  -- What a commit stores of a state that `mark_paid` leaves.
  stored :
      (u : UnitOfWork)
      → u.session.outbox ≡ db.outbox
      → u.events ≡ paid_event ∷ []
      → u.session.orders
        ≡ modify
            (λ o. o.id == order.id)
            (λ _. record order { status = OrderStatus.paid; paid_at = some w.now })
            db.orders
      → InBalance u.session
      → PaidAndTold (commit w u).1.committed
  unfolding commit outbox_rows to_payload get
  stored u same one orders b = record {
    orders = orders;
    balanced = record { stocked = b.stocked; single = b.single; reconciled = b.reconciled };
    told = (
      record {
        id = w.uuid4 u.drawn;
        aggregate_type = "order";
        aggregate_id = id;
        event_type = "order.paid";
        payload = to_payload paid_event;
        created_at = w.now;
        published_at = none;
        attempts = 0;
        next_attempt_at = w.now;
        last_error = none;
      },
      rw (same, one) refl,
      record {
        aggregate = refl;
        aggregate_kind = refl;
        kind = refl;
        number = refl;
        payment = refl;
        unpublished = refl;
        untried = refl;
        due = refl;
      },
    );
  }

  -- Over balanced books with distinct reservations: a request that pays a pending order succeeds, and
  -- in one commit the stored database has the order paid, its books still balanced, and exactly one
  -- message more in the outbox, which tells the relay of the payment. For an order in any other status
  -- the request ends in a conflict, and the stored database is as it was.
  pub pay_lem :
      InBalance db
      → Distinct db.reservations
      → let (r, after) = pay w id reference db n in
        ((order.status ≡ OrderStatus.pending_payment) × (r ≡ ok tt) × PaidAndTold after)
        ⊎ ((is_allowed order.status OrderStatus.paid ≡ false)
            × (r ≡ err (domain DomainError.conflict))
            × (after ≡ db))
  unfolding within_transaction ◌>>=◌
  pay_lem b d = elim (paid_cases order.status) [
    | inl pending ↦
        let (fine, paid) = mark_paid_lem w id reference (begin db n) order e pending b d in
        let u = (mark_paid w id reference (begin db n)).1 in
        let unsent = (mark_paid-Unsent db.outbox w id reference).at (begin db n) refl in
        inl (
          pending,
          rw fine (commit_ok u),
          subst (λ r. PaidAndTold (continue r (λ _. commit w) u).1.committed) (sym fine)
              (stored u unsent paid.announced paid.order_paid paid.balanced),
        )
    | inr other ↦
        let refused = mark_paid_refused w id reference (begin db n) order e other in
        inr (
          other,
          ap (λ x. (continue x.0 (λ _. commit w) x.1).0) refused,
          ap (λ x. (continue x.0 (λ _. commit w) x.1).1.committed) refused,
        )
  ]
