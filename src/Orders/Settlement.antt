-- ===== src/Orders/Settlement.antt =====
-- `mark_paid` and `cancel` of backend/app/modules/orders/service.py: what they do to the order, to
-- the stock and to the events.
pub mod Request
use nordmarkt.Common.{
  ℕ, ◌+◌, ◌≡◌, refl, true, false, some, List, [], ◌∷◌, ◌++◌, String, arith, ◌==◌, find, modify, map,
  select,
}
use nordmarkt.Core.Errors.{ok, err, domain, DomainError}
use nordmarkt.Shared.Events.{EventBody}
use nordmarkt.Shared.UnitOfWork.{World, UnitOfWork, ◌>>=◌}
use nordmarkt.Inventory.Models.{StockReservation, is_open}
use nordmarkt.Inventory.{commit_reservation, for_each}
use nordmarkt.Inventory.Ledger.{on_hand_of, open_of}
use nordmarkt.Inventory.Books.{InBalance}
use nordmarkt.Inventory.Sweep.{Distinct}
use nordmarkt.Inventory.Commit.{commit_each, select-Distinct, select-Held}
use nordmarkt.Orders.Models.{Order, OrderStatus, is_allowed, transition_to}
use nordmarkt.Orders.{mark_paid, is_held_for}

-- A transition that the table does not allow is refused, and nothing is written.
pub mark_paid_refused :
    (w : World) (id : ℕ) (reference : String) (u : UnitOfWork) (order : Order)
    → find (λ o. o.id == id) u.session.orders ≡ some order
    → is_allowed order.status OrderStatus.paid ≡ false
    → mark_paid w id reference u ≡ (err (domain DomainError.conflict), u)
unfolding mark_paid transition_to ◌>>=◌
mark_paid_refused w id reference u order e h = ground arith

is_held_for-open : (id : ℕ) (r : StockReservation) → is_held_for id r ≡ true → is_open r ≡ true
is_held_for-open id r h = ground arith

module _ (w : World) (id : ℕ) (reference : String) (u : UnitOfWork) (order : Order)
    (e : find (λ o. o.id == id) u.session.orders ≡ some order)
    (pending : order.status ≡ OrderStatus.pending_payment) where
  abbrev pub paid_order : Order
  paid_order = record order { status = OrderStatus.paid; paid_at = some w.now }

  -- The session after the order has been saved.
  abbrev pub saved : UnitOfWork
  saved = record u {
    session = record u.session {
      orders = modify (λ o. o.id == order.id) (λ _. paid_order) u.session.orders;
    };
  }

  abbrev pub held_rows : List StockReservation
  held_rows = select (is_held_for id) u.session.reservations

  mark_paid_steps :
      (end : UnitOfWork)
      → for_each (commit_reservation w) (map (λ r. r.id) held_rows) saved ≡ (ok tt, end)
      → mark_paid w id reference u ≡ (
        ok tt,
        record end {
          events =
              end.events
              ++ record {
                aggregate_id = id;
                occurred_at = w.now;
                body = EventBody.order_paid order.order_number reference;
              }
                ∷ [];
        },
      )
  unfolding mark_paid transition_to is_allowed ◌>>=◌
  mark_paid_steps end h = ground arith

  -- What paying an order leaves.
  pub record Paid (end : UnitOfWork) : Type 0 where
    pub balanced : InBalance end.session
    pub taken :
        (v : ℕ)
        → on_hand_of v end.session.stock_items + open_of v held_rows
          ≡ on_hand_of v u.session.stock_items
    pub order_paid :
        end.session.orders ≡ modify (λ o. o.id == order.id) (λ _. paid_order) u.session.orders
    pub announced :
        end.events
        ≡ u.events
          ++ record {
            aggregate_id = id;
            occurred_at = w.now;
            body = EventBody.order_paid order.order_number reference;
          }
            ∷ []
    pub apart : end.committed ≡ u.committed

  -- Paying a pending order succeeds: the order is marked, each variant's stock falls by exactly
  -- what the order's open reservations hold, the books stay balanced, and one event is raised.
  pub mark_paid_lem :
      InBalance u.session
      → Distinct u.session.reservations
      → ((mark_paid w id reference u).0 ≡ ok tt) × Paid (mark_paid w id reference u).1
  mark_paid_lem b d =
      let rs = u.session.reservations in
      let (fine, c) =
        commit_each w held_rows saved b (select-Distinct (is_held_for id) rs d)
          (select-Held (is_held_for id) rs (is_held_for-open id) d) in
      let run = for_each (commit_reservation w) (map (λ r. r.id) held_rows) saved in
      rw (mark_paid_steps run.1 (λ i. (fine i, run.1))) (
        refl,
        record {
          balanced = c.balanced;
          taken = c.taken;
          order_paid = c.orders;
          announced = rw c.quiet refl;
          apart = c.apart;
        },
      )

  -- Once the sweeper has released an order's reservations, paying it still succeeds, and takes no
  -- stock: the order is paid and nothing is held for it.
  pub mark_paid_unheld :
      held_rows ≡ []
      → ((mark_paid w id reference u).0 ≡ ok tt)
        × ((mark_paid w id reference u).1.session.stock_items ≡ u.session.stock_items)
        × ((mark_paid w id reference u).1.session.orders
            ≡ modify (λ o. o.id == order.id) (λ _. paid_order) u.session.orders)
  unfolding for_each ◌>>=◌
  mark_paid_unheld h = rw (mark_paid_steps saved (rw h)) (refl, refl, refl)
