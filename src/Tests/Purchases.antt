-- ===== src/Tests/Purchases.antt =====
-- Orders: paying, cancelling and placing them.
use nordmarkt.Common.{ℕ, ◌+◌, ◌≤◌, ◌≡◌, refl, false, ◌⊎◌, arith, [], ◌∷◌, some}
use nordmarkt.Common.Int.{pos}
use nordmarkt.Core.Errors.{ok, err, domain, DomainError}
use nordmarkt.Shared.UnitOfWork.{begin, UnitOfWork}
use nordmarkt.Inventory.Books.{InBalance}
use nordmarkt.Cart.{add_item, set_quantity, clear}
use nordmarkt.Cart.Limits.{changes-IsValid}
use nordmarkt.Orders.Models.{Order, OrderStatus, is_allowed}
use nordmarkt.Orders.{place_order, cancel, mark_paid}
use nordmarkt.Orders.Atomic.{place_order-InBalance, cancel-InBalance}
use nordmarkt.Orders.Placement.{Placed, pieces_of, place_order-Placed}
use nordmarkt.Cart.{lines_of}
use nordmarkt.Orders.Settlement.{mark_paid_lem, mark_paid_unheld, Paid}
use nordmarkt.Orders.Settlement.Request.{pay, PaidAndTold, pay_lem}
use nordmarkt.Orders.Lifecycle.{Step, Reaches, rank, steps, steps-le-rank}
use nordmarkt.Identity.{add_address}
use nordmarkt.Identity.Addresses.{defaults_of, add_address-defaults_of}
use nordmarkt.Tests.Data.{home, crypto, world, shop, request, options, pending_order}
use nordmarkt.Tests.Stock.{shop_books}

mark_paid_lem_example :
    ((mark_paid world 40 "sbx_1" request).0 ≡ ok tt)
    × Paid world 40 "sbx_1" request pending_order refl refl (mark_paid world 40 "sbx_1" request).1
mark_paid_lem_example =
    mark_paid_lem world 40 "sbx_1" request pending_order refl refl shop_books (refl, tt)

-- The same shop after a sweep: nothing is held for the order.
abbrev swept : UnitOfWork
swept = begin (record shop { reservations = [] }) 0

mark_paid_unheld_example :
    ((mark_paid world 40 "sbx_1" swept).0 ≡ ok tt)
    × ((mark_paid world 40 "sbx_1" swept).1.session.stock_items ≡ swept.session.stock_items)
    × ((mark_paid world 40 "sbx_1" swept).1.session.orders
        ≡ record pending_order { status = OrderStatus.paid; paid_at = some 1000 } ∷ [])
mark_paid_unheld_example = mark_paid_unheld world 40 "sbx_1" swept pending_order refl refl refl

place_order-InBalance_example :
    InBalance (place_order world 30 50 options request).1.session
    × ((place_order world 30 50 options request).1.committed ≡ shop)
place_order-InBalance_example = place_order-InBalance world 30 50 options request shop_books

cancel-InBalance_example :
    InBalance (cancel world 40 "late" request).1.session
    × ((cancel world 40 "late" request).1.committed ≡ shop)
cancel-InBalance_example = cancel-InBalance world 40 "late" request shop_books

pay_lem_example :
    let (r, after) = pay world 40 "sbx_1" shop 0 in
    ((pending_order.status ≡ OrderStatus.pending_payment)
      × (r ≡ ok tt)
      × PaidAndTold world 40 "sbx_1" shop 0 pending_order refl after)
    ⊎ ((is_allowed pending_order.status OrderStatus.paid ≡ false)
        × (r ≡ err (domain DomainError.conflict))
        × (after ≡ shop))
pay_lem_example = pay_lem world 40 "sbx_1" shop 0 pending_order refl shop_books (refl, tt)

-- An order that is shipped, then delivered.
abbrev as_status : OrderStatus → Order
as_status s = record pending_order { status = s }

delivery : Reaches (as_status OrderStatus.shipped) (as_status OrderStatus.delivered)
unfolding nordmarkt.Orders.Models.transition_to
delivery = Reaches.next Reaches.here (Step.moved _ _ OrderStatus.delivered refl)

steps-le-rank_example : steps delivery + rank OrderStatus.delivered ≤ rank OrderStatus.shipped
steps-le-rank_example = steps-le-rank delivery

changes-IsValid_example :
    nordmarkt.Cart.Limits.IsValid (add_item world 30 7 (pos 2) request).1.session.cart_items
    × nordmarkt.Cart.Limits.IsValid (set_quantity 30 7 (pos 2) request).1.session.cart_items
    × nordmarkt.Cart.Limits.IsValid (clear 30 request).1.session.cart_items
changes-IsValid_example =
    changes-IsValid world 30 7 (pos 2) request
      (record { quantities = ((omega arith, omega arith), tt); sizes = λ k. ground arith })

-- A second default address of the shopper.
add_address-defaults_of_example :
    let (r, u') = add_address crypto world home request in
    (r ≡ ok 100) × ((k : ℕ) → defaults_of k u'.session.addresses ≤ 1)
add_address-defaults_of_example =
    add_address-defaults_of crypto world home request (λ k. ground arith)

place_order-Placed_example :
    Placed request.session.reservations
      (pieces_of (lines_of 30 request.session.cart_items))
      (place_order world 30 50 options request)
place_order-Placed_example = place_order-Placed world 30 50 options request shop_books
