-- ===== src/Orders/Lifecycle.antt =====
-- The state machine of backend/app/modules/orders/models.py: what an order can become.
use nordmarkt.Common.{ℕ, ◌+◌, ◌≤◌, ◌<◌, ◌≡◌, refl, sym, ap, subst, true, ◌⊎◌, inl, inr, arith}
use nordmarkt.Core.Errors.{ok}
use nordmarkt.Orders.Models.{Order, OrderStatus, is_allowed, transition_to}

-- One accepted transition of an order.
pub data Step : Order → Order → Type 0 where
  moved : (o p : Order) (target : OrderStatus) → transition_to target o ≡ ok p → Step o p

pub data Reaches (o : Order) : Order → Type 0 where
  here : Reaches o o
  next : {p q : Order} → Reaches o p → Step p q → Reaches o q

-- How many transitions an order has left at most.
abbrev pub rank : OrderStatus → ℕ
rank OrderStatus.pending_payment = 5
rank OrderStatus.paid = 4
rank OrderStatus.packing = 3
rank OrderStatus.shipped = 2
rank OrderStatus.delivered = 1
rank OrderStatus.cancelled = 0
rank OrderStatus.refunded = 0

allowed-rank : (s t : OrderStatus) → is_allowed s t ≡ true → rank t < rank s
unfolding is_allowed
allowed-rank OrderStatus.pending_payment t h = ground arith
allowed-rank OrderStatus.paid t h = ground arith
allowed-rank OrderStatus.packing t h = ground arith
allowed-rank OrderStatus.shipped t h = ground arith
allowed-rank OrderStatus.delivered t h = ground arith
allowed-rank OrderStatus.cancelled t h = ground arith
allowed-rank OrderStatus.refunded t h = ground arith

-- An accepted transition is in the table, sets the status and nothing else.
pub transition_to-eq-ok :
    (t : OrderStatus) (o p : Order)
    → transition_to t o ≡ ok p
    → (is_allowed o.status t ≡ true) × (p ≡ record o { status = t })
unfolding transition_to
transition_to-eq-ok t o p h = ground arith

pub Step-rank : {o p : Order} → Step o p → rank p.status < rank o.status
Step-rank (moved o p t h) =
    let (allowed, e) = transition_to-eq-ok t o p h in
    ground (arith, allowed, e, allowed-rank o.status t allowed)

-- A delivered, cancelled or refunded order is never cancelled again, nor is a shipped one: once
-- goods have left, the order can only be delivered or refunded.
abbrev pub GoneOut : OrderStatus → Type 0
GoneOut s = (s ≡ OrderStatus.shipped) ⊎ ((s ≡ OrderStatus.delivered) ⊎ (s ≡ OrderStatus.refunded))

allowed-GoneOut : (s t : OrderStatus) → is_allowed s t ≡ true → GoneOut s → GoneOut t
unfolding is_allowed
allowed-GoneOut s OrderStatus.shipped h g = inl refl
allowed-GoneOut s OrderStatus.delivered h g = inr (inl refl)
allowed-GoneOut s OrderStatus.refunded h g = inr (inr refl)
allowed-GoneOut s OrderStatus.pending_payment h g = ground arith
allowed-GoneOut s OrderStatus.paid h g = ground arith
allowed-GoneOut s OrderStatus.packing h g = ground arith
allowed-GoneOut s OrderStatus.cancelled h g = ground arith

Step-GoneOut : {o p : Order} → Step o p → GoneOut o.status → GoneOut p.status
Step-GoneOut (moved o p t h) g =
    let (allowed, e) = transition_to-eq-ok t o p h in
    subst (λ (x : Order). GoneOut x.status) (sym e) (allowed-GoneOut o.status t allowed g)

-- Whatever transitions follow, an order that has been shipped is shipped, delivered or refunded.
pub Reaches-GoneOut : {o p : Order} → Reaches o p → GoneOut o.status → GoneOut p.status
Reaches-GoneOut here g = g
Reaches-GoneOut (next r s) g = Step-GoneOut s (Reaches-GoneOut r g)

-- A cancelled or refunded order stays exactly as it is.
pub Reaches-final : {o p : Order} → Reaches o p → rank o.status ≡ 0 → p ≡ o
Reaches-final here h = refl
Reaches-final (next r s) h =
    let same = Reaches-final r h in
    absurd (omega (arith, Step-rank s, ap (λ (x : Order). rank x.status) same))

abbrev pub steps : {o p : Order} → Reaches o p → ℕ
steps here = 0
steps (next r s) = steps r + 1

-- The transitions that lead from one order to another are at most as many as the rank of the
-- status falls; from the first status the rank is 5, so an order makes at most five.
pub steps-le-rank : {o p : Order} (r : Reaches o p) → steps r + rank p.status ≤ rank o.status
steps-le-rank here = omega arith
steps-le-rank (next r s) = omega (arith, steps-le-rank r, Step-rank s)
