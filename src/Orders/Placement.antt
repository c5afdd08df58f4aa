-- ===== src/Orders/Placement.antt =====
-- What `place_order` of backend/app/modules/orders/service.py holds for the order that it returns.
use nordmarkt.Common.{
  ℕ, ◌+◌, ◌≡◌, refl, sym, subst, none, some, List, [], ◌∷◌, ◌++◌, arith, if◌then◌else◌,
  Option-cases, inl, inr, find,
}
use nordmarkt.Core.Errors.{Result, ok, err}
use nordmarkt.Shared.UnitOfWork.{
  World, UnitOfWork, Action, ◌>>=◌, ◌>>◌, continue, gets, write, emit, pure,
}
use nordmarkt.Inventory.Models.{StockReservation}
use nordmarkt.Inventory.{reserve, has_room, new_reservation}
use nordmarkt.Inventory.Books.{InBalance}
use nordmarkt.Inventory.Calls.{reserve_refused, reserve_granted}
use nordmarkt.Catalog.Models.{ProductVariant}
use nordmarkt.Catalog.{variant_by_id}
use nordmarkt.Cart.Models.{CartItem}
use nordmarkt.Orders.{CheckoutOptions, order_line, order_lines, is_held_for, place_order}
use nordmarkt.Shared.Database.{Database}
use nordmarkt.Shared.Events.{EventBody}
use nordmarkt.Shared.UnitOfWork.Keeps.{Keeps, keeps_rules, Keeps-write}
use nordmarkt.Cart.{lines_of}
use nordmarkt.Orders.Atomic.{order_line-Books, reads}

-- The pieces that the open reservations of an order hold.
abbrev pub held_for : ℕ → List StockReservation → ℕ
held_for o [] = 0
held_for o (r ∷ rs) = (if is_held_for o r then r.quantity else 0) + held_for o rs

held_for-append :
    (o : ℕ) (rs : List StockReservation) (r : StockReservation)
    → held_for o (rs ++ r ∷ []) ≡ held_for o rs + (if is_held_for o r then r.quantity else 0)
held_for-append o [] r = ground arith
held_for-append o (x ∷ xs) r = ground (arith, held_for-append o xs r)

abbrev held_at : ℕ → UnitOfWork → ℕ
held_at o u = held_for o u.session.reservations

-- A call that returns has put `q` pieces more on hold for the order.
abbrev Grown {ℓ} : {A : Type ℓ} → ℕ → ℕ → Result A × UnitOfWork → UnitOfWork → Type 0
Grown o q (ok _, u') u = held_at o u' ≡ held_at o u + q
Grown o q (err _, u') u = Unit

reserve-Grown :
    (w : World) (v q o : ℕ) (u : UnitOfWork)
    → InBalance u.session
    → Grown o q (reserve w v q none (some o) u) u
reserve-Grown w v q o u b = elim (Option-cases (find (has_room v q) u.session.stock_items)) [
  | inl e ↦ ground (arith, reserve_refused w v q none (some o) u b.stocked e)
  | inr (row, e) ↦ ground (
    arith,
    reserve_granted w v q none (some o) u row b.stocked e,
    held_for-append o u.session.reservations
        (new_reservation w (w.uuid4 u.drawn) v q none (some o)),
  )
]

order_line-Grown :
    (w : World) (o : ℕ) (vs : List ProductVariant) (line : CartItem) (u : UnitOfWork)
    → InBalance u.session
    → Grown o line.quantity (order_line w o vs line u) u
unfolding order_line ◌>>=◌
order_line-Grown w o vs line u b = elim (Option-cases (variant_by_id line.variant_id vs)) [
  | inl e ↦ ground (arith, e)
  | inr (v, e) ↦ ground (arith, e, reserve-Grown w v.id line.quantity o u b)
]

-- The pieces in a list of lines.
abbrev pub pieces_of : List CartItem → ℕ
pieces_of [] = 0
pieces_of (l ∷ ls) = l.quantity + pieces_of ls

order_lines-Grown :
    (w : World) (o : ℕ) (vs : List ProductVariant) (lines : List CartItem) (u : UnitOfWork)
    → InBalance u.session
    → Grown o (pieces_of lines) (order_lines w o vs lines u) u
unfolding order_lines ◌>>=◌
order_lines-Grown w o vs [] u b = ground arith
order_lines-Grown w o vs (l ∷ ls) u b = ground (
  arith,
  order_line-Grown w o vs l u b,
  order_lines-Grown w o vs ls (order_line w o vs l u).1 ((order_line-Books w o vs l).at u b),
)

-- The order that is returned holds `q` pieces more than before.
abbrev pub Placed : List StockReservation → ℕ → Result ℕ × UnitOfWork → Type 0
Placed rs q (ok id, u') = held_at id u' ≡ held_for id rs + q
Placed rs q (err _, u') = Unit

module _ (w : World) (cart user : ℕ) (o : CheckoutOptions) (rs : List StockReservation)
    (cs : List CartItem) where
  abbrev Start : Database → Database → Type 0
  Start committed session =
      InBalance session × (session.reservations ≡ rs) × (session.cart_items ≡ cs)

  record Leads (m : Action ℕ) : Type 0 where
    at :
        (u : UnitOfWork)
        → Start u.committed u.session
        → Placed rs (pieces_of (lines_of cart cs)) (m u)

  continue-Leads :
      {A : Type 0} (r : Result A) (f : A → Action ℕ) (u : UnitOfWork)
      → ((a : A) → Leads (f a))
      → Start u.committed u.session
      → Placed rs (pieces_of (lines_of cart cs)) (continue r f u)
  continue-Leads (ok a) f u lead s = (lead a).at u s
  continue-Leads (err e) f u lead s = tt

  Leads-bind :
      {A : Type 0} (m : Action A) (f : A → Action ℕ)
      → Keeps Start m
      → ((a : A) → Leads (f a))
      → Leads (m >>= f)
  unfolding ◌>>=◌
  Leads-bind m f km lead = record { at = λ u s. continue-Leads (m u).0 f (m u).1 lead (km.at u s) }

  Leads-cart_items :
      (f : List CartItem → Action ℕ) → Leads (f cs) → Leads (gets (λ db. db.cart_items) >>= f)
  unfolding ◌>>=◌
  Leads-cart_items f lead = record {
    at = λ u s.
        subst (λ x. Placed rs (pieces_of (lines_of cart cs)) (f x u)) (sym s.2) (lead.at u s);
  }

  Leads-lines :
      (id : ℕ) (vs : List ProductVariant) (f : Database → Database) (body : EventBody)
      → ((db : Database) → (f db).reservations ≡ db.reservations)
      → Leads (order_lines w id vs (lines_of cart cs) >> (write f >> (emit w id body >> pure id)))
  unfolding ◌>>=◌
  Leads-lines id vs f body same = record {
    at = λ u s. ground (
      arith,
      s,
      order_lines-Grown w id vs (lines_of cart cs) u s.0,
      same (order_lines w id vs (lines_of cart cs) u).1.session,
    );
  }

  place_order-Leads : Leads (place_order w cart user o)
  unfolding place_order
  place_order-Leads = Leads-bind _ _ (search keeps_rules depth 9) (λ c.
      Leads-cart_items _
        (search (Leads-bind, Leads-lines, keeps_rules, Keeps-write, reads) depth 40))

-- Where the books balance, an order that is placed holds, in open reservations of its own, as many
-- pieces more than before as the lines of the basket have together.
pub place_order-Placed :
    (w : World) (cart user : ℕ) (o : CheckoutOptions) (u : UnitOfWork)
    → InBalance u.session
    → Placed u.session.reservations
        (pieces_of (lines_of cart u.session.cart_items))
        (place_order w cart user o u)
place_order-Placed w cart user o u b =
    (place_order-Leads w cart user o u.session.reservations u.session.cart_items).at u
      (b, refl, refl)
