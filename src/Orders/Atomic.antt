-- ===== src/Orders/Atomic.antt =====
-- Checkout's calls write to the session only, and they keep the books of the stock balanced,
-- whether they return or raise.
use nordmarkt.Common.{ℕ, ◌≡◌, refl, Option, none, some, List, [], ◌∷◌, String}
use nordmarkt.Shared.Database.{Database}
use nordmarkt.Shared.UnitOfWork.{World, UnitOfWork}
use nordmarkt.Shared.UnitOfWork.Keeps.{
  Keeps, Keeps-pure, Keeps-bind, Keeps-write, Apart, apart_rules, keeps_rules,
}
use nordmarkt.Inventory.{reserve, release}
use nordmarkt.Inventory.Apart.{
  Keeps-for_each, reserve-Apart, release-Apart, commit_reservation-Apart,
}
use nordmarkt.Inventory.Books.{InBalance, reserve-InBalance, release-InBalance}
use nordmarkt.Identity.Models.{Address}
use nordmarkt.Catalog.{get_variants}
use nordmarkt.Catalog.Models.{ProductVariant}
use nordmarkt.Cart.Models.{CartItem}
use nordmarkt.Orders.{
  CheckoutOptions, load_address, load_billing, order_line, order_lines, place_order, mark_paid,
  cancel,
}

-- The books, as a property of what the session sees.
abbrev pub Books : Database → Database → Type 0
Books committed session = InBalance session

reserve-Books :
    (w : World) (v q : ℕ) (cart order : Option ℕ) → Keeps Books (reserve w v q cart order)
reserve-Books w v q cart order = record { at = λ u b. reserve-InBalance w v q cart order u b }

release-Books : (w : World) (id : ℕ) → Keeps Books (release w id)
release-Books w id = record { at = λ u b. release-InBalance w id u b }

module _ {P : Database → Database → Type 0} where
  pub load_address-Keeps : (address user : ℕ) → Keeps P (load_address address user)
  unfolding load_address
  load_address-Keeps address user = search keeps_rules depth 9

  pub load_billing-Keeps :
      (billing : Option ℕ) (id user : ℕ) (shipping : Address)
      → Keeps P (load_billing billing id user shipping)
  load_billing-Keeps none id user shipping = Keeps-pure shipping
  load_billing-Keeps (some k) id user shipping = search (keeps_rules, load_address-Keeps)

  pub get_variants-Keeps : (ids : List ℕ) → Keeps P (get_variants ids)
  unfolding get_variants
  get_variants-Keeps ids = search keeps_rules

module _ {base : Database} where
  order_line-Apart :
      (w : World) (order : ℕ) (variants : List ProductVariant) (line : CartItem)
      → Keeps (Apart base) (order_line w order variants line)
  unfolding order_line
  order_line-Apart w order variants line = search (apart_rules, reserve-Apart) depth 16

  order_lines-Apart :
      (w : World) (order : ℕ) (variants : List ProductVariant) (lines : List CartItem)
      → Keeps (Apart base) (order_lines w order variants lines)
  unfolding order_lines
  order_lines-Apart w order variants [] = Keeps-pure tt
  order_lines-Apart w order variants (line ∷ lines) =
      Keeps-bind _ _ (order_line-Apart w order variants line)
        (λ _. order_lines-Apart w order variants lines)

pub order_line-Books :
    (w : World) (order : ℕ) (variants : List ProductVariant) (line : CartItem)
    → Keeps Books (order_line w order variants line)
unfolding order_line
order_line-Books w order variants line = search (keeps_rules, Keeps-write, reserve-Books) depth 16

order_lines-Books :
    (w : World) (order : ℕ) (variants : List ProductVariant) (lines : List CartItem)
    → Keeps Books (order_lines w order variants lines)
unfolding order_lines
order_lines-Books w order variants [] = Keeps-pure tt
order_lines-Books w order variants (line ∷ lines) =
    Keeps-bind _ _ (order_line-Books w order variants line)
      (λ _. order_lines-Books w order variants lines)

pub ruleset reads = (load_address-Keeps, load_billing-Keeps, get_variants-Keeps)

-- Placing an order writes nothing that others see.
pub place_order-Apart :
    {base : Database} (w : World) (cart user : ℕ) (o : CheckoutOptions)
    → Keeps (Apart base) (place_order w cart user o)
unfolding place_order
place_order-Apart w cart user o = search (apart_rules, reads, order_lines-Apart) depth 30

-- Placing an order keeps the books balanced, whether it succeeds or stops at any line.
pub place_order-Books :
    (w : World) (cart user : ℕ) (o : CheckoutOptions) → Keeps Books (place_order w cart user o)
unfolding place_order
place_order-Books w cart user o =
    search (keeps_rules, Keeps-write, reads, order_lines-Books) depth 30

pub cancel-Books : (w : World) (order : ℕ) (reason : String) → Keeps Books (cancel w order reason)
unfolding cancel
cancel-Books w order reason =
    search (keeps_rules, Keeps-write, release-Books, Keeps-for_each) depth 20

pub cancel-Apart :
    {base : Database} (w : World) (order : ℕ) (reason : String)
    → Keeps (Apart base) (cancel w order reason)
unfolding cancel
cancel-Apart w order reason = search (apart_rules, release-Apart, Keeps-for_each) depth 20

pub mark_paid-Apart :
    {base : Database} (w : World) (order : ℕ) (reference : String)
    → Keeps (Apart base) (mark_paid w order reference)
unfolding mark_paid
mark_paid-Apart w order reference =
    search (apart_rules, commit_reservation-Apart, Keeps-for_each) depth 20

-- Placing an order keeps the books balanced and writes nothing that others see before the commit,
-- whether it succeeds or stops at any guard or at any line.
pub place_order-InBalance :
    (w : World) (cart user : ℕ) (o : CheckoutOptions) (u : UnitOfWork)
    → InBalance u.session
    → InBalance (place_order w cart user o u).1.session
      × ((place_order w cart user o u).1.committed ≡ u.committed)
place_order-InBalance w cart user o u b =
    ((place_order-Books w cart user o).at u b, (place_order-Apart w cart user o).at u refl)

-- Cancelling an order keeps the books balanced and writes nothing that others see before the
-- commit, whatever the order and whether it returns or raises.
pub cancel-InBalance :
    (w : World) (order : ℕ) (reason : String) (u : UnitOfWork)
    → InBalance u.session
    → InBalance (cancel w order reason u).1.session
      × ((cancel w order reason u).1.committed ≡ u.committed)
cancel-InBalance w order reason u b =
    ((cancel-Books w order reason).at u b, (cancel-Apart w order reason).at u refl)
