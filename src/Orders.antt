-- ===== src/Orders.antt =====
-- backend/app/modules/orders/service.py: `CheckoutService`. The queries are in the child `Queries`.
pub mod Models
pub mod Queries
pub mod Atomic
pub mod Lifecycle
pub mod Settlement
pub mod Placement
use nordmarkt.Common.{
  ℕ, Bool, true, false, ◌&&◌, ◌||◌, not, Option, none, some, List, [], ◌∷◌, ◌++◌, String, ◌==◌,
  if◌then◌else◌, select, find, modify, map,
}
use nordmarkt.Common.Int.{ℤ, pos, leb_ℤ}
use nordmarkt.Core.Errors.{Exception, domain, DomainError, detached_instance, integrity_error}
use nordmarkt.Core.Money.{Money, make, times}
use nordmarkt.Shared.Events.{EventBody}
use nordmarkt.Shared.UnitOfWork.{
  World, Action, ◌>>=◌, ◌>>◌, pure, raise, raise_if, gets, or_raise, lift, write, draw, emit,
}
use nordmarkt.Catalog.Models.{ProductVariant, Product}
use nordmarkt.Catalog.{fetch_variants, get_variants, variant_by_id}
use nordmarkt.Cart.Models.{CartItem}
use nordmarkt.Cart.{load_cart, lines_of}
use nordmarkt.Cart.Totals.{repricing_report, totals, variant_ids, CartTotals}
use nordmarkt.Inventory.Models.{StockReservation, is_open}
use nordmarkt.Inventory.{reserve, release, commit_reservation, for_each}
use nordmarkt.Identity.Models.{Address, snapshot}
use Models.{Order, OrderItem, OrderStatus, transition_to}

-- `_load_address`
unfoldable pub load_address : ℕ → ℕ → Action Address
load_address address_id user_id = do
  addresses ← gets (λ db. db.addresses)
  address ← or_raise (domain DomainError.not_found) (find (λ a. a.id == address_id) addresses)
  raise_if (not (address.user_id == user_id)) (domain DomainError.forbidden)
  pure address

-- The arguments of `place_order` beside the cart and the user.
pub record CheckoutOptions : Type 0 where
  pub shipping_address_id : ℕ
  pub billing_address_id : Option ℕ
  pub shipping_method : String
  pub accept_price_changes : Bool
  pub locale : String

-- The billing address is loaded if one is named that is not the shipping address.
abbrev pub load_billing : Option ℕ → ℕ → ℕ → Address → Action Address
load_billing none shipping_id user_id shipping = pure shipping
load_billing (some id) shipping_id user_id shipping =
    if id == shipping_id then pure shipping else load_address id user_id

abbrev pub first_image : Product → Option String
first_image p = elim p.images [ [] ↦ none | image ∷ _ ↦ some image.url ]

-- One line of the cart: stock is reserved, then the line is copied onto the order.
unfoldable pub order_line : World → ℕ → List ProductVariant → CartItem → Action (Unit {0})
order_line w order_id variants line = do
  variant ← or_raise (domain DomainError.not_found) (variant_by_id line.variant_id variants)
  raise_if (not variant.is_active) (domain DomainError.not_found)
  reserve w variant.id line.quantity none (some order_id)
  unit ← lift (make (pos variant.price_minor_units) variant.currency)
  products ← gets (λ db. db.products)
  product ← or_raise Exception.attribute_error (find (λ p. p.id == variant.product_id) products)
  line_total ← lift (times unit (pos line.quantity))
  n ← draw
  write (λ db. record db {
    order_items =
        db.order_items
        ++ record {
          id = w.uuid4 n;
          order_id = order_id;
          variant_id = variant.id;
          sku = variant.sku;
          title_snapshot = product.title;
          options_snapshot = variant.options;
          image_url = first_image product;
          quantity = line.quantity;
          unit_price_minor_units = variant.price_minor_units;
          vat_rate = variant.vat_rate;
          line_total_minor_units = line_total.minor_units;
        }
          ∷ [];
  })

unfoldable pub order_lines : World → ℕ → List ProductVariant → List CartItem → Action (Unit {0})
order_lines w order_id variants [] = pure tt
order_lines w order_id variants (line ∷ lines) =
    order_line w order_id variants line >> order_lines w order_id variants lines

-- The row of a new order.
abbrev pub new_order :
    World → ℕ → CheckoutOptions → ℕ → String → CartTotals → Address → Address → Order
new_order w n o user_id currency t shipping billing = record {
  id = w.uuid4 n;
  order_number = w.order_number n;
  customer_id = user_id;
  status = OrderStatus.pending_payment;
  currency = currency;
  locale = o.locale;
  subtotal_minor_units = t.subtotal.minor_units;
  vat_minor_units = t.vat.minor_units;
  shipping_minor_units = t.shipping.minor_units;
  discount_minor_units = pos 0;
  total_minor_units = t.total.minor_units;
  shipping_address = snapshot shipping;
  billing_address = snapshot billing;
  shipping_method = o.shipping_method;
  created_at = w.now;
  placed_at = some w.now;
  paid_at = none;
  cancelled_at = none;
  cancellation_reason = none;
}

-- The steps before anything is written: the guards, the addresses, the variants and the totals.
abbrev pub is_empty {ℓ} : {A : Type ℓ} → List A → Bool
is_empty [] = true
is_empty (_ ∷ _) = false

-- `place_order` returns the order's id.
unfoldable pub place_order : World → ℕ → ℕ → CheckoutOptions → Action ℕ
place_order w cart_id user_id o = do
  cart ← load_cart cart_id
  items ← gets (λ db. db.cart_items)
  let lines = lines_of cart_id items
  raise_if (is_empty lines) (domain DomainError.cart_empty)
  table ← gets (λ db. db.variants)
  raise_if (not (is_empty (repricing_report lines table)) && not o.accept_price_changes)
      (domain DomainError.price_changed)
  shipping ← load_address o.shipping_address_id user_id
  billing ← load_billing o.billing_address_id o.shipping_address_id user_id shipping
  variants ← get_variants (variant_ids lines)
  t ← lift (totals cart.currency lines table)
  n ← draw
  raise_if (not (leb_ℤ (pos 0) t.total.minor_units)) integrity_error
  let order = new_order w n o user_id cart.currency t shipping billing
  write (λ db. record db { orders = db.orders ++ order ∷ [] })
  order_lines w order.id variants lines
  write (λ db. record db {
    carts = modify (λ c. c.id == cart_id) (λ c. record c { checked_out_at = some w.now }) db.carts;
  })
  emit w order.id (
      EventBody.order_placed order.order_number user_id order.total_minor_units order.currency
        o.locale)
  pure order.id

-- The session's order behind a reference.
abbrev pub load_order : ℕ → Action Order
load_order id = do
  orders ← gets (λ db. db.orders)
  or_raise detached_instance (find (λ o. o.id == id) orders)

abbrev pub save_order : Order → Action (Unit {0})
save_order order =
    write λ db. record db { orders = modify (λ o. o.id == order.id) (λ _. order) db.orders }

-- `_reservations_for`, as references.
abbrev pub is_held_for : ℕ → StockReservation → Bool
is_held_for order_id r = elim r.order_id [ none ↦ false | some k ↦ k == order_id ] && is_open r

abbrev pub reservations_for : ℕ → Action (List ℕ)
reservations_for order_id =
    gets λ db. map (λ r. r.id) (select (is_held_for order_id) db.reservations)

unfoldable pub mark_paid : World → ℕ → String → Action (Unit {0})
mark_paid w order_id payment_reference = do
  order ← load_order order_id
  moved ← lift (transition_to OrderStatus.paid order)
  save_order (record moved { paid_at = some w.now })
  held ← reservations_for order_id
  for_each (commit_reservation w) held
  emit w order_id (EventBody.order_paid order.order_number payment_reference)

unfoldable pub cancel : World → ℕ → String → Action (Unit {0})
cancel w order_id reason = do
  order ← load_order order_id
  moved ← lift (transition_to OrderStatus.cancelled order)
  save_order (record moved { cancelled_at = some w.now; cancellation_reason = some reason })
  held ← reservations_for order_id
  for_each (release w) held
  emit w order_id (EventBody.order_cancelled order.order_number reason)
