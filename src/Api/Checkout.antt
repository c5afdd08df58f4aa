-- ===== src/Api/Checkout.antt =====
-- backend/app/api/routers/checkout.py: the checkout endpoint and the order's serialisation.
pub mod Retry
use nordmarkt.Common.{
  ℕ, Bool, true, false, Option, none, some, List, [], ◌∷◌, String, str_eq, ◌==◌, if◌then◌else◌, map,
  select, find,
}
use nordmarkt.Common.Int.{ℤ, pos}
use nordmarkt.Core.Errors.{
  Exception, Result, ok, err, domain, DomainError, ◌>>=◌ as bind_result, traverse,
}
use nordmarkt.Core.Money.{Money, make}
use nordmarkt.Core.Idempotency.{Redis, Codec, claim, complete, release}
use nordmarkt.Shared.Database.{Database}
use nordmarkt.Shared.Localization.{resolve_translation, Translated}
use nordmarkt.Shared.UnitOfWork.{
  World, UnitOfWork, Action, ◌>>=◌, ◌>>◌, pure, or_raise, begin, commit, raise_if, gets,
  within_transaction,
}
use nordmarkt.Cart.{resolve}
use nordmarkt.Identity.Models.{AddressSnapshot}
use nordmarkt.Orders.Models.{Order, OrderItem, OrderStatus}
use nordmarkt.Core.Pagination.{Base64, JsonCodec, Times}
use nordmarkt.Orders.Queries.{vat_breakdown, get_for_customer, list_for_customer}
use nordmarkt.Orders.{CheckoutOptions, place_order, load_order, cancel}
use nordmarkt.Payments.Models.{Payment}
use nordmarkt.Payments.{PaymentGateway, start}

-- A price of a response: `MoneyOut.of` checks the currency, and its `amount` and `formatted` are
-- functions of what is kept here.
pub record OrderLineOut : Type 0 where
  pub sku : String
  pub title : String
  pub options : Translated
  pub image_url : Option String
  pub quantity : ℕ
  pub unit_price : Money
  pub line_total : Money

pub record OrderOut : Type 0 where
  pub order_number : String
  pub status : OrderStatus
  pub currency : String
  pub placed_at : Option ℕ
  pub lines : List OrderLineOut
  pub subtotal : Money
  pub vat : Money
  pub shipping : Money
  pub total : Money
  pub vat_breakdown : List (ℕ × ℤ)
  pub shipping_address : AddressSnapshot
  pub payment_redirect_url : Option String

unfoldable pub serialise_lines : String → String → List OrderItem → Result (List OrderLineOut)
serialise_lines currency locale [] = ok []
serialise_lines currency locale (i ∷ items) =
    bind_result (make (pos i.unit_price_minor_units) currency) λ unit.
      bind_result (make i.line_total_minor_units currency) λ line.
        bind_result (serialise_lines currency locale items) λ rest. ok (
          record {
            sku = i.sku;
            title = resolve_translation (some i.title_snapshot) locale;
            options = i.options_snapshot;
            image_url = i.image_url;
            quantity = i.quantity;
            unit_price = unit;
            line_total = line;
          }
          ∷ rest)

-- `_serialise_order`
unfoldable pub serialise_order : Order → List OrderItem → String → Option String → Result OrderOut
unfolding serialise_lines
serialise_order order items locale redirect =
    bind_result (serialise_lines order.currency locale items) λ lines.
      bind_result (make order.subtotal_minor_units order.currency) λ subtotal.
        bind_result (make order.vat_minor_units order.currency) λ vat.
          bind_result (make order.shipping_minor_units order.currency) λ shipping.
            bind_result (make order.total_minor_units order.currency) λ total.
              bind_result (vat_breakdown order items) λ buckets. ok (record {
                order_number = order.order_number;
                status = order.status;
                currency = order.currency;
                placed_at = order.placed_at;
                lines = lines;
                subtotal = subtotal;
                vat = vat;
                shipping = shipping;
                total = total;
                vat_breakdown = buckets;
                shipping_address = order.shipping_address;
                payment_redirect_url = redirect;
              })

abbrev pub items_of : ℕ → List OrderItem → List OrderItem
items_of order = select λ i. i.order_id == order

-- What the `try` block does before it commits: the order and its payment.
unfoldable pub prepare :
    World → PaymentGateway → ℕ → Option String → CheckoutOptions → Action (ℕ × Payment)
prepare w g user nm_cart options = do
  found ← resolve w (some user) nm_cart false
  cart ← or_raise (domain DomainError.not_found) found
  order_id ← place_order w cart user options
  order ← load_order order_id
  payment ← start w g order
  pure (order_id, payment)

-- The whole `try` block.
unfoldable pub place_and_pay :
    World → PaymentGateway → ℕ → Option String → CheckoutOptions → Action (ℕ × Payment)
place_and_pay w g user nm_cart options = do p ← prepare w g user nm_cart options; commit w; pure p

-- The response, read in the session after the commit.
unfoldable pub respond : String → ℕ × Payment → Database → Result OrderOut
respond locale (order_id, payment) db = elim (find (λ o. o.id == order_id) db.orders) [
  | none ↦ err Exception.detached_instance
  | some order ↦
      serialise_order order (items_of order_id db.order_items) locale (some payment.redirect_url)
]

-- The idempotency key of a request: a header that is missing or empty is refused.
abbrev pub required_key : Option String → Option String
required_key none = none
required_key (some k) = if str_eq k "" then none else some k

module _ (r : Redis) (c : Codec OrderOut) where
  -- After the transaction: a failure frees the key, a success stores the response.
  abbrev pub finish :
      ℕ
      → String
      → String
      → Result (ℕ × Payment) × UnitOfWork
      → r.Keys
      → Result OrderOut × Database × r.Keys
  finish now key locale (err e, u) keys = (err e, u.committed, release r c now "checkout" key keys)
  finish now key locale (ok p, u) keys = elim (respond locale p u.session) [
    | err e ↦ (err e, u.committed, keys)
    | ok out ↦ (ok out, u.committed, complete r c now "checkout" key out keys)
  ]

  -- `checkout`: the response, the database and the keys that the request leaves behind. `drawn` is
  -- the number of its first random draw.
  unfoldable pub checkout :
      World
      → PaymentGateway
      → ℕ
      → Option String
      → Option String
      → CheckoutOptions
      → ℕ
      → Database × r.Keys
      → Result OrderOut × Database × r.Keys
  unfolding respond
  checkout w g user idempotency_key nm_cart options drawn (db, keys) =
      elim (required_key idempotency_key) [
        | none ↦ (err (domain DomainError.validation_failed), db, keys)
        | some key ↦
            let (claimed, keys') = claim r c w.now "checkout" key keys in
            elim claimed [
              | err e ↦ (err e, db, keys')
              | ok (some cached) ↦ (ok cached, db, keys')
              | ok none ↦
                  finish w.now key options.locale
                    (place_and_pay w g user nm_cart options (begin db drawn)) keys'
            ]
      ]

-- `cancel_order`
unfoldable pub cancel_order : World → String → ℕ → Action ℕ
cancel_order w number user = do
  orders ← gets (λ db. db.orders)
  order ← nordmarkt.Shared.UnitOfWork.lift (get_for_customer number user orders)
  cancel w order.id "cancelled_by_customer"
  commit w
  pure order.id

-- The response to `cancel_order`.
unfoldable pub answer_cancel :
    World → String → ℕ → String → Database → ℕ → Result OrderOut × Database
unfolding serialise_order
answer_cancel w number user locale = within_transaction do
  id ← cancel_order w number user
  order ← load_order id
  items ← gets (λ db. items_of id db.order_items)
  nordmarkt.Shared.UnitOfWork.lift (serialise_order order items locale none)

-- An order as the lists show it, without a redirect.
abbrev pub show_order : Database → String → Order → Result OrderOut
show_order db locale order = serialise_order order (items_of order.id db.order_items) locale none

-- `get_order`
unfoldable pub get_order : Database → String → String → ℕ → Result OrderOut
unfolding serialise_order
get_order db locale number user =
    bind_result (get_for_customer number user db.orders) (show_order db locale)

-- `list_orders`. The page's own cursor is left out.
unfoldable pub list_orders :
    Base64
    → JsonCodec String
    → Times
    → Database
    → String
    → ℕ
    → ℕ
    → Option (List ℕ)
    → Result (List OrderOut)
unfolding serialise_order
list_orders b j d db locale user limit cursor =
    bind_result (list_for_customer b j d user limit cursor db.orders)
      (λ page. traverse (show_order db locale) page.items)
