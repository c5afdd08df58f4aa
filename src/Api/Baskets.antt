-- ===== src/Api/Baskets.antt =====
-- backend/app/api/routers/cart.py: what a basket looks like, and the requests that read and change it.
pub mod Sums
use nordmarkt.Common.{
  ℕ, ◌*◌, Bool, true, false, not, Option, none, some, List, [], ◌∷◌, ◌++◌, String, ◌==◌, str_eq,
  if◌then◌else◌, find, select,
}
use nordmarkt.Common.Int.{ℤ, pos, ◌-ℤ◌, ltb_ℤ}
use nordmarkt.Common.Texts.{truthy}
use nordmarkt.Core.Errors.{Exception, Result, ok, err, domain, DomainError, ◌>>=◌ as bind_result}
use nordmarkt.Shared.Database.{Database}
use nordmarkt.Shared.Localization.{resolve_translation, Translated}
use nordmarkt.Shared.UnitOfWork.{
  World, Action, ◌>>=◌, ◌>>◌, pure, or_raise, lift, gets, commit, within_transaction,
}
use nordmarkt.Catalog.Models.{Product, ProductVariant, ProductImage}
use nordmarkt.Catalog.{fetch_variants, variant_by_id}
use nordmarkt.Catalog.Prices.{MoneyOut, money_out}
use nordmarkt.Cart.Models.{Cart, CartItem}
use nordmarkt.Cart.Totals.{CartTotals, totals, variant_ids, free_shipping_threshold}
use nordmarkt.Cart.{resolve, load_cart, lines_of, add_item, set_quantity, clear}

pub record CartLineOut : Type 0 where
  pub variant_id : ℕ
  pub sku : String
  pub title : String
  pub options : Translated
  pub image_url : Option String
  pub quantity : ℕ
  pub unit_price : MoneyOut
  pub line_total : MoneyOut
  pub price_changed : Bool

pub record CartOut : Type 0 where
  pub id : ℕ
  pub currency : String
  pub item_count : ℕ
  pub lines : List CartLineOut
  pub subtotal : MoneyOut
  pub vat_included : MoneyOut
  pub shipping : MoneyOut
  pub total : MoneyOut
  pub free_shipping_remaining : Option MoneyOut

abbrev pub first_url : List ProductImage → Option String
first_url [] = none
first_url (i ∷ is) = some i.url

abbrev pub line_of_product :
    String → CartItem → ProductVariant → Option Product → Result (List CartLineOut)
line_of_product locale item v none = err Exception.attribute_error
line_of_product locale item v (some product) =
    bind_result (money_out (pos v.price_minor_units) v.currency locale) λ unit.
      bind_result (money_out (pos (v.price_minor_units * item.quantity)) v.currency locale) λ total.
        ok (
          record {
            variant_id = v.id;
            sku = v.sku;
            title = resolve_translation (some product.title) locale;
            options = v.options;
            image_url = first_url product.images;
            quantity = item.quantity;
            unit_price = unit;
            line_total = total;
            price_changed = not (v.price_minor_units == item.unit_price_minor_units);
          }
          ∷ [])

-- One round of the loop over the lines; a line whose variant is gone is passed over.
unfoldable pub line_out :
    Database → String → CartItem → Option ProductVariant → Result (List CartLineOut)
line_out db locale item none = ok []
line_out db locale item (some v) =
    line_of_product locale item v (find (λ p. p.id == v.product_id) db.products)

unfoldable pub lines_out :
    Database → String → List ProductVariant → List CartItem → Result (List CartLineOut)
unfolding line_out
lines_out db locale variants [] = ok []
lines_out db locale variants (item ∷ items) =
    bind_result (line_out db locale item (variant_by_id item.variant_id variants))
      λ line. bind_result (lines_out db locale variants items) λ rest. ok (line ++ rest)

-- What is missing for free shipping, if anything is.
abbrev pub remaining_out : ℤ → String → String → Result (Option MoneyOut)
remaining_out n currency locale =
    if ltb_ℤ (pos 0) n
    then bind_result (money_out n currency locale) (λ m. ok (some m))
    else ok none

abbrev pub cart_out : Cart → String → List CartLineOut → CartTotals → Result CartOut
cart_out cart locale lines t =
    bind_result (money_out t.subtotal.minor_units cart.currency locale) λ subtotal.
      bind_result (money_out t.vat.minor_units cart.currency locale) λ vat.
        bind_result (money_out t.shipping.minor_units cart.currency locale) λ shipping.
          bind_result (money_out t.total.minor_units cart.currency locale) λ total.
            bind_result
              (remaining_out (free_shipping_threshold.minor_units -ℤ t.subtotal.minor_units)
                cart.currency locale)
              λ remaining. ok (record {
                id = cart.id;
                currency = cart.currency;
                item_count = t.item_count;
                lines = lines;
                subtotal = subtotal;
                vat_included = vat;
                shipping = shipping;
                total = total;
                free_shipping_remaining = remaining;
              })

-- `_serialise`
unfoldable pub serialise_cart : Cart → String → Database → Result CartOut
unfolding lines_out
serialise_cart cart locale db =
    let items = lines_of cart.id db.cart_items in
    let variants = fetch_variants (variant_ids items) db.variants in
    bind_result (totals cart.currency items db.variants)
      λ t. bind_result (lines_out db locale variants items) λ lines. cart_out cart locale lines t

-- The cookie that a response sets: the token of a guest's basket, unless the request came with it.
abbrev pub new_cookie : Cart → Option String → Option String
new_cookie cart nm_cart = elim (truthy cart.anonymous_token) [
  | none ↦ none
  | some token ↦ elim nm_cart [
    | none ↦ some token
    | some sent ↦ if str_eq token sent then none else some token
  ]
]

-- The response, read in the session after the commit.
abbrev pub show_cart : ℕ → String → Action CartOut
show_cart id locale = do cart ← load_cart id; out ← gets (serialise_cart cart locale); lift out

-- `read_cart`, for the user that the request has, if any: the response and its cookie.
unfoldable pub read_cart :
    World
    → Option ℕ
    → Option String
    → String
    → Database
    → ℕ
    → Result (CartOut × Option String) × Database
unfolding serialise_cart
read_cart w user nm_cart locale = within_transaction do
  found ← resolve w user nm_cart true
  id ← or_raise Exception.attribute_error found
  cart ← load_cart id
  commit w
  out ← show_cart id locale
  pure (out, new_cookie cart nm_cart)

-- `add_item`
unfoldable pub add_to_cart :
    World
    → Option ℕ
    → Option String
    → String
    → ℕ
    → ℤ
    → Database
    → ℕ
    → Result (CartOut × Option String) × Database
unfolding serialise_cart
add_to_cart w user nm_cart locale variant_id quantity = within_transaction do
  found ← resolve w user nm_cart true
  id ← or_raise Exception.attribute_error found
  add_item w id variant_id quantity
  cart ← load_cart id
  commit w
  out ← show_cart id locale
  pure (out, new_cookie cart nm_cart)

-- `set_quantity`
unfoldable pub change_quantity :
    World → Option ℕ → Option String → String → ℕ → ℤ → Database → ℕ → Result CartOut × Database
unfolding serialise_cart
change_quantity w user nm_cart locale variant_id quantity = within_transaction do
  found ← resolve w user nm_cart false
  id ← or_raise (domain DomainError.not_found) found
  set_quantity id variant_id quantity
  commit w
  show_cart id locale

-- `clear_cart`
unfoldable pub clear_cart :
    World → Option ℕ → Option String → Database → ℕ → Result (Unit {0}) × Database
clear_cart w user nm_cart = within_transaction do
  found ← resolve w user nm_cart false
  elim found [ none ↦ pure tt | some id ↦ (do clear id; commit w) ]
