-- ===== src/Cart.antt =====
-- backend/app/modules/cart/service.py: `CartService`. Its sums are in the child `Totals`.
pub mod Models
pub mod Totals
pub mod Limits
use nordmarkt.Common.{
  ℕ, ◌+◌, Bool, true, false, ◌&&◌, ◌||◌, not, Option, none, some, List, [], ◌∷◌, ◌++◌, String, min,
  leb, ltb, ◌==◌, str_eq, if◌then◌else◌, is_none, select, find, modify, any, length,
}
use nordmarkt.Common.Int.{ℤ, pos, pos_part, ltb_ℤ, leb_ℤ}
use nordmarkt.Common.Texts.{truthy}
use nordmarkt.Core.Errors.{Exception, domain, DomainError, detached_instance}
use nordmarkt.Shared.Database.{Database}
use nordmarkt.Shared.UnitOfWork.{
  World, Action, ◌>>=◌, ◌>>◌, pure, raise, raise_if, gets, or_raise, write, draw,
}
use nordmarkt.Catalog.Models.{ProductVariant}
use nordmarkt.Catalog.{get_variant}
use nordmarkt.Inventory.{sellable_map, get_count}
use Models.{Cart, CartItem, is_open}

abbrev pub max_line_quantity : ℕ
max_line_quantity = 99

abbrev pub max_distinct_lines : ℕ
max_distinct_lines = 50

-- `cart.items`, and the line of a variant in it.
abbrev pub lines_of : ℕ → List CartItem → List CartItem
lines_of cart = select λ i. i.cart_id == cart

abbrev pub is_line : ℕ → ℕ → CartItem → Bool
is_line cart variant i = i.cart_id == cart && i.variant_id == variant

abbrev pub load_cart : ℕ → Action Cart
load_cart id = do
  carts ← gets (λ db. db.carts)
  or_raise detached_instance (find (λ c. c.id == id) carts)

abbrev pub owned_by : ℕ → Cart → Bool
owned_by user c = elim c.user_id [ none ↦ false | some k ↦ k == user ]

abbrev pub has_token : String → Cart → Bool
has_token token c = elim c.anonymous_token [ none ↦ false | some t ↦ str_eq t token ]

-- The query of `resolve`.
abbrev pub find_open : Option ℕ → Option String → List Cart → Option Cart
find_open (some user) token carts = find (λ c. is_open c && owned_by user c) carts
find_open none token carts = elim (truthy token) [
  | none ↦ none
  | some t ↦ find (λ c. is_open c && has_token t c) carts
]

abbrev pub new_cart : World → ℕ → Option ℕ → Option String → Cart
new_cart w n user token = record {
  id = w.uuid4 n;
  user_id = user;
  anonymous_token = elim user [
    | some _ ↦ none
    | none ↦ elim (truthy token) [ some t ↦ some t | none ↦ some (w.token_urlsafe n) ]
  ];
  currency = "SEK";
  locale = "sv";
  checked_out_at = none;
}

abbrev pub add_cart : World → Option ℕ → Option String → Action (Option ℕ)
add_cart w user token = do
  n ← draw
  write (λ db. record db { carts = db.carts ++ new_cart w n user token ∷ [] })
  pure (some (w.uuid4 n))

-- What follows the query of `resolve`.
abbrev pub found_or_new : World → Option ℕ → Option String → Bool → Option Cart → Action (Option ℕ)
found_or_new w user token create (some c) = pure (some c.id)
found_or_new w user token create none = if create then add_cart w user token else pure none

-- `resolve` returns a reference to the cart: its id.
unfoldable pub resolve : World → Option ℕ → Option String → Bool → Action (Option ℕ)
resolve w user token create = do
  carts ← gets (λ db. db.carts)
  found_or_new w user token create (find_open user token carts)

-- One line of the guest's basket, by the line that the user's basket had of its variant.
unfoldable pub merge_line : World → ℕ → CartItem → Option CartItem → Action (Unit {0})
merge_line w target item (some m) = write λ db. record db {
  cart_items =
      modify (λ i. i.id == m.id)
        (λ i. record i { quantity = min (i.quantity + item.quantity) max_line_quantity })
        db.cart_items;
}
merge_line w target item none = do
  n ← draw
  write (λ db. record db {
    cart_items =
        db.cart_items
        ++ record {
          id = w.uuid4 n;
          cart_id = target;
          variant_id = item.variant_id;
          quantity = item.quantity;
          unit_price_minor_units = item.unit_price_minor_units;
        }
          ∷ [];
  })

-- `existing` holds the lines that the user's basket had before the loop.
unfoldable pub merge_lines : World → ℕ → List CartItem → List CartItem → Action (Unit {0})
merge_lines w target existing [] = pure tt
merge_lines w target existing (item ∷ items) =
    merge_line w target item (find (λ m. m.variant_id == item.variant_id) existing)
    >> merge_lines w target existing items

-- Deleting a cart deletes its lines.
abbrev pub delete_cart : ℕ → Database → Database
delete_cart id db = record db {
  carts = select (λ c. not (c.id == id)) db.carts;
  cart_items = select (λ i. not (i.cart_id == id)) db.cart_items;
}

abbrev pub merge_into : World → ℕ → Option ℕ → Action ℕ
merge_into w target none = pure target
merge_into w target (some guest) = if guest == target then pure target else (do
  items ← gets (λ db. db.cart_items)
  merge_lines w target (lines_of target items) (lines_of guest items)
  write (delete_cart guest)
  pure target)

unfoldable pub merge_guest_cart : World → ℕ → String → Action ℕ
merge_guest_cart w user token = do
  guest ← resolve w none (some token) false
  resolved ← resolve w (some user) none true
  target ← or_raise Exception.attribute_error resolved
  merge_into w target guest

-- `(await self._inventory.sellable_map([variant_id])).get(variant_id, 0)`
abbrev pub sellable_now : ℕ → Database → ℕ
sellable_now variant db = get_count variant (sellable_map (variant ∷ []) db.stock_items)

-- The last step of `add_item`: a new line, or the old one with its new quantity and price.
unfoldable pub put_line : World → ℕ → ProductVariant → Option CartItem → ℕ → Action (Unit {0})
put_line w cart variant none quantity = do
  items ← gets (λ db. db.cart_items)
  raise_if (leb max_distinct_lines (length (lines_of cart items)))
      (domain DomainError.validation_failed)
  n ← draw
  write (λ db. record db {
    cart_items =
        db.cart_items
        ++ record {
          id = w.uuid4 n;
          cart_id = cart;
          variant_id = variant.id;
          quantity = quantity;
          unit_price_minor_units = variant.price_minor_units;
        }
          ∷ [];
  })
put_line w cart variant (some line) quantity = write λ db. record db {
  cart_items =
      modify (is_line cart variant.id)
        (λ i. record i { quantity = quantity; unit_price_minor_units = variant.price_minor_units })
        db.cart_items;
}

abbrev pub line_quantity : Option CartItem → ℕ
line_quantity none = 0
line_quantity (some line) = line.quantity

unfoldable pub add_item : World → ℕ → ℕ → ℤ → Action ℕ
add_item w cart variant_id quantity = do
  raise_if (ltb_ℤ quantity (pos 1)) (domain DomainError.validation_failed)
  found ← get_variant variant_id
  variant ← or_raise (domain DomainError.not_found) found
  raise_if (not variant.is_active) (domain DomainError.not_found)
  items ← gets (λ db. db.cart_items)
  let line = find (is_line cart variant_id) items
  let target = min (line_quantity line + pos_part quantity) max_line_quantity
  sellable ← gets (sellable_now variant_id)
  raise_if (ltb sellable target) (domain (DomainError.insufficient_stock sellable target))
  put_line w cart variant line target
  pure cart

unfoldable pub set_quantity : ℕ → ℕ → ℤ → Action ℕ
set_quantity cart variant_id quantity = do
  items ← gets (λ db. db.cart_items)
  line ← or_raise (domain DomainError.not_found) (find (is_line cart variant_id) items)
  sellable ← gets (sellable_now variant_id)
  if leb_ℤ quantity (pos 0)
      then write (λ db. record db {
        cart_items = select (λ i. not (is_line cart variant_id i)) db.cart_items;
      })
      else raise_if (ltb sellable (pos_part quantity))
          (domain (DomainError.insufficient_stock sellable (pos_part quantity)))
        >> write (λ db. record db {
          cart_items =
              modify (is_line cart variant_id)
                (λ i. record i { quantity = min (pos_part quantity) max_line_quantity })
                db.cart_items;
        })
  pure cart

unfoldable pub clear : ℕ → Action (Unit {0})
clear cart =
    write λ db. record db { cart_items = select (λ i. not (i.cart_id == cart)) db.cart_items }
