-- ===== src/Cart/Limits.antt =====
-- What the calls of `CartService` in backend/app/modules/cart/service.py keep of every cart: its
-- lines have quantities of 1 to 99, and there are at most fifty of them.
use nordmarkt.Common.{
  ℕ, zero, suc, ◌+◌, ◌≤◌, ◌<◌, ◌≡◌, refl, min, Bool, true, false, Option, none, some, List, [], ◌∷◌,
  ◌++◌, arith, ◌==◌, leb, if◌then◌else◌, select, modify, length, Bool-cases, inl, inr, All,
  All-append,
}
use nordmarkt.Common.Int.{ℤ, pos, negsuc, ltb_ℤ, leb_ℤ}
use nordmarkt.Shared.Database.{Database}
use nordmarkt.Shared.UnitOfWork.{World, UnitOfWork, Action, ◌>>=◌, write}
use nordmarkt.Shared.UnitOfWork.Keeps.{
  Keeps, keeps_rules, Keeps-write, Keeps-bind, Keeps-gets, Keeps-or_raise, Keeps-raise_if,
  Keeps-pure, Keeps-if,
}
use nordmarkt.Catalog.Models.{ProductVariant}
use nordmarkt.Catalog.{get_variant}
use nordmarkt.Cart.Models.{CartItem}
use nordmarkt.Cart.{max_line_quantity, lines_of, is_line, put_line, add_item, set_quantity, clear}

abbrev pub IsLineValid : CartItem → Type 0
IsLineValid i = (1 ≤ i.quantity) × (i.quantity ≤ 99)

-- Every line is within its bounds, and no cart has more than fifty lines.
pub record IsValid (items : List CartItem) : Type 0 where
  pub quantities : All IsLineValid items
  pub sizes : (cart : ℕ) → length (lines_of cart items) ≤ 50

modify_quantities :
    (p : CartItem → Bool) (f : CartItem → CartItem) (items : List CartItem)
    → ((i : CartItem) → IsLineValid i → IsLineValid (f i))
    → All IsLineValid items
    → All IsLineValid (modify p f items)
modify_quantities p f [] keep h = tt
modify_quantities p f (i ∷ is) keep h =
    ground (arith, keep i h.0, modify_quantities p f is keep h.1)

modify_sizes :
    (p : CartItem → Bool) (f : CartItem → CartItem) (cart : ℕ) (items : List CartItem)
    → ((i : CartItem) → (f i).cart_id ≡ i.cart_id)
    → length (lines_of cart (modify p f items)) ≡ length (lines_of cart items)
modify_sizes p f cart [] same = refl
modify_sizes p f cart (i ∷ is) same = ground (arith, same i, modify_sizes p f cart is same)

select_quantities :
    (p : CartItem → Bool) (items : List CartItem)
    → All IsLineValid items
    → All IsLineValid (select p items)
select_quantities p [] h = tt
select_quantities p (i ∷ is) h = ground (arith, select_quantities p is h.1)

select_sizes :
    (p : CartItem → Bool) (cart : ℕ) (items : List CartItem)
    → length (lines_of cart (select p items)) ≤ length (lines_of cart items)
select_sizes p cart [] = omega arith
select_sizes p cart (i ∷ is) = ground (arith, select_sizes p cart is)

append_sizes :
    (cart : ℕ) (items : List CartItem) (i : CartItem)
    → length (lines_of cart (items ++ i ∷ []))
      ≡ length (lines_of cart items) + (if i.cart_id == cart then 1 else 0)
append_sizes cart [] i = ground arith
append_sizes cart (x ∷ xs) i = ground (arith, append_sizes cart xs i)

new_line_keeps :
    (items : List CartItem) (i : CartItem)
    → IsLineValid i
    → length (lines_of i.cart_id items) < 50
    → IsValid items
    → IsValid (items ++ i ∷ [])
new_line_keeps items i ok_line room h = record {
  quantities = All-append IsLineValid items (i ∷ []) h.quantities (ok_line, tt);
  sizes = λ k. ground (arith, append_sizes k items i, h.sizes k);
}

put_new :
    (w : World) (cart : ℕ) (v : ProductVariant) (q : ℕ) (u : UnitOfWork)
    → 1 ≤ q
    → q ≤ 99
    → IsValid u.session.cart_items
    → IsValid (put_line w cart v none q u).1.session.cart_items
unfolding put_line ◌>>=◌
put_new w cart v q u lo hi h =
    elim (Bool-cases (leb 50 (length (lines_of cart u.session.cart_items)))) [
      | inl full ↦ rw full h
      | inr room ↦ rw room (
          new_line_keeps u.session.cart_items
            (record {
              id = w.uuid4 u.drawn;
              cart_id = cart;
              variant_id = v.id;
              quantity = q;
              unit_price_minor_units = v.price_minor_units;
            })
            (lo, hi) (ground (arith, room)) h)
    ]

put_line-IsValid :
    (w : World) (cart : ℕ) (v : ProductVariant) (line : Option CartItem) (q : ℕ) (u : UnitOfWork)
    → 1 ≤ q
    → q ≤ 99
    → IsValid u.session.cart_items
    → IsValid (put_line w cart v line q u).1.session.cart_items
unfolding put_line ◌>>=◌
put_line-IsValid w cart v none q u lo hi h = put_new w cart v q u lo hi h
put_line-IsValid w cart v (some line) q u lo hi h = record {
  quantities = modify_quantities _ _ u.session.cart_items (λ i _. (lo, hi)) h.quantities;
  sizes = λ k. omega (
    arith,
    modify_sizes (is_line cart v.id)
        (λ i. record i { quantity = q; unit_price_minor_units = v.price_minor_units }) k
        u.session.cart_items (λ i. refl),
    h.sizes k,
  );
}

abbrev Valid : Database → Database → Type 0
Valid committed session = IsValid session.cart_items

put_line-Keeps :
    (w : World) (cart : ℕ) (v : ProductVariant) (line : Option CartItem) (a b : ℕ)
    → Keeps Valid (put_line w cart v line (min (a + suc b) max_line_quantity))
put_line-Keeps w cart v line a b = record {
  at = λ u h. put_line-IsValid w cart v line _ u (omega arith) (omega arith) h;
}

refused-Keeps :
    (w : World) (cart variant_id : ℕ) (quantity : ℤ)
    → ltb_ℤ quantity (pos 1) ≡ true
    → Keeps Valid (add_item w cart variant_id quantity)
unfolding add_item ◌>>=◌ get_variant
refused-Keeps w cart variant_id quantity e = record { at = λ u h. rw e h }

add_item-Keeps :
    (w : World) (cart variant_id : ℕ) (quantity : ℤ)
    → Keeps Valid (add_item w cart variant_id quantity)
unfolding add_item get_variant
add_item-Keeps w cart variant_id (negsuc n) =
    refused-Keeps w cart variant_id (negsuc n) (ground arith)
add_item-Keeps w cart variant_id (pos zero) = refused-Keeps w cart variant_id (pos 0) refl
add_item-Keeps w cart variant_id (pos (suc n)) = search (keeps_rules, put_line-Keeps) depth 40

set_line-Keeps :
    (cart variant n : ℕ)
    → Keeps Valid (
        write (λ db. record db {
          cart_items =
              modify
                (is_line cart variant)
                (λ i. record i { quantity = min (suc n) max_line_quantity })
                db.cart_items;
        }))
set_line-Keeps cart variant n = Keeps-write _ λ c s h. record {
  quantities = modify_quantities _ _ s.cart_items (λ i _. (omega arith, omega arith)) h.quantities;
  sizes = λ k. omega (
    arith,
    modify_sizes (is_line cart variant) (λ i. record i { quantity = min (suc n) max_line_quantity })
        k s.cart_items (λ i. refl),
    h.sizes k,
  );
}

remove-Keeps :
    (p : CartItem → Bool)
    → Keeps Valid (write (λ db. record db { cart_items = select p db.cart_items }))
remove-Keeps p = Keeps-write _ λ c s h. record {
  quantities = select_quantities p s.cart_items h.quantities;
  sizes = λ k. omega (arith, select_sizes p k s.cart_items, h.sizes k);
}

if_true :
    {A : Type 0} (b : Bool) (m n : Action A)
    → b ≡ true
    → Keeps Valid m
    → Keeps Valid (if b then m else n)
if_true true m n e k = k
if_true false m n e k = ground arith

removed-Keeps :
    (cart variant_id : ℕ) (quantity : ℤ)
    → leb_ℤ quantity (pos 0) ≡ true
    → Keeps Valid (set_quantity cart variant_id quantity)
unfolding set_quantity
removed-Keeps cart variant_id quantity e = Keeps-bind _ _ (Keeps-gets _) λ items.
    Keeps-bind _ _ (Keeps-or_raise _ _) λ line.
      Keeps-bind _ _ (Keeps-gets _)
        λ sellable. Keeps-bind _ _ (if_true _ _ _ e (remove-Keeps _)) λ _. Keeps-pure _

set_quantity-Keeps :
    (cart variant_id : ℕ) (quantity : ℤ) → Keeps Valid (set_quantity cart variant_id quantity)
unfolding set_quantity
set_quantity-Keeps cart variant_id (negsuc n) =
    removed-Keeps cart variant_id (negsuc n) (ground arith)
set_quantity-Keeps cart variant_id (pos zero) = removed-Keeps cart variant_id (pos 0) refl
set_quantity-Keeps cart variant_id (pos (suc n)) = Keeps-bind _ _ (Keeps-gets _) λ items.
    Keeps-bind _ _ (Keeps-or_raise _ _) λ line. Keeps-bind _ _ (Keeps-gets _) λ sellable.
      Keeps-bind _ _
        (Keeps-if _ _ _ (remove-Keeps _)
          (Keeps-bind _ _ (Keeps-raise_if _ _) (λ _. set_line-Keeps cart variant_id n)))
        (λ _. Keeps-pure _)

clear-Keeps : (cart : ℕ) → Keeps Valid (clear cart)
unfolding clear
clear-Keeps cart = remove-Keeps _

-- The calls that change one basket leave every line between 1 and 99 pieces, and every cart with at
-- most fifty lines, whatever quantity is asked for and whether they return or raise.
pub changes-IsValid :
    (w : World) (cart variant_id : ℕ) (quantity : ℤ) (u : UnitOfWork)
    → IsValid u.session.cart_items
    → IsValid (add_item w cart variant_id quantity u).1.session.cart_items
      × IsValid (set_quantity cart variant_id quantity u).1.session.cart_items
      × IsValid (clear cart u).1.session.cart_items
changes-IsValid w cart variant_id quantity u h = (
  (add_item-Keeps w cart variant_id quantity).at u h,
  (set_quantity-Keeps cart variant_id quantity).at u h,
  (clear-Keeps cart).at u h,
)
