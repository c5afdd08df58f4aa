-- ===== src/Inventory/Ledger.antt =====
-- The books of the stock: what each operation of backend/app/modules/inventory/service.py does to
-- the counters and to the open reservations together.
use nordmarkt.Common.{
  ℕ, ◌+◌, ◌-◌, ◌≤◌, ◌≡◌, refl, Bool, false, ◌&&◌, Option, none, some, List, [], ◌∷◌, ◌++◌, arith,
  ◌==◌, if◌then◌else◌, All, find, modify, update,
}
use nordmarkt.Inventory.Models.{StockItem, StockReservation, is_open}
use nordmarkt.Inventory.{update_stock, write_stock, has_room, claim, ship, give_back}

-- Sums over the rows of one variant.
abbrev pub reserved_of : ℕ → List StockItem → ℕ
reserved_of v [] = 0
reserved_of v (i ∷ is) = (if i.variant_id == v then i.reserved else 0) + reserved_of v is

abbrev pub on_hand_of : ℕ → List StockItem → ℕ
on_hand_of v [] = 0
on_hand_of v (i ∷ is) = (if i.variant_id == v then i.on_hand else 0) + on_hand_of v is

abbrev pub rows_of : ℕ → List StockItem → ℕ
rows_of v [] = 0
rows_of v (i ∷ is) = (if i.variant_id == v then 1 else 0) + rows_of v is

-- What the open reservations of a variant hold.
abbrev pub held : ℕ → StockReservation → ℕ
held v r = if is_open r && r.variant_id == v then r.quantity else 0

abbrev pub open_of : ℕ → List StockReservation → ℕ
open_of v [] = 0
open_of v (r ∷ rs) = held v r + open_of v rs

abbrev pub IsStocked : StockItem → Type 0
IsStocked i = i.reserved ≤ i.on_hand

-- The check constraints hold of every row, each variant is kept in one warehouse, and the
-- `reserved` counter of each variant is what its open reservations hold.
pub record Balanced (items : List StockItem) (reservations : List StockReservation) : Type 0 where
  pub stocked : All IsStocked items
  pub single : (v : ℕ) → rows_of v items ≤ 1
  pub reconciled : (v : ℕ) → reserved_of v items ≡ open_of v reservations

-- The claim of stock, as a plain update.
pub update_stock-claim :
    (v q : ℕ) (items : List StockItem)
    → All IsStocked items
    → update_stock (has_room v q) (claim q) items
      ≡ some (update (has_room v q) (λ i. record i { reserved = i.reserved + q }) items)
unfolding update_stock write_stock
update_stock-claim v q [] h = refl
update_stock-claim v q (i ∷ is) h = ground (arith, update_stock-claim v q is h.1)

pub claim-IsStocked :
    (v q : ℕ) (items : List StockItem)
    → All IsStocked items
    → All IsStocked (update (has_room v q) (λ i. record i { reserved = i.reserved + q }) items)
claim-IsStocked v q [] h = tt
claim-IsStocked v q (i ∷ is) h = ground (arith, claim-IsStocked v q is h.1)

pub rows_of-claim :
    (v q k : ℕ) (items : List StockItem)
    → rows_of k (update (has_room v q) (λ i. record i { reserved = i.reserved + q }) items)
      ≡ rows_of k items
rows_of-claim v q k [] = refl
rows_of-claim v q k (i ∷ is) = ground (arith, rows_of-claim v q k is)

-- No row of the variant, no change.
claim_absent :
    (v q k : ℕ) (items : List StockItem)
    → rows_of v items ≡ 0
    → reserved_of k (update (has_room v q) (λ i. record i { reserved = i.reserved + q }) items)
      ≡ reserved_of k items
claim_absent v q k [] h = refl
claim_absent v q k (i ∷ is) h = ground (arith, claim_absent v q k is)

pub reserved_of-claim :
    (v q k : ℕ) (items : List StockItem) (row : StockItem)
    → rows_of v items ≤ 1
    → find (has_room v q) items ≡ some row
    → reserved_of k (update (has_room v q) (λ i. record i { reserved = i.reserved + q }) items)
      ≡ reserved_of k items + (if v == k then q else 0)
reserved_of-claim v q k [] row h e = cc
reserved_of-claim v q k (i ∷ is) row h e =
    ground (arith, claim_absent v q k is, reserved_of-claim v q k is row)

pub claim_refused :
    (v q : ℕ) (items : List StockItem)
    → find (has_room v q) items ≡ none
    → update (has_room v q) (λ i. record i { reserved = i.reserved + q }) items ≡ items
claim_refused v q [] e = refl
claim_refused v q (i ∷ is) e = ground (arith, claim_refused v q is)

pub open_of-append :
    (k : ℕ) (rs : List StockReservation) (r : StockReservation)
    → open_of k (rs ++ r ∷ []) ≡ open_of k rs + held k r
open_of-append k [] r = omega arith
open_of-append k (x ∷ rs) r = omega (arith, open_of-append k rs r)

-- The pure updates that a release and a commit make.
abbrev pub of_variant : ℕ → StockItem → Bool
of_variant v i = i.variant_id == v

abbrev pub returned : ℕ → StockItem → StockItem
returned q i = record i { reserved = i.reserved - q }

abbrev pub shipped : ℕ → StockItem → StockItem
shipped q i = record i { on_hand = i.on_hand - q; reserved = i.reserved - q }

reserved_absent : (v : ℕ) (items : List StockItem) → rows_of v items ≡ 0 → reserved_of v items ≡ 0
reserved_absent v [] h = refl
reserved_absent v (i ∷ is) h = ground (arith, reserved_absent v is)

update_absent :
    (v : ℕ) (f : StockItem → StockItem) (items : List StockItem)
    → rows_of v items ≡ 0
    → update (of_variant v) f items ≡ items
update_absent v f [] h = refl
update_absent v f (i ∷ is) h = ground (arith, update_absent v f is)

update_stock-absent :
    (v : ℕ) (f : StockItem → Option StockItem) (items : List StockItem)
    → rows_of v items ≡ 0
    → update_stock (of_variant v) f items ≡ some items
unfolding update_stock
update_stock-absent v f [] h = refl
update_stock-absent v f (i ∷ is) h = ground (arith, update_stock-absent v f is)

pub update_stock-give_back :
    (v q : ℕ) (items : List StockItem)
    → All IsStocked items
    → rows_of v items ≤ 1
    → q ≤ reserved_of v items
    → update_stock (of_variant v) (give_back q) items
      ≡ some (update (of_variant v) (returned q) items)
unfolding update_stock write_stock
update_stock-give_back v q [] s h e = refl
update_stock-give_back v q (i ∷ is) s h e = ground (
  arith,
  update_stock-absent v (give_back q) is,
  update_absent v (returned q) is,
  reserved_absent v is,
  update_stock-give_back v q is s.1,
)

pub update_stock-ship :
    (v q : ℕ) (items : List StockItem)
    → All IsStocked items
    → rows_of v items ≤ 1
    → q ≤ reserved_of v items
    → update_stock (of_variant v) (ship q) items ≡ some (update (of_variant v) (shipped q) items)
unfolding update_stock write_stock
update_stock-ship v q [] s h e = refl
update_stock-ship v q (i ∷ is) s h e = ground (
  arith,
  update_stock-absent v (ship q) is,
  update_absent v (shipped q) is,
  reserved_absent v is,
  update_stock-ship v q is s.1,
)

pub reserved_of-returned :
    (v q k : ℕ) (items : List StockItem)
    → rows_of v items ≤ 1
    → q ≤ reserved_of v items
    → reserved_of k (update (of_variant v) (returned q) items) + (if v == k then q else 0)
      ≡ reserved_of k items
reserved_of-returned v q k [] h e = ground arith
reserved_of-returned v q k (i ∷ is) h e =
    ground
      (arith, update_absent v (returned q) is, reserved_absent v is, reserved_of-returned v q k is)

pub reserved_of-shipped :
    (v q k : ℕ) (items : List StockItem)
    → rows_of v items ≤ 1
    → q ≤ reserved_of v items
    → reserved_of k (update (of_variant v) (shipped q) items) + (if v == k then q else 0)
      ≡ reserved_of k items
reserved_of-shipped v q k [] h e = ground arith
reserved_of-shipped v q k (i ∷ is) h e =
    ground
      (arith, update_absent v (shipped q) is, reserved_absent v is, reserved_of-shipped v q k is)

pub on_hand_of-shipped :
    (v q k : ℕ) (items : List StockItem)
    → All IsStocked items
    → rows_of v items ≤ 1
    → q ≤ reserved_of v items
    → on_hand_of k (update (of_variant v) (shipped q) items) + (if v == k then q else 0)
      ≡ on_hand_of k items
on_hand_of-shipped v q k [] s h e = ground arith
on_hand_of-shipped v q k (i ∷ is) s h e =
    ground
      (arith, update_absent v (shipped q) is, reserved_absent v is, on_hand_of-shipped v q k is s.1)

pub returned-IsStocked :
    (v q : ℕ) (items : List StockItem)
    → All IsStocked items
    → All IsStocked (update (of_variant v) (returned q) items)
returned-IsStocked v q [] h = tt
returned-IsStocked v q (i ∷ is) h = ground (arith, returned-IsStocked v q is h.1)

pub shipped-IsStocked :
    (v q : ℕ) (items : List StockItem)
    → All IsStocked items
    → All IsStocked (update (of_variant v) (shipped q) items)
shipped-IsStocked v q [] h = tt
shipped-IsStocked v q (i ∷ is) h = ground (arith, shipped-IsStocked v q is h.1)

-- The counters of a row change, and neither of these its variant.
pub rows_of-returned :
    (v q k : ℕ) (items : List StockItem)
    → rows_of k (update (of_variant v) (returned q) items) ≡ rows_of k items
rows_of-returned v q k [] = refl
rows_of-returned v q k (i ∷ is) = ground (arith, rows_of-returned v q k is)

pub rows_of-shipped :
    (v q k : ℕ) (items : List StockItem)
    → rows_of k (update (of_variant v) (shipped q) items) ≡ rows_of k items
rows_of-shipped v q k [] = refl
rows_of-shipped v q k (i ∷ is) = ground (arith, rows_of-shipped v q k is)

-- An open reservation is part of what its variant's open reservations hold.
pub open_of-found :
    (id : ℕ) (rs : List StockReservation) (r : StockReservation)
    → find (λ x. x.id == id) rs ≡ some r
    → held r.variant_id r ≤ open_of r.variant_id rs
open_of-found id [] r e = cc
open_of-found id (x ∷ rs) r e = ground (arith, open_of-found id rs r)

-- A reservation that is settled no longer counts.
pub open_of-settled :
    (id k : ℕ) (f : StockReservation → StockReservation) (rs : List StockReservation)
    (r : StockReservation)
    → find (λ x. x.id == id) rs ≡ some r
    → is_open (f r) ≡ false
    → open_of k (modify (λ x. x.id == id) f rs) + held k r ≡ open_of k rs
open_of-settled id k f [] r e h = cc
open_of-settled id k f (x ∷ rs) r e h = ground (arith, open_of-settled id k f rs r)
