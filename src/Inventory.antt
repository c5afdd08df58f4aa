-- ===== src/Inventory.antt =====
-- backend/app/modules/inventory/service.py: `InventoryService`.
pub mod Models
pub mod Ledger
pub mod Apart
pub mod Calls
pub mod Books
pub mod Race
pub mod Sweep
pub mod Commit
use nordmarkt.Common.{
  ℕ, ◌+◌, ◌-◌, Bool, true, ◌&&◌, ◌||◌, not, Option, none, some, List, [], ◌∷◌, ◌++◌, String, leb,
  ltb, ◌==◌, str_eq, if◌then◌else◌, is_none, map, select, find, modify, any, take, length,
}
use nordmarkt.Common.Int.{ℤ, pos, negsuc, pos_part, ◌+ℤ◌, ◌-ℤ◌, sub_ℕ}
use nordmarkt.Core.Errors.{Exception, domain, DomainError, integrity_error, detached_instance}
use nordmarkt.Shared.Events.{EventBody}
use nordmarkt.Shared.UnitOfWork.{
  World, Action, ◌>>=◌, ◌>>◌, pure, raise, gets, or_raise, write, draw, emit,
}
use Models.{StockItem, StockReservation, sellable, within_checks, is_open}

-- `RESERVATION_TTL`, in seconds.
abbrev pub reservation_ttl : ℕ
reservation_ttl = 1200

-- A dictionary of counts, with `d[k] = d.get(k, 0) + n` and `d.get(k, 0)`.
abbrev pub add_count : ℕ → ℕ → List (ℕ × ℕ) → List (ℕ × ℕ)
add_count k n [] = (k, n) ∷ []
add_count k n ((j, m) ∷ d) = if j == k then (j, m + n) ∷ d else (j, m) ∷ add_count k n d

abbrev pub get_count : ℕ → List (ℕ × ℕ) → ℕ
get_count k [] = 0
get_count k ((j, m) ∷ d) = if j == k then m else get_count k d

count_sellable : List StockItem → List (ℕ × ℕ) → List (ℕ × ℕ)
count_sellable [] result = result
count_sellable (item ∷ items) result =
    count_sellable items (add_count item.variant_id (sellable item) result)

-- `sellable_map`, over the rows of the stock table.
unfoldable pub sellable_map : List ℕ → List StockItem → List (ℕ × ℕ)
unfolding count_sellable
sellable_map [] items = []
sellable_map (v ∷ vs) items =
    count_sellable (select (λ item. any (λ k. k == item.variant_id) (v ∷ vs)) items) []

-- The row with new counters, if the check constraints allow them.
unfoldable pub write_stock : StockItem → ℤ → ℤ → Option StockItem
write_stock item on_hand reserved =
    if within_checks on_hand reserved
    then some (record item { on_hand = pos_part on_hand; reserved = pos_part reserved })
    else none

-- An UPDATE of the stock table: one row that breaks a check constraint fails the statement.
unfoldable pub update_stock :
    (StockItem → Bool) → (StockItem → Option StockItem) → List StockItem → Option (List StockItem)
update_stock p f [] = some []
update_stock p f (item ∷ items) = elim (update_stock p f items) [
  | none ↦ none
  | some rest ↦ elim (if p item then f item else some item) [
    | none ↦ none
    | some row ↦ some (row ∷ rest)
  ]
]

-- The WHERE clause of `reserve`.
abbrev pub has_room : ℕ → ℕ → StockItem → Bool
has_room variant_id quantity item =
    item.variant_id == variant_id && leb quantity (item.on_hand - item.reserved)

abbrev pub claim : ℕ → StockItem → Option StockItem
claim quantity item = write_stock item (pos item.on_hand) (pos (item.reserved + quantity))

-- The reservation that is made, under the id that its flush draws.
abbrev pub new_reservation : World → ℕ → ℕ → ℕ → Option ℕ → Option ℕ → StockReservation
new_reservation w id variant_id quantity cart_id order_id = record {
  id = id;
  variant_id = variant_id;
  order_id = order_id;
  cart_id = cart_id;
  quantity = quantity;
  expires_at = w.now + reservation_ttl;
  released_at = none;
  committed_at = none;
}

-- The events of a granted reservation. `row` is as RETURNING gives it, after the write.
abbrev pub announce : World → ℕ → ℕ → ℕ → StockItem → Action (Unit {0})
announce w variant_id quantity id row = do
  emit w variant_id (EventBody.stock_reserved variant_id quantity id)
  if leb (row.on_hand - row.reserved) row.low_stock_threshold
      then emit w variant_id
          (EventBody.stock_ran_low variant_id (row.on_hand - row.reserved) row.low_stock_threshold)
      else pure tt

-- What follows the UPDATE, by the first row that it returned.
abbrev pub after_update : World → ℕ → ℕ → Option ℕ → Option ℕ → Option StockItem → Action ℕ
after_update w variant_id quantity cart_id order_id none = do
  items ← gets (λ db. db.stock_items)
  raise (
      domain (
        DomainError.insufficient_stock (get_count variant_id (sellable_map (variant_id ∷ []) items))
          quantity))
after_update w variant_id quantity cart_id order_id (some item) = do
  n ← draw
  write (λ db. record db {
    reservations =
        db.reservations ++ new_reservation w (w.uuid4 n) variant_id quantity cart_id order_id ∷ [];
  })
  announce w variant_id quantity (w.uuid4 n) (record item { reserved = item.reserved + quantity })
  pure (w.uuid4 n)

-- `reserve` returns a reference to the new reservation: its id.
unfoldable pub reserve : World → ℕ → ℕ → Option ℕ → Option ℕ → Action ℕ
reserve w variant_id quantity cart_id order_id = do
  items ← gets (λ db. db.stock_items)
  updated ←
      or_raise integrity_error (update_stock (has_room variant_id quantity) (claim quantity) items)
  write (λ db. record db { stock_items = updated })
  after_update w variant_id quantity cart_id order_id (find (has_room variant_id quantity) items)

-- The session's object behind a reference.
abbrev pub load_reservation : ℕ → Action StockReservation
load_reservation id = do
  reservations ← gets (λ db. db.reservations)
  or_raise detached_instance (find (λ r. r.id == id) reservations)

-- An assignment to a field of the object behind a reference.
abbrev pub set_reservation : ℕ → (StockReservation → StockReservation) → Action (Unit {0})
set_reservation id f =
    write λ db. record db { reservations = modify (λ r. r.id == id) f db.reservations }

-- An UPDATE of every stock row of a variant.
abbrev pub update_variant : ℕ → (StockItem → Option StockItem) → Action (Unit {0})
update_variant variant_id f = do
  items ← gets (λ db. db.stock_items)
  updated ← or_raise integrity_error (update_stock (λ item. item.variant_id == variant_id) f items)
  write (λ db. record db { stock_items = updated })

abbrev pub ship : ℕ → StockItem → Option StockItem
ship quantity item = write_stock item (sub_ℕ item.on_hand quantity) (sub_ℕ item.reserved quantity)

abbrev pub give_back : ℕ → StockItem → Option StockItem
give_back quantity item = write_stock item (pos item.on_hand) (sub_ℕ item.reserved quantity)

unfoldable pub commit_reservation : World → ℕ → Action (Unit {0})
commit_reservation w id = do
  r ← load_reservation id
  update_variant r.variant_id (ship r.quantity)
  set_reservation id (λ r. record r { committed_at = some w.now })

unfoldable pub release : World → ℕ → Action (Unit {0})
release w id = do
  r ← load_reservation id
  if is_open r
      then update_variant r.variant_id (give_back r.quantity)
        >> set_reservation id (λ r. record r { released_at = some w.now })
      else pure tt

-- A `for` loop over references.
unfoldable pub for_each : (ℕ → Action (Unit {0})) → List ℕ → Action (Unit {0})
for_each f [] = pure tt
for_each f (x ∷ xs) = f x >> for_each f xs

-- The rows that the sweeper selects; SKIP LOCKED passes by what another transaction holds.
unfoldable pub is_expired : ℕ → (StockReservation → Bool) → StockReservation → Bool
is_expired now locked r = is_open r && (ltb r.expires_at now && not (locked r))

unfoldable pub release_expired : World → (StockReservation → Bool) → ℕ → Action ℕ
release_expired w locked limit = do
  reservations ← gets (λ db. db.reservations)
  let expired = map (λ r. r.id) (take limit (select (is_expired w.now locked) reservations))
  for_each (release w) expired
  pure (length expired)

abbrev pub is_at : ℕ → String → StockItem → Bool
is_at variant_id warehouse item =
    item.variant_id == variant_id && str_eq item.warehouse_code warehouse

-- The check constraints meet the new counter at the flush.
unfoldable pub restock : World → ℕ → ℤ → String → Action (Unit {0})
restock w variant_id quantity warehouse = do
  items ← gets (λ db. db.stock_items)
  n ← draw
  let present =
      if any (is_at variant_id warehouse) items
      then items
      else items
        ++ record {
          id = w.uuid4 n;
          variant_id = variant_id;
          warehouse_code = warehouse;
          on_hand = 0;
          reserved = 0;
          low_stock_threshold = 5;
        }
          ∷ []
  updated ← or_raise integrity_error (
      update_stock (is_at variant_id warehouse)
        (λ item. write_stock item (pos item.on_hand +ℤ quantity) (pos item.reserved)) present)
  write (λ db. record db { stock_items = updated })
