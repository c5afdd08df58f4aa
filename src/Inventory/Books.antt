-- ===== src/Inventory/Books.antt =====
-- Every call of `InventoryService` keeps the books balanced: no sequence of reservations, releases,
-- sweeps and commits of open reservations oversells a variant.
use nordmarkt.Common.{
  ℕ, ◌≤◌, ◌≡◌, refl, false, true, Option, some, List, [], ◌∷◌, ◌++◌, arith, ◌==◌, Bool-cases,
  Option-cases, inl, inr, find, modify, update, map, take, select, Bool,
}
use nordmarkt.Shared.Database.{Database}
use nordmarkt.Shared.UnitOfWork.{World, UnitOfWork, Action, ◌>>=◌}
use nordmarkt.Inventory.Models.{StockItem, StockReservation, is_open}
use nordmarkt.Inventory.{
  has_room, new_reservation, reserve, commit_reservation, release, for_each, release_expired,
  is_expired,
}
use nordmarkt.Inventory.Ledger.{
  Balanced, of_variant, returned, shipped, open_of-found, open_of-append, open_of-settled,
  reserved_of, claim-IsStocked, rows_of-claim, reserved_of-claim, returned-IsStocked,
  rows_of-returned, reserved_of-returned, shipped-IsStocked, rows_of-shipped, reserved_of-shipped,
}
use nordmarkt.Inventory.Calls.{
  claimed, reserve_refused, reserve_granted, release_missing, release_settled, release_open,
  commit_reservation_open,
}

abbrev pub InBalance : Database → Type 0
InBalance db = Balanced db.stock_items db.reservations

granted-Balanced :
    (w : World) (id v q : ℕ) (cart order : Option ℕ) (items : List StockItem)
    (rs : List StockReservation) (row : StockItem)
    → Balanced items rs
    → find (has_room v q) items ≡ some row
    → Balanced
        (update (has_room v q) (claimed q) items)
        (rs ++ new_reservation w id v q cart order ∷ [])
granted-Balanced w id v q cart order items rs row b e = record {
  stocked = claim-IsStocked v q items b.stocked;
  single = λ k. omega (arith, rows_of-claim v q k items, b.single k);
  reconciled = λ k. ground (
    arith,
    reserved_of-claim v q k items row (b.single v) e,
    open_of-append k rs (new_reservation w id v q cart order),
    b.reconciled k,
  );
}

-- Whether it is granted or refused, a reservation keeps the books balanced.
pub reserve-InBalance :
    (w : World) (v q : ℕ) (cart order : Option ℕ) (u : UnitOfWork)
    → InBalance u.session
    → InBalance (reserve w v q cart order u).1.session
reserve-InBalance w v q cart order u b =
    elim (Option-cases (find (has_room v q) u.session.stock_items)) [
      | inl e ↦ rw (reserve_refused w v q cart order u b.stocked e) b
      | inr (row, e) ↦ rw ((reserve_granted w v q cart order u row b.stocked e).1) (
          granted-Balanced w (w.uuid4 u.drawn) v q cart order u.session.stock_items
            u.session.reservations row b e)
    ]

module _ (items : List StockItem) (rs : List StockReservation) (r : StockReservation) (id : ℕ)
    (b : Balanced items rs) (e : find (λ x. x.id == id) rs ≡ some r) (o : is_open r ≡ true) where
  -- What an open reservation holds is on its variant's counter.
  pub quantity-le-reserved : r.quantity ≤ reserved_of r.variant_id items
  quantity-le-reserved = ground (arith, b.reconciled r.variant_id, open_of-found id rs r e)

  pub released-Balanced :
      (f : StockReservation → StockReservation)
      → is_open (f r) ≡ false
      → Balanced
          (update (of_variant r.variant_id) (returned r.quantity) items)
          (modify (λ x. x.id == id) f rs)
  released-Balanced f h = record {
    stocked = returned-IsStocked r.variant_id r.quantity items b.stocked;
    single = λ k. omega (arith, rows_of-returned r.variant_id r.quantity k items, b.single k);
    reconciled = λ k. ground (
      arith,
      reserved_of-returned r.variant_id r.quantity k items (b.single r.variant_id)
          quantity-le-reserved,
      open_of-settled id k f rs r e h,
      b.reconciled k,
    );
  }

  pub shipped-Balanced :
      (f : StockReservation → StockReservation)
      → is_open (f r) ≡ false
      → Balanced
          (update (of_variant r.variant_id) (shipped r.quantity) items)
          (modify (λ x. x.id == id) f rs)
  shipped-Balanced f h = record {
    stocked = shipped-IsStocked r.variant_id r.quantity items b.stocked;
    single = λ k. omega (arith, rows_of-shipped r.variant_id r.quantity k items, b.single k);
    reconciled = λ k. ground (
      arith,
      reserved_of-shipped r.variant_id r.quantity k items (b.single r.variant_id)
          quantity-le-reserved,
      open_of-settled id k f rs r e h,
      b.reconciled k,
    );
  }

-- A release keeps the books balanced, whatever the reference.
pub release-InBalance :
    (w : World) (id : ℕ) (u : UnitOfWork)
    → InBalance u.session
    → InBalance (release w id u).1.session
release-InBalance w id u b = elim (Option-cases (find (λ x. x.id == id) u.session.reservations)) [
  | inl e ↦ rw (release_missing w id u e) b
  | inr (r, e) ↦ elim (Bool-cases (is_open r)) [
    | inl o ↦ rw (release_open w id u r b e o) (
        released-Balanced u.session.stock_items u.session.reservations r id b e o
          (λ x. record x { released_at = some w.now }) refl)
    | inr s ↦ rw (release_settled w id u r e s) b
  ]
]

-- The commit of an open reservation keeps the books balanced.
pub commit_reservation-InBalance :
    (w : World) (id : ℕ) (u : UnitOfWork) (r : StockReservation)
    → InBalance u.session
    → find (λ x. x.id == id) u.session.reservations ≡ some r
    → is_open r ≡ true
    → InBalance (commit_reservation w id u).1.session
commit_reservation-InBalance w id u r b e o = rw (commit_reservation_open w id u r b e o) (
    shipped-Balanced u.session.stock_items u.session.reservations r id b e o
      (λ x. record x { committed_at = some w.now }) (ground arith))

-- The sweep's loop: each release keeps the books balanced, so all of them do.
pub for_each-InBalance :
    (f : ℕ → Action (Unit {0}))
    → ((id : ℕ) (u : UnitOfWork) → InBalance u.session → InBalance (f id u).1.session)
    → (ids : List ℕ) (u : UnitOfWork) → InBalance u.session
    → InBalance (for_each f ids u).1.session
unfolding for_each ◌>>=◌
for_each-InBalance f keep [] u b = b
for_each-InBalance f keep (id ∷ ids) u b =
    ground (arith, keep id u b, for_each-InBalance f keep ids (f id u).1)

-- A sweep keeps the books balanced, whatever rows are locked and whatever its limit.
pub release_expired-InBalance :
    (w : World) (locked : StockReservation → Bool) (limit : ℕ) (u : UnitOfWork)
    → InBalance u.session
    → InBalance (release_expired w locked limit u).1.session
unfolding release_expired ◌>>=◌
release_expired-InBalance w locked limit u b =
    let ids =
      map (λ r. r.id) (take limit (select (is_expired w.now locked) u.session.reservations)) in
    ground (arith, for_each-InBalance (release w) (release-InBalance w) ids u b)
