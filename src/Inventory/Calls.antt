-- ===== src/Inventory/Calls.antt =====
-- What each call of `InventoryService` returns and writes, branch by branch.
use nordmarkt.Common.{
  ℕ, ◌+◌, ◌≡◌, false, true, Option, none, some, [], ◌∷◌, ◌++◌, arith, ◌==◌, All, find, modify,
  update,
}
use nordmarkt.Core.Errors.{ok, err, domain, DomainError, detached_instance}
use nordmarkt.Shared.UnitOfWork.{World, UnitOfWork, ◌>>=◌}
use nordmarkt.Inventory.Models.{StockItem, StockReservation, is_open}
use nordmarkt.Inventory.{
  has_room, new_reservation, reserve, commit_reservation, release, sellable_map, get_count,
}
use nordmarkt.Inventory.Ledger.{
  Balanced, IsStocked, update_stock-claim, update_stock-give_back, update_stock-ship, of_variant,
  returned, shipped, claim_refused, open_of-found,
}

abbrev pub claimed : ℕ → StockItem → StockItem
claimed q i = record i { reserved = i.reserved + q }

module _ (w : World) (v q : ℕ) (cart order : Option ℕ) (u : UnitOfWork) where
  -- Where no row has room, the call raises and writes nothing.
  pub reserve_refused :
      All IsStocked u.session.stock_items
      → find (has_room v q) u.session.stock_items ≡ none
      → reserve w v q cart order u ≡ (
        err (
            domain (
              DomainError.insufficient_stock
                (get_count v (sellable_map (v ∷ []) u.session.stock_items))
                q)),
        u,
      )
  unfolding reserve ◌>>=◌
  reserve_refused s e =
      rw (
        update_stock-claim v q u.session.stock_items s,
        e,
        claim_refused v q u.session.stock_items e,
      )

  -- Where a row has room, the claim and the reservation are both written.
  pub reserve_granted :
      (row : StockItem)
      → All IsStocked u.session.stock_items
      → find (has_room v q) u.session.stock_items ≡ some row
      → let (r, u') = reserve w v q cart order u in
        (r ≡ ok (w.uuid4 u.drawn))
        × (u'.session ≡ record u.session {
          stock_items = update (has_room v q) (claimed q) u.session.stock_items;
          reservations =
              u.session.reservations ++ new_reservation w (w.uuid4 u.drawn) v q cart order ∷ [];
        })
        × (u'.committed ≡ u.committed)
  unfolding reserve ◌>>=◌
  reserve_granted row s e = rw (update_stock-claim v q u.session.stock_items s, e) (ground arith)

-- A reference to no row.
pub release_missing :
    (w : World) (id : ℕ) (u : UnitOfWork)
    → find (λ x. x.id == id) u.session.reservations ≡ none
    → release w id u ≡ (err detached_instance, u)
unfolding release ◌>>=◌
release_missing w id u e = ground arith

module _ (w : World) (id : ℕ) (u : UnitOfWork) (r : StockReservation) where
  -- A settled reservation is left alone.
  pub release_settled :
      find (λ x. x.id == id) u.session.reservations ≡ some r
      → is_open r ≡ false
      → release w id u ≡ (ok tt, u)
  unfolding release ◌>>=◌
  release_settled e h = ground arith

  -- An open one gives its quantity back and is marked.
  pub release_open :
      Balanced u.session.stock_items u.session.reservations
      → find (λ x. x.id == id) u.session.reservations ≡ some r
      → is_open r ≡ true
      → release w id u ≡ (
        ok tt,
        record u {
          session = record u.session {
            stock_items =
                update (of_variant r.variant_id) (returned r.quantity) u.session.stock_items;
            reservations =
                modify
                  (λ x. x.id == id)
                  (λ x. record x { released_at = some w.now })
                  u.session.reservations;
          };
        },
      )
  unfolding release ◌>>=◌
  release_open b e h = ground (
    arith,
    update_stock-give_back r.variant_id r.quantity u.session.stock_items b.stocked
        (b.single r.variant_id)
        (ground (arith, b.reconciled r.variant_id, open_of-found id u.session.reservations r e)),
  )

  -- A commit takes the quantity off both counters and marks the reservation.
  pub commit_reservation_open :
      Balanced u.session.stock_items u.session.reservations
      → find (λ x. x.id == id) u.session.reservations ≡ some r
      → is_open r ≡ true
      → commit_reservation w id u ≡ (
        ok tt,
        record u {
          session = record u.session {
            stock_items =
                update (of_variant r.variant_id) (shipped r.quantity) u.session.stock_items;
            reservations =
                modify
                  (λ x. x.id == id)
                  (λ x. record x { committed_at = some w.now })
                  u.session.reservations;
          };
        },
      )
  unfolding commit_reservation ◌>>=◌
  commit_reservation_open b e h = ground (
    arith,
    update_stock-ship r.variant_id r.quantity u.session.stock_items b.stocked
        (b.single r.variant_id)
        (ground (arith, b.reconciled r.variant_id, open_of-found id u.session.reservations r e)),
  )
