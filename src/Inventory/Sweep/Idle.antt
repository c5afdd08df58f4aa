-- ===== src/Inventory/Sweep/Idle.antt =====
-- What a sweep by `release_expired` of backend/app/modules/inventory/service.py leaves for the next.
use nordmarkt.Common.{ℕ, ◌≡◌, Bool, true, List, [], ◌∷◌}
use nordmarkt.Shared.UnitOfWork.{World, UnitOfWork}
use nordmarkt.Inventory.Models.{StockReservation}
use nordmarkt.Inventory.{is_expired}
use nordmarkt.Inventory.Books.{InBalance}
use nordmarkt.Inventory.Sweep.{mem, Distinct, Present}

module _ (w : World) (locked : StockReservation → Bool) where
  -- Every row that the sweep would select is still referred to.
  abbrev Covered : List ℕ → List StockReservation → Type 0
  Covered ids [] = Unit
  Covered ids (r ∷ rs) = (is_expired w.now locked r ≡ true → mem r.id ids ≡ true) × Covered ids rs

  -- The loop over references that lead to rows.
  record Swept (ids : List ℕ) (u : UnitOfWork) : Type 0 where
    balanced : InBalance u.session
    present : Present ids u.session.reservations
    distinct : Distinct u.session.reservations
    covered : Covered ids u.session.reservations
