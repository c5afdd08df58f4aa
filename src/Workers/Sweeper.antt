-- ===== src/Workers/Sweeper.antt =====
-- backend/app/workers/reservation_sweeper.py: one sweep is one transaction.
pub mod Books
use nordmarkt.Common.{ℕ, Bool, List, [], ◌∷◌}
use nordmarkt.Core.Errors.{Result}
use nordmarkt.Shared.Database.{Database}
use nordmarkt.Shared.UnitOfWork.{World, ◌>>=◌, ◌>>◌, pure, commit, within_transaction}
use nordmarkt.Inventory.Models.{StockReservation}
use nordmarkt.Inventory.{release_expired}

abbrev pub sweep_limit : ℕ
sweep_limit = 200

-- `sweep_once`
unfoldable pub sweep_once : World → (StockReservation → Bool) → Database → ℕ → Result ℕ × Database
sweep_once w locked db drawn =
    within_transaction (do released ← release_expired w locked sweep_limit; commit w; pure released)
      db drawn

-- A round of the endless loop: what the world is then, and the rows that other workers hold.
pub record Tick : Type 0 where
  pub world : World
  pub locked : StockReservation → Bool
  pub drawn : ℕ

-- `main`, for the rounds until it is stopped: an exception of a sweep is logged, and the loop goes on.
unfoldable pub main : List Tick → Database → Database
unfolding sweep_once
main [] db = db
main (t ∷ ts) db = main ts (sweep_once t.world t.locked db t.drawn).1
