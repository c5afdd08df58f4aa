-- ===== src/Workers/Sweeper/Books.antt =====
-- backend/app/workers/reservation_sweeper.py: the sweeper over the books of the stock.
use nordmarkt.Common.{ℕ, ◌≡◌, refl, Bool, List, [], ◌∷◌, take, select, length}
use nordmarkt.Core.Errors.{ok}
use nordmarkt.Shared.Database.{Database}
use nordmarkt.Shared.UnitOfWork.{World, ◌>>=◌, commit, begin, within_transaction}
use nordmarkt.Inventory.{release_expired, is_expired, for_each}
use nordmarkt.Inventory.Models.{StockReservation}
use nordmarkt.Inventory.Books.{InBalance, release_expired-InBalance}
use nordmarkt.Inventory.Sweep.{release_expired_count}
use nordmarkt.Workers.Sweeper.{Tick, sweep_once, sweep_limit, main}

-- On balanced books a sweep does not raise, says how many rows it selected, and commits books that
-- are balanced.
pub sweep_once_lem :
    (w : World) (locked : StockReservation → Bool) (db : Database) (n : ℕ)
    → InBalance db
    → let (r, db') = sweep_once w locked db n in
      (r ≡ ok (length (take sweep_limit (select (is_expired w.now locked) db.reservations))))
      × InBalance db'
unfolding sweep_once within_transaction ◌>>=◌ commit release_expired for_each
sweep_once_lem w locked db n b =
    let u = begin db n in
    rw (release_expired_count w locked sweep_limit u b)
      (refl, release_expired-InBalance w locked sweep_limit u b)

-- Over balanced books the stored database has balanced books after any number of rounds of the
-- sweeper, whatever rows are locked in them.
pub main-InBalance : (ts : List Tick) (db : Database) → InBalance db → InBalance (main ts db)
unfolding main
main-InBalance [] db b = b
main-InBalance (t ∷ ts) db b =
    main-InBalance ts (sweep_once t.world t.locked db t.drawn).1
      (sweep_once_lem t.world t.locked db t.drawn b).1
