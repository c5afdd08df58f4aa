-- ===== src/Tests/Stock.antt =====
-- Stock: the books of the shop, and what its calls do to them.
use nordmarkt.Common.{
  ◌-◌, min, ◌≡◌, refl, arith, false, Bool, [], ◌∷◌, none, List, length, take, select,
}
use nordmarkt.Core.Errors.{ok}
use nordmarkt.Inventory.Models.{StockReservation}
use nordmarkt.Inventory.{reserve, release_expired, is_expired, commit_reservation}
use nordmarkt.Inventory.Books.{InBalance, commit_reservation-InBalance}
use nordmarkt.Inventory.Race.{
  race, ones, on_hand_at, reserved_at, Settled, Decided, race-Settled, reserve-Decided, race-ones,
}
use nordmarkt.Inventory.Sweep.{release_expired_count}
use nordmarkt.Workers.Sweeper.{Tick, main}
use nordmarkt.Workers.Sweeper.Books.{main-InBalance}
use nordmarkt.Tests.Data.{world, later_world, shop, request, hold}

pub shop_books : InBalance shop
shop_books = record {
  stocked = (omega arith, tt);
  single = λ v. ground arith;
  reconciled = λ v. ground arith;
}

unlocked : StockReservation → Bool
unlocked r = false

race-Settled_example :
    Settled 7
      (race world 7 (2 ∷ 2 ∷ 1 ∷ []) request).0
      request
      (race world 7 (2 ∷ 2 ∷ 1 ∷ []) request).1
race-Settled_example = race-Settled world 7 (2 ∷ 2 ∷ 1 ∷ []) request shop_books

reserve-Decided_example : Decided 7 3 (reserve world 7 3 none none request) request
reserve-Decided_example = reserve-Decided world 7 3 none none request (omega arith) shop_books

abbrev rounds : List Tick
rounds =
    record { world = later_world; locked = unlocked; drawn = 0 }
    ∷ record { world = later_world; locked = unlocked; drawn = 9 }
    ∷ []

main-InBalance_example : InBalance (main rounds shop)
main-InBalance_example = main-InBalance rounds shop shop_books

commit_reservation-InBalance_example : InBalance (commit_reservation world 20 request).1.session
commit_reservation-InBalance_example =
    commit_reservation-InBalance world 20 request hold shop_books refl refl

race-ones_example :
    (race world 7 (ones 5) request).0 ≡ min 5 (on_hand_at 7 request - reserved_at 7 request)
race-ones_example = race-ones world 7 5 request shop_books

release_expired_count_example :
    (release_expired world unlocked 200 request).0
    ≡ ok (length (take 200 (select (is_expired 1000 unlocked) request.session.reservations)))
release_expired_count_example = release_expired_count world unlocked 200 request shop_books
