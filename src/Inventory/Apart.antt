-- ===== src/Inventory/Apart.antt =====
-- The calls of `InventoryService` write to the session only.
use nordmarkt.Common.{ℕ, Option, none, some, List, [], ◌∷◌}
use nordmarkt.Shared.Database.{Database}
use nordmarkt.Shared.UnitOfWork.{World, Action}
use nordmarkt.Shared.UnitOfWork.Keeps.{Keeps, Keeps-pure, Keeps-bind, Apart, apart_rules}
use nordmarkt.Inventory.Models.{StockItem}
use nordmarkt.Inventory.{after_update, reserve, commit_reservation, release, for_each}

pub Keeps-for_each :
    (P : Database → Database → Type 0) (f : ℕ → Action (Unit {0}))
    → ((id : ℕ) → Keeps P (f id))
    → (ids : List ℕ) → Keeps P (for_each f ids)
unfolding for_each
Keeps-for_each P f kf [] = Keeps-pure tt
Keeps-for_each P f kf (id ∷ ids) = Keeps-bind (f id) _ (kf id) (λ _. Keeps-for_each P f kf ids)

module _ {base : Database} where
  after_update-Apart :
      (w : World) (v q : ℕ) (cart order : Option ℕ) (row : Option StockItem)
      → Keeps (Apart base) (after_update w v q cart order row)
  after_update-Apart w v q cart order none = search apart_rules depth 9
  after_update-Apart w v q cart order (some row) = search apart_rules depth 12

  pub reserve-Apart :
      (w : World) (v q : ℕ) (cart order : Option ℕ) → Keeps (Apart base) (reserve w v q cart order)
  unfolding reserve
  reserve-Apart w v q cart order = search (apart_rules, after_update-Apart) depth 12

  pub commit_reservation-Apart : (w : World) (id : ℕ) → Keeps (Apart base) (commit_reservation w id)
  unfolding commit_reservation
  commit_reservation-Apart w id = search apart_rules depth 12

  pub release-Apart : (w : World) (id : ℕ) → Keeps (Apart base) (release w id)
  unfolding release
  release-Apart w id = search apart_rules depth 12
