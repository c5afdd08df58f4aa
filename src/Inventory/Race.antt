-- ===== src/Inventory/Race.antt =====
-- Shoppers who compete for a variant: the reservations of backend/app/modules/inventory/service.py
-- in any order, since the row lock of the conditional UPDATE makes each of them one step.
use nordmarkt.Common.{
  ℕ, zero, suc, ◌+◌, ◌-◌, ◌≤◌, ◌<◌, ◌≡◌, refl, min, Option, none, some, List, [], ◌∷◌, arith,
  Option-cases, inl, inr, All, find, update,
}
use nordmarkt.Core.Errors.{Result, ok, err}
use nordmarkt.Shared.UnitOfWork.{World, UnitOfWork}
use nordmarkt.Inventory.Models.{StockItem}
use nordmarkt.Inventory.{has_room, reserve}
use nordmarkt.Inventory.Ledger.{IsStocked, rows_of, reserved_of, on_hand_of, reserved_of-claim}
use nordmarkt.Inventory.Calls.{claimed, reserve_refused, reserve_granted}
use nordmarkt.Inventory.Books.{InBalance, reserve-InBalance}

-- The quantities asked for, in the order in which the database serves them, and the sum of those
-- that were granted.
pub race : World → ℕ → List ℕ → UnitOfWork → ℕ × UnitOfWork
race w v [] u = (0, u)
race w v (q ∷ qs) u =
    let (r, u') = reserve w v q none none u in
    let (n, end) = race w v qs u' in (elim r [ ok _ ↦ q + n | err _ ↦ n ], end)

absent_counters :
    (v : ℕ) (items : List StockItem)
    → rows_of v items ≡ 0
    → (reserved_of v items ≡ 0) × (on_hand_of v items ≡ 0)
absent_counters v [] h = (refl, refl)
absent_counters v (i ∷ is) h = ground (arith, absent_counters v is)

room_found :
    (v q : ℕ) (items : List StockItem) (row : StockItem)
    → All IsStocked items
    → rows_of v items ≤ 1
    → find (has_room v q) items ≡ some row
    → reserved_of v items + q ≤ on_hand_of v items
room_found v q [] row s h e = cc
room_found v q (i ∷ is) row s h e = ground (arith, absent_counters v is, room_found v q is row s.1)

room_missing :
    (v q : ℕ) (items : List StockItem)
    → 0 < q
    → rows_of v items ≤ 1
    → find (has_room v q) items ≡ none
    → on_hand_of v items < reserved_of v items + q
room_missing v q [] p h e = omega arith
room_missing v q (i ∷ is) p h e = ground (arith, absent_counters v is, room_missing v q is)

on_hand_of-claim :
    (v q k : ℕ) (items : List StockItem)
    → on_hand_of k (update (has_room v q) (claimed q) items) ≡ on_hand_of k items
on_hand_of-claim v q k [] = refl
on_hand_of-claim v q k (i ∷ is) = ground (arith, on_hand_of-claim v q k is)

-- The counter of a variant never passes what is on hand.
pub reserved-le-on_hand :
    (v : ℕ) (items : List StockItem)
    → All IsStocked items
    → reserved_of v items ≤ on_hand_of v items
reserved-le-on_hand v [] s = omega arith
reserved-le-on_hand v (i ∷ is) s = ground (arith, reserved-le-on_hand v is s.1)

-- What one call does to the counters of its variant.
abbrev pub Outcome : ℕ → ℕ → Result ℕ × UnitOfWork → UnitOfWork → Type 0
Outcome v q (ok _, u') u =
    (reserved_of v u.session.stock_items + q ≤ on_hand_of v u.session.stock_items)
    × (reserved_of v u'.session.stock_items ≡ reserved_of v u.session.stock_items + q)
    × (on_hand_of v u'.session.stock_items ≡ on_hand_of v u.session.stock_items)
Outcome v q (err _, u') u =
    (u' ≡ u)
    × (0 < q → on_hand_of v u.session.stock_items < reserved_of v u.session.stock_items + q)

pub reserve-Outcome :
    (w : World) (v q : ℕ) (cart order : Option ℕ) (u : UnitOfWork)
    → InBalance u.session
    → Outcome v q (reserve w v q cart order u) u
reserve-Outcome w v q cart order u b =
    elim (Option-cases (find (has_room v q) u.session.stock_items)) [
      | inl e ↦
          rw (reserve_refused w v q cart order u b.stocked e)
            (refl, λ p. room_missing v q u.session.stock_items p (b.single v) e)
      | inr (row, e) ↦ ground (
        arith,
        reserve_granted w v q cart order u row b.stocked e,
        room_found v q u.session.stock_items row b.stocked (b.single v) e,
        reserved_of-claim v q v u.session.stock_items row (b.single v) e,
        on_hand_of-claim v q v u.session.stock_items,
      )
    ]

-- What a call for at least one unit does: it was granted with that much left, or refused with less.
abbrev pub Decided : ℕ → ℕ → Result ℕ × UnitOfWork → UnitOfWork → Type 0
Decided v q (ok _, u') u =
    (reserved_of v u.session.stock_items + q ≤ on_hand_of v u.session.stock_items)
    × (reserved_of v u'.session.stock_items ≡ reserved_of v u.session.stock_items + q)
    × (on_hand_of v u'.session.stock_items ≡ on_hand_of v u.session.stock_items)
Decided v q (err _, u') u =
    (u' ≡ u) × (on_hand_of v u.session.stock_items < reserved_of v u.session.stock_items + q)

Decided-of :
    (v q : ℕ) (r : Result ℕ × UnitOfWork) (u : UnitOfWork)
    → 0 < q
    → Outcome v q r u
    → Decided v q r u
Decided-of v q (ok _, u') u p o = o
Decided-of v q (err _, u') u p o = (o.0, o.1 p)

-- Where the books balance, a reservation of one unit or more is granted exactly when the variant
-- has that much left, and then raises the counter by the quantity and leaves what is on hand; a
-- refused one changes nothing.
pub reserve-Decided :
    (w : World) (v q : ℕ) (cart order : Option ℕ) (u : UnitOfWork)
    → 0 < q
    → InBalance u.session
    → Decided v q (reserve w v q cart order u) u
reserve-Decided w v q cart order u p b =
    Decided-of v q (reserve w v q cart order u) u p (reserve-Outcome w v q cart order u b)

abbrev pub on_hand_at : ℕ → UnitOfWork → ℕ
on_hand_at v u = on_hand_of v u.session.stock_items

abbrev pub reserved_at : ℕ → UnitOfWork → ℕ
reserved_at v u = reserved_of v u.session.stock_items

-- What a race leaves behind: the counter has risen by what was granted and by nothing else, and it
-- is within what is on hand.
pub record Settled (v n : ℕ) (u end : UnitOfWork) : Type 0 where
  pub accounted : reserved_at v end ≡ reserved_at v u + n
  pub within : reserved_at v end ≤ on_hand_at v u
  pub unmoved : on_hand_at v end ≡ on_hand_at v u

-- However many shoppers compete and in whatever order they are served, the sum of what they are
-- granted is what the counter rises by, and never more than was left.
pub race-Settled :
    (w : World) (v : ℕ) (qs : List ℕ) (u : UnitOfWork)
    → InBalance u.session
    → Settled v (race w v qs u).0 u (race w v qs u).1
unfolding race
race-Settled w v [] u b = ground (arith, reserved-le-on_hand v u.session.stock_items b.stocked)
race-Settled w v (q ∷ qs) u b = ground (
  arith,
  reserve-Outcome w v q none none u b,
  race-Settled w v qs (reserve w v q none none u).1 (reserve-InBalance w v q none none u b),
)

abbrev pub ones : ℕ → List ℕ
ones zero = []
ones (suc n) = 1 ∷ ones n

-- Of n shoppers who want one unit each, as many are served as there are units left.
pub race-ones :
    (w : World) (v n : ℕ) (u : UnitOfWork)
    → InBalance u.session
    → (race w v (ones n) u).0 ≡ min n (on_hand_at v u - reserved_at v u)
unfolding race
race-ones w v zero u b = omega arith
race-ones w v (suc n) u b = ground (
  arith,
  reserve-Outcome w v 1 none none u b,
  race-ones w v n (reserve w v 1 none none u).1 (reserve-InBalance w v 1 none none u b),
)
