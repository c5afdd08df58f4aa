-- ===== src/Inventory/Commit.antt =====
-- The loop of backend/app/modules/orders/service.py `mark_paid` over the open reservations of an
-- order: each commit succeeds, and together they take what the order holds off the shelves.
use nordmarkt.Common.{
  ℕ, ◌+◌, ◌≡◌, refl, ◌∙◌, Bool, true, false, some, List, [], ◌∷◌, arith, ◌==◌, update, Bool-cases,
  inl, inr, find, modify, map, select, any,
}
use nordmarkt.Core.Errors.{ok}
use nordmarkt.Shared.UnitOfWork.{World, UnitOfWork, ◌>>=◌}
use nordmarkt.Inventory.Models.{StockReservation, is_open}
use nordmarkt.Inventory.{commit_reservation, for_each}
use nordmarkt.Inventory.Ledger.{on_hand_of, open_of, held, on_hand_of-shipped, of_variant, shipped}
use nordmarkt.Inventory.Calls.{commit_reservation_open}
use nordmarkt.Inventory.Books.{InBalance, quantity-le-reserved, shipped-Balanced}
use nordmarkt.Inventory.Sweep.{has_id, Distinct}

-- The rows of `xs` are open, and each is the row that its id leads to.
abbrev pub Held : List StockReservation → List StockReservation → Type 0
Held [] rs = Unit
Held (x ∷ xs) rs = ((find (has_id x.id) rs ≡ some x) × (is_open x ≡ true)) × Held xs rs

find-modify_ne :
    (id k : ℕ) (f : StockReservation → StockReservation) (rs : List StockReservation)
    → ((r : StockReservation) → (f r).id ≡ r.id)
    → (id == k) ≡ false
    → find (has_id k) (modify (has_id id) f rs) ≡ find (has_id k) rs
find-modify_ne id k f [] same h = refl
find-modify_ne id k f (r ∷ rs) same h = ground (arith, same r, find-modify_ne id k f rs same h)

Held-modify :
    (id : ℕ) (f : StockReservation → StockReservation) (xs rs : List StockReservation)
    → ((r : StockReservation) → (f r).id ≡ r.id)
    → any (has_id id) xs ≡ false
    → Held xs rs
    → Held xs (modify (has_id id) f rs)
Held-modify id f [] rs same h held = tt
Held-modify id f (x ∷ xs) rs same h held = (
  (find-modify_ne id x.id f rs same (ground arith) ∙ held.0.0, held.0.1),
  Held-modify id f xs rs same (ground arith) held.1,
)

-- The rows that a query selects are the rows behind their ids.
any-select :
    (k : ℕ) (p : StockReservation → Bool) (rs : List StockReservation)
    → any (has_id k) rs ≡ false
    → any (has_id k) (select p rs) ≡ false
any-select k p [] h = refl
any-select k p (r ∷ rs) h = ground (arith, any-select k p rs)

pub select-Distinct :
    (p : StockReservation → Bool) (rs : List StockReservation)
    → Distinct rs
    → Distinct (select p rs)
select-Distinct p [] d = tt
select-Distinct p (r ∷ rs) d = ground (arith, any-select r.id p rs d.0, select-Distinct p rs d.1)

Held-cons :
    (r : StockReservation) (xs rs : List StockReservation)
    → any (has_id r.id) xs ≡ false
    → Held xs rs
    → Held xs (r ∷ rs)
Held-cons r [] rs h held = tt
Held-cons r (x ∷ xs) rs h held = (ground arith, Held-cons r xs rs (ground arith) held.1)

pub select-Held :
    (p : StockReservation → Bool) (rs : List StockReservation)
    → ((r : StockReservation) → p r ≡ true → is_open r ≡ true)
    → Distinct rs
    → Held (select p rs) rs
select-Held p [] shows d = tt
select-Held p (r ∷ rs) shows d =
    let rest =
      Held-cons r (select p rs) rs (any-select r.id p rs d.0) (select-Held p rs shows d.1) in
    elim (Bool-cases (p r)) [
      | inl hit ↦ rw hit ((ground arith, shows r hit), rest)
      | inr miss ↦ rw miss rest
    ]

-- What the loop leaves.
pub record Committed (xs : List StockReservation) (u end : UnitOfWork) : Type 0 where
  pub balanced : InBalance end.session
  pub taken :
      (k : ℕ)
      → on_hand_of k end.session.stock_items + open_of k xs ≡ on_hand_of k u.session.stock_items
  pub orders : end.session.orders ≡ u.session.orders
  pub apart : end.committed ≡ u.committed
  pub quiet : end.events ≡ u.events

pub commit_each :
    (w : World) (xs : List StockReservation) (u : UnitOfWork)
    → InBalance u.session
    → Distinct xs
    → Held xs u.session.reservations
    → let (r, end) = for_each (commit_reservation w) (map (λ x. x.id) xs) u in
      (r ≡ ok tt) × Committed xs u end
unfolding for_each ◌>>=◌
commit_each w [] u b d h = (
  refl,
  record { balanced = b; taken = λ k. omega arith; orders = refl; apart = refl; quiet = refl },
)
commit_each w (x ∷ xs) u b d ((e, o), h) =
    let rs = u.session.reservations in
    let u' : UnitOfWork = record u {
      session = record u.session {
        stock_items = update (of_variant x.variant_id) (shipped x.quantity) u.session.stock_items;
        reservations = modify (has_id x.id) (λ r. record r { committed_at = some w.now }) rs;
      };
    } in
    let done : commit_reservation w x.id u ≡ (ok tt, u') =
      commit_reservation_open w x.id u x b e o in
    let b' : InBalance u'.session =
      shipped-Balanced u.session.stock_items rs x x.id b e o
        (λ r. record r { committed_at = some w.now }) (ground arith) in
    let (fine, rest) =
      commit_each w xs u' b' d.1
        (Held-modify x.id (λ r. record r { committed_at = some w.now }) xs rs (λ r. refl) d.0 h) in
    rw done (
      fine,
      record {
        balanced = rest.balanced;
        taken = λ k. ground (
          arith,
          rest.taken k,
          on_hand_of-shipped x.variant_id x.quantity k u.session.stock_items b.stocked
              (b.single x.variant_id) (quantity-le-reserved u.session.stock_items rs x x.id b e o),
        );
        orders = rest.orders;
        apart = rest.apart;
        quiet = rest.quiet;
      },
    )
