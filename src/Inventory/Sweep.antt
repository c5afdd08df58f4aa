-- ===== src/Inventory/Sweep.antt =====
-- The sweeper's loop: `release_expired` of backend/app/modules/inventory/service.py over the rows
-- that it selects.
pub mod Idle
use nordmarkt.Common.{
  ℕ, suc, ◌+◌, zero, ◌≤◌, ◌≡◌, ◌⊎◌, refl, sym, subst, ◌∙◌, Bool, true, false, ◌&&◌, Option, none,
  some, List, [], ◌∷◌, ◌++◌, arith, ◌==◌, if◌then◌else◌, Bool-cases, Option-cases, inl, inr, find,
  modify, map, take, select, any, All, length, length-map,
}
use nordmarkt.Core.Errors.{Result, ok, err}
use nordmarkt.Shared.UnitOfWork.{World, UnitOfWork, Action, ◌>>=◌}
use nordmarkt.Inventory.Models.{StockReservation, is_open}
use nordmarkt.Inventory.{release, for_each, release_expired, is_expired}
use nordmarkt.Inventory.Calls.{release_settled, release_open}
use nordmarkt.Inventory.Books.{InBalance, release-InBalance}

abbrev pub has_id : ℕ → StockReservation → Bool
has_id id r = r.id == id

abbrev pub mem : ℕ → List ℕ → Bool
mem k ids = any (λ j. j == k) ids

-- No two reservations have one id.
abbrev pub Distinct : List StockReservation → Type 0
Distinct [] = Unit
Distinct (r ∷ rs) = (any (has_id r.id) rs ≡ false) × Distinct rs

-- Every reference leads to a row.
abbrev pub Present : List ℕ → List StockReservation → Type 0
Present [] rs = Unit
Present (id ∷ ids) rs = (any (has_id id) rs ≡ true) × Present ids rs

module _ (f : StockReservation → StockReservation)
    (same : (r : StockReservation) → (f r).id ≡ r.id) where
  pub any-modify :
      (id k : ℕ) (rs : List StockReservation)
      → any (has_id k) (modify (has_id id) f rs) ≡ any (has_id k) rs
  any-modify id k [] = refl
  any-modify id k (r ∷ rs) = ground (arith, same r, any-modify id k rs)

  pub modify-Present :
      (id : ℕ) (ids : List ℕ) (rs : List StockReservation)
      → Present ids rs
      → Present ids (modify (has_id id) f rs)
  modify-Present id [] rs h = tt
  modify-Present id (k ∷ ids) rs h = (any-modify id k rs ∙ h.0, modify-Present id ids rs h.1)

  pub modify-Distinct :
      (id : ℕ) (rs : List StockReservation) → Distinct rs → Distinct (modify (has_id id) f rs)
  modify-Distinct id [] h = tt
  modify-Distinct id (r ∷ rs) h =
      ground (arith, same r, any-modify id r.id rs, modify-Distinct id rs h.1)

find-any :
    (id : ℕ) (rs : List StockReservation)
    → any (has_id id) rs ≡ true
    → (r : StockReservation) × (find (has_id id) rs ≡ some r)
find-any id [] h = cc
find-any id (r ∷ rs) h = elim (Bool-cases (r.id == id)) [
  | inl e ↦ (r, rw e)
  | inr e ↦ let (x, p) = find-any id rs (ground arith) in (x, ground arith)
]

-- One release in the loop: it succeeds, and its row is settled in place or was so already.
abbrev pub released : World → StockReservation → StockReservation
released w r = record r { released_at = some w.now }

pub release_step :
    (w : World) (id : ℕ) (u : UnitOfWork)
    → InBalance u.session
    → any (has_id id) u.session.reservations ≡ true
    → (r : StockReservation) × (find (has_id id) u.session.reservations ≡ some r)
      × ((release w id u).0 ≡ ok tt)
      × (((is_open r ≡ false) × ((release w id u).1.session.reservations ≡ u.session.reservations))
          ⊎ ((release w id u).1.session.reservations
              ≡ modify (has_id id) (released w) u.session.reservations))
release_step w id u b h =
    let (r, e) = find-any id u.session.reservations h in
    (
      r,
      e,
      elim (Bool-cases (is_open r)) [
        | inl o ↦ rw (release_open w id u r b e o)
        | inr s ↦ rw (release_settled w id u r e s)
      ],
      elim (Bool-cases (is_open r)) [
        | inl o ↦ inr (rw (release_open w id u r b e o))
        | inr s ↦ inl (s, rw (release_settled w id u r e s))
      ],
    )

pub for_each_cons :
    (f : ℕ → Action (Unit {0})) (id : ℕ) (ids : List ℕ) (u : UnitOfWork)
    → (f id u).0 ≡ ok tt
    → for_each f (id ∷ ids) u ≡ for_each f ids (f id u).1
unfolding for_each ◌>>=◌
for_each_cons f id ids u h = ground arith

-- The references that a query makes.
Present-cons :
    (r : StockReservation) (ids : List ℕ) (rs : List StockReservation)
    → Present ids rs
    → Present ids (r ∷ rs)
Present-cons r [] rs h = tt
Present-cons r (id ∷ ids) rs h = (ground arith, Present-cons r ids rs h.1)

pub selected-Present :
    (n : ℕ) (p : StockReservation → Bool) (rs : List StockReservation)
    → Present (map (λ r. r.id) (take n (select p rs))) rs
selected-Present zero p [] = tt
selected-Present (suc n) p [] = tt
selected-Present zero p (r ∷ rs) = tt
selected-Present (suc n) p (r ∷ rs) = elim (Bool-cases (p r)) [
  | inl hit ↦ rw hit (ground arith, Present-cons r _ rs (selected-Present n p rs))
  | inr miss ↦ rw miss (Present-cons r _ rs (selected-Present (suc n) p rs))
]

module _ (w : World) (locked : StockReservation → Bool) where
  -- The loop always comes to its end.
  for_each_ok :
      (ids : List ℕ) (u : UnitOfWork)
      → InBalance u.session
      → Present ids u.session.reservations
      → (for_each (release w) ids u).0 ≡ ok tt
  unfolding for_each ◌>>=◌
  for_each_ok [] u b h = refl
  for_each_ok (id ∷ ids) u b h =
      let (_, _, done, o) = release_step w id u b h.0 in
      rw (for_each_cons (release w) id ids u done) (
        for_each_ok ids (release w id u).1 (release-InBalance w id u b) (elim o [
          | inl (_, same) ↦ rw same h.1
          | inr set ↦
              rw set (modify-Present (released w) (λ x. refl) id ids u.session.reservations h.1)
        ]))

  -- A sweep of balanced books never raises, and returns how many rows it selected.
  pub release_expired_count :
      (limit : ℕ) (u : UnitOfWork)
      → InBalance u.session
      → (release_expired w locked limit u).0
        ≡ ok (length (take limit (select (is_expired w.now locked) u.session.reservations)))
  unfolding release_expired ◌>>=◌
  release_expired_count limit u b =
      let ids = take limit (select (is_expired w.now locked) u.session.reservations) in
      ground (
        arith,
        for_each_ok (map (λ r. r.id) ids) u b
            (selected-Present limit (is_expired w.now locked) u.session.reservations),
        length-map ids (λ r. r.id),
      )
