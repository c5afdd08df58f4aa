-- ===== src/Catalog/Search/Order.antt =====
-- The order in which `ProductRepository.search` of backend/app/modules/catalog/repository.py lists
-- products, from the newest to the oldest.
use nordmarkt.Common.{
  ℕ, zero, suc, ◌≤◌, ◌≡◌, length, ◌≢◌, refl, Bool, true, false, some, List, [], ◌∷◌, String, arith,
  str_eq, Perm, select, take, All, Bool-cases, inl, inr,
}
use mathlib.Core.List.Perm
use nordmarkt.Catalog.Models.{Product}
use nordmarkt.Catalog.Search.{
  Position, position_of, is_after, precedes, insert_product, sort_products, last_of,
}

abbrev pub Below : Product → List Product → Type 0
Below p = All (λ x. is_after (position_of p) x ≡ true)

abbrev pub Distinct : List Product → Type 0
Distinct [] = Unit
Distinct (p ∷ ps) = All (λ x. x.id ≢ p.id) ps × Distinct ps

-- Every row is strictly after the rows before it.
abbrev pub Descending : List Product → Type 0
Descending [] = Unit
Descending (p ∷ ps) = Below p ps × Descending ps

pub after_trans :
    (m : Position) (p x : Product)
    → is_after m p ≡ true
    → is_after (position_of p) x ≡ true
    → is_after m x ≡ true
after_trans m p x hp hx = ground arith

-- Of two rows that differ in their ids, one is after the other.
after_total :
    (p x : Product)
    → x.id ≢ p.id
    → is_after (position_of p) x ≡ false
    → is_after (position_of x) p ≡ true
after_total p x ne h = ground arith

Below-trans :
    (m : Position) (p : Product) (xs : List Product)
    → is_after m p ≡ true
    → Below p xs
    → All (λ x. is_after m x ≡ true) xs
Below-trans m p [] h hs = tt
Below-trans m p (x ∷ xs) h hs = (after_trans m p x h hs.0, Below-trans m p xs h hs.1)

pub All-select :
    (P : Product → Type 0) (f : Product → Bool) (xs : List Product) → All P xs → All P (select f xs)
All-select P f [] h = tt
All-select P f (x ∷ xs) h = ground (arith, All-select P f xs h.1)

pub Distinct-select :
    (f : Product → Bool) (xs : List Product) → Distinct xs → Distinct (select f xs)
Distinct-select f [] h = tt
Distinct-select f (x ∷ xs) h =
    ground (arith, Distinct-select f xs h.1, All-select (λ y. y.id ≢ x.id) f xs h.0)

All-insert :
    (P : Product → Type 0) (sort : String) (p : Product) (xs : List Product)
    → P p
    → All P xs
    → All P (insert_product sort p xs)
unfolding insert_product
All-insert P sort p [] hp h = (hp, tt)
All-insert P sort p (x ∷ xs) hp h = ground (arith, All-insert P sort p xs hp h.1)

pub All-sort :
    (P : Product → Type 0) (sort : String) (xs : List Product)
    → All P xs
    → All P (sort_products sort xs)
unfolding sort_products
All-sort P sort [] h = tt
All-sort P sort (x ∷ xs) h = All-insert P sort x _ h.0 (All-sort P sort xs h.1)

-- The lemmas below are about the sorts that go by time.
module _ (sort : String) (by_time : str_eq sort "rating" ≡ false) where
  precedes_time : (p x : Product) → precedes sort p x ≡ is_after (position_of p) x
  precedes_time p x = rw by_time

  insert-Descending :
      (p : Product) (xs : List Product)
      → All (λ x. x.id ≢ p.id) xs
      → Descending xs
      → Descending (insert_product sort p xs)
  unfolding insert_product
  insert-Descending p [] ne d = (tt, tt)
  insert-Descending p (x ∷ xs) ne d = elim (Bool-cases (is_after (position_of p) x)) [
    | inl before ↦
        rw (precedes_time p x, before) ((before, Below-trans (position_of p) x xs before d.0), d)
    | inr behind ↦
        rw (precedes_time p x, behind)
          (
            All-insert _ sort p xs (after_total p x ne.0 behind) d.0,
            insert-Descending p xs ne.1 d.1,
          )
  ]

  pub sort-Descending : (ps : List Product) → Distinct ps → Descending (sort_products sort ps)
  unfolding sort_products
  sort-Descending [] h = tt
  sort-Descending (p ∷ ps) h =
      insert-Descending p _ (All-sort _ sort ps h.0) (sort-Descending ps h.1)

-- A page that is not empty has a last row.
pub last_of-take :
    (n : ℕ) (xs : List Product)
    → 1 ≤ n
    → 1 ≤ length xs
    → (p : Product) × (last_of (take n xs) ≡ some p)
last_of-take zero xs hn hx = ground (arith, hn)
last_of-take (suc n) [] hn hx = ground (arith, hx)
last_of-take (suc zero) (x ∷ xs) hn hx = (x, refl)
last_of-take (suc (suc n)) (x ∷ []) hn hx = (x, refl)
last_of-take (suc (suc n)) (x ∷ y ∷ xs) hn hx =
    last_of-take (suc n) (y ∷ xs) (omega arith) (omega arith)

insert-Perm :
    (sort : String) (p : Product) (xs : List Product) → Perm (p ∷ xs) (insert_product sort p xs)
unfolding insert_product
insert-Perm sort p [] = Perm.refl (p ∷ [])
insert-Perm sort p (x ∷ xs) = elim (Bool-cases (precedes sort p x)) [
  | inl before ↦ rw before (Perm.refl (p ∷ x ∷ xs))
  | inr behind ↦ rw behind (Perm.trans (Perm.swap x p xs) (Perm.cons x (insert-Perm sort p xs)))
]

pub sort-Perm : (sort : String) (ps : List Product) → Perm ps (sort_products sort ps)
unfolding sort_products
sort-Perm sort [] = Perm.nil
sort-Perm sort (p ∷ ps) = Perm.trans (Perm.cons p (sort-Perm sort ps)) (insert-Perm sort p _)
