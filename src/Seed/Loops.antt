-- ===== src/Seed/Loops.antt =====
-- backend/scripts/seed.py: the two patterns of its loops.
use nordmarkt.Common.{ℕ, ◌+◌, Bool, none, some, List, [], ◌∷◌, ◌++◌, find, modify}
use nordmarkt.Core.Errors.{Result, ok, ◌>>=◌}

-- A `for` loop whose body can raise.
unfoldable pub loop : {R S : Type 0} → (R → S → Result S) → List R → S → Result S
loop body [] s = ok s
loop body (r ∷ rs) s = body r s >>= loop body rs

abbrev pub enumerate : {R : Type 0} → ℕ → List R → List (ℕ × R)
enumerate i [] = []
enumerate i (r ∷ rs) = (i, r) ∷ enumerate (i + 1) rs

-- The pattern of the script: the first row that a query finds is assigned to, or else a new one is
-- added, under the id of the next draw. The table comes with the number of draws.
module _ {A : Type 0} (is_it : A → Bool) (make : ℕ → A) (assign : A → A) where
  unfoldable pub upsert : List A × ℕ → List A × ℕ
  upsert (rows, n) = elim (find is_it rows) [
    | none ↦ (rows ++ make n ∷ [], n + 1)
    | some _ ↦ (modify is_it assign rows, n)
  ]

  -- The row that it leaves in the script's variable.
  unfoldable pub upserted : List A × ℕ → A
  upserted (rows, n) = elim (find is_it rows) [ none ↦ make n | some a ↦ assign a ]
