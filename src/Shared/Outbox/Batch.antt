-- ===== src/Shared/Outbox/Batch.antt =====
-- What `claim_batch` of backend/app/shared/outbox.py hands to the relay.
use nordmarkt.Common.{
  ℕ, zero, suc, ◌≤◌, ◌<◌, ◌≡◌, refl, sym, ap, ◌∙◌, subst, Bool, true, false, ◌&&◌, not, none, some,
  Option, List, [], ◌∷◌, ◌++◌, arith, length, take, drop, take-drop, select, All, Perm, Bool-cases,
  inl, inr, ◌⊎◌, leb, is_none,
}
use mathlib.Core.List.Perm
use mathlib.Core.List.{append_assoc, perm_middle}
use nordmarkt.Shared.Outbox.{OutboxMessage, is_due, claim_batch, insert_by_created, sort_by_created}

module _ (P : OutboxMessage → Type 0) where
  All-take : (n : ℕ) (ms : List OutboxMessage) → All P ms → All P (take n ms)
  All-take zero ms h = tt
  All-take (suc n) [] h = tt
  All-take (suc n) (m ∷ ms) h = (h.0, All-take n ms h.1)

  All-insert :
      (m : OutboxMessage) (ms : List OutboxMessage)
      → P m
      → All P ms
      → All P (insert_by_created m ms)
  unfolding insert_by_created
  All-insert m [] hm h = (hm, tt)
  All-insert m (x ∷ xs) hm h = ground (arith, All-insert m xs hm h.1)

  All-sort : (ms : List OutboxMessage) → All P ms → All P (sort_by_created ms)
  unfolding sort_by_created
  All-sort [] h = tt
  All-sort (m ∷ ms) h = All-insert m _ h.0 (All-sort ms h.1)

  All-select : (p : OutboxMessage → Bool) (ms : List OutboxMessage) → All P ms → All P (select p ms)
  All-select p [] h = tt
  All-select p (m ∷ ms) h = ground (arith, All-select p ms h.1)

  -- What holds of every row of the table holds of every row of a batch.
  pub All-claim_batch :
      (now limit : ℕ) (locked : OutboxMessage → Bool) (ms : List OutboxMessage)
      → All P ms
      → All P (claim_batch now locked limit ms)
  unfolding claim_batch
  All-claim_batch now limit locked ms h = All-take limit _ (All-sort _ (All-select _ ms h))

  All-selected :
      (p : OutboxMessage → Bool) (ms : List OutboxMessage)
      → ((m : OutboxMessage) → p m ≡ true → P m)
      → All P (select p ms)
  All-selected p [] h = tt
  All-selected p (m ∷ ms) h = ground (arith, h m, All-selected p ms h)

-- The row may be handed out: it is not published, its time has come, it was tried less than eight
-- times, and no other worker holds it.
abbrev pub IsFree : ℕ → (OutboxMessage → Bool) → OutboxMessage → Type 0
IsFree now locked m =
    (m.published_at ≡ none) × (m.next_attempt_at ≤ now) × (m.attempts < 8) × (locked m ≡ false)

abbrev pub IsNoLater : OutboxMessage → OutboxMessage → Type 0
IsNoLater m x = m.created_at ≤ x.created_at

-- The oldest row stands first.
abbrev pub IsOldestFirst : List OutboxMessage → Type 0
IsOldestFirst [] = Unit
IsOldestFirst (m ∷ ms) = All (IsNoLater m) ms × IsOldestFirst ms

no_later :
    (a b : OutboxMessage) (ms : List OutboxMessage)
    → a.created_at ≤ b.created_at
    → All (IsNoLater b) ms
    → All (IsNoLater a) ms
no_later a b [] h t = tt
no_later a b (m ∷ ms) h t = (omega (arith, t.0), no_later a b ms h t.1)

insert-IsOldestFirst :
    (m : OutboxMessage) (ms : List OutboxMessage)
    → IsOldestFirst ms
    → IsOldestFirst (insert_by_created m ms)
unfolding insert_by_created
insert-IsOldestFirst m [] h = (tt, tt)
insert-IsOldestFirst m (x ∷ xs) h =
    ground (arith, insert-IsOldestFirst m xs h.1, All-insert (IsNoLater x) m xs, no_later m x xs)

sort-IsOldestFirst : (ms : List OutboxMessage) → IsOldestFirst (sort_by_created ms)
unfolding sort_by_created
sort-IsOldestFirst [] = tt
sort-IsOldestFirst (m ∷ ms) = insert-IsOldestFirst m _ (sort-IsOldestFirst ms)

take-IsOldestFirst :
    (n : ℕ) (ms : List OutboxMessage) → IsOldestFirst ms → IsOldestFirst (take n ms)
take-IsOldestFirst zero ms h = tt
take-IsOldestFirst (suc n) [] h = tt
take-IsOldestFirst (suc n) (m ∷ ms) h =
    (All-take (IsNoLater m) n ms h.0, take-IsOldestFirst n ms h.1)

length-take_le : (n : ℕ) (ms : List OutboxMessage) → length (take n ms) ≤ n
length-take_le zero ms = omega arith
length-take_le (suc n) [] = omega arith
length-take_le (suc n) (m ∷ ms) = omega (arith, length-take_le n ms)

is_none-none : (o : Option ℕ) → is_none o ≡ true → o ≡ none
is_none-none none h = refl
is_none-none (some n) h = absurd (ground (arith, h))

module _ (now : ℕ) (locked : OutboxMessage → Bool) where
  abbrev may_go : OutboxMessage → Bool
  may_go m = is_due now m && not (locked m)

  free : (m : OutboxMessage) → may_go m ≡ true → IsFree now locked m
  unfolding is_due
  free m h = (
    is_none-none m.published_at (ground (arith, h)),
    ground (arith, h),
    ground (arith, h),
    ground (arith, h),
  )

  free_may_go : (m : OutboxMessage) → IsFree now locked m → may_go m ≡ true
  unfolding is_due
  free_may_go m (e, due, left, here) = rw e (ground (arith, due, left, here))

insert-Perm : (m : OutboxMessage) (ms : List OutboxMessage) → Perm (m ∷ ms) (insert_by_created m ms)
unfolding insert_by_created
insert-Perm m [] = Perm.refl (m ∷ [])
insert-Perm m (x ∷ xs) = elim (Bool-cases (leb m.created_at x.created_at)) [
  | inl before ↦ rw before (Perm.refl (m ∷ x ∷ xs))
  | inr behind ↦ rw behind (Perm.trans (Perm.swap x m xs) (Perm.cons x (insert-Perm m xs)))
]

sort-Perm : (ms : List OutboxMessage) → Perm ms (sort_by_created ms)
unfolding sort_by_created
sort-Perm [] = Perm.nil
sort-Perm (m ∷ ms) = Perm.trans (Perm.cons m (sort-Perm ms)) (insert-Perm m _)

-- The rows that a test passes and those that it does not are all rows.
partition-Perm :
    (p : OutboxMessage → Bool) (ms : List OutboxMessage)
    → Perm ms (select p ms ++ select (λ m. not (p m)) ms)
partition-Perm p [] = Perm.nil
partition-Perm p (m ∷ ms) = elim (Bool-cases (p m)) [
  | inl kept ↦ rw kept (Perm.cons m (partition-Perm p ms))
  | inr gone ↦ rw gone (
      Perm.trans (Perm.cons m (partition-Perm p ms))
        (Perm.symm (perm_middle (select p ms) (select (λ x. not (p x)) ms))))
]

-- The batch is full, and nothing in it is younger than the row.
abbrev pub IsBehind : ℕ → List OutboxMessage → OutboxMessage → Type 0
IsBehind limit batch m = (length batch ≡ limit) × All (λ x. x.created_at ≤ m.created_at) batch

All-IsBehind_none : (ms : List OutboxMessage) → All (IsBehind zero []) ms
All-IsBehind_none [] = tt
All-IsBehind_none (m ∷ ms) = ((refl, tt), All-IsBehind_none ms)

All-IsBehind_cons :
    (n : ℕ) (x : OutboxMessage) (batch ms : List OutboxMessage)
    → All (IsNoLater x) ms
    → All (IsBehind n batch) ms
    → All (IsBehind (suc n) (x ∷ batch)) ms
All-IsBehind_cons n x batch [] h k = tt
All-IsBehind_cons n x batch (m ∷ ms) (first, h) ((full, older), k) =
    ((ap suc full, (first, older)), All-IsBehind_cons n x batch ms h k)

All-drop :
    (P : OutboxMessage → Type 0) (n : ℕ) (ms : List OutboxMessage) → All P ms → All P (drop n ms)
All-drop P zero ms h = h
All-drop P (suc n) [] h = tt
All-drop P (suc n) (m ∷ ms) h = All-drop P n ms h.1

drop-IsBehind :
    (n : ℕ) (ms : List OutboxMessage) → IsOldestFirst ms → All (IsBehind n (take n ms)) (drop n ms)
drop-IsBehind zero ms h = All-IsBehind_none ms
drop-IsBehind (suc n) [] h = tt
drop-IsBehind (suc n) (m ∷ ms) h =
    All-IsBehind_cons n m (take n ms) (drop n ms) (All-drop (IsNoLater m) n ms h.0)
      (drop-IsBehind n ms h.1)

module _ {P Q : OutboxMessage → Type 0} (f : (m : OutboxMessage) → P m → Q m) where
  All-map : (ms : List OutboxMessage) → All P ms → All Q ms
  All-map [] h = tt
  All-map (m ∷ ms) h = (f m h.0, All-map ms h.1)

All-append :
    (P : OutboxMessage → Type 0) (xs ys : List OutboxMessage)
    → All P xs
    → All P ys
    → All P (xs ++ ys)
All-append P [] ys h k = k
All-append P (x ∷ xs) ys h k = (h.0, All-append P xs ys h.1 k)

-- A batch holds at most `limit` rows, the oldest first, and each of them is unpublished, due, was
-- tried less than eight times and is not locked by another worker. It is a part of the table, and
-- where such a row is left out, the batch is full and nothing in it is younger.
pub claim_batch_lem :
    (now limit : ℕ) (locked : OutboxMessage → Bool) (ms : List OutboxMessage)
    → let batch = claim_batch now locked limit ms in
      (length batch ≤ limit)
      × All (IsFree now locked) batch
      × IsOldestFirst batch
      × ((rest : List OutboxMessage) × Perm ms (batch ++ rest)
          × All (λ m. (¬ IsFree now locked m) ⊎ IsBehind limit batch m) rest)
unfolding claim_batch
claim_batch_lem now limit locked ms =
    let chosen = select (may_go now locked) ms in
    let others = select (λ m. not (may_go now locked m)) ms in
    let sorted = sort_by_created chosen in
    let whole : take limit sorted ++ (drop limit sorted ++ others) ≡ sorted ++ others =
      sym (append_assoc (take limit sorted) (drop limit sorted) others)
      ∙ ap (λ xs. xs ++ others) (take-drop limit sorted) in
    (
      length-take_le limit sorted,
      All-take (IsFree now locked) limit _ (
          All-sort (IsFree now locked) _
            (All-selected (IsFree now locked) (may_go now locked) ms (free now locked))),
      take-IsOldestFirst limit _ (sort-IsOldestFirst chosen),
      (
        drop limit sorted ++ others,
        subst (Perm ms) (sym whole) (
            Perm.trans (partition-Perm (may_go now locked) ms)
              (Perm.append_right others (sort-Perm chosen))),
        All-append _ (drop limit sorted) others
            (All-map (λ m behind. inr behind) (drop limit sorted)
              (drop-IsBehind limit sorted (sort-IsOldestFirst chosen)))
            (All-selected _ (λ m. not (may_go now locked m)) ms
              (λ m held. inl (λ is_free. ground (arith, held, free_may_go now locked m is_free)))),
      ),
    )
