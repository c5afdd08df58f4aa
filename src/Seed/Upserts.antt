-- ===== src/Seed/Upserts.antt =====
-- backend/scripts/seed.py: what an upsert leaves, and that doing it again changes nothing.
use nordmarkt.Common.{
  ℕ, ◌+◌, Bool, true, false, ◌&&◌, ◌≡◌, refl, subst, sym, ap, ◌∙◌, none, some, List, [], ◌∷◌, ◌++◌,
  find, modify, arith, Option-cases, inl, inr, All,
}
use nordmarkt.Core.Errors.{Result, ok, bind-ok}
use nordmarkt.Seed.Loops.{loop, upsert, upserted}

pub ok_injective : {A : Type 0} {a b : A} → ok a ≡ ok b → a ≡ b
ok_injective h = cc

-- The first row of a query is known, and an assignment leaves it as it is.
abbrev pub IsSown : {A : Type 0} → (A → Bool) → (A → A) → List A → A → Type 0
IsSown is_it assign rows a = (find is_it rows ≡ some a) × (assign a ≡ a)

module _ {A : Type 0} (is_it : A → Bool) where
  pub find-holds : (rows : List A) (a : A) → find is_it rows ≡ some a → is_it a ≡ true
  find-holds [] a h = ground (arith, h)
  find-holds (x ∷ rows) a h = ground (arith, h, find-holds rows a)

  pub find-append_new :
      (rows : List A) (a : A)
      → find is_it rows ≡ none
      → is_it a ≡ true
      → find is_it (rows ++ a ∷ []) ≡ some a
  find-append_new [] a h e = rw e
  find-append_new (x ∷ rows) a h e = ground (arith, find-append_new rows a)

module _ {A : Type 0} (is_it : A → Bool) (assign : A → A) where
  pub find-modify :
      (rows : List A) (a : A)
      → ((x : A) → is_it (assign x) ≡ is_it x)
      → find is_it rows ≡ some a
      → find is_it (modify is_it assign rows) ≡ some (assign a)
  find-modify [] a same h = ground arith
  find-modify (x ∷ rows) a same h = ground (arith, same x, find-modify rows a same)

  pub modify-fixed :
      (rows : List A) (a : A)
      → find is_it rows ≡ some a
      → assign a ≡ a
      → modify is_it assign rows ≡ rows
  modify-fixed [] a h e = refl
  modify-fixed (x ∷ rows) a h e = ground (arith, modify-fixed rows a)

  pub find-modify_other :
      (p : A → Bool) (rows : List A)
      → ((x : A) → p (assign x) ≡ p x)
      → ((x : A) → p x ≡ true → is_it x ≡ false)
      → find p (modify is_it assign rows) ≡ find p rows
  find-modify_other p [] same apart = refl
  find-modify_other p (x ∷ rows) same apart =
      ground (arith, same x, apart x, find-modify_other p rows same apart)

module _ {A : Type 0} (is_it : A → Bool) (make : ℕ → A) (assign : A → A) where
  upsert-new :
      (rows : List A) (n : ℕ)
      → find is_it rows ≡ none
      → (upsert is_it make assign (rows, n) ≡ (rows ++ make n ∷ [], n + 1))
        × (upserted is_it make assign (rows, n) ≡ make n)
  unfolding upsert upserted
  upsert-new rows n e = ground (arith, e)

  upsert-found :
      (rows : List A) (n : ℕ) (a : A)
      → find is_it rows ≡ some a
      → (upsert is_it make assign (rows, n) ≡ (modify is_it assign rows, n))
        × (upserted is_it make assign (rows, n) ≡ assign a)
  unfolding upsert upserted
  upsert-found rows n a e = ground (arith, e)

  pub upsert-IsSown :
      (rows : List A) (n : ℕ)
      → ((m : ℕ) → is_it (make m) ≡ true)
      → ((x : A) → is_it (assign x) ≡ is_it x)
      → ((m : ℕ) → assign (make m) ≡ make m)
      → ((x : A) → assign (assign x) ≡ assign x)
      → IsSown is_it assign
          (upsert is_it make assign (rows, n)).0
          (upserted is_it make assign (rows, n))
  upsert-IsSown rows n made same fresh again = elim (Option-cases (find is_it rows)) [
    | inl e ↦
        let (left, row) = upsert-new rows n e in
        (
          ap (λ (t : List A × ℕ). find is_it t.0) left
              ∙ find-append_new is_it rows (make n) e (made n)
              ∙ ap some (sym row),
          subst (λ x. assign x ≡ x) (sym row) (fresh n),
        )
    | inr (a, e) ↦
        let (left, row) = upsert-found rows n a e in
        (
          ap (λ (t : List A × ℕ). find is_it t.0) left
              ∙ find-modify is_it assign rows a same e
              ∙ ap some (sym row),
          subst (λ x. assign x ≡ x) (sym row) (again a),
        )
  ]

  -- Done again, it finds the same row and changes nothing.
  pub upsert-again :
      (rows : List A) (n : ℕ) (a : A)
      → IsSown is_it assign rows a
      → (upsert is_it make assign (rows, n) ≡ (rows, n))
        × (upserted is_it make assign (rows, n) ≡ a)
  upsert-again rows n a (h, e) =
      let (left, row) = upsert-found rows n a h in
      (left ∙ ap (λ t. (t, n)) (modify-fixed is_it assign rows a h e), row ∙ e)

  -- What another query finds, it finds after an upsert of a row that is not its own.
  find-append_other :
      (p : A → Bool) (rows more : List A) (b : A)
      → find p rows ≡ some b
      → find p (rows ++ more) ≡ some b
  find-append_other p [] more b h = ground arith
  find-append_other p (x ∷ rows) more b h = ground (arith, find-append_other p rows more b)

  pub find-upsert :
      (p : A → Bool) (rows : List A) (n : ℕ) (b : A)
      → ((x : A) → p (assign x) ≡ p x)
      → ((x : A) → p x ≡ true → is_it x ≡ false)
      → find p rows ≡ some b
      → find p (upsert is_it make assign (rows, n)).0 ≡ some b
  find-upsert p rows n b same apart h = elim (Option-cases (find is_it rows)) [
    | inl e ↦
        ap (λ (t : List A × ℕ). find p t.0) (upsert-new rows n e).0
        ∙ find-append_other p rows (make n ∷ []) b h
    | inr (a, e) ↦
        ap (λ (t : List A × ℕ). find p t.0) (upsert-found rows n a e).0
        ∙ find-modify_other is_it assign p rows same apart
        ∙ h
  ]

-- An upsert that assigns nothing loses no row of any query.
module _ {A : Type 0} (is_it : A → Bool) (make : ℕ → A) where
  modify-nothing : (rows : List A) → modify is_it (λ a. a) rows ≡ rows
  modify-nothing [] = refl
  modify-nothing (x ∷ rows) = ground (arith, modify-nothing rows)

  pub find-upsert_nothing :
      (p : A → Bool) (rows : List A) (n : ℕ) (b : A)
      → find p rows ≡ some b
      → find p (upsert is_it make (λ a. a) (rows, n)).0 ≡ some b
  find-upsert_nothing p rows n b h = elim (Option-cases (find is_it rows)) [
    | inl e ↦
        ap (λ (t : List A × ℕ). find p t.0) (upsert-new is_it make (λ a. a) rows n e).0
        ∙ find-append_other is_it make (λ a. a) p rows (make n ∷ []) b h
    | inr (a, e) ↦
        ap (λ (t : List A × ℕ). find p t.0) (upsert-found is_it make (λ a. a) rows n a e).0
        ∙ ap (find p) (modify-nothing rows)
        ∙ h
  ]

-- Each row is good, and apart from the rows after it.
module _ {R : Type 0} (is_good : R → Bool) (is_apart : R → R → Bool) where
  abbrev pub apart_from : R → List R → Bool
  apart_from r [] = true
  apart_from r (q ∷ qs) = is_apart r q && apart_from r qs

  abbrev pub all_apart : List R → Bool
  all_apart [] = true
  all_apart (r ∷ rs) = is_good r && apart_from r rs && all_apart rs

-- A loop that settles each of its rows, where later rows leave the earlier ones settled.
module _ {R S : Type 0} (body : R → S → Result S) (P : R → S → Type 0) where
  pub loop-again :
      (rs : List R) (s : S)
      → ((r : R) (t : S) → P r t → body r t ≡ ok t)
      → All (λ r. P r s) rs
      → loop body rs s ≡ ok s
  unfolding loop
  loop-again [] s still h = refl
  loop-again (r ∷ rs) s still (h, hs) = rw (still r s h) (loop-again rs s still hs)

  module _ (is_good : R → Bool) (is_apart : R → R → Bool) where
    pub loop-keeps :
        (r : R) (rs : List R) (s s' : S)
        → ((q : R) (t t' : S) → is_apart r q ≡ true → P r t → body q t ≡ ok t' → P r t')
        → apart_from is_good is_apart r rs ≡ true
        → P r s
        → loop body rs s ≡ ok s'
        → P r s'
    unfolding loop
    loop-keeps r [] s s' keep apart h e = subst (P r) (cc) h
    loop-keeps r (q ∷ qs) s s' keep apart h e =
        let (t, first, rest) = bind-ok (body q s) (loop body qs) s' e in
        loop-keeps r qs t s' keep (ground arith) (keep q s t (ground arith) h first) rest

    pub loop-settles :
        (rs : List R) (s s' : S)
        → ((r : R) (t t' : S) → is_good r ≡ true → body r t ≡ ok t' → P r t')
        → ((r q : R) (t t' : S) → is_apart r q ≡ true → P r t → body q t ≡ ok t' → P r t')
        → all_apart is_good is_apart rs ≡ true
        → loop body rs s ≡ ok s'
        → All (λ r. P r s') rs
    unfolding loop
    loop-settles [] s s' settle keep apart e = tt
    loop-settles (r ∷ rs) s s' settle keep apart e =
        let (t, first, rest) = bind-ok (body r s) (loop body rs) s' e in
        (
          loop-keeps r rs t s' (keep r) (ground arith) (settle r s t (ground arith) first) rest,
          loop-settles rs t s' settle keep (ground arith) rest,
        )

abbrev pub all_fit : {R : Type 0} → (R → Bool) → List R → Bool
all_fit is_fit [] = true
all_fit is_fit (r ∷ rs) = is_fit r && all_fit is_fit rs

-- A loop whose body succeeds on every fit row, in the states that it goes through.
module _ {R S : Type 0} (body : R → S → Result S) (I : S → Type 0) (is_fit : R → Bool) where
  pub loop-ok :
      (rs : List R) (s : S)
      → ((r : R) (t : S) → is_fit r ≡ true → I t → (t' : S) × (body r t ≡ ok t') × I t')
      → all_fit is_fit rs ≡ true
      → I s
      → (s' : S) × (loop body rs s ≡ ok s')
  unfolding loop
  loop-ok [] s go fit i = (s, refl)
  loop-ok (r ∷ rs) s go fit i =
      let (t, first, i') = go r s (ground arith) i in
      let (s', rest) = loop-ok rs t go (ground arith) i' in (s', rw first rest)
