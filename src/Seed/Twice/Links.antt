-- ===== src/Seed/Twice/Links.antt =====
-- backend/scripts/seed.py: the parents of categories, set again.
use nordmarkt.Common.{
  ℕ, Bool, true, false, ◌≡◌, refl, subst, sym, ap, ◌∙◌, none, some, List, [], ◌∷◌, find, modify,
  any, str_eq, eq_iff, arith, Bool-cases, Option-cases, ◌⊎◌, inl, inr, All, if◌then◌else◌, String,
}
use nordmarkt.Core.Errors.{ok, err, Exception, ◌>>=◌, bind-ok}
use nordmarkt.Catalog.Models.{Category}
use nordmarkt.Api.Catalog.Forest.{parent_path}
use nordmarkt.Seed.Loops.{loop}
use nordmarkt.Seed.Categories.{
  has_path, rename_category, category_id, is_nested, set_parent, link_category, distinct_slugs,
}
use nordmarkt.Seed.Rows.{CategoryRow}
use nordmarkt.Seed.Upserts.{
  find-holds, ok_injective, IsSown, find-modify, find-modify_other, modify-fixed, loop-again,
  loop-settles, all_apart,
}
use nordmarkt.Seed.Twice.Categories.{str_eq-apart, CategorySown, apart_paths}

-- A row that a query finds is as an assignment leaves it, if there is one.
abbrev pub IsFixed : {A : Type 0} → (A → Bool) → (A → A) → List A → Type 0
IsFixed {A} is_it assign rows = (find is_it rows ≡ none) ⊎ ((a : A) × IsSown is_it assign rows a)

module _ {A : Type 0} (is_it : A → Bool) (assign : A → A) where
  modify-none : (rows : List A) → find is_it rows ≡ none → modify is_it assign rows ≡ rows
  modify-none [] h = refl
  modify-none (x ∷ rows) h = ground (arith, modify-none rows)

  modify-IsFixed :
      (rows : List A)
      → ((x : A) → is_it (assign x) ≡ is_it x)
      → ((x : A) → assign (assign x) ≡ assign x)
      → IsFixed is_it assign (modify is_it assign rows)
  modify-IsFixed rows same again = elim (Option-cases (find is_it rows)) [
    | inl e ↦ inl (ap (find is_it) (modify-none rows e) ∙ e)
    | inr (a, e) ↦ inr (assign a, (find-modify is_it assign rows a same e, again a))
  ]

  IsFixed-modify : (rows : List A) → IsFixed is_it assign rows → modify is_it assign rows ≡ rows
  IsFixed-modify rows (inl e) = modify-none rows e
  IsFixed-modify rows (inr (a, (e, fixed))) = modify-fixed is_it assign rows a e fixed

-- The parent of a nested category is set, to the id of the category of the parent path.
module _ (all_rows : List CategoryRow) where
  abbrev pub LinkedTo : CategoryRow → List Category → ℕ → Type 0
  LinkedTo r cs parent =
      (category_id all_rows (parent_path r.path) cs ≡ ok parent)
      × IsFixed (has_path r.path) (set_parent parent) cs

  abbrev pub IsLinked : CategoryRow → List Category → Type 0
  IsLinked r cs =
      (is_nested r.path ≡ false)
      ⊎ ((is_nested r.path ≡ true) × ((parent : ℕ) × LinkedTo r cs parent))

  find_id-modify :
      (path other : String) (parent : ℕ) (cs : List Category)
      → (elim (find (has_path path) (modify (has_path other) (set_parent parent) cs)) [
        | none ↦ err Exception.key_error
        | some c ↦ ok c.id
      ])
        ≡ (elim (find (has_path path) cs) [ none ↦ err Exception.key_error | some c ↦ ok c.id ])
  find_id-modify path other parent [] = refl
  find_id-modify path other parent (c ∷ cs) = ground (arith, find_id-modify path other parent cs)

  category_id-modify :
      (path other : String) (parent : ℕ) (cs : List Category)
      → category_id all_rows path (modify (has_path other) (set_parent parent) cs)
        ≡ category_id all_rows path cs
  category_id-modify path other parent cs = ground (arith, find_id-modify path other parent cs)

  link_category-lem :
      (r : CategoryRow) (cs cs' : List Category)
      → link_category all_rows r cs ≡ ok cs'
      → ((is_nested r.path ≡ false) × (cs ≡ cs'))
        ⊎ ((is_nested r.path ≡ true)
            × ((parent : ℕ) × (category_id all_rows (parent_path r.path) cs ≡ ok parent)
                × (modify (has_path r.path) (set_parent parent) cs ≡ cs')))
  unfolding link_category
  link_category-lem r cs cs' h = elim (Bool-cases (is_nested r.path)) [
    | inr flat ↦ inl (flat, ground (arith, h, flat))
    | inl nested ↦
        let h' : (category_id all_rows (parent_path r.path) cs >>= λ parent.
        ok (modify (has_path r.path) (set_parent parent) cs))
            ≡ ok cs' =
          ground (arith, h, nested) in
        let (parent, known, done) =
          bind-ok (category_id all_rows (parent_path r.path) cs)
            (λ parent. ok (modify (has_path r.path) (set_parent parent) cs)) cs' h' in
        inr (nested, (parent, known, ok_injective done))
  ]

  link_category-settles :
      (r : CategoryRow) (cs cs' : List Category)
      → link_category all_rows r cs ≡ ok cs'
      → IsLinked r cs'
  link_category-settles r cs cs' h = elim (link_category-lem r cs cs' h) [
    | inl (flat, _) ↦ inl flat
    | inr (nested, (parent, known, done)) ↦ subst (IsLinked r) done (
        inr (
          nested,
          (
            parent,
            (
              category_id-modify (parent_path r.path) r.path parent cs ∙ known,
              modify-IsFixed (has_path r.path) (set_parent parent) cs (λ x. refl) (λ x. refl),
            ),
          ),
        ))
  ]

  IsFixed-other :
      (r q : CategoryRow) (parent other : ℕ) (cs : List Category)
      → apart_paths r q ≡ true
      → IsFixed (has_path r.path) (set_parent parent) cs
      → IsFixed
          (has_path r.path)
          (set_parent parent)
          (modify (has_path q.path) (set_parent other) cs)
  IsFixed-other r q parent other cs d fixed =
      let same =
        find-modify_other (has_path q.path) (set_parent other) (has_path r.path) cs (λ x. refl)
          (λ x. str_eq-apart r.path q.path x.path d) in
      elim fixed [ inl e ↦ inl (same ∙ e) | inr (a, (e, f)) ↦ inr (a, (same ∙ e, f)) ]

  link_category-keeps :
      (r q : CategoryRow) (cs cs' : List Category)
      → apart_paths r q ≡ true
      → IsLinked r cs
      → link_category all_rows q cs ≡ ok cs'
      → IsLinked r cs'
  link_category-keeps r q cs cs' d linked h = elim (link_category-lem q cs cs' h) [
    | inl (_, same) ↦ subst (IsLinked r) same linked
    | inr (_, (other, _, done)) ↦ subst (IsLinked r) done (elim linked [
      | inl flat ↦ inl flat
      | inr (nested, (parent, (known, fixed))) ↦ inr (
        nested,
        (
          parent,
          (
            category_id-modify (parent_path r.path) q.path other cs ∙ known,
            IsFixed-other r q parent other cs d fixed,
          ),
        ),
      )
    ])
  ]

  pub loop-IsLinked :
      (rows : List CategoryRow) (cs cs' : List Category)
      → all_apart (λ _. true) apart_paths rows ≡ true
      → loop (link_category all_rows) rows cs ≡ ok cs'
      → All (λ r. IsLinked r cs') rows
  loop-IsLinked rows cs cs' apart e =
      loop-settles (link_category all_rows) IsLinked (λ _. true) apart_paths rows cs cs'
        (λ r t t' _ h. link_category-settles r t t' h) link_category-keeps apart e

  flat_again :
      (r : CategoryRow) (t : List Category)
      → is_nested r.path ≡ false
      → link_category all_rows r t ≡ ok t
  unfolding link_category
  flat_again r t flat = rw flat refl

  nested_again :
      (r : CategoryRow) (t : List Category) (parent : ℕ)
      → is_nested r.path ≡ true
      → category_id all_rows (parent_path r.path) t ≡ ok parent
      → IsFixed (has_path r.path) (set_parent parent) t
      → link_category all_rows r t ≡ ok t
  unfolding link_category
  nested_again r t parent nested known fixed =
      rw (nested, known) (ap ok (IsFixed-modify (has_path r.path) (set_parent parent) t fixed))

  pub link_category-again :
      (rows : List CategoryRow) (cs : List Category)
      → All (λ r. IsLinked r cs) rows
      → loop (link_category all_rows) rows cs ≡ ok cs
  link_category-again rows cs h =
      loop-again (link_category all_rows) IsLinked rows cs
        (λ r t l. elim l [
          | inl flat ↦ flat_again r t flat
          | inr (nested, (parent, (known, fixed))) ↦ nested_again r t parent nested known fixed
        ])
        h

  -- What the first loop settles stays settled, and the slugs are what they were.
  find-modify_parent :
      (path other : String) (parent : ℕ) (cs : List Category) (a : Category)
      → find (has_path path) cs ≡ some a
      → find (has_path path) (modify (has_path other) (set_parent parent) cs)
        ≡ some (if has_path other a then set_parent parent a else a)
  find-modify_parent path other parent [] a e = absurd (ground (arith, e))
  find-modify_parent path other parent (c ∷ cs) a e = ground (
    arith,
    eq_iff c.path path,
    eq_iff c.path other,
    eq_iff a.path path,
    eq_iff a.path other,
    find-holds (has_path path) (c ∷ cs) a e,
    find-modify_parent path other parent cs a,
  )

  named_still :
      (r : CategoryRow) (b : Bool) (parent : ℕ) (a : Category)
      → rename_category r a ≡ a
      → rename_category r (if b then set_parent parent a else a)
        ≡ (if b then set_parent parent a else a)
  named_still r true parent a f = ap (set_parent parent) f
  named_still r false parent a f = f

  pub CategorySown-link :
      (r q : CategoryRow) (cs cs' : List Category)
      → CategorySown r cs
      → link_category all_rows q cs ≡ ok cs'
      → CategorySown r cs'
  CategorySown-link r q cs cs' (a, (e, f)) h = elim (link_category-lem q cs cs' h) [
    | inl (_, same) ↦ subst (CategorySown r) same (a, (e, f))
    | inr (_, (parent, _, done)) ↦ subst (CategorySown r) done (
      _,
      (
        find-modify_parent r.path q.path parent cs a e,
        named_still r (has_path q.path a) parent a f,
      ),
    )
  ]

  any_slug-modify :
      (slug other : String) (parent : ℕ) (cs : List Category)
      → any (λ (d : Category). str_eq d.slug slug) (modify (has_path other) (set_parent parent) cs)
        ≡ any (λ (d : Category). str_eq d.slug slug) cs
  any_slug-modify slug other parent [] = refl
  any_slug-modify slug other parent (c ∷ cs) = ground (arith, any_slug-modify slug other parent cs)

  distinct_slugs-modify :
      (other : String) (parent : ℕ) (cs : List Category)
      → distinct_slugs (modify (has_path other) (set_parent parent) cs) ≡ distinct_slugs cs
  distinct_slugs-modify other parent [] = refl
  distinct_slugs-modify other parent (c ∷ cs) =
      ground (arith, any_slug-modify c.slug other parent cs, distinct_slugs-modify other parent cs)

  distinct_slugs-link :
      (q : CategoryRow) (cs cs' : List Category)
      → link_category all_rows q cs ≡ ok cs'
      → distinct_slugs cs' ≡ distinct_slugs cs
  distinct_slugs-link q cs cs' h = elim (link_category-lem q cs cs' h) [
    | inl (_, same) ↦ ap distinct_slugs (sym same)
    | inr (_, (parent, _, done)) ↦
        ap distinct_slugs (sym done) ∙ distinct_slugs-modify q.path parent cs
  ]

  -- Through the whole loop.
  pub loop-distinct_slugs :
      (rows : List CategoryRow) (cs cs' : List Category)
      → loop (link_category all_rows) rows cs ≡ ok cs'
      → distinct_slugs cs' ≡ distinct_slugs cs
  unfolding loop
  loop-distinct_slugs [] cs cs' h = ap distinct_slugs (sym (ok_injective h))
  loop-distinct_slugs (q ∷ qs) cs cs' h =
      let (t, first, rest) =
        bind-ok (link_category all_rows q cs) (loop (link_category all_rows) qs) cs' h in
      loop-distinct_slugs qs t cs' rest ∙ distinct_slugs-link q cs t first

  pub loop-still_sown :
      (r : CategoryRow) (rows : List CategoryRow) (cs cs' : List Category)
      → CategorySown r cs
      → loop (link_category all_rows) rows cs ≡ ok cs'
      → CategorySown r cs'
  unfolding loop
  loop-still_sown r [] cs cs' sown h = subst (CategorySown r) (ok_injective h) sown
  loop-still_sown r (q ∷ qs) cs cs' sown h =
      let (t, first, rest) =
        bind-ok (link_category all_rows q cs) (loop (link_category all_rows) qs) cs' h in
      loop-still_sown r qs t cs' (CategorySown-link r q cs t sown first) rest
