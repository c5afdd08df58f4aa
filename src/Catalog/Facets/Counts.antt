-- ===== src/Catalog/Facets/Counts.antt =====
-- What the counts of `brand_facets` in backend/app/modules/catalog/repository.py promise: the
-- number of products that choosing the brand leaves.
use nordmarkt.Common.{
  ℕ, ◌≤◌, ◌≡◌, ◌≢◌, refl, ap, subst, Bool, true, false, ◌&&◌, ◌||◌, str_eq, Option, none, some,
  List, [], ◌∷◌, String, arith, ◌==◌, eq_iff, is_none, select, find, any, length, All, Bool-cases,
  Option-cases, inl, inr,
}
use nordmarkt.Common.Texts.{mem_text}
use nordmarkt.Shared.Database.{Database}
use nordmarkt.Catalog.Models.{Brand, Product, ProductVariant}
use nordmarkt.Catalog.Search.{
  TextSearch, ProductQuery, make_query, base_products, is_match, count, matches_search,
  matches_category, matches_tags, matches_price,
}
use nordmarkt.Catalog.Facets.{
  BrandFacet, without_brands, brand_facets, facet_of, facets_of, sort_facets, insert_facet,
  is_of_brand,
}

abbrev pub DistinctBrands : List Brand → Type 0
DistinctBrands [] = Unit
DistinctBrands (b ∷ bs) = All (λ x. (x.id ≢ b.id) × (x.slug ≢ b.slug)) bs × DistinctBrands bs

-- A brand that its id and its slug tell from all others.
abbrev IsKnown : List Brand → Brand → Type 0
IsKnown brands b =
    (find (λ x. x.id == b.id) brands ≡ some b) × All (λ x. x.slug ≡ b.slug → x.id ≡ b.id) brands

slugs_apart :
    (b : Brand) (bs : List Brand)
    → All (λ x. (x.id ≢ b.id) × (x.slug ≢ b.slug)) bs
    → All (λ x. x.slug ≡ b.slug → x.id ≡ b.id) bs
slugs_apart b [] h = tt
slugs_apart b (x ∷ bs) h = (λ e. ground (arith, e, h.0.1), slugs_apart b bs h.1)

keep-IsKnown :
    (b : Brand) (brands bs : List Brand)
    → All (λ x. (x.id ≢ b.id) × (x.slug ≢ b.slug)) bs
    → All (IsKnown brands) bs
    → All (IsKnown (b ∷ brands)) bs
keep-IsKnown b brands [] h k = tt
keep-IsKnown b brands (x ∷ bs) h k = (
  (ground (arith, h.0.0, k.0.0), ((λ e. ground (arith, e, h.0.1)), k.0.1)),
  keep-IsKnown b brands bs h.1 k.1,
)

All-IsKnown : (brands : List Brand) → DistinctBrands brands → All (IsKnown brands) brands
All-IsKnown [] h = tt
All-IsKnown (b ∷ bs) h = (
  (ground arith, ((λ e. refl), slugs_apart b bs h.0)),
  keep-IsKnown b bs bs h.0 (All-IsKnown bs h.1),
)

find-All :
    (P : Brand → Type 0) (id : ℕ) (brands : List Brand) (x : Brand)
    → All P brands
    → find (λ y. y.id == id) brands ≡ some x
    → (x.id ≡ id) × P x
find-All P id [] x h e = ground (arith, e)
find-All P id (y ∷ bs) x h e = elim (Bool-cases (y.id == id)) [
  | inl here ↦
      let same : y ≡ x = ground (arith, e, here) in (ground (arith, same, here), subst P same h.0)
  | inr there ↦ find-All P id bs x h.1 (ground (arith, e, there))
]

-- Choosing the slug of a brand chooses the products of that brand.
abbrev row_of : List Brand → Option ℕ → Option Brand
row_of brands none = none
row_of brands (some id) = find (λ x. x.id == id) brands

abbrev chosen : List Brand → Brand → Option ℕ → Bool
chosen brands b o = elim (row_of brands o) [ none ↦ false | some x ↦ mem_text x.slug (b.slug ∷ []) ]

chosen-IsKnown :
    (brands : List Brand) (b : Brand) (id : ℕ)
    → IsKnown brands b
    → chosen brands b (some id) ≡ (id == b.id)
chosen-IsKnown brands b id (stored, apart) = elim (Option-cases (find (λ x. x.id == id) brands)) [
  | inl gone ↦ ground (arith, gone, stored)
  | inr (x, there) ↦
      let (same, slug) = find-All (λ y. y.slug ≡ b.slug → y.id ≡ b.id) id brands x apart there in
      ground (arith, there, stored, same, slug, eq_iff b.slug x.slug)
]

any-and :
    (f h : ProductVariant → Bool) (g : Bool) (vs : List ProductVariant)
    → ((v : ProductVariant) → h v ≡ (f v && g))
    → any h vs ≡ (any f vs && g)
any-and f h true [] same = refl
any-and f h false [] same = refl
any-and f h g (v ∷ vs) same = ground (arith, same v, any-and f h g vs same)

select-and :
    (f g h : Product → Bool) (ps : List Product)
    → ((p : Product) → h p ≡ (f p && g p))
    → select h ps ≡ select g (select f ps)
select-and f g h [] same = refl
select-and f g h (p ∷ ps) same = ground (arith, same p, select-and f g h ps same)

-- The filter on brands, taken out of the others.
with_brand :
    (a l s c t m i x chosen : Bool)
    → chosen ≡ x
    → (a && l && s && c && chosen && t && m && i) ≡ ((a && l && s && c && true && t && m && i) && x)
with_brand a l s c t m i x chosen e = ground (arith, e)

insert-All :
    (P : BrandFacet → Type 0) (f : BrandFacet) (xs : List BrandFacet)
    → P f
    → All P xs
    → All P (insert_facet f xs)
unfolding insert_facet
insert-All P f [] hf h = (hf, tt)
insert-All P f (x ∷ xs) hf h = ground (arith, insert-All P f xs hf h.1)

sort-All : (P : BrandFacet → Type 0) (xs : List BrandFacet) → All P xs → All P (sort_facets xs)
unfolding sort_facets
sort-All P [] h = tt
sort-All P (f ∷ fs) h = insert-All P f _ h.0 (sort-All P fs h.1)

-- A query without brands, and the same query for one brand.
abbrev pub of_brand : TextSearch → ProductQuery → String → ProductQuery
of_brand ts q slug = record (without_brands ts q) { brand_slugs = slug ∷ [] }

module _ (ts : TextSearch) (db : Database) (q : ProductQuery) where
  chosen-of_brand :
      (b : Brand) (p : Product)
      → IsKnown db.brands b
      → chosen db.brands b p.brand_id ≡ is_of_brand b p
  chosen-of_brand b p k =
      elim p.brand_id
        as (λ id. chosen db.brands b id ≡ elim id [ none ↦ false | some i ↦ i == b.id ]) [
          | none ↦ refl
          | some id ↦ chosen-IsKnown db.brands b id k
        ]

  is_match-of_brand :
      (b : Brand) (p : Product) (v : ProductVariant)
      → IsKnown db.brands b
      → is_match ts db (of_brand ts q b.slug) p v
        ≡ (is_match ts db (without_brands ts q) p v && is_of_brand b p)
  unfolding is_match without_brands make_query
  is_match-of_brand b p v k =
      let u = without_brands ts q in
      with_brand (v.product_id == p.id) (p.is_published && is_none p.deleted_at)
        (matches_search ts db u p v) (matches_category ts db u p) (matches_tags ts db u p)
        (matches_price ts db u v) v.is_active (is_of_brand b p) (chosen db.brands b p.brand_id)
        (chosen-of_brand b p k)

  base_products-of_brand :
      (b : Brand)
      → IsKnown db.brands b
      → base_products ts db (of_brand ts q b.slug)
        ≡ select (is_of_brand b) (base_products ts db (without_brands ts q))
  unfolding base_products
  base_products-of_brand b k =
      select-and _ _ _ db.products λ p. any-and _ _ _ db.variants λ v. is_match-of_brand b p v k

  abbrev IsTrue : BrandFacet → Type 0
  IsTrue f = (1 ≤ f.count) × (f.count ≡ count ts db (of_brand ts q f.slug))

  facets_of-IsTrue :
      (bs : List Brand)
      → All (IsKnown db.brands) bs
      → All IsTrue (facets_of (base_products ts db (without_brands ts q)) bs)
  unfolding facets_of count
  facets_of-IsTrue [] k = tt
  facets_of-IsTrue (b ∷ bs) k =
      ground (arith, ap length (base_products-of_brand b k.0), facets_of-IsTrue bs k.1)

  -- A brand without products, or one whose slug one of the facets has.
  abbrev pub IsListed : List BrandFacet → Brand → Type 0
  IsListed facets b =
      (count ts db (of_brand ts q b.slug) == 0 || any (λ f. str_eq f.slug b.slug) facets) ≡ true

  IsListed-before :
      (facets : List BrandFacet) (b : Brand) (bs : List Brand)
      → All (IsListed facets) bs
      → All (IsListed (facet_of (base_products ts db (without_brands ts q)) b facets)) bs
  IsListed-before facets b [] h = tt
  IsListed-before facets b (x ∷ bs) h = (ground (arith, h.0), IsListed-before facets b bs h.1)

  facets_of-IsListed :
      (bs : List Brand)
      → All (IsKnown db.brands) bs
      → All (IsListed (facets_of (base_products ts db (without_brands ts q)) bs)) bs
  unfolding facets_of count
  facets_of-IsListed [] k = tt
  facets_of-IsListed (b ∷ bs) k = (
    ground (arith, ap length (base_products-of_brand b k.0), eq_iff b.slug b.slug),
    IsListed-before _ b bs (facets_of-IsListed bs k.1),
  )

any-insert :
    (P : BrandFacet → Bool) (f : BrandFacet) (xs : List BrandFacet)
    → any P (insert_facet f xs) ≡ (P f || any P xs)
unfolding insert_facet
any-insert P f [] = ground arith
any-insert P f (x ∷ xs) = ground (arith, any-insert P f xs)

any-sort : (P : BrandFacet → Bool) (xs : List BrandFacet) → any P (sort_facets xs) ≡ any P xs
unfolding sort_facets
any-sort P [] = refl
any-sort P (f ∷ fs) = ground (arith, any-insert P f (sort_facets fs), any-sort P fs)

sort-IsListed :
    (ts : TextSearch) (db : Database) (q : ProductQuery) (facets : List BrandFacet)
    (bs : List Brand)
    → All (IsListed ts db q facets) bs
    → All (IsListed ts db q (sort_facets facets)) bs
sort-IsListed ts db q facets [] h = tt
sort-IsListed ts db q facets (b ∷ bs) h =
    (rw (any-sort (λ f. str_eq f.slug b.slug) facets) h.0, sort-IsListed ts db q facets bs h.1)

-- Where brands differ in their ids and in their slugs: each facet that `brand_facets` gives counts at
-- least one product, and counts just the products that the same query counts once it asks for the
-- slug of that brand; and every brand for which that query counts a product has a facet.
pub brand_facets-count :
    (ts : TextSearch) (db : Database) (q : ProductQuery)
    → DistinctBrands db.brands
    → All
        (λ f. (1 ≤ f.count) × (f.count ≡ count ts db (of_brand ts q f.slug)))
        (brand_facets ts db q)
      × All
          (λ b.
            (count ts db (of_brand ts q b.slug) == 0
              || any (λ f. str_eq f.slug b.slug) (brand_facets ts db q))
            ≡ true)
          db.brands
unfolding brand_facets
brand_facets-count ts db q distinct =
    let known = All-IsKnown db.brands distinct in
    (
      sort-All (IsTrue ts db q) _ (facets_of-IsTrue ts db q db.brands known),
      sort-IsListed ts db q _ db.brands (facets_of-IsListed ts db q db.brands known),
    )
