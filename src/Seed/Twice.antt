-- ===== src/Seed/Twice.antt =====
-- backend/scripts/seed.py: running the script again.
pub mod Categories
pub mod Links
pub mod Brands
pub mod Variants
pub mod Products
use nordmarkt.Common.{
  ℕ, ◌+◌, Bool, true, false, ◌≡◌, refl, subst, sym, ap, ◌∙◌, Option, none, some, List, [], ◌∷◌,
  ◌++◌, find, All, arith, Option-cases, inl, inr, eq_iff, if◌then◌else◌,
}
use nordmarkt.Core.Errors.{Result, ok, err, ◌>>=◌, bind-ok}
use nordmarkt.Shared.Database.{Database}
use nordmarkt.Shared.UnitOfWork.{World}
use nordmarkt.Shared.Slugs.{UnicodeTexts}
use nordmarkt.Catalog.Models.{Category, Brand}
use nordmarkt.Identity.{Crypto, has_email}
use nordmarkt.Identity.Models.{User, Address}
use nordmarkt.Seed.Loops.{loop, enumerate}
use nordmarkt.Seed.{
  seed, sow_user, demo_user, sow_categories, sow_products, with_tables, shelves_of, demo_email,
}
use nordmarkt.Seed.Categories.{
  sow_category, link_category, flush_categories, sow_brand, category_id, brand_id, distinct_slugs,
}
use nordmarkt.Seed.Products.{sow_product, Shelves}
use nordmarkt.Seed.Rows.{CategoryRow, ProductRow}
use nordmarkt.Seed.Texts.{sku_of}
use nordmarkt.Seed.Assortment.{categories_seed, brands_seed, products_seed}
use nordmarkt.Seed.Upserts.{all_apart, find-append_new, ok_injective}
use nordmarkt.Seed.Twice.Categories.{
  apart_paths, CategorySown, loop-CategorySown, sow_category-again,
}
use nordmarkt.Seed.Twice.Links.{
  loop-IsLinked, link_category-again, loop-still_sown, loop-distinct_slugs,
}
use nordmarkt.Seed.Twice.Brands.{loop-BrandSown, sow_brand-again}
use nordmarkt.Seed.Twice.Variants.{own_skus, apart_products}
use nordmarkt.Seed.Twice.Products.{loop-ProductSown, loop-products_again}

-- The paths, the slugs and the SKUs of the tables are different ones.
pub paths_apart : all_apart (λ _. true) apart_paths categories_seed ≡ true
unfolding categories_seed
paths_apart = refl

pub brands_apart : all_apart (λ _. true) (λ _ _. true) brands_seed ≡ true
unfolding brands_seed
brands_apart = refl

products_apart : all_apart own_skus apart_products (enumerate 0 products_seed) ≡ true
unfolding products_seed sku_of
products_apart = refl

pub still_sown :
    (rows qs : List CategoryRow) (all_rows : List CategoryRow) (cs cs' : List Category)
    → All (λ r. CategorySown r cs) rows
    → loop (link_category all_rows) qs cs ≡ ok cs'
    → All (λ r. CategorySown r cs') rows
still_sown [] qs all_rows cs cs' sown e = tt
still_sown (r ∷ rows) qs all_rows cs cs' (first, rest) e =
    (loop-still_sown all_rows r qs cs cs' first e, still_sown rows qs all_rows cs cs' rest e)

flush-lem :
    (cs cs' : List Category)
    → flush_categories cs ≡ ok cs'
    → (cs ≡ cs') × (distinct_slugs cs ≡ true)
unfolding flush_categories
flush-lem cs cs' h = ground (arith, h)

pub flush-ok : (cs : List Category) → distinct_slugs cs ≡ true → flush_categories cs ≡ ok cs
unfolding flush_categories
flush-ok cs h = rw h refl

module _ (w : World) (c : Crypto) where
  user_known :
      (users : List User) (addresses : List Address) (n : ℕ) (a : User)
      → find (has_email demo_email) users ≡ some a
      → sow_user w c (users, addresses, n) ≡ (users, addresses, n)
  unfolding sow_user
  user_known users addresses n a e = ground (arith, e)

  user_new :
      (users : List User) (addresses : List Address) (n : ℕ)
      → find (has_email demo_email) users ≡ none
      → (sow_user w c (users, addresses, n)).0 ≡ users ++ demo_user w c n ∷ []
  unfolding sow_user
  user_new users addresses n e = ground (arith, e)

  user_there :
      (users : List User) (addresses : List Address) (n : ℕ)
      → (a : User) × (find (has_email demo_email) (sow_user w c (users, addresses, n)).0 ≡ some a)
  user_there users addresses n = elim (Option-cases (find (has_email demo_email) users)) [
    | inl e ↦ (
      demo_user w c n,
      ap (find (has_email demo_email)) (user_new users addresses n e)
          ∙ find-append_new (has_email demo_email) users (demo_user w c n) e refl,
    )
    | inr (a, e) ↦ (
      a,
      ap (λ (t : List User × List Address × ℕ). find (has_email demo_email) t.0)
            (user_known users addresses n a e)
          ∙ e,
    )
  ]

  categories_again_at :
      (s sown : List Category × ℕ) (flushed linked : List Category) (m : ℕ)
      → loop (sow_category w) categories_seed s ≡ ok sown
      → flush_categories sown.0 ≡ ok flushed
      → loop (link_category categories_seed) categories_seed flushed ≡ ok linked
      → sow_categories w c (linked, m) ≡ ok (linked, m)
  unfolding sow_categories
  categories_again_at s sown flushed linked m sown_eq flushed_eq linked_eq =
      let (same, distinct) = flush-lem sown.0 flushed flushed_eq in
      let settled = loop-CategorySown w categories_seed s sown paths_apart sown_eq in
      let still =
        still_sown categories_seed categories_seed categories_seed flushed linked
          (subst (λ cs. All (λ r. CategorySown r cs) categories_seed) same settled) linked_eq in
      let links =
        loop-IsLinked categories_seed categories_seed flushed linked paths_apart linked_eq in
      rw
        (
          sow_category-again w categories_seed (linked, m) still,
          flush-ok linked (
              loop-distinct_slugs categories_seed categories_seed flushed linked linked_eq
              ∙ ap distinct_slugs (sym same)
              ∙ distinct),
          link_category-again categories_seed categories_seed linked links,
        )
        refl

  categories_again :
      (s s' : List Category × ℕ) (m : ℕ)
      → sow_categories w c s ≡ ok s'
      → sow_categories w c (s'.0, m) ≡ ok (s'.0, m)
  unfolding sow_categories
  categories_again s s' m h =
      let (sown, sown_eq, h1) = bind-ok (loop (sow_category w) categories_seed s) _ s' h in
      let (flushed, flushed_eq, h2) = bind-ok (flush_categories sown.0) _ s' h1 in
      let (linked, linked_eq, h3) =
        bind-ok (loop (link_category categories_seed) categories_seed flushed) _ s' h2 in
      subst (λ (t : List Category × ℕ). sow_categories w c (t.0, m) ≡ ok (t.0, m)) (ok_injective h3)
        (categories_again_at s sown flushed linked m sown_eq flushed_eq linked_eq)

  module _ (u : UnicodeTexts) where
    products_again :
        (categories : List Category) (brands : List Brand) (s s' : Shelves) (m : ℕ)
        → sow_products w c u categories brands s ≡ ok s'
        → sow_products w c u categories brands (record s' { drawn = m })
          ≡ ok (record s' { drawn = m })
    unfolding sow_products
    products_again categories brands s s' m h =
        loop-products_again w _ _ (enumerate 0 products_seed) (record s' { drawn = m })
          (loop-ProductSown w (λ path. category_id categories_seed path categories)
            (λ name. brand_id u brands_seed name brands) (enumerate 0 products_seed) s s'
            products_apart h)

    seed_again :
        (db : Database) (n : ℕ) (categories : List Category × ℕ) (brands : List Brand × ℕ)
        (shelves : Shelves)
        → sow_categories w c (db.categories, n) ≡ ok categories
        → loop (sow_brand u w) brands_seed (db.brands, categories.1) ≡ ok brands
        → sow_products w c u categories.0 brands.0 (shelves_of db brands.1) ≡ ok shelves
        → let people = sow_user w c (db.users, db.addresses, shelves.drawn) in
          let after = with_tables db categories.0 brands.0 shelves people in
          seed w c u after ≡ ok after
    unfolding seed
    seed_again db n categories brands shelves categories_eq brands_eq shelves_eq =
        let people = sow_user w c (db.users, db.addresses, shelves.drawn) in
        let (a, there) = user_there db.users db.addresses shelves.drawn in
        let brands_sown =
          loop-BrandSown u w brands_seed (db.brands, categories.1) brands brands_apart brands_eq in
        rw
          (
            categories_again (db.categories, n) categories people.2 categories_eq,
            sow_brand-again u w brands_seed (brands.0, people.2) brands_sown,
            products_again categories.0 brands.0 (shelves_of db brands.1) shelves people.2
                shelves_eq,
          )
          (ap (λ p. ok (with_tables db categories.0 brands.0 shelves p))
            (user_known people.0 people.1 people.2 a there))

    -- Once the script has run, running it again succeeds and changes nothing: no row is added, and
    -- no field of any row is other than it was.
    pub seed_twice :
        (db : Database) (n : ℕ) (after : Database × ℕ)
        → seed w c u (db, n) ≡ ok after
        → seed w c u after ≡ ok after
    unfolding seed
    seed_twice db n after h =
        let (categories, categories_eq, h1) =
          bind-ok (sow_categories w c (db.categories, n)) _ after h in
        let (brands, brands_eq, h2) =
          bind-ok (loop (sow_brand u w) brands_seed (db.brands, categories.1)) _ after h1 in
        let (shelves, shelves_eq, h3) =
          bind-ok (sow_products w c u categories.0 brands.0 (shelves_of db brands.1)) _ after h2 in
        subst (λ (t : Database × ℕ). seed w c u t ≡ ok t) (ok_injective h3)
          (seed_again db n categories brands shelves categories_eq brands_eq shelves_eq)
