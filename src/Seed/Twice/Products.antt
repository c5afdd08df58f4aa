-- ===== src/Seed/Twice/Products.antt =====
-- backend/scripts/seed.py: the products, sown again.
use nordmarkt.Common.{
  ℕ, true, ◌≡◌, refl, subst, sym, ap, ◌∙◌, List, [], ◌∷◌, find, eq_iff, arith, All, String,
}
use nordmarkt.Core.Errors.{Result, ok, bind-ok}
use nordmarkt.Shared.UnitOfWork.{World}
use nordmarkt.Catalog.Models.{Product, ProductImage}
use nordmarkt.Seed.Loops.{loop, enumerate, upsert, upserted}
use nordmarkt.Seed.Products.{
  has_product_slug, describe, new_product, Shelves, sow_variant, sow_product, images_for,
}
use nordmarkt.Seed.Rows.{ProductRow}
use nordmarkt.Seed.Upserts.{
  IsSown, upsert-IsSown, upsert-again, find-upsert, loop-again, loop-settles, all_apart,
}
use nordmarkt.Seed.Twice.Categories.{str_eq-apart}
use nordmarkt.Seed.Twice.Variants.{
  VariantSown, own_skus, apart_products, variants_kept, loop-VariantSown, loop-products,
  loop-variants_again,
}

module _ (w : World) where
  images_twice :
      (r : ProductRow) (index : ℕ) (is : List ProductImage)
      → images_for r index (images_for r index is) ≡ images_for r index is
  images_twice r index [] = refl
  images_twice r index (i ∷ is) = refl

  module _ (category_ids brand_ids : String → Result ℕ) where
    abbrev pub ProductSown : ℕ × ProductRow → Shelves → Type 0
    ProductSown (index, r) s =
        (category : ℕ) × (brand : ℕ) × (category_ids r.category_path ≡ ok category)
        × (brand_ids r.brand ≡ ok brand)
        × ((p : Product) × IsSown (has_product_slug r.slug) (describe r index category brand)
              s.products p)
        × All (λ o. VariantSown r o s) (enumerate 0 r.option_sets)

    -- What a successful step has done.
    abbrev pub Stepped : ℕ × ProductRow → Shelves → Shelves → Type 0
    Stepped (index, r) s s' =
        (category : ℕ) × (brand : ℕ) × (category_ids r.category_path ≡ ok category)
        × (brand_ids r.brand ≡ ok brand)
        × (loop
              (sow_variant w r index
                (upserted (has_product_slug r.slug) (new_product w r index category brand)
                  (describe r index category brand) (s.products, s.drawn)).id)
              (enumerate 0 r.option_sets)
              (record s {
                products =
                    (upsert (has_product_slug r.slug) (new_product w r index category brand)
                      (describe r index category brand) (s.products, s.drawn)).0;
                drawn =
                    (upsert (has_product_slug r.slug) (new_product w r index category brand)
                      (describe r index category brand) (s.products, s.drawn)).1;
              })
            ≡ ok s')

    pub Stepped-sow_product :
        (row : ℕ × ProductRow) (s s' : Shelves)
        → Stepped row s s'
        → sow_product w category_ids brand_ids row s ≡ ok s'
    unfolding sow_product
    Stepped-sow_product (index, r) s s' (category, brand, known, known_brand, looped) =
        rw (known, known_brand) looped

    sow_product-Stepped :
        (row : ℕ × ProductRow) (s s' : Shelves)
        → sow_product w category_ids brand_ids row s ≡ ok s'
        → Stepped row s s'
    unfolding sow_product
    sow_product-Stepped (index, r) s s' h =
        let (category, known, rest) = bind-ok (category_ids r.category_path) _ s' h in
        let (brand, known_brand, looped) = bind-ok (brand_ids r.brand) _ s' rest in
        (category, brand, known, known_brand, looped)

    sow_product-settles :
        (row : ℕ × ProductRow) (s s' : Shelves)
        → own_skus row ≡ true
        → sow_product w category_ids brand_ids row s ≡ ok s'
        → ProductSown row s'
    sow_product-settles (index, r) s s' good h =
        let (category, brand, known, known_brand, looped) = sow_product-Stepped (index, r) s s' h in
        let is_it = has_product_slug r.slug in
        let make = new_product w r index category brand in
        let assign = describe r index category brand in
        let os = enumerate 0 r.option_sets in
        (
          category,
          brand,
          known,
          known_brand,
          (
            _,
            subst (λ ps. IsSown is_it assign ps (upserted is_it make assign (s.products, s.drawn)))
                (sym (loop-products w r index _ os _ s' looped))
                (upsert-IsSown is_it make assign s.products s.drawn
                  (λ m. (eq_iff r.slug r.slug).1 refl) (λ x. refl) (λ m. refl)
                  (λ x.
                    ap (λ is. record (assign x) { images = is }) (images_twice r index x.images))),
          ),
          loop-VariantSown w r index _ os _ s' good looped,
        )

    sow_product-keeps :
        (row other : ℕ × ProductRow) (s s' : Shelves)
        → apart_products row other ≡ true
        → ProductSown row s
        → sow_product w category_ids brand_ids other s ≡ ok s'
        → ProductSown row s'
    sow_product-keeps (index, r) (k, q) s s' d
          (category, brand, known, known_brand, (p, (found, same)), variants) h =
        let (cat, br, _, _, looped) = sow_product-Stepped (k, q) s s' h in
        let os = enumerate 0 q.option_sets in
        (
          category,
          brand,
          known,
          known_brand,
          (
            p,
            (
              ap (find (has_product_slug r.slug)) (loop-products w q k _ os _ s' looped)
                  ∙ find-upsert (has_product_slug q.slug) (new_product w q k cat br)
                      (describe q k cat br) (has_product_slug r.slug) s.products s.drawn p
                      (λ x. refl) (λ x. str_eq-apart r.slug q.slug x.slug (ground arith)) found,
              same,
            ),
          ),
          variants_kept w r q k _ os (enumerate 0 r.option_sets) _ s' (ground arith) variants
              looped,
        )

    sow_product-again :
        (row : ℕ × ProductRow) (s : Shelves)
        → ProductSown row s
        → sow_product w category_ids brand_ids row s ≡ ok s
    unfolding sow_product
    sow_product-again (index, r) s (category, brand, known, known_brand, (p, sown), variants) =
        let (left, row) =
          upsert-again (has_product_slug r.slug) (new_product w r index category brand)
            (describe r index category brand) s.products s.drawn p sown in
        rw (known, known_brand)
          ((λ k.
              loop (sow_variant w r index (row k).id) (enumerate 0 r.option_sets)
                (record s { products = (left k).0; drawn = (left k).1 }))
            ∙ loop-variants_again w r index p.id (enumerate 0 r.option_sets) s variants)

    pub loop-ProductSown :
        (rows : List (ℕ × ProductRow)) (s s' : Shelves)
        → all_apart own_skus apart_products rows ≡ true
        → loop (sow_product w category_ids brand_ids) rows s ≡ ok s'
        → All (λ row. ProductSown row s') rows
    loop-ProductSown rows s s' apart e =
        loop-settles (sow_product w category_ids brand_ids) ProductSown own_skus apart_products rows
          s s' sow_product-settles sow_product-keeps apart e

    pub loop-products_again :
        (rows : List (ℕ × ProductRow)) (s : Shelves)
        → All (λ row. ProductSown row s) rows
        → loop (sow_product w category_ids brand_ids) rows s ≡ ok s
    loop-products_again rows s h =
        loop-again (sow_product w category_ids brand_ids) ProductSown rows s sow_product-again h
