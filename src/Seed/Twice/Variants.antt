-- ===== src/Seed/Twice/Variants.antt =====
-- backend/scripts/seed.py: the variants of a product and their stock, sown again.
use nordmarkt.Common.{
  ℕ, ◌+◌, Bool, true, not, ◌&&◌, ◌≡◌, refl, subst, sym, ap, ◌∙◌, List, [], ◌∷◌, str_eq, eq_iff,
  ==_refl, arith, All,
}
use nordmarkt.Core.Errors.{Result, ok, bind-ok}
use nordmarkt.Shared.UnitOfWork.{World}
use nordmarkt.Catalog.Models.{Translations, ProductVariant}
use nordmarkt.Inventory.Models.{StockItem}
use nordmarkt.Seed.Loops.{loop, enumerate, upsert}
use nordmarkt.Seed.Products.{
  has_sku, price_variant, new_variant, of_variant, new_stock, Shelves, sow_variant,
}
use nordmarkt.Seed.Rows.{ProductRow}
use nordmarkt.Seed.Texts.{sku_of}
use nordmarkt.Seed.Upserts.{
  ok_injective, IsSown, upsert-IsSown, upsert-again, find-upsert, find-upsert_nothing, loop-again,
  loop-keeps, loop-settles, all_apart, apart_from,
}
use nordmarkt.Seed.Twice.Categories.{str_eq-apart}

-- A variant is there as the script leaves it, and has its stock.
abbrev pub VariantSown : ProductRow → ℕ × Translations → Shelves → Type 0
VariantSown r option s =
    (v : ProductVariant) × (IsSown (has_sku (sku_of r.slug option.0))
      (price_variant r option.0 option.1) s.variants v)
    × ((i : StockItem) × IsSown (of_variant v.id) (λ x. x) s.stock i)

-- Two options of a row, or of two rows, have different SKUs.
abbrev pub apart_options : ProductRow → ProductRow → ℕ × Translations → ℕ × Translations → Bool
apart_options r q o p = not (str_eq (sku_of r.slug o.0) (sku_of q.slug p.0))

abbrev pub own_skus : ℕ × ProductRow → Bool
own_skus (_, r) = all_apart (λ _. true) (apart_options r r) (enumerate 0 r.option_sets)

abbrev pub skus_apart :
    ProductRow → ProductRow → List (ℕ × Translations) → List (ℕ × Translations) → Bool
skus_apart r q [] ps = true
skus_apart r q (o ∷ os) ps = apart_from (λ _. true) (apart_options r q) o ps && skus_apart r q os ps

abbrev pub apart_products : ℕ × ProductRow → ℕ × ProductRow → Bool
apart_products (_, r) (_, q) =
    not (str_eq r.slug q.slug)
    && skus_apart r q (enumerate 0 r.option_sets) (enumerate 0 q.option_sets)

module _ (w : World) where
  sow_variant-settles :
      (r : ProductRow) (index product : ℕ) (o : ℕ × Translations) (s s' : Shelves)
      → sow_variant w r index product o s ≡ ok s'
      → VariantSown r o s'
  unfolding sow_variant
  sow_variant-settles r index product (j, options) s s' h =
      subst (VariantSown r (j, options)) (ok_injective h) (
        _,
        upsert-IsSown (has_sku (sku_of r.slug j)) (new_variant w r product j options)
            (price_variant r j options) s.variants s.drawn
            (λ m. (eq_iff (sku_of r.slug j) (sku_of r.slug j)).1 refl) (λ x. refl) (λ m. refl)
            (λ x. refl),
        (
          _,
          upsert-IsSown (of_variant _) (new_stock w _ (index + j)) (λ x. x) s.stock _
              (λ m. ==_refl _) (λ x. refl) (λ m. refl) (λ x. refl),
        ),
      )

  -- Another variant, of this product or of another, leaves it so.
  sow_variant-keeps :
      (r q : ProductRow) (index product : ℕ) (o p : ℕ × Translations) (s s' : Shelves)
      → not (str_eq (sku_of r.slug o.0) (sku_of q.slug p.0)) ≡ true
      → VariantSown r o s
      → sow_variant w q index product p s ≡ ok s'
      → VariantSown r o s'
  unfolding sow_variant
  sow_variant-keeps r q index product o (k, options) s s' d (v, (found, same), (i, (held, _))) h =
      subst (VariantSown r o) (ok_injective h) (
        v,
        (
          find-upsert (has_sku (sku_of q.slug k)) (new_variant w q product k options)
              (price_variant q k options) (has_sku (sku_of r.slug o.0)) s.variants s.drawn v
              (λ x. refl) (λ x. str_eq-apart (sku_of r.slug o.0) (sku_of q.slug k) x.sku d) found,
          same,
        ),
        (
          i,
          (
            find-upsert_nothing (of_variant _) (new_stock w _ (index + k)) (of_variant v.id) s.stock
                _ i held,
            refl,
          ),
        ),
      )

  -- The second half of a step, after the variant is found.
  abbrev shelve : ℕ → Shelves → List ProductVariant × ℕ → ℕ → Result Shelves
  shelve i s (variants, n) id =
      let (stock, n') = upsert (of_variant id) (new_stock w id i) (λ x. x) (s.stock, n) in
      ok (record s { variants = variants; stock = stock; drawn = n' })

  sow_variant-again :
      (r : ProductRow) (index product : ℕ) (o : ℕ × Translations) (s : Shelves)
      → VariantSown r o s
      → sow_variant w r index product o s ≡ ok s
  unfolding sow_variant
  sow_variant-again r index product (j, options) s (v, sown, (i, held)) =
      let (left, row) =
        upsert-again (has_sku (sku_of r.slug j)) (new_variant w r product j options)
          (price_variant r j options) s.variants s.drawn v sown in
      (λ k. shelve (index + j) s (left k) (row k).id)
      ∙ ap (λ (t : List StockItem × ℕ). ok (record s { stock = t.0; drawn = t.1 }))
          (upsert-again (of_variant v.id) (new_stock w v.id (index + j)) (λ x. x) s.stock s.drawn i
            held).0

  sow_variant-products :
      (r : ProductRow) (index product : ℕ) (o : ℕ × Translations) (s s' : Shelves)
      → sow_variant w r index product o s ≡ ok s'
      → s'.products ≡ s.products
  unfolding sow_variant
  sow_variant-products r index product (j, options) s s' h =
      ap (λ (t : Shelves). t.products) (sym (ok_injective h))

  pub loop-products :
      (r : ProductRow) (index product : ℕ) (os : List (ℕ × Translations)) (s s' : Shelves)
      → loop (sow_variant w r index product) os s ≡ ok s'
      → s'.products ≡ s.products
  unfolding loop
  loop-products r index product [] s s' h = ap (λ (t : Shelves). t.products) (sym (ok_injective h))
  loop-products r index product (o ∷ os) s s' h =
      let (t, first, rest) =
        bind-ok (sow_variant w r index product o s) (loop (sow_variant w r index product) os) s'
          h in
      loop-products r index product os t s' rest ∙ sow_variant-products r index product o s t first

  pub loop-VariantSown :
      (r : ProductRow) (index product : ℕ) (os : List (ℕ × Translations)) (s s' : Shelves)
      → all_apart (λ _. true) (apart_options r r) os ≡ true
      → loop (sow_variant w r index product) os s ≡ ok s'
      → All (λ o. VariantSown r o s') os
  loop-VariantSown r index product os s s' apart e =
      loop-settles (sow_variant w r index product) (VariantSown r) (λ _. true) (apart_options r r)
        os s s' (λ o t t' _ h. sow_variant-settles r index product o t t' h)
        (λ o p t t' d sown h. sow_variant-keeps r r index product o p t t' d sown h) apart e

  loop-keeps_variant :
      (r q : ProductRow) (index product : ℕ) (o : ℕ × Translations) (os : List (ℕ × Translations))
      (s s' : Shelves)
      → apart_from (λ _. true) (apart_options r q) o os ≡ true
      → VariantSown r o s
      → loop (sow_variant w q index product) os s ≡ ok s'
      → VariantSown r o s'
  loop-keeps_variant r q index product o os s s' apart sown e =
      loop-keeps (sow_variant w q index product) (λ p t. VariantSown r o t) (λ _. true)
        (apart_options r q) o os s s'
        (λ p t t' d held h. sow_variant-keeps r q index product o p t t' d held h) apart sown e

  pub variants_kept :
      (r q : ProductRow) (index product : ℕ) (ps os : List (ℕ × Translations)) (s s' : Shelves)
      → skus_apart r q os ps ≡ true
      → All (λ o. VariantSown r o s) os
      → loop (sow_variant w q index product) ps s ≡ ok s'
      → All (λ o. VariantSown r o s') os
  variants_kept r q index product ps [] s s' d sown e = tt
  variants_kept r q index product ps (o ∷ os) s s' d (first, rest) e = (
    loop-keeps_variant r q index product o ps s s' (ground arith) first e,
    variants_kept r q index product ps os s s' (ground arith) rest e,
  )

  pub loop-variants_again :
      (r : ProductRow) (index product : ℕ) (os : List (ℕ × Translations)) (s : Shelves)
      → All (λ o. VariantSown r o s) os
      → loop (sow_variant w r index product) os s ≡ ok s
  loop-variants_again r index product os s h =
      loop-again (sow_variant w r index product) (VariantSown r) os s
        (sow_variant-again r index product) h
