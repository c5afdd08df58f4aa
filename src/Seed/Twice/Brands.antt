-- ===== src/Seed/Twice/Brands.antt =====
-- backend/scripts/seed.py: the brands, sown again.
use nordmarkt.Common.{ℕ, true, ◌≡◌, refl, subst, ap, List, eq_iff, All}
use nordmarkt.Core.Errors.{ok}
use nordmarkt.Shared.UnitOfWork.{World}
use nordmarkt.Shared.Slugs.{UnicodeTexts}
use nordmarkt.Catalog.Models.{Brand}
use nordmarkt.Seed.Loops.{loop}
use nordmarkt.Seed.Categories.{has_slug, brand_slug, new_brand, sow_brand}
use nordmarkt.Seed.Rows.{BrandRow}
use nordmarkt.Seed.Upserts.{
  ok_injective, IsSown, upsert-IsSown, upsert-again, find-upsert_nothing, loop-again, loop-settles,
  all_apart,
}

module _ (u : UnicodeTexts) (w : World) where
  abbrev pub BrandSown : BrandRow → List Brand → Type 0
  BrandSown r bs = (b : Brand) × IsSown (has_slug (brand_slug u r.name)) (λ x. x) bs b

  sow_brand-settles :
      (r : BrandRow) (t t' : List Brand × ℕ) → sow_brand u w r t ≡ ok t' → BrandSown r t'.0
  unfolding sow_brand
  sow_brand-settles r t t' h =
      subst (λ (x : List Brand × ℕ). BrandSown r x.0) (ok_injective h)
        (
          _,
          upsert-IsSown (has_slug (brand_slug u r.name)) (new_brand u w r) (λ x. x) t.0 t.1
              (λ m. (eq_iff (brand_slug u r.name) (brand_slug u r.name)).1 refl) (λ x. refl)
              (λ m. refl) (λ x. refl),
        )

  sow_brand-keeps :
      (r q : BrandRow) (t t' : List Brand × ℕ)
      → BrandSown r t.0
      → sow_brand u w q t ≡ ok t'
      → BrandSown r t'.0
  unfolding sow_brand
  sow_brand-keeps r q t t' (b, (found, same)) h =
      subst (λ (x : List Brand × ℕ). BrandSown r x.0) (ok_injective h)
        (
          b,
          (
            find-upsert_nothing (has_slug (brand_slug u q.name)) (new_brand u w q)
                (has_slug (brand_slug u r.name)) t.0 t.1 b found,
            same,
          ),
        )

  pub loop-BrandSown :
      (rows : List BrandRow) (s s' : List Brand × ℕ)
      → all_apart (λ _. true) (λ _ _. true) rows ≡ true
      → loop (sow_brand u w) rows s ≡ ok s'
      → All (λ r. BrandSown r s'.0) rows
  loop-BrandSown rows s s' apart e =
      loop-settles (sow_brand u w) (λ r t. BrandSown r t.0) (λ _. true) (λ _ _. true) rows s s'
        (λ r t t' _ h. sow_brand-settles r t t' h)
        (λ r q t t' _ sown h. sow_brand-keeps r q t t' sown h) apart e

  pub sow_brand-again :
      (rows : List BrandRow) (s : List Brand × ℕ)
      → All (λ r. BrandSown r s.0) rows
      → loop (sow_brand u w) rows s ≡ ok s
  unfolding sow_brand
  sow_brand-again rows s h =
      loop-again (sow_brand u w) (λ r t. BrandSown r t.0) rows s
        (λ r t (b, sown).
          ap ok
            (upsert-again (has_slug (brand_slug u r.name)) (new_brand u w r) (λ x. x) t.0 t.1 b
              sown).0)
        h
