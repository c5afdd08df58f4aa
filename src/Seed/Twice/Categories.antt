-- ===== src/Seed/Twice/Categories.antt =====
-- backend/scripts/seed.py: the categories and brands, sown again.
use nordmarkt.Common.{
  ℕ, Bool, true, false, not, ◌≡◌, refl, subst, ap, List, str_eq, eq_iff, arith, All, String,
}
use nordmarkt.Core.Errors.{ok}
use nordmarkt.Shared.UnitOfWork.{World}
use nordmarkt.Catalog.Models.{Category}
use nordmarkt.Seed.Loops.{loop}
use nordmarkt.Seed.Categories.{sow_category, has_path, new_category, rename_category}
use nordmarkt.Seed.Rows.{CategoryRow}
use nordmarkt.Seed.Upserts.{
  ok_injective, IsSown, upsert-IsSown, upsert-again, find-upsert, loop-again, loop-settles,
  all_apart,
}

-- Two texts that are not equal are not both equal to a third.
pub str_eq-apart :
    (a b c : String) → not (str_eq a b) ≡ true → str_eq c a ≡ true → str_eq c b ≡ false
str_eq-apart a b c h e = ground (arith, eq_iff a b, eq_iff c a, eq_iff c b)

abbrev pub CategorySown : CategoryRow → List Category → Type 0
CategorySown r cs = (a : Category) × IsSown (has_path r.path) (rename_category r) cs a

abbrev pub apart_paths : CategoryRow → CategoryRow → Bool
apart_paths r q = not (str_eq r.path q.path)

module _ (w : World) where
  sow_category-settles :
      (r : CategoryRow) (t t' : List Category × ℕ)
      → sow_category w r t ≡ ok t'
      → CategorySown r t'.0
  unfolding sow_category
  sow_category-settles r t t' h =
      subst (λ (x : List Category × ℕ). CategorySown r x.0) (ok_injective h)
        (
          _,
          upsert-IsSown (has_path r.path) (new_category w r) (rename_category r) t.0 t.1
              (λ m. (eq_iff r.path r.path).1 refl) (λ x. refl) (λ m. refl) (λ x. refl),
        )

  sow_category-keeps :
      (r q : CategoryRow) (t t' : List Category × ℕ)
      → apart_paths r q ≡ true
      → CategorySown r t.0
      → sow_category w q t ≡ ok t'
      → CategorySown r t'.0
  unfolding sow_category
  sow_category-keeps r q t t' d (a, (found, same)) h =
      subst (λ (x : List Category × ℕ). CategorySown r x.0) (ok_injective h)
        (
          a,
          (
            find-upsert (has_path q.path) (new_category w q) (rename_category q) (has_path r.path)
                t.0 t.1 a (λ x. refl) (λ x. str_eq-apart r.path q.path x.path d) found,
            same,
          ),
        )

  pub loop-CategorySown :
      (rows : List CategoryRow) (s s' : List Category × ℕ)
      → all_apart (λ _. true) apart_paths rows ≡ true
      → loop (sow_category w) rows s ≡ ok s'
      → All (λ r. CategorySown r s'.0) rows
  loop-CategorySown rows s s' apart e =
      loop-settles (sow_category w) (λ r t. CategorySown r t.0) (λ _. true) apart_paths rows s s'
        (λ r t t' _ h. sow_category-settles r t t' h) sow_category-keeps apart e

  pub sow_category-again :
      (rows : List CategoryRow) (s : List Category × ℕ)
      → All (λ r. CategorySown r s.0) rows
      → loop (sow_category w) rows s ≡ ok s
  unfolding sow_category
  sow_category-again rows s h =
      loop-again (sow_category w) (λ r t. CategorySown r t.0) rows s
        (λ r t (a, sown).
          ap ok
            (upsert-again (has_path r.path) (new_category w r) (rename_category r) t.0 t.1 a
              sown).0)
        h
