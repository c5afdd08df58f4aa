-- ===== src/Seed/Categories.antt =====
-- backend/scripts/seed.py: the loops over categories and brands, of `seed`.
use nordmarkt.Common.{
  ℕ, Bool, true, not, ◌&&◌, none, some, List, [], ◌∷◌, String, str_eq, ◌==◌, if◌then◌else◌, find,
  modify, any,
}
use nordmarkt.Common.Texts.{codes}
use nordmarkt.Core.Errors.{Result, ok, err, ◌>>=◌, key_error, integrity_error}
use nordmarkt.Shared.UnitOfWork.{World}
use nordmarkt.Shared.Slugs.{UnicodeTexts, slugify}
use nordmarkt.Catalog.Models.{Category, Brand}
use nordmarkt.Api.Catalog.Forest.{parent_path}
use nordmarkt.Seed.Rows.{CategoryRow, BrandRow}
use nordmarkt.Seed.Texts.{text_of}
use nordmarkt.Seed.Loops.{upsert}

abbrev pub has_path : String → Category → Bool
has_path path c = str_eq c.path path

abbrev pub rename_category : CategoryRow → Category → Category
rename_category r c = record c { name = r.name }

module _ (w : World) where
  abbrev pub new_category : CategoryRow → ℕ → Category
  new_category r n = record {
    id = w.uuid4 n;
    slug = r.slug;
    name = r.name;
    parent_id = none;
    path = r.path;
    depth = r.depth;
    position = 0;
  }

  unfoldable pub sow_category : CategoryRow → List Category × ℕ → Result (List Category × ℕ)
  sow_category r s = ok (upsert (has_path r.path) (new_category r) (rename_category r) s)

-- `categories[path].id`: the dictionary has the row that the loop found or added for each path.
abbrev pub category_id : List CategoryRow → String → List Category → Result ℕ
category_id rows path table =
    if any (λ (r : CategoryRow). str_eq r.path path) rows
    then elim (find (has_path path) table) [ none ↦ err key_error | some c ↦ ok c.id ]
    else err key_error

-- `"." in path`
abbrev pub is_nested : String → Bool
is_nested path = any (λ c. c == b'.') (codes path)

abbrev pub set_parent : ℕ → Category → Category
set_parent parent c = record c { parent_id = some parent }

unfoldable pub link_category :
    List CategoryRow → CategoryRow → List Category → Result (List Category)
link_category rows r table =
    if is_nested r.path
    then (category_id rows (parent_path r.path) table >>= λ parent.
        ok (modify (has_path r.path) (set_parent parent) table))
    else ok table

-- The unique constraint on the slug of a category, which a flush checks.
abbrev pub distinct_slugs : List Category → Bool
distinct_slugs [] = true
distinct_slugs (c ∷ cs) = not (any (λ (d : Category). str_eq d.slug c.slug) cs) && distinct_slugs cs

unfoldable pub flush_categories : List Category → Result (List Category)
flush_categories table = if distinct_slugs table then ok table else err integrity_error

abbrev pub has_slug : String → Brand → Bool
has_slug slug b = str_eq b.slug slug

module _ (u : UnicodeTexts) where
  abbrev pub brand_slug : String → String
  brand_slug name = text_of (slugify u (codes name) 120)

  abbrev pub brand_id : List BrandRow → String → List Brand → Result ℕ
  brand_id rows name table =
      if any (λ (r : BrandRow). str_eq r.name name) rows
      then elim (find (has_slug (brand_slug name)) table) [
        | none ↦ err key_error
        | some b ↦ ok b.id
      ]
      else err key_error

  module _ (w : World) where
    abbrev pub new_brand : BrandRow → ℕ → Brand
    new_brand r n = record {
      id = w.uuid4 n;
      slug = brand_slug r.name;
      name = r.name;
      country_code = some r.country;
      logo_url = none;
    }

    unfoldable pub sow_brand : BrandRow → List Brand × ℕ → Result (List Brand × ℕ)
    sow_brand r s = ok (upsert (has_slug (brand_slug r.name)) (new_brand r) (λ b. b) s)
