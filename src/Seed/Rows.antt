-- ===== src/Seed/Rows.antt =====
-- backend/scripts/seed.py: the rows of its tables.
use nordmarkt.Common.{ℕ, List, [], ◌∷◌, Option, String}
use nordmarkt.Catalog.Models.{Translations}

pub record CategoryRow : Type 0 where
  pub slug : String
  pub name : Translations
  pub path : String
  pub depth : ℕ

abbrev pub category_row : String → String → String → String → ℕ → CategoryRow
category_row slug sv en path depth = record {
  slug = slug;
  name = ("sv", sv) ∷ ("en", en) ∷ [];
  path = path;
  depth = depth;
}

pub record BrandRow : Type 0 where
  pub name : String
  pub country : String

abbrev pub brand_row : String → String → BrandRow
brand_row name country = record { name = name; country = country }

pub record ProductRow : Type 0 where
  pub slug : String
  pub category_path : String
  pub brand : String
  pub title_sv : String
  pub title_en : String
  pub desc_sv : String
  pub desc_en : String
  pub price_kr : ℕ
  pub compare_kr : Option ℕ
  pub keywords : String
  pub tags : List String
  pub option_sets : List Translations
