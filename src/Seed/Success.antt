-- ===== src/Seed/Success.antt =====
-- backend/scripts/seed.py: when the script succeeds.
use nordmarkt.Common.{ℕ, Bool, not, ◌&&◌, ◌||◌, List, any, All, str_eq}
use nordmarkt.Shared.Database.{Database}
use nordmarkt.Catalog.Models.{Category}
use nordmarkt.Api.Catalog.Forest.{parent_path}
use nordmarkt.Seed.Categories.{is_nested}
use nordmarkt.Seed.Rows.{CategoryRow, BrandRow, ProductRow}
use nordmarkt.Seed.Assortment.{categories_seed, brands_seed}
use nordmarkt.Seed.Twice.Categories.{CategorySown}

-- The rows of the tables name categories and brands of the tables.
abbrev parent_known : CategoryRow → Bool
parent_known r =
    not (is_nested r.path)
    || any (λ (q : CategoryRow). str_eq q.path (parent_path r.path)) categories_seed

abbrev product_known : ℕ × ProductRow → Bool
product_known (_, r) =
    any (λ (q : CategoryRow). str_eq q.path r.category_path) categories_seed
    && any (λ (q : BrandRow). str_eq q.name r.brand) brands_seed

abbrev AllSown : List Category → Type 0
AllSown cs = All (λ r. CategorySown r cs) categories_seed
