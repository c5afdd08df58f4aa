-- ===== src/Seed/Assortment.antt =====
-- backend/scripts/seed.py: the tables `CATEGORIES`, `BRANDS` and `PRODUCTS`.
mod Furniture
mod Living
mod Kitchen
mod Electronics
mod Outdoor
use nordmarkt.Common.{List, [], ◌∷◌, ◌++◌}
use nordmarkt.Seed.Rows.{CategoryRow, BrandRow, ProductRow, category_row, brand_row}
use Furniture.{furniture}
use Living.{living}
use Kitchen.{kitchen}
use Electronics.{electronics}
use Outdoor.{outdoor}

unfoldable pub categories_seed : List CategoryRow
categories_seed =
    category_row "hem" "Hem" "Home" "hem" 0
    ∷ category_row "mobler" "Möbler" "Furniture" "hem.mobler" 1
    ∷ category_row "sittmobler" "Sittmöbler" "Seating" "hem.mobler.sittmobler" 2
    ∷ category_row "bord" "Bord" "Tables" "hem.mobler.bord" 2
    ∷ category_row "belysning" "Belysning" "Lighting" "hem.belysning" 1
    ∷ category_row "textil" "Textil" "Textiles" "hem.textil" 1
    ∷ category_row "kok" "Kök" "Kitchen" "hem.kok" 1
    ∷ category_row "elektronik" "Elektronik" "Electronics" "elektronik" 0
    ∷ category_row "ljud" "Ljud" "Audio" "elektronik.ljud" 1
    ∷ category_row "arbetsplats" "Arbetsplats" "Workspace" "elektronik.arbetsplats" 1
    ∷ category_row "utomhus" "Utomhus" "Outdoor" "utomhus" 0
    ∷ category_row "friluft" "Friluftsliv" "Outdoor life" "utomhus.friluft" 1
    ∷ []

unfoldable pub brands_seed : List BrandRow
brands_seed =
    brand_row "Vasterbo" "SE"
    ∷ brand_row "Nordljus" "SE"
    ∷ brand_row "Skogsro" "SE"
    ∷ brand_row "Hallby Audio" "SE"
    ∷ brand_row "Kallvik" "FI"
    ∷ brand_row "Ostersund Works" "SE"
    ∷ []

unfoldable pub products_seed : List ProductRow
unfolding furniture living kitchen electronics outdoor
products_seed = furniture ++ (living ++ (kitchen ++ (electronics ++ outdoor)))
