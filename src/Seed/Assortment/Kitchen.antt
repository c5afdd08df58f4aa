-- ===== src/Seed/Assortment/Kitchen.antt =====
-- backend/scripts/seed.py: products of the table `PRODUCTS`.
use nordmarkt.Common.{List, [], ◌∷◌, none, some}
use nordmarkt.Seed.Rows.{ProductRow}

abbrev gjutjarnspanna_smedja : ProductRow
gjutjarnspanna_smedja = record {
  slug = "gjutjarnspanna-smedja";
  category_path = "hem.kok";
  brand = "Ostersund Works";
  title_sv = "Gjutjärnspanna Smedja";
  title_en = "Smedja Cast Iron Pan";
  desc_sv = "28 cm, förbränd med linolja. Tål ugn till 250 grader och håller längre än ägaren.";
  desc_en = "28 cm, pre-seasoned with linseed oil. Oven-safe to 250C and will outlast its owner.";
  price_kr = 1190;
  compare_kr = none;
  keywords = "castironpan,cooking";
  tags = "gjutjarn" ∷ [];
  option_sets = (("size", "28") ∷ []) ∷ (("size", "24") ∷ []) ∷ [];
}

abbrev knivset_sagverk : ProductRow
knivset_sagverk = record {
  slug = "knivset-sagverk";
  category_path = "hem.kok";
  brand = "Ostersund Works";
  title_sv = "Knivset Sågverk";
  title_en = "Sågverk Knife Set";
  desc_sv = "Tre knivar i pulvermetallstål, 61 HRC. Slipas om av tillverkaren i tio år.";
  desc_en = "Three powder-steel knives at 61 HRC. The maker resharpens them for ten years.";
  price_kr = 3490;
  compare_kr = some 3990;
  keywords = "kitchenknife,knives";
  tags = "stal" ∷ [];
  option_sets = (("pieces", "3") ∷ []) ∷ [];
}

abbrev kaffebryggare_morgon : ProductRow
kaffebryggare_morgon = record {
  slug = "kaffebryggare-morgon";
  category_path = "hem.kok";
  brand = "Kallvik";
  title_sv = "Kaffebryggare Morgon";
  title_en = "Morgon Coffee Brewer";
  desc_sv = "Bryggtemperatur 94 grader, glaskanna. Ingen app, ingen wifi, en knapp.";
  desc_en = "Brews at 94C into a glass carafe. No app, no wifi, one button.";
  price_kr = 2790;
  compare_kr = none;
  keywords = "coffeemaker,kitchen";
  tags = "glas" ∷ [];
  option_sets = (("colour", "stal") ∷ []) ∷ [];
}

unfoldable pub kitchen : List ProductRow
kitchen = gjutjarnspanna_smedja ∷ knivset_sagverk ∷ kaffebryggare_morgon ∷ []
