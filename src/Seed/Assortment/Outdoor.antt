-- ===== src/Seed/Assortment/Outdoor.antt =====
-- backend/scripts/seed.py: products of the table `PRODUCTS`.
use nordmarkt.Common.{List, [], ◌∷◌, none, some}
use nordmarkt.Seed.Rows.{ProductRow}

abbrev ryggsack_fjall : ProductRow
ryggsack_fjall = record {
  slug = "ryggsack-fjall";
  category_path = "utomhus.friluft";
  brand = "Skogsro";
  title_sv = "Ryggsäck Fjäll 30L";
  title_en = "Fjäll 30L Backpack";
  desc_sv = "Återvunnen ripstop, rullstängning, 30 liter. Sömmarna är tejpade, inte bara sydda.";
  desc_en = "Recycled ripstop, roll-top closure, 30 litres. Seams are taped, not just stitched.";
  price_kr = 2190;
  compare_kr = some 2590;
  keywords = "backpack,hiking";
  tags = "atervunnet" ∷ [];
  option_sets = (("colour", "mossa") ∷ []) ∷ (("colour", "kol") ∷ []) ∷ [];
}

abbrev termos_vinter : ProductRow
termos_vinter = record {
  slug = "termos-vinter";
  category_path = "utomhus.friluft";
  brand = "Ostersund Works";
  title_sv = "Termos Vinter 0,9L";
  title_en = "Vinter 0.9L Flask";
  desc_sv = "Rostfritt dubbelväggigt stål, håller 70 grader i tolv timmar.";
  desc_en = "Double-walled stainless steel, holds 70C for twelve hours.";
  price_kr = 599;
  compare_kr = none;
  keywords = "thermos,outdoor";
  tags = "stal" ∷ [];
  option_sets = (("size", "0.9") ∷ []) ∷ (("size", "0.5") ∷ []) ∷ [];
}

abbrev regnjacka_kust : ProductRow
regnjacka_kust = record {
  slug = "regnjacka-kust";
  category_path = "utomhus.friluft";
  brand = "Skogsro";
  title_sv = "Regnjacka Kust";
  title_en = "Kust Rain Jacket";
  desc_sv = "PFAS-fri impregnering, 20 000 mm vattenpelare, tejpade sömmar.";
  desc_en = "PFAS-free durable water repellent, 20,000 mm hydrostatic head, taped seams.";
  price_kr = 3490;
  compare_kr = none;
  keywords = "rainjacket,outdoor";
  tags = "pfas-fri" ∷ [];
  option_sets = (("size", "M") ∷ []) ∷ (("size", "L") ∷ []) ∷ (("size", "XL") ∷ []) ∷ [];
}

abbrev stormkok_lager : ProductRow
stormkok_lager = record {
  slug = "stormkok-lager";
  category_path = "utomhus.friluft";
  brand = "Ostersund Works";
  title_sv = "Stormkök Läger";
  title_en = "Läger Camp Stove";
  desc_sv = "Kokar en liter på tre minuter i blåst. Går på gas eller rödsprit.";
  desc_en = "Boils a litre in three minutes in wind. Runs on gas or denatured alcohol.";
  price_kr = 1290;
  compare_kr = some 1490;
  keywords = "campstove,camping";
  tags = "friluft" ∷ [];
  option_sets = (("fuel", "gas") ∷ []) ∷ [];
}

unfoldable pub outdoor : List ProductRow
outdoor = ryggsack_fjall ∷ termos_vinter ∷ regnjacka_kust ∷ stormkok_lager ∷ []
