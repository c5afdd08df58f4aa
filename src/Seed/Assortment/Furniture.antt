-- ===== src/Seed/Assortment/Furniture.antt =====
-- backend/scripts/seed.py: products of the table `PRODUCTS`.
use nordmarkt.Common.{List, [], ◌∷◌, none, some}
use nordmarkt.Seed.Rows.{ProductRow}

abbrev fatolj_hedvig : ProductRow
fatolj_hedvig = record {
  slug = "fatolj-hedvig";
  category_path = "hem.mobler.sittmobler";
  brand = "Vasterbo";
  title_sv = "Fåtölj Hedvig";
  title_en = "Hedvig Armchair";
  desc_sv =
      "Formpressad ek och ullklädsel från Gotland. Ramen är limträ, inte spånskiva, och stolen går att klä om i stället för att slängas.";
  desc_en =
      "Moulded oak with Gotland wool upholstery. The frame is glulam rather than particle board, so the chair can be reupholstered instead of replaced.";
  price_kr = 6490;
  compare_kr = some 7990;
  keywords = "armchair,wool";
  tags = "ek" ∷ "ull" ∷ [];
  option_sets = (("colour", "havre") ∷ []) ∷ (("colour", "kolgra") ∷ []) ∷ [];
}

abbrev soffa_mariefred : ProductRow
soffa_mariefred = record {
  slug = "soffa-mariefred";
  category_path = "hem.mobler.sittmobler";
  brand = "Vasterbo";
  title_sv = "Soffa Mariefred 3-sits";
  title_en = "Mariefred 3-seat Sofa";
  desc_sv =
      "Tre sitsar, avtagbara klädslar och fjäderpackade dynor som återfår formen efter en kväll i soffan.";
  desc_en =
      "Three seats, removable covers, and spring-packed cushions that recover their shape after an evening on them.";
  price_kr = 14900;
  compare_kr = none;
  keywords = "sofa,livingroom";
  tags = "ull" ∷ "avtagbar" ∷ [];
  option_sets = (("colour", "sand") ∷ []) ∷ (("colour", "mossgron") ∷ []) ∷ [];
}

abbrev pall_lodose : ProductRow
pall_lodose = record {
  slug = "pall-lodose";
  category_path = "hem.mobler.sittmobler";
  brand = "Skogsro";
  title_sv = "Pall Lödöse";
  title_en = "Lödöse Stool";
  desc_sv =
      "Massiv björk, staplingsbar tre i höjd. Sitsen är oljad, inte lackad, så repor går att slipa bort.";
  desc_en =
      "Solid birch, stacks three high. The seat is oiled rather than lacquered, so scratches sand out.";
  price_kr = 1290;
  compare_kr = none;
  keywords = "stool,wood";
  tags = "bjork" ∷ [];
  option_sets = (("height", "45") ∷ []) ∷ (("height", "65") ∷ []) ∷ [];
}

abbrev matbord_ransater : ProductRow
matbord_ransater = record {
  slug = "matbord-ransater";
  category_path = "hem.mobler.bord";
  brand = "Skogsro";
  title_sv = "Matbord Ransäter";
  title_en = "Ransäter Dining Table";
  desc_sv =
      "180 cm massiv ask med iläggsskiva. Bordsskivan är 30 mm tjock och sitter på insexskruvar, inte lim.";
  desc_en =
      "180 cm solid ash with an extension leaf. The top is 30 mm thick and bolted rather than glued.";
  price_kr = 11900;
  compare_kr = some 13500;
  keywords = "diningtable,wood";
  tags = "ask" ∷ "utdragbar" ∷ [];
  option_sets = (("size", "180") ∷ []) ∷ (("size", "220") ∷ []) ∷ [];
}

abbrev sidobord_visby : ProductRow
sidobord_visby = record {
  slug = "sidobord-visby";
  category_path = "hem.mobler.bord";
  brand = "Kallvik";
  title_sv = "Sidobord Visby";
  title_en = "Visby Side Table";
  desc_sv = "Pulverlackerat stål med kalkstensskiva. Väger 9 kg, står stilla på trägolv.";
  desc_en =
      "Powder-coated steel with a limestone top. Nine kilos, and it stays put on a wooden floor.";
  price_kr = 2490;
  compare_kr = none;
  keywords = "sidetable,stone";
  tags = "sten" ∷ "stal" ∷ [];
  option_sets = (("colour", "svart") ∷ []) ∷ [];
}

unfoldable pub furniture : List ProductRow
furniture = fatolj_hedvig ∷ soffa_mariefred ∷ pall_lodose ∷ matbord_ransater ∷ sidobord_visby ∷ []
