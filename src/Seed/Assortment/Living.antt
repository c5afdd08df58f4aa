-- ===== src/Seed/Assortment/Living.antt =====
-- backend/scripts/seed.py: products of the table `PRODUCTS`.
use nordmarkt.Common.{List, [], ◌∷◌, none, some}
use nordmarkt.Seed.Rows.{ProductRow}

abbrev golvlampa_aurora : ProductRow
golvlampa_aurora = record {
  slug = "golvlampa-aurora";
  category_path = "hem.belysning";
  brand = "Nordljus";
  title_sv = "Golvlampa Aurora";
  title_en = "Aurora Floor Lamp";
  desc_sv =
      "Opalglas och mässing, dimbar till 5 %. Lampan tar E27, så glödlampan är inte inbyggd och kan bytas.";
  desc_en =
      "Opal glass and brass, dimmable to 5%. Takes a standard E27, so the bulb is replaceable rather than sealed in.";
  price_kr = 3290;
  compare_kr = none;
  keywords = "floorlamp,lighting";
  tags = "massing" ∷ "dimbar" ∷ [];
  option_sets = (("finish", "massing") ∷ []) ∷ (("finish", "svart") ∷ []) ∷ [];
}

abbrev bordslampa_lykta : ProductRow
bordslampa_lykta = record {
  slug = "bordslampa-lykta";
  category_path = "hem.belysning";
  brand = "Nordljus";
  title_sv = "Bordslampa Lykta";
  title_en = "Lykta Table Lamp";
  desc_sv = "Handblåst glas i Småland. Varje kupa har små variationer, det är inte ett fel.";
  desc_en = "Hand-blown in Småland. Each shade varies slightly; that is the process, not a defect.";
  price_kr = 1690;
  compare_kr = some 1990;
  keywords = "tablelamp,glass";
  tags = "glas" ∷ [];
  option_sets = (("colour", "rok") ∷ []) ∷ (("colour", "klar") ∷ []) ∷ [];
}

abbrev pendel_hamn : ProductRow
pendel_hamn = record {
  slug = "pendel-hamn";
  category_path = "hem.belysning";
  brand = "Nordljus";
  title_sv = "Pendel Hamn";
  title_en = "Hamn Pendant";
  desc_sv = "Emaljerad plåt, 40 cm diameter. Sladden är textilklädd och 3 meter lång.";
  desc_en = "Enamelled steel, 40 cm across. Three metres of fabric-covered cord.";
  price_kr = 2190;
  compare_kr = none;
  keywords = "pendantlight,lamp";
  tags = "emalj" ∷ [];
  option_sets = (("colour", "gron") ∷ []) ∷ (("colour", "cream") ∷ []) ∷ [];
}

abbrev ullpladd_lappland : ProductRow
ullpladd_lappland = record {
  slug = "ullpladd-lappland";
  category_path = "hem.textil";
  brand = "Skogsro";
  title_sv = "Ullpläd Lappland";
  title_en = "Lappland Wool Throw";
  desc_sv = "130x180 cm lammull, vävd i Sverige. Tvättas i ullprogram, tål 30 grader.";
  desc_en = "130x180 cm lambswool, woven in Sweden. Machine washable on a wool cycle at 30.";
  price_kr = 1490;
  compare_kr = none;
  keywords = "woolblanket,textile";
  tags = "ull" ∷ "vavd" ∷ [];
  option_sets = (("colour", "gra") ∷ []) ∷ (("colour", "rodbrun") ∷ []) ∷ [];
}

abbrev matta_kust : ProductRow
matta_kust = record {
  slug = "matta-kust";
  category_path = "hem.textil";
  brand = "Kallvik";
  title_sv = "Matta Kust";
  title_en = "Kust Rug";
  desc_sv = "Handvävd jute, 200x300 cm. Fäller lite första månaden och slutar sedan.";
  desc_en = "Hand-woven jute, 200x300 cm. Sheds a little for the first month, then stops.";
  price_kr = 4290;
  compare_kr = some 4990;
  keywords = "jauterug,rug";
  tags = "jute" ∷ [];
  option_sets = (("size", "200x300") ∷ []) ∷ (("size", "160x230") ∷ []) ∷ [];
}

abbrev kuddfodral_skarhamn : ProductRow
kuddfodral_skarhamn = record {
  slug = "kuddfodral-skarhamn";
  category_path = "hem.textil";
  brand = "Vasterbo";
  title_sv = "Kuddfodral Skärhamn";
  title_en = "Skärhamn Cushion Cover";
  desc_sv = "50x50 cm tvättat lin med dold dragkedja.";
  desc_en = "50x50 cm washed linen with a hidden zip.";
  price_kr = 349;
  compare_kr = none;
  keywords = "cushion,linen";
  tags = "lin" ∷ [];
  option_sets = (("colour", "blek") ∷ []) ∷ (("colour", "indigo") ∷ []) ∷ [];
}

unfoldable pub living : List ProductRow
living =
    golvlampa_aurora ∷ bordslampa_lykta ∷ pendel_hamn ∷ ullpladd_lappland ∷ matta_kust
    ∷ kuddfodral_skarhamn ∷ []
