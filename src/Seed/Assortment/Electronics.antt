-- ===== src/Seed/Assortment/Electronics.antt =====
-- backend/scripts/seed.py: products of the table `PRODUCTS`.
use nordmarkt.Common.{List, [], ◌∷◌, none, some}
use nordmarkt.Seed.Rows.{ProductRow}

abbrev hogtalare_kajen : ProductRow
hogtalare_kajen = record {
  slug = "hogtalare-kajen";
  category_path = "elektronik.ljud";
  brand = "Hallby Audio";
  title_sv = "Högtalare Kajen";
  title_en = "Kajen Speaker";
  desc_sv = "Aktiv tvåvägshögtalare med ekfaner. Har fysisk volymratt och linjeingång.";
  desc_en = "Active two-way speaker in oak veneer. Physical volume dial and a line input.";
  price_kr = 8990;
  compare_kr = some 9990;
  keywords = "speaker,audio";
  tags = "ek" ∷ "bluetooth" ∷ [];
  option_sets = (("colour", "ek") ∷ []) ∷ (("colour", "valnot") ∷ []) ∷ [];
}

abbrev horlurar_tystnad : ProductRow
horlurar_tystnad = record {
  slug = "horlurar-tystnad";
  category_path = "elektronik.ljud";
  brand = "Hallby Audio";
  title_sv = "Hörlurar Tystnad";
  title_en = "Tystnad Headphones";
  desc_sv = "Över örat, 40 timmar batteri, utbytbara öronkuddar och batteri.";
  desc_en = "Over-ear, 40 hours of battery, with replaceable pads and cell.";
  price_kr = 4490;
  compare_kr = none;
  keywords = "headphones,audio";
  tags = "anc" ∷ [];
  option_sets = (("colour", "svart") ∷ []) ∷ (("colour", "sand") ∷ []) ∷ [];
}

abbrev skivspelare_spar : ProductRow
skivspelare_spar = record {
  slug = "skivspelare-spar";
  category_path = "elektronik.ljud";
  brand = "Hallby Audio";
  title_sv = "Skivspelare Spår";
  title_en = "Spår Turntable";
  desc_sv = "Remdriven, förmonterad pickup, inbyggt RIAA-steg som går att koppla förbi.";
  desc_en = "Belt-driven with a pre-mounted cartridge and a built-in RIAA stage you can bypass.";
  price_kr = 6990;
  compare_kr = none;
  keywords = "turntable,vinyl";
  tags = "vinyl" ∷ [];
  option_sets = (("colour", "svart") ∷ []) ∷ [];
}

abbrev skrivbord_station : ProductRow
skrivbord_station = record {
  slug = "skrivbord-station";
  category_path = "elektronik.arbetsplats";
  brand = "Ostersund Works";
  title_sv = "Skrivbord Station";
  title_en = "Station Standing Desk";
  desc_sv = "Elektriskt höj- och sänkbart, 62-128 cm, 100 kg lyftkapacitet, linoleumskiva.";
  desc_en = "Electric sit-stand, 62-128 cm, rated to 100 kg, linoleum top.";
  price_kr = 9490;
  compare_kr = some 10900;
  keywords = "standingdesk,office";
  tags = "hojbart" ∷ [];
  option_sets = (("size", "140x70") ∷ []) ∷ (("size", "160x80") ∷ []) ∷ [];
}

abbrev skrivbordslampa_fokus : ProductRow
skrivbordslampa_fokus = record {
  slug = "skrivbordslampa-fokus";
  category_path = "elektronik.arbetsplats";
  brand = "Nordljus";
  title_sv = "Skrivbordslampa Fokus";
  title_en = "Fokus Desk Lamp";
  desc_sv = "CRI 95, färgtemperatur 2700-5000 K, bordsklämma ingår.";
  desc_en = "CRI 95, 2700-5000 K colour temperature, desk clamp included.";
  price_kr = 1890;
  compare_kr = none;
  keywords = "desklamp,office";
  tags = "led" ∷ [];
  option_sets = (("colour", "vit") ∷ []) ∷ (("colour", "grafit") ∷ []) ∷ [];
}

abbrev tangentbord_tryck : ProductRow
tangentbord_tryck = record {
  slug = "tangentbord-tryck";
  category_path = "elektronik.arbetsplats";
  brand = "Kallvik";
  title_sv = "Tangentbord Tryck";
  title_en = "Tryck Keyboard";
  desc_sv = "Svensk layout, hot-swap-socklar och QMK. Aluminiumchassi, 1,1 kg.";
  desc_en = "Swedish layout, hot-swap sockets and QMK. Aluminium case, 1.1 kg.";
  price_kr = 2490;
  compare_kr = none;
  keywords = "keyboard,desk";
  tags = "mekaniskt" ∷ [];
  option_sets = (("switch", "brun") ∷ []) ∷ (("switch", "rod") ∷ []) ∷ [];
}

unfoldable pub electronics : List ProductRow
electronics =
    hogtalare_kajen ∷ horlurar_tystnad ∷ skivspelare_spar ∷ skrivbord_station
    ∷ skrivbordslampa_fokus ∷ tangentbord_tryck ∷ []
