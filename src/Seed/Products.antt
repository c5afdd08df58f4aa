-- ===== src/Seed/Products.antt =====
-- backend/scripts/seed.py: the loop over products, of `seed`.
use nordmarkt.Common.{
  ℕ, ◌+◌, ◌*◌, ◌%◌, Bool, true, false, Option, none, some, List, [], ◌∷◌, String, str_eq, ◌==◌,
  if◌then◌else◌,
}
use nordmarkt.Core.Errors.{Result, ok, ◌>>=◌}
use nordmarkt.Shared.UnitOfWork.{World}
use nordmarkt.Catalog.Models.{Translations, Product, ProductImage, ProductVariant}
use nordmarkt.Inventory.Models.{StockItem}
use nordmarkt.Seed.Rows.{ProductRow}
use nordmarkt.Seed.Texts.{sku_of, image_url}
use nordmarkt.Seed.Loops.{loop, enumerate, upsert, upserted}

abbrev pub has_product_slug : String → Product → Bool
has_product_slug slug p = str_eq p.slug slug

abbrev pub seed_image : ProductRow → ℕ → ℕ → ProductImage
seed_image r index position = record {
  url = image_url r.keywords (1000 + index * 10 + position);
  alt_text = ("sv", r.title_sv) ∷ ("en", r.title_en) ∷ [];
  position = position;
  width = some 1000;
  height = some 1250;
}

-- `if not product.images`, and the images for it.
abbrev pub images_for : ProductRow → ℕ → List ProductImage → List ProductImage
images_for r index [] = seed_image r index 0 ∷ seed_image r index 1 ∷ seed_image r index 2 ∷ []
images_for r index (i ∷ is) = i ∷ is

-- The assignments to a product. The average is a number of tenths from 3.9 to 4.9, in hundredths.
abbrev pub describe : ProductRow → ℕ → ℕ → ℕ → Product → Product
describe r index category brand p = record p {
  title = ("sv", r.title_sv) ∷ ("en", r.title_en) ∷ [];
  description = ("sv", r.desc_sv) ∷ ("en", r.desc_en) ∷ [];
  highlights =
      ("sv", "Fri frakt över 995 kr" ∷ "60 dagars öppet köp" ∷ "Skickas från Sverige" ∷ [])
      ∷ ("en", "Free shipping over 995 kr" ∷ "60-day returns" ∷ "Ships from Sweden" ∷ [])
      ∷ [];
  category_id = category;
  brand_id = some brand;
  is_published = true;
  tags = r.tags;
  rating_average = 390 + index % 11 * 10;
  rating_count = 12 + index * 7;
  images = images_for r index p.images;
}

abbrev pub has_sku : String → ProductVariant → Bool
has_sku sku v = str_eq v.sku sku

-- `compare_kr * 100 if compare_kr else None`
abbrev pub compare_minor : Option ℕ → Option ℕ
compare_minor none = none
compare_minor (some kr) = if kr == 0 then none else some (kr * 100)

abbrev pub price_variant : ProductRow → ℕ → Translations → ProductVariant → ProductVariant
price_variant r j options v = record v {
  options = options;
  price_minor_units = (r.price_kr + j * 300) * 100;
  compare_at_minor_units = compare_minor r.compare_kr;
  vat_rate = 250;
  is_active = true;
}

abbrev pub of_variant : ℕ → StockItem → Bool
of_variant id s = s.variant_id == id

-- `[3, 18, 42, 7, 0][i % 5]`
abbrev pub first_stock : ℕ → ℕ
first_stock i =
    let k = i % 5 in
    if k == 0 then 3 else if k == 1 then 18 else if k == 2 then 42 else if k == 3 then 7 else 0

-- The tables that a product is sown in, and the number of draws.
pub record Shelves : Type 0 where
  pub products : List Product
  pub variants : List ProductVariant
  pub stock : List StockItem
  pub drawn : ℕ

module _ (w : World) where
  abbrev pub new_stock : ℕ → ℕ → ℕ → StockItem
  new_stock variant i n = record {
    id = w.uuid4 n;
    variant_id = variant;
    warehouse_code = "SE-STO";
    on_hand = first_stock i;
    reserved = 0;
    low_stock_threshold = 5;
  }

  -- A new row, with the assignments that follow.
  abbrev pub new_variant : ProductRow → ℕ → ℕ → Translations → ℕ → ProductVariant
  new_variant r product j options n = price_variant r j options (record {
    id = w.uuid4 n;
    product_id = product;
    sku = sku_of r.slug j;
    options = [];
    price_minor_units = 0;
    compare_at_minor_units = none;
    currency = "SEK";
    vat_rate = 250;
    weight_grams = none;
    is_active = true;
  })

  unfoldable pub sow_variant : ProductRow → ℕ → ℕ → ℕ × Translations → Shelves → Result Shelves
  sow_variant r index product (j, options) s =
      let is_it = has_sku (sku_of r.slug j) in
      let make = new_variant r product j options in
      let assign = price_variant r j options in
      let (variants, n) = upsert is_it make assign (s.variants, s.drawn) in
      let id = (upserted is_it make assign (s.variants, s.drawn)).id in
      let (stock, n') = upsert (of_variant id) (new_stock id (index + j)) (λ i. i) (s.stock, n) in
      ok (record s { variants = variants; stock = stock; drawn = n' })

  abbrev pub new_product : ProductRow → ℕ → ℕ → ℕ → ℕ → Product
  new_product r index category brand n = describe r index category brand (record {
    id = w.uuid4 n;
    slug = r.slug;
    title = [];
    description = [];
    highlights = [];
    category_id = category;
    brand_id = none;
    is_published = false;
    deleted_at = none;
    created_at = w.now;
    rating_average = 0;
    rating_count = 0;
    tags = [];
    images = [];
  })

  module _ (category_ids brand_ids : String → Result ℕ) where
    unfoldable pub sow_product : ℕ × ProductRow → Shelves → Result Shelves
    unfolding sow_variant
    sow_product (index, r) s = do
      category ← category_ids r.category_path
      brand ← brand_ids r.brand
      let is_it = has_product_slug r.slug
      let make = new_product r index category brand
      let assign = describe r index category brand
      let found = upsert is_it make assign (s.products, s.drawn)
      let id = (upserted is_it make assign (s.products, s.drawn)).id
      loop (sow_variant r index id) (enumerate 0 r.option_sets)
          (record s { products = found.0; drawn = found.1 })
