-- ===== src/Seed.antt =====
-- backend/scripts/seed.py: `seed`. Its session is flushed before every query that could miss a row
-- of its own, so the tables are those that the queries see.
pub mod Rows
pub mod Texts
pub mod Assortment
pub mod Loops
pub mod Categories
pub mod Products
pub mod Upserts
pub mod Twice
pub mod Success
use nordmarkt.Common.{
  ℕ, ◌+◌, ◌*◌, ◌%◌, Bool, true, false, not, ◌&&◌, Option, none, some, List, [], ◌∷◌, ◌++◌, String,
  str_eq, ◌==◌, if◌then◌else◌, find, modify, any, map,
}
use nordmarkt.Common.Texts.{codes}
use nordmarkt.Core.Errors.{Result, ok, err, ◌>>=◌, Exception, key_error, integrity_error}
use nordmarkt.Shared.Database.{Database}
use nordmarkt.Shared.UnitOfWork.{World}
use nordmarkt.Shared.Slugs.{UnicodeTexts, slugify}
use nordmarkt.Catalog.Models.{Translations, Category, Brand, Product, ProductImage, ProductVariant}
use nordmarkt.Inventory.Models.{StockItem}
use nordmarkt.Identity.Models.{User, Address}
use nordmarkt.Identity.{Crypto, has_email}
use nordmarkt.Api.Catalog.Forest.{parent_path}
use nordmarkt.Seed.Rows.{CategoryRow, BrandRow, ProductRow}
use nordmarkt.Seed.Texts.{sku_of, image_url, text_of}
use nordmarkt.Seed.Assortment.{categories_seed, brands_seed, products_seed}
use nordmarkt.Seed.Loops.{loop, enumerate, upsert, upserted}
use nordmarkt.Seed.Categories.{
  has_path, rename_category, new_category, sow_category, category_id, is_nested, set_parent,
  link_category, distinct_slugs, flush_categories, has_slug, brand_slug, brand_id, new_brand,
  sow_brand,
}
use nordmarkt.Seed.Products.{
  has_product_slug, seed_image, images_for, describe, has_sku, compare_minor, price_variant,
  of_variant, first_stock, Shelves, new_stock, new_variant, sow_variant, new_product, sow_product,
}

abbrev pub demo_email : String
demo_email = "demo@nordmarkt.se"

abbrev pub shelves_of : Database → ℕ → Shelves
shelves_of db n = record {
  products = db.products;
  variants = db.variants;
  stock = db.stock_items;
  drawn = n;
}

abbrev pub with_tables :
    Database → List Category → List Brand → Shelves → List User × List Address × ℕ → Database × ℕ
with_tables db categories brands shelves (users, addresses, n) = (
  record db {
    categories = categories;
    brands = brands;
    products = shelves.products;
    variants = shelves.variants;
    stock_items = shelves.stock;
    users = users;
    addresses = addresses;
  },
  n,
)

module _ (w : World) (c : Crypto) where
  abbrev pub demo_user : ℕ → User
  demo_user n = record {
    id = w.uuid4 n;
    email = demo_email;
    password_hash = c.hash_password n "nordmarkt-demo-2026";
    full_name = "Demo Kund";
    preferred_locale = "sv";
    roles = "customer" ∷ "admin" ∷ [];
    is_active = true;
  }

  abbrev pub demo_address : ℕ → Address
  demo_address n = record {
    id = w.uuid4 (n + 1);
    user_id = w.uuid4 n;
    recipient = "Demo Kund";
    street = "Hornsgatan 12";
    postal_code = "118 20";
    city = "Stockholm";
    country_code = "SE";
    phone = none;
    is_default = true;
  }

  unfoldable pub sow_user : List User × List Address × ℕ → List User × List Address × ℕ
  sow_user (users, addresses, n) = elim (find (has_email demo_email) users) [
    | some _ ↦ (users, addresses, n)
    | none ↦ (users ++ demo_user n ∷ [], addresses ++ demo_address n ∷ [], n + 2)
  ]

  -- The two loops over the categories, with the flush between them.
  unfoldable pub sow_categories : List Category × ℕ → Result (List Category × ℕ)
  unfolding sow_category link_category flush_categories
  sow_categories s = do
    sown ← loop (sow_category w) categories_seed s
    flushed ← flush_categories sown.0
    linked ← loop (link_category categories_seed) categories_seed flushed
    ok (linked, sown.1)

  module _ (u : UnicodeTexts) where
    unfoldable pub sow_products : List Category → List Brand → Shelves → Result Shelves
    unfolding sow_product
    sow_products categories brands =
        loop
          (sow_product w (λ path. category_id categories_seed path categories)
            (λ name. brand_id u brands_seed name brands))
          (enumerate 0 products_seed)

    -- `seed`, on the stored database and the number of draws; on an exception nothing is committed.
    unfoldable pub seed : Database × ℕ → Result (Database × ℕ)
    seed (db, n) = do
      categories ← sow_categories (db.categories, n)
      brands ← loop (sow_brand u w) brands_seed (db.brands, categories.1)
      shelves ← sow_products categories.0 brands.0 (shelves_of db brands.1)
      ok (
          with_tables db categories.0 brands.0 shelves
            (sow_user (db.users, db.addresses, shelves.drawn)))
