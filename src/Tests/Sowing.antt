-- ===== src/Tests/Sowing.antt =====
-- The sample data, sown in a shop that is open already.
use nordmarkt.Common.{ℕ, ◌≡◌, refl, List, [], ◌∷◌}
use nordmarkt.Shared.Database.{Database}
use nordmarkt.Shared.Slugs.{UnicodeTexts}
use nordmarkt.Catalog.Models.{Category}
use nordmarkt.Seed.Loops.{upsert}
use nordmarkt.Seed.Categories.{has_path, new_category, rename_category}
use nordmarkt.Seed.Rows.{CategoryRow}
use nordmarkt.Seed.Texts.{sku_of, image_url}
use nordmarkt.Tests.Data.{world}

abbrev plain_texts : UnicodeTexts
plain_texts = record { strip = λ s. s; lower = λ s. s; nfkd = λ s. s }

abbrev sow_all : List CategoryRow → List Category × ℕ → List Category × ℕ
sow_all [] s = s
sow_all (r ∷ rs) s =
    sow_all rs (upsert (has_path r.path) (new_category world r) (rename_category r) s)

turntable_sku : sku_of "skivspelare-spar" 0 ≡ "NM-SKIVSPELARE-01"
unfolding sku_of
turntable_sku = refl

turntable_image :
    image_url "turntable,vinyl" 1162 ≡ "https://loremflickr.com/1000/1250/turntable,vinyl?lock=1162"
unfolding image_url
turntable_image = refl
