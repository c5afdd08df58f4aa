-- ===== src/Catalog.antt =====
-- backend/app/modules/catalog/repository.py: the reads of `ProductRepository` that carts and
-- checkout make.
pub mod Models
pub mod Prices
pub mod Schemas
pub mod Search
pub mod Facets
pub mod Categories
use nordmarkt.Common.{
  ℕ, Bool, Option, none, some, List, [], ◌∷◌, ◌==◌, if◌then◌else◌, select, find, any,
}
use nordmarkt.Shared.UnitOfWork.{Action, ◌>>=◌, gets}
use Models.{ProductVariant}

unfoldable pub get_variant : ℕ → Action (Option ProductVariant)
get_variant id = gets (λ db. find (λ v. v.id == id) db.variants)

-- The rows of a batch fetch.
unfoldable pub fetch_variants : List ℕ → List ProductVariant → List ProductVariant
fetch_variants [] variants = []
fetch_variants (id ∷ ids) variants = select (λ v. any (λ k. k == v.id) (id ∷ ids)) variants

unfoldable pub get_variants : List ℕ → Action (List ProductVariant)
get_variants ids = gets (λ db. fetch_variants ids db.variants)

-- `variants.get(id)` on the dictionary of a batch; ids are unique in the table.
abbrev pub variant_by_id : ℕ → List ProductVariant → Option ProductVariant
variant_by_id id variants = find (λ v. v.id == id) variants
