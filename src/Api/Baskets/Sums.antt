-- ===== src/Api/Baskets/Sums.antt =====
-- The sums of a basket as backend/app/api/routers/cart.py shows it.
use nordmarkt.Common.{ℕ, ◌+◌, ◌≡◌, Option, none, some, List, [], ◌∷◌, ◌==◌, find, All}
use nordmarkt.Common.Int.{pos_part}
use nordmarkt.Shared.Database.{Database}
use nordmarkt.Catalog.Models.{Product, ProductVariant}
use nordmarkt.Catalog.{variant_by_id}
use nordmarkt.Cart.Models.{Cart, CartItem}
use nordmarkt.Api.Baskets.{CartLineOut}

-- What the lines of a response add up to, in minor units and in pieces.
abbrev pub shown_sum : List CartLineOut → ℕ
shown_sum [] = 0
shown_sum (l ∷ ls) = pos_part l.line_total.minor_units + shown_sum ls

abbrev pub shown_pieces : List CartLineOut → ℕ
shown_pieces [] = 0
shown_pieces (l ∷ ls) = l.quantity + shown_pieces ls

-- The products of the variants are there.
abbrev pub HasProduct : Database → Option ProductVariant → Type 0
HasProduct db none = Unit
HasProduct db (some v) = (p : Product) × (find (λ p. p.id == v.product_id) db.products ≡ some p)

abbrev pub AllProducts : Database → List ProductVariant → List CartItem → Type 0
AllProducts db vs = All (λ l. HasProduct db (variant_by_id l.variant_id vs))

-- What one line adds.
abbrev IsLine : List CartLineOut → ℕ → ℕ → Type 0
IsLine shown g n = (shown_sum shown ≡ g) × (shown_pieces shown ≡ n)
