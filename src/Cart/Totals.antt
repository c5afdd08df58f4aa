-- ===== src/Cart/Totals.antt =====
-- backend/app/modules/cart/service.py: `repricing_report` and `totals`.
pub mod Sums
use nordmarkt.Common.{
  ℕ, ◌+◌, ◌||◌, Option, none, some, List, [], ◌∷◌, ◌++◌, String, ◌==◌, if◌then◌else◌, map,
}
use nordmarkt.Common.Int.{pos, leb_ℤ}
use nordmarkt.Core.Errors.{Result, ok, ◌>>=◌}
use nordmarkt.Core.Decimal.{Decimal}
use nordmarkt.Core.Money.{Money, make, plus, times, apply_rate, is_zero, vat_share}
use nordmarkt.Catalog.Models.{ProductVariant}
use nordmarkt.Catalog.{fetch_variants, variant_by_id}
use nordmarkt.Cart.Models.{CartItem}

-- A NUMERIC(4, 3) as the driver hands it over.
abbrev pub rate_of : ℕ → Decimal
rate_of thousandths = record { coefficient = pos thousandths; scale = 3 }

abbrev pub free_shipping_threshold : Money
free_shipping_threshold = record { minor_units = pos 99500; currency = "SEK" }

abbrev pub standard_shipping : Money
standard_shipping = record { minor_units = pos 4900; currency = "SEK" }

pub record CartTotals : Type 0 where
  pub subtotal : Money
  pub vat : Money
  pub shipping : Money
  pub total : Money
  pub item_count : ℕ

-- `CartTotals.__init__`
unfoldable pub make_totals : Money → Money → Money → ℕ → Result CartTotals
make_totals subtotal vat shipping count = do
  total ← plus subtotal shipping
  ok (record {
    subtotal = subtotal;
    vat = vat;
    shipping = shipping;
    total = total;
    item_count = count;
  })

pub record Drift : Type 0 where
  pub variant_id : ℕ
  pub was : ℕ
  pub now : ℕ

drift_of : CartItem → Option ProductVariant → List Drift
drift_of line none = []
drift_of line (some v) =
    if v.price_minor_units == line.unit_price_minor_units
    then []
    else record {
      variant_id = line.variant_id;
      was = line.unit_price_minor_units;
      now = v.price_minor_units;
    }
      ∷ []

drifts : List ProductVariant → List CartItem → List Drift
drifts variants [] = []
drifts variants (line ∷ lines) =
    drift_of line (variant_by_id line.variant_id variants) ++ drifts variants lines

abbrev pub variant_ids : List CartItem → List ℕ
variant_ids = map λ line. line.variant_id

-- `repricing_report`, from the cart's lines and the table of variants.
unfoldable pub repricing_report : List CartItem → List ProductVariant → List Drift
unfolding fetch_variants drifts drift_of
repricing_report lines table = drifts (fetch_variants (variant_ids lines) table) lines

-- The loop's variables in `totals`.
pub record Running : Type 0 where
  pub subtotal : Money
  pub vat : Money
  pub count : ℕ

-- One line of the loop; a line whose variant is gone is passed over.
unfoldable pub add_line : Option ProductVariant → CartItem → Running → Result Running
add_line none line s = ok s
add_line (some v) line s = do
  unit ← make (pos v.price_minor_units) v.currency
  line_total ← times unit (pos line.quantity)
  subtotal ← plus s.subtotal line_total
  share ← apply_rate line_total (vat_share (rate_of v.vat_rate))
  vat ← plus s.vat share
  ok (record { subtotal = subtotal; vat = vat; count = s.count + line.quantity })

unfoldable pub add_lines : List ProductVariant → List CartItem → Running → Result Running
unfolding add_line
add_lines variants [] s = ok s
add_lines variants (line ∷ lines) s =
    add_line (variant_by_id line.variant_id variants) line s >>= add_lines variants lines

unfoldable pub shipping_for : String → Money → Result Money
unfolding is_zero
shipping_for currency subtotal =
    if leb_ℤ free_shipping_threshold.minor_units subtotal.minor_units || is_zero subtotal
    then make (pos 0) currency
    else ok standard_shipping

-- `totals`, from the cart's currency, its lines and the table of variants.
unfoldable pub totals : String → List CartItem → List ProductVariant → Result CartTotals
unfolding add_lines fetch_variants shipping_for make_totals
totals currency lines table = do
  zero_money ← make (pos 0) currency
  s ←
      add_lines (fetch_variants (variant_ids lines) table) lines
        (record { subtotal = zero_money; vat = zero_money; count = 0 })
  shipping ← shipping_for currency s.subtotal
  make_totals s.subtotal s.vat shipping s.count
