-- ===== src/Tests/Amounts.antt =====
-- Money: prices, and the VAT in them.
use nordmarkt.Common.{◌+◌, ◌*◌, ◌/◌, ◌≡◌, refl, arith, [], ◌∷◌}
use nordmarkt.Common.Int.{pos, negsuc}
use nordmarkt.Core.Errors.{ok, ◌>>=◌}
use nordmarkt.Core.Money.{Money, make, exponents, from_decimal, to_decimal, apply_rate, vat_share}
use nordmarkt.Cart.Totals.{totals}
use nordmarkt.Cart.Totals.Sums.{sek, totals-IsStandard}
use nordmarkt.Catalog.{fetch_variants}
use nordmarkt.Tests.Data.{basket_line, lamp_white}
use nordmarkt.Core.Money.Vat.{apply_rate-12_tie, apply_rate-25, thousandths}
use nordmarkt.Core.Money.Arithmetic.{from_decimal-to_decimal}

abbrev refund : Money
refund = record { minor_units = negsuc 12549; currency = "SEK" }

abbrev price : Money
price = record { minor_units = pos 12500; currency = "SEK" }

from_decimal-to_decimal_example : (to_decimal refund >>= λ d. from_decimal d "SEK") ≡ ok refund
unfolding exponents
from_decimal-to_decimal_example = from_decimal-to_decimal refund 2 refl (omega arith)

apply_rate-25_example :
    apply_rate price (vat_share (thousandths 250)) ≡ make (pos ((2 * 12500 + 5) / 10)) "SEK"
apply_rate-25_example = apply_rate-25 12500 "SEK" (omega arith)

apply_rate-12_tie_example :
    (apply_rate
        (record { minor_units = pos (28 * 417 + 14); currency = "SEK" })
        (vat_share (thousandths 120))
      ≡ make (pos (3 * 417 + 1)) "SEK")
    × ((2 * (3 * (28 * 417 + 14)) + 28) / (2 * 28) ≡ 3 * 417 + 2)
apply_rate-12_tie_example = apply_rate-12_tie 417 "SEK" (omega arith) (omega arith)

totals-IsStandard_example :
    totals "SEK" (basket_line ∷ []) (lamp_white ∷ [])
    ≡ ok (record {
      subtotal = sek 25000;
      vat = sek 5000;
      shipping = sek 4900;
      total = sek 29900;
      item_count = 2;
    })
unfolding fetch_variants
totals-IsStandard_example =
    totals-IsStandard (basket_line ∷ []) (lamp_white ∷ []) ((refl, refl, omega arith), tt)
