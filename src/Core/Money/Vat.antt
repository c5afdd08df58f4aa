-- ===== src/Core/Money/Vat.antt =====
-- The VAT in a gross price: `apply_rate(rate / (Decimal(1) + rate))` of backend/app/core/money.py
-- as the cart, the checkout and the invoice call it.
use nordmarkt.Common.{ℕ, ◌+◌, ◌*◌, ◌/◌, ◌^◌, ◌≤◌, ◌<◌, ◌≡◌, refl, arith, String}
use nordmarkt.Common.Int.{pos, ◌*ℤ◌, ◌+ℤ◌}
use nordmarkt.Core.Decimal.{
  Decimal, fix, excess, half_even, fix_digits, digits, strip, multiply, divide, add,
  half_up_coefficient, half_up_magnitude,
}
use nordmarkt.Core.Decimal.Rounding.{fix_short}
use nordmarkt.Core.Money.{make, apply_rate, quantize, vat_share}

abbrev pub thousandths : ℕ → Decimal
thousandths r = record { coefficient = pos r; scale = 3 }

share_25 : vat_share (thousandths 250) ≡ record { coefficient = pos 2; scale = 1 }
unfolding vat_share divide add fix excess half_even fix_digits digits strip ◌*ℤ◌ ◌+ℤ◌
share_25 = refl

share_12 :
    vat_share (thousandths 120)
    ≡ record { coefficient = pos 107142857142857142857142857100; scale = 30 }
unfolding vat_share divide add fix excess half_even fix_digits digits strip ◌*ℤ◌ ◌+ℤ◌
share_12 = refl

pub times_pos : (a b : ℕ) → pos a *ℤ pos b ≡ pos (a * b)
unfolding ◌*ℤ◌
times_pos a b = ground arith

multiply_pos :
    (a s b t : ℕ)
    → multiply
        (record { coefficient = pos a; scale = s })
        (record { coefficient = pos b; scale = t })
      ≡ fix (record { coefficient = pos (a * b); scale = s + t })
unfolding multiply
multiply_pos a s b t = rw (times_pos a b)

-- At the standard rate of 25 % the VAT in any gross amount below 10 ^ 26 is a fifth of it, rounded
-- half up: no digits are lost on the way.
pub apply_rate-25 :
    (m : ℕ) (c : String)
    → m < 10 ^ 26
    → apply_rate (record { minor_units = pos m; currency = c }) (vat_share (thousandths 250))
      ≡ make (pos ((2 * m + 5) / 10)) c
unfolding apply_rate quantize half_up_coefficient half_up_magnitude
apply_rate-25 m c h =
    rw (share_25, multiply_pos m 0 2 1, fix_short (m * 2) (0 + 1) (omega arith)) (ground arith)

tie_excess :
    (k : ℕ) → 417 ≤ k → k < 3000 → excess 40 0 ((28 * k + 14) * 107142857142857142857142857100) ≡ 6
unfolding excess
tie_excess k lo hi = ground arith

-- The product of a tie at 12 % in the context's 28 digits: short of the tie.
tie_product :
    (k : ℕ)
    → 417 ≤ k
    → k < 3000
    → let e = half_even ((28 * k + 14) * 107142857142857142857142857100) 6 * 10 ^ 6 in
      (2 * e < (6 * k + 3) * 10 ^ 30) × ((6 * k + 1) * 10 ^ 30 ≤ 2 * e)
unfolding half_even
tie_product k lo hi = ground arith

tie_fixed :
    (k : ℕ)
    → 417 ≤ k
    → k < 3000
    → let p = (28 * k + 14) * 107142857142857142857142857100 in
      fix (record { coefficient = pos p; scale = 30 })
      ≡ record { coefficient = pos (half_even p 6 * 10 ^ 6); scale = 30 }
unfolding fix fix_digits
tie_fixed k lo hi = rw (tie_excess k lo hi) refl

-- At the reduced rate of 12 % the exact VAT in a gross amount of 28 k + 14 is 3 k + 1.5, which half
-- up is 3 k + 2. From 116.90 to 839.86 the code gives 3 k + 1: the share of the rate is cut to 28
-- digits before the amount is multiplied by it, and the tie is missed.
pub apply_rate-12_tie :
    (k : ℕ) (c : String)
    → 417 ≤ k
    → k < 3000
    → (apply_rate
          (record { minor_units = pos (28 * k + 14); currency = c })
          (vat_share (thousandths 120))
        ≡ make (pos (3 * k + 1)) c)
      × ((2 * (3 * (28 * k + 14)) + 28) / (2 * 28) ≡ 3 * k + 2)
unfolding apply_rate quantize half_up_coefficient half_up_magnitude
apply_rate-12_tie k c lo hi = (
  rw (share_12, multiply_pos (28 * k + 14) 0 107142857142857142857142857100 30, tie_fixed k lo hi)
      (ground (arith, tie_product k lo hi)),
  omega arith,
)
