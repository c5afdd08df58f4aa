-- ===== src/Core/Money/Arithmetic.antt =====
-- `class Money` of backend/app/core/money.py: exact conversion, and arithmetic within one currency.
use nordmarkt.Common.{ℕ, suc, ◌^◌, ◌<◌, ◌≡◌, ◌≢◌, some, arith, eq_iff}
use native.Mathlib.Nat.{sub_self}
use nordmarkt.Common.Int.{ℤ, pos, negsuc, ◌+ℤ◌, ◌-ℤ◌, int_laws}
use nordmarkt.Core.Errors.{ok, err, value_error, ◌>>=◌}
use nordmarkt.Core.Decimal.{fix, half_up_coefficient, half_up_magnitude, magnitude}
use nordmarkt.Core.Decimal.Rounding.{fix_short, fix_short_negative}
use nordmarkt.Core.Money.{Money, make, exponents, from_decimal, to_decimal, quantize, plus, minus}

pub fix_money :
    (n : ℤ) (s : ℕ)
    → magnitude n < 10 ^ 28
    → fix (record { coefficient = n; scale = s }) ≡ record { coefficient = n; scale = s }
fix_money (pos n) s h = fix_short n s h
fix_money (negsuc n) s h = fix_short_negative n s h

half_up_same : (s c : ℕ) → half_up_magnitude s s c ≡ c
unfolding half_up_magnitude
half_up_same s c = ground (arith, sub_self s)

quantize_exact :
    (n : ℤ) (s : ℕ)
    → magnitude n < 10 ^ 28
    → quantize s (record { coefficient = n; scale = s }) ≡ ok n
unfolding quantize half_up_coefficient
quantize_exact (pos n) s h = ground (arith, half_up_same s n)
quantize_exact (negsuc n) s h = ground (arith, half_up_same s (suc n))

-- A value of a supported currency, of at most 28 digits, is the same after a conversion to a decimal
-- and back, whatever its sign.
pub from_decimal-to_decimal :
    (m : Money) (exp : ℕ)
    → exponents m.currency ≡ some exp
    → magnitude m.minor_units < 10 ^ 28
    → (to_decimal m >>= λ d. from_decimal d m.currency) ≡ ok m
unfolding to_decimal from_decimal make
from_decimal-to_decimal m exp e h =
    ground (arith, fix_money m.minor_units exp h, quantize_exact m.minor_units exp h)

-- Sums and differences of two currencies are refused.
pub plus_mixed :
    (a b : Money)
    → a.currency ≢ b.currency
    → (plus a b ≡ err value_error) × (minus a b ≡ err value_error)
unfolding plus minus
plus_mixed a b h = ground (arith, eq_iff a.currency b.currency)

+ℤ_cancel : (a b : ℤ) → a +ℤ b -ℤ b ≡ a
+ℤ_cancel a b = omega int_laws

-- Within one supported currency, taking an amount off a sum leaves the other amount.
pub minus-plus :
    (a b : Money) (exp : ℕ)
    → exponents a.currency ≡ some exp
    → a.currency ≡ b.currency
    → (plus a b >>= λ s. minus s b) ≡ ok a
unfolding plus minus make
minus-plus a b exp e h =
    ground (arith, eq_iff a.currency b.currency, +ℤ_cancel a.minor_units b.minor_units)
