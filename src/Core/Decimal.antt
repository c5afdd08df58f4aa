-- ===== src/Core/Decimal.antt =====
-- The part of Python's `decimal` that backend/app/core/money.py uses, in the default context: 28
-- significant digits, results rounded half to even. A value is coefficient / 10 ^ scale; a number
-- with a positive exponent has its zeros written out.
pub mod Rounding
use nordmarkt.Common.{
  ℕ, zero, suc, ◌+◌, ◌-◌, ◌*◌, ◌/◌, ◌%◌, ◌^◌, ◌≤◌, ◌<◌, Bool, true, false, ◌&&◌, ◌||◌, ltb, leb,
  ◌==◌, if◌then◌else◌, max,
}
use nordmarkt.Common.Int.{ℤ, pos, negsuc, sub_ℕ, ◌+ℤ◌, ◌*ℤ◌}

pub record Decimal : Type 0 where
  pub coefficient : ℤ
  pub scale : ℕ

-- A function of the magnitude, under the sign.
abbrev pub map_magnitude : (ℕ → ℕ) → ℤ → ℤ
map_magnitude f (pos n) = pos (f n)
map_magnitude f (negsuc n) = sub_ℕ 0 (f (suc n))

abbrev pub magnitude : ℤ → ℕ
magnitude (pos n) = n
magnitude (negsuc n) = suc n

abbrev pub precision : ℕ
precision = 28

-- How many digits past the 28th a magnitude has: the least d, from `d` on, with
-- c < 10 ^ (28 + d). The context's operations on operands of 28 digits need at most 29 of them.
unfoldable pub excess : ℕ → ℕ → ℕ → ℕ
excess zero d c = d
excess (suc fuel) d c =
    let more = excess fuel (d + 1) c in if ltb c (10 ^ (precision + d)) then d else more

-- c / 10 ^ d to the nearest, ties to the even quotient.
unfoldable pub half_even : ℕ → ℕ → ℕ
half_even c d =
    let q = c / 10 ^ d in
    let r = c % 10 ^ d in
    if ltb (10 ^ d) (2 * r) || (2 * r == 10 ^ d && q % 2 == 1) then q + 1 else q

-- `_fix`: the context's rounding of an exact result.
unfoldable pub fix_digits : ℕ → ℕ → ℕ
fix_digits d c = if d == 0 then c else half_even c d * 10 ^ d

-- The digits that are rounded away are kept as zeros, which leaves the value and the scale alone.
unfoldable pub fix : Decimal → Decimal
fix x = record x { coefficient = map_magnitude (λ c. fix_digits (excess 40 0 c) c) x.coefficient }

unfoldable pub multiply : Decimal → Decimal → Decimal
multiply x y =
    fix (record { coefficient = x.coefficient *ℤ y.coefficient; scale = x.scale + y.scale })

-- The coefficient of a value at a scale that is no smaller.
abbrev pub widen : ℕ → Decimal → ℤ
widen s x = map_magnitude (λ c. c * 10 ^ (s - x.scale)) x.coefficient

unfoldable pub add : Decimal → Decimal → Decimal
add x y =
    let s = max x.scale y.scale in fix (record { coefficient = widen s x +ℤ widen s y; scale = s })

-- The number of decimal digits of a coefficient of at most `fuel` digits.
unfoldable pub digits : ℕ → ℕ → ℕ
digits zero c = 0
digits (suc fuel) c = let rest = digits fuel (c / 10) in if c == 0 then 0 else rest + 1

-- Trailing zeros of an exact quotient go, down to the ideal scale.
unfoldable pub strip : ℕ → ℕ → ℕ × ℕ → ℕ × ℕ
strip zero ideal (c, s) = (c, s)
strip (suc fuel) ideal (c, s) =
    let rest = strip fuel ideal (c / 10, s - 1) in
    if ltb ideal s && c % 10 == 0 then rest else (c, s)

-- The quotient of two non-negative values, as `Decimal.__truediv__` makes it: 28 digits and one
-- more, a last digit that is sticky if the division is inexact, then the context's rounding. The
-- divisor is not zero, and the dividend has at most 28 digits more than it and no smaller scale.
unfoldable pub divide : Decimal → Decimal → Decimal
divide x y =
    let a = magnitude x.coefficient in
    let b = magnitude y.coefficient in
    let shift = digits 60 b + precision + 1 - digits 60 a in
    let q = a * 10 ^ shift / b in
    let s = x.scale + shift - y.scale in
    let exact = strip 60 (x.scale - y.scale) (q, s) in
    fix (
      if a * 10 ^ shift % b == 0
      then record { coefficient = pos exact.0; scale = exact.1 }
      else record { coefficient = pos (if q % 5 == 0 then q + 1 else q); scale = s })

-- The coefficient of `quantize`d to `places` decimals, ROUND_HALF_UP: halves go away from zero.
unfoldable pub half_up_magnitude : ℕ → ℕ → ℕ → ℕ
half_up_magnitude places s c =
    if leb s places
    then c * 10 ^ (places - s)
    else (2 * c + 10 ^ (s - places)) / (2 * 10 ^ (s - places))

unfoldable pub half_up_coefficient : ℕ → Decimal → ℤ
half_up_coefficient places x = map_magnitude (half_up_magnitude places x.scale) x.coefficient
