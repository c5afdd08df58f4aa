-- ===== src/Core/Decimal/Rounding.antt =====
-- How the decimals of backend/app/core/money.py round.
use nordmarkt.Common.{ℕ, suc, ◌+◌, ◌*◌, ◌/◌, ◌^◌, ◌≤◌, ◌<◌, ◌≡◌, arith}
use native.Mathlib.Nat.{div-add-mod, mod-lt, one-le-pow, sub-zero}
use nordmarkt.Common.Int.{pos, negsuc}
use nordmarkt.Core.Decimal.{excess, fix_digits, fix, half_up_magnitude}

-- A coefficient of at most 28 digits is left as it is.
pub fix_short :
    (c s : ℕ)
    → c < 10 ^ 28
    → fix (record { coefficient = pos c; scale = s }) ≡ record { coefficient = pos c; scale = s }
unfolding fix excess fix_digits
fix_short c s h = ground arith

pub fix_short_negative :
    (c s : ℕ)
    → suc c < 10 ^ 28
    → fix (record { coefficient = negsuc c; scale = s })
      ≡ record { coefficient = negsuc c; scale = s }
unfolding fix excess fix_digits
fix_short_negative c s h = ground arith

half_up_quotient :
    (c d : ℕ) → half_up_magnitude 0 (suc d) c ≡ (2 * c + 10 ^ suc d) / (2 * 10 ^ suc d)
unfolding half_up_magnitude
half_up_quotient c d = rw (sub-zero (suc d)) (ground arith)

-- ROUND_HALF_UP where a digit or more is dropped: the result is the greatest r with
-- r * 10 ^ d ≤ c + 10 ^ d / 2.
pub half_up_bounds :
    (c d : ℕ)
    → let r = half_up_magnitude 0 (suc d) c in
      let unit = 10 ^ suc d in
      (2 * unit * r ≤ 2 * c + unit) × (2 * c + unit < 2 * unit * r + 2 * unit)
half_up_bounds c d =
    let n = 2 * c + 10 ^ suc d in
    let m = 2 * 10 ^ suc d in
    let positive : 0 < m = omega (arith, one-le-pow (suc d) 10 (omega arith)) in
    let quotient = div-add-mod n m in
    let rest = mod-lt n {m = m} positive in rw (half_up_quotient c d) (omega arith, omega arith)
