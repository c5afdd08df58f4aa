-- ===== src/Core/Money.antt =====
-- backend/app/core/money.py: `class Money`.
pub mod Vat
pub mod Arithmetic
use nordmarkt.Common.{
  ℕ, ◌*◌, ◌+◌, ◌/◌, ◌^◌, Bool, true, false, Option, none, some, String, ltb, ◌==◌, str_eq,
  if◌then◌else◌, List, [], ◌∷◌,
}
use nordmarkt.Common.Int.{ℤ, pos, negsuc, ◌+ℤ◌, ◌-ℤ◌, ◌*ℤ◌, eqb_ℤ}
use nordmarkt.Core.Errors.{
  Result, ok, err, Exception, value_error, key_error, invalid_operation, ◌>>=◌,
}
use nordmarkt.Core.Decimal.{
  Decimal, fix, multiply, add, divide, half_up_coefficient, magnitude, precision,
}

pub record Money : Type 0 where
  pub minor_units : ℤ
  pub currency : String

-- `_EXPONENTS`
unfoldable pub exponents : String → Option ℕ
exponents c =
    if str_eq c "SEK"
    then some 2
    else if str_eq c "EUR"
    then some 2
    else if str_eq c "USD"
    then some 2
    else if str_eq c "ISK"
    then some 0
    else none

-- `Money(minor_units, currency)`, with the check of `__post_init__`.
unfoldable pub make : ℤ → String → Result Money
make n c = elim (exponents c) [
  | none ↦ err value_error
  | some _ ↦ ok (record { minor_units = n; currency = c })
]

-- `quantize` raises if the coefficient does not fit the precision.
unfoldable pub quantize : ℕ → Decimal → Result ℤ
quantize places x =
    let c = half_up_coefficient places x in
    if ltb (magnitude c) (10 ^ precision) then ok c else err invalid_operation

-- The amount has been read by `Decimal(str(amount))`.
unfoldable pub from_decimal : Decimal → String → Result Money
from_decimal amount c = elim (exponents c) [
  | none ↦ err key_error
  | some exp ↦ quantize exp amount >>= λ n. make n c
]

unfoldable pub to_decimal : Money → Result Decimal
to_decimal m = elim (exponents m.currency) [
  | none ↦ err key_error
  | some exp ↦ ok (fix (record { coefficient = m.minor_units; scale = exp }))
]

-- `__add__`, with `_assert_same`.
unfoldable pub plus : Money → Money → Result Money
plus a b =
    if str_eq a.currency b.currency
    then make (a.minor_units +ℤ b.minor_units) a.currency
    else err value_error

-- `__sub__`
unfoldable pub minus : Money → Money → Result Money
minus a b =
    if str_eq a.currency b.currency
    then make (a.minor_units -ℤ b.minor_units) a.currency
    else err value_error

-- `__mul__` by an integer quantity; the type rules out the `TypeError`.
unfoldable pub times : Money → ℤ → Result Money
times a qty = make (a.minor_units *ℤ qty) a.currency

unfoldable pub apply_rate : Money → Decimal → Result Money
apply_rate m rate =
    quantize 0 (multiply (record { coefficient = m.minor_units; scale = 0 }) rate) >>= λ n.
    make n m.currency

unfoldable pub is_zero : Money → Bool
is_zero m = eqb_ℤ m.minor_units (pos 0)

-- `rate / (Decimal(1) + rate)`: the share of VAT in a price that includes it.
unfoldable pub vat_share : Decimal → Decimal
vat_share rate = divide rate (add (record { coefficient = pos 1; scale = 0 }) rate)
