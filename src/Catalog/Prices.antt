-- ===== src/Catalog/Prices.antt =====
-- backend/app/modules/catalog/schemas.py: `MoneyOut` and `format_money`. Texts are lists of code
-- points.
pub mod Digits
use nordmarkt.Common.{
  ℕ, zero, suc, ◌+◌, ◌-◌, ◌*◌, ◌/◌, ◌%◌, ◌^◌, Bool, true, false, List, [], ◌∷◌, ◌++◌, String, ltb,
  ◌==◌, str_eq, if◌then◌else◌,
}
use nordmarkt.Common.Int.{ℤ, pos, negsuc}
use nordmarkt.Common.Texts.{codes}
use nordmarkt.Core.Errors.{Result, ok, ◌>>=◌}
use nordmarkt.Core.Decimal.{Decimal, magnitude}
use nordmarkt.Core.Money.{Money, make, to_decimal}

digit : ℕ → ℕ
digit n = b'0' + n % 10

two_digits : ℕ → List ℕ
unfolding digit
two_digits n = digit (n / 10) ∷ digit n ∷ []

three_digits : ℕ → List ℕ
unfolding two_digits
three_digits n = digit (n / 100) ∷ two_digits n

below_thousand : ℕ → List ℕ
unfolding three_digits
below_thousand n =
    if ltb n 10 then digit n ∷ [] else if ltb n 100 then two_digits n else three_digits n

-- The digits of a number in groups of three; more fuel than the number is enough.
grouped : ℕ → ℕ → List ℕ
unfolding below_thousand
grouped zero n = []
grouped (suc fuel) n = elim (ltb n 1000) [
  | true ↦ below_thousand n
  | false ↦ grouped fuel (n / 1000) ++ b',' ∷ three_digits n
]

abbrev pub sign : ℤ → List ℕ
sign (pos n) = []
sign (negsuc n) = b'-' ∷ []

-- `f"{value:,.2f}"`, for a value of at most two decimals, as every price is.
unfoldable pub fixed : Decimal → List ℕ
unfolding grouped
fixed value =
    let hundredths = magnitude value.coefficient * 10 ^ (2 - value.scale) in
    sign value.coefficient
    ++ (grouped (suc hundredths) (hundredths / 100) ++ b'.' ∷ two_digits hundredths)

-- `text.partition(sep)`, without the separator.
unfoldable pub partition : ℕ → List ℕ → List ℕ × List ℕ
partition sep [] = ([], [])
partition sep (c ∷ s) =
    let (before, after) = partition sep s in if c == sep then ([], s) else (c ∷ before, after)

-- `text.replace(old, new)`, of one character.
unfoldable pub replace : ℕ → ℕ → List ℕ → List ℕ
replace old new [] = []
replace old new (c ∷ s) = (if c == old then new else c) ∷ replace old new s

-- U+00A0
abbrev pub no_break_space : ℕ
no_break_space = 160

unfoldable pub symbol_of : String → String
symbol_of currency =
    if str_eq currency "SEK"
    then "kr"
    else if str_eq currency "EUR"
    then "€"
    else if str_eq currency "USD"
    then "$"
    else currency

unfoldable pub format_money : Money → String → Result (List ℕ)
unfolding fixed partition replace symbol_of
format_money money locale = to_decimal money >>= λ value.
    if str_eq locale "sv"
    then (let (whole, fraction) = partition b'.' (fixed value) in
        ok (
          replace b',' no_break_space whole
          ++ b',' ∷ fraction
          ++ no_break_space ∷ codes (symbol_of money.currency)))
    else ok (codes money.currency ++ b' ' ∷ fixed value)

pub record MoneyOut : Type 0 where
  pub amount : Decimal
  pub minor_units : ℤ
  pub currency : String
  pub formatted : List ℕ

-- `MoneyOut.of`
unfoldable pub money_out : ℤ → String → String → Result MoneyOut
unfolding format_money
money_out minor_units currency locale = do
  money ← make minor_units currency
  amount ← to_decimal money
  formatted ← format_money money locale
  ok (record {
    amount = amount;
    minor_units = minor_units;
    currency = currency;
    formatted = formatted;
  })
