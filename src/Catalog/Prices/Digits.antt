-- ===== src/Catalog/Prices/Digits.antt =====
-- What `format_money` of backend/app/modules/catalog/schemas.py shows: every digit of the amount.
use nordmarkt.Common.{
  ℕ, zero, suc, ◌+◌, ◌-◌, ◌*◌, ◌/◌, ◌%◌, ◌^◌, ◌≤◌, ◌<◌, ◌≡◌, refl, ◌∙◌, ap, sym, true, false, ◌&&◌,
  List, [], ◌∷◌, ◌++◌, String, arith, leb, ltb, ◌==◌, str_eq, eq_iff, some, if◌then◌else◌,
  Bool-cases, inl, inr, ◌⊎◌, subst,
}
use nordmarkt.Common.Int.{ℤ, pos, negsuc}
use nordmarkt.Common.Texts.{codes}
use nordmarkt.Core.Errors.{ok}
use nordmarkt.Core.Money.{Money, exponents, to_decimal}
use nordmarkt.Core.Money.Arithmetic.{fix_money}
use nordmarkt.Core.Decimal.{Decimal, magnitude}
use nordmarkt.Catalog.Prices.{
  partition, replace, no_break_space, sign, digit, two_digits, three_digits, below_thousand,
  grouped, fixed, symbol_of, format_money,
}

-- A number after one more character: a digit goes to its end, anything else leaves it alone.
abbrev pub shift : ℕ → ℕ → ℕ
shift n c = if leb b'0' c && leb c b'9' then n * 10 + (c - b'0') else n

-- The number that the digits of a text spell, whatever stands between them.
abbrev pub read_digits : ℕ → List ℕ → ℕ
read_digits n [] = n
read_digits n (c ∷ s) = read_digits (shift n c) s

read_digits-append :
    (s t : List ℕ) (n : ℕ) → read_digits n (s ++ t) ≡ read_digits (read_digits n s) t
read_digits-append [] t n = refl
read_digits-append (c ∷ s) t n = read_digits-append s t _

read_two : (n m : ℕ) → read_digits n (two_digits m) ≡ n * 100 + m % 100
unfolding two_digits digit
read_two n m = ground arith

read_three : (n m : ℕ) → read_digits n (three_digits m) ≡ n * 1000 + m % 1000
unfolding three_digits digit
read_three n m = ground (arith, read_two (n * 10 + m / 100 % 10) m)

read_below : (m : ℕ) → m < 1000 → read_digits 0 (below_thousand m) ≡ m
unfolding below_thousand digit
read_below m h = ground (arith, read_two 0 m, read_three 0 m)

grouped_small : (fuel m : ℕ) → ltb m 1000 ≡ true → grouped (suc fuel) m ≡ below_thousand m
unfolding grouped
grouped_small fuel m h = ground (arith, h)

grouped_large :
    (fuel m : ℕ)
    → ltb m 1000 ≡ false
    → grouped (suc fuel) m ≡ grouped fuel (m / 1000) ++ b',' ∷ three_digits m
unfolding grouped
grouped_large fuel m h = ground (arith, h)

ltb-false : (a b : ℕ) → ltb a b ≡ false → b ≤ a
ltb-false a b h = ground (arith, h)

read_grouped : (fuel m : ℕ) → m < fuel → read_digits 0 (grouped fuel m) ≡ m
read_grouped zero m h = ground (arith, h)
read_grouped (suc fuel) m h = elim (Bool-cases (ltb m 1000)) [
  | inl small ↦
      ap (read_digits 0) (grouped_small fuel m small) ∙ read_below m (ground (arith, small))
  | inr large ↦
      let q = m / 1000 in
      let low = ltb-false m 1000 large in
      let rest = read_grouped fuel q (omega (arith, h, low)) in
      ap (read_digits 0) (grouped_large fuel m large)
      ∙ read_digits-append (grouped fuel q) (b',' ∷ three_digits m) 0
      ∙ ap (λ n. read_digits n (b',' ∷ three_digits m)) rest
      ∙ read_three q m
      ∙ omega arith
]

shift_dot : (n c : ℕ) → (c == b'.') ≡ true → n ≡ shift n c
shift_dot n c h = ground (arith, h)

shift_comma : (n c : ℕ) → shift n (if c == b',' then no_break_space else c) ≡ shift n c
shift_comma n c = ground arith

-- Separators that `partition` and `replace` move or exchange are no digits.
read_moved :
    (s t : List ℕ) (n : ℕ)
    → read_digits n
        (replace b',' no_break_space (partition b'.' s).0 ++ b',' ∷ (partition b'.' s).1 ++ t)
      ≡ read_digits (read_digits n s) t
unfolding partition replace
read_moved [] t n = refl
read_moved (c ∷ s) t n = elim (Bool-cases (c == b'.')) [
  | inl dot ↦
      rw dot
        (read_digits-append s t n ∙ ap (λ k. read_digits (read_digits k s) t) (shift_dot n c dot))
  | inr other ↦
      let (before, after) = partition b'.' s in
      rw other (
        ap (λ k. read_digits k (replace b',' no_break_space before ++ b',' ∷ after ++ t))
          (shift_comma n c)
        ∙ read_moved s t (shift n c))
]

read_sign : (n : ℤ) (s : List ℕ) → read_digits 0 (sign n ++ s) ≡ read_digits 0 s
read_sign (pos n) s = refl
read_sign (negsuc n) s = refl

read_hundredths : (h : ℕ) → read_digits 0 (grouped (suc h) (h / 100) ++ b'.' ∷ two_digits h) ≡ h
read_hundredths h =
    read_digits-append (grouped (suc h) (h / 100)) (b'.' ∷ two_digits h) 0
    ∙ ap (λ n. read_digits n (b'.' ∷ two_digits h)) (read_grouped (suc h) (h / 100) (omega arith))
    ∙ read_two (h / 100) h
    ∙ omega arith

read_fixed :
    (value : Decimal)
    → read_digits 0 (fixed value) ≡ magnitude value.coefficient * 10 ^ (2 - value.scale)
unfolding fixed
read_fixed value =
    let h = magnitude value.coefficient * 10 ^ (2 - value.scale) in
    read_sign value.coefficient (grouped (suc h) (h / 100) ++ b'.' ∷ two_digits h)
    ∙ read_hundredths h

supported :
    (c : String) (e : ℕ)
    → exponents c ≡ some e
    → (c ≡ "SEK") ⊎ ((c ≡ "EUR") ⊎ ((c ≡ "USD") ⊎ (c ≡ "ISK")))
unfolding exponents
supported c e h = ground (arith, h, eq_iff c "SEK", eq_iff c "EUR", eq_iff c "USD", eq_iff c "ISK")

-- The names of the currencies have no digits.
abbrev IsQuiet : ℕ → String → Type 0
IsQuiet n c = (read_digits n (codes c) ≡ n) × (read_digits n (codes (symbol_of c)) ≡ n)

exponents-IsQuiet : (c : String) (e n : ℕ) → exponents c ≡ some e → IsQuiet n c
unfolding symbol_of
exponents-IsQuiet c e n h = elim (supported c e h) [
  | inl sek ↦ subst (IsQuiet n) (sym sek) (refl, refl)
  | inr (inl eur) ↦ subst (IsQuiet n) (sym eur) (refl, refl)
  | inr (inr (inl usd)) ↦ subst (IsQuiet n) (sym usd) (refl, refl)
  | inr (inr (inr isk)) ↦ subst (IsQuiet n) (sym isk) (refl, refl)
]

to_decimal-short :
    (m : Money) (exp : ℕ)
    → exponents m.currency ≡ some exp
    → magnitude m.minor_units < 10 ^ 28
    → to_decimal m ≡ ok (record { coefficient = m.minor_units; scale = exp })
unfolding to_decimal
to_decimal-short m exp e h = ground (arith, e, fix_money m.minor_units exp h)

-- A price of a supported currency, of at most 28 digits, is formatted in every locale, and the digits
-- of the text, read as one number, are its amount in hundredths: no digit of it is lost, moved or
-- added by the grouping, the separators and the symbol.
pub format_money-digits :
    (m : Money) (exp : ℕ) (locale : String)
    → exponents m.currency ≡ some exp
    → magnitude m.minor_units < 10 ^ 28
    → (text : List ℕ) × (format_money m locale ≡ ok text)
      × (read_digits 0 text ≡ magnitude m.minor_units * 10 ^ (2 - exp))
unfolding format_money
format_money-digits m exp locale e h =
    let value : Decimal = record { coefficient = m.minor_units; scale = exp } in
    let shown = read_fixed value in
    let n = magnitude m.minor_units * 10 ^ (2 - exp) in
    let quiet = λ (k : ℕ). exponents-IsQuiet m.currency exp k e in
    let read : to_decimal m ≡ ok value = to_decimal-short m exp e h in
    elim (Bool-cases (str_eq locale "sv")) [
      | inl sv ↦ (
        replace b',' no_break_space (partition b'.' (fixed value)).0
            ++ b',' ∷ (partition b'.' (fixed value)).1
            ++ no_break_space ∷ codes (symbol_of m.currency),
        rw (read, sv) refl,
        read_moved (fixed value) (no_break_space ∷ codes (symbol_of m.currency)) 0
            ∙ ap (λ k. read_digits k (codes (symbol_of m.currency))) shown
            ∙ (quiet n).1,
      )
      | inr other ↦ (
        codes m.currency ++ b' ' ∷ fixed value,
        rw (read, other) refl,
        read_digits-append (codes m.currency) (b' ' ∷ fixed value) 0
            ∙ ap (λ k. read_digits k (fixed value)) (quiet 0).0
            ∙ shown,
      )
    ]
