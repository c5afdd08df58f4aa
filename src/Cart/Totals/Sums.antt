-- ===== src/Cart/Totals/Sums.antt =====
-- What `CartService.totals` in backend/app/modules/cart/service.py adds up, for a basket of goods at
-- the standard rate of VAT.
use nordmarkt.Common.{
  ℕ, ◌+◌, ◌*◌, ◌/◌, ◌^◌, ◌<◌, ◌≡◌, refl, ◌∙◌, ◌||◌, Option, none, some, List, [], ◌∷◌, arith, leb,
  ◌==◌, if◌then◌else◌, All,
}
use nordmarkt.Common.Int.{pos, ◌+ℤ◌}
use nordmarkt.Core.Errors.{ok}
use nordmarkt.Core.Money.{Money, make, exponents, plus, times, apply_rate, vat_share}
use nordmarkt.Core.Money.Vat.{apply_rate-25, thousandths, times_pos}
use nordmarkt.Catalog.Models.{ProductVariant}
use nordmarkt.Catalog.{fetch_variants, variant_by_id}
use nordmarkt.Cart.Models.{CartItem}
use nordmarkt.Cart.Totals.{Running, add_line, add_lines, make_totals, totals, variant_ids}

abbrev pub sek : ℕ → Money
sek n = record { minor_units = pos n; currency = "SEK" }

-- A line whose variant is gone, or is priced in SEK at 25 %, for less than 10 ^ 26 in all.
abbrev pub IsStandard : Option ProductVariant → CartItem → Type 0
IsStandard none line = Unit
IsStandard (some v) line =
    (v.currency ≡ "SEK") × (v.vat_rate ≡ 250) × (v.price_minor_units * line.quantity < 10 ^ 26)

abbrev pub gross : Option ProductVariant → CartItem → ℕ
gross none line = 0
gross (some v) line = v.price_minor_units * line.quantity

abbrev pub pieces : Option ProductVariant → CartItem → ℕ
pieces none line = 0
pieces (some v) line = line.quantity

-- A fifth, rounded half up.
abbrev pub fifth : ℕ → ℕ
fifth g = (2 * g + 5) / 10

-- The sums over the lines of a basket, by a table of variants.
abbrev pub gross_sum : List ProductVariant → List CartItem → ℕ
gross_sum vs [] = 0
gross_sum vs (l ∷ ls) = gross (variant_by_id l.variant_id vs) l + gross_sum vs ls

abbrev pub vat_sum : List ProductVariant → List CartItem → ℕ
vat_sum vs [] = 0
vat_sum vs (l ∷ ls) = fifth (gross (variant_by_id l.variant_id vs) l) + vat_sum vs ls

abbrev pub piece_sum : List ProductVariant → List CartItem → ℕ
piece_sum vs [] = 0
piece_sum vs (l ∷ ls) = pieces (variant_by_id l.variant_id vs) l + piece_sum vs ls

abbrev pub AllStandard : List ProductVariant → List CartItem → Type 0
AllStandard vs = All (λ l. IsStandard (variant_by_id l.variant_id vs) l)

make-sek : (n : ℕ) → make (pos n) "SEK" ≡ ok (sek n)
unfolding make exponents
make-sek n = refl

plus-sek : (a b : ℕ) → plus (sek a) (sek b) ≡ ok (sek (a + b))
unfolding plus make exponents ◌+ℤ◌
plus-sek a b = ground arith

times-sek : (a b : ℕ) → times (sek a) (pos b) ≡ ok (sek (a * b))
unfolding times make exponents
times-sek a b = rw (times_pos a b)

apply_rate-sek :
    (m : ℕ) → m < 10 ^ 26 → apply_rate (sek m) (vat_share (thousandths 250)) ≡ ok (sek (fifth m))
apply_rate-sek m h = apply_rate-25 m "SEK" h ∙ make-sek (fifth m)

abbrev running : ℕ → ℕ → ℕ → Running
running s v n = record { subtotal = sek s; vat = sek v; count = n }

add_line-IsStandard :
    (o : Option ProductVariant) (l : CartItem) (s v n : ℕ)
    → IsStandard o l
    → add_line o l (running s v n)
      ≡ ok (running (s + gross o l) (v + fifth (gross o l)) (n + pieces o l))
unfolding add_line
add_line-IsStandard none l s v n h = ground arith
add_line-IsStandard (some x) l s v n (cur, rate, small) =
    let g = x.price_minor_units * l.quantity in
    rw
      (
        cur,
        rate,
        make-sek x.price_minor_units,
        times-sek x.price_minor_units l.quantity,
        plus-sek s g,
        apply_rate-sek g small,
        plus-sek v (fifth g),
      )
      refl

add_lines-IsStandard :
    (vs : List ProductVariant) (ls : List CartItem) (s v n : ℕ)
    → AllStandard vs ls
    → add_lines vs ls (running s v n)
      ≡ ok (running (s + gross_sum vs ls) (v + vat_sum vs ls) (n + piece_sum vs ls))
unfolding add_lines
add_lines-IsStandard vs [] s v n h = ground arith
add_lines-IsStandard vs (l ∷ ls) s v n h =
    let o = variant_by_id l.variant_id vs in
    rw
      (
        add_line-IsStandard o l s v n h.0,
        add_lines-IsStandard vs ls (s + gross o l) (v + fifth (gross o l)) (n + pieces o l) h.1,
      )
      (ground arith)

-- Free from 995 kronor on, and for an empty sum.
abbrev pub shipping : ℕ → ℕ
shipping g = if leb 99500 g || g == 0 then 0 else 4900

-- For a basket in SEK whose lines are priced in SEK at 25 % VAT, each for less than 10 ^ 26 in all,
-- `totals` succeeds. The subtotal is the sum of the lines at their live prices, the VAT the sum of a
-- fifth of each line rounded half up, the shipping 49 kronor or nothing by the subtotal, and the
-- total the subtotal and the shipping. Lines whose variant is gone count for nothing.
pub totals-IsStandard :
    (lines : List CartItem) (table : List ProductVariant)
    → AllStandard (fetch_variants (variant_ids lines) table) lines
    → let vs = fetch_variants (variant_ids lines) table in
      let g = gross_sum vs lines in
      totals "SEK" lines table
      ≡ ok (record {
        subtotal = sek g;
        vat = sek (vat_sum vs lines);
        shipping = sek (shipping g);
        total = sek (g + shipping g);
        item_count = piece_sum vs lines;
      })
unfolding totals make_totals
totals-IsStandard lines table h =
    let vs = fetch_variants (variant_ids lines) table in
    let g = gross_sum vs lines in
    ground (arith, make-sek 0, add_lines-IsStandard vs lines 0 0 0 h, plus-sek g 0, plus-sek g 4900)
