-- ===== src/Seed/Texts.antt =====
-- backend/scripts/seed.py: the texts that it makes, SKUs and the addresses of images.
use nordmarkt.Common.{ℕ, zero, suc, ◌+◌, ◌/◌, ◌%◌, List, [], ◌∷◌, String, ltb, ◌==◌, if◌then◌else◌}
use nordmarkt.Common.Texts.{◌+s◌}
use Prim.Native.Char.{Char, code, nul}

abbrev digit_text : ℕ → String
digit_text n =
    if n == 0
    then "0"
    else if n == 1
    then "1"
    else if n == 2
    then "2"
    else if n == 3
    then "3"
    else if n == 4
    then "4"
    else if n == 5
    then "5"
    else if n == 6
    then "6"
    else if n == 7
    then "7"
    else if n == 8
    then "8"
    else "9"

-- `str(n)`; as much fuel as the number has digits is enough.
unfoldable pub decimal : ℕ → ℕ → String
decimal zero n = ""
decimal (suc fuel) n =
    let rest = decimal fuel (n / 10) in
    if ltb n 10 then digit_text n else rest +s digit_text (n % 10)

abbrev pub alphabet : String
alphabet = "abcdefghijklmnopqrstuvwxyz"

-- The character of a text that stands where another text has a code.
unfoldable pub counterpart : ℕ → Char → String → String → Char
counterpart n c (String.◌∷◌ a as_) (String.◌∷◌ b bs) =
    if code a == n then b else counterpart n c as_ bs
counterpart n c _ _ = c

-- `slug.upper().replace("-", "")`; the slugs are of ASCII.
unfoldable pub upper_letters : String → String
unfolding counterpart
upper_letters String.[] = ""
upper_letters (String.◌∷◌ c s) =
    let rest = upper_letters s in
    if code c == b'-'
    then rest
    else String.◌∷◌ (counterpart (code c) c alphabet "ABCDEFGHIJKLMNOPQRSTUVWXYZ") rest

unfoldable pub prefix : ℕ → String → String
prefix zero s = ""
prefix (suc n) String.[] = ""
prefix (suc n) (String.◌∷◌ c s) = String.◌∷◌ c (prefix n s)

-- `f"NM-{slug[:12].upper().replace('-', '')}-{variant_index + 1:02d}"`
unfoldable pub sku_of : String → ℕ → String
unfolding decimal upper_letters prefix
sku_of slug variant_index =
    let n = variant_index + 1 in
    "NM-"
    +s upper_letters (prefix 12 slug)
    +s "-"
    +s (if ltb n 10 then "0" +s decimal 1 n else decimal 20 n)

-- `image_url(keywords, lock)`, at the size that it has by default.
unfoldable pub image_url : String → ℕ → String
unfolding decimal
image_url keywords lock =
    "https://loremflickr.com/1000/1250/" +s keywords +s "?lock=" +s decimal 20 lock

-- The text of a list of code points of [a-z0-9-], as `slugify` makes it.
unfoldable pub text_of : List ℕ → String
unfolding counterpart
text_of [] = ""
text_of (n ∷ ns) =
    String.◌∷◌
      (counterpart n nul "abcdefghijklmnopqrstuvwxyz0123456789-"
        "abcdefghijklmnopqrstuvwxyz0123456789-")
      (text_of ns)
