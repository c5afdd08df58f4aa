-- ===== src/Shared/Slugs.antt =====
-- backend/app/shared/slugify.py, over the code points of a text.
pub mod Shape
use nordmarkt.Common.{
  ℕ, Bool, true, false, ◌&&◌, ◌||◌, List, [], ◌∷◌, leb, ltb, ◌==◌, if◌then◌else◌, select, take, map,
}
use nordmarkt.Common.Texts.{rstrip}

-- `str.strip`, `str.lower` and `unicodedata.normalize("NFKD", …)`
pub record UnicodeTexts : Type 0 where
  pub strip : List ℕ → List ℕ
  pub lower : List ℕ → List ℕ
  pub nfkd : List ℕ → List ℕ

-- `_TRANSLITERATE`: å, ä, ö, é, ü and ø.
unfoldable pub transliterate : ℕ → ℕ
transliterate c =
    if c == 229 || c == 228
    then b'a'
    else if c == 246 || c == 248
    then b'o'
    else if c == 233
    then b'e'
    else if c == 252
    then b'u'
    else c

abbrev pub hyphen : ℕ
hyphen = b'-'

-- `[a-z0-9]`
abbrev pub is_word : ℕ → Bool
is_word c = (leb b'a' c && leb c b'z') || (leb b'0' c && leb c b'9')

-- `re.sub(r"[^a-z0-9]+", "-", text)`; the flag says whether the run before has had its hyphen.
unfoldable pub hyphenate : Bool → List ℕ → List ℕ
hyphenate in_run [] = []
hyphenate in_run (c ∷ s) =
    let same = hyphenate true s in
    let next = hyphenate false s in
    if is_word c then c ∷ next else if in_run then same else hyphen ∷ same

-- `text.lstrip("-")`
unfoldable pub lstrip : ℕ → List ℕ → List ℕ
lstrip c [] = []
lstrip c (x ∷ xs) = let rest = lstrip c xs in if x == c then rest else x ∷ xs

unfoldable pub slugify : UnicodeTexts → List ℕ → ℕ → List ℕ
unfolding transliterate hyphenate lstrip
slugify u value max_length =
    let lowered = map transliterate (u.lower (u.strip value)) in
    let ascii_only = select (λ c. ltb c 128) (u.nfkd lowered) in
    let slug = rstrip hyphen (lstrip hyphen (hyphenate false ascii_only)) in
    rstrip hyphen (take max_length slug)
