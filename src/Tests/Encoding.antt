-- ===== src/Tests/Encoding.antt =====
-- Cursors in real base64: the URL-safe alphabet of RFC 4648, section 5.
use nordmarkt.Common.{
  ℕ, zero, suc, ◌+◌, ◌-◌, ◌*◌, ◌/◌, ◌%◌, ◌<◌, ◌≡◌, ◌≢◌, refl, Option, none, some, List, [], ◌∷◌,
  ◌++◌, arith, ltb, ◌==◌, if◌then◌else◌, All,
}
use nordmarkt.Core.Pagination.{Base64, Base64Laws, Padded, pad, replicate}

symbol : ℕ → ℕ
symbol n =
    if ltb n 26
    then n + 65
    else if ltb n 52
    then n + 71
    else if ltb n 62
    then n - 4
    else if n == 62
    then b'-'
    else b'_'

value : ℕ → ℕ
value c =
    if c == b'-'
    then 62
    else if c == b'_'
    then 63
    else if ltb c 58
    then c + 4
    else if ltb c 91
    then c - 65
    else c - 71

value-symbol : (n : ℕ) → n < 64 → value (symbol n) ≡ n
unfolding value symbol
value-symbol n h = ground arith

symbol-ne-pad : (n : ℕ) → n < 64 → symbol n ≢ pad
unfolding symbol
symbol-ne-pad n h = ground arith

-- Codes past a byte are cut to it.
pub encode : List ℕ → List ℕ
encode [] = []
encode (a ∷ []) = symbol (a % 256 / 4) ∷ symbol (a % 4 * 16) ∷ pad ∷ pad ∷ []
encode (a ∷ b ∷ []) =
    symbol (a % 256 / 4) ∷ symbol (a % 4 * 16 + b % 256 / 16) ∷ symbol (b % 16 * 4) ∷ pad ∷ []
encode (a ∷ b ∷ c ∷ s) =
    symbol (a % 256 / 4)
    ∷ symbol (a % 4 * 16 + b % 256 / 16)
    ∷ symbol (b % 16 * 4 + c % 256 / 64)
    ∷ symbol (c % 64)
    ∷ encode s

-- The bytes of a group of four symbols.
first : ℕ → ℕ → ℕ
first w x = value w * 4 + value x / 16

second : ℕ → ℕ → ℕ
second x y = value x % 16 * 16 + value y / 4

third : ℕ → ℕ → ℕ
third y z = value y % 4 * 64 + value z

-- A group of two symbols or three at the end; anything else is refused.
pub decode : List ℕ → Option (List ℕ)
decode [] = some []
decode (w ∷ x ∷ y ∷ z ∷ s) = elim (decode s) [
  | none ↦ none
  | some rest ↦ some (
      if y == pad
      then first w x ∷ rest
      else if z == pad
      then first w x ∷ second x y ∷ rest
      else first w x ∷ second x y ∷ third y z ∷ rest)
]
decode _ = none

abbrev pub base64 : Base64
base64 = record { b64encode = encode; b64decode = decode }

decode-encode : (s : List ℕ) → All (λ c. c < 256) s → decode (encode s) ≡ some s
unfolding encode decode first second third
decode-encode [] h = refl
decode-encode (a ∷ []) h =
    ground (
      arith,
      h.0,
      value-symbol (a % 256 / 4) (omega arith),
      value-symbol (a % 4 * 16) (omega arith),
    )
decode-encode (a ∷ b ∷ []) h = ground (
  arith,
  h.0,
  h.1.0,
  value-symbol (a % 256 / 4) (omega arith),
  value-symbol (a % 4 * 16 + b % 256 / 16) (omega arith),
  value-symbol (b % 16 * 4) (omega arith),
  symbol-ne-pad (b % 16 * 4) (omega arith),
)
decode-encode (a ∷ b ∷ c ∷ s) h = ground (
  arith,
  h.0,
  h.1.0,
  h.1.1.0,
  value-symbol (a % 256 / 4) (omega arith),
  value-symbol (a % 4 * 16 + b % 256 / 16) (omega arith),
  value-symbol (b % 16 * 4 + c % 256 / 64) (omega arith),
  value-symbol (c % 64) (omega arith),
  symbol-ne-pad (b % 16 * 4 + c % 256 / 64) (omega arith),
  symbol-ne-pad (c % 64) (omega arith),
  decode-encode s h.1.1.1,
)

encoded : (s : List ℕ) → Padded (encode s)
unfolding encode
encoded [] = record {
  body = [];
  pads = 0;
  quarters = 0;
  symbols = tt;
  few = omega arith;
  filled = refl;
  spelled = refl;
}
encoded (a ∷ []) = record {
  body = symbol (a % 256 / 4) ∷ symbol (a % 4 * 16) ∷ [];
  pads = 2;
  quarters = 1;
  symbols = (symbol-ne-pad _ (omega arith), (symbol-ne-pad _ (omega arith), tt));
  few = omega arith;
  filled = refl;
  spelled = refl;
}
encoded (a ∷ b ∷ []) = record {
  body = symbol (a % 256 / 4) ∷ symbol (a % 4 * 16 + b % 256 / 16) ∷ symbol (b % 16 * 4) ∷ [];
  pads = 1;
  quarters = 1;
  symbols = (
    symbol-ne-pad _ (omega arith),
    (symbol-ne-pad _ (omega arith), (symbol-ne-pad _ (omega arith), tt)),
  );
  few = omega arith;
  filled = refl;
  spelled = refl;
}
encoded (a ∷ b ∷ c ∷ s) =
    let p = encoded s in
    record {
      body =
          symbol (a % 256 / 4)
          ∷ symbol (a % 4 * 16 + b % 256 / 16)
          ∷ symbol (b % 16 * 4 + c % 256 / 64)
          ∷ symbol (c % 64)
          ∷ p.body;
      pads = p.pads;
      quarters = suc p.quarters;
      symbols = (
        symbol-ne-pad _ (omega arith),
        (
          symbol-ne-pad _ (omega arith),
          (symbol-ne-pad _ (omega arith), (symbol-ne-pad _ (omega arith), p.symbols)),
        ),
      );
      few = p.few;
      filled = omega (arith, p.filled);
      spelled = cc (p.spelled);
    }

pub base64_laws : Base64Laws base64
unfolding decode
base64_laws = record { encoded = encoded; decode_empty = refl; decode-encode = decode-encode }

unfoldable pub unary : ℕ → List ℕ → List ℕ
unary n rest = replicate n b'1' ++ b',' ∷ rest

unfoldable pub read_unary : ℕ → List ℕ → Option (ℕ × List ℕ)
read_unary n [] = none
read_unary n (c ∷ s) = if c == b',' then some (n, s) else read_unary (n + 1) s

pub read_unary-unary : (m n : ℕ) (rest : List ℕ) → read_unary m (unary n rest) ≡ some (m + n, rest)
unfolding read_unary unary
read_unary-unary m zero rest = ground arith
read_unary-unary m (suc n) rest = ground (arith, read_unary-unary (m + 1) n rest)

pub unary_bytes :
    (n : ℕ) (rest : List ℕ) → All (λ c. c < 256) rest → All (λ c. c < 256) (unary n rest)
unfolding unary
unary_bytes zero rest h = (omega arith, h)
unary_bytes (suc n) rest h = (omega arith, unary_bytes n rest h)
