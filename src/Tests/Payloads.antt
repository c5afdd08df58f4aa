-- ===== src/Tests/Payloads.antt =====
-- The markers of cursors as bytes: a number in unary before a comma, and a text as the numbers of its
-- characters, in unary too.
use Prim.Native.Nat.{Ordering, compare}
use Prim.Native.Char.{Char, char, code, IsLt}
use text.Mathlib.TextEquality.{Char-path}
use nordmarkt.Common.{
  ℕ, zero, suc, ◌+◌, ◌<◌, ◌≡◌, refl, ap, ◌∙◌, Option, none, some, List, [], String, arith, All,
}
use nordmarkt.Core.Pagination.{JsonCodec, JsonLaws}
use nordmarkt.Catalog.Search.{Marker}
use nordmarkt.Tests.Encoding.{unary, read_unary, read_unary-unary, unary_bytes}

-- Whether three comparisons say that a number is that of a character, as `IsScalar` has it.
abbrev Both : Ordering → Ordering → Type 0
Both Ordering.lt o = IsLt o
Both Ordering.eq _ = ⊥
Both Ordering.gt _ = ⊥

abbrev Scalar : Ordering → Ordering → Ordering → Type 0
Scalar Ordering.lt _ _ = Unit
Scalar Ordering.eq o p = Both o p
Scalar Ordering.gt o p = Both o p

decide : (a b c : Ordering) → Option (Scalar a b c)
decide Ordering.lt _ _ = some tt
decide Ordering.eq Ordering.lt Ordering.lt = some tt
decide Ordering.gt Ordering.lt Ordering.lt = some tt
decide _ _ _ = none

decided : (a b c : Ordering) → Scalar a b c → (q : Scalar a b c) × (decide a b c ≡ some q)
unfolding decide
decided Ordering.lt b c p = (tt, refl)
decided Ordering.eq Ordering.lt Ordering.lt p = (tt, refl)
decided Ordering.gt Ordering.lt Ordering.lt p = (tt, refl)
decided Ordering.eq Ordering.lt Ordering.eq p = absurd p
decided Ordering.eq Ordering.lt Ordering.gt p = absurd p
decided Ordering.eq Ordering.eq c p = absurd p
decided Ordering.eq Ordering.gt c p = absurd p
decided Ordering.gt Ordering.lt Ordering.eq p = absurd p
decided Ordering.gt Ordering.lt Ordering.gt p = absurd p
decided Ordering.gt Ordering.eq c p = absurd p
decided Ordering.gt Ordering.gt c p = absurd p

abbrev of_scalar :
    (n : ℕ) → Option (Scalar (compare n 55296) (compare 57343 n) (compare n 1114112)) → Option Char
of_scalar n none = none
of_scalar n (some p) = some (char n p)

abbrev to_char : ℕ → Option Char
to_char n = of_scalar n (decide (compare n 55296) (compare 57343 n) (compare n 1114112))

to_char-code : (c : Char) → to_char (code c) ≡ some c
to_char-code (char n p) =
    let (q, e) = decided (compare n 55296) (compare 57343 n) (compare n 1114112) p in
    ap (of_scalar n) e ∙ ap some (Char-path (char n q) (char n p) refl)

write_text : String → List ℕ → List ℕ
write_text String.[] rest = rest
write_text (String.◌∷◌ c s) rest = unary (code c) (write_text s rest)

abbrev size : String → ℕ
size String.[] = 0
size (String.◌∷◌ c s) = suc (size s)

abbrev add_char : Option Char → Option (String × List ℕ) → Option (String × List ℕ)
add_char none r = none
add_char (some c) none = none
add_char (some c) (some (s, rest)) = some (String.◌∷◌ c s, rest)

abbrev snd_or_none : Option (ℕ × List ℕ) → List ℕ
snd_or_none none = []
snd_or_none (some (n, rest)) = rest

abbrev char_of : Option (ℕ × List ℕ) → Option Char
char_of none = none
char_of (some (n, rest)) = to_char n

-- So many characters.
read_text : ℕ → List ℕ → Option (String × List ℕ)
read_text zero bytes = some ("", bytes)
read_text (suc n) bytes =
    add_char (char_of (read_unary 0 bytes)) (read_text n (snd_or_none (read_unary 0 bytes)))

read_text-write_text :
    (s : String) (rest : List ℕ) → read_text (size s) (write_text s rest) ≡ some (s, rest)
unfolding read_text write_text
read_text-write_text String.[] rest = refl
read_text-write_text (String.◌∷◌ c s) rest =
    let plain : 0 + code c ≡ code c = omega arith in
    rw (read_unary-unary 0 (code c) (write_text s rest), plain, read_text-write_text s rest)
      (ap (λ o. add_char o (some (s, rest))) (to_char-code c))

-- A marker is written with the size of its text, its text and its number.
pub write_marker : Marker → List ℕ
write_marker m = unary (size m.created_at) (write_text m.created_at (unary m.id []))

abbrev then_id : String → Option (ℕ × List ℕ) → Option Marker
then_id t none = none
then_id t (some (n, _)) = some (record { created_at = t; id = n })

abbrev then_text : Option (String × List ℕ) → Option Marker
then_text none = none
then_text (some (t, rest)) = then_id t (read_unary 0 rest)

abbrev then_size : Option (ℕ × List ℕ) → Option Marker
then_size none = none
then_size (some (n, rest)) = then_text (read_text n rest)

pub read_marker : List ℕ → Option Marker
read_marker bytes = then_size (read_unary 0 bytes)

abbrev pub marker_json : JsonCodec Marker
marker_json = record { dumps = write_marker; loads = read_marker }

text_bytes :
    (s : String) (rest : List ℕ) → All (λ c. c < 256) rest → All (λ c. c < 256) (write_text s rest)
unfolding write_text
text_bytes String.[] rest h = h
text_bytes (String.◌∷◌ c s) rest h = unary_bytes (code c) _ (text_bytes s rest h)

pub marker_laws : JsonLaws marker_json
unfolding write_marker read_marker read_unary
marker_laws = record {
  loads_empty = refl;
  loads-dumps = λ m. ground (
    arith,
    read_unary-unary 0 (size m.created_at) (write_text m.created_at (unary m.id [])),
    read_text-write_text m.created_at (unary m.id []),
    read_unary-unary 0 m.id [],
  );
  bytes =
      λ m. unary_bytes (size m.created_at) _ (text_bytes m.created_at _ (unary_bytes m.id [] tt));
}
