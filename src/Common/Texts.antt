-- ===== src/Common/Texts.antt =====
-- Python's texts, as far as the program takes them apart: `split`, `join` and prefixes.
use Prim.Native.Nat.{ℕ}
use Prim.Native.Char.{Char, code}
use Prim.Native.String.{String, ◌++◌ as append_text}
use mathlib.Core.Bool.{Bool, true, false}
use mathlib.Core.Option.{Option, none, some}
use mathlib.Core.List.{List, [], ◌∷◌}
use nordmarkt.Common.Tests.{◌==◌, str_eq, if◌then◌else◌}
use text.Mathlib.Text.{starts_with as text_starts_with}

-- A text that counts as true.
abbrev pub truthy : Option String → Option String
truthy none = none
truthy (some t) = if str_eq t "" then none else some t

infixl 65 ◌+s◌
abbrev pub ◌+s◌ : String → String → String
s +s t = append_text s t

abbrev pub starts_with : String → String → Bool
starts_with s prefix = text_starts_with s prefix

-- The code points of a text.
abbrev pub codes : String → List ℕ
codes String.[] = []
codes (String.◌∷◌ c s) = code c ∷ codes s

-- A character before the first of the parts.
abbrev pub grow : Char → List String → List String
grow c [] = String.◌∷◌ c "" ∷ []
grow c (w ∷ ws) = String.◌∷◌ c w ∷ ws

-- `s.split(sep)`, by the code of a one-character separator.
unfoldable pub split : ℕ → String → List String
split sep String.[] = "" ∷ []
split sep (String.◌∷◌ c s) =
    let rest = split sep s in if code c == sep then "" ∷ rest else grow c rest

-- `sep.join(parts)`
unfoldable pub join : String → List String → String
join sep [] = ""
join sep (w ∷ []) = w
join sep (w ∷ v ∷ ws) = w +s sep +s join sep (v ∷ ws)

-- `s in texts`
abbrev pub mem_text : String → List String → Bool
mem_text s [] = false
mem_text s (t ∷ ts) = if str_eq t s then true else mem_text s ts

-- `s.partition(sep)`, by the code of a one-character separator, without the separator.
unfoldable pub cut : ℕ → String → String × String
cut sep String.[] = ("", "")
cut sep (String.◌∷◌ c s) =
    let rest = cut sep s in if code c == sep then ("", s) else (String.◌∷◌ c rest.0, rest.1)

-- `s[2:]`
abbrev pub after_two : String → String
after_two (String.◌∷◌ _ (String.◌∷◌ _ s)) = s
after_two _ = ""

-- `text.rstrip(c)`
unfoldable pub rstrip : ℕ → List ℕ → List ℕ
rstrip c [] = []
rstrip c (x ∷ xs) = elim (rstrip c xs) [ [] ↦ if x == c then [] else x ∷ [] | y ∷ ys ↦ x ∷ y ∷ ys ]
