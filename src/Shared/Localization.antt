-- ===== src/Shared/Localization.antt =====
-- backend/app/shared/localization.py: the fallback chain and `resolve_translation`. The choice of a
-- language for a request is in the child `Negotiation`.
pub mod Negotiation
use nordmarkt.Common.{Option, none, some, List, [], ◌∷◌, String, str_eq, if◌then◌else◌}

abbrev pub Translated : Type 0
Translated = List (String × String)

-- `FALLBACK_CHAIN.get(locale, ("sv", "en"))`
unfoldable pub fallback_chain : String → List String
fallback_chain locale = if str_eq locale "en" then "en" ∷ "sv" ∷ [] else "sv" ∷ "en" ∷ []

-- `raw.get(candidate)`, where an empty text counts as missing.
unfoldable pub get_text : String → Translated → Option String
get_text k [] = none
get_text k ((j, v) ∷ raw) =
    if str_eq j k then (if str_eq v "" then none else some v) else get_text k raw

unfoldable pub first_candidate : List String → Translated → Option String
unfolding get_text
first_candidate [] raw = none
first_candidate (k ∷ ks) raw = elim (get_text k raw) [
  | some v ↦ some v
  | none ↦ first_candidate ks raw
]

-- `next((str(v) for v in raw.values() if v), "")`
unfoldable pub any_text : Translated → String
any_text [] = ""
any_text ((_, v) ∷ raw) = if str_eq v "" then any_text raw else v

unfoldable pub resolve_translation : Option Translated → String → String
unfolding fallback_chain first_candidate any_text
resolve_translation none locale = ""
resolve_translation (some raw) locale = elim (first_candidate (fallback_chain locale) raw) [
  | some v ↦ v
  | none ↦ any_text raw
]

-- `TranslatedText.resolve`, of the two fields.
pub record TranslatedText : Type 0 where
  pub sv : String
  pub en : String

unfoldable pub resolve : TranslatedText → String → String
unfolding fallback_chain first_candidate
resolve t locale =
    elim (first_candidate (fallback_chain locale) (("sv", t.sv) ∷ ("en", t.en) ∷ [])) [
      | some v ↦ v
      | none ↦ ""
    ]
