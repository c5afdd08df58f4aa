-- ===== src/Shared/Localization/Negotiation.antt =====
-- backend/app/shared/localization.py: `negotiate_locale`; and `get_locale` of backend/app/api/deps.py.
use nordmarkt.Common.{Bool, Option, none, some, List, [], ◌∷◌, String, str_eq, if◌then◌else◌}
use nordmarkt.Common.Texts.{truthy, starts_with, split, mem_text, cut, after_two}

-- What the negotiation takes from Python: `str.strip`, `str.lower`, and the floats: `float`, which gives
-- nothing for a text that it refuses, 0.0, 1.0 and `<`.
pub record PythonTexts : Type 1 where
  pub strip : String → String
  pub lower : String → String
  pub Float : Type 0
  pub float : String → Option Float
  pub nought : Float
  pub one : Float
  pub less : Float → Float → Bool

module _ (py : PythonTexts) where
  -- The quality that the parameters of a chunk give it.
  abbrev pub quality_of : String → py.Float
  quality_of params =
      if starts_with params "q="
      then elim (py.float (after_two params)) [ none ↦ py.nought | some q ↦ q ]
      else py.one

  abbrev pub rank_chunk : String → py.Float × String
  rank_chunk chunk =
      let (tag, params) = cut b';' chunk in
      (quality_of params, (cut b'-' (py.lower (py.strip tag))).0)

  rank_parts : List String → List (py.Float × String)
  rank_parts [] = []
  rank_parts (part ∷ parts) =
      let rest = rank_parts parts in
      if str_eq (py.strip part) "" then rest else rank_chunk (py.strip part) ∷ rest

  -- `ranked`
  unfoldable pub ranked : String → List (py.Float × String)
  unfolding rank_parts
  ranked header = rank_parts (split b',' header)

  -- `sorted(..., reverse=True)` keeps the order of entries of one quality.
  unfoldable pub insert_ranked :
      py.Float × String → List (py.Float × String) → List (py.Float × String)
  insert_ranked e [] = e ∷ []
  insert_ranked e (x ∷ xs) = if py.less e.0 x.0 then x ∷ insert_ranked e xs else e ∷ x ∷ xs

  unfoldable pub sort_ranked : List (py.Float × String) → List (py.Float × String)
  unfolding insert_ranked
  sort_ranked [] = []
  sort_ranked (e ∷ es) = insert_ranked e (sort_ranked es)

  unfoldable pub first_supported : List String → List (py.Float × String) → Option String
  first_supported supported [] = none
  first_supported supported ((_, tag) ∷ es) =
      if mem_text tag supported then some tag else first_supported supported es

  unfoldable pub negotiate_locale : Option String → List String → String → String
  unfolding first_supported sort_ranked
  negotiate_locale header supported default = elim (truthy header) [
    | none ↦ default
    | some h ↦ elim (first_supported supported (sort_ranked (ranked h))) [
      | none ↦ default
      | some tag ↦ tag
    ]
  ]

  -- `get_locale`, from the settings and the headers Accept-Language and X-Locale.
  unfoldable pub get_locale : List String → String → Option String → Option String → String
  unfolding negotiate_locale
  get_locale supported default accept_language none =
      negotiate_locale accept_language supported default
  get_locale supported default accept_language (some x_locale) =
      if mem_text x_locale supported
      then x_locale
      else negotiate_locale accept_language supported default
