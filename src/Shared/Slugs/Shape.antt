-- ===== src/Shared/Slugs/Shape.antt =====
-- What the results of `slugify` in backend/app/shared/slugify.py look like.
use nordmarkt.Common.{
  ℕ, zero, suc, ◌≤◌, ◌≡◌, ◌⊎◌, inl, inr, refl, Bool, true, false, ◌&&◌, List, [], ◌∷◌, arith, ◌==◌,
  if◌then◌else◌, take, length, length-take, Bool-cases, subst, sym, select, map, ltb,
}
use nordmarkt.Common.Texts.{rstrip}
use nordmarkt.Shared.Slugs.{
  UnicodeTexts, hyphen, is_word, transliterate, hyphenate, lstrip, slugify,
}

-- Word characters and hyphens, where no hyphen stands after another; the flag says whether one may
-- stand first.
abbrev pub is_spaced : Bool → List ℕ → Bool
is_spaced may [] = true
is_spaced may (c ∷ s) =
    let words = is_spaced true s in
    let hyphened = is_spaced false s in
    if is_word c then words else (c == hyphen && may && hyphened)

-- The same for a text that ends in a word character; the flag says whether a word character stands
-- before.
abbrev pub is_closed : Bool → List ℕ → Bool
is_closed after [] = after
is_closed after (c ∷ s) =
    let words = is_closed true s in
    let hyphened = is_closed false s in
    if is_word c then words else (c == hyphen && after && hyphened)

-- Words of a-z and 0-9, with one hyphen between one and the next.
abbrev pub is_slug : List ℕ → Bool
is_slug [] = true
is_slug (c ∷ s) = is_closed false (c ∷ s)

hyphenate_spaced :
    (s : List ℕ)
    → (is_spaced true (hyphenate false s) ≡ true) × (is_spaced false (hyphenate true s) ≡ true)
unfolding hyphenate
hyphenate_spaced [] = (refl, refl)
hyphenate_spaced (c ∷ s) =
    let rest = hyphenate_spaced s in
    (ground (arith, rest.0, rest.1), ground (arith, rest.0, rest.1))

weaken : (s : List ℕ) → is_spaced false s ≡ true → is_spaced true s ≡ true
weaken [] h = refl
weaken (c ∷ s) h = ground (arith, h)

lstrip_spaced : (s : List ℕ) → is_spaced true s ≡ true → is_spaced false (lstrip hyphen s) ≡ true
unfolding lstrip
lstrip_spaced [] h = refl
lstrip_spaced (c ∷ s) h = ground (arith, h, weaken s, lstrip_spaced s)

take_spaced :
    (n : ℕ) (may : Bool) (s : List ℕ) → is_spaced may s ≡ true → is_spaced may (take n s) ≡ true
take_spaced zero may s h = refl
take_spaced (suc n) may [] h = refl
take_spaced (suc n) may (c ∷ s) h = ground (arith, h, take_spaced n true s, take_spaced n false s)

-- Nothing, or a text that ends in a word character.
abbrev IsClosed : Bool → List ℕ → Type 0
IsClosed after s = (s ≡ []) ⊎ (is_closed after s ≡ true)

-- What `rstrip` does at a character, with the rest stripped.
abbrev keep : ℕ → List ℕ → List ℕ
keep c [] = if c == hyphen then [] else c ∷ []
keep c (y ∷ ys) = c ∷ y ∷ ys

rstrip-keep : (c : ℕ) (s : List ℕ) → rstrip hyphen (c ∷ s) ≡ keep c (rstrip hyphen s)
unfolding rstrip
rstrip-keep c s = ground arith

keep_word :
    (after : Bool) (c : ℕ) (t : List ℕ)
    → is_word c ≡ true
    → IsClosed true t
    → IsClosed after (keep c t)
keep_word after c [] w h = ground (arith, w)
keep_word after c (y ∷ ys) w (inl e) = ground (arith, e)
keep_word after c (y ∷ ys) w (inr h) = inr (ground (arith, w, h))

keep-hyphen :
    (c : ℕ) (t : List ℕ)
    → is_word c ≡ false
    → (c == hyphen) ≡ true
    → IsClosed false t
    → IsClosed true (keep c t)
keep-hyphen c [] w e h = inl (rw e refl)
keep-hyphen c (y ∷ ys) w e (inl none) = ground (arith, none)
keep-hyphen c (y ∷ ys) w e (inr h) = inr (ground (arith, w, e, h))

rstrip-IsClosed :
    (may : Bool) (s : List ℕ) → is_spaced may s ≡ true → IsClosed may (rstrip hyphen s)
unfolding rstrip
rstrip-IsClosed may [] h = inl refl
rstrip-IsClosed false (c ∷ s) h = elim (Bool-cases (is_word c)) [
  | inl w ↦
      subst (IsClosed false) (sym (rstrip-keep c s))
        (keep_word false c (rstrip hyphen s) w (rstrip-IsClosed true s (ground (arith, h, w))))
  | inr w ↦ ground (arith, h, w)
]
rstrip-IsClosed true (c ∷ s) h = elim (Bool-cases (is_word c)) [
  | inl w ↦
      subst (IsClosed true) (sym (rstrip-keep c s))
        (keep_word true c (rstrip hyphen s) w (rstrip-IsClosed true s (ground (arith, h, w))))
  | inr w ↦ subst (IsClosed true) (sym (rstrip-keep c s)) (
      keep-hyphen c (rstrip hyphen s) w (ground (arith, h, w))
        (rstrip-IsClosed false s (ground (arith, h, w))))
]

closed_spaced : (after : Bool) (s : List ℕ) → is_closed after s ≡ true → is_spaced after s ≡ true
closed_spaced after [] h = refl
closed_spaced after (c ∷ s) h = ground (arith, h, closed_spaced true s, closed_spaced false s)

IsClosed-spaced : (after : Bool) (s : List ℕ) → IsClosed after s → is_spaced after s ≡ true
IsClosed-spaced after s (inl e) = rw e refl
IsClosed-spaced after s (inr h) = closed_spaced after s h

length-rstrip : (c : ℕ) (s : List ℕ) → length (rstrip c s) ≤ length s
unfolding rstrip
length-rstrip c [] = omega arith
length-rstrip c (x ∷ s) = ground (arith, length-rstrip c s)

closed_slug : (s : List ℕ) → IsClosed false s → is_slug s ≡ true
closed_slug [] h = refl
closed_slug (c ∷ s) (inl e) = ground (arith, e)
closed_slug (c ∷ s) (inr h) = h

-- Whatever the text, and whatever the functions of Unicode make of it: the result of `slugify` is
-- empty, or words of a-z and 0-9 with one hyphen between one and the next and none at either end; and
-- it is no longer than the maximum.
pub slugify_lem :
    (u : UnicodeTexts) (value : List ℕ) (max_length : ℕ)
    → (is_slug (slugify u value max_length) ≡ true)
      × (length (slugify u value max_length) ≤ max_length)
unfolding slugify
slugify_lem u value max_length =
    let ascii = select (λ c. ltb c 128) (u.nfkd (map transliterate (u.lower (u.strip value)))) in
    let dashed = hyphenate false ascii in
    let slug = rstrip hyphen (lstrip hyphen dashed) in
    let cut = take max_length slug in
    let spaced = take_spaced max_length false slug (
      IsClosed-spaced false slug (
        rstrip-IsClosed false (lstrip hyphen dashed)
          (lstrip_spaced dashed (hyphenate_spaced ascii).0))) in
    (
      closed_slug (rstrip hyphen cut) (rstrip-IsClosed false cut spaced),
      omega (arith, length-rstrip hyphen cut, length-take max_length slug),
    )
