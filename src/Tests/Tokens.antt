-- ===== src/Tests/Tokens.antt =====
-- Tokens that hold their claims, the time of their issue and that of their expiry in plain text.
use Prim.Native.Char.{code}
use nordmarkt.Common.{
  ℕ, zero, suc, ◌+◌, ◌*◌, ◌/◌, ◌%◌, ◌≡◌, refl, ap, true, false, Option, none, some, List, [], ◌∷◌,
  String, arith, leb, ltb, ◌&&◌, ◌==◌, if◌then◌else◌, length,
}
use nordmarkt.Identity.{Crypto, Claims}
use nordmarkt.Api.Access.Tokens.{JwtLaws}
use nordmarkt.Tests.Data.{crypto}

-- Each value says before each of its parts whether another comes.
pub put_nat : ℕ → String → String
put_nat zero rest = String.◌∷◌ "." rest
put_nat (suc n) rest = String.◌∷◌ "1" (put_nat n rest)

pub get_nat : String → Option (ℕ × String)
get_nat String.[] = none
get_nat (String.◌∷◌ c s) =
    if code c == b'.'
    then some (0, s)
    else elim (get_nat s) [ none ↦ none | some (n, rest) ↦ some (suc n, rest) ]

get_nat-put_nat : (n : ℕ) (rest : String) → get_nat (put_nat n rest) ≡ some (n, rest)
unfolding get_nat put_nat
get_nat-put_nat zero rest = refl
get_nat-put_nat (suc n) rest = rw (get_nat-put_nat n rest) refl

pub put_text : String → String → String
put_text String.[] rest = String.◌∷◌ "." rest
put_text (String.◌∷◌ c t) rest = String.◌∷◌ "1" (String.◌∷◌ c (put_text t rest))

pub get_text : String → Option (String × String)
get_text String.[] = none
get_text (String.◌∷◌ c String.[]) = some ("", "")
get_text (String.◌∷◌ c (String.◌∷◌ d s)) = elim (code c == b'.') [
  | true ↦ some ("", String.◌∷◌ d s)
  | false ↦ elim (get_text s) [ none ↦ none | some (t, rest) ↦ some (String.◌∷◌ d t, rest) ]
]

get_text-put_text : (t rest : String) → get_text (put_text t rest) ≡ some (t, rest)
unfolding get_text put_text
get_text-put_text String.[] String.[] = refl
get_text-put_text String.[] (String.◌∷◌ d s) = refl
get_text-put_text (String.◌∷◌ c t) rest = rw (get_text-put_text t rest) refl

pub put_texts : List String → String → String
put_texts [] rest = put_nat 0 rest
put_texts (t ∷ ts) rest = put_nat 1 (put_text t (put_texts ts rest))

-- A value, and then the rest of the text.
abbrev pub and_then : {A B : Type 0} → Option (A × String) → (A → String → Option B) → Option B
and_then none f = none
and_then (some (a, rest)) f = f a rest

-- Of so many texts.
pub get_texts : ℕ → String → Option (List String × String)
get_texts zero s = and_then (get_nat s) λ _ rest. some ([], rest)
get_texts (suc n) s = and_then (get_nat s) λ _ more.
    and_then (get_text more)
      λ t others. and_then (get_texts n others) λ ts rest. some (t ∷ ts, rest)

get_texts-put_texts :
    (ts : List String) (rest : String) → get_texts (length ts) (put_texts ts rest) ≡ some (ts, rest)
unfolding get_texts put_texts
get_texts-put_texts [] rest = ap (λ o. and_then o λ _ s. some ([], s)) (get_nat-put_nat 0 rest)
get_texts-put_texts (t ∷ ts) rest = ground (
  arith,
  get_nat-put_nat 1 (put_text t (put_texts ts rest)),
  get_text-put_text t (put_texts ts rest),
  get_texts-put_texts ts rest,
)

-- No session, or the number of one.
abbrev pub from_sid : Option ℕ → ℕ
from_sid none = 0
from_sid (some n) = suc n

abbrev pub to_sid : ℕ → Option ℕ
to_sid zero = none
to_sid (suc n) = some n

to_sid-from_sid : (o : Option ℕ) → to_sid (from_sid o) ≡ o
to_sid-from_sid none = refl
to_sid-from_sid (some n) = refl

-- A time is written in thousands and the rest, to keep the text short.
put_time : ℕ → String → String
unfolding put_nat
put_time t rest = put_nat (t / 1000) (put_nat (t % 1000) rest)

-- The number of the roles stands before them.
put_claims : Claims → String
unfolding put_nat put_text put_texts
put_claims c =
    put_nat c.sub
      (put_nat (from_sid c.sid) (put_text c.typ (put_nat (length c.roles) (put_texts c.roles ""))))

unfoldable pub write_token : ℕ → ℕ → Claims → String
unfolding put_time put_claims
write_token issued expires c = put_time issued (put_time expires (put_claims c))

get_time : String → Option (ℕ × String)
get_time s =
    and_then (get_nat s)
      λ thousands s0. and_then (get_nat s0) λ ones s1. some (thousands * 1000 + ones, s1)

get_claims : String → Option Claims
get_claims s = and_then (get_nat s) λ sub s2. and_then (get_nat s2) λ sid s3.
    and_then (get_text s3) λ typ s4. and_then (get_nat s4) λ n s5.
      and_then (get_texts n s5)
        λ roles _. some (record { sub = sub; typ = typ; sid = to_sid sid; roles = roles })

pub read_token : ℕ → String → Option Claims
unfolding get_time get_claims
read_token now s = and_then (get_time s) λ issued s0.
    and_then (get_time s0)
      λ expires s1. if leb issued now && ltb now expires then get_claims s1 else none

together : (n : ℕ) → n / 1000 * 1000 + n % 1000 ≡ n
together n = omega arith

get_time-put_time : (t : ℕ) (rest : String) → get_time (put_time t rest) ≡ some (t, rest)
unfolding get_time put_time
get_time-put_time t rest = ground (
  arith,
  get_nat-put_nat (t / 1000) (put_nat (t % 1000) rest),
  get_nat-put_nat (t % 1000) rest,
  together t,
)

get_claims-put_claims : (c : Claims) → get_claims (put_claims c) ≡ some c
unfolding get_claims put_claims
get_claims-put_claims c =
    let s5 = put_texts c.roles "" in
    let s4 = put_nat (length c.roles) s5 in
    let s3 = put_text c.typ s4 in
    let s2 = put_nat (from_sid c.sid) s3 in
    ground (
      arith,
      get_nat-put_nat c.sub s2,
      get_nat-put_nat (from_sid c.sid) s3,
      get_text-put_text c.typ s4,
      get_nat-put_nat (length c.roles) s5,
      get_texts-put_texts c.roles "",
      to_sid-from_sid c.sid,
    )

read_token-write_token :
    (now issued expires : ℕ) (c : Claims)
    → read_token now (write_token issued expires c)
      ≡ (if leb issued now && ltb now expires then some c else none)
unfolding read_token write_token
read_token-write_token now issued expires c = ground (
  arith,
  get_time-put_time issued (put_time expires (put_claims c)),
  get_time-put_time expires (put_claims c),
  get_claims-put_claims c,
)

abbrev pub plain_crypto : Crypto
plain_crypto = record crypto {
  jwt_encode = λ n issued expires c. write_token issued expires c;
  jwt_decode = read_token;
}

pub plain_laws : JwtLaws plain_crypto
plain_laws = record {
  live = λ n issued expires now c from h.
      ground (arith, from, h, read_token-write_token now issued expires c);
  early =
      λ n issued expires now c h. ground (arith, h, read_token-write_token now issued expires c);
  expired =
      λ n issued expires now c h. ground (arith, h, read_token-write_token now issued expires c);
}
