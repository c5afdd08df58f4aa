-- ===== src/Core/Pagination.antt =====
-- backend/app/core/pagination.py: opaque cursors, and pages.
pub mod RoundTrip
use nordmarkt.Common.{
  ℕ, zero, suc, ◌+◌, ◌-◌, ◌%◌, ◌*◌, ◌≤◌, ◌<◌, ◌≡◌, ◌≢◌, Option, none, some, List, [], ◌∷◌, ◌++◌,
  ◌==◌, if◌then◌else◌, length, All, String,
}
use nordmarkt.Common.Texts.{rstrip}
use nordmarkt.Core.Errors.{Result, ok, err, value_error, data_error}

-- `json.dumps(payload, default=str).encode()` and `json.loads`, at the type of a payload. Nothing
-- stands for the bytes of no payload.
pub record JsonCodec (A : Type 0) : Type 0 where
  pub dumps : A → List ℕ
  pub loads : List ℕ → Option A

-- What is said of the two: that no document is empty, and that a payload is read back.
pub record JsonLaws {A : Type 0} (j : JsonCodec A) : Type 0 where
  pub loads-dumps : (a : A) → j.loads (j.dumps a) ≡ some a
  pub loads_empty : j.loads [] ≡ none
  pub bytes : (a : A) → All (λ c. c < 256) (j.dumps a)

-- `base64.urlsafe_b64encode` and `base64.urlsafe_b64decode`, over the codes of characters. Nothing
-- stands for a text that is refused.
pub record Base64 : Type 0 where
  pub b64encode : List ℕ → List ℕ
  pub b64decode : List ℕ → Option (List ℕ)

abbrev pub pad : ℕ
pad = b'='

abbrev pub replicate : ℕ → ℕ → List ℕ
replicate zero c = []
replicate (suc n) c = c ∷ replicate n c

-- An encoded text: symbols, then at most two `=`, to a length of a multiple of four.
pub record Padded (text : List ℕ) : Type 0 where
  pub body : List ℕ
  pub pads : ℕ
  pub quarters : ℕ
  pub symbols : All (λ c. c ≢ pad) body
  pub few : pads ≤ 2
  pub filled : length body + pads ≡ 4 * quarters
  pub spelled : text ≡ body ++ replicate pads pad

-- What RFC 4648 says of the two.
pub record Base64Laws (b : Base64) : Type 0 where
  pub encoded : (s : List ℕ) → Padded (b.b64encode s)
  pub decode_empty : b.b64decode [] ≡ some []
  pub decode-encode : (s : List ℕ) → All (λ c. c < 256) s → b.b64decode (b.b64encode s) ≡ some s

-- `-n % 4`
abbrev pub missing : ℕ → ℕ
missing n = (4 - n % 4) % 4

module _ {A : Type 0} (b : Base64) (j : JsonCodec A) where
  unfoldable pub encode_cursor : A → List ℕ
  encode_cursor payload = rstrip pad (b.b64encode (j.dumps payload))

  -- A cursor that is no base64 or holds no payload raises a subclass of `ValueError`.
  unfoldable pub decode_cursor : List ℕ → Result A
  decode_cursor cursor = elim (b.b64decode (cursor ++ replicate (missing (length cursor)) pad)) [
    | none ↦ err value_error
    | some text ↦ elim (j.loads text) [ none ↦ err value_error | some payload ↦ ok payload ]
  ]

-- What the lists take from `datetime.isoformat`, and from the driver of the database: the time of a
-- text that is handed over for a column of times. Nothing stands for a text that the driver refuses.
pub record Times : Type 0 where
  pub isoformat : ℕ → String
  pub bind_time : String → Option ℕ

-- What asyncpg documents: an argument of the type timestamptz is a `datetime`. A text is refused.
pub record AsyncpgLaws (d : Times) : Type 0 where
  pub refused : (text : String) → d.bind_time text ≡ none

-- The exception of a refused argument is SQLAlchemy's `DBAPIError`.
abbrev pub bound_time : Times → String → Result ℕ
bound_time d text = elim (d.bind_time text) [ none ↦ err data_error | some t ↦ ok t ]

-- `Page`; no list endpoint sets `total` on it.
pub record Page (A : Type 0) : Type 0 where
  pub items : List A
  pub next_cursor : Option (List ℕ)
