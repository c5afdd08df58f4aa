-- ===== src/Core/Pagination/RoundTrip.antt =====
-- A cursor of backend/app/core/pagination.py says what it was made of: stripping the padding loses
-- nothing, since `decode_cursor` puts it back.
use nordmarkt.Common.{
  ℕ, zero, suc, ◌≡◌, ◌≢◌, refl, sym, ap, ◌∙◌, List, [], ◌∷◌, ◌++◌, arith, length, All,
}
use nordmarkt.Common.Texts.{rstrip}
use nordmarkt.Core.Errors.{ok}
use nordmarkt.Core.Pagination.{
  JsonCodec, JsonLaws, Base64, Base64Laws, Padded, pad, replicate, missing, encode_cursor,
  decode_cursor,
}

rstrip-replicate : (n c : ℕ) → rstrip c (replicate n c) ≡ []
unfolding rstrip
rstrip-replicate zero c = refl
rstrip-replicate (suc n) c = ground (arith, rstrip-replicate n c)

rstrip-append :
    (c : ℕ) (body : List ℕ) (n : ℕ)
    → All (λ x. x ≢ c) body
    → rstrip c (body ++ replicate n c) ≡ body
unfolding rstrip
rstrip-append c [] n h = rstrip-replicate n c
rstrip-append c (x ∷ []) n h = ground (arith, h.0, rstrip-append c [] n tt)
rstrip-append c (x ∷ y ∷ ys) n h = ground (arith, rstrip-append c (y ∷ ys) n h.1)

refilled :
    (text : List ℕ) (p : Padded text) → p.body ++ replicate (missing (length p.body)) pad ≡ text
refilled text p =
    let same : missing (length p.body) ≡ p.pads = omega (arith, p.filled, p.few) in
    ap (λ n. p.body ++ replicate n pad) same ∙ sym p.spelled

stripped : (text : List ℕ) (p : Padded text) → rstrip pad text ≡ p.body
stripped text p = ap (rstrip pad) p.spelled ∙ rstrip-append pad p.body p.pads p.symbols

-- A cursor that was encoded decodes to its payload.
pub decode_cursor-encode_cursor :
    {A : Type 0} (b : Base64) (j : JsonCodec A) (payload : A)
    → Base64Laws b
    → JsonLaws j
    → decode_cursor b j (encode_cursor b j payload) ≡ ok payload
unfolding decode_cursor encode_cursor
decode_cursor-encode_cursor b j payload bl jl =
    let text = b.b64encode (j.dumps payload) in
    let p = bl.encoded (j.dumps payload) in
    ground (
      arith,
      stripped text p,
      refilled text p,
      bl.decode-encode (j.dumps payload) (jl.bytes payload),
      jl.loads-dumps payload,
    )
