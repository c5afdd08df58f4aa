-- ===== src/Api/Access/Tokens.antt =====
-- What the tokens of `start_session` (backend/app/modules/identity/service.py) open, by
-- `get_current_user` in backend/app/api/deps.py.
use nordmarkt.Common.{
  ℕ, ◌+◌, ◌≤◌, ◌<◌, ◌≡◌, refl, true, Option, none, some, List, String, arith, leb, ltb, ◌&&◌, ◌==◌,
  find, [], Bool-cases, if◌then◌else◌, inl, inr,
}
use nordmarkt.Core.Errors.{ok, err, domain, DomainError}
use nordmarkt.Shared.UnitOfWork.{World, UnitOfWork, ◌>>=◌}
use nordmarkt.Identity.Models.{User}
use nordmarkt.Identity.{Crypto, Claims, TokenPair, issue_token, decode_token, start_session}
use nordmarkt.Api.Access.{bearer_token, get_current_user}

-- What PyJWT says of tokens that are signed with the secret: they decode to their claims from the
-- second of their `iat` until they expire, and at no other time.
pub record JwtLaws (c : Crypto) : Type 0 where
  pub live :
      (n issued expires now : ℕ) (claims : Claims)
      → issued ≤ now
      → now < expires
      → c.jwt_decode now (c.jwt_encode n issued expires claims) ≡ some claims
  pub early :
      (n issued expires now : ℕ) (claims : Claims)
      → now < issued
      → c.jwt_decode now (c.jwt_encode n issued expires claims) ≡ none
  pub expired :
      (n issued expires now : ℕ) (claims : Claims)
      → expires ≤ now
      → c.jwt_decode now (c.jwt_encode n issued expires claims) ≡ none

module _ (c : Crypto) (w : World) (laws : JwtLaws c) (subject session n : ℕ)
    (roles : List String) where
  abbrev claims_of : String → List String → Claims
  claims_of typ held = record { sub = subject; typ = typ; sid = some session; roles = held }

  access-live :
      (now : ℕ)
      → w.now ≤ now
      → now < w.now + 900
      → decode_token c now (issue_token c w subject "access" roles session n) "access"
        ≡ ok (record { sub = subject; typ = "access"; sid = some session; roles = roles })
  unfolding decode_token issue_token
  access-live now from h =
      ground (arith, laws.live n w.now (w.now + 900) now (claims_of "access" roles) from h)

  access-early :
      (now : ℕ)
      → now < w.now
      → decode_token c now (issue_token c w subject "access" roles session n) "access"
        ≡ err (domain DomainError.unauthorized)
  unfolding decode_token issue_token
  access-early now h =
      ground (arith, laws.early n w.now (w.now + 900) now (claims_of "access" roles) h)

  access-expired :
      (now : ℕ)
      → w.now + 900 ≤ now
      → decode_token c now (issue_token c w subject "access" roles session n) "access"
        ≡ err (domain DomainError.unauthorized)
  unfolding decode_token issue_token
  access-expired now h =
      ground (arith, laws.expired n w.now (w.now + 900) now (claims_of "access" roles) h)

  refresh-refused :
      (now : ℕ)
      → decode_token c now (issue_token c w subject "refresh" roles session n) "access"
        ≡ err (domain DomainError.unauthorized)
  unfolding decode_token issue_token
  refresh-refused now =
      let claims = claims_of "refresh" [] in
      elim (Bool-cases (ltb now w.now)) [
        | inl soon ↦
            ground (arith, laws.early n w.now (w.now + 2592000) now claims (ground (arith, soon)))
        | inr begun ↦ elim (Bool-cases (ltb now (w.now + 2592000))) [
          | inl live ↦ ground (
            arith,
            laws.live n w.now (w.now + 2592000) now claims (ground (arith, begun))
                (ground (arith, live)),
          )
          | inr late ↦
              ground
                (arith, laws.expired n w.now (w.now + 2592000) now claims (ground (arith, late)))
        ]
      ]

get_current_user-token :
    (c : Crypto) (lower : String → String) (now : ℕ) (header : Option String) (token : String)
    (user : User) (claims : Claims) (u : UnitOfWork)
    → bearer_token lower header ≡ some token
    → decode_token c now token "access" ≡ ok claims
    → find (λ x. x.id == claims.sub) u.session.users ≡ some user
    → user.is_active ≡ true
    → get_current_user c lower now header u ≡ (ok user, u)
unfolding get_current_user ◌>>=◌
get_current_user-token c lower now header token user claims u bearer decoded there active =
    rw (bearer, decoded, there, active) refl

get_current_user-refused :
    (c : Crypto) (lower : String → String) (now : ℕ) (header : Option String) (token : String)
    (u : UnitOfWork)
    → bearer_token lower header ≡ some token
    → decode_token c now token "access" ≡ err (domain DomainError.unauthorized)
    → get_current_user c lower now header u ≡ (err (domain DomainError.unauthorized), u)
unfolding get_current_user ◌>>=◌
get_current_user-refused c lower now header token u bearer refused = rw (bearer, refused) refl

-- The tokens of a new session of a user.
abbrev pub tokens_of : Crypto → World → User → UnitOfWork → TokenPair
tokens_of c w user u =
    let session = w.uuid4 u.drawn in
    record {
      access_token = issue_token c w user.id "access" user.roles session (u.drawn + 1);
      refresh_token = issue_token c w user.id "refresh" [] session u.drawn;
      expires_in = 900;
    }

-- For an active user that the database has: a session starts, and its access token, in the header of a
-- request, is accepted as that user from the second in which the session started until 900 seconds
-- later, and refused as unauthorised before and after; the session's refresh token is refused in its
-- place at any time. Neither request changes the state.
pub start_session-access :
    (c : Crypto) (w : World) (user : User) (agent ip : Option String) (u : UnitOfWork)
    (lower : String → String) (header other : Option String) (now : ℕ)
    → JwtLaws c
    → find (λ x. x.id == user.id) u.session.users ≡ some user
    → user.is_active ≡ true
    → bearer_token lower header ≡ some (tokens_of c w user u).access_token
    → bearer_token lower other ≡ some (tokens_of c w user u).refresh_token
    → let (r, u') = start_session c w user agent ip u in
      (r ≡ ok (tokens_of c w user u))
      × (get_current_user c lower now header u' ≡ (
        (if leb w.now now && ltb now (w.now + 900)
            then ok user
            else err (domain DomainError.unauthorized)),
        u',
      ))
      × (get_current_user c lower now other u' ≡ (err (domain DomainError.unauthorized), u'))
unfolding start_session ◌>>=◌
start_session-access c w user agent ip u lower header other now laws there active bearer bearer' =
    let n = u.drawn in
    let session = w.uuid4 n in
    let pair = tokens_of c w user u in
    (
      refl,
      elim (Bool-cases (leb w.now now)) [
        | inl begun ↦ elim (Bool-cases (ltb now (w.now + 900))) [
          | inl soon ↦
              rw (begun, soon)
                (get_current_user-token c lower now header pair.access_token user _ _ bearer
                  (access-live c w laws user.id session (n + 1) user.roles now
                    (ground (arith, begun)) (ground (arith, soon)))
                  there active)
          | inr late ↦
              rw (begun, late)
                (get_current_user-refused c lower now header pair.access_token _ bearer (
                  access-expired c w laws user.id session (n + 1) user.roles now
                    (ground (arith, late))))
        ]
        | inr early ↦ rw early (
            get_current_user-refused c lower now header pair.access_token _ bearer (
              access-early c w laws user.id session (n + 1) user.roles now (ground (arith, early))))
      ],
      get_current_user-refused c lower now other pair.refresh_token _ bearer'
          (refresh-refused c w laws user.id session n [] now),
    )
