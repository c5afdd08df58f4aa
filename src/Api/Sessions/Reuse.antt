-- ===== src/Api/Sessions/Reuse.antt =====
-- What a second use of a refresh token does, by `refresh` in backend/app/api/routers/identity.py.
use nordmarkt.Common.{
  ℕ, ◌+◌, ◌≡◌, refl, true, false, none, some, List, [], ◌∷◌, ◌++◌, String, arith, ltb, ◌==◌, str_eq,
  is_none, find, modify, ◌⊎◌, inl,
}
use nordmarkt.Core.Errors.{ok, err, domain, DomainError}
use nordmarkt.Shared.Database.{Database}
use nordmarkt.Shared.UnitOfWork.{World, ◌>>=◌, commit, within_transaction}
use nordmarkt.Identity.Models.{User, SessionToken}
use nordmarkt.Identity.{
  Crypto, Claims, decode_token, rotate, revoke_all, start_session, issue_token, revoked,
  refresh_token_ttl,
}
use nordmarkt.Api.Sessions.{refresh}

module _ (c : Crypto) (w : World) (token : String) (claims : Claims) (sid : ℕ) (t : SessionToken)
    (db : Database) (n : ℕ) where
  -- A refresh token that is presented again after it was retired, or whose record holds another
  -- token's hash, is refused, and the stored database is as it was: no session is revoked.
  pub refresh_reused :
      decode_token c w.now token "refresh" ≡ ok claims
      → claims.sid ≡ some sid
      → find (λ x. x.id == sid) db.session_tokens ≡ some t
      → (is_none t.revoked_at ≡ false) ⊎ (str_eq t.token_hash (c.sha256 token) ≡ false)
      → refresh c w token db n ≡ (err (domain DomainError.unauthorized), db)
  unfolding refresh rotate revoke_all within_transaction ◌>>=◌
  refresh_reused d s f why = ground arith

found_id :
    (sid : ℕ) (t : SessionToken) (ts : List SessionToken)
    → find (λ x. x.id == sid) ts ≡ some t
    → t.id ≡ sid
found_id sid t [] e = ground arith
found_id sid t (x ∷ xs) e = ground (arith, found_id sid t xs)

find_modified :
    (w : World) (c : Crypto) (sid : ℕ) (t : SessionToken) (ts more : List SessionToken)
    → find (λ x. x.id == sid) ts ≡ some t
    → t.id ≡ sid
    → find (λ x. x.id == sid) (modify (λ x. x.id == t.id) (revoked c w) ts ++ more)
      ≡ some (revoked c w t)
find_modified w c sid t [] more e same = ground arith
find_modified w c sid t (x ∷ xs) more e same = ground (arith, find_modified w c sid t xs more)

-- The row that a refresh adds: the n-th draw names it.
abbrev pub renewed : Crypto → World → SessionToken → User → ℕ → SessionToken
renewed c w t user n = record {
  id = w.uuid4 n;
  user_id = user.id;
  token_hash = c.sha256 (issue_token c w user.id "refresh" [] (w.uuid4 n) n);
  user_agent = c.cut_agent t.user_agent;
  ip_address = t.ip_address;
  expires_at = w.now + refresh_token_ttl;
  revoked_at = none;
}

-- The record of the token that is presented, which is live, and its user.
pub record Live (c : Crypto) (w : World) (token : String) (claims : Claims) (sid : ℕ)
    (t : SessionToken) (user : User) (db : Database) : Type 0 where
  pub decoded : decode_token c w.now token "refresh" ≡ ok claims
  pub session : claims.sid ≡ some sid
  pub stored : find (λ x. x.id == sid) db.session_tokens ≡ some t
  pub genuine : str_eq t.token_hash (c.sha256 token) ≡ true
  pub unrevoked : is_none t.revoked_at ≡ true
  pub unexpired : ltb t.expires_at w.now ≡ false
  pub owner : find (λ u. u.id == t.user_id) db.users ≡ some user
  pub active : user.is_active ≡ true

module _ (c : Crypto) (w : World) (token : String) (claims : Claims) (sid : ℕ) (t : SessionToken)
    (user : User) (db : Database) (n : ℕ) where
  -- A live token of an active user is exchanged: its record is retired, and one record is added, of
  -- the new token, with the whole lifetime before it.
  pub refresh_granted :
      Live c w token claims sid t user db
      → let (r, db') = refresh c w token db n in
        ((a : String) × (r
            ≡ ok (record {
              access_token = a;
              refresh_token = issue_token c w user.id "refresh" [] (w.uuid4 n) n;
              expires_in = 900;
            })))
        × (db'.session_tokens
            ≡ modify (λ x. x.id == t.id) (revoked c w) db.session_tokens
              ++ renewed c w t user n ∷ [])
  unfolding refresh rotate start_session within_transaction commit ◌>>=◌
  refresh_granted h = (
    (issue_token c w user.id "access" user.roles (w.uuid4 n) (n + 1), ground arith),
    ground arith,
  )

  -- A token that has been exchanged is refused the next time, at any later state of the clock at
  -- which it still decodes, and nothing is written.
  pub refresh_twice :
      (w' : World) (m : ℕ)
      → Live c w token claims sid t user db
      → decode_token c w'.now token "refresh" ≡ ok claims
      → let (_, db') = refresh c w token db n in
        refresh c w' token db' m ≡ (err (domain DomainError.unauthorized), db')
  refresh_twice w' m h d =
      refresh_reused c w' token claims sid (revoked c w t) (refresh c w token db n).1 m d h.session
        (rw (refresh_granted h).1 (
          find_modified w c sid t db.session_tokens _ h.stored
            (found_id sid t db.session_tokens h.stored)))
        (inl refl)
