-- ===== src/Identity.antt =====
-- backend/app/modules/identity/service.py: `IdentityService`, and the token functions of
-- backend/app/core/security.py that it calls.
pub mod Models
pub mod Addresses
use nordmarkt.Common.{
  ℕ, ◌+◌, Bool, true, false, ◌&&◌, ◌||◌, not, Option, none, some, List, [], ◌∷◌, ◌++◌, String, ltb,
  ◌==◌, str_eq, if◌then◌else◌, is_none, select, find, modify, update,
}
use nordmarkt.Core.Errors.{Result, ok, err, Exception, domain, DomainError}
use nordmarkt.Shared.UnitOfWork.{
  World, Action, ◌>>=◌, ◌>>◌, pure, raise, raise_if, gets, or_raise, lift, write, draw,
}
use Models.{User, Address, SessionToken}

-- The claims of a token that the services read. `sid` is that of a session, if there is one.
pub record Claims : Type 0 where
  pub sub : ℕ
  pub typ : String
  pub sid : Option ℕ
  pub roles : List String

-- What the code takes from argon2, PyJWT, hashlib and Python's texts. An encoded token has the
-- number of the random draw of its `jti`, its `iat` and its `exp`; `jwt_decode` gives nothing for a
-- token whose `iat` is still to come, that has expired or that is not valid.
pub record Crypto : Type 0 where
  pub hash_password : ℕ → String → String
  pub verify : String → String → Bool
  pub check_needs_rehash : String → Bool
  pub jwt_encode : ℕ → ℕ → ℕ → Claims → String
  pub jwt_decode : ℕ → String → Option Claims
  pub sha256 : String → String
  pub normalise : String → String
  pub strip : String → String
  pub cut_agent : Option String → Option String

-- The lifetimes of tokens in the settings, in seconds.
abbrev pub access_token_ttl : ℕ
access_token_ttl = 900

abbrev pub refresh_token_ttl : ℕ
refresh_token_ttl = 2592000

-- `issue_token`
unfoldable pub issue_token : Crypto → World → ℕ → String → List String → ℕ → ℕ → String
issue_token c w subject typ roles session_id n =
    let ttl = if str_eq typ "access" then access_token_ttl else refresh_token_ttl in
    c.jwt_encode n w.now (w.now + ttl) (record {
      sub = subject;
      typ = typ;
      sid = some session_id;
      roles = if str_eq typ "access" then roles else [];
    })

-- `decode_token`
unfoldable pub decode_token : Crypto → ℕ → String → String → Result Claims
decode_token c now token expected = elim (c.jwt_decode now token) [
  | none ↦ err (domain DomainError.unauthorized)
  | some claims ↦
      if str_eq claims.typ expected then ok claims else err (domain DomainError.unauthorized)
]

pub record TokenPair : Type 0 where
  pub access_token : String
  pub refresh_token : String
  pub expires_in : ℕ

abbrev pub has_email : String → User → Bool
has_email email u = str_eq u.email email

module _ (c : Crypto) (w : World) where
  -- The e-mail address is unique in the table.
  unfoldable pub register : String → String → String → String → Action ℕ
  register email password full_name locale = do
    users ← gets (λ db. db.users)
    raise_if (not (is_none (find (has_email (c.normalise email)) users)))
        (domain DomainError.conflict)
    n ← draw
    write (λ db. record db {
      users =
          db.users
          ++ record {
            id = w.uuid4 n;
            email = c.normalise email;
            password_hash = c.hash_password n password;
            full_name = c.strip full_name;
            preferred_locale = locale;
            roles = "customer" ∷ [];
            is_active = true;
          }
            ∷ [];
    })
    pure (w.uuid4 n)

  -- The password hash is renewed where its parameters are old.
  abbrev pub refresh_hash : User → String → Action (Unit {0})
  refresh_hash user password = do
    n ← draw
    write (λ db. record db {
      users =
          modify (λ u. u.id == user.id)
            (λ u. record u { password_hash = c.hash_password n password }) db.users;
    })

  -- `authenticate` returns the user's id. The hash that is made for an unknown address is thrown
  -- away.
  unfoldable pub authenticate : String → String → Action ℕ
  authenticate email password = do
    users ← gets (λ db. db.users)
    user ← or_raise (domain DomainError.unauthorized) (find (has_email (c.normalise email)) users)
    raise_if (not (c.verify password user.password_hash)) (domain DomainError.unauthorized)
    raise_if (not user.is_active) (domain DomainError.unauthorized)
    if c.check_needs_rehash user.password_hash then refresh_hash user password else pure tt
    pure user.id

  unfoldable pub start_session : User → Option String → Option String → Action TokenPair
  start_session user user_agent ip = do
    n ← draw
    let refresh = issue_token c w user.id "refresh" [] (w.uuid4 n) n
    write (λ db. record db {
      session_tokens =
          db.session_tokens
          ++ record {
            id = w.uuid4 n;
            user_id = user.id;
            token_hash = c.sha256 refresh;
            user_agent = c.cut_agent user_agent;
            ip_address = ip;
            expires_at = w.now + refresh_token_ttl;
            revoked_at = none;
          }
            ∷ [];
    })
    m ← draw
    pure (record {
      access_token = issue_token c w user.id "access" user.roles (w.uuid4 n) m;
      refresh_token = refresh;
      expires_in = access_token_ttl;
    })

  abbrev pub revoked : SessionToken → SessionToken
  revoked t = record t { revoked_at = some w.now }

  -- `_revoke_all`
  unfoldable pub revoke_all : ℕ → Action (Unit {0})
  revoke_all user_id = write λ db. record db {
    session_tokens =
        update (λ t. t.user_id == user_id && is_none t.revoked_at) revoked db.session_tokens;
  }

  unfoldable pub sign_out : ℕ → Action (Unit {0})
  sign_out session_id = write λ db. record db {
    session_tokens =
        update (λ t. t.id == session_id && is_none t.revoked_at) revoked db.session_tokens;
  }

  -- The token is not the one that the record was made for, or there is no record.
  abbrev pub check_record : String → Option SessionToken → Action SessionToken
  check_record token none = raise (domain DomainError.unauthorized)
  check_record token (some t) =
      if str_eq t.token_hash (c.sha256 token)
      then pure t
      else (revoke_all t.user_id >> raise (domain DomainError.unauthorized))

  unfoldable pub rotate : String → Action TokenPair
  rotate token = do
    claims ← lift (decode_token c w.now token "refresh")
    session_id ← or_raise Exception.value_error claims.sid
    tokens ← gets (λ db. db.session_tokens)
    t ← check_record token (find (λ t. t.id == session_id) tokens)
    raise_if (not (is_none t.revoked_at) || ltb t.expires_at w.now)
        (domain DomainError.unauthorized)
    users ← gets (λ db. db.users)
    user ← or_raise (domain DomainError.unauthorized) (find (λ u. u.id == t.user_id) users)
    raise_if (not user.is_active) (domain DomainError.unauthorized)
    write
        (λ db. record db { session_tokens = modify (λ x. x.id == t.id) revoked db.session_tokens })
    start_session user t.user_agent t.ip_address

  -- `add_address`: a new default address takes the mark off the user's others.
  unfoldable pub add_address : Address → Action ℕ
  add_address fields = do
    if fields.is_default
        then write (λ db. record db {
          addresses =
              update (λ a. a.user_id == fields.user_id) (λ a. record a { is_default = false })
                db.addresses;
        })
        else pure tt
    n ← draw
    write (λ db. record db { addresses = db.addresses ++ record fields { id = w.uuid4 n } ∷ [] })
    pure (w.uuid4 n)

-- `get_user`
unfoldable pub get_user : ℕ → Action User
get_user user_id = do
  users ← gets (λ db. db.users)
  or_raise (domain DomainError.not_found) (find (λ u. u.id == user_id) users)
