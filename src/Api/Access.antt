-- ===== src/Api/Access.antt =====
-- backend/app/api/deps.py: who a request comes from, and what the user may do.
pub mod Tokens
use nordmarkt.Common.{
  ℕ, Bool, true, false, not, Option, none, some, List, [], ◌∷◌, String, str_eq, ◌==◌, if◌then◌else◌,
  find, any,
}
use nordmarkt.Common.Texts.{truthy, starts_with, cut}
use nordmarkt.Core.Errors.{Result, ok, err, domain, DomainError, Exception}
use nordmarkt.Shared.UnitOfWork.{
  UnitOfWork, Action, ◌>>=◌, ◌>>◌, pure, raise_if, gets, or_raise, lift,
}
use nordmarkt.Identity.Models.{User, has_role}
use nordmarkt.Identity.{Crypto, decode_token}

-- The token of an Authorization header, if there is one. A text whose lower case starts with
-- "bearer " has a space to be split at.
unfoldable pub bearer_token : (String → String) → Option String → Option String
bearer_token lower authorization = elim (truthy authorization) [
  | none ↦ none
  | some header ↦ if starts_with (lower header) "bearer " then some (cut b' ' header).1 else none
]

-- `get_current_user`, at a time; `lower` is `str.lower`.
unfoldable pub get_current_user : Crypto → (String → String) → ℕ → Option String → Action User
get_current_user c lower now authorization = do
  token ← or_raise (domain DomainError.unauthorized) (bearer_token lower authorization)
  claims ← lift (decode_token c now token "access")
  users ← gets (λ db. db.users)
  user ← or_raise (domain DomainError.unauthorized) (find (λ u. u.id == claims.sub) users)
  raise_if (not user.is_active) (domain DomainError.unauthorized)
  pure user

-- `except UnauthorizedError: return None`
abbrev pub unless_unauthorized : Result User × UnitOfWork → Result (Option User) × UnitOfWork
unless_unauthorized (ok user, u) = (ok (some user), u)
unless_unauthorized (err (domain DomainError.unauthorized), u) = (ok none, u)
unless_unauthorized (err e, u) = (err e, u)

-- `get_optional_user`
unfoldable pub get_optional_user :
    Crypto → (String → String) → ℕ → Option String → Action (Option User)
unfolding get_current_user
get_optional_user c lower now authorization u = elim (truthy authorization) [
  | none ↦ (ok none, u)
  | some header ↦ unless_unauthorized (get_current_user c lower now (some header) u)
]

-- The guard of `require_roles`.
unfoldable pub require_roles : List String → User → Result User
unfolding has_role
require_roles roles user =
    if any (λ role. has_role role user) roles then ok user else err (domain DomainError.forbidden)
