-- ===== src/Api/Accounts.antt =====
-- backend/app/api/routers/identity.py: signing up and in, and the user's own data.
use nordmarkt.Common.{ℕ, Option, none, some, List, String, ◌==◌, find, select}
use nordmarkt.Common.Texts.{truthy}
use nordmarkt.Core.Errors.{Exception, Result}
use nordmarkt.Shared.Database.{Database}
use nordmarkt.Shared.UnitOfWork.{
  World, Action, ◌>>=◌, ◌>>◌, pure, or_raise, gets, commit, within_transaction,
}
use nordmarkt.Cart.{merge_guest_cart}
use nordmarkt.Identity.Models.{User, Address}
use nordmarkt.Identity.{Crypto, TokenPair, register, authenticate, start_session, add_address}

-- The user of a reference that a call returned.
abbrev pub load_user : ℕ → Action User
load_user id = do
  users ← gets (λ db. db.users)
  or_raise Exception.detached_instance (find (λ u. u.id == id) users)

-- `register`, with the request's user agent and address; `TokenOut` has the fields of the pair.
unfoldable pub register_account :
    Crypto
    → World
    → String
    → String
    → String
    → String
    → Option String
    → Option String
    → Database
    → ℕ
    → Result TokenPair × Database
register_account c w email password full_name locale agent ip = within_transaction do
  id ← register c w email password full_name locale
  user ← load_user id
  tokens ← start_session c w user agent ip
  commit w
  pure tokens

-- `if nm_cart: await carts.merge_guest_cart(...)`
abbrev pub merge_cookie : World → ℕ → Option String → Action (Unit {0})
merge_cookie w user nm_cart = elim (truthy nm_cart) [
  | none ↦ pure tt
  | some token ↦ merge_guest_cart w user token >> pure tt
]

-- `login`
unfoldable pub login :
    Crypto
    → World
    → String
    → String
    → Option String
    → Option String
    → Option String
    → Database
    → ℕ
    → Result TokenPair × Database
login c w email password nm_cart agent ip = within_transaction do
  id ← authenticate c w email password
  merge_cookie w id nm_cart
  user ← load_user id
  tokens ← start_session c w user agent ip
  commit w
  pure tokens

pub record UserOut : Type 0 where
  pub id : ℕ
  pub email : String
  pub full_name : String
  pub preferred_locale : String
  pub roles : List String

-- `me`
abbrev pub me : User → UserOut
me user = record {
  id = user.id;
  email = user.email;
  full_name = user.full_name;
  preferred_locale = user.preferred_locale;
  roles = user.roles;
}

-- `list_addresses`: `AddressOut` has every field of the row but the user's id.
abbrev pub list_addresses : User → Database → List Address
list_addresses user db = select (λ a. a.user_id == user.id) db.addresses

-- `add_address`, of the payload with the user's id: the new address.
unfoldable pub create_address : Crypto → World → Address → Database → ℕ → Result Address × Database
create_address c w payload =
    within_transaction do id ← add_address c w payload; commit w; pure (record payload { id = id })
