-- ===== src/Identity/Addresses.antt =====
-- `IdentityService.add_address` in backend/app/modules/identity/service.py: a user's default address.
use nordmarkt.Common.{
  ℕ, ◌+◌, ◌≤◌, ◌≡◌, false, ◌&&◌, List, [], ◌∷◌, ◌++◌, arith, ◌==◌, update, if◌then◌else◌,
}
use nordmarkt.Core.Errors.{ok}
use nordmarkt.Shared.UnitOfWork.{World, UnitOfWork, ◌>>=◌}
use nordmarkt.Identity.Models.{Address}
use nordmarkt.Identity.{Crypto, add_address}

-- How many default addresses a user has.
abbrev pub defaults_of : ℕ → List Address → ℕ
defaults_of k [] = 0
defaults_of k (a ∷ xs) = (if a.user_id == k && a.is_default then 1 else 0) + defaults_of k xs

abbrev unmarked : Address → Address
unmarked a = record a { is_default = false }

defaults_of-append :
    (k : ℕ) (xs : List Address) (a : Address)
    → defaults_of k (xs ++ a ∷ [])
      ≡ defaults_of k xs + (if a.user_id == k && a.is_default then 1 else 0)
defaults_of-append k [] a = ground arith
defaults_of-append k (x ∷ xs) a = ground (arith, defaults_of-append k xs a)

defaults_of-unmarked :
    (k user : ℕ) (xs : List Address)
    → defaults_of k (update (λ a. a.user_id == user) unmarked xs)
      ≡ (if user == k then 0 else defaults_of k xs)
defaults_of-unmarked k user [] = ground arith
defaults_of-unmarked k user (a ∷ xs) = ground (arith, defaults_of-unmarked k user xs)

-- Adding an address always succeeds and returns the new id. Where no user has two default addresses,
-- none has two after it.
pub add_address-defaults_of :
    (c : Crypto) (w : World) (fields : Address) (u : UnitOfWork)
    → ((k : ℕ) → defaults_of k u.session.addresses ≤ 1)
    → let (r, u') = add_address c w fields u in
      (r ≡ ok (w.uuid4 u.drawn)) × ((k : ℕ) → defaults_of k u'.session.addresses ≤ 1)
unfolding add_address ◌>>=◌
add_address-defaults_of c w fields u h =
    let xs = u.session.addresses in
    let added : Address = record fields { id = w.uuid4 u.drawn } in
    (
      ground arith,
      λ k. ground (
        arith,
        h k,
        defaults_of-unmarked k fields.user_id xs,
        defaults_of-append k xs added,
        defaults_of-append k (update (λ a. a.user_id == fields.user_id) unmarked xs) added,
      ),
    )
