-- ===== src/Core/Errors.antt =====
-- backend/app/core/errors.py: the error taxonomy, and the other exceptions that the modelled code
-- can raise.
use nordmarkt.Common.{ℕ, String, ◌≡◌, refl, arith, List, [], ◌∷◌}

-- The subclasses of `DomainError`; a context that the code reads back is a field.
pub data DomainError : Type 0 where
  generic not_found validation_failed unauthorized forbidden : DomainError
  conflict cart_empty payment_declined idempotency_conflict price_changed : DomainError
  insufficient_stock : ℕ → ℕ → DomainError

-- What an operation can raise: a domain error, a violated constraint of the database, or an
-- exception of Python and its decimal module.
pub data Exception : Type 0 where
  domain : DomainError → Exception
  integrity_error data_error : Exception
  value_error key_error invalid_operation detached_instance attribute_error : Exception

unfoldable pub code : DomainError → String
code DomainError.generic = "domain_error"
code DomainError.not_found = "not_found"
code DomainError.validation_failed = "validation_failed"
code DomainError.unauthorized = "unauthorized"
code DomainError.forbidden = "forbidden"
code DomainError.conflict = "conflict"
code DomainError.cart_empty = "cart_empty"
code DomainError.payment_declined = "payment_declined"
code DomainError.idempotency_conflict = "idempotency_conflict"
code DomainError.price_changed = "price_changed"
code (DomainError.insufficient_stock _ _) = "insufficient_stock"

-- A subclass that sets no `status_code` has its parent's.
unfoldable pub status_code : DomainError → ℕ
status_code DomainError.generic = 400
status_code DomainError.not_found = 404
status_code DomainError.validation_failed = 422
status_code DomainError.unauthorized = 401
status_code DomainError.forbidden = 403
status_code DomainError.conflict = 409
status_code DomainError.cart_empty = 422
status_code DomainError.payment_declined = 409
status_code DomainError.idempotency_conflict = 409
status_code DomainError.price_changed = 409
status_code (DomainError.insufficient_stock _ _) = 409

pub data Result {ℓ} (A : Type ℓ) : Type ℓ where
  ok : A → Result A
  err : Exception → Result A

infixl 5 ◌>>=◌
abbrev pub ◌>>=◌ {ℓ κ} : {A : Type ℓ} {B : Type κ} → Result A → (A → Result B) → Result B
ok a >>= f = f a
err e >>= f = err e

-- A list made by a comprehension whose body can raise.
abbrev pub traverse {ℓ κ} : {A : Type ℓ} {B : Type κ} → (A → Result B) → List A → Result (List B)
traverse f [] = ok []
traverse f (x ∷ xs) = f x >>= λ y. traverse f xs >>= λ ys. ok (y ∷ ys)

-- A computation that succeeds has succeeded at each of its steps.
pub bind-ok {ℓ κ} :
    {A : Type ℓ} {B : Type κ} (r : Result A) (f : A → Result B) (y : B)
    → (r >>= f) ≡ ok y
    → (x : A) × (r ≡ ok x) × (f x ≡ ok y)
bind-ok (ok x) f y e = (x, refl, e)
bind-ok (err x) f y e = ground (arith, e)
