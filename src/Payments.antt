-- ===== src/Payments.antt =====
-- backend/app/modules/payments/service.py: the gateway's protocol, the sandbox and
-- `PaymentService`.
pub mod Models
use nordmarkt.Common.{
  ℕ, Bool, true, false, ◌&&◌, not, Option, none, some, List, [], ◌∷◌, ◌++◌, String, ◌==◌, str_eq,
  if◌then◌else◌, select, find, modify, any,
}
use nordmarkt.Common.Int.{ℤ}
use nordmarkt.Core.Errors.{
  Result, ok, err, Exception, domain, DomainError, detached_instance, integrity_error,
}
use nordmarkt.Shared.UnitOfWork.{
  World, Action, ◌>>=◌, ◌>>◌, pure, raise, raise_if, gets, or_raise, write, draw, session_rollback,
}
use nordmarkt.Orders.Models.{Order}
use Models.{Payment, PaymentStatus, ProcessedWebhook}

pub record ChargeIntent : Type 0 where
  pub reference : String
  pub redirect_url : String
  pub status : PaymentStatus

-- `PaymentGateway`: an adapter of a provider. The number is that of the intent's random draw.
pub record PaymentGateway : Type 0 where
  pub name : String
  pub create_intent : ℕ → ℤ → String → String → ChargeIntent
  pub capture : String → Bool

-- What the sandbox takes from Python's standard library: `str.endswith`, `str.startswith` and the
-- f-strings of its reference and its URL.
pub record Texts : Type 0 where
  pub ends_with_nine : String → Bool
  pub starts_with_sbx : String → Bool
  pub sbx_reference : ℕ → String
  pub pay_url : String → String

-- `SandboxGateway`
abbrev pub sandbox_gateway : Texts → PaymentGateway
sandbox_gateway t = record {
  name = "swish_sandbox";
  create_intent = λ n amount currency order_number. record {
    reference = t.sbx_reference n;
    redirect_url = t.pay_url (t.sbx_reference n);
    status =
        if t.ends_with_nine order_number then PaymentStatus.failed else PaymentStatus.authorized;
  };
  capture = t.starts_with_sbx;
}

abbrev pub is_failed : PaymentStatus → Bool
is_failed PaymentStatus.failed = true
is_failed _ = false

abbrev pub is_captured : PaymentStatus → Bool
is_captured PaymentStatus.captured = true
is_captured _ = false

abbrev pub is_authorized : PaymentStatus → Bool
is_authorized PaymentStatus.authorized = true
is_authorized _ = false

abbrev pub new_payment : World → PaymentGateway → ℕ → Order → ChargeIntent → Payment
new_payment w g n order intent = record {
  id = w.uuid4 n;
  order_id = order.id;
  provider = g.name;
  provider_reference = intent.reference;
  status = intent.status;
  amount_minor_units = order.total_minor_units;
  currency = order.currency;
  failure_reason = none;
  captured_at = none;
  redirect_url = intent.redirect_url;
}

abbrev pub has_reference : String → Payment → Bool
has_reference reference p = str_eq p.provider_reference reference

abbrev pub set_payment : String → (Payment → Payment) → Action (Unit {0})
set_payment reference f =
    write λ db. record db { payments = modify (has_reference reference) f db.payments }

-- `start`; a reference that is taken breaks the unique constraint at the flush.
unfoldable pub start : World → PaymentGateway → Order → Action Payment
start w g order = do
  n ← draw
  let intent = g.create_intent n order.total_minor_units order.currency order.order_number
  payments ← gets (λ db. db.payments)
  raise_if (any (has_reference intent.reference) payments) integrity_error
  let payment = new_payment w g n order intent
  write (λ db. record db { payments = db.payments ++ payment ∷ [] })
  if is_failed intent.status
      then set_payment intent.reference
          (λ p. record p { failure_reason = some "declined_by_issuer" })
        >> raise (domain DomainError.payment_declined)
      else pure payment

-- The last steps of `capture`, by the gateway's answer.
abbrev pub settle : World → String → Payment → Bool → Action Payment
settle w reference payment false =
    set_payment reference
      (λ p. record p { status = PaymentStatus.failed; failure_reason = some "capture_rejected" })
    >> raise (domain DomainError.payment_declined)
settle w reference payment true =
    set_payment reference
      (λ p. record p { status = PaymentStatus.captured; captured_at = some w.now })
    >> pure payment

-- `capture`; what it returns is read for its order only.
unfoldable pub capture : World → PaymentGateway → String → Action Payment
capture w g reference = do
  payments ← gets (λ db. db.payments)
  payment ← or_raise (domain DomainError.not_found) (find (has_reference reference) payments)
  if is_captured payment.status
      then pure payment
      else raise_if (not (is_authorized payment.status)) (domain DomainError.conflict)
        >> settle w reference payment (g.capture reference)

abbrev pub is_webhook : String → String → ProcessedWebhook → Bool
is_webhook provider event_id h = str_eq h.provider provider && str_eq h.event_id event_id

-- `record_webhook`: the insertion of a pair that is there breaks the unique constraint, and the
-- session is rolled back.
unfoldable pub record_webhook : String → String → Action Bool
record_webhook provider event_id = do
  webhooks ← gets (λ db. db.webhooks)
  if any (is_webhook provider event_id) webhooks
      then session_rollback >> pure false
      else write (λ db. record db {
        webhooks = db.webhooks ++ record { provider = provider; event_id = event_id } ∷ [];
      })
        >> pure true
