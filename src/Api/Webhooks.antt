-- ===== src/Api/Webhooks.antt =====
-- backend/app/api/routers/webhooks.py: the provider's callback.
pub mod Once
use nordmarkt.Common.{
  ℕ, Bool, true, false, Option, none, some, String, str_eq, ◌==◌, if◌then◌else◌, find, ◌&&◌, not,
}
use nordmarkt.Shared.UnitOfWork.{World, Action, ◌>>=◌, ◌>>◌, pure, gets, commit}
use nordmarkt.Orders.Models.{Order}
use nordmarkt.Orders.{mark_paid}
use nordmarkt.Payments.{PaymentGateway, capture, record_webhook}

-- The body of a callback: `str(body.get("event_id", ""))`, and whether `reference` is there.
pub record Callback : Type 0 where
  pub event_id : String
  pub type : String
  pub reference : Option String

abbrev pub bad_request : ℕ
bad_request = 400

abbrev pub accepted : ℕ
accepted = 202

-- The order of a payment is marked as paid, if there is one.
abbrev pub pay_order : World → Option Order → String → Action (Unit {0})
pay_order w none reference = pure tt
pay_order w (some order) reference = mark_paid w order.id reference

abbrev pub named : Option String → Option String
named none = none
named (some r) = if str_eq r "" then none else some r

-- What a callback that has not been handled before does.
abbrev pub apply_callback : World → PaymentGateway → String → Option String → Action (Unit {0})
apply_callback w g type none = pure tt
apply_callback w g type (some reference) =
    if str_eq type "payment.captured"
    then (do
      payment ← capture w g reference
      orders ← gets (λ db. db.orders)
      pay_order w (find (λ o. o.id == payment.order_id) orders) reference)
    else pure tt

-- `payment_callback` returns the status of its response.
unfoldable pub payment_callback : World → PaymentGateway → String → Callback → Action ℕ
payment_callback w g provider body = if str_eq body.event_id "" then pure bad_request else (do
  fresh ← record_webhook provider body.event_id
  if fresh
      then (apply_callback w g body.type (named body.reference) >> commit w >> pure accepted)
      else pure accepted)
