-- ===== src/Payments/Models.antt =====
-- backend/app/modules/payments/models.py: payments and the handled provider callbacks.
use nordmarkt.Common.{ℕ, Option, String}
use nordmarkt.Common.Int.{ℤ}

pub data PaymentStatus : Type 0 where
  initiated authorized captured failed refunded : PaymentStatus

pub record Payment : Type 0 where
  pub id : ℕ
  pub order_id : ℕ
  pub provider : String
  pub provider_reference : String
  pub status : PaymentStatus
  pub amount_minor_units : ℤ
  pub currency : String
  pub failure_reason : Option String
  pub captured_at : Option ℕ
  pub redirect_url : String

-- The pair is unique in the table.
pub record ProcessedWebhook : Type 0 where
  pub provider : String
  pub event_id : String
