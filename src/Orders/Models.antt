-- ===== src/Orders/Models.antt =====
-- backend/app/modules/orders/models.py: the order's state machine, orders and their lines.
use nordmarkt.Common.{ℕ, Option, String, Bool, true, false, if◌then◌else◌}
use nordmarkt.Common.Int.{ℤ}
use nordmarkt.Core.Errors.{Result, ok, err, domain, DomainError}
use nordmarkt.Catalog.Models.{Translations}
use nordmarkt.Identity.Models.{AddressSnapshot}

pub data OrderStatus : Type 0 where
  pending_payment paid packing shipped delivered cancelled refunded : OrderStatus

-- `target in ALLOWED_TRANSITIONS[status]`
unfoldable pub is_allowed : OrderStatus → OrderStatus → Bool
is_allowed OrderStatus.pending_payment OrderStatus.paid = true
is_allowed OrderStatus.pending_payment OrderStatus.cancelled = true
is_allowed OrderStatus.paid OrderStatus.packing = true
is_allowed OrderStatus.paid OrderStatus.cancelled = true
is_allowed OrderStatus.paid OrderStatus.refunded = true
is_allowed OrderStatus.packing OrderStatus.shipped = true
is_allowed OrderStatus.packing OrderStatus.cancelled = true
is_allowed OrderStatus.shipped OrderStatus.delivered = true
is_allowed OrderStatus.shipped OrderStatus.refunded = true
is_allowed OrderStatus.delivered OrderStatus.refunded = true
is_allowed _ _ = false

pub record Order : Type 0 where
  pub id : ℕ
  pub order_number : String
  pub customer_id : ℕ
  pub status : OrderStatus
  pub currency : String
  pub locale : String
  pub subtotal_minor_units : ℤ
  pub vat_minor_units : ℤ
  pub shipping_minor_units : ℤ
  pub discount_minor_units : ℤ
  pub total_minor_units : ℤ
  pub shipping_address : AddressSnapshot
  pub billing_address : AddressSnapshot
  pub shipping_method : String
  pub created_at : ℕ
  pub placed_at : Option ℕ
  pub paid_at : Option ℕ
  pub cancelled_at : Option ℕ
  pub cancellation_reason : Option String

-- A refused transition raises and leaves the order alone.
unfoldable pub transition_to : OrderStatus → Order → Result Order
unfolding is_allowed
transition_to target order =
    if is_allowed order.status target
    then ok (record order { status = target })
    else err (domain DomainError.conflict)

pub record OrderItem : Type 0 where
  pub id : ℕ
  pub order_id : ℕ
  pub variant_id : ℕ
  pub sku : String
  pub title_snapshot : Translations
  pub options_snapshot : Translations
  pub image_url : Option String
  pub quantity : ℕ
  pub unit_price_minor_units : ℕ
  pub vat_rate : ℕ
  pub line_total_minor_units : ℤ
