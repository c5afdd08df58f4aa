-- ===== src/Migrations/Labels.antt =====
-- backend/app/modules/orders/models.py and payments/models.py: the names and the values of the
-- enumerations of statuses, and the labels of the types that the migrations create for them.
use nordmarkt.Common.{◌≡◌, refl, true, false, Bool, List, [], ◌∷◌, String, str_eq, if◌then◌else◌}
use nordmarkt.Common.Texts.{mem_text}
use nordmarkt.Orders.Models.{OrderStatus}
use nordmarkt.Payments.Models.{PaymentStatus}
use nordmarkt.Migrations.Statements.{Statement, create_enum}
use nordmarkt.Migrations.Initial

-- `OrderStatus`, each member's name and value
unfoldable pub order_member : OrderStatus → String × String
order_member OrderStatus.pending_payment = ("PENDING_PAYMENT", "pending_payment")
order_member OrderStatus.paid = ("PAID", "paid")
order_member OrderStatus.packing = ("PACKING", "packing")
order_member OrderStatus.shipped = ("SHIPPED", "shipped")
order_member OrderStatus.delivered = ("DELIVERED", "delivered")
order_member OrderStatus.cancelled = ("CANCELLED", "cancelled")
order_member OrderStatus.refunded = ("REFUNDED", "refunded")

-- `PaymentStatus`
unfoldable pub payment_member : PaymentStatus → String × String
payment_member PaymentStatus.initiated = ("INITIATED", "initiated")
payment_member PaymentStatus.authorized = ("AUTHORIZED", "authorized")
payment_member PaymentStatus.captured = ("CAPTURED", "captured")
payment_member PaymentStatus.failed = ("FAILED", "failed")
payment_member PaymentStatus.refunded = ("REFUNDED", "refunded")

-- The labels under which a script creates a type.
abbrev pub labels_of : String → List Statement → List String
labels_of name [] = []
labels_of name (create_enum n labels ∷ script) =
    if str_eq n name then labels else labels_of name script
labels_of name (_ ∷ script) = labels_of name script

order_known :
    (v : Bool) (s : OrderStatus)
    → mem_text
        (if v then (order_member s).1 else (order_member s).0)
        (labels_of "order_status" Initial.upgrade)
      ≡ v
unfolding order_member Initial.upgrade
order_known true OrderStatus.paid = refl
order_known true _ = refl
order_known false OrderStatus.paid = refl
order_known false _ = refl

payment_known :
    (v : Bool) (s : PaymentStatus)
    → mem_text
        (if v then (payment_member s).1 else (payment_member s).0)
        (labels_of "payment_status" Initial.upgrade)
      ≡ v
unfolding payment_member Initial.upgrade
payment_known true PaymentStatus.failed = refl
payment_known true _ = refl
payment_known false PaymentStatus.failed = refl
payment_known false _ = refl

-- `stored` is the text that SQLAlchemy's `Enum` sends for a member of a name and a value.
module _ (stored : String × String → String) where
  -- A status is a label of the type in the database exactly where `Enum` sends its value; where it
  -- sends the name, as it does unless it is told otherwise, the database knows none of the statuses.
  pub statuses_known :
      (sends_value : Bool)
      → ((m : String × String) → stored m ≡ (if sends_value then m.1 else m.0))
      → ((s : OrderStatus)
          → mem_text (stored (order_member s)) (labels_of "order_status" Initial.upgrade)
            ≡ sends_value)
        × ((s : PaymentStatus)
            → mem_text (stored (payment_member s)) (labels_of "payment_status" Initial.upgrade)
              ≡ sends_value)
  statuses_known v h = (
    λ s. rw (h (order_member s)) (order_known v s),
    λ s. rw (h (payment_member s)) (payment_known v s),
  )
