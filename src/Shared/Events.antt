-- ===== src/Shared/Events.antt =====
-- backend/app/shared/events.py: the domain events and their payloads.
use nordmarkt.Common.{ℕ, String, List, [], ◌∷◌, Option, none, some, str_eq, if◌then◌else◌}
use nordmarkt.Common.Int.{ℤ, pos}

-- The fields of each dataclass beside those of `DomainEvent`.
pub data EventBody : Type 0 where
  order_placed :
      (order_number : String) (customer_id : ℕ) (total_minor_units : ℤ) (currency locale : String)
      → EventBody
  order_paid : (order_number payment_reference : String) → EventBody
  order_cancelled : (order_number reason : String) → EventBody
  stock_reserved : (variant_id quantity reservation_id : ℕ) → EventBody
  stock_ran_low : (variant_id remaining threshold : ℕ) → EventBody

pub record DomainEvent : Type 0 where
  pub aggregate_id : ℕ
  pub occurred_at : ℕ
  pub body : EventBody

abbrev pub aggregate_type : EventBody → String
aggregate_type (EventBody.order_placed _ _ _ _ _) = "order"
aggregate_type (EventBody.order_paid _ _) = "order"
aggregate_type (EventBody.order_cancelled _ _) = "order"
aggregate_type (EventBody.stock_reserved _ _ _) = "inventory"
aggregate_type (EventBody.stock_ran_low _ _ _) = "inventory"

abbrev pub event_type : EventBody → String
event_type (EventBody.order_placed _ _ _ _ _) = "order.placed"
event_type (EventBody.order_paid _ _) = "order.paid"
event_type (EventBody.order_cancelled _ _) = "order.cancelled"
event_type (EventBody.stock_reserved _ _ _) = "inventory.reserved"
event_type (EventBody.stock_ran_low _ _ _) = "inventory.ran_low"

-- A value of a payload: a UUID, a time, an integer or a text, each rendered by `_jsonable`.
pub data Json : Type 0 where
  uuid time : ℕ → Json
  num : ℤ → Json
  text : String → Json

abbrev pub Payload : Type 0
Payload = List (String × Json)

body_fields : EventBody → Payload
body_fields (EventBody.order_placed n c t cur loc) =
    ("order_number", Json.text n)
    ∷ ("customer_id", Json.uuid c)
    ∷ ("total_minor_units", Json.num t)
    ∷ ("currency", Json.text cur)
    ∷ ("locale", Json.text loc)
    ∷ []
body_fields (EventBody.order_paid n r) =
    ("order_number", Json.text n) ∷ ("payment_reference", Json.text r) ∷ []
body_fields (EventBody.order_cancelled n r) =
    ("order_number", Json.text n) ∷ ("reason", Json.text r) ∷ []
body_fields (EventBody.stock_reserved v q r) =
    ("variant_id", Json.uuid v)
    ∷ ("quantity", Json.num (pos q))
    ∷ ("reservation_id", Json.uuid r)
    ∷ []
body_fields (EventBody.stock_ran_low v r t) =
    ("variant_id", Json.uuid v)
    ∷ ("remaining", Json.num (pos r))
    ∷ ("threshold", Json.num (pos t))
    ∷ []

-- Every field but `aggregate_type`, which has a column of its own.
unfoldable pub to_payload : DomainEvent → Payload
unfolding body_fields
to_payload e =
    ("aggregate_id", Json.uuid e.aggregate_id)
    ∷ ("occurred_at", Json.time e.occurred_at)
    ∷ body_fields e.body

-- `payload[key]` and `payload.get(key)`.
unfoldable pub get : String → Payload → Option Json
get k [] = none
get k ((j, v) ∷ p) = if str_eq j k then some v else get k p
