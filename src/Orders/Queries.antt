-- ===== src/Orders/Queries.antt =====
-- backend/app/modules/orders/service.py: `OrderQueryService` and `vat_breakdown`.
use nordmarkt.Common.{
  ℕ, ◌+◌, Bool, ◌&&◌, Option, none, some, List, [], ◌∷◌, String, leb, ltb, ◌==◌, str_eq,
  if◌then◌else◌, select, find, take, length,
}
use nordmarkt.Common.Int.{ℤ, ◌+ℤ◌}
use nordmarkt.Core.Errors.{Result, ok, err, domain, DomainError, ◌>>=◌}
use nordmarkt.Core.Pagination.{
  Page, Base64, JsonCodec, Times, bound_time, encode_cursor, decode_cursor,
}
use nordmarkt.Core.Money.{make, apply_rate, vat_share}
use nordmarkt.Cart.Totals.{rate_of}
use nordmarkt.Orders.Models.{Order, OrderItem}

-- `get_for_customer`, on the table of orders.
unfoldable pub get_for_customer : String → ℕ → List Order → Result Order
get_for_customer number user_id orders = elim (find (λ o. str_eq o.order_number number) orders) [
  | none ↦ err (domain DomainError.not_found)
  | some order ↦
      if order.customer_id == user_id then ok order else err (domain DomainError.forbidden)
]

-- ORDER BY created_at DESC.
unfoldable pub insert_by_newest : Order → List Order → List Order
insert_by_newest o [] = o ∷ []
insert_by_newest o (x ∷ xs) =
    if leb x.created_at o.created_at then o ∷ x ∷ xs else x ∷ insert_by_newest o xs

unfoldable pub newest_first : List Order → List Order
unfolding insert_by_newest
newest_first [] = []
newest_first (o ∷ os) = insert_by_newest o (newest_first os)

-- The WHERE clauses, with the time that a cursor gives or without.
abbrev pub is_listed : ℕ → Option ℕ → Order → Bool
is_listed user_id none o = o.customer_id == user_id
is_listed user_id (some seen) o = o.customer_id == user_id && ltb o.created_at seen

abbrev pub last_created : List Order → Option ℕ
last_created [] = none
last_created (o ∷ []) = some o.created_at
last_created (o ∷ p ∷ os) = last_created (p ∷ os)

-- The payload of a cursor is the text of a time; an empty cursor counts as none.
module _ (b : Base64) (j : JsonCodec String) (d : Times) where
  abbrev pub seen_until : Option (List ℕ) → Result (Option ℕ)
  seen_until none = ok none
  seen_until (some []) = ok none
  seen_until (some (c ∷ cs)) =
      decode_cursor b j (c ∷ cs) >>= λ text. bound_time d text >>= λ t. ok (some t)

  abbrev pub next_of : Option ℕ → Option (List ℕ)
  next_of none = none
  next_of (some t) = some (encode_cursor b j (d.isoformat t))

  unfoldable pub list_for_customer : ℕ → ℕ → Option (List ℕ) → List Order → Result (Page Order)
  unfolding newest_first
  list_for_customer user_id limit cursor orders = seen_until cursor >>= λ seen.
      let rows = take (limit + 1) (newest_first (select (is_listed user_id seen) orders)) in
      let items = take limit rows in
      ok (record {
        items = items;
        next_cursor = if ltb limit (length rows) then next_of (last_created items) else none;
      })

-- The buckets of `vat_breakdown`; the key is the rate in thousandths, which `f"{rate:.3f}"` prints.
abbrev pub add_amount : ℕ → ℤ → List (ℕ × ℤ) → List (ℕ × ℤ)
add_amount k x [] = (k, x) ∷ []
add_amount k x ((j, y) ∷ d) = if j == k then (j, y +ℤ x) ∷ d else (j, y) ∷ add_amount k x d

unfoldable pub breakdown : String → List OrderItem → List (ℕ × ℤ) → Result (List (ℕ × ℤ))
breakdown currency [] buckets = ok buckets
breakdown currency (item ∷ items) buckets = do
  gross ← make item.line_total_minor_units currency
  amount ← apply_rate gross (vat_share (rate_of item.vat_rate))
  breakdown currency items (add_amount item.vat_rate amount.minor_units buckets)

unfoldable pub vat_breakdown : Order → List OrderItem → Result (List (ℕ × ℤ))
unfolding breakdown
vat_breakdown order items = breakdown order.currency items []
