-- ===== src/Tests/Requests.antt =====
-- Requests: the checkout, the provider's callbacks, the sessions and the outbox.
use nordmarkt.Common.{
  ◌⊎◌, Perm, ◌++◌, ℕ, zero, suc, ◌+◌, ◌≤◌, ◌<◌, ◌≡◌, ◌≢◌, refl, arith, true, false, Bool, List, [],
  ◌∷◌, Option, some, none, inl, inr, String, All, length, eq_iff,
}
use nordmarkt.Common.Int.{pos}
use nordmarkt.Core.Errors.{ok, err, domain, DomainError}
use nordmarkt.Core.Money.{Money}
use nordmarkt.Core.Idempotency.{Codec, claim, claim_ttl}
use nordmarkt.Core.Idempotency.Replay.{claim_exclusive}
use nordmarkt.Shared.Database.{Database}
use nordmarkt.Shared.Events.{DomainEvent, EventBody}
use nordmarkt.Shared.Outbox.{OutboxMessage, claim_batch}
use nordmarkt.Shared.Outbox.Batch.{IsFree, IsBehind, IsOldestFirst, claim_batch_lem}
use nordmarkt.Shared.UnitOfWork.{begin, UnitOfWork, World, within_transaction, outbox_rows}
use nordmarkt.Identity.{decode_token}
use nordmarkt.Identity.Models.{snapshot}
use nordmarkt.Orders.Models.{OrderStatus}
use nordmarkt.Api.Checkout.{OrderOut, checkout, place_and_pay}
use nordmarkt.Api.Checkout.Retry.{checkout_failed}
use nordmarkt.Api.Webhooks.{Callback, payment_callback}
use nordmarkt.Api.Webhooks.Once.{callback_twice, callback_failed}
use nordmarkt.Api.Sessions.{refresh}
use nordmarkt.Api.Sessions.Reuse.{refresh_reused, refresh_twice, Live}
use nordmarkt.Workers.Relay.Run.{Poll, Progress, run}
use nordmarkt.Workers.Relay.Run.Drain.{backlog, run-backlog, IsQuiet, IsReady}
use nordmarkt.Tests.Data.{
  world, later_world, shop, options, gateway, memory, memory_laws, claims, crypto, home,
  live_session, shopper,
}

abbrev receipt : OrderOut
receipt = record {
  order_number = "NM-0";
  status = OrderStatus.pending_payment;
  currency = "SEK";
  placed_at = some 1000;
  lines =
      record {
        sku = "LAMP-W";
        title = "Lampa";
        options = [];
        image_url = none;
        quantity = 2;
        unit_price = record { minor_units = pos 12500; currency = "SEK" };
        line_total = record { minor_units = pos 25000; currency = "SEK" };
      }
      ∷ [];
  subtotal = record { minor_units = pos 25000; currency = "SEK" };
  vat = record { minor_units = pos 5000; currency = "SEK" };
  shipping = record { minor_units = pos 4900; currency = "SEK" };
  total = record { minor_units = pos 29900; currency = "SEK" };
  vat_breakdown = (250, pos 5000) ∷ [];
  shipping_address = snapshot home;
  payment_redirect_url = some "sbx_2";
}

-- Responses that are told apart by their order numbers.
abbrev codec : Codec OrderOut
codec = record {
  dumps = λ out. out.order_number;
  loads = λ number. record receipt { order_number = number };
  key = λ scope key. key;
}

named : ◌≢◌ {A = String} "key-1" ""
named e = ground (arith, eq_iff "key-1" "")

-- The shop once every basket is empty.
abbrev bare : Database
bare = record shop { cart_items = [] }

bare_fails :
    (place_and_pay world gateway 50 none options (begin bare 0)).0
    ≡ err (domain DomainError.cart_empty)
unfolding place_and_pay nordmarkt.Api.Checkout.prepare nordmarkt.Shared.UnitOfWork.◌>>=◌
    nordmarkt.Cart.resolve nordmarkt.Orders.place_order
bare_fails = refl

checkout_failed_example :
    let (answer, db', keys') =
      checkout memory codec world gateway 50 (some "key-1") none options 0 (bare, []) in
    (answer ≡ err (domain DomainError.cart_empty))
    × (db' ≡ bare)
    × ((claim memory codec 2000 "checkout" "key-1" keys').0 ≡ ok none)
checkout_failed_example =
    checkout_failed memory memory_laws codec world gateway 50 "key-1" none options 0 bare [] named
      refl (domain DomainError.cart_empty) 2000 bare_fails

claim_exclusive_example :
    let (first, keys') = claim memory codec 1000 "checkout" "key-1" [] in
    (first ≡ ok none)
    × (claim memory codec 1500 "checkout" "key-1" keys'
        ≡ (err (domain DomainError.idempotency_conflict), keys'))
claim_exclusive_example =
    claim_exclusive memory memory_laws codec "checkout" "key-1" [] 1000 1500 refl (omega arith)

abbrev captured : Callback
captured = record { event_id = "evt-1"; type = "payment.captured"; reference = some "sbx_1" }

event_named : ◌≢◌ {A = String} "evt-1" ""
event_named e = ground (arith, eq_iff "evt-1" "")

applied : (within_transaction (payment_callback world gateway "swish" captured) shop 0).0 ≡ ok 202
unfolding payment_callback within_transaction nordmarkt.Shared.UnitOfWork.◌>>=◌
    nordmarkt.Payments.record_webhook nordmarkt.Payments.capture nordmarkt.Orders.mark_paid
    nordmarkt.Orders.Models.transition_to nordmarkt.Orders.Models.is_allowed
    nordmarkt.Inventory.for_each nordmarkt.Inventory.commit_reservation
    nordmarkt.Inventory.update_stock nordmarkt.Inventory.write_stock
    nordmarkt.Shared.UnitOfWork.commit
applied = refl

callback_twice_example :
    let after = (within_transaction (payment_callback world gateway "swish" captured) shop 0).1 in
    within_transaction (payment_callback later_world gateway "swish" captured) after 5
    ≡ (ok 202, after)
callback_twice_example =
    callback_twice world later_world gateway gateway "swish" captured captured shop 0 5 event_named
      refl applied

abbrev unknown : Callback
unknown = record captured { reference = some "sbx_none" }

not_found :
    (within_transaction (payment_callback world gateway "swish" unknown) shop 0).0
    ≡ err (domain DomainError.not_found)
unfolding payment_callback within_transaction nordmarkt.Shared.UnitOfWork.◌>>=◌
    nordmarkt.Payments.record_webhook nordmarkt.Payments.capture
not_found = refl

callback_failed_example :
    (within_transaction (payment_callback world gateway "swish" unknown) shop 0).1 ≡ shop
callback_failed_example =
    callback_failed world gateway "swish" unknown shop 0 (domain DomainError.not_found) not_found

live : Live crypto world "refresh-1" claims 80 live_session shopper shop
unfolding decode_token
live = record {
  decoded = refl;
  session = refl;
  stored = refl;
  genuine = refl;
  unrevoked = refl;
  unexpired = refl;
  owner = refl;
  active = refl;
}

decoded_later : decode_token crypto 2000 "refresh-1" "refresh" ≡ ok claims
unfolding decode_token
decoded_later = refl

refresh_twice_example :
    let (_, db') = refresh crypto world "refresh-1" shop 0 in
    refresh crypto later_world "refresh-1" db' 9 ≡ (err (domain DomainError.unauthorized), db')
refresh_twice_example =
    refresh_twice crypto world "refresh-1" claims 80 live_session shopper shop 0 later_world 9 live
      decoded_later

-- The shop after the session was retired.
abbrev retired_shop : Database
retired_shop = record shop {
  session_tokens =
      record live_session { revoked_at = some 900 } ∷ record live_session { id = 81 } ∷ [];
}

refresh_reused_example :
    refresh crypto later_world "refresh-1" retired_shop 0
    ≡ (err (domain DomainError.unauthorized), retired_shop)
refresh_reused_example =
    refresh_reused crypto later_world "refresh-1" claims 80
      (record live_session { revoked_at = some 900 }) retired_shop 0 decoded_later refl refl
      (inl refl)

abbrev paid : DomainEvent
paid = record { aggregate_id = 40; occurred_at = 900; body = EventBody.order_paid "NM-1" "sbx_1" }

abbrev low : DomainEvent
low = record { aggregate_id = 7; occurred_at = 900; body = EventBody.stock_ran_low 7 1 1 }

abbrev events : List DomainEvent
events = paid ∷ low ∷ []

abbrev sent : List OutboxMessage
sent = outbox_rows world 0 events

unlocked : OutboxMessage → Bool
unlocked m = false

abbrev idle : Poll
idle = record { now = 2000; locked = unlocked; arrived = [] }

abbrev start : Progress
start = record { table = sent; effects = []; waits = 0 }

idle-IsQuiet : All (IsQuiet 2000) (idle ∷ idle ∷ [])
unfolding unlocked
idle-IsQuiet = ((omega arith, λ m. refl, refl), ((omega arith, λ m. refl, refl), tt))

sent-IsReady : All (IsReady 2000) sent
unfolding outbox_rows
sent-IsReady = (
  ((paid, refl, refl), omega arith, omega arith),
  (((low, refl, refl), omega arith, omega arith), tt),
)

run-backlog_example : backlog (run (λ t. t) (λ e. "error") 100 (idle ∷ idle ∷ []) start).table ≡ 0
unfolding outbox_rows
run-backlog_example =
    run-backlog (λ t. t) (λ e. "error") 2000 100 (omega arith) (idle ∷ idle ∷ []) start idle-IsQuiet
      sent-IsReady (omega arith)

claim_batch_lem_example :
    let batch = claim_batch 2000 unlocked 1 sent in
    (length batch ≤ 1)
    × All (IsFree 2000 unlocked) batch
    × IsOldestFirst batch
    × ((rest : List OutboxMessage) × Perm sent (batch ++ rest)
        × All (λ m. (¬ IsFree 2000 unlocked m) ⊎ IsBehind 1 batch m) rest)
claim_batch_lem_example = claim_batch_lem 2000 1 unlocked sent
