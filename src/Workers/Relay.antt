-- ===== src/Workers/Relay.antt =====
-- backend/app/workers/outbox_relay.py: the handlers and one round of the relay's loop.
pub mod Delivery
pub mod Run
use nordmarkt.Common.{
  ℕ, ◌+◌, Bool, true, false, Option, none, some, List, [], ◌∷◌, ◌++◌, String, str_eq, if◌then◌else◌,
  is_none,
}
use nordmarkt.Core.Errors.{Result, ok, err, Exception, key_error}
use nordmarkt.Shared.Events.{Payload, get, Json}
use nordmarkt.Shared.Outbox.{OutboxMessage, claim_batch, mark_published, mark_failed}

-- What the handlers do: the log lines that stand for messages sent.
pub data Effect : Type 0 where
  email_queued : (order_number locale : Json) → Effect
  warehouse_notified : Json → Effect
  restock_alert : (variant_id remaining : Json) → Effect

abbrev pub Handler : Type 0
Handler = Payload → Result Effect

-- `payload[key]`
abbrev pub require : String → Payload → Result Json
require k p = elim (get k p) [ none ↦ err key_error | some v ↦ ok v ]

pub send_order_confirmation : Handler
send_order_confirmation p =
    nordmarkt.Core.Errors.◌>>=◌ (require "order_number" p)
      λ n. ok (Effect.email_queued n (elim (get "locale" p) [ none ↦ Json.text "sv" | some l ↦ l ]))

pub notify_warehouse : Handler
notify_warehouse p =
    nordmarkt.Core.Errors.◌>>=◌ (require "order_number" p) λ n. ok (Effect.warehouse_notified n)

pub alert_merchandising : Handler
alert_merchandising p =
    nordmarkt.Core.Errors.◌>>=◌ (require "variant_id" p)
      λ v. nordmarkt.Core.Errors.◌>>=◌ (require "remaining" p) λ r. ok (Effect.restock_alert v r)

-- `HANDLERS.get(event_type, [])`, as the decorators fill the dictionary.
unfoldable pub handlers : String → List Handler
unfolding send_order_confirmation notify_warehouse alert_merchandising
handlers event_type =
    if str_eq event_type "order.placed"
    then send_order_confirmation ∷ []
    else if str_eq event_type "order.paid"
    then notify_warehouse ∷ []
    else if str_eq event_type "inventory.ran_low"
    then alert_merchandising ∷ []
    else []

-- The handlers of one message in turn: what they did, and the exception that stopped them.
unfoldable pub run_handlers : List Handler → Payload → List Effect × Option Exception
run_handlers [] p = ([], none)
run_handlers (h ∷ hs) p = elim (h p) [
  | err e ↦ ([], some e)
  | ok effect ↦ let (effects, stopped) = run_handlers hs p in (effect ∷ effects, stopped)
]

-- The loop's variables: the table, the messages published so far and what was done.
pub record Round : Type 0 where
  pub table : List OutboxMessage
  pub processed : ℕ
  pub effects : List Effect

module _ (now : ℕ) (cut : String → String) (text_of : Exception → String) where
  unfoldable pub relay_message : OutboxMessage → Round → Round
  unfolding run_handlers
  relay_message m r =
      let (effects, stopped) = run_handlers (handlers m.event_type) m.payload in
      elim stopped [
        | none ↦ record {
          table = mark_published now m.id r.table;
          processed = r.processed + 1;
          effects = r.effects ++ effects;
        }
        | some e ↦ record {
          table = mark_failed now cut m (text_of e) r.table;
          processed = r.processed;
          effects = r.effects ++ effects;
        }
      ]

  unfoldable pub relay_messages : List OutboxMessage → Round → Round
  relay_messages [] r = r
  relay_messages (m ∷ ms) r = relay_messages ms (relay_message m r)

  -- One round of `run`: a batch is claimed, handled and committed.
  unfoldable pub relay_round : (OutboxMessage → Bool) → ℕ → List OutboxMessage → Round
  relay_round locked batch_size table =
      relay_messages (claim_batch now locked batch_size table)
        (record { table = table; processed = 0; effects = [] })
