-- ===== src/Workers/Relay/Delivery.antt =====
-- From a transaction's events to the handlers: `UnitOfWork.commit` in
-- backend/app/shared/unit_of_work.py, the table of backend/app/shared/outbox.py and the relay of
-- backend/app/workers/outbox_relay.py.
use nordmarkt.Common.{
  ℕ, ◌+◌, ◌≡◌, refl, Bool, ◌&&◌, none, List, [], ◌∷◌, String, arith, ◌==◌, is_none, select, length,
  All,
}
use nordmarkt.Core.Errors.{Exception}
use nordmarkt.Shared.Events.{DomainEvent, EventBody, event_type, to_payload, get}
use nordmarkt.Shared.Outbox.{OutboxMessage, claim_batch, mark_published}
use nordmarkt.Shared.Outbox.Batch.{All-claim_batch}
use nordmarkt.Shared.UnitOfWork.{World, outbox_rows}
use nordmarkt.Workers.Relay.{
  handlers, run_handlers, relay_message, relay_messages, relay_round, Round,
}

no_stop :
    (a o : ℕ) (b : EventBody)
    → (run_handlers
        (handlers (event_type b))
        (to_payload (record { aggregate_id = a; occurred_at = o; body = b }))).1
      ≡ none
unfolding run_handlers handlers to_payload get
no_stop a o (EventBody.order_placed n c t cur loc) = refl
no_stop a o (EventBody.order_paid n r) = refl
no_stop a o (EventBody.order_cancelled n r) = refl
no_stop a o (EventBody.stock_reserved v q r) = refl
no_stop a o (EventBody.stock_ran_low v r t) = refl

-- The message was made from an event by a commit.
abbrev pub IsSent : OutboxMessage → Type 0
IsSent m = (e : DomainEvent) × (m.event_type ≡ event_type e.body) × (m.payload ≡ to_payload e)

pub outbox_rows-IsSent :
    (w : World) (n : ℕ) (es : List DomainEvent) → All IsSent (outbox_rows w n es)
unfolding outbox_rows
outbox_rows-IsSent w n [] = tt
outbox_rows-IsSent w n (e ∷ es) = ((e, refl, refl), outbox_rows-IsSent w (n + 1) es)

abbrev pub is_pending : ℕ → OutboxMessage → Bool
is_pending id m = m.id == id && is_none m.published_at

-- No row of the id waits for its publication.
abbrev pub IsPublished : List OutboxMessage → OutboxMessage → Type 0
IsPublished table m = select (is_pending m.id) table ≡ []

module _ (now id : ℕ) where
  published_here :
      (table : List OutboxMessage) → select (is_pending id) (mark_published now id table) ≡ []
  unfolding mark_published
  published_here [] = refl
  published_here (m ∷ ms) = ground (arith, published_here ms)

  published_stays :
      (k : ℕ) (table : List OutboxMessage)
      → select (is_pending k) table ≡ []
      → select (is_pending k) (mark_published now id table) ≡ []
  unfolding mark_published
  published_stays k [] h = refl
  published_stays k (m ∷ ms) h = ground (arith, published_stays k ms)

module _ (now : ℕ) (cut : String → String) (text_of : Exception → String) where
  pub relay_sent :
      (m : OutboxMessage) (r : Round)
      → IsSent m
      → ((relay_message now cut text_of m r).table ≡ mark_published now m.id r.table)
        × ((relay_message now cut text_of m r).processed ≡ r.processed + 1)
  unfolding relay_message
  relay_sent m r (e, ty, pay) = ground (arith, no_stop e.aggregate_id e.occurred_at e.body)

  relay_stays :
      (k : ℕ) (ms : List OutboxMessage) (r : Round)
      → All IsSent ms
      → select (is_pending k) r.table ≡ []
      → select (is_pending k) (relay_messages now cut text_of ms r).table ≡ []
  unfolding relay_messages
  relay_stays k [] r sent h = h
  relay_stays k (m ∷ ms) r sent h =
      relay_stays k ms _ sent.1
        (rw (relay_sent m r sent.0).0 (published_stays now m.id k r.table h))

  relay-All :
      (ms : List OutboxMessage) (r : Round)
      → All IsSent ms
      → ((relay_messages now cut text_of ms r).processed ≡ r.processed + length ms)
        × All (IsPublished (relay_messages now cut text_of ms r).table) ms
  unfolding relay_messages
  relay-All [] r sent = (omega arith, tt)
  relay-All (m ∷ ms) r sent =
      let (count, rest) = relay-All ms (relay_message now cut text_of m r) sent.1 in
      (
        omega (arith, count, (relay_sent m r sent.0).1),
        (
          relay_stays m.id ms _ sent.1
              (rw (relay_sent m r sent.0).0 (published_here now m.id r.table)),
          rest,
        ),
      )

  -- Where every row of the table was made from an event, a round handles its whole batch: each
  -- message of the batch counts as processed, and none of them waits for its publication any more.
  pub relay_round_lem :
      (locked : OutboxMessage → Bool) (batch_size : ℕ) (table : List OutboxMessage)
      → All IsSent table
      → let r = relay_round now cut text_of locked batch_size table in
        let batch = claim_batch now locked batch_size table in
        (r.processed ≡ length batch) × All (IsPublished r.table) batch
  unfolding relay_round
  relay_round_lem locked batch_size table sent =
      let (count, rest) =
        relay-All (claim_batch now locked batch_size table)
          (record { table = table; processed = 0; effects = [] })
          (All-claim_batch IsSent now batch_size locked table sent) in
      (omega (arith, count), rest)
