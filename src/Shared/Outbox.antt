-- ===== src/Shared/Outbox.antt =====
-- backend/app/shared/outbox.py: the table of messages, and its reads and writes.
pub mod Batch
use nordmarkt.Common.{
  ℕ, ◌+◌, Bool, ◌&&◌, not, Option, none, some, List, [], ◌∷◌, String, leb, ltb, ◌==◌, if◌then◌else◌,
  is_none, select, take, update,
}
use nordmarkt.Shared.Events.{Payload}

pub record OutboxMessage : Type 0 where
  pub id : ℕ
  pub aggregate_type : String
  pub aggregate_id : ℕ
  pub event_type : String
  pub payload : Payload
  pub created_at : ℕ
  pub published_at : Option ℕ
  pub attempts : ℕ
  pub next_attempt_at : ℕ
  pub last_error : Option String

abbrev pub max_attempts : ℕ
max_attempts = 8

-- The WHERE clause of `claim_batch`.
unfoldable pub is_due : ℕ → OutboxMessage → Bool
is_due now m = is_none m.published_at && (leb m.next_attempt_at now && ltb m.attempts max_attempts)

-- ORDER BY created_at: a stable insertion sort.
unfoldable pub insert_by_created : OutboxMessage → List OutboxMessage → List OutboxMessage
insert_by_created m [] = m ∷ []
insert_by_created m (x ∷ xs) =
    if leb m.created_at x.created_at then m ∷ x ∷ xs else x ∷ insert_by_created m xs

unfoldable pub sort_by_created : List OutboxMessage → List OutboxMessage
sort_by_created [] = []
sort_by_created (m ∷ ms) = insert_by_created m (sort_by_created ms)

-- The rows of a batch. `locked` says which rows another worker's transaction holds: SKIP LOCKED
-- passes them by.
unfoldable pub claim_batch :
    ℕ → (OutboxMessage → Bool) → ℕ → List OutboxMessage → List OutboxMessage
claim_batch now locked limit messages =
    take limit (sort_by_created (select (λ m. is_due now m && not (locked m)) messages))

unfoldable pub mark_published : ℕ → ℕ → List OutboxMessage → List OutboxMessage
mark_published now id =
    update (λ m. m.id == id) (λ m. record m { published_at = some now; last_error = none })

-- The stored error is cut to 2000 characters by `cut`. `next_attempt_at` becomes the present: the
-- function computes a backoff and writes `now.timestamp() and now`.
unfoldable pub mark_failed :
    ℕ → (String → String) → OutboxMessage → String → List OutboxMessage → List OutboxMessage
mark_failed now cut message error =
    update (λ m. m.id == message.id)
      (λ m. record m {
        attempts = message.attempts + 1;
        last_error = some (cut error);
        next_attempt_at = now;
      })
