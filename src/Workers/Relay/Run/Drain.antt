-- ===== src/Workers/Relay/Run/Drain.antt =====
-- backend/app/workers/outbox_relay.py: that the loop of the relay drains the outbox.
use nordmarkt.Common.{
  some, none, ℕ, suc, ◌-◌, ◌≤◌, ◌<◌, ◌≡◌, refl, sym, ap, ◌∙◌, subst, Bool, true, false, ◌&&◌, not,
  List, [], ◌∷◌, ◌++◌, ◌==◌, String, if◌then◌else◌, is_none, select, any, length, All, arith, ◌⊎◌,
  inl, inr, Bool-cases, ltb, min, length-take, ==_refl,
}
use mathlib.Core.List.{append-nil}
use nordmarkt.Core.Errors.{Exception}
use nordmarkt.Shared.Outbox.{
  OutboxMessage, claim_batch, mark_published, is_due, max_attempts, insert_by_created,
  sort_by_created,
}
use nordmarkt.Shared.Outbox.Batch.{All-claim_batch, IsFree, claim_batch_lem}
use nordmarkt.Workers.Relay.{Round, relay_round, relay_message, relay_messages}
use nordmarkt.Workers.Relay.Delivery.{IsSent, is_pending, relay_sent}
use nordmarkt.Workers.Relay.Run.{Poll, Progress, poll_once, run}

abbrev pub is_unpublished : OutboxMessage → Bool
is_unpublished m = is_none m.published_at

-- How many messages wait for their publication.
abbrev pub backlog : List OutboxMessage → ℕ
backlog table = length (select is_unpublished table)

-- A message that was made from an event, is due from a time on and has attempts left.
abbrev pub IsReady : ℕ → OutboxMessage → Type 0
IsReady t m = IsSent m × (m.next_attempt_at ≤ t) × (m.attempts < max_attempts)

-- A poll from that time on, at which no other worker holds a row and no message has come.
abbrev pub IsQuiet : ℕ → Poll → Type 0
IsQuiet t p = (t ≤ p.now) × ((m : OutboxMessage) → p.locked m ≡ false) × (p.arrived ≡ [])

module _ (now id : ℕ) where
  backlog-mark_published : (t : List OutboxMessage) → backlog (mark_published now id t) ≤ backlog t
  unfolding mark_published
  backlog-mark_published [] = omega arith
  backlog-mark_published (m ∷ ms) = ground (arith, backlog-mark_published ms)

  backlog-falls :
      (t : List OutboxMessage)
      → any (is_pending id) t ≡ true
      → backlog (mark_published now id t) < backlog t
  unfolding mark_published
  backlog-falls [] h = absurd (ground (arith, h))
  backlog-falls (m ∷ ms) h = ground (arith, h, backlog-falls ms, backlog-mark_published ms)

  published_IsReady :
      (from : ℕ) (b : Bool) (m : OutboxMessage)
      → IsReady from m
      → IsReady from (if b then record m { published_at = some now; last_error = none } else m)
  published_IsReady from true m h = h
  published_IsReady from false m h = h

  mark_published-IsReady :
      (from : ℕ) (t : List OutboxMessage)
      → All (IsReady from) t
      → All (IsReady from) (mark_published now id t)
  unfolding mark_published
  mark_published-IsReady from [] h = tt
  mark_published-IsReady from (m ∷ ms) (first, rest) =
      (published_IsReady from (m.id == id) m first, mark_published-IsReady from ms rest)

-- A message that waits is in the table.
abbrev IsIn : List OutboxMessage → OutboxMessage → Type 0
IsIn table m = (is_unpublished m ≡ false) ⊎ (any (is_pending m.id) table ≡ true)

IsIn-more :
    (x : OutboxMessage) (table ms : List OutboxMessage)
    → All (IsIn table) ms
    → All (IsIn (x ∷ table)) ms
IsIn-more x table [] h = tt
IsIn-more x table (m ∷ ms) (inl done, rest) = (inl done, IsIn-more x table ms rest)
IsIn-more x table (m ∷ ms) (inr there, rest) =
    (inr (ground (arith, there)), IsIn-more x table ms rest)

All-IsIn : (table : List OutboxMessage) → All (IsIn table) table
All-IsIn [] = tt
All-IsIn (m ∷ ms) = (
  elim (Bool-cases (is_unpublished m)) [
    | inl waits ↦ inr (ground (arith, waits, ==_refl m.id))
    | inr done ↦ inl done
  ],
  IsIn-more m ms ms (All-IsIn ms),
)

length-insert :
    (m : OutboxMessage) (ms : List OutboxMessage)
    → length (insert_by_created m ms) ≡ suc (length ms)
unfolding insert_by_created
length-insert m [] = refl
length-insert m (x ∷ xs) = ground (arith, length-insert m xs)

length-sort : (ms : List OutboxMessage) → length (sort_by_created ms) ≡ length ms
unfolding sort_by_created
length-sort [] = refl
length-sort (m ∷ ms) = omega (arith, length-insert m (sort_by_created ms), length-sort ms)

module _ (from now : ℕ) (locked : OutboxMessage → Bool) (later : from ≤ now)
    (free : (m : OutboxMessage) → locked m ≡ false) where
  -- In a quiet table of ready messages, those that are unpublished may be handed out.
  select-ready :
      (t : List OutboxMessage)
      → All (IsReady from) t
      → length (select (λ m. is_due now m && not (locked m)) t) ≡ backlog t
  unfolding is_due
  select-ready [] h = refl
  select-ready (m ∷ ms) ((_, due, left), rest) =
      ground (arith, free m, due, left, later, select-ready ms rest)

  length-claim_batch :
      (limit : ℕ) (t : List OutboxMessage)
      → All (IsReady from) t
      → length (claim_batch now locked limit t) ≡ min limit (backlog t)
  unfolding claim_batch
  length-claim_batch limit t h =
      let chosen = select (λ m. is_due now m && not (locked m)) t in
      length-take limit (sort_by_created chosen)
      ∙ ap (min limit) (length-sort chosen ∙ select-ready t h)

module _ (cut : String → String) (text_of : Exception → String) (from now : ℕ) where
  relay-IsReady :
      (ms : List OutboxMessage) (r : Round)
      → All IsSent ms
      → All (IsReady from) r.table
      → All (IsReady from) (relay_messages now cut text_of ms r).table
        × (backlog (relay_messages now cut text_of ms r).table ≤ backlog r.table)
  unfolding relay_messages
  relay-IsReady [] r sent h = (h, omega arith)
  relay-IsReady (m ∷ ms) r sent h =
      let same = (relay_sent now cut text_of m r sent.0).0 in
      let (ready, less) =
        relay-IsReady ms (relay_message now cut text_of m r) sent.1 (
          subst (All (IsReady from)) (sym same) (mark_published-IsReady now m.id from r.table h)) in
      (ready, omega (arith, less, ap backlog same, backlog-mark_published now m.id r.table))

  -- The first message of a batch leaves the backlog.
  batch-falls :
      (batch : List OutboxMessage) (r : Round)
      → All IsSent batch
      → All (IsReady from) r.table
      → All (λ m. any (is_pending m.id) r.table ≡ true) batch
      → 0 < length batch
      → backlog (relay_messages now cut text_of batch r).table < backlog r.table
  unfolding relay_messages
  batch-falls [] r sent h waits some_there = absurd (omega arith)
  batch-falls (m ∷ ms) r sent h waits some_there =
      let same = (relay_sent now cut text_of m r sent.0).0 in
      let (_, less) =
        relay-IsReady ms (relay_message now cut text_of m r) sent.1 (
          subst (All (IsReady from)) (sym same) (mark_published-IsReady now m.id from r.table h)) in
      omega (arith, less, ap backlog same, backlog-falls now m.id r.table waits.0)

waiting_rows :
    (now : ℕ) (locked : OutboxMessage → Bool) (table ms : List OutboxMessage)
    → All (IsIn table) ms
    → All (IsFree now locked) ms
    → All (λ m. any (is_pending m.id) table ≡ true) ms
unfolding is_due
waiting_rows now locked table [] h free = tt
waiting_rows now locked table (m ∷ ms) (inl done, rest) ((waits, _, _, _), others) =
    absurd (ground (arith, done, waits))
waiting_rows now locked table (m ∷ ms) (inr there, rest) (_, others) =
    (there, waiting_rows now locked table ms rest others)

IsReady-IsSent : (from : ℕ) (ms : List OutboxMessage) → All (IsReady from) ms → All IsSent ms
IsReady-IsSent from [] h = tt
IsReady-IsSent from (m ∷ ms) ((sent, _, _), rest) = (sent, IsReady-IsSent from ms rest)

module _ (cut : String → String) (text_of : Exception → String) (from batch_size : ℕ)
    (some_batch : 0 < batch_size) where
  poll-IsReady :
      (p : Poll) (s : Progress)
      → IsQuiet from p
      → All (IsReady from) s.table
      → All (IsReady from) (poll_once cut text_of batch_size p s).table
        × (backlog (poll_once cut text_of batch_size p s).table ≤ backlog s.table - 1)
  unfolding poll_once relay_round
  poll-IsReady p s (later, free, none_new) h =
      let same : s.table ++ p.arrived ≡ s.table =
        ap (λ xs. s.table ++ xs) none_new ∙ append-nil s.table in
      let batch = claim_batch p.now p.locked batch_size s.table in
      let start : Round = record { table = s.table; processed = 0; effects = [] } in
      let batch_sent =
        All-claim_batch IsSent p.now batch_size p.locked s.table (IsReady-IsSent from s.table h) in
      let (ready, less) = relay-IsReady cut text_of from p.now batch start batch_sent h in
      rw same (
        ready,
        elim (Bool-cases (ltb 0 (backlog s.table))) [
          | inl waits ↦
              let size = length-claim_batch from p.now p.locked later free batch_size s.table h in
              let (_, free_rows, _, _) = claim_batch_lem p.now batch_size p.locked s.table in
              let falls =
                batch-falls cut text_of from p.now batch start batch_sent h
                  (waiting_rows p.now p.locked s.table batch
                    (All-claim_batch (IsIn s.table) p.now batch_size p.locked s.table
                      (All-IsIn s.table))
                    free_rows)
                  (ground (arith, size, waits, some_batch)) in
              omega (arith, falls)
          | inr none_waits ↦ ground (arith, none_waits, less)
        ],
      )

  -- Where batches are not empty, every message of the table was made from an event, is due and has
  -- attempts left, and in the rounds no other worker holds a row and no message comes: as many
  -- rounds as messages wait, or more, publish them all.
  pub run-backlog :
      (ps : List Poll) (s : Progress)
      → All (IsQuiet from) ps
      → All (IsReady from) s.table
      → backlog s.table ≤ length ps
      → backlog (run cut text_of batch_size ps s).table ≡ 0
  unfolding run
  run-backlog [] s quiet h few = omega arith
  run-backlog (p ∷ ps) s quiet h few =
      let (ready, less) = poll-IsReady p s quiet.0 h in
      run-backlog ps (poll_once cut text_of batch_size p s) quiet.1 ready (omega (arith, less))
