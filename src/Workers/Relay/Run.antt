-- ===== src/Workers/Relay/Run.antt =====
-- backend/app/workers/outbox_relay.py: `Relay.run`, round after round.
pub mod Drain
use nordmarkt.Common.{ℕ, ◌+◌, Bool, List, [], ◌∷◌, ◌++◌, ◌==◌, String, if◌then◌else◌}
use nordmarkt.Core.Errors.{Exception}
use nordmarkt.Shared.Outbox.{OutboxMessage}
use nordmarkt.Workers.Relay.{Effect, relay_round}

-- A round of the loop that starts before the worker is asked to stop: its time, the rows that other
-- workers hold, and the messages that have been committed since the round before.
pub record Poll : Type 0 where
  pub now : ℕ
  pub locked : OutboxMessage → Bool
  pub arrived : List OutboxMessage

-- The table, what the handlers have done, and how often the worker has waited.
pub record Progress : Type 0 where
  pub table : List OutboxMessage
  pub effects : List Effect
  pub waits : ℕ

module _ (cut : String → String) (text_of : Exception → String) (batch_size : ℕ) where
  unfoldable pub poll_once : Poll → Progress → Progress
  poll_once p s =
      let r = relay_round p.now cut text_of p.locked batch_size (s.table ++ p.arrived) in
      record {
        table = r.table;
        effects = s.effects ++ r.effects;
        waits = if r.processed == 0 then s.waits + 1 else s.waits;
      }

  -- `run`
  unfoldable pub run : List Poll → Progress → Progress
  unfolding poll_once
  run [] s = s
  run (p ∷ ps) s = run ps (poll_once p s)
