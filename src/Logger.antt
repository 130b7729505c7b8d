-- ===== src/Logger.antt =====
-- src/logger.rs: the queue of records between the sessions and the writer. The channel of tokio is a
-- parameter. Whether the write of a record succeeds in time is an argument of the writer's round.
pub mod Events
mod Advances
pub mod Account
pub mod Sink
pub mod Writer
pub mod Spawn
pub mod Tests
use honey_mind.Base.{
  if◌then◌else◌, length, ℕ, ◌+◌, ◌<◌, String, ◌≡◌, Bool, true, false, Option, none, some, List, [],
  ◌∷◌, ◌++◌,
}
use honey_mind.Metrics.{Metrics}
use honey_mind.Session.State.{SessionRecord}
use text.Mathlib.Text.{◌==◌ as str_eq}

-- `try_send`: the channel with the record in it, or one of the two errors.
pub data SendResult (Q : Type 0) : Type 0 where
  sent : Q → SendResult Q
  full closed : SendResult Q

-- A bounded channel of tokio, with its records in the order of their sending.
pub record Channel (Q : Type 0) : Type 0 where
  pub content : Q → List SessionRecord
  pub capacity : Q → ℕ
  pub is_closed : Q → Bool
  pub try_send : Q → SessionRecord → SendResult Q
  pub recv : Q → Option (SessionRecord × Q)
  pub close : Q → Q
  pub send_sent :
      (q q' : Q) (r : SessionRecord)
      → try_send q r ≡ sent q'
      → (content q' ≡ content q ++ r ∷ [])
        × (capacity q' ≡ capacity q)
        × (length (content q) < capacity q)
        × (is_closed q ≡ false)
        × (is_closed q' ≡ false)
  pub recv_some :
      (q q' : Q) (r : SessionRecord)
      → recv q ≡ some (r, q')
      → (content q ≡ r ∷ content q') × (capacity q' ≡ capacity q) × (is_closed q' ≡ is_closed q)
  pub close_content :
      (q : Q)
      → (content (close q) ≡ content q)
        × (capacity (close q) ≡ capacity q)
        × (is_closed (close q) ≡ true)

-- The channel, the counters, the records that are written and flushed, and whether the writer has
-- returned an error.
pub record Logging (Q : Type 0) : Type 0 where
  pub queue : Q
  pub metrics : Metrics
  pub output : List SessionRecord
  pub failed : Bool

-- `logger_dropped_total.with_label_values(&[label]).inc_by(n)`
abbrev pub drop_records : String → ℕ → Metrics → Metrics
drop_records label n m = record m {
  logger_dropped_total =
      λ k. if str_eq label k then m.logger_dropped_total k + n else m.logger_dropped_total k;
}

module _ {Q : Type 0} (channel : Channel Q) where
  abbrev pub after_send : Logging Q → SendResult Q → Logging Q × Bool
  after_send s (sent q) = (record s { queue = q }, true)
  after_send s full = (record s { metrics = drop_records "queue_full" 1 s.metrics }, false)
  after_send s closed = (record s { metrics = drop_records "channel_closed" 1 s.metrics }, false)

  -- `Logger::log`
  unfoldable pub log : Logging Q → SessionRecord → Logging Q × Bool
  log s r = after_send s (channel.try_send s.queue r)

  -- What follows the write of a record.
  abbrev pub after_write : Logging Q → SessionRecord → Bool → Logging Q
  after_write s r true = record s {
    metrics = record (s.metrics) { logger_written_total = s.metrics.logger_written_total + 1 };
    output = s.output ++ r ∷ [];
  }
  after_write s r false =
      let q = channel.close s.queue in
      record s {
        queue = q;
        metrics = drop_records "writer_error" (1 + length (channel.content q)) (record (s.metrics) {
          ready = 0;
          logger_errors_total = s.metrics.logger_errors_total + 1;
        });
        failed = true;
      }

  abbrev pub after_recv : Logging Q → Bool → Option (SessionRecord × Q) → Logging Q
  after_recv s ok' none = s
  after_recv s ok' (some (r, q)) = after_write (record s { queue = q }) r ok'

  -- A round of the loop of `run_writer`, if that has not returned.
  unfoldable pub write_next : Logging Q → Bool → Logging Q
  write_next s ok' = if s.failed then s else after_recv s ok' (channel.recv s.queue)
