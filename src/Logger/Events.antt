-- ===== src/Logger/Events.antt =====
-- Interleavings of the calls of `log` with the rounds of the writer.
use honey_mind.Base.{if◌then◌else◌, length, ℕ, ◌+◌, Bool, List, [], ◌∷◌}
use honey_mind.Logger.{Channel, Logging, log, write_next}
use honey_mind.Metrics.{Metrics}
use honey_mind.Session.State.{SessionRecord}

-- A call of `log` by a session, or a round of the writer with the outcome of its write.
pub data Event : Type 0 where
  logs : SessionRecord → Event
  writes : Bool → Event

-- The records that are accounted for: written, or dropped for one of the three reasons.
abbrev pub accounted : Metrics → ℕ
accounted m =
    m.logger_written_total
    + (m.logger_dropped_total "queue_full"
        + (m.logger_dropped_total "channel_closed" + m.logger_dropped_total "writer_error"))

abbrev pub offered : List Event → ℕ
offered [] = 0
offered (logs r ∷ es) = 1 + offered es
offered (writes ok' ∷ es) = offered es

module _ {Q : Type 0} (channel : Channel Q) where
  unfoldable pub step : Logging Q → Event → Logging Q
  unfolding log write_next
  step s (logs r) = (log channel s r).0
  step s (writes ok') = write_next channel s ok'

  unfoldable pub run : Logging Q → List Event → Logging Q
  run s [] = s
  run s (e ∷ es) = run (step s e) es

  -- What the writer will still see.
  unfoldable pub waiting : Logging Q → ℕ
  waiting s = if s.failed then 0 else length (channel.content s.queue)

  -- The records for which `log` returns true, in the order of the calls.
  unfoldable pub accepted : Logging Q → List Event → List SessionRecord
  unfolding log
  accepted s [] = []
  accepted s (logs r ∷ es) =
      let rest = accepted (step s (logs r)) es in if (log channel s r).1 then r ∷ rest else rest
  accepted s (writes ok' ∷ es) = accepted (step s (writes ok')) es
