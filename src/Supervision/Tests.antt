-- ===== src/Supervision/Tests.antt =====
-- Shutdowns by a signal: one of tasks that return in time, and one of a server that does not.
use honey_mind.Logger.{log, write_next}
use honey_mind.Supervision.Flushed.{logger_ends, writer_end, run_until-flushes}
use honey_mind.Supervision.Shutdown.{Quiet, at_logger, IsOver, run_until_lem}
use honey_mind.Supervision.{Ending, Process, run_until, signalled, spawned}
use honey_mind.Base.{
  ok, none, some, refl, if◌then◌else◌, is_ok, ℕ, ◌≡◌, Bool, true, false, Option, List, [], ◌∷◌,
}
use honey_mind.Metrics.{new_metrics}
use honey_mind.Logger.Tests.{pipe, closed_session, new_log, new_log-Spawned}
use honey_mind.Logger.Events.{logs, writes, run, Event, accepted, step}
use honey_mind.Server.Workers.{
  TaskEnd, completed, join_failed, Shared, supervise_workers, worker_first, stopped_unexpectedly,
}
use honey_mind.Server.Workers.Verdict.{faults, error_of, supervise_workers_lem}

abbrev shared_state : Shared
shared_state = record { cancelled = false; metrics = record new_metrics { ready = 1 } }

abbrev in_grace : Process → Option (TaskEnd ℕ)
in_grace p = some (completed (ok tt))

abbrev stalled : Process → Option (TaskEnd ℕ)
stalled p = none

abbrev signal : Ending ℕ
signal = signalled (ok tt)

run_until_lem_example :
    Quiet (at_logger stalled in_grace signal (spawned shared_state))
    × IsOver (run_until stalled in_grace signal (spawned shared_state)) false
run_until_lem_example = run_until_lem stalled in_grace signal shared_state

-- The sessions that are over by the time of the wait have logged one record, which is written.
abbrev logged : Process → List Event
logged p = if p.holds_state then [] else logs closed_session ∷ writes true ∷ []

abbrev senders : Process → Bool
senders p = p.holds_state

abbrev log_ends : Process → Option (TaskEnd ℕ)
log_ends = logger_ends pipe 1 new_log new_log-Spawned 7 in_grace logged senders

exits : is_ok (run_until in_grace log_ends signal (spawned shared_state)).1 ≡ true
unfolding run_until writer_end run log step write_next
exits = refl

run_until-flushes_example :
    (run pipe new_log (logs closed_session ∷ writes true ∷ [])).output
    ≡ accepted pipe new_log (logs closed_session ∷ writes true ∷ [])
run_until-flushes_example =
    run_until-flushes pipe 1 new_log new_log-Spawned 7 in_grace logged senders signal shared_state
      exits

abbrev panics : List (TaskEnd ℕ)
panics = join_failed ∷ []

supervise_workers_lem_example :
    let r = supervise_workers shared_state (worker_first (some (completed (ok tt)))) panics in
    (r.0.metrics.ready ≡ 0)
    × (r.0.cancelled ≡ true)
    × (error_of r.1 ≡ some stopped_unexpectedly)
    × (is_ok r.1 ≡ false)
unfolding faults
supervise_workers_lem_example =
    supervise_workers_lem shared_state (worker_first (some (completed (ok tt)))) panics
