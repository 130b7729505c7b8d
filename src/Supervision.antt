-- ===== src/Supervision.antt =====
-- src/main.rs: what `run` does with the two tasks of the process, once they are spawned. What a task
-- yields within the grace is a parameter, a function of the process at the time of the wait.
pub mod Startup
pub mod Shutdown
pub mod Flushed
pub mod Run
mod Tests
use honey_mind.Base.{Result, ok, err, Bool, true, false, Option, none, some}
use honey_mind.Server.Workers.{TaskEnd, completed, join_failed, Shared, withdraw}

pub data Name : Type 0 where
  server logger : Name

pub data RunError (E : Type 0) : Type 0 where
  failed : E → RunError E
  task_failed exceeded_grace : Name → RunError E
  stopped_early signal_failed : RunError E

-- A top-level task: it runs, or it has been awaited to its end, on its own or after an abort.
pub data Handle : Type 0 where
  running awaited aborted : Handle

-- `holds_state` tells that `run` still has its `AppState`, and with it a sender of the log queue.
pub record Process : Type 0 where
  pub shared : Shared
  pub holds_state : Bool
  pub server_handle : Handle
  pub logger_handle : Handle

-- What `run` starts its `select!` with.
abbrev pub spawned : Shared → Process
spawned s = record {
  shared = s;
  holds_state = true;
  server_handle = running;
  logger_handle = running;
}

-- How the `select!` of `run` ends; `signalled` carries what `wait_for_signal` returned.
pub data Ending (E : Type 0) : Type 0 where
  signalled : Result (Unit {0}) (RunError E) → Ending E
  server_ended : TaskEnd E → Ending E
  logger_ended : TaskEnd E → Ending E

abbrev pub set_handle : Name → Handle → Process → Process
set_handle server h p = record p { server_handle = h }
set_handle logger h p = record p { logger_handle = h }

abbrev pub Outcome : Type 0 → Type 0
Outcome E = Result (Unit {0}) (RunError E)

module _ {E : Type 0} where
  abbrev pub joined : TaskEnd E → Name → Outcome E
  joined (completed (ok u)) name = ok u
  joined (completed (err e)) name = err (failed e)
  joined join_failed name = err (task_failed name)

  -- `finish`, by what the task yields within the grace.
  abbrev pub finish : Option (TaskEnd E) → Name → Process → Process × Outcome E
  finish (some end') name p = (set_handle name awaited p, joined end' name)
  finish none name p = (set_handle name aborted p, err (exceeded_grace name))

  -- The first error stays.
  abbrev pub merge : Outcome E → Outcome E → Outcome E
  merge outcome (ok u) = outcome
  merge (ok u) (err e) = err e
  merge (err first) (err e) = err first

  -- `joined(result, "logger").err().unwrap_or_else(…)`
  abbrev pub logger_error : Outcome E → RunError E
  logger_error (ok u) = stopped_early
  logger_error (err e) = e

  abbrev pub selected : Ending E → Process → Process × Outcome E
  selected (signalled result) p = (p, result)
  selected (server_ended end') p = (set_handle server awaited p, joined end' server)
  selected (logger_ended end') p =
      (set_handle logger awaited p, err (logger_error (joined end' logger)))

  abbrev pub merge_finish : Outcome E → Process × Outcome E → Process × Outcome E
  merge_finish outcome (p, next) = (p, merge outcome next)

  -- `if !…_finished { merge(&mut outcome, finish(…).await) }`
  abbrev pub finish_running :
      Handle → Name → (Process → Option (TaskEnd E)) → Process × Outcome E → Process × Outcome E
  finish_running running name ends (p, outcome) = merge_finish outcome (finish (ends p) name p)
  finish_running awaited name ends (p, outcome) = (p, outcome)
  finish_running aborted name ends (p, outcome) = (p, outcome)

  -- `shutdown.cancel(); state.metrics.ready.set(0);`
  abbrev pub cancel : Process × Outcome E → Process × Outcome E
  cancel (p, outcome) = (record p { shared = withdraw p.shared }, outcome)

  abbrev pub drop_state : Process × Outcome E → Process × Outcome E
  drop_state (p, outcome) = (record p { holds_state = false }, outcome)

  abbrev pub stop_server :
      (Process → Option (TaskEnd E)) → Process × Outcome E → Process × Outcome E
  stop_server ends r = finish_running r.0.server_handle server ends r

  abbrev pub stop_logger :
      (Process → Option (TaskEnd E)) → Process × Outcome E → Process × Outcome E
  stop_logger ends r = finish_running r.0.logger_handle logger ends r

  module _ (server_ends logger_ends : Process → Option (TaskEnd E)) where
    -- `run`, from its `select!` on.
    pub run_until : Ending E → Process → Process × Outcome E
    run_until event p =
        stop_logger logger_ends (drop_state (stop_server server_ends (cancel (selected event p))))
