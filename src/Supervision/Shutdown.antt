-- ===== src/Supervision/Shutdown.antt =====
-- How the process ends.
use honey_mind.Base.{is_ok, ◌≡◌, refl, Bool, true, false, Option, none, some, ◌&&◌, ok, err}
use honey_mind.Server.Workers.{TaskEnd, Shared, completed, join_failed, withdraw}
use honey_mind.Server.Workers.Verdict.{is_fine}
use honey_mind.Supervision.{
  Process, Ending, Handle, running, aborted, awaited, selected, cancel, drop_state, stop_server,
  spawned, signalled, server_ended, logger_ended, Name, Outcome, logger_error, run_until, joined,
  merge_finish, finish, logger, server, stop_logger, RunError,
}

abbrev pub is_running : Handle → Bool
is_running running = true
is_running awaited = false
is_running aborted = false

-- A process that is shutting down and whose server is over.
abbrev pub Quiet : Process → Type 0
Quiet p =
    (p.shared.cancelled ≡ true)
    × (p.shared.metrics.ready ≡ 0)
    × (p.holds_state ≡ false)
    × (is_running p.server_handle ≡ false)

module _ {E : Type 0} where
  -- Whether a task returned no error within the grace.
  abbrev pub in_time : Option (TaskEnd E) → Bool
  in_time none = false
  in_time (some end') = is_fine end'

  finish_server-Quiet :
      (outcome : Outcome E) (p : Process) (e : Option (TaskEnd E))
      → p.shared.cancelled ≡ true
      → p.shared.metrics.ready ≡ 0
      → Quiet (drop_state (merge_finish outcome (finish e server p))).0
  finish_server-Quiet outcome p none c r = (c, r, refl, refl)
  finish_server-Quiet outcome p (some end') c r = (c, r, refl, refl)

  is_ok-finish :
      (outcome : Outcome E) (name : Name) (p : Process) (e : Option (TaskEnd E))
      → is_ok (merge_finish outcome (finish e name p)).1 ≡ (is_ok outcome && in_time e)
  is_ok-finish (ok u) name p none = refl
  is_ok-finish (ok u) name p (some (completed (ok v))) = refl
  is_ok-finish (ok u) name p (some (completed (err e))) = refl
  is_ok-finish (ok u) name p (some join_failed) = refl
  is_ok-finish (err x) name p none = refl
  is_ok-finish (err x) name p (some (completed (ok v))) = refl
  is_ok-finish (err x) name p (some (completed (err e))) = refl
  is_ok-finish (err x) name p (some join_failed) = refl

  is_ok-joined : (end' : TaskEnd E) (name : Name) → is_ok (joined end' name) ≡ is_fine end'
  is_ok-joined (completed (ok u)) name = refl
  is_ok-joined (completed (err e)) name = refl
  is_ok-joined join_failed name = refl

  -- Nothing is left running, and the outcome is a success or not.
  abbrev pub IsOver : Process × Outcome E → Bool → Type 0
  IsOver (p, outcome) success =
      Quiet p × (is_running p.logger_handle ≡ false) × (is_ok outcome ≡ success)

  finish_logger-IsOver :
      (outcome : Outcome E) (p : Process) (e : Option (TaskEnd E)) (success : Bool)
      → Quiet p
      → is_ok outcome ≡ success
      → IsOver (merge_finish outcome (finish e logger p)) (success && in_time e)
  finish_logger-IsOver outcome p none success q w =
      (q, refl, rw (← w) (is_ok-finish outcome logger p none))
  finish_logger-IsOver outcome p (some end') success q w =
      (q, refl, rw (← w) (is_ok-finish outcome logger p (some end')))

  -- The server was asked to end, and then the log is.
  stop_logger-IsOver :
      (ends : Process → Option (TaskEnd E)) (outcome : Outcome E) (s : Shared)
      (e : Option (TaskEnd E))
      → let p = record (spawned s) { shared = withdraw s } in
        let asked = drop_state (merge_finish outcome (finish e server p)) in
        IsOver (stop_logger ends asked) ((is_ok outcome && in_time e) && in_time (ends asked.0))
  stop_logger-IsOver ends outcome s none =
      let p = record (spawned s) { shared = withdraw s } in
      let asked = drop_state (merge_finish outcome (finish none server p)) in
      finish_logger-IsOver asked.1 asked.0 (ends asked.0) (is_ok outcome && false)
        (refl, refl, refl, refl) (is_ok-finish outcome server p none)
  stop_logger-IsOver ends outcome s (some end') =
      let p = record (spawned s) { shared = withdraw s } in
      let asked = drop_state (merge_finish outcome (finish (some end') server p)) in
      finish_logger-IsOver asked.1 asked.0 (ends asked.0) (is_ok outcome && is_fine end')
        (refl, refl, refl, refl) (is_ok-finish outcome server p (some end'))

  -- The log had ended, and then the server is asked to.
  without_logger-IsOver :
      (ends : Process → Option (TaskEnd E)) (x : RunError E) (s : Shared) (e : Option (TaskEnd E))
      → let p = record (spawned s) { shared = withdraw s; logger_handle = awaited } in
        IsOver (stop_logger ends (drop_state (merge_finish (err x) (finish e server p)))) false
  without_logger-IsOver ends x s none = ((refl, refl, refl, refl), refl, refl)
  without_logger-IsOver ends x s (some end') =
      let p = record (spawned s) { shared = withdraw s; logger_handle = awaited } in
      ((refl, refl, refl, refl), refl, is_ok-finish (err x) server p (some end'))

  module _ (server_ends logger_ends : Process → Option (TaskEnd E)) where
    -- The process of which the server, and then the log, is asked to end.
    abbrev pub at_server : Ending E → Process → Process
    at_server event p = (cancel (selected event p)).0

    abbrev pub at_logger : Ending E → Process → Process
    at_logger event p = (drop_state (stop_server server_ends (cancel (selected event p)))).0

    -- What makes the exit of the process a success.
    abbrev pub all_well : Ending E → Process → Bool
    all_well (signalled result) p =
        (is_ok result && in_time (server_ends (at_server (signalled result) p)))
        && in_time (logger_ends (at_logger (signalled result) p))
    all_well (server_ended end') p =
        is_fine end' && in_time (logger_ends (at_logger (server_ended end') p))
    all_well (logger_ended end') p = false

    at_logger-Quiet : (event : Ending E) (s : Shared) → Quiet (at_logger event (spawned s))
    at_logger-Quiet (signalled result) s =
        finish_server-Quiet result (at_server (signalled result) (spawned s))
          (server_ends (at_server (signalled result) (spawned s))) refl refl
    at_logger-Quiet (server_ended end') s = (refl, refl, refl, refl)
    at_logger-Quiet (logger_ended end') s =
        finish_server-Quiet (err (logger_error (joined end' logger)))
          (at_server (logger_ended end') (spawned s))
          (server_ends (at_server (logger_ended end') (spawned s))) refl refl

    -- However the wait of the process ends, by a signal, by the server or by the log, and whatever
    -- the two tasks yield within their graces: at the end the token is cancelled, the process is not
    -- ready, the state is dropped, and neither task runs; and the exit is a success exactly if the
    -- signal arrived or the server returned without an error, the log had not ended, the server
    -- returned no error within its grace, and neither did the log, of which the process asks it once
    -- it is quiet: cancelled, not ready, without its state and its server.
    pub run_until_lem :
        (event : Ending E) (s : Shared)
        → Quiet (at_logger event (spawned s))
          × IsOver
              (run_until server_ends logger_ends event (spawned s))
              (all_well event (spawned s))
    unfolding run_until
    run_until_lem (signalled result) s = (
      at_logger-Quiet (signalled result) s,
      stop_logger-IsOver logger_ends result s
          (server_ends (at_server (signalled result) (spawned s))),
    )
    run_until_lem (server_ended end') s = (
      at_logger-Quiet (server_ended end') s,
      finish_logger-IsOver (joined end' server) (at_logger (server_ended end') (spawned s))
          (logger_ends (at_logger (server_ended end') (spawned s))) (is_fine end')
          (refl, refl, refl, refl) (is_ok-joined end' server),
    )
    run_until_lem (logger_ended end') s = (
      at_logger-Quiet (logger_ended end') s,
      without_logger-IsOver logger_ends (logger_error (joined end' logger)) s
          (server_ends (at_server (logger_ended end') (spawned s))),
    )
