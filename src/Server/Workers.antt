-- ===== src/Server/Workers.antt =====
-- src/server.rs: what `BoundServer::run` does with its workers, once they are spawned.
pub mod Verdict
use honey_mind.Base.{
  if◌then◌else◌, Result, ok, err, Bool, true, Option, none, some, List, [], ◌∷◌, ℕ,
}
use honey_mind.Metrics.{Metrics}

-- What awaiting a task yields: its result, or a `JoinError`.
pub data TaskEnd (E : Type 0) : Type 0 where
  completed : Result (Unit {0}) E → TaskEnd E
  join_failed : TaskEnd E

pub data ServerError (E : Type 0) : Type 0 where
  worker_error : E → ServerError E
  worker_panicked join_error stopped_unexpectedly no_management_address : ServerError E

-- How the `select!` of `run` ends: by the token, which is asked first, or by a worker.
pub data Wake (E : Type 0) : Type 0 where
  shutdown_first : Wake E
  worker_first : Option (TaskEnd E) → Wake E

-- The token and the counters, which the server shares with the rest of the process.
pub record Shared : Type 0 where
  pub cancelled : Bool
  pub metrics : Metrics

abbrev pub set_ready : ℕ → Shared → Shared
set_ready n s = record s { metrics = record (s.metrics) { ready = n } }

-- `if !state.shutdown.is_cancelled() { state.metrics.ready.set(1); }`
abbrev pub announce : Shared → Shared
announce s = if s.cancelled then s else set_ready 1 s

-- `ready.set(0); shutdown.cancel();`
abbrev pub withdraw : Shared → Shared
withdraw s = record (set_ready 0 s) { cancelled = true }

module _ {E : Type 0} where
  abbrev pub first_failure : Option (TaskEnd E) → ServerError E
  first_failure (some (completed (err e))) = worker_error e
  first_failure (some join_failed) = worker_panicked
  first_failure (some (completed (ok u))) = stopped_unexpectedly
  first_failure none = stopped_unexpectedly

  abbrev pub failure_of : Wake E → Option (ServerError E)
  failure_of shutdown_first = none
  failure_of (worker_first r) = some (first_failure r)

  -- `failure.get_or_insert(…)`
  abbrev pub get_or_insert : Option (ServerError E) → ServerError E → Option (ServerError E)
  get_or_insert none e = some e
  get_or_insert (some first) e = some first

  abbrev pub after_worker : Option (ServerError E) → TaskEnd E → Option (ServerError E)
  after_worker failure (completed (err e)) = get_or_insert failure (worker_error e)
  after_worker failure join_failed = get_or_insert failure join_error
  after_worker failure (completed (ok u)) = failure

  -- The loop that joins what is left of the workers, in the order of their ends.
  pub join_all : Option (ServerError E) → List (TaskEnd E) → Option (ServerError E)
  join_all failure [] = failure
  join_all failure (t ∷ ts) = join_all (after_worker failure t) ts

  abbrev pub verdict : Option (ServerError E) → Result (Unit {0}) (ServerError E)
  verdict none = ok tt
  verdict (some e) = err e

  -- What `announce` leaves is what the server is while it serves.
  unfoldable pub supervise_workers :
      Shared → Wake E → List (TaskEnd E) → Shared × Result (Unit {0}) (ServerError E)
  unfolding join_all
  supervise_workers s wake rest = (withdraw (announce s), verdict (join_all (failure_of wake) rest))
