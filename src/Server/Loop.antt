-- ===== src/Server/Loop.antt =====
-- The loop that `run_endpoint` of src/server.rs and `serve` of src/metrics.rs share: it accepts
-- connections and joins its tasks until it is cancelled or fails, and then waits for every task. What
-- a connection and its task do to the rest of the program is a parameter.
pub mod Drain
pub mod Shutdown
use honey_mind.Base.{
  length, ℕ, ◌+◌, ◌-◌, ◌<◌, ◌≡◌, Bool, true, false, Option, none, some, List, [], ◌∷◌, ◌++◌, Result,
  ok, err,
}

-- What `join_next` yields of a task.
pub data JoinResult : Type 0 where
  finished panicked : JoinResult

-- The errors of the loop.
pub data Fault : Type 0 where
  accept_failed task_panicked : Fault

-- Where a loop stands: about to poll its `select!`; in a poll that has found the token not cancelled; in one
-- that has then found no task to join; behind a connection that it is about to admit; waiting for its tasks;
-- or done.
pub data Phase : Type 0 where
  accepting asked listening admitting draining returned : Phase

-- What the arm of a connection does first: `continue`, spawn, or go on with the shared state as it is then.
pub data Next : Type 0 where
  refuses spawns admits_next : Next

-- The `JoinSet` of a loop, with its `failure`: the tasks that are spawned and not yet polled, those
-- that run, and those that have ended and are not yet joined, in the order of their ends.
pub record Pool : Type 0 where
  pub phase : Phase
  pub spawned : ℕ
  pub running : ℕ
  pub ended : List JoinResult
  pub failure : Option Fault

abbrev pub new_pool : Pool
new_pool = record { phase = accepting; spawned = 0; running = 0; ended = []; failure = none }

-- `tasks.len()`
abbrev pub tasks : Pool → ℕ
tasks p = p.spawned + p.running + length p.ended

-- The tasks that have not ended.
abbrev pub live : Pool → ℕ
live p = p.spawned + p.running

-- What the loop returns.
unfoldable pub result : Option Fault → Result (Unit {0}) Fault
result none = ok tt
result (some fault) = err fault

-- `failure.get_or_insert_with(…)`
abbrev pub first_fault : Option Fault → JoinResult → Option Fault
first_fault failure finished = failure
first_fault none panicked = some task_panicked
first_fault (some fault) panicked = some fault

-- What a loop works on: the state that it shares, whether its token is cancelled, and its tasks.
pub record World (X : Type 0) : Type 0 where
  pub shared : X
  pub cancelled : Bool
  pub pool : Pool

module _ {X : Type 0} where
  -- `break`, once the token is cancelled
  unfoldable pub stop : World X → World X
  stop w = record w { pool = record (w.pool) { phase = draining } }

  -- The next of the branches of the `select!`.
  abbrev pub poll_on : Phase → World X → World X
  poll_on phase w = record w { pool = record (w.pool) { phase = phase } }

  -- `failure = Some(…); shutdown.cancel(); break`
  abbrev pub fail : World X → Fault → World X
  fail w fault = record w {
    cancelled = true;
    pool = record (w.pool) { phase = draining; failure = some fault };
  }

  -- The `match` on a task that is joined.
  abbrev pub after_join : World X → JoinResult → World X
  after_join w finished = record w { pool = record (w.pool) { phase = accepting } }
  after_join w panicked = fail w task_panicked

  unfoldable pub join : World X → JoinResult → List JoinResult → World X
  join w r rest = after_join (record w { pool = record (w.pool) { ended = rest } }) r

  -- A round of the loop that waits for the tasks.
  unfoldable pub drain : World X → JoinResult → List JoinResult → World X
  drain w r rest = record w {
    pool = record (w.pool) { ended = rest; failure = first_fault w.pool.failure r };
  }

  unfoldable pub leave_loop : World X → World X
  leave_loop w = record w { pool = record (w.pool) { phase = returned } }

-- `check` is what the loop does with a connection first, `admit` what it does if it goes on, which tells
-- whether it spawns a task; `begin` and `leave` are what the task does to the shared state when it is
-- first polled, and at its end.
module _ {X I : Type 0} (check : Pool → X → I → X × Next) (admit : X → X × Bool)
    (begin leave : X → X) where
  abbrev pub spawn_task : World X → X → World X
  spawn_task w x = record w {
    shared = x;
    pool = record (w.pool) { phase = accepting; spawned = w.pool.spawned + 1 };
  }

  abbrev pub refuse_task : World X → X → World X
  refuse_task w x = record w { shared = x; pool = record (w.pool) { phase = accepting } }

  unfoldable pub after_check : World X → X × Next → World X
  after_check w (x, refuses) = refuse_task w x
  after_check w (x, spawns) = spawn_task w x
  after_check w (x, admits_next) = record w {
    shared = x;
    pool = record (w.pool) { phase = admitting };
  }

  unfoldable pub after_admit : World X → X × Bool → World X
  after_admit w (x, true) = spawn_task w x
  after_admit w (x, false) = refuse_task w x

  unfoldable pub take : World X → I → World X
  unfolding after_check
  take w i = after_check w (check w.pool w.shared i)

  unfoldable pub admit_taken : World X → World X
  unfolding after_admit
  admit_taken w = after_admit w (admit w.shared)

  unfoldable pub begin_task : World X → World X
  begin_task w = record w {
    shared = begin w.shared;
    pool = record (w.pool) { spawned = w.pool.spawned - 1; running = w.pool.running + 1 };
  }

  unfoldable pub end_task : World X → JoinResult → World X
  end_task w r = record w {
    shared = leave w.shared;
    pool = record (w.pool) { running = w.pool.running - 1; ended = w.pool.ended ++ r ∷ [] };
  }

  -- The steps of a loop and of its tasks. The `select!` is biased: in each poll the token is asked first,
  -- then the tasks that have ended, and only then the listener. Between these, and between the first and
  -- the second part of the arm of a connection, the rest of the program may act.
  pub data Move (w : World X) : World X → Type 0 where
    stops : w.pool.phase ≡ accepting → w.cancelled ≡ true → Move w (stop w)
    asks : w.pool.phase ≡ accepting → w.cancelled ≡ false → Move w (poll_on asked w)
    joins :
        (r : JoinResult) (rest : List JoinResult)
        → w.pool.phase ≡ asked
        → w.pool.ended ≡ r ∷ rest
        → Move w (join w r rest)
    finds_none : w.pool.phase ≡ asked → w.pool.ended ≡ [] → Move w (poll_on listening w)
    accepts : (i : I) → w.pool.phase ≡ listening → Move w (take w i)
    accept_fails : w.pool.phase ≡ listening → Move w (fail w accept_failed)
    waits : w.pool.phase ≡ listening → Move w (poll_on accepting w)
    admits : w.pool.phase ≡ admitting → Move w (admit_taken w)
    begins : 0 < w.pool.spawned → Move w (begin_task w)
    ends : (r : JoinResult) → 0 < w.pool.running → Move w (end_task w r)
    drains :
        (r : JoinResult) (rest : List JoinResult)
        → w.pool.phase ≡ draining
        → w.pool.ended ≡ r ∷ rest
        → Move w (drain w r rest)
    returns : w.pool.phase ≡ draining → live w.pool ≡ 0 → w.pool.ended ≡ [] → Move w (leave_loop w)
