-- ===== src/Server/Management.antt =====
-- src/metrics.rs: `serve`, the loop of the management listener, over the loop that it shares with the
-- workers. What a connection is answered is `Metrics.handle`.
mod Tests
use honey_mind.Base.{
  leb, if◌then◌else◌, length-append, ℕ, ◌+◌, ◌-◌, ◌≤◌, ◌≡◌, ◌∙◌, Bool, true, false, [], ◌∷◌, arith,
  Bool-cases, inl, inr,
}
use honey_mind.Metrics.{Metrics}
use honey_mind.Server.Loop.{
  Pool, World, Move, new_pool, tasks, stops, joins, accepts, accept_fails, begins, ends, drains,
  returns, stop, join, drain, leave_loop, take, after_admit, begin_task, end_task, finished,
  panicked, Next, admit_taken, after_check, asks, refuses, spawns, finds_none, waits, admits,
}

-- The arm of an accepted connection.
abbrev pub admit : ℕ → Pool → Metrics → Unit {0} → Metrics × Next
admit most p m i =
    if leb most (tasks p)
    then (record m { metrics_rejected_total = m.metrics_rejected_total + 1 }, refuses)
    else (m, spawns)

-- The arm has no second part.
abbrev pub none_more : Metrics → Metrics × Bool
none_more m = (m, false)

-- `ActiveGuard::new`, which a task calls first
abbrev pub begin : Metrics → Metrics
begin m = record m { metrics_active_connections = m.metrics_active_connections + 1 }

-- Its `drop`, however the task ends
abbrev pub leave : Metrics → Metrics
leave m = record m { metrics_active_connections = m.metrics_active_connections - 1 }

-- What the loop, its tasks and the rest of the program do, in any order. The rest of the program does
-- not touch the gauge of connections.
pub data Serves (most : ℕ) (w : World Metrics) : World Metrics → Type 0 where
  here : Serves most w w
  step :
      {v u : World Metrics}
      → Serves most w v
      → Move (admit most) none_more begin leave v u
      → Serves most w u
  others :
      {v : World Metrics} (m : Metrics)
      → Serves most w v
      → m.metrics_active_connections ≡ v.shared.metrics_active_connections
      → Serves most w (record v { shared = m })
  cancels : {v : World Metrics} → Serves most w v → Serves most w (record v { cancelled = true })

-- A new loop, with no connection.
abbrev pub started : Metrics → World Metrics
started m = record { shared = m; cancelled = false; pool = new_pool }

record Inv (most : ℕ) (w : World Metrics) : Type 0 where
  few : tasks w.pool ≤ most
  gauge : w.shared.metrics_active_connections ≡ w.pool.running

admit-Inv :
    (most : ℕ) (v : World Metrics)
    → Inv most v
    → Inv most (after_check (admit most) none_more begin leave v (admit most v.pool v.shared tt))
unfolding after_check
admit-Inv most v h = elim (Bool-cases (leb most (tasks v.pool))) [
  | inl e ↦ rw e (record { few = h.few; gauge = h.gauge })
  | inr e ↦ rw e (record { few = ground arith; gauge = h.gauge })
]

Move-Inv :
    (most : ℕ) (v w : World Metrics)
    → Move (admit most) none_more begin leave v w
    → Inv most v
    → Inv most w
unfolding stop join drain leave_loop take admit_taken after_admit begin_task end_task
Move-Inv most v _ (stops a c) h = record { few = h.few; gauge = h.gauge }
Move-Inv most v _ (asks a c) h = record { few = h.few; gauge = h.gauge }
Move-Inv most v _ (joins finished rest a e) h = record {
  few = ground (arith, h.few);
  gauge = h.gauge;
}
Move-Inv most v _ (joins panicked rest a e) h = record {
  few = ground (arith, h.few);
  gauge = h.gauge;
}
Move-Inv most v _ (finds_none a e) h = record { few = h.few; gauge = h.gauge }
Move-Inv most v _ (accepts i a) h = admit-Inv most v h
Move-Inv most v _ (waits a) h = record { few = h.few; gauge = h.gauge }
Move-Inv most v _ (admits a) h = record { few = h.few; gauge = h.gauge }
Move-Inv most v _ (accept_fails a) h = record { few = h.few; gauge = h.gauge }
Move-Inv most v _ (begins p) h = record {
  few = omega (arith, h.few);
  gauge = omega (arith, h.gauge);
}
Move-Inv most v _ (ends r p) h = record {
  few = omega (arith, h.few, length-append v.pool.ended (r ∷ []));
  gauge = omega (arith, h.gauge);
}
Move-Inv most v _ (drains r rest a e) h = record { few = ground (arith, h.few); gauge = h.gauge }
Move-Inv most v _ (returns a l e) h = record { few = h.few; gauge = h.gauge }

Serves-Inv : (most : ℕ) (w v : World Metrics) → Serves most w v → Inv most w → Inv most v
Serves-Inv most w _ here h = h
Serves-Inv most w _ (step {v} {u} s m) h = Move-Inv most v u m (Serves-Inv most w v s h)
Serves-Inv most w _ (others {v} m s e) h =
    let k = Serves-Inv most w v s h in record { few = k.few; gauge = e ∙ k.gauge }
Serves-Inv most w _ (cancels {v} s) h =
    let k = Serves-Inv most w v s h in record { few = k.few; gauge = k.gauge }

-- From a new loop with no connection counted, at every moment the loop has at most `max_connections`
-- tasks that are not joined, and the gauge of active connections is the number of those that run.
pub serve_bounds :
    (most : ℕ) (m : Metrics) (v : World Metrics)
    → m.metrics_active_connections ≡ 0
    → Serves most (started m) v
    → (tasks v.pool ≤ most) × (v.shared.metrics_active_connections ≡ v.pool.running)
serve_bounds most m v idle s =
    let k = Serves-Inv most (started m) v s (record { few = omega arith; gauge = idle }) in
    (k.few, k.gauge)
